-- ===== src/Protocol/Handshake/Join.antt =====
-- A join from the first HELLO to the ACK of the WELCOME, on both sides.
use online_jam.Prelude.{ℕ, ◌<◌, ◌≡◌, refl, ap, ◌∙◌, List, ◌∷◌, none, some, arith, Bytes, map}
use online_jam.Protocol.Packet.Types.{Control}
use online_jam.Protocol.Handshake.{SocketAddr}
use online_jam.Protocol.Handshake.Client
use online_jam.Protocol.Handshake.Client.{ClientPhase, start, on_control, on_control_in}
use online_jam.Protocol.Handshake.Host.{
  Slot, SlotState, HostHandshake, HostAction, slot_at, position_addr, position_free, on_hello,
  welcome_sent, welcome_sent_slot, on_ack, on_ack_slot, sender_id, client_addr, welcome_for,
  welcomed,
}
use online_jam.Protocol.Handshake.Host.Distinct.{IsHost, position_free-some}
use online_jam.Protocol.Handshake.Host.Admit.{on_hello-seated, seated, IsWanted}
use online_jam.Protocol.Handshake.Host.Slots.{slot_at-map}
use online_jam.Protocol.Handshake.Host.Mapping.{slot_of_sender-sender_id}

acked-slot :
    (h : HostHandshake) (a : SocketAddr) (name : Bytes) (k now seq later : ℕ)
    → slot_at h.slots k ≡ some (welcomed a name now)
    → slot_at (on_ack (welcome_sent h a seq) a seq later).0.slots k
      ≡ some (record { addr = a; name = name; state = SlotState.active; last_heard_ms = later })
unfolding on_ack welcome_sent welcome_sent_slot on_ack_slot
acked-slot h a name k now seq later e =
    slot_at-map (on_ack_slot a seq later) (map (welcome_sent_slot a seq) h.slots) k refl
    ∙ ap (on_ack_slot a seq later)
        (slot_at-map (welcome_sent_slot a seq) h.slots k refl ∙ ap (welcome_sent_slot a seq) e)
    ∙ ground arith

client_addr-taken :
    (h : HostHandshake) (k : ℕ) (s : Slot)
    → k < 4
    → slot_at h.slots k ≡ some s
    → client_addr h (sender_id k) ≡ some s.addr
unfolding client_addr
client_addr-taken h k s lt taken = rw (client_addr, slot_of_sender-sender_id k lt, taken) refl

-- A client that knows the room code joins a host on which its address has no slot and slot `k` is
-- the first free one: the host's first answer to its HELLO makes the client join, with the id of
-- slot `k` and the host's session and parameters; and when the host has stamped that answer and
-- gets the ACK of its sequence number, the slot is active and the id routes to the client's address.
pub join-completes :
    (h : HostHandshake) (a : SocketAddr) (name : Bytes) (k t0 t1 t2 seq : ℕ)
    → IsHost h
    → position_addr a 0 h.slots ≡ none
    → position_free 0 h.slots ≡ some k
    → let c = (start (Client.new h.room_code name) t0).0 in
      let r = on_hello h a c.hello t1 in
      let h' = (on_ack (welcome_sent r.0 a seq) a seq t2).0 in
      (w : Control) × (rest : List HostAction) × (r.1 ≡ HostAction.send a w ∷ rest)
      × ((on_control c w).0.phase ≡ ClientPhase.joined (sender_id k) h.session_id h.params)
      × (slot_at h'.slots k
          ≡ some (record { addr = a; name = name; state = SlotState.active; last_heard_ms = t2 }))
      × (client_addr h' (sender_id k) ≡ some a)
unfolding start Client.new on_control on_control_in welcome_for IsWanted seated
join-completes h a name k t0 t1 t2 seq v stranger free =
    let c = (start (Client.new h.room_code name) t0).0 in
    let h0 = seated h k a name t1 in
    let (answer, seat, others) = on_hello-seated h a _ t1 k v (refl, refl) stranger free in
    let (i, at, found, lt) = position_free-some h.slots 0 k free in
    let host = ap (λ r. (on_ack (welcome_sent r.0 a seq) a seq t2).0) answer in
    let taken = acked-slot h0 a name k t1 seq t2 seat in
    (
      welcome_for h0 k,
      _,
      ap (λ r. r.1) answer,
      refl,
      ap (λ x. slot_at x.slots k) host ∙ taken,
      ap (λ x. client_addr x (sender_id k)) host
          ∙ client_addr-taken (on_ack (welcome_sent h0 a seq) a seq t2).0 k _
              (omega (arith, v.four)) taken,
    )
