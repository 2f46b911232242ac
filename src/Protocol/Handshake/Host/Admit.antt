-- ===== src/Protocol/Handshake/Host/Admit.antt =====
-- How the host answers a HELLO.
use online_jam.Prelude.{
  ℕ, ◌≡◌, ◌≢◌, refl, ◌∙◌, [], ◌∷◌, none, some, arith, set, bytes_eq_iff, Bytes,
}
use online_jam.Protocol.{protocol_version}
use online_jam.Protocol.Packet.Types.{Control, Hello}
use online_jam.Protocol.Handshake.{SocketAddr}
use online_jam.Protocol.Handshake.Host.{
  HostHandshake, HostAction, slot_at, position_addr, position_free, welcomed, welcome_for, admit,
  on_hello, sender_id, broadcast_roster,
}
use online_jam.Protocol.Handshake.Host.Distinct.{IsHost, position_addr-some, position_free-some}
use online_jam.Protocol.Handshake.Host.Slots.{slot_at-set_self, slot_at-set_ne}

-- The host with a slot given to a client that is welcomed now.
unfoldable pub seated : HostHandshake → ℕ → SocketAddr → Bytes → ℕ → HostHandshake
seated h k a name now = record h { slots = set h.slots k (some (welcomed a name now)) }

-- A HELLO of this host's version and room.
unfoldable pub IsWanted : HostHandshake → Hello → Type 0
IsWanted h c = (c.proto_version ≡ protocol_version) × (c.room_code ≡ h.room_code)

pub on_hello-wanted :
    (h : HostHandshake) (a : SocketAddr) (c : Hello) (now : ℕ)
    → IsWanted h c
    → on_hello h a (Control.hello c) now ≡ admit h a c.name now
unfolding on_hello IsWanted
on_hello-wanted h a c now (v, r) =
    let same = (bytes_eq_iff c.room_code h.room_code).1 r in rw (v, same) refl

-- A wanted HELLO from an address that has a slot is answered with a WELCOME alone, of the id that
-- the address has; the slot starts over, and no other slot changes.
pub on_hello-retry :
    (h : HostHandshake) (a : SocketAddr) (c : Hello) (now k : ℕ)
    → IsHost h
    → IsWanted h c
    → position_addr a 0 h.slots ≡ some k
    → let h' = seated h k a c.name now in
      (on_hello h a (Control.hello c) now ≡ (h', HostAction.send a (welcome_for h' k) ∷ []))
      × (slot_at h'.slots k ≡ some (welcomed a c.name now))
      × ((j : ℕ) → k ≢ j → slot_at h'.slots j ≡ slot_at h.slots j)
unfolding admit seated
on_hello-retry h a c now k v wanted e =
    let (i, at, s, found, same, lt) = position_addr-some h.slots a 0 k e in
    (
      on_hello-wanted h a c now wanted ∙ rw (admit, e) refl,
      slot_at-set_self h.slots k (some (welcomed a c.name now)) (omega arith),
      (λ j ne. slot_at-set_ne h.slots k j (some (welcomed a c.name now)) ne),
    )

-- A wanted HELLO from an address that has no slot, when slot `k` is the first free one, seats the
-- client in it: the WELCOME with that slot's id goes out first, then the join is reported, then
-- the others get the new roster; no other slot changes.
pub on_hello-seated :
    (h : HostHandshake) (a : SocketAddr) (c : Hello) (now k : ℕ)
    → IsHost h
    → IsWanted h c
    → position_addr a 0 h.slots ≡ none
    → position_free 0 h.slots ≡ some k
    → let h' = seated h k a c.name now in
      (on_hello h a (Control.hello c) now ≡ (
        h',
        HostAction.send a (welcome_for h' k)
            ∷ HostAction.client_joined (sender_id k) c.name
            ∷ broadcast_roster h' (some a),
      ))
      × (slot_at h'.slots k ≡ some (welcomed a c.name now))
      × ((j : ℕ) → k ≢ j → slot_at h'.slots j ≡ slot_at h.slots j)
unfolding admit seated
on_hello-seated h a c now k v wanted stranger free =
    let (i, at, found, lt) = position_free-some h.slots 0 k free in
    (
      on_hello-wanted h a c now wanted ∙ rw (admit, stranger, free) refl,
      slot_at-set_self h.slots k (some (welcomed a c.name now)) (omega arith),
      (λ j ne. slot_at-set_ne h.slots k j (some (welcomed a c.name now)) ne),
    )
