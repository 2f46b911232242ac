-- ===== src/Control/Host/Mirror.antt =====
-- The state of the host's control thread in which the tables of the other threads are in step with the
-- handshake, and what keeps it: `spawn_host_control` of crates/jam-core/src/control.rs.
use online_jam.Prelude.{
  ℕ, suc, ◌+◌, ◌-◌, ◌/◌, ◌≡◌, refl, sym, ◌∙◌, ap, List, [], ◌∷◌, map, Option, some, arith, Bytes,
  length-replicate, leb, ltb, Bool-cases, Option-cases, inl, inr,
}
use online_jam.Prelude.Options.{◌>>=◌}
use online_jam.Protocol.Handshake.{SocketAddr, SessionParams}
use online_jam.Protocol.Handshake.Host
use online_jam.Protocol.Handshake.Host.{
  HostHandshake, HostAction, slot_at, slot_of_sender, sender_for_addr, mark_heard, on_hello, on_ack,
  on_bye, client_addrs,
}
use online_jam.Protocol.Handshake.Host.Distinct.{
  IsHost, addresses, addresses-set_same, addresses-map, addr_of-on_ack, IsHost-same,
}
use online_jam.Protocol.Packet.Types.{Control}
use online_jam.Session.{StreamShared, stream_of}
use online_jam.Protocol.Packet.Endian.{length-to_be}
use online_jam.Protocol.{keepalive_ms}
use online_jam.Session
use online_jam.Network.{no_addrs}
use online_jam.Control.{new_io}
use online_jam.Control.Room.{Fits}
use online_jam.Control.Host.{
  HostControl, run_after, heard, feed, send_all, pings, keepalives, snapshot, new,
}
use online_jam.Control.Host.Calls.{nil-AreSends}
use online_jam.Control.Host.Effect.{effects, table, table_after, actives, is_some, IsSized}
use online_jam.Control.Host.Run.{run-Ran, after_send, send_to-some}
use online_jam.Control.Host.Follows.{Follows, AreSends-Follows}

pub record IsMirror (st : HostControl) : Type 0 where
  pub host : IsHost st.hs
  pub sized : IsSized st
  pub tables : table st ≡ addresses st.hs.slots
  pub flags : actives st ≡ map is_some (table st)

-- The computation ends in such a state.
abbrev pub Ends : Option HostControl → Type 0
Ends o = (st : HostControl) × (o ≡ some st) × IsMirror st

pub Ends-some : (st : HostControl) → IsMirror st → Ends (some st)
Ends-some st m = (st, refl, m)

pub Ends-then :
    (o : Option HostControl) (f : HostControl → Option HostControl)
    → Ends o
    → ((st : HostControl) → IsMirror st → Ends (f st))
    → Ends (o >>= f)
Ends-then o f (st, e, m) next = let (st', e', m') = next st m in (st', rw e e', m')

pub IsHost-cast :
    (h h' : HostHandshake) → IsHost h → addresses h'.slots ≡ addresses h.slots → IsHost h'
IsHost-cast h h' v same =
    let v' = IsHost-same h h'.slots v same in record { four = v'.four; apart = v'.apart }

pub with_host-IsMirror :
    (st : HostControl) (h : HostHandshake)
    → IsMirror st
    → addresses h.slots ≡ addresses st.hs.slots
    → IsMirror (record st { hs = h })
unfolding table actives
with_host-IsMirror st h m same = record {
  host = IsHost-cast st.hs h m.host same;
  sized = record { buffer = m.sized.buffer; streams = m.sized.streams };
  tables = m.tables ∙ sym same;
  flags = m.flags;
}

pub run_after-Ends :
    (st : HostControl) (h : HostHandshake) (actions : List HostAction)
    → IsMirror st
    → IsHost h
    → Follows st.hs (h, actions)
    → Ends (run_after st (h, actions))
unfolding table actives
run_after-Ends st h actions m v f =
    let st0 : HostControl = record st { hs = h } in
    let sized0 : IsSized st0 = record { buffer = m.sized.buffer; streams = m.sized.streams } in
    let (st', ran, r) = run-Ran actions st0 sized0 f.runnable in
    (
      st',
      ran,
      record {
        host = IsHost-cast h st'.hs v r.held;
        sized = r.sized;
        tables =
            r.tables ∙ ap (effects (addresses h.slots) actions) m.tables ∙ f.follows ∙ sym r.held;
        flags = r.flags m.flags;
      },
    )

mark_heard-addresses :
    (h : HostHandshake) (id now : ℕ) → addresses (mark_heard h id now).slots ≡ addresses h.slots
unfolding mark_heard
mark_heard-addresses h id now = elim (Option-cases (slot_of_sender id)) [
  | inl e ↦ rw (mark_heard, e) refl
  | inr (i, e) ↦ elim (Option-cases (slot_at h.slots i)) [
    | inl free ↦ rw (mark_heard, e, free) refl
    | inr (s, taken) ↦ rw (mark_heard, e, taken) (addresses-set_same h.slots i s _ taken refl)
  ]
]

pub heard-addresses :
    (h : HostHandshake) (from : SocketAddr) (now : ℕ)
    → addresses (heard h from now).slots ≡ addresses h.slots
heard-addresses h from now = elim (Option-cases (sender_for_addr h from)) [
  | inl e ↦ rw (heard, e) refl
  | inr (id, e) ↦ rw (heard, e) (mark_heard-addresses h id now)
]

pub on_ack-Follows :
    (h : HostHandshake) (a : SocketAddr) (seq now : ℕ) → Follows h (on_ack h a seq now)
unfolding on_ack
on_ack-Follows h a seq now =
    AreSends-Follows h _ [] nil-AreSends (addresses-map _ h.slots (addr_of-on_ack a seq now))

send_all-Ends :
    (st : HostControl) (clients : List (ℕ × SocketAddr)) (c : ℕ → Control)
    → IsMirror st
    → ((i : ℕ) → Fits (c i))
    → Ends (send_all st clients c)
unfolding send_all table actives after_send
send_all-Ends st [] c m fits = Ends-some st m
send_all-Ends st ((id, addr) ∷ clients) c m fits =
    let (io, d, sends, room) = send_to-some st addr (c 0) m.sized (fits 0) in
    rw (send_all, sends)
      (send_all-Ends (after_send st io d) clients (λ i. c (suc i))
        (record {
          host = m.host;
          sized = record { buffer = room; streams = m.sized.streams };
          tables = m.tables;
          flags = m.flags;
        })
        (λ i. fits (suc i)))

pub feed-addresses :
    (slot : ℕ) (ss : List StreamShared) (h : HostHandshake)
    → addresses (feed slot ss h).slots ≡ addresses h.slots
unfolding feed
feed-addresses slot [] h = refl
feed-addresses slot (s ∷ ss) h = elim (Bool-cases (ltb 0 s.last_rx_us)) [
  | inr e ↦ rw (feed, e) (feed-addresses (suc slot) ss h)
  | inl e ↦
      rw (feed, e)
        (feed-addresses (suc slot) ss (mark_heard h (slot + 1) (s.last_rx_us / 1000))
          ∙ mark_heard-addresses h (slot + 1) (s.last_rx_us / 1000))
]

-- The times of the last packets are of no matter.
timed-IsMirror :
    (st : HostControl) (ping keepalive snap : ℕ)
    → IsMirror st
    → IsMirror (record st { last_ping = ping; last_keepalive = keepalive; last_snapshot = snap })
unfolding table actives
timed-IsMirror st ping keepalive snap m = record {
  host = m.host;
  sized = record { buffer = m.sized.buffer; streams = m.sized.streams };
  tables = m.tables;
  flags = m.flags;
}

ping-Fits : (t : ℕ) → Fits (Control.ping t)
ping-Fits t = (tt, omega (arith, length-to_be 8 t))

pub pings-Ends :
    (st : HostControl) (now : ℕ) (ping_us : ℕ → ℕ) → IsMirror st → Ends (pings st now ping_us)
unfolding pings
pings-Ends st now ping_us m = elim (Bool-cases (leb 1000 (now - st.last_ping))) [
  | inr e ↦ rw (pings, e) (Ends-some st m)
  | inl e ↦
      rw (pings, e)
        (send_all-Ends _ _ _ (timed-IsMirror st now st.last_keepalive st.last_snapshot m)
          (λ i. ping-Fits (ping_us i)))
]

pub keepalives-Ends : (st : HostControl) (now : ℕ) → IsMirror st → Ends (keepalives st now)
unfolding keepalives
keepalives-Ends st now m = elim (Bool-cases (leb keepalive_ms (now - st.last_keepalive))) [
  | inr e ↦ rw (keepalives, e) (Ends-some st m)
  | inl e ↦
      rw (keepalives, e)
        (send_all-Ends _ _ _ (timed-IsMirror st st.last_ping now st.last_snapshot m)
          (λ i. (tt, omega arith)))
]

pub snapshot-IsMirror : (st : HostControl) (now : ℕ) → IsMirror st → IsMirror (snapshot st now)
snapshot-IsMirror st now m = elim (Bool-cases (leb 500 (now - st.last_snapshot))) [
  | inr e ↦ rw (snapshot, e) m
  | inl e ↦ rw (snapshot, e) (timed-IsMirror st st.last_ping st.last_keepalive now m)
]

pub new-IsMirror :
    (code : Bytes) (params : SessionParams) (name : Bytes) (session_id : ℕ)
    → IsMirror (new code params name (Session.new session_id))
unfolding new Host.new new_io Session.new Session.new_stream table table_after no_addrs actives
new-IsMirror code params name session_id = record {
  host = record { four = refl; apart = tt };
  sized = record { buffer = length-replicate {A = ℕ} 2048 0; streams = refl };
  tables = refl;
  flags = refl;
}
