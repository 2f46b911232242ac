-- ===== src/Protocol/Handshake/Host/Invariant.antt =====
-- Every call keeps the host's slots well formed.
use online_jam.Prelude.{
  ℕ, ◌≡◌, refl, sym, ◌∙◌, inl, inr, List, [], ◌∷◌, some, arith, Bytes, bytes_eq, ◌==◌, Bool-cases,
  Option-cases, set, length-set,
}
use online_jam.Protocol.{protocol_version}
use online_jam.Protocol.Handshake.{SocketAddr, SessionParams}
use online_jam.Protocol.Handshake.Host
use online_jam.Protocol.Handshake.Host.{
  Slot, SlotState, Slots, HostHandshake, HostAction, slot_at, slot_of_sender, position_addr,
  position_free, welcomed, admit, on_hello, welcome_sent, on_ack, mark_heard, on_bye,
}
use online_jam.Protocol.Handshake.Host.Distinct.{
  IsHost, addresses-set_same, Apart-set_free, position_addr-some, position_addr-none,
  position_free-some, addresses-map, addr_of-welcome_sent, addr_of-on_ack, tick_from-Thinner,
  remove_from-Thinner, IsHost-Thinner, IsHost-same,
}
use online_jam.Protocol.Packet.Types.{Control}

-- A call of the embedding control loop.
pub data Call : Type 0 where
  hello : SocketAddr → Control → (now : ℕ) → Call
  sent : SocketAddr → (seq : ℕ) → Call
  ack : SocketAddr → (seq now : ℕ) → Call
  heard : (sender_id now : ℕ) → Call
  bye : SocketAddr → Call
  tick : (now : ℕ) → Call

unfoldable pub step : HostHandshake → Call → HostHandshake × List HostAction
step h (Call.hello a c now) = on_hello h a c now
step h (Call.sent a seq) = (welcome_sent h a seq, [])
step h (Call.ack a seq now) = on_ack h a seq now
step h (Call.heard id now) = (mark_heard h id now, [])
step h (Call.bye a) = on_bye h a
step h (Call.tick now) = Host.tick h now

unfoldable pub run : HostHandshake → List Call → HostHandshake
run h [] = h
run h (c ∷ cs) = run (step h c).0 cs

admit-IsHost :
    (h : HostHandshake) (a : SocketAddr) (name : Bytes) (now : ℕ)
    → IsHost h
    → IsHost (admit h a name now).0
unfolding admit
admit-IsHost h a name now v = elim (Option-cases (position_addr a 0 h.slots)) [
  | inr (i, e) ↦
      let (k, at, s, found, same, lt) = position_addr-some h.slots a 0 i e in
      let i-eq : i ≡ k = omega arith in
      rw (e, admit)
        (IsHost-same h (set h.slots i (some (welcomed a name now))) v
          (rw i-eq (addresses-set_same h.slots k s (welcomed a name now) found (sym same))))
  | inl e ↦ elim (Option-cases (position_free 0 h.slots)) [
    | inl full ↦ rw (e, full, admit) v
    | inr (i, free) ↦
        let (k, at, found, lt) = position_free-some h.slots 0 i free in
        let i-eq : i ≡ k = omega arith in
        rw (e, free, admit)
          (rw i-eq (record {
            four = length-set h.slots k (some (welcomed a name now)) ∙ v.four;
            apart =
                Apart-set_free h.slots k (welcomed a name now) found
                  (position_addr-none h.slots a 0 e) v.apart;
          }))
  ]
]

on_hello-IsHost :
    (h : HostHandshake) (a : SocketAddr) (c : Control) (now : ℕ)
    → IsHost h
    → IsHost (on_hello h a c now).0
unfolding on_hello
on_hello-IsHost h a (Control.hello c) now v =
    elim (Bool-cases (c.proto_version == protocol_version)) [
      | inr bad ↦ rw bad v
      | inl good ↦ elim (Bool-cases (bytes_eq c.room_code h.room_code)) [
        | inr wrong ↦ rw (good, wrong) v
        | inl right ↦ rw (good, right) (admit-IsHost h a c.name now v)
      ]
    ]
on_hello-IsHost h a _ now v = v

mark_heard-IsHost : (h : HostHandshake) (id now : ℕ) → IsHost h → IsHost (mark_heard h id now)
unfolding mark_heard
mark_heard-IsHost h id now v = elim (Option-cases (slot_of_sender id)) [
  | inl e ↦ rw (e, mark_heard) v
  | inr (i, e) ↦ elim (Option-cases (slot_at h.slots i)) [
    | inl free ↦ rw (e, free, mark_heard) v
    | inr (s, taken) ↦
        rw (e, taken, mark_heard) (IsHost-same h _ v (addresses-set_same h.slots i s _ taken refl))
  ]
]

-- Each call keeps four slots, of which no two hold one address.
pub step-IsHost : (h : HostHandshake) (c : Call) → IsHost h → IsHost (step h c).0
unfolding step welcome_sent on_ack on_bye Host.tick
step-IsHost h (Call.hello a c now) v = on_hello-IsHost h a c now v
step-IsHost h (Call.sent a seq) v =
    IsHost-same h _ v (addresses-map _ h.slots (addr_of-welcome_sent a seq))
step-IsHost h (Call.ack a seq now) v =
    IsHost-same h _ v (addresses-map _ h.slots (addr_of-on_ack a seq now))
step-IsHost h (Call.heard id now) v = mark_heard-IsHost h id now v
step-IsHost h (Call.bye a) v =
    IsHost-Thinner h _ v (remove_from-Thinner a Host.LeaveReason.bye 0 h.slots)
step-IsHost h (Call.tick now) v = IsHost-Thinner h _ v (tick_from-Thinner now 0 h.slots)

run-IsHost : (h : HostHandshake) (cs : List Call) → IsHost h → IsHost (run h cs)
unfolding run
run-IsHost h [] v = v
run-IsHost h (c ∷ cs) v = run-IsHost (step h c).0 cs (step-IsHost h c v)

-- After any history of calls, whatever arrives and in whatever order, a new host has four slots,
-- of which no two hold one address.
pub run-new-IsHost :
    (code : Bytes) (session : ℕ) (params : SessionParams) (name : Bytes) (cs : List Call)
    → IsHost (run (Host.new code session params name) cs)
unfolding Host.new
run-new-IsHost code session params name cs = run-IsHost _ cs (record { four = refl; apart = tt })
