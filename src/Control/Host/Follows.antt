-- ===== src/Control/Host/Follows.antt =====
-- Whatever the handshake of crates/jam-protocol/src/handshake.rs returns, its actions follow its slots.
use online_jam.Prelude.{
  ℕ, suc, ◌-◌, ◌<◌, ◌≡◌, refl, sym, ◌∙◌, ap, subst, List, [], ◌∷◌, ◌++◌, Option, none, some, arith,
  All, All-append, Bytes, length, length-map, length-set, get_or-set_self, set, ◌==◌, Bool-cases,
  Option-cases, inl, inr, bytes_eq,
}
use online_jam.Protocol.{protocol_version}
use online_jam.Protocol.Handshake.{SocketAddr}
use online_jam.Protocol.Handshake.Host
use online_jam.Protocol.Handshake.Host.{
  HostHandshake, HostAction, Slots, LeaveReason, sender_id, welcomed, welcome_for, deny,
  broadcast_roster, position_addr, position_free, admit, on_hello, on_bye, remove_from, tick_from,
  resends,
}
use online_jam.Protocol.Handshake.Host.Distinct.{
  IsHost, addr_of, addresses, addresses-set_same, position_addr-some, position_free-some,
}
use online_jam.Protocol.Handshake.Host.Invariant.{Call, step, step-IsHost}
use online_jam.Protocol.Packet.Types.{Control, DenyReason, deny_code}
use online_jam.Protocol.Packet.Endian.{length-to_be}
use online_jam.Network.{AddrTable, addr_at}
use online_jam.Control.Host.Calls.{
  AreSends, nil-AreSends, cons-AreSends, broadcast_roster-AreSends, resends-AreSends,
  welcome_for-Fits,
}
use online_jam.Control.Host.Clears.{
  Clears, Clears-IsRunnable, Clears-effects, sender_id-lem, remove_from-Clears, tick_from-Clears,
}
use online_jam.Control.Host.Effect.{IsRunnable, effect, effects, is_some, map-set}

-- A call's actions can all be run, and turn the addresses before it into those after it.
pub record Follows (h : HostHandshake) (r : HostHandshake × List HostAction) : Type 0 where
  pub runnable : All (IsRunnable (addresses r.0.slots)) r.1
  pub follows : effects (addresses r.0.slots) r.1 (addresses h.slots) ≡ addresses r.0.slots

pub effects-append :
    (held : AddrTable) (xs ys : List HostAction) (t : AddrTable)
    → effects held (xs ++ ys) t ≡ effects held ys (effects held xs t)
unfolding effects
effects-append held [] ys t = refl
effects-append held (x ∷ xs) ys t = effects-append held xs ys (effect held x t)

-- Packets to send after a call's actions change nothing of this.
Follows-sends :
    (h h' : HostHandshake) (actions more : List HostAction)
    → Follows h (h', actions)
    → AreSends more
    → Follows h (h', actions ++ more)
Follows-sends h h' actions more f s = record {
  runnable =
      All-append (IsRunnable (addresses h'.slots)) actions more f.runnable
        (s.runnable (addresses h'.slots));
  follows =
      effects-append (addresses h'.slots) actions more (addresses h.slots)
      ∙ s.silent (addresses h'.slots) _
      ∙ f.follows;
}

pub AreSends-Follows :
    (h h' : HostHandshake) (actions : List HostAction)
    → AreSends actions
    → addresses h'.slots ≡ addresses h.slots
    → Follows h (h', actions)
AreSends-Follows h h' actions s same = record {
  runnable = s.runnable (addresses h'.slots);
  follows = s.silent (addresses h'.slots) (addresses h.slots) ∙ sym same;
}

Clears-Follows :
    (h h' : HostHandshake) (actions : List HostAction)
    → IsHost h
    → Clears 0 (addresses h.slots) (addresses h'.slots) actions
    → Follows h (h', actions)
Clears-Follows h h' actions v c =
    let four : length (addresses h.slots) ≡ 4 = length-map addr_of h.slots ∙ v.four in
    record {
      runnable = Clears-IsRunnable (addresses h'.slots) c (omega arith);
      follows = Clears-effects (addresses h'.slots) c four;
    }

deny-AreSends : (a : SocketAddr) (reason : DenyReason) → AreSends (deny a reason)
deny-AreSends a reason =
    cons-AreSends a (Control.deny reason) [] (tt, omega (arith, length-to_be 1 (deny_code reason)))
      nil-AreSends

-- A table with the address of slot `k` put in it.
addr_at-set_self :
    (xs : AddrTable) (k : ℕ) (a : Option SocketAddr) → k < length xs → addr_at (set xs k a) k ≡ a
addr_at-set_self xs k a lt = get_or-set_self xs k a none lt

admit-Follows :
    (h : HostHandshake) (a : SocketAddr) (name : Bytes) (now : ℕ)
    → IsHost h
    → Follows h (admit h a name now)
unfolding admit effects effect
admit-Follows h a name now v = elim (Option-cases (position_addr a 0 h.slots)) [
  | inr (i, e) ↦
      let (k, at, s, found, same, lt) = position_addr-some h.slots a 0 i e in
      let h' : HostHandshake = record h { slots = set h.slots i (some (welcomed a name now)) } in
      let four : length h'.slots ≡ 4 = length-set h.slots i (some (welcomed a name now)) ∙ v.four in
      rw (admit, e)
        (AreSends-Follows h h' _
          (cons-AreSends a (welcome_for h' i) [] (welcome_for-Fits h' i four) nil-AreSends)
          (addresses-set_same h.slots i s (welcomed a name now)
            (subst (λ j. Host.slot_at h.slots j ≡ some s) (omega arith) found) (sym same)))
  | inl e ↦ elim (Option-cases (position_free 0 h.slots)) [
    | inl full ↦
        rw (admit, e, full)
          (AreSends-Follows h h (deny a DenyReason.room_full) (deny-AreSends a DenyReason.room_full)
            refl)
    | inr (i, free) ↦ rw (admit, e, free) (seat i free)
  ]
]
  where
    seat :
        (i : ℕ)
        → position_free 0 h.slots ≡ some i
        → let h' = record h { slots = set h.slots i (some (welcomed a name now)) } in
          Follows h (
            h',
            HostAction.send a (welcome_for h' i)
                ∷ HostAction.client_joined (sender_id i) name
                ∷ broadcast_roster h' (some a),
          )
    seat i free =
        let (k, at, found, lt) = position_free-some h.slots 0 i free in
        let h' : HostHandshake = record h { slots = set h.slots i (some (welcomed a name now)) } in
        let four : length h'.slots ≡ 4 =
          length-set h.slots i (some (welcomed a name now)) ∙ v.four in
        let id : sender_id i ≡ suc i = sender_id-lem i (omega (arith, v.four)) in
        let at_id : sender_id i - 1 ≡ i = omega arith in
        let news : addresses h'.slots ≡ set (addresses h.slots) i (some a) =
          map-set addr_of h.slots i (some (welcomed a name now)) in
        let there : addr_at (addresses h'.slots) i ≡ some a =
          ap (λ t. addr_at t i) news
          ∙ addr_at-set_self (addresses h.slots) i (some a)
              (omega (arith, length-map addr_of h.slots, v.four)) in
        let more = broadcast_roster-AreSends h' (some a) four in
        record {
          runnable = (
            welcome_for-Fits h' i four,
            (
              (
                omega arith,
                omega (arith, v.four),
                ap is_some (ap (addr_at (addresses h'.slots)) at_id ∙ there),
              ),
              more.runnable (addresses h'.slots),
            ),
          );
          follows =
              more.silent (addresses h'.slots) _
              ∙ ap (λ j. set (addresses h.slots) j (addr_at (addresses h'.slots) j)) at_id
              ∙ ap (set (addresses h.slots) i) there
              ∙ sym news;
        }

pub on_hello-Follows :
    (h : HostHandshake) (a : SocketAddr) (c : Control) (now : ℕ)
    → IsHost h
    → Follows h (on_hello h a c now)
unfolding on_hello
on_hello-Follows h a (Control.hello c) now v =
    elim (Bool-cases (c.proto_version == protocol_version)) [
      | inr bad ↦ rw bad (AreSends-Follows h h _ (deny-AreSends a DenyReason.version_mismatch) refl)
      | inl good ↦ elim (Bool-cases (bytes_eq c.room_code h.room_code)) [
        | inr wrong ↦
            rw (good, wrong)
              (AreSends-Follows h h _ (deny-AreSends a DenyReason.bad_room_code) refl)
        | inl right ↦ rw (good, right) (admit-Follows h a c.name now v)
      ]
    ]
on_hello-Follows h a _ now v = AreSends-Follows h h [] nil-AreSends refl

pub on_bye-Follows : (h : HostHandshake) (a : SocketAddr) → IsHost h → Follows h (on_bye h a)
unfolding on_bye step
on_bye-Follows h a v =
    let (slots, actions, removed) = remove_from a LeaveReason.bye 0 h.slots in
    let h' : HostHandshake = record h { slots = (remove_from a LeaveReason.bye 0 h.slots).0 } in
    let four : length h'.slots ≡ 4 = (step-IsHost h (Call.bye a) v).four in
    let f = Clears-Follows h h' _ v (remove_from-Clears a LeaveReason.bye 0 h.slots) in
    elim (Bool-cases (remove_from a LeaveReason.bye 0 h.slots).2) [
      | inr e ↦ rw (e, on_bye) f
      | inl e ↦ rw (e, on_bye) (Follows-sends h h' _ _ f (broadcast_roster-AreSends h' none four))
    ]

pub tick-Follows : (h : HostHandshake) (now : ℕ) → IsHost h → Follows h (Host.tick h now)
unfolding Host.tick step
tick-Follows h now v =
    let h' : HostHandshake = record h { slots = (tick_from now 0 h.slots).slots } in
    let four : length h'.slots ≡ 4 = (step-IsHost h (Call.tick now) v).four in
    let f = Clears-Follows h h' _ v (tick_from-Clears now 0 h.slots) in
    let again =
      Follows-sends h h' _ _ f (resends-AreSends h' (tick_from now 0 h.slots).resend four) in
    elim (Bool-cases (tick_from now 0 h.slots).dropped) [
      | inr e ↦ rw (e, Host.tick) again
      | inl e ↦
          rw (e, Host.tick) (Follows-sends h h' _ _ again (broadcast_roster-AreSends h' none four))
    ]
