-- ===== src/Control/Host/Calls.antt =====
-- The actions that the host's handshake returns can be run, and turn a table of the clients' addresses
-- into the table after the call: crates/jam-protocol/src/handshake.rs under
-- crates/jam-core/src/control.rs.
use online_jam.Prelude.{
  ℕ, suc, ◌≤◌, ◌≡◌, refl, false, List, [], ◌∷◌, ◌++◌, map, Option, none, some, arith, All, length,
  length-append, ◌==◌, Bool-cases, Option-cases, inl, inr,
}
use online_jam.Protocol.Handshake.{SocketAddr}
use online_jam.Protocol.Handshake.Host.{
  HostHandshake, HostAction, Slots, sender_id, slot_at, players_from, roster, rosters,
  broadcast_roster, welcome_for, resends,
}
use online_jam.Protocol.Packet.Endian.{to_be, length-to_be}
use online_jam.Protocol.Packet.Layout
use online_jam.Protocol.Packet.Layout.{sent, sent_player}
use online_jam.Protocol.Packet.Types.{Control, PlayerInfo, codec_code}
use online_jam.Network.{AddrTable}
use online_jam.Control.Room.{Fits, players-le}
use online_jam.Control.Host.Effect.{IsRunnable, effect, effects}

players_from-le : (i : ℕ) (slots : Slots) → length (players_from i slots) ≤ length slots
unfolding players_from
players_from-le i [] = omega arith
players_from-le i (none ∷ slots) = let rest = players_from-le (suc i) slots in omega arith
players_from-le i (some s ∷ slots) = let rest = players_from-le (suc i) slots in omega arith

roster-le : (h : HostHandshake) → length h.slots ≡ 4 → length (roster h) ≤ 5
unfolding roster
roster-le h four = let rest = players_from-le 0 h.slots in omega arith

roster-Fits : (h : HostHandshake) → length h.slots ≡ 4 → Fits (Control.roster (roster h))
roster-Fits h four =
    let le = roster-le h four in let bytes = players-le (roster h) le in (le, omega arith)

pub welcome_for-Fits : (h : HostHandshake) (k : ℕ) → length h.slots ≡ 4 → Fits (welcome_for h k)
unfolding welcome_for
welcome_for-Fits h k four =
    let le = roster-le h four in
    let bytes = players-le (roster h) le in
    let p = Layout.players (map sent_player (roster h)) in
    let l0 = length-append (to_be 1 (codec_code h.params.codec)) p in
    let l1 =
      length-append (to_be 2 h.params.frame_samples) (to_be 1 (codec_code h.params.codec) ++ p) in
    let l2 =
      length-append (to_be 4 h.params.sample_rate)
        (to_be 2 h.params.frame_samples ++ (to_be 1 (codec_code h.params.codec) ++ p)) in
    let l3 = length-append (to_be 2 h.session_id) (
      to_be 4 h.params.sample_rate
      ++ (to_be 2 h.params.frame_samples ++ (to_be 1 (codec_code h.params.codec) ++ p))) in
    let l4 = length-append (to_be 2 (sender_id k)) (
      to_be 2 h.session_id
      ++ (to_be 4 h.params.sample_rate
          ++ (to_be 2 h.params.frame_samples ++ (to_be 1 (codec_code h.params.codec) ++ p)))) in
    (
      le,
      omega (
        arith,
        length-to_be 1 (codec_code h.params.codec),
        length-to_be 2 h.params.frame_samples,
        length-to_be 4 h.params.sample_rate,
        length-to_be 2 h.session_id,
        length-to_be 2 (sender_id k),
      ),
    )

-- A list of packets only: it can be run, and changes no table.
pub record AreSends (actions : List HostAction) : Type 0 where
  pub runnable : (held : AddrTable) → All (IsRunnable held) actions
  pub silent : (held t : AddrTable) → effects held actions t ≡ t

pub nil-AreSends : AreSends []
unfolding effects
nil-AreSends = record { runnable = λ held. tt; silent = λ held t. refl }

pub cons-AreSends :
    (to : SocketAddr) (c : Control) (actions : List HostAction)
    → Fits c
    → AreSends actions
    → AreSends (HostAction.send to c ∷ actions)
unfolding effects effect
cons-AreSends to c actions fits h = record {
  runnable = λ held. (fits, h.runnable held);
  silent = h.silent;
}

rosters-AreSends :
    (ps : List PlayerInfo) (except : Option SocketAddr) (slots : Slots)
    → Fits (Control.roster ps)
    → AreSends (rosters ps except slots)
unfolding rosters
rosters-AreSends ps except [] fits = nil-AreSends
rosters-AreSends ps except (none ∷ slots) fits = rosters-AreSends ps except slots fits
rosters-AreSends ps except (some s ∷ slots) fits =
    let rest = rosters-AreSends ps except slots fits in
    elim (Bool-cases (elim except [ none ↦ false | some a ↦ s.addr == a ])) [
      | inl e ↦ rw (rosters, e) rest
      | inr e ↦ rw (rosters, e) (cons-AreSends s.addr (Control.roster ps) _ fits rest)
    ]

pub broadcast_roster-AreSends :
    (h : HostHandshake) (except : Option SocketAddr)
    → length h.slots ≡ 4
    → AreSends (broadcast_roster h except)
unfolding broadcast_roster
broadcast_roster-AreSends h except four =
    rosters-AreSends (roster h) except h.slots (roster-Fits h four)

pub resends-AreSends :
    (h : HostHandshake) (is : List ℕ) → length h.slots ≡ 4 → AreSends (resends h is)
unfolding resends
resends-AreSends h [] four = nil-AreSends
resends-AreSends h (i ∷ is) four =
    let rest = resends-AreSends h is four in
    elim (Option-cases (slot_at h.slots i)) [
      | inl e ↦ rw (resends, e) rest
      | inr (s, e) ↦
          rw (resends, e)
            (cons-AreSends s.addr (welcome_for h i) _ (welcome_for-Fits h i four) rest)
    ]
