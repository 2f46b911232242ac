-- ===== src/Protocol/Handshake/Host.antt =====
-- The host's side of crates/jam-protocol/src/handshake.rs. A method that changes the state returns
-- it with its actions; `now_ms` is an argument. On u64, `saturating_sub` is the subtraction of ℕ.
pub mod Admit
pub mod Answer
pub mod Distinct
pub mod Expiry
pub mod Invariant
pub mod Mapping
pub mod Seats
pub mod Slots
use online_jam.Prelude.{
  ℕ, suc, ◌+◌, ◌-◌, ◌%◌, Bool, true, false, not, ◌&&◌, ◌||◌, List, [], ◌∷◌, ◌++◌, map, Option, none,
  some, ltb, leb, ◌==◌, if◌then◌else◌, Bytes, bytes_eq, get_elem?, set, replicate,
}
use online_jam.Protocol.{
  protocol_version, max_clients, host_sender_id, control_retry_ms, control_max_tries,
  peer_timeout_ms, u16_mod,
}
use online_jam.Protocol.Handshake.{SocketAddr, SessionParams}
use online_jam.Protocol.Packet.Types.{Control, Hello, DenyReason, PlayerInfo}

pub data LeaveReason : Type 0 where
  bye timeout welcome_unacked : LeaveReason

pub data SlotState : Type 0 where
  pending : (welcome_seq : Option ℕ) → (last_tx_ms tries : ℕ) → SlotState
  active : SlotState

pub record Slot : Type 0 where
  pub addr : SocketAddr
  pub name : Bytes
  pub state : SlotState
  pub last_heard_ms : ℕ

pub data HostAction : Type 0 where
  send : (to : SocketAddr) → Control → HostAction
  client_joined : (sender_id : ℕ) → (name : Bytes) → HostAction
  client_left : (sender_id : ℕ) → LeaveReason → HostAction

-- `[Option<Slot>; MAX_CLIENTS]` is a list of that length.
abbrev pub Slots : Type 0
Slots = List (Option Slot)

pub record HostHandshake : Type 0 where
  pub room_code : Bytes
  pub session_id : ℕ
  pub params : SessionParams
  pub host_name : Bytes
  pub slots : Slots

unfoldable pub new : Bytes → ℕ → SessionParams → Bytes → HostHandshake
new code session params name = record {
  room_code = code;
  session_id = session;
  params = params;
  host_name = name;
  slots = replicate max_clients none;
}

unfoldable pub sender_id : ℕ → ℕ
sender_id slot = (slot + 1) % u16_mod

unfoldable pub slot_of_sender : ℕ → Option ℕ
slot_of_sender id = if leb 1 id && leb id max_clients then some (id - 1) else none

-- The roster's entries for the slots from index `i` on.
unfoldable pub players_from : ℕ → Slots → List PlayerInfo
unfolding sender_id
players_from i [] = []
players_from i (none ∷ slots) = players_from (suc i) slots
players_from i (some s ∷ slots) =
    record { id = sender_id i; name = s.name } ∷ players_from (suc i) slots

unfoldable pub roster : HostHandshake → List PlayerInfo
unfolding players_from
roster h = record { id = host_sender_id; name = h.host_name } ∷ players_from 0 h.slots

-- The slot at an index, if it is taken.
abbrev pub slot_at : Slots → ℕ → Option Slot
slot_at slots i = elim (get_elem? slots i) [ none ↦ none | some s ↦ s ]

unfoldable pub client_addr : HostHandshake → ℕ → Option SocketAddr
unfolding slot_of_sender
client_addr h id = elim (slot_of_sender id) [
  | none ↦ none
  | some i ↦ elim (slot_at h.slots i) [ none ↦ none | some s ↦ some s.addr ]
]

unfoldable pub addrs_from : ℕ → Slots → List (ℕ × SocketAddr)
unfolding sender_id
addrs_from i [] = []
addrs_from i (none ∷ slots) = addrs_from (suc i) slots
addrs_from i (some s ∷ slots) = (sender_id i, s.addr) ∷ addrs_from (suc i) slots

unfoldable pub client_addrs : HostHandshake → List (ℕ × SocketAddr)
unfolding addrs_from
client_addrs h = addrs_from 0 h.slots

-- `iter().position(..)` by address, and of the first free slot, counted from `i`.
abbrev pub has_addr : SocketAddr → Option Slot → Bool
has_addr a none = false
has_addr a (some s) = s.addr == a

unfoldable pub position_addr : SocketAddr → ℕ → Slots → Option ℕ
position_addr a i [] = none
position_addr a i (s ∷ slots) = if has_addr a s then some i else position_addr a (suc i) slots

unfoldable pub position_free : ℕ → Slots → Option ℕ
position_free i [] = none
position_free i (none ∷ slots) = some i
position_free i (some s ∷ slots) = position_free (suc i) slots

unfoldable pub sender_for_addr : HostHandshake → SocketAddr → Option ℕ
unfolding position_addr sender_id
sender_for_addr h a = elim (position_addr a 0 h.slots) [ none ↦ none | some i ↦ some (sender_id i) ]

unfoldable pub welcome_for : HostHandshake → ℕ → Control
unfolding sender_id roster
welcome_for h slot = Control.welcome (record {
  assigned_id = sender_id slot;
  session_id = h.session_id;
  sample_rate = h.params.sample_rate;
  frame_samples = h.params.frame_samples;
  codec = h.params.codec;
  roster = roster h;
})

-- One ROSTER for each taken slot whose address is not `except`.
unfoldable pub rosters : List PlayerInfo → Option SocketAddr → Slots → List HostAction
rosters players except [] = []
rosters players except (none ∷ slots) = rosters players except slots
rosters players except (some s ∷ slots) =
    let rest = rosters players except slots in
    if elim except [ none ↦ false | some a ↦ s.addr == a ]
    then rest
    else HostAction.send s.addr (Control.roster players) ∷ rest

unfoldable pub broadcast_roster : HostHandshake → Option SocketAddr → List HostAction
unfolding rosters roster
broadcast_roster h except = rosters (roster h) except h.slots

-- A slot of which WELCOME goes out now, for the first time.
abbrev pub welcomed : SocketAddr → Bytes → ℕ → Slot
welcomed addr name now = record {
  addr = addr;
  name = name;
  state = SlotState.pending none now 1;
  last_heard_ms = now;
}

abbrev pub deny : SocketAddr → DenyReason → List HostAction
deny addr reason = HostAction.send addr (Control.deny reason) ∷ []

-- `on_hello` past its two checks.
unfoldable pub admit : HostHandshake → SocketAddr → Bytes → ℕ → HostHandshake × List HostAction
unfolding position_addr position_free welcome_for broadcast_roster
admit h addr name now = elim (position_addr addr 0 h.slots) [
  | some slot ↦
      let h' = record h { slots = set h.slots slot (some (welcomed addr name now)) } in
      (h', HostAction.send addr (welcome_for h' slot) ∷ [])
  | none ↦ elim (position_free 0 h.slots) [
    | none ↦ (h, deny addr DenyReason.room_full)
    | some slot ↦
        let h' = record h { slots = set h.slots slot (some (welcomed addr name now)) } in
        (
          h',
          HostAction.send addr (welcome_for h' slot)
              ∷ HostAction.client_joined (sender_id slot) name
              ∷ broadcast_roster h' (some addr),
        )
  ]
]

unfoldable pub on_hello : HostHandshake → SocketAddr → Control → ℕ → HostHandshake × List HostAction
unfolding admit
on_hello h addr (Control.hello c) now =
    if not (c.proto_version == protocol_version)
    then (h, deny addr DenyReason.version_mismatch)
    else if not (bytes_eq c.room_code h.room_code)
    then (h, deny addr DenyReason.bad_room_code)
    else admit h addr c.name now
on_hello h addr _ now = (h, [])

-- The new state of a slot whose WELCOME was stamped with `seq`.
abbrev captured : ℕ → SlotState → SlotState
captured seq (SlotState.pending _ last tries) = SlotState.pending (some seq) last tries
captured seq SlotState.active = SlotState.active

unfoldable pub welcome_sent_slot : SocketAddr → ℕ → Option Slot → Option Slot
welcome_sent_slot to seq none = none
welcome_sent_slot to seq (some s) =
    if s.addr == to then some (record s { state = captured seq s.state }) else some s

unfoldable pub welcome_sent : HostHandshake → SocketAddr → ℕ → HostHandshake
unfolding welcome_sent_slot
welcome_sent h to seq = record h { slots = map (welcome_sent_slot to seq) h.slots }

-- The new state of a slot on an ACK of `acked_seq`.
abbrev acked : ℕ → SlotState → SlotState
acked seq (SlotState.pending (some ws) last tries) =
    if ws == seq then SlotState.active else SlotState.pending (some ws) last tries
acked seq s = s

unfoldable pub on_ack_slot : SocketAddr → ℕ → ℕ → Option Slot → Option Slot
on_ack_slot addr seq now none = none
on_ack_slot addr seq now (some s) =
    if s.addr == addr
    then some (record s { state = acked seq s.state; last_heard_ms = now })
    else some s

unfoldable pub on_ack : HostHandshake → SocketAddr → ℕ → ℕ → HostHandshake × List HostAction
unfolding on_ack_slot
on_ack h addr seq now = (record h { slots = map (on_ack_slot addr seq now) h.slots }, [])

unfoldable pub mark_heard : HostHandshake → ℕ → ℕ → HostHandshake
unfolding slot_of_sender
mark_heard h id now = elim (slot_of_sender id) [
  | none ↦ h
  | some i ↦ elim (slot_at h.slots i) [
    | none ↦ h
    | some s ↦ record h {
      slots = set h.slots i (some (record s { state = SlotState.active; last_heard_ms = now }));
    }
  ]
]

-- The loop of `remove_where` for the predicate `s.addr == addr`, from index `i` on: the slots and
-- the actions; whether one was removed is whether there is an action.
unfoldable pub remove_from : SocketAddr → LeaveReason → ℕ → Slots → Slots × List HostAction × Bool
unfolding sender_id
remove_from addr reason i [] = ([], [], false)
remove_from addr reason i (s ∷ slots) =
    let (slots', actions, removed) = remove_from addr reason (suc i) slots in
    if has_addr addr s
    then (none ∷ slots', HostAction.client_left (sender_id i) reason ∷ actions, true)
    else (s ∷ slots', actions, removed)

unfoldable pub on_bye : HostHandshake → SocketAddr → HostHandshake × List HostAction
unfolding remove_from broadcast_roster
on_bye h addr =
    let (slots, actions, removed) = remove_from addr LeaveReason.bye 0 h.slots in
    let h' = record h { slots = slots } in
    (h', if removed then actions ++ broadcast_roster h' none else actions)

-- What the loop of `tick` does to one slot.
pub record Ticked : Type 0 where
  pub slot : Option Slot
  pub actions : List HostAction
  pub resend : Bool
  pub dropped : Bool

abbrev left : ℕ → LeaveReason → Ticked
left id reason = record {
  slot = none;
  actions = HostAction.client_left id reason ∷ [];
  resend = false;
  dropped = true;
}

abbrev kept : Slot → Bool → Ticked
kept s again = record { slot = some s; actions = []; resend = again; dropped = false }

-- The state `Pending` of `tick`'s loop.
unfoldable pub tick_state : ℕ → ℕ → Slot → SlotState → Ticked
unfolding sender_id
tick_state now i s (SlotState.pending seq last tries) =
    if leb control_retry_ms (now - last)
    then if leb control_max_tries tries
      then left (sender_id i) LeaveReason.welcome_unacked
      else kept (record s { state = SlotState.pending seq now (tries + 1) }) true
    else kept s false
tick_state now i s SlotState.active = kept s false

unfoldable pub tick_slot : ℕ → ℕ → Option Slot → Ticked
unfolding tick_state
tick_slot now i none = record { slot = none; actions = []; resend = false; dropped = false }
tick_slot now i (some s) =
    if ltb peer_timeout_ms (now - s.last_heard_ms)
    then left (sender_id i) LeaveReason.timeout
    else tick_state now i s s.state

-- The loop of `tick` from index `i` on: the slots, the actions, the indices to resend to, and
-- whether a slot was dropped.
pub record Swept : Type 0 where
  pub slots : Slots
  pub actions : List HostAction
  pub resend : List ℕ
  pub dropped : Bool

unfoldable pub tick_from : ℕ → ℕ → Slots → Swept
unfolding tick_slot
tick_from now i [] = record { slots = []; actions = []; resend = []; dropped = false }
tick_from now i (s ∷ slots) =
    let t = tick_slot now i s in
    let r = tick_from now (suc i) slots in
    record {
      slots = t.slot ∷ r.slots;
      actions = t.actions ++ r.actions;
      resend = if t.resend then i ∷ r.resend else r.resend;
      dropped = t.dropped || r.dropped;
    }

unfoldable pub resends : HostHandshake → List ℕ → List HostAction
unfolding welcome_for
resends h [] = []
resends h (i ∷ is) =
    let rest = resends h is in
    elim (slot_at h.slots i) [
      | none ↦ rest
      | some s ↦ HostAction.send s.addr (welcome_for h i) ∷ rest
    ]

unfoldable pub tick : HostHandshake → ℕ → HostHandshake × List HostAction
unfolding tick_from resends broadcast_roster
tick h now =
    let swept = tick_from now 0 h.slots in
    let h' = record h { slots = swept.slots } in
    let actions = swept.actions ++ resends h' swept.resend in
    (h', if swept.dropped then actions ++ broadcast_roster h' none else actions)
