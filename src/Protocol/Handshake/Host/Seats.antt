-- ===== src/Protocol/Handshake/Host/Seats.antt =====
-- The four slots of the host of crates/jam-protocol/src/handshake.rs, and what it finds and says about them.
use online_jam.Prelude.{
  ℕ, zero, suc, ◌+◌, ◌%◌, ◌^◌, ◌≤◌, ◌<◌, ◌≡◌, ◌≢◌, refl, ap, ◌∙◌, ◌⊎◌, List, [], ◌∷◌, ◌++◌, Option,
  none, some, arith, set, length,
}
use online_jam.Protocol.{host_sender_id}
use online_jam.Protocol.Packet.Types.{Control, PlayerInfo}
use online_jam.Protocol.Handshake.{SocketAddr}
use online_jam.Protocol.Handshake.Host.{
  Slot, Slots, HostHandshake, HostAction, slot_at, position_addr, position_free, players_from,
  rosters, sender_id,
}

-- What `f` makes of the taken slots among those at the given indices, in that order.
abbrev pub cell : {A : Type 0} → (Slot → A) → Option Slot → List A
cell f none = []
cell f (some s) = f s ∷ []

abbrev pub each : {A : Type 0} → (ℕ → Slot → A) → Slots → List ℕ → List A
each f slots [] = []
each f slots (i ∷ is) = cell (f i) (slot_at slots i) ++ each f slots is

abbrev pub seats : List ℕ
seats = 0 ∷ 1 ∷ 2 ∷ 3 ∷ []

-- The host, and then the client in each taken slot: a slot's id is its index plus one.
abbrev pub roster_of : HostHandshake → List PlayerInfo
roster_of h =
    record { id = host_sender_id; name = h.host_name }
    ∷ each (λ i s. record { id = suc i; name = s.name }) h.slots seats

-- No slot has the address.
abbrev pub IsStranger : SocketAddr → Slots → Type 0
IsStranger a slots = (j : ℕ) (s : Slot) → slot_at slots j ≡ some s → s.addr ≢ a

-- All four slots are taken.
abbrev pub IsFull : Slots → Type 0
IsFull slots = (j : ℕ) → j < 4 → slot_at slots j ≢ none

-- A slot is free, or it is the address's own.
abbrev pub HasRoom : SocketAddr → Slots → Type 0
HasRoom a slots =
    (j : ℕ) × (j < 4)
    × ((slot_at slots j ≡ none) ⊎ ((s : Slot) × (slot_at slots j ≡ some s) × (s.addr ≡ a)))

-- `each` along the list of the slots.
pub each_from : {A : Type 0} → (ℕ → Slot → A) → ℕ → Slots → List A
each_from f i [] = []
each_from f i (s ∷ slots) = cell (f i) s ++ each_from f (suc i) slots

pub each-each_from :
    {A : Type 0} (f : ℕ → Slot → A) (slots : Slots)
    → length slots ≡ 4
    → each_from f 0 slots ≡ each f slots seats
unfolding each_from
each-each_from f (w ∷ x ∷ y ∷ z ∷ []) four = refl
each-each_from f [] four = absurd (omega arith)
each-each_from f (w ∷ []) four = absurd (omega arith)
each-each_from f (w ∷ x ∷ []) four = absurd (omega arith)
each-each_from f (w ∷ x ∷ y ∷ []) four = absurd (omega arith)
each-each_from f (w ∷ x ∷ y ∷ z ∷ v ∷ vs) four = absurd (omega arith)

pub players_from-each_from :
    (i : ℕ) (slots : Slots)
    → i + length slots ≤ 4
    → players_from i slots ≡ each_from (λ j s. record { id = suc j; name = s.name }) i slots
unfolding players_from each_from sender_id
players_from-each_from i [] small = refl
players_from-each_from i (none ∷ slots) small = players_from-each_from (suc i) slots (omega arith)
players_from-each_from i (some s ∷ slots) small =
    let rest = players_from-each_from (suc i) slots (omega arith) in
    let id : (i + 1) % 2 ^ 16 ≡ suc i = omega arith in cc

-- What the others are sent.
abbrev pub to_all : List PlayerInfo → ℕ → Slot → HostAction
to_all players j s = HostAction.send s.addr (Control.roster players)

rosters-each_from :
    (i : ℕ) (slots : Slots) (players : List PlayerInfo) (a : SocketAddr)
    → IsStranger a slots
    → rosters players (some a) slots ≡ each_from (to_all players) i slots
unfolding rosters each_from
rosters-each_from i [] players a far = refl
rosters-each_from i (none ∷ slots) players a far =
    rosters-each_from (suc i) slots players a (λ j s e. far (suc j) s e)
rosters-each_from i (some s ∷ slots) players a far =
    let rest = rosters-each_from (suc i) slots players a (λ j s e. far (suc j) s e) in
    let ne = far 0 s refl in ground (arith, rest)

-- The newcomer is sent no ROSTER.
pub rosters-set :
    (i k : ℕ) (slots : Slots) (players : List PlayerInfo) (t : Slot)
    → IsStranger t.addr slots
    → slot_at slots k ≡ none
    → k < length slots
    → rosters players (some t.addr) (set slots k (some t)) ≡ each_from (to_all players) i slots
unfolding rosters each_from
rosters-set i k [] players t far free lt = absurd (omega arith)
rosters-set i zero (none ∷ slots) players t far free lt =
    let rest = rosters-each_from (suc i) slots players t.addr (λ j s e. far (suc j) s e) in
    ground (arith, rest)
rosters-set i zero (some s ∷ slots) players t far free lt = absurd (ground arith)
rosters-set i (suc k) (none ∷ slots) players t far free lt =
    rosters-set (suc i) k slots players t (λ j s e. far (suc j) s e) free (omega arith)
rosters-set i (suc k) (some s ∷ slots) players t far free lt =
    let rest =
      rosters-set (suc i) k slots players t (λ j s e. far (suc j) s e) free (omega arith) in
    let ne = far 0 s refl in ground (arith, rest)

pub IsStranger-position_addr :
    (i : ℕ) (slots : Slots) (a : SocketAddr) → IsStranger a slots → position_addr a i slots ≡ none
unfolding position_addr
IsStranger-position_addr i [] a far = refl
IsStranger-position_addr i (none ∷ slots) a far =
    IsStranger-position_addr (suc i) slots a (λ j s e. far (suc j) s e)
IsStranger-position_addr i (some s ∷ slots) a far =
    let rest = IsStranger-position_addr (suc i) slots a (λ j s e. far (suc j) s e) in
    let ne = far 0 s refl in ground (arith, rest)

pub position_free-first :
    (i k : ℕ) (slots : Slots)
    → slot_at slots k ≡ none
    → k < length slots
    → ((j : ℕ) → j < k → slot_at slots j ≢ none)
    → position_free i slots ≡ some (i + k)
unfolding position_free
position_free-first i k [] free lt taken = absurd (omega arith)
position_free-first i zero (none ∷ slots) free lt taken = ap some (omega arith)
position_free-first i zero (some s ∷ slots) free lt taken = absurd (ground arith)
position_free-first i (suc k) (none ∷ slots) free lt taken = absurd (taken 0 (omega arith) refl)
position_free-first i (suc k) (some s ∷ slots) free lt taken =
    position_free-first (suc i) k slots free (omega arith) (λ j less. taken (suc j) (omega arith))
    ∙ ap some (omega arith)

pub position_free-full :
    (i : ℕ) (slots : Slots)
    → position_free i slots ≡ none
    → (j : ℕ) → j < length slots
    → slot_at slots j ≢ none
unfolding position_free
position_free-full i [] e j lt = absurd (omega arith)
position_free-full i (none ∷ slots) e j lt = absurd (ground arith)
position_free-full i (some s ∷ slots) e zero lt = ground arith
position_free-full i (some s ∷ slots) e (suc j) lt =
    position_free-full (suc i) slots e j (omega arith)
