-- ===== src/Protocol/Handshake/Host/Distinct.antt =====
-- No address holds two slots of the host.
use online_jam.Prelude.{
  ℕ, zero, suc, ◌+◌, ◌<◌, ◌≡◌, ◌≢◌, refl, sym, ◌∙◌, ap, ◌⊎◌, inl, inr, List, [], ◌∷◌, map, Option,
  none, some, arith, ◌==◌, Bool-cases, length, get_elem?, set, length-map,
}
use online_jam.Protocol.Handshake.Host.{
  Slot, Slots, HostHandshake, slot_at, has_addr, position_addr, position_free, remove_from,
  LeaveReason, tick_slot, tick_from, welcome_sent_slot, on_ack_slot,
}

abbrev pub addr_of : Option Slot → Option ℕ
addr_of none = none
addr_of (some s) = some s.addr

abbrev pub addresses : Slots → List (Option ℕ)
addresses = map addr_of

abbrev pub Absent : ℕ → List (Option ℕ) → Type 0
Absent a [] = Unit {0}
Absent a (none ∷ xs) = Absent a xs
Absent a (some b ∷ xs) = (b ≢ a) × Absent a xs

-- Any two addresses at different places differ.
abbrev pub Apart : List (Option ℕ) → Type 0
Apart [] = Unit {0}
Apart (none ∷ xs) = Apart xs
Apart (some a ∷ xs) = Absent a xs × Apart xs

pub Absent-slot_at :
    (slots : Slots) (k : ℕ) {a : ℕ} {s : Slot}
    → Absent a (addresses slots)
    → slot_at slots k ≡ some s
    → s.addr ≢ a
Absent-slot_at [] k h e = ground arith
Absent-slot_at (none ∷ slots) zero h e = ground arith
Absent-slot_at (some t ∷ slots) zero h e = ground arith
Absent-slot_at (none ∷ slots) (suc k) h e = Absent-slot_at slots k h e
Absent-slot_at (some t ∷ slots) (suc k) h e = Absent-slot_at slots k h.1 e

-- The search by address finds the slot that holds the address, and only that one.
pub position_addr-slot_at :
    (slots : Slots) (k i : ℕ) {s : Slot}
    → Apart (addresses slots)
    → slot_at slots k ≡ some s
    → position_addr s.addr i slots ≡ some (i + k)
unfolding position_addr
position_addr-slot_at [] k i h e = ground arith
position_addr-slot_at (none ∷ slots) zero i h e = ground arith
position_addr-slot_at (some t ∷ slots) zero i h e = ground arith
position_addr-slot_at (none ∷ slots) (suc k) i h e =
    position_addr-slot_at slots k (suc i) h e ∙ ap some (omega arith)
position_addr-slot_at (some t ∷ slots) (suc k) i {s} h e = ground (
  arith,
  Absent-slot_at slots k {a = t.addr} {s = s} h.0 e,
  position_addr-slot_at slots k (suc i) {s = s} h.1 e,
)

pub position_addr-some :
    (slots : Slots) (a i j : ℕ)
    → position_addr a i slots ≡ some j
    → (k : ℕ) × (j ≡ i + k)
      × (s : Slot) × (slot_at slots k ≡ some s)
      × (s.addr ≡ a)
      × (k < length slots)
unfolding position_addr
position_addr-some [] a i j e = absurd (ground arith)
position_addr-some (none ∷ slots) a i j e =
    let (k, at, s, found, same, lt) = position_addr-some slots a (suc i) j e in
    (suc k, omega arith, s, found, same, omega arith)
position_addr-some (some t ∷ slots) a i j e = elim (Bool-cases (t.addr == a)) [
  | inl hit ↦ (0, ground arith, t, refl, ground arith, omega arith)
  | inr miss ↦
      let (k, at, s, found, same, lt) = position_addr-some slots a (suc i) j (ground arith) in
      (suc k, omega arith, s, found, same, omega arith)
]

pub position_addr-none :
    (slots : Slots) (a i : ℕ) → position_addr a i slots ≡ none → Absent a (addresses slots)
unfolding position_addr
position_addr-none [] a i e = tt
position_addr-none (none ∷ slots) a i e = position_addr-none slots a (suc i) e
position_addr-none (some t ∷ slots) a i e = ground (arith, position_addr-none slots a (suc i))

pub position_free-some :
    (slots : Slots) (i j : ℕ)
    → position_free i slots ≡ some j
    → (k : ℕ) × (j ≡ i + k) × (get_elem? slots k ≡ some none) × (k < length slots)
unfolding position_free
position_free-some [] i j e = absurd (ground arith)
position_free-some (none ∷ slots) i j e = (0, ground arith, refl, omega arith)
position_free-some (some t ∷ slots) i j e =
    let (k, at, found, lt) = position_free-some slots (suc i) j e in
    (suc k, omega arith, found, omega arith)

pub addresses-set_same :
    (slots : Slots) (k : ℕ) (s t : Slot)
    → slot_at slots k ≡ some s
    → t.addr ≡ s.addr
    → addresses (set slots k (some t)) ≡ addresses slots
addresses-set_same [] k s t e same = refl
addresses-set_same (none ∷ slots) zero s t e same = absurd (ground arith)
addresses-set_same (some r ∷ slots) zero s t e same = ground arith
addresses-set_same (r ∷ slots) (suc k) s t e same =
    ap (◌∷◌ (addr_of r)) (addresses-set_same slots k s t e same)

Absent-set_free :
    (slots : Slots) (k : ℕ) (t : Slot) (a : ℕ)
    → Absent a (addresses slots)
    → t.addr ≢ a
    → Absent a (addresses (set slots k (some t)))
Absent-set_free [] k t a h ne = tt
Absent-set_free (none ∷ slots) zero t a h ne = (ne, h)
Absent-set_free (some r ∷ slots) zero t a h ne = (ne, h.1)
Absent-set_free (none ∷ slots) (suc k) t a h ne = Absent-set_free slots k t a h ne
Absent-set_free (some r ∷ slots) (suc k) t a h ne = (h.0, Absent-set_free slots k t a h.1 ne)

pub Apart-set_free :
    (slots : Slots) (k : ℕ) (t : Slot)
    → get_elem? slots k ≡ some none
    → Absent t.addr (addresses slots)
    → Apart (addresses slots)
    → Apart (addresses (set slots k (some t)))
Apart-set_free [] k t e fresh h = tt
Apart-set_free (none ∷ slots) zero t e fresh h = (fresh, h)
Apart-set_free (some r ∷ slots) zero t e fresh h = absurd (ground arith)
Apart-set_free (none ∷ slots) (suc k) t e fresh h = Apart-set_free slots k t e fresh h
Apart-set_free (some r ∷ slots) (suc k) t e fresh h = (
  Absent-set_free slots k t r.addr h.0 (λ same. fresh.0 (sym same)),
  Apart-set_free slots k t e fresh.1 h.1,
)

pub addresses-map :
    (f : Option Slot → Option Slot) (slots : Slots)
    → ((s : Option Slot) → addr_of (f s) ≡ addr_of s)
    → addresses (map f slots) ≡ addresses slots
addresses-map f [] h = refl
addresses-map f (s ∷ slots) h = let head = h s in let rest = addresses-map f slots h in cc

pub addr_of-welcome_sent :
    (to seq : ℕ) (s : Option Slot) → addr_of (welcome_sent_slot to seq s) ≡ addr_of s
unfolding welcome_sent_slot
addr_of-welcome_sent to seq none = refl
addr_of-welcome_sent to seq (some s) = ground arith

pub addr_of-on_ack :
    (a seq now : ℕ) (s : Option Slot) → addr_of (on_ack_slot a seq now s) ≡ addr_of s
unfolding on_ack_slot
addr_of-on_ack a seq now none = refl
addr_of-on_ack a seq now (some s) = ground arith

-- `ys` has the addresses of `xs`, but for some that are gone.
pub data Thinner : List (Option ℕ) → List (Option ℕ) → Type 0 where
  nil : Thinner [] []
  keep : (x : Option ℕ) {xs ys : List (Option ℕ)} → Thinner xs ys → Thinner (x ∷ xs) (x ∷ ys)
  drop : (x : Option ℕ) {xs ys : List (Option ℕ)} → Thinner xs ys → Thinner (x ∷ xs) (none ∷ ys)

Thinner-Absent : {xs ys : List (Option ℕ)} (a : ℕ) → Thinner xs ys → Absent a xs → Absent a ys
Thinner-Absent a nil h = tt
Thinner-Absent a (keep none t) h = Thinner-Absent a t h
Thinner-Absent a (keep (some b) t) h = (h.0, Thinner-Absent a t h.1)
Thinner-Absent a (drop none t) h = Thinner-Absent a t h
Thinner-Absent a (drop (some b) t) h = Thinner-Absent a t h.1

pub Thinner-Apart : {xs ys : List (Option ℕ)} → Thinner xs ys → Apart xs → Apart ys
Thinner-Apart nil h = tt
Thinner-Apart (keep none t) h = Thinner-Apart t h
Thinner-Apart (keep (some b) t) h = (Thinner-Absent _ t h.0, Thinner-Apart t h.1)
Thinner-Apart (drop none t) h = Thinner-Apart t h
Thinner-Apart (drop (some b) t) h = Thinner-Apart t h.1

tick_slot-addr :
    (now i : ℕ) (s : Option Slot)
    → (addr_of (tick_slot now i s).slot ≡ addr_of s) ⊎ ((tick_slot now i s).slot ≡ none)
unfolding tick_slot
tick_slot-addr now i none = inr refl
tick_slot-addr now i (some s) = ground arith

pub tick_from-Thinner :
    (now i : ℕ) (slots : Slots)
    → Thinner (addresses slots) (addresses (tick_from now i slots).slots)
unfolding tick_from
tick_from-Thinner now i [] = nil
tick_from-Thinner now i (s ∷ slots) =
    let rest = tick_from-Thinner now (suc i) slots in
    elim (tick_slot-addr now i s) [
      | inl same ↦ rw same (keep (addr_of s) rest)
      | inr gone ↦ rw gone (drop (addr_of s) rest)
    ]

pub remove_from-Thinner :
    (a : ℕ) (reason : LeaveReason) (i : ℕ) (slots : Slots)
    → Thinner (addresses slots) (addresses (remove_from a reason i slots).0)
unfolding remove_from
remove_from-Thinner a reason i [] = nil
remove_from-Thinner a reason i (s ∷ slots) =
    let rest = remove_from-Thinner a reason (suc i) slots in
    elim (Bool-cases (has_addr a s)) [
      | inl hit ↦ rw hit (drop (addr_of s) rest)
      | inr miss ↦ rw miss (keep (addr_of s) rest)
    ]

Thinner-length : {xs ys : List (Option ℕ)} → Thinner xs ys → length ys ≡ length xs
Thinner-length nil = refl
Thinner-length (keep x t) = ap suc (Thinner-length t)
Thinner-length (drop x t) = ap suc (Thinner-length t)

-- What holds of the host's slots at all times.
pub record IsHost (h : HostHandshake) : Type 0 where
  pub four : length h.slots ≡ 4
  pub apart : Apart (addresses h.slots)

pub IsHost-Thinner :
    (h : HostHandshake) (slots : Slots)
    → IsHost h
    → Thinner (addresses h.slots) (addresses slots)
    → IsHost (record h { slots = slots })
IsHost-Thinner h slots v t = record {
  four =
      omega (arith, Thinner-length t, length-map addr_of h.slots, length-map addr_of slots, v.four);
  apart = Thinner-Apart t v.apart;
}

pub IsHost-same :
    (h : HostHandshake) (slots : Slots)
    → IsHost h
    → addresses slots ≡ addresses h.slots
    → IsHost (record h { slots = slots })
IsHost-same h slots v e = record {
  four = omega (arith, ap length e, length-map addr_of h.slots, length-map addr_of slots, v.four);
  apart = rw e v.apart;
}
