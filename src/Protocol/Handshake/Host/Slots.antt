-- ===== src/Protocol/Handshake/Host/Slots.antt =====
-- What each call of the host does to one slot.
use online_jam.Prelude.{
  ℕ, zero, suc, ◌+◌, ◌-◌, ◌<◌, ◌≤◌, ◌≡◌, ◌≢◌, refl, sym, ap, ◌∙◌, [], ◌∷◌, map, Option, none, some,
  arith, Bool-cases, length, set, inl, inr, if◌then◌else◌,
}
use online_jam.Protocol.{peer_timeout_ms}
use online_jam.Protocol.Handshake.{SocketAddr}
use online_jam.Protocol.Handshake.Host
use online_jam.Protocol.Handshake.Host.{
  Slot, SlotState, Slots, HostHandshake, LeaveReason, slot_at, has_addr, tick_slot, tick_state,
  tick_from, remove_from, on_bye, on_ack_slot, welcome_sent_slot,
}

pub slot_at-set_self :
    (slots : Slots) (k : ℕ) (s : Option Slot) → k < length slots → slot_at (set slots k s) k ≡ s
slot_at-set_self [] k s h = absurd (omega arith)
slot_at-set_self (x ∷ slots) zero none h = refl
slot_at-set_self (x ∷ slots) zero (some s) h = refl
slot_at-set_self (x ∷ slots) (suc k) s h = slot_at-set_self slots k s (omega arith)

pub slot_at-set_ne :
    (slots : Slots) (j k : ℕ) (s : Option Slot)
    → j ≢ k
    → slot_at (set slots j s) k ≡ slot_at slots k
slot_at-set_ne [] j k s h = refl
slot_at-set_ne (x ∷ slots) zero zero s h = absurd (h refl)
slot_at-set_ne (x ∷ slots) zero (suc k) s h = refl
slot_at-set_ne (x ∷ slots) (suc j) zero s h = refl
slot_at-set_ne (x ∷ slots) (suc j) (suc k) s h = slot_at-set_ne slots j k s (λ e. h (ap suc e))

pub slot_at-map :
    (f : Option Slot → Option Slot) (slots : Slots) (k : ℕ)
    → f none ≡ none
    → slot_at (map f slots) k ≡ f (slot_at slots k)
slot_at-map f [] k h = sym h
slot_at-map f (x ∷ slots) zero h = refl
slot_at-map f (x ∷ slots) (suc k) h = slot_at-map f slots k h

tick_slot-none : (now i : ℕ) → (tick_slot now i none).slot ≡ none
unfolding tick_slot
tick_slot-none now i = refl

tick_from-slot_at :
    (now i : ℕ) (slots : Slots) (k : ℕ)
    → slot_at (tick_from now i slots).slots k ≡ (tick_slot now (i + k) (slot_at slots k)).slot
unfolding tick_from
tick_from-slot_at now i [] k = sym (tick_slot-none now (i + k))
tick_from-slot_at now i (x ∷ slots) zero = ap (λ j. (tick_slot now j x).slot) (omega arith)
tick_from-slot_at now i (x ∷ slots) (suc k) =
    tick_from-slot_at now (suc i) slots k
    ∙ ap (λ j. (tick_slot now j (slot_at slots k)).slot) (omega arith)

pub tick-slot_at :
    (h : HostHandshake) (now k : ℕ)
    → slot_at (Host.tick h now).0.slots k ≡ (tick_slot now k (slot_at h.slots k)).slot
unfolding Host.tick
tick-slot_at h now k =
    tick_from-slot_at now 0 h.slots k
    ∙ ap (λ j. (tick_slot now j (slot_at h.slots k)).slot) (omega arith)

-- A tick keeps an active slot as it is if the client was heard within the last five seconds, and
-- frees it if not.
tick-active :
    (h : HostHandshake) (now k : ℕ) (s : Slot)
    → slot_at h.slots k ≡ some s
    → s.state ≡ SlotState.active
    → (now - s.last_heard_ms ≤ peer_timeout_ms → slot_at (Host.tick h now).0.slots k ≡ some s)
      × (peer_timeout_ms < now - s.last_heard_ms → slot_at (Host.tick h now).0.slots k ≡ none)
unfolding tick_slot tick_state
tick-active h now k s taken active =
    let t = tick-slot_at h now k in
    (
      (λ near. t ∙ rw (taken, active) (ground arith)),
      (λ far. t ∙ rw (taken, active) (ground arith)),
    )

-- A slot's state after a removal by address.
remove_from-slot_at :
    (a : SocketAddr) (why : LeaveReason) (i : ℕ) (slots : Slots) (k : ℕ)
    → slot_at (remove_from a why i slots).0 k
      ≡ (if has_addr a (slot_at slots k) then none else slot_at slots k)
unfolding remove_from
remove_from-slot_at a why i [] k = refl
remove_from-slot_at a why i (x ∷ slots) zero = elim (Bool-cases (has_addr a x)) [
  | inl e ↦ rw e refl
  | inr e ↦ rw e refl
]
remove_from-slot_at a why i (x ∷ slots) (suc k) = elim (Bool-cases (has_addr a x)) [
  | inl e ↦ rw e (remove_from-slot_at a why (suc i) slots k)
  | inr e ↦ rw e (remove_from-slot_at a why (suc i) slots k)
]

-- A BYE from an address frees every slot that the address holds and changes no other.
on_bye-slot_at :
    (h : HostHandshake) (a : SocketAddr) (k : ℕ) (s : Slot)
    → slot_at h.slots k ≡ some s
    → (s.addr ≡ a → slot_at (on_bye h a).0.slots k ≡ none)
      × (s.addr ≢ a → slot_at (on_bye h a).0.slots k ≡ some s)
unfolding on_bye
on_bye-slot_at h a k s taken =
    let r = remove_from-slot_at a LeaveReason.bye 0 h.slots k in
    ((λ same. r ∙ rw taken (ground arith)), (λ other. r ∙ rw taken (ground arith)))
