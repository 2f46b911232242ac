-- ===== src/Audio/Jitter/Slots.antt =====
-- The slots of the jitter buffer: their number and size, and the frame that a slot holds.
use online_jam.Prelude.{
  ℕ, zero, suc, ◌%◌, ◌≤◌, ◌≡◌, ◌≢◌, refl, ap, ◌∙◌, List, [], ◌∷◌, arith, Bytes, length, take, drop,
  get_or, set, All, length-set, length-append, length-take, length-drop, length-replicate,
  get_or-set_self, get_or-set_ne,
}
use online_jam.Audio.{max_frame_bytes}
use online_jam.Audio.Jitter.{
  Slot, JitterBuffer, slot_count, new_slot, slot_of, with_slot, overwrite,
}

abbrev pub IsSlot : Slot → Type 0
IsSlot s = length s.payload ≡ max_frame_bytes

-- There are 64 slots, each with room for the largest frame.
pub record IsBuffer (b : JitterBuffer) : Type 0 where
  pub count : length b.slots ≡ slot_count
  pub sized : All IsSlot b.slots

pub get_or-All :
    {A : Type 0} (P : A → Type 0) (xs : List A) (i : ℕ) (d : A) → All P xs → P d → P (get_or xs i d)
get_or-All P [] i d h hd = hd
get_or-All P (x ∷ xs) zero d h hd = h.0
get_or-All P (x ∷ xs) (suc i) d h hd = get_or-All P xs i d h.1 hd

pub set-All :
    {A : Type 0} (P : A → Type 0) (xs : List A) (i : ℕ) (v : A)
    → All P xs
    → P v
    → All P (set xs i v)
set-All P [] i v h hv = tt
set-All P (x ∷ xs) zero v h hv = (hv, h.1)
set-All P (x ∷ xs) (suc i) v h hv = (h.0, set-All P xs i v h.1 hv)

pub new_slot-IsSlot : IsSlot new_slot
new_slot-IsSlot = length-replicate {A = ℕ} max_frame_bytes 0

pub slot_of-IsSlot : (b : JitterBuffer) (seq : ℕ) → IsBuffer b → IsSlot (slot_of b.slots seq)
slot_of-IsSlot b seq v =
    get_or-All IsSlot b.slots (seq % slot_count) new_slot v.sized new_slot-IsSlot

pub slot_of-with_self :
    (b : JitterBuffer) (seq : ℕ) (s : Slot) → IsBuffer b → slot_of (with_slot b.slots seq s) seq ≡ s
slot_of-with_self b seq s v =
    get_or-set_self b.slots (seq % slot_count) s new_slot (omega (arith, v.count))

pub slot_of-with_ne :
    (slots : List Slot) (i j : ℕ) (s : Slot)
    → i % slot_count ≢ j % slot_count
    → slot_of (with_slot slots i s) j ≡ slot_of slots j
slot_of-with_ne slots i j s ne = get_or-set_ne slots (i % slot_count) (j % slot_count) s new_slot ne

pub length-overwrite : (src old : Bytes) → length (overwrite src old) ≡ length old
unfolding overwrite
length-overwrite src old = omega (
  arith,
  length-append (take (length old) src) (drop (length src) old),
  length-take (length old) src,
  length-drop (length src) old,
)

-- What is written over a longer sequence is read back from it.
pub take-overwrite :
    (src old : Bytes) → length src ≤ length old → take (length src) (overwrite src old) ≡ src
unfolding overwrite
take-overwrite [] old h = refl
take-overwrite (x ∷ src) [] h = absurd (omega arith)
take-overwrite (x ∷ src) (y ∷ old) h = ap (◌∷◌ x) (take-overwrite src old (omega arith))

-- Reading a sequence over a shorter one gives as much of it as fits.
pub overwrite-take :
    (src old : Bytes) → length old ≤ length src → overwrite src old ≡ take (length old) src
unfolding overwrite
overwrite-take [] [] h = refl
overwrite-take [] (y ∷ old) h = absurd (omega arith)
overwrite-take (x ∷ src) [] h = refl
overwrite-take (x ∷ src) (y ∷ old) h = ap (◌∷◌ x) (overwrite-take src old (omega arith))

pub with_slot-IsBuffer :
    (b : JitterBuffer) (seq : ℕ) (s : Slot)
    → IsBuffer b
    → IsSlot s
    → (length (with_slot b.slots seq s) ≡ slot_count) × All IsSlot (with_slot b.slots seq s)
with_slot-IsBuffer b seq s v h = (
  length-set b.slots (seq % slot_count) s ∙ v.count,
  set-All IsSlot b.slots (seq % slot_count) s v.sized h,
)
