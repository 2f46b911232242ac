-- ===== src/Audio/Jitter/Position.antt =====
-- The read position of the jitter buffer: what is behind it, and what a reset does.
use online_jam.Prelude.{
  ℕ, zero, suc, ◌%◌, ◌^◌, ◌≤◌, ◌<◌, ◌≡◌, refl, sym, ap, ◌∙◌, inl, inr, Bool, true, false, List, [],
  ◌∷◌, Option, none, some, arith, ltb, Bool-cases, Option-cases, Bytes, length, get_or, map,
}
use online_jam.Prelude.Int.{pos, ◌+ℤ◌}
use online_jam.Protocol.{u16_mod}
use online_jam.Protocol.Seq.{newer_than, diff, wrapping_add}
use online_jam.Protocol.Seq.Order.{newer_than-wrapping_add}
use online_jam.Audio.{max_frame_bytes}
use online_jam.Audio.Jitter.{
  Slot, PushOutcome, JitterBuffer, slot_count, new_slot, slot_of, has_seq, push, store, take_slot,
  pop_at, pop_next, reset, Taken, nothing, emptied, advanced, depth, inc,
}

late_push : JitterBuffer → JitterBuffer × PushOutcome
late_push b = (record b { stats = record b.stats { late = inc b.stats.late } }, PushOutcome.late)

pushed_late :
    (b : JitterBuffer) (seq timestamp : ℕ) (payload : Bytes)
    → length payload ≤ max_frame_bytes
    → b.started ≡ true
    → newer_than b.next_seq seq ≡ true
    → push b seq timestamp payload ≡ late_push b
unfolding push late_push
pushed_late b seq timestamp payload small runs late =
    let fits : ltb max_frame_bytes (length payload) ≡ false = ground arith in
    simp (push, fits, runs, late, late_push)

-- A packet of legal size that is 1 to 2 ^ 15 - 1 behind the read position of a started buffer, modulo
-- 2 ^ 16, is refused as late: the counter of late packets is all that changes.
pub push-behind :
    (b : JitterBuffer) (seq k timestamp : ℕ) (payload : Bytes)
    → length payload ≤ max_frame_bytes
    → b.started ≡ true
    → seq < u16_mod
    → 0 < k
    → k < 2 ^ 15
    → b.next_seq ≡ wrapping_add seq k
    → push b seq timestamp payload
      ≡ (record b { stats = record b.stats { late = inc b.stats.late } }, PushOutcome.late)
unfolding late_push
push-behind b seq k timestamp payload small runs hs hk hk' at =
    pushed_late b seq timestamp payload small runs
      (ap (λ n. newer_than n seq) at ∙ (newer_than-wrapping_add seq k hs hk').2.1 hk)

get_or-emptied :
    (slots : List Slot) (i seq : ℕ) → has_seq (get_or (map emptied slots) i new_slot) seq ≡ false
get_or-emptied [] i seq = refl
get_or-emptied (s ∷ slots) zero seq = refl
get_or-emptied (s ∷ slots) (suc i) seq = get_or-emptied slots i seq

depth_self : (seq : ℕ) → diff seq seq +ℤ pos 1 ≡ pos 1
unfolding diff
depth_self seq = ground arith

-- A reset drops every frame: the depth is 0 and a pop misses. Whatever frame of legal size is
-- pushed next is stored, the read position is that frame's, and the depth is 1.
pub reset-push :
    (b : JitterBuffer) (seq timestamp : ℕ) (payload out : Bytes)
    → length payload ≤ max_frame_bytes
    → let c = reset b in
      let (d, outcome) = push c seq timestamp payload in
      (depth c ≡ pos 0)
      × (pop_next c out ≡ some (nothing c out))
      × (outcome ≡ PushOutcome.stored)
      × (d.next_seq ≡ seq)
      × (depth d ≡ pos 1)
unfolding reset push store pop_next depth
reset-push b seq timestamp payload out small =
    let fits : ltb max_frame_bytes (length payload) ≡ false = ground arith in
    let fresh = get_or-emptied b.slots (seq % slot_count) seq in
    let one = depth_self seq in
    (
      refl,
      refl,
      simp (push, store, fits, fresh),
      simp (push, store, fits, fresh),
      simp (push, store, depth, fits, fresh, one),
    )

abbrev started_or : Bool → Option Taken → Bool
started_or d none = d
started_or d (some t) = t.buffer.started

abbrev next_or : ℕ → Option Taken → ℕ
next_or d none = d
next_or d (some t) = t.buffer.next_seq

take_slot-started :
    (b : JitterBuffer) (n : ℕ) (out : Bytes) → started_or b.started (take_slot b n out) ≡ b.started
unfolding take_slot
take_slot-started b n out =
    let s = slot_of b.slots n in
    elim (Bool-cases (has_seq s n)) [
      | inr miss ↦ simp (take_slot, miss)
      | inl hit ↦ elim (Bool-cases (ltb max_frame_bytes s.len)) [
        | inl long ↦ simp (take_slot, hit, long)
        | inr fits ↦ elim (Bool-cases (ltb (length out) s.len)) [
          | inl panics ↦ simp (take_slot, hit, fits, panics)
          | inr room ↦ simp (take_slot, hit, fits, room)
        ]
      ]
    ]

pub pop_at-position :
    (b : JitterBuffer) (n : ℕ) (out : Bytes) (t : Taken)
    → pop_at b n out ≡ some t
    → (t.buffer.next_seq ≡ wrapping_add n 1) × (t.buffer.started ≡ b.started)
unfolding pop_at
pop_at-position b n out t e = elim (Option-cases (take_slot b n out)) [
  | inl lost ↦ absurd (ground arith)
  | inr (u, found) ↦
      let same : some (advanced n u) ≡ some t =
        sym (ap (λ o. elim o [ none ↦ none | some u ↦ some (advanced n u) ]) found) ∙ e in
      let started = sym (ap (started_or b.started) found) ∙ take_slot-started b n out in
      (sym (ap (next_or n) same), sym (ap (started_or b.started) same) ∙ started)
]
