-- ===== src/Audio/Jitter/Invariant.antt =====
-- What holds of the jitter buffer after any calls.
use online_jam.Prelude.{
  ℕ, zero, suc, ◌≤◌, ◌≡◌, refl, ◌∙◌, ◌⊎◌, inl, inr, false, List, [], ◌∷◌, Option, none, some, arith,
  ltb, Bool-cases, Bytes, length, map, All, length-map, length-replicate, replicate, take, drop,
  length-append, length-take, length-drop,
}
use online_jam.Audio.{max_frame_bytes}
use online_jam.Audio.Jitter
use online_jam.Audio.Jitter.{
  Slot, SlotState, JitterBuffer, slot_count, new_slot, slot_of, has_seq, with_slot, take_slot,
  pop_at, pop_next, skip_next, reset, publish_jitter_us, Taken, nothing, emptied, advanced, filled,
  copied_out, overwrite, found,
}
use online_jam.Audio.Jitter.Slots.{
  IsBuffer, IsSlot, slot_of-IsSlot, with_slot-IsBuffer, length-overwrite, new_slot-IsSlot,
}
use online_jam.Audio.Jitter.Holds.{Frame, Pushed, push-Pushed}

-- A call of the writer or the reader.
pub data Call : Type 0 where
  push : Frame → Call
  pop : (out : Bytes) → Call
  skip : Call
  forget : Call
  publish : (bits : ℕ) → Call

-- The buffer after a call; `none` is a panic.
unfoldable pub step : JitterBuffer → Call → Option JitterBuffer
step b (Call.push f) = some (Jitter.push b f.seq f.timestamp f.bytes).0
step b (Call.pop out) = elim (pop_next b out) [ none ↦ none | some t ↦ some t.buffer ]
step b Call.skip = some (skip_next b).0
step b Call.forget = some (reset b)
step b (Call.publish bits) = some (publish_jitter_us b bits)

unfoldable pub run : JitterBuffer → List Call → Option JitterBuffer
run b [] = some b
run b (c ∷ cs) = elim (step b c) [ none ↦ none | some b' ↦ run b' cs ]

-- `out` has room for the largest frame.
abbrev pub IsCall : Call → Type 0
IsCall (Call.pop out) = max_frame_bytes ≤ length out
IsCall _ = Unit

IsBuffer-slots : (b c : JitterBuffer) → IsBuffer b → c.slots ≡ b.slots → IsBuffer c
IsBuffer-slots b c v e = record { count = rw e v.count; sized = rw e v.sized }

pub push-IsBuffer :
    (b : JitterBuffer) (f : Frame)
    → IsBuffer b
    → IsBuffer (Jitter.push b f.seq f.timestamp f.bytes).0
push-IsBuffer b f v = elim (push-Pushed b f) [
  | Pushed.leaves other same ↦ IsBuffer-slots b _ v same
  | Pushed.stores fresh small slots ↦
      let s = filled f.seq f.timestamp f.bytes (slot_of b.slots f.seq) in
      let size =
        length-overwrite f.bytes (slot_of b.slots f.seq).payload ∙ slot_of-IsSlot b f.seq v in
      let (count, sized) = with_slot-IsBuffer b f.seq s v size in
      record { count = rw slots count; sized = rw slots sized }
]

abbrev pub freed : List Slot → ℕ → List Slot
freed slots n = with_slot slots n (record (slot_of slots n) { state = SlotState.empty })

-- The slots are as they were, or one of them is free.
abbrev pub IsRead : List Slot → ℕ → List Slot → Type 0
IsRead slots n slots' = (slots' ≡ slots) ⊎ (slots' ≡ freed slots n)

pub read-IsBuffer :
    (b c : JitterBuffer) (n : ℕ) → IsBuffer b → IsRead b.slots n c.slots → IsBuffer c
read-IsBuffer b c n v (inl same) = IsBuffer-slots b c v same
read-IsBuffer b c n v (inr e) =
    let s = record (slot_of b.slots n) { state = SlotState.empty } in
    let (count, sized) = with_slot-IsBuffer b n s v (slot_of-IsSlot b n v) in
    record { count = rw e count; sized = rw e sized }

pub skip_next-IsRead : (b : JitterBuffer) → IsRead b.slots b.next_seq (skip_next b).0.slots
unfolding skip_next
skip_next-IsRead b = elim (Bool-cases b.started) [
  | inr idle ↦ inl (simp (skip_next, idle))
  | inl runs ↦ elim (Bool-cases (has_seq (slot_of b.slots b.next_seq) b.next_seq)) [
    | inl had ↦ inr (simp (skip_next, runs, had))
    | inr miss ↦ inl (simp (skip_next, runs, miss))
  ]
]

length-copied_out : (s : Slot) (out : Bytes) → length (copied_out s out) ≡ length out
length-copied_out s out = omega (
  arith,
  length-append (overwrite s.payload (take s.len out)) (drop s.len out),
  length-overwrite s.payload (take s.len out),
  length-take s.len out,
  length-drop s.len out,
)

-- `take` returns, unless `out` is too short; then, the slots are as `IsRead` says.
take_slot-IsRead :
    (b : JitterBuffer) (n : ℕ) (out : Bytes)
    → max_frame_bytes ≤ length out
    → (t : Taken) × (take_slot b n out ≡ some t)
      × IsRead b.slots n t.buffer.slots
      × (length t.out ≡ length out)
unfolding take_slot
take_slot-IsRead b n out room =
    let s = slot_of b.slots n in
    elim (Bool-cases (has_seq s n)) [
      | inr miss ↦ (nothing b out, simp (take_slot, miss), inl refl, refl)
      | inl hit ↦ elim (Bool-cases (ltb max_frame_bytes s.len)) [
        | inl long ↦ (nothing b out, simp (take_slot, hit, long), inl refl, refl)
        | inr fits ↦
            let enough : ltb (length out) s.len ≡ false = ground arith in
            (found b n out, simp (take_slot, hit, fits, enough), inr refl, length-copied_out s out)
      ]
    ]

pub pop_next-IsRead :
    (b : JitterBuffer) (out : Bytes)
    → max_frame_bytes ≤ length out
    → (t : Taken) × (pop_next b out ≡ some t)
      × IsRead b.slots b.next_seq t.buffer.slots
      × (length t.out ≡ length out)
unfolding pop_next pop_at
pop_next-IsRead b out room = elim (Bool-cases b.started) [
  | inr idle ↦ (nothing b out, simp (pop_next, idle), inl refl, refl)
  | inl runs ↦
      let (t, e, read, size) = take_slot-IsRead b b.next_seq out room in
      (advanced b.next_seq t, simp (pop_next, pop_at, runs, e), read, size)
]

emptied-All : (slots : List Slot) → All IsSlot slots → All IsSlot (map emptied slots)
emptied-All [] h = tt
emptied-All (s ∷ slots) h = (h.0, emptied-All slots h.1)

pub reset-IsBuffer : (b : JitterBuffer) → IsBuffer b → IsBuffer (reset b)
unfolding reset
reset-IsBuffer b v = record {
  count = length-map emptied b.slots ∙ v.count;
  sized = emptied-All b.slots v.sized;
}

replicate-All : (n : ℕ) (s : Slot) → IsSlot s → All IsSlot (replicate n s)
replicate-All zero s h = tt
replicate-All (suc n) s h = (h, replicate-All n s h)

pub new-IsBuffer : IsBuffer Jitter.new
unfolding Jitter.new
new-IsBuffer = record {
  count = length-replicate slot_count new_slot;
  sized = replicate-All slot_count new_slot new_slot-IsSlot;
}

step-IsBuffer :
    (b : JitterBuffer) (c : Call)
    → IsBuffer b
    → IsCall c
    → (b' : JitterBuffer) × (step b c ≡ some b') × IsBuffer b'
unfolding step publish_jitter_us
step-IsBuffer b (Call.push f) v room = (_, refl, push-IsBuffer b f v)
step-IsBuffer b (Call.pop out) v room =
    let (t, e, read, _) = pop_next-IsRead b out room in
    (t.buffer, simp (step, e), read-IsBuffer b t.buffer b.next_seq v read)
step-IsBuffer b Call.skip v room =
    (_, refl, read-IsBuffer b (skip_next b).0 b.next_seq v (skip_next-IsRead b))
step-IsBuffer b Call.forget v room = (_, refl, reset-IsBuffer b v)
step-IsBuffer b (Call.publish bits) v room = (_, refl, IsBuffer-slots b _ v refl)

run-IsBuffer :
    (b : JitterBuffer) (cs : List Call)
    → IsBuffer b
    → All IsCall cs
    → (b' : JitterBuffer) × (run b cs ≡ some b') × IsBuffer b'
unfolding run
run-IsBuffer b [] v room = (b, refl, v)
run-IsBuffer b (c ∷ cs) v (room, rooms) =
    let (b', e, v') = step-IsBuffer b c v room in
    let (b'', e', v'') = run-IsBuffer b' cs v' rooms in (b'', simp (run, e, e'), v'')

-- No calls on a new buffer panic, whatever they are and in whatever order, when each pop gives room
-- for the largest frame; and there stay 64 slots, each with room for the largest frame.
pub run-new-IsBuffer :
    (cs : List Call)
    → All IsCall cs
    → (b : JitterBuffer) × (run Jitter.new cs ≡ some b) × IsBuffer b
run-new-IsBuffer cs room = run-IsBuffer Jitter.new cs new-IsBuffer room
