-- ===== src/Audio/Jitter/Race/Rank.antt =====
-- Each turn of the reader brings `take` of crates/jam-audio/src/jitter.rs nearer to its end.
use online_jam.Prelude.{
  ℕ, ◌+◌, ◌-◌, ◌≤◌, ◌≡◌, refl, ◌∙◌, inl, inr, Bool, true, false, List, [], ◌∷◌, arith, ltb, ◌==◌,
  if◌then◌else◌, Bool-cases, Bytes, length, get_or, min, length-set,
}
use online_jam.Audio.Jitter.{Slot, is_written}
use online_jam.Audio.Jitter.Holds.{Frame}
use online_jam.Audio.Jitter.Race.{
  WriterAt, ReaderAt, Actor, Race, write_step, writes, read_step, step, race, turns,
}

-- How many turns the reader still needs at most.
abbrev pub rank : ReaderAt → ℕ
rank ReaderAt.load_state = 1032
rank ReaderAt.load_seq = 1031
rank ReaderAt.load_len = 1030
rank (ReaderAt.load_time len) = 1029
rank (ReaderAt.copy len timestamp k) = 1024 - k + 4
rank (ReaderAt.recheck_state len timestamp) = 3
rank (ReaderAt.recheck_seq len timestamp) = 2
rank (ReaderAt.free len timestamp) = 1
rank (ReaderAt.done o) = 0
rank ReaderAt.panicked = 0

rank-if :
    (c : Bool) (a b : ReaderAt) (n : ℕ) → rank a ≤ n → rank b ≤ n → rank (if c then a else b) ≤ n
rank-if true a b n ha hb = ha
rank-if false a b n ha hb = hb

read_step-rank :
    (expect : ℕ) (s : Slot) (at : ReaderAt) (out : Bytes)
    → length s.payload ≡ 1024
    → (rank (read_step expect s at out).1.at ≤ rank at - 1)
      × (length (read_step expect s at out).0.payload ≡ 1024)
unfolding read_step
read_step-rank expect s ReaderAt.load_state out size =
    (rank-if (is_written s.state) _ _ 1031 (omega arith) (omega arith), size)
read_step-rank expect s ReaderAt.load_seq out size =
    (rank-if (s.seq == expect) _ _ 1030 (omega arith) (omega arith), size)
read_step-rank expect s ReaderAt.load_len out size = (omega arith, size)
read_step-rank expect s (ReaderAt.load_time len) out size = (
  rank-if (ltb 1024 len) _ _ 1028 (omega arith)
      (rank-if (ltb (length out) len) _ _ 1028 (omega arith) (omega arith)),
  size,
)
read_step-rank expect s (ReaderAt.copy len timestamp k) out size =
    elim (Bool-cases (ltb k (min len (length s.payload)))) [
      | inl more ↦ rw (more, read_step) (ground arith, size)
      | inr over ↦ rw (over, read_step) (omega arith, size)
    ]
read_step-rank expect s (ReaderAt.recheck_state len timestamp) out size =
    (rank-if (is_written s.state) _ _ 2 (omega arith) (omega arith), size)
read_step-rank expect s (ReaderAt.recheck_seq len timestamp) out size =
    (rank-if (s.seq == expect) _ _ 1 (omega arith) (omega arith), size)
read_step-rank expect s (ReaderAt.free len timestamp) out size = (omega arith, size)
read_step-rank expect s (ReaderAt.done o) out size = (omega arith, size)
read_step-rank expect s ReaderAt.panicked out size = (omega arith, size)

write_step-length :
    (s : Slot) (w : WriterAt) (f : Frame) (fs : List Frame)
    → length (write_step s w f fs).0.payload ≡ length s.payload
unfolding write_step
write_step-length s WriterAt.load_state f fs = refl
write_step-length s WriterAt.load_seq f fs = elim (Bool-cases (s.seq == f.seq)) [
  | inl same ↦ rw (same, write_step) refl
  | inr other ↦ rw (other, write_step) refl
]
write_step-length s WriterAt.mark f fs = refl
write_step-length s WriterAt.put_seq f fs = refl
write_step-length s WriterAt.put_time f fs = refl
write_step-length s WriterAt.put_len f fs = refl
write_step-length s WriterAt.publish f fs = refl
write_step-length s (WriterAt.put_byte k) f fs =
    elim (Bool-cases (ltb k (min (length s.payload) (length f.bytes)))) [
      | inl more ↦ rw (more, write_step) (length-set s.payload k (get_or f.bytes k 0))
      | inr over ↦ rw (over, write_step) refl
    ]

writes-length :
    (s : Slot) (w : WriterAt) (fs : List Frame)
    → length (writes s w fs).0.payload ≡ length s.payload
unfolding writes
writes-length s w [] = refl
writes-length s w (f ∷ fs) = write_step-length s w f fs

-- However the turns fall, the reader's rank goes down by one in each of its own.
pub race-rank :
    (expect : ℕ) (actors : List Actor) (r : Race)
    → length r.slot.payload ≡ 1024
    → rank (race expect actors r).reader.at ≤ rank r.reader.at - turns actors
unfolding race step
race-rank expect [] r size = omega arith
race-rank expect (Actor.writer ∷ actors) r size =
    race-rank expect actors (step expect Actor.writer r)
      (writes-length r.slot r.writer.at r.writer.frames ∙ size)
race-rank expect (Actor.reader ∷ actors) r size =
    let (less, same) = read_step-rank expect r.slot r.reader.at r.reader.out size in
    omega (arith, race-rank expect actors (step expect Actor.reader r) same, less)
race-rank expect (Actor.resetter ∷ actors) r size =
    race-rank expect actors (step expect Actor.resetter r) size
