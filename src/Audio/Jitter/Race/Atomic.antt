-- ===== src/Audio/Jitter/Race/Atomic.antt =====
-- The copy of `take` and its rechecks, against the call as one step: crates/jam-audio/src/jitter.rs.
use online_jam.Prelude.{
  ℕ, ◌≤◌, ◌≡◌, refl, sym, ap, ◌∙◌, ◌⊎◌, inl, inr, true, false, List, ◌++◌, some, arith, ltb, Bytes,
  length, take, drop, length-take,
}
use online_jam.Audio.Jitter.{
  PopOutcome, JitterBuffer, Taken, slot_of, has_seq, take_slot, overwrite, found,
}
use online_jam.Audio.Jitter.Holds.{Frame}
use online_jam.Audio.Jitter.Slots.{IsBuffer, slot_of-IsSlot, overwrite-take}
use online_jam.Audio.Jitter.Race.{ReaderAt, Reader, Actor, Race, race, start, turns}
use online_jam.Audio.Jitter.Race.Held.{Good, Apart, Held}
use online_jam.Audio.Jitter.Race.Steps.{Holds, race-Holds}
use online_jam.Audio.Jitter.Race.Rank.{rank, race-rank}

-- The reader has ended as one call of `take` would have, or without a frame.
abbrev pub Ended : JitterBuffer → (expect : ℕ) → (out : Bytes) → Reader → Type 0
Ended b expect out q =
    (q.at ≡ ReaderAt.done PopOutcome.missing)
    ⊎ ((t : Taken) × (take_slot b expect out ≡ some t)
        × (q.at ≡ ReaderAt.done t.outcome)
        × (q.out ≡ t.out))

Good-Ended :
    (b : JitterBuffer) (expect : ℕ) (out : Bytes) (len timestamp : ℕ) (copy : Bytes)
    → IsBuffer b
    → 1024 ≤ length out
    → Good expect (slot_of b.slots expect) out len timestamp copy
    → Ended b expect out
        (record { at = ReaderAt.done (PopOutcome.frame len timestamp); out = copy })
unfolding take_slot
Good-Ended b expect out len timestamp copy v room (hit, e) =
    let s = slot_of b.slots expect in
    let size = slot_of-IsSlot b expect v in
    let has : has_seq s expect ≡ true = ground (arith, hit.state, hit.seq) in
    let small : ltb 1024 s.len ≡ false = ground (arith, hit.small, hit.len_same) in
    let fits : ltb (length out) s.len ≡ false = ground (arith, hit.small, hit.len_same) in
    let l = length-take s.len out in
    let exact : length (take s.len out) ≡ s.len = omega (arith, hit.small, hit.len_same) in
    let same : overwrite s.payload (take s.len out) ≡ take s.len s.payload =
      overwrite-take s.payload (take s.len out) (omega (arith, hit.small, hit.len_same))
      ∙ ap (λ n. take n s.payload) exact in
    inr (
      found b expect out,
      rw (take_slot, has, small, fits) refl,
      ap (λ n. ReaderAt.done (PopOutcome.frame n timestamp)) hit.len_same
          ∙ ap (λ n. ReaderAt.done (PopOutcome.frame s.len n)) hit.time_same,
      e
          ∙ ap (λ n. take n s.payload ++ drop n out) hit.len_same
          ∙ ap (λ bs. bs ++ drop s.len out) (sym same),
    )

Held-Ended :
    (b : JitterBuffer) (expect : ℕ) (out : Bytes) (r : Race)
    → IsBuffer b
    → 1024 ≤ length out
    → Holds expect (slot_of b.slots expect) out r
    → rank r.reader.at ≤ 0
    → Ended b expect out r.reader
Held-Ended b expect out r v room h low = at_end r.reader.at r.reader.out h.held low
  where
    at_end :
        (at : ReaderAt) (copy : Bytes)
        → Held expect (slot_of b.slots expect) out r.slot r.writer.at at copy
        → rank at ≤ 0
        → Ended b expect out (record { at = at; out = copy })
    at_end (ReaderAt.done PopOutcome.missing) copy h low = inl refl
    at_end (ReaderAt.done (PopOutcome.frame len timestamp)) copy (inl (same, idle, good)) low =
        Good-Ended b expect out len timestamp copy v room good
    at_end (ReaderAt.done (PopOutcome.frame len timestamp)) copy (inr (gone, good)) low =
        Good-Ended b expect out len timestamp copy v room good
    at_end ReaderAt.panicked copy (inl (same, idle, bad)) low = absurd bad
    at_end ReaderAt.panicked copy (inr (gone, bad)) low = absurd bad
    at_end ReaderAt.load_state copy h low = absurd (omega arith)
    at_end ReaderAt.load_seq copy h low = absurd (omega arith)
    at_end ReaderAt.load_len copy h low = absurd (omega arith)
    at_end (ReaderAt.load_time len) copy h low = absurd (omega arith)
    at_end (ReaderAt.copy len timestamp k) copy h low = absurd (omega arith)
    at_end (ReaderAt.recheck_state len timestamp) copy h low = absurd (omega arith)
    at_end (ReaderAt.recheck_seq len timestamp) copy h low = absurd (omega arith)
    at_end (ReaderAt.free len timestamp) copy h low = absurd (omega arith)

-- However the loads and stores of a `take` fall among those of `push` and `reset` on its slot: if the
-- frames that are stored meanwhile have other numbers, then after 1032 turns the reader has ended.
-- Either it conceals, or it has the very frame, with its length, its time and all of its octets, that
-- the call would have taken as one step at the start: the rechecks discard every torn copy.
pub race-Ended :
    (b : JitterBuffer) (expect : ℕ) (frames : List Frame) (out : Bytes) (actors : List Actor)
    → IsBuffer b
    → 1024 ≤ length out
    → Apart expect (slot_of b.slots expect) out frames
    → 1032 ≤ turns actors
    → Ended b expect out (race expect actors (start (slot_of b.slots expect) frames out)).reader
race-Ended b expect frames out actors v room apart enough =
    let s = slot_of b.slots expect in
    let size = slot_of-IsSlot b expect v in
    Held-Ended b expect out _ v room
      (race-Holds expect s out size room actors (start s frames out)
        (record { held = inl (refl, tt, refl); apart = apart; long = room }))
      (omega (arith, race-rank expect actors (start s frames out) size))
