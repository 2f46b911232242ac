-- ===== src/Audio/Jitter/Race/Steps.antt =====
-- The reader's steps while a frame is taken and others are stored: crates/jam-audio/src/jitter.rs.
use online_jam.Prelude.{
  ℕ, zero, suc, ◌≤◌, ◌<◌, ◌≡◌, refl, sym, ap, subst, ◌∙◌, inl, inr, false, List, [], ◌∷◌, ◌++◌,
  arith, ltb, ◌==◌, Bool-cases, Bytes, length, take, drop, get_or, set, min, length-set,
}
use online_jam.Audio.Jitter.{Slot, SlotState, is_written}
use online_jam.Audio.Jitter.Race.{WriterAt, ReaderAt, Reader, Actor, Race, read_step, step, race}
use online_jam.Audio.Jitter.Race.Held.{
  Hit, Reads, Late, Reads-Late, Idle, Gone, Gone-other, Gone-empty, Idle-empty, Held, Apart,
  writes-Kept,
}

-- One octet more is copied.
set-copied :
    (k : ℕ) (p old : Bytes)
    → k < length p
    → k < length old
    → set (take k p ++ drop k old) k (get_or p k 0) ≡ take (suc k) p ++ drop (suc k) old
set-copied k [] old hp ho = absurd (omega arith)
set-copied k (x ∷ p) [] hp ho = absurd (omega arith)
set-copied zero (x ∷ p) (y ∷ old) hp ho = refl
set-copied (suc k) (x ∷ p) (y ∷ old) hp ho =
    ap (◌∷◌ x) (set-copied k p old (omega arith) (omega arith))

module _ (expect : ℕ) (slot : Slot) (old : Bytes) where
  -- What a step of the reader leaves.
  abbrev KeptBy : WriterAt → Slot × Reader → Type 0
  KeptBy w (s, q) = Held expect slot old s w q.at q.out × (1024 ≤ length q.out)

  read_slot-Kept :
      (w : WriterAt) (at : ReaderAt) (out : Bytes)
      → length slot.payload ≡ 1024
      → 1024 ≤ length old
      → Idle expect slot old w
      → Reads expect slot old at out
      → 1024 ≤ length out
      → KeptBy w (read_step expect slot at out)
  unfolding read_step
  read_slot-Kept w ReaderAt.load_state out size room idle h long =
      elim (Bool-cases (is_written slot.state)) [
        | inl on ↦ rw (on, read_step) (inl (refl, idle, (on, h)), long)
        | inr off ↦ rw (off, read_step) (inl (refl, idle, tt), long)
      ]
  read_slot-Kept w ReaderAt.load_seq out size room idle (on, h) long =
      elim (Bool-cases (slot.seq == expect)) [
        | inl same ↦ rw (same, read_step) (inl (refl, idle, (on, ground arith, h)), long)
        | inr other ↦ rw (other, read_step) (inl (refl, idle, tt), long)
      ]
  read_slot-Kept w ReaderAt.load_len out size room idle (on, same, h) long =
      (inl (refl, idle, (on, same, refl, h)), long)
  read_slot-Kept w (ReaderAt.load_time len) out size room idle (on, same, sized, h) long =
      elim (Bool-cases (ltb 1024 len)) [
        | inl big ↦ rw (big, read_step) (inl (refl, idle, tt), long)
        | inr fits ↦
            let enough : ltb (length out) len ≡ false = ground arith in
            let hit : Hit expect slot old len slot.timestamp = record {
              state = on;
              seq = same;
              len_same = sized;
              time_same = refl;
              small = ground arith;
            } in
            rw (fits, enough, read_step) (inl (refl, idle, (hit, omega arith, h)), long)
      ]
  read_slot-Kept w (ReaderAt.copy len timestamp k) out size room idle (hit, le, h) long =
      elim (Bool-cases (ltb k (min len (length slot.payload)))) [
        | inl more ↦
            let one : set out k (get_or slot.payload k 0)
                ≡ take (suc k) slot.payload ++ drop (suc k) old =
              ap (λ bs. set bs k (get_or slot.payload k 0)) h
              ∙ set-copied k slot.payload old (ground arith) (ground arith) in
            let l = length-set out k (get_or slot.payload k 0) in
            rw (more, read_step) (inl (refl, idle, (hit, ground arith, one)), omega arith)
        | inr over ↦
            let end : k ≡ len = ground (arith, hit.small) in
            rw (over, read_step) (inl (refl, idle, (hit, rw end at h)), long)
      ]
  read_slot-Kept w (ReaderAt.recheck_state len timestamp) out size room idle h long =
      elim (Bool-cases (is_written slot.state)) [
        | inl on ↦ rw (on, read_step) (inl (refl, idle, h), long)
        | inr off ↦ rw (off, read_step) (inl (refl, idle, tt), long)
      ]
  read_slot-Kept w (ReaderAt.recheck_seq len timestamp) out size room idle h long =
      elim (Bool-cases (slot.seq == expect)) [
        | inl same ↦ rw (same, read_step) (inl (refl, idle, h), long)
        | inr other ↦ rw (other, read_step) (inl (refl, idle, tt), long)
      ]
  read_slot-Kept w (ReaderAt.free len timestamp) out size room idle h long =
      (inr (Idle-empty expect slot old w slot idle, h), long)
  read_slot-Kept w (ReaderAt.done o) out size room idle h long = (inl (refl, idle, h), long)
  read_slot-Kept w ReaderAt.panicked out size room idle h long = absurd h

  read_changed-Kept :
      (s : Slot) (w : WriterAt) (at : ReaderAt) (out : Bytes)
      → Gone expect slot old w s
      → Late expect slot old at s.seq out
      → 1024 ≤ length out
      → KeptBy w (read_step expect s at out)
  unfolding read_step
  read_changed-Kept s w ReaderAt.load_state out gone h long =
      elim (Bool-cases (is_written s.state)) [
        | inl on ↦ rw (on, read_step) (inr (gone, tt), long)
        | inr off ↦ rw (off, read_step) (inr (gone, tt), long)
      ]
  read_changed-Kept s w ReaderAt.load_seq out gone h long = elim (Bool-cases (s.seq == expect)) [
    | inl same ↦ rw (same, read_step) (inr (gone, tt), long)
    | inr other ↦ rw (other, read_step) (inr (gone, tt), long)
  ]
  read_changed-Kept s w ReaderAt.load_len out gone h long = (inr (gone, tt), long)
  read_changed-Kept s w (ReaderAt.load_time len) out gone h long =
      elim (Bool-cases (ltb 1024 len)) [
        | inl big ↦ rw (big, read_step) (inr (gone, tt), long)
        | inr fits ↦
            let enough : ltb (length out) len ≡ false = ground arith in
            rw (fits, enough, read_step) (inr (gone, tt), long)
      ]
  read_changed-Kept s w (ReaderAt.copy len timestamp k) out gone h long =
      elim (Bool-cases (ltb k (min len (length s.payload)))) [
        | inl more ↦
            let l = length-set out k (get_or s.payload k 0) in
            rw (more, read_step) (inr (gone, tt), omega arith)
        | inr over ↦ rw (over, read_step) (inr (gone, tt), long)
      ]
  read_changed-Kept s w (ReaderAt.recheck_state len timestamp) out gone h long =
      elim (Bool-cases (is_written s.state)) [
        | inl on ↦
            rw (on, read_step) (inr (gone, inr (Gone-other expect slot old w s gone on)), long)
        | inr off ↦ rw (off, read_step) (inr (gone, tt), long)
      ]
  read_changed-Kept s w (ReaderAt.recheck_seq len timestamp) out gone (inl good) long =
      elim (Bool-cases (s.seq == expect)) [
        | inl same ↦ rw (same, read_step) (inr (gone, good), long)
        | inr other ↦ rw (other, read_step) (inr (gone, tt), long)
      ]
  read_changed-Kept s w (ReaderAt.recheck_seq len timestamp) out gone (inr ne) long =
      let other : (s.seq == expect) ≡ false = ground arith in
      rw (other, read_step) (inr (gone, tt), long)
  read_changed-Kept s w (ReaderAt.free len timestamp) out gone h long =
      (inr (Gone-empty expect slot old w s gone, h), long)
  read_changed-Kept s w (ReaderAt.done o) out gone h long = (inr (gone, h), long)
  read_changed-Kept s w ReaderAt.panicked out gone h long = absurd h

  -- What holds all along.
  pub record Holds (r : Race) : Type 0 where
    pub held : Held expect slot old r.slot r.writer.at r.reader.at r.reader.out
    pub apart : Apart expect slot old r.writer.frames
    pub long : 1024 ≤ length r.reader.out

  module _ (size : length slot.payload ≡ 1024) (room : 1024 ≤ length old) where
    reads-Kept :
        (s : Slot) (w : WriterAt) (at : ReaderAt) (out : Bytes)
        → Held expect slot old s w at out
        → 1024 ≤ length out
        → KeptBy w (read_step expect s at out)
    reads-Kept s w at out (inr (gone, late)) long = read_changed-Kept s w at out gone late long
    reads-Kept s w at out (inl (same, idle, reads)) long =
        subst (λ s. KeptBy w (read_step expect s at out)) (sym same)
          (read_slot-Kept w at out size room idle reads long)

    reset-Held :
        (s : Slot) (w : WriterAt) (at : ReaderAt) (out : Bytes)
        → Held expect slot old s w at out
        → Held expect slot old (record s { state = SlotState.empty }) w at out
    reset-Held s w at out (inr (gone, late)) = inr (Gone-empty expect slot old w s gone, late)
    reset-Held s w at out (inl (same, idle, reads)) =
        inr (Idle-empty expect slot old w s idle, Reads-Late expect slot old at s.seq out reads)

    step-Holds : (a : Actor) (r : Race) → Holds r → Holds (step expect a r)
    unfolding step
    step-Holds Actor.writer r h =
        let (held, apart) =
          writes-Kept expect slot old r.slot r.writer.at r.writer.frames r.reader.at r.reader.out
            h.held h.apart in
        record { held = held; apart = apart; long = h.long }
    step-Holds Actor.reader r h =
        let (held, long) = reads-Kept r.slot r.writer.at r.reader.at r.reader.out h.held h.long in
        record { held = held; apart = h.apart; long = long }
    step-Holds Actor.resetter r h = record {
      held = reset-Held r.slot r.writer.at r.reader.at r.reader.out h.held;
      apart = h.apart;
      long = h.long;
    }

    pub race-Holds : (actors : List Actor) (r : Race) → Holds r → Holds (race expect actors r)
    unfolding race
    race-Holds [] r h = h
    race-Holds (a ∷ actors) r h = race-Holds actors (step expect a r) (step-Holds a r h)
