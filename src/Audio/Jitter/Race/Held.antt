-- ===== src/Audio/Jitter/Race/Held.antt =====
-- What holds at every step while a frame is taken and others are stored: crates/jam-audio/src/jitter.rs.
use online_jam.Prelude.{
  ℕ, ◌≤◌, ◌≡◌, ◌≢◌, refl, ◌⊎◌, inl, inr, true, false, List, [], ◌∷◌, ◌++◌, arith, ltb, ◌==◌,
  Bool-cases, Bytes, length, take, drop, min, All,
}
use online_jam.Audio.Jitter.{Slot, SlotState, PopOutcome, is_written}
use online_jam.Audio.Jitter.Holds.{Frame}
use online_jam.Audio.Jitter.Race.{WriterAt, ReaderAt, Writer, write_step, writes}

module _ (expect : ℕ) (slot : Slot) (old : Bytes) where
  -- The slot as it was at the start has the frame.
  pub record Hit (len timestamp : ℕ) : Type 0 where
    pub state : is_written slot.state ≡ true
    pub seq : slot.seq ≡ expect
    pub len_same : len ≡ slot.len
    pub time_same : timestamp ≡ slot.timestamp
    pub small : len ≤ 1024

  -- The outcome is that frame, and `out` has all of its octets.
  abbrev pub Good : (len timestamp : ℕ) → Bytes → Type 0
  Good len timestamp out = Hit len timestamp × (out ≡ take len slot.payload ++ drop len old)

  -- What the reader has while the slot is as it was.
  abbrev pub Reads : ReaderAt → Bytes → Type 0
  Reads ReaderAt.load_state out = out ≡ old
  Reads ReaderAt.load_seq out = (is_written slot.state ≡ true) × (out ≡ old)
  Reads ReaderAt.load_len out = (is_written slot.state ≡ true) × (slot.seq ≡ expect) × (out ≡ old)
  Reads (ReaderAt.load_time len) out =
      (is_written slot.state ≡ true) × (slot.seq ≡ expect) × (len ≡ slot.len) × (out ≡ old)
  Reads (ReaderAt.copy len timestamp k) out =
      Hit len timestamp × (k ≤ len) × (out ≡ take k slot.payload ++ drop k old)
  Reads (ReaderAt.recheck_state len timestamp) out = Good len timestamp out
  Reads (ReaderAt.recheck_seq len timestamp) out = Good len timestamp out
  Reads (ReaderAt.free len timestamp) out = Good len timestamp out
  Reads (ReaderAt.done (PopOutcome.frame len timestamp)) out = Good len timestamp out
  Reads (ReaderAt.done PopOutcome.missing) out = Unit
  Reads ReaderAt.panicked out = ⊥

  -- What it has once the slot has changed.
  abbrev pub Late : ReaderAt → (seq : ℕ) → Bytes → Type 0
  Late (ReaderAt.recheck_seq len timestamp) seq out = Good len timestamp out ⊎ (seq ≢ expect)
  Late (ReaderAt.free len timestamp) seq out = Good len timestamp out
  Late (ReaderAt.done (PopOutcome.frame len timestamp)) seq out = Good len timestamp out
  Late ReaderAt.panicked seq out = ⊥
  Late _ seq out = Unit

  pub Reads-Late : (at : ReaderAt) (seq : ℕ) (out : Bytes) → Reads at out → Late at seq out
  Reads-Late (ReaderAt.recheck_seq len timestamp) seq out h = inl h
  Reads-Late (ReaderAt.free len timestamp) seq out h = h
  Reads-Late (ReaderAt.done (PopOutcome.frame len timestamp)) seq out h = h
  Reads-Late ReaderAt.panicked seq out h = h
  Reads-Late (ReaderAt.done PopOutcome.missing) seq out h = tt
  Reads-Late ReaderAt.load_state seq out h = tt
  Reads-Late ReaderAt.load_seq seq out h = tt
  Reads-Late ReaderAt.load_len seq out h = tt
  Reads-Late (ReaderAt.load_time len) seq out h = tt
  Reads-Late (ReaderAt.copy len timestamp k) seq out h = tt
  Reads-Late (ReaderAt.recheck_state len timestamp) seq out h = tt

  pub Late-other :
      (at : ReaderAt) (seq seq' : ℕ) (out : Bytes)
      → seq' ≢ expect
      → Late at seq out
      → Late at seq' out
  Late-other (ReaderAt.recheck_seq len timestamp) seq seq' out other h = inr other
  Late-other (ReaderAt.free len timestamp) seq seq' out other h = h
  Late-other (ReaderAt.done (PopOutcome.frame len timestamp)) seq seq' out other h = h
  Late-other ReaderAt.panicked seq seq' out other h = h
  Late-other (ReaderAt.done PopOutcome.missing) seq seq' out other h = tt
  Late-other ReaderAt.load_state seq seq' out other h = tt
  Late-other ReaderAt.load_seq seq seq' out other h = tt
  Late-other ReaderAt.load_len seq seq' out other h = tt
  Late-other (ReaderAt.load_time len) seq seq' out other h = tt
  Late-other (ReaderAt.copy len timestamp k) seq seq' out other h = tt
  Late-other (ReaderAt.recheck_state len timestamp) seq seq' out other h = tt

  -- The writer has not touched the slot since it last published.
  abbrev pub Idle : WriterAt → Type 0
  Idle WriterAt.load_state = Unit
  Idle WriterAt.load_seq = Unit
  Idle WriterAt.mark = Unit
  Idle _ = ⊥

  -- The frame is gone from the slot.
  abbrev pub Gone : WriterAt → Slot → Type 0
  Gone WriterAt.load_state s = is_written s.state ≡ true → s.seq ≢ expect
  Gone WriterAt.load_seq s = is_written s.state ≡ true → s.seq ≢ expect
  Gone WriterAt.mark s = is_written s.state ≡ true → s.seq ≢ expect
  Gone WriterAt.put_seq s = is_written s.state ≡ false
  Gone _ s = s.seq ≢ expect

  pub Gone-other : (w : WriterAt) (s : Slot) → Gone w s → is_written s.state ≡ true → s.seq ≢ expect
  Gone-other WriterAt.load_state s h e = h e
  Gone-other WriterAt.load_seq s h e = h e
  Gone-other WriterAt.mark s h e = h e
  Gone-other WriterAt.put_seq s h e = absurd (ground arith)
  Gone-other WriterAt.put_time s h e = h
  Gone-other WriterAt.put_len s h e = h
  Gone-other WriterAt.publish s h e = h
  Gone-other (WriterAt.put_byte k) s h e = h

  pub Gone-empty :
      (w : WriterAt) (s : Slot) → Gone w s → Gone w (record s { state = SlotState.empty })
  Gone-empty WriterAt.load_state s h = λ e. absurd (ground arith)
  Gone-empty WriterAt.load_seq s h = λ e. absurd (ground arith)
  Gone-empty WriterAt.mark s h = λ e. absurd (ground arith)
  Gone-empty WriterAt.put_seq s h = refl
  Gone-empty WriterAt.put_time s h = h
  Gone-empty WriterAt.put_len s h = h
  Gone-empty WriterAt.publish s h = h
  Gone-empty (WriterAt.put_byte k) s h = h

  pub Idle-empty :
      (w : WriterAt) (s : Slot) → Idle w → Gone w (record s { state = SlotState.empty })
  Idle-empty WriterAt.load_state s h = λ e. absurd (ground arith)
  Idle-empty WriterAt.load_seq s h = λ e. absurd (ground arith)
  Idle-empty WriterAt.mark s h = λ e. absurd (ground arith)
  Idle-empty WriterAt.put_seq s h = absurd h
  Idle-empty WriterAt.put_time s h = absurd h
  Idle-empty WriterAt.put_len s h = absurd h
  Idle-empty WriterAt.publish s h = absurd h
  Idle-empty (WriterAt.put_byte k) s h = absurd h

  -- The slot, the writer and the reader together.
  abbrev pub Held : Slot → WriterAt → ReaderAt → Bytes → Type 0
  Held s w at out = ((s ≡ slot) × Idle w × Reads at out) ⊎ (Gone w s × Late at s.seq out)

  abbrev pub Apart : List Frame → Type 0
  Apart fs = All (λ f. f.seq ≢ expect) fs

  abbrev pub Kept : Slot × Writer → ReaderAt → Bytes → Type 0
  Kept (s, w) at out = Held s w.at at out × Apart w.frames

  write_step-Kept :
      (s : Slot) (w : WriterAt) (f : Frame) (fs : List Frame) (at : ReaderAt) (out : Bytes)
      → Held s w at out
      → Apart (f ∷ fs)
      → Kept (write_step s w f fs) at out
  unfolding write_step
  write_step-Kept s WriterAt.load_state f fs at out h apart =
      elim (Bool-cases (is_written s.state)) [
        | inl on ↦ rw (on, write_step) (h, apart)
        | inr off ↦ rw (off, write_step) (h, apart)
      ]
  write_step-Kept s WriterAt.load_seq f fs at out h apart = elim (Bool-cases (s.seq == f.seq)) [
    | inl same ↦ rw (same, write_step) (h, apart.1)
    | inr other ↦ rw (other, write_step) (h, apart)
  ]
  write_step-Kept s WriterAt.mark f fs at out (inl (same, idle, reads)) apart =
      (inr (refl, Reads-Late at s.seq out reads), apart)
  write_step-Kept s WriterAt.mark f fs at out (inr (gone, late)) apart = (inr (refl, late), apart)
  write_step-Kept s WriterAt.put_seq f fs at out (inr (gone, late)) apart =
      (inr (apart.0, Late-other at s.seq f.seq out apart.0 late), apart)
  write_step-Kept s WriterAt.put_time f fs at out (inr (gone, late)) apart =
      (inr (gone, late), apart)
  write_step-Kept s WriterAt.put_len f fs at out (inr (gone, late)) apart =
      (inr (gone, late), apart)
  write_step-Kept s WriterAt.publish f fs at out (inr (gone, late)) apart =
      (inr (λ e. gone, late), apart.1)
  write_step-Kept s (WriterAt.put_byte k) f fs at out (inr (gone, late)) apart =
      elim (Bool-cases (ltb k (min (length s.payload) (length f.bytes)))) [
        | inl more ↦ rw (more, write_step) (inr (gone, late), apart)
        | inr over ↦ rw (over, write_step) (inr (gone, late), apart)
      ]
  write_step-Kept s WriterAt.put_seq f fs at out (inl (same, idle, reads)) apart = absurd idle
  write_step-Kept s WriterAt.put_time f fs at out (inl (same, idle, reads)) apart = absurd idle
  write_step-Kept s WriterAt.put_len f fs at out (inl (same, idle, reads)) apart = absurd idle
  write_step-Kept s WriterAt.publish f fs at out (inl (same, idle, reads)) apart = absurd idle
  write_step-Kept s (WriterAt.put_byte k) f fs at out (inl (same, idle, reads)) apart = absurd idle

  pub writes-Kept :
      (s : Slot) (w : WriterAt) (fs : List Frame) (at : ReaderAt) (out : Bytes)
      → Held s w at out
      → Apart fs
      → Kept (writes s w fs) at out
  unfolding writes
  writes-Kept s w [] at out h apart = (h, tt)
  writes-Kept s w (f ∷ fs) at out h apart = write_step-Kept s w f fs at out h apart
