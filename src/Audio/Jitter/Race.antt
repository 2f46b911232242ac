-- ===== src/Audio/Jitter/Race.antt =====
-- `push` and `take` of crates/jam-audio/src/jitter.rs on one slot, load by load and store by store:
-- the writer stores frame after frame, of pushes that have passed the checks of the stream position,
-- while the reader takes number `expect`, and `reset` may empty the slot at any time. The loads and stores of a schedule take effect in its order; the fences of the
-- source are to give the weaker orders of the hardware the same outcomes.
pub mod Atomic
pub mod Held
pub mod Rank
pub mod Steps
use online_jam.Prelude.{
  ℕ, suc, ◌+◌, ◌%◌, List, [], ◌∷◌, ltb, ◌==◌, if◌then◌else◌, Bytes, length, get_or, set, min,
}
use online_jam.Protocol.{u16_mod}
use online_jam.Audio.{max_frame_bytes}
use online_jam.Audio.Jitter.{Slot, SlotState, PopOutcome, is_written}
use online_jam.Audio.Jitter.Holds.{Frame}

-- The next access of the writer to the slot.
pub data WriterAt : Type 0 where
  load_state load_seq mark put_seq put_time put_len publish : WriterAt
  put_byte : ℕ → WriterAt

-- The frames yet to be stored; the first one is being stored.
pub record Writer : Type 0 where
  pub at : WriterAt
  pub frames : List Frame

-- The next access of the reader; behind the first ones it has a length, a time and a count of octets.
pub data ReaderAt : Type 0 where
  load_state load_seq load_len : ReaderAt
  load_time : (len : ℕ) → ReaderAt
  copy : (len timestamp k : ℕ) → ReaderAt
  recheck_state recheck_seq free : (len timestamp : ℕ) → ReaderAt
  done : PopOutcome → ReaderAt
  panicked : ReaderAt

pub record Reader : Type 0 where
  pub at : ReaderAt
  pub out : Bytes

pub data Actor : Type 0 where
  writer reader resetter : Actor

pub record Race : Type 0 where
  pub slot : Slot
  pub writer : Writer
  pub reader : Reader

-- A step of `push` on frame `f`, before the frames `fs`.
unfoldable pub write_step : Slot → WriterAt → Frame → List Frame → Slot × Writer
write_step s WriterAt.load_state f fs = (
  s,
  record { at = if is_written s.state then WriterAt.load_seq else WriterAt.mark; frames = f ∷ fs },
)
write_step s WriterAt.load_seq f fs =
    if s.seq == f.seq
    then (s, record { at = WriterAt.load_state; frames = fs })
    else (s, record { at = WriterAt.mark; frames = f ∷ fs })
write_step s WriterAt.mark f fs =
    (record s { state = SlotState.writing }, record { at = WriterAt.put_seq; frames = f ∷ fs })
write_step s WriterAt.put_seq f fs =
    (record s { seq = f.seq }, record { at = WriterAt.put_time; frames = f ∷ fs })
write_step s WriterAt.put_time f fs =
    (record s { timestamp = f.timestamp }, record { at = WriterAt.put_len; frames = f ∷ fs })
write_step s WriterAt.put_len f fs = (
  record s { len = length f.bytes % u16_mod },
  record { at = WriterAt.put_byte 0; frames = f ∷ fs },
)
write_step s (WriterAt.put_byte k) f fs =
    if ltb k (min (length s.payload) (length f.bytes))
    then (
      record s { payload = set s.payload k (get_or f.bytes k 0) },
      record { at = WriterAt.put_byte (suc k); frames = f ∷ fs },
    )
    else (s, record { at = WriterAt.publish; frames = f ∷ fs })
write_step s WriterAt.publish f fs =
    (record s { state = SlotState.written }, record { at = WriterAt.load_state; frames = fs })

-- A writer without frames waits.
unfoldable pub writes : Slot → WriterAt → List Frame → Slot × Writer
unfolding write_step
writes s at [] = (s, record { at = at; frames = [] })
writes s at (f ∷ fs) = write_step s at f fs

-- A step of `take`.
unfoldable pub read_step : (expect : ℕ) → Slot → ReaderAt → Bytes → Slot × Reader
read_step expect s ReaderAt.load_state out = (
  s,
  record {
    at = if is_written s.state then ReaderAt.load_seq else ReaderAt.done PopOutcome.missing;
    out = out;
  },
)
read_step expect s ReaderAt.load_seq out = (
  s,
  record {
    at = if s.seq == expect then ReaderAt.load_len else ReaderAt.done PopOutcome.missing;
    out = out;
  },
)
read_step expect s ReaderAt.load_len out = (s, record { at = ReaderAt.load_time s.len; out = out })
read_step expect s (ReaderAt.load_time len) out = (
  s,
  record {
    at =
        if ltb max_frame_bytes len
        then ReaderAt.done PopOutcome.missing
        else if ltb (length out) len
        then ReaderAt.panicked
        else ReaderAt.copy len s.timestamp 0;
    out = out;
  },
)
read_step expect s (ReaderAt.copy len timestamp k) out =
    if ltb k (min len (length s.payload))
    then (
      s,
      record { at = ReaderAt.copy len timestamp (suc k); out = set out k (get_or s.payload k 0) },
    )
    else (s, record { at = ReaderAt.recheck_state len timestamp; out = out })
read_step expect s (ReaderAt.recheck_state len timestamp) out = (
  s,
  record {
    at =
        if is_written s.state
        then ReaderAt.recheck_seq len timestamp
        else ReaderAt.done PopOutcome.missing;
    out = out;
  },
)
read_step expect s (ReaderAt.recheck_seq len timestamp) out = (
  s,
  record {
    at = if s.seq == expect then ReaderAt.free len timestamp else ReaderAt.done PopOutcome.missing;
    out = out;
  },
)
read_step expect s (ReaderAt.free len timestamp) out = (
  record s { state = SlotState.empty },
  record { at = ReaderAt.done (PopOutcome.frame len timestamp); out = out },
)
read_step expect s (ReaderAt.done o) out = (s, record { at = ReaderAt.done o; out = out })
read_step expect s ReaderAt.panicked out = (s, record { at = ReaderAt.panicked; out = out })

unfoldable pub step : (expect : ℕ) → Actor → Race → Race
unfolding writes read_step
step expect Actor.writer r =
    let (s, w) = writes r.slot r.writer.at r.writer.frames in record r { slot = s; writer = w }
step expect Actor.reader r =
    let (s, q) = read_step expect r.slot r.reader.at r.reader.out in
    record r { slot = s; reader = q }
step expect Actor.resetter r = record r { slot = record r.slot { state = SlotState.empty } }

-- Any interleaving.
unfoldable pub race : (expect : ℕ) → List Actor → Race → Race
unfolding step
race expect [] r = r
race expect (a ∷ actors) r = race expect actors (step expect a r)

-- The writer and the reader at the start of a `push` and of a `take`.
abbrev pub start : Slot → List Frame → Bytes → Race
start s frames out = record {
  slot = s;
  writer = record { at = WriterAt.load_state; frames = frames };
  reader = record { at = ReaderAt.load_state; out = out };
}

-- How often it is the reader's turn.
abbrev pub turns : List Actor → ℕ
turns [] = 0
turns (Actor.reader ∷ actors) = suc (turns actors)
turns (_ ∷ actors) = turns actors
