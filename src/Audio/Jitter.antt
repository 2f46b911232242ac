-- ===== src/Audio/Jitter.antt =====
-- `JitterBuffer` of crates/jam-audio/src/jitter.rs, one call at a time. An atomic is its value, and
-- `fetch_add` on an `AtomicU64` wraps. A method that takes `&self` returns the new buffer.
pub mod Holds
pub mod Play
pub mod Invariant
pub mod Once
pub mod Position
pub mod Race
pub mod Slots
mod Tests
use online_jam.Prelude.{
  ℕ, ◌+◌, ◌%◌, Bool, true, false, not, ◌&&◌, List, ◌++◌, Option, none, some, ltb, ◌==◌,
  if◌then◌else◌, Bytes, length, take, drop, get_or, set, replicate, map,
}
use online_jam.Prelude.Int.{ℤ, pos, ◌+ℤ◌}
use online_jam.Protocol.{u16_mod, u64_mod}
use online_jam.Protocol.Seq.{newer_than, diff, wrapping_add}
use online_jam.Audio.{max_frame_bytes}

abbrev pub slot_count : ℕ
slot_count = 64

pub data SlotState : Type 0 where
  empty writing written : SlotState

pub record Slot : Type 0 where
  pub state : SlotState
  pub seq : ℕ
  pub timestamp : ℕ
  pub len : ℕ
  pub payload : Bytes

-- `Slot::new`.
abbrev pub new_slot : Slot
new_slot = record {
  state = SlotState.empty;
  seq = 0;
  timestamp = 0;
  len = 0;
  payload = replicate max_frame_bytes 0;
}

pub data PushOutcome : Type 0 where
  stored late duplicate too_big : PushOutcome

pub data PopOutcome : Type 0 where
  frame : (len timestamp : ℕ) → PopOutcome
  missing : PopOutcome

-- `jitter_us_bits` holds the bits of an f32.
pub record JitterStats : Type 0 where
  pub received : ℕ
  pub late : ℕ
  pub duplicates : ℕ
  pub concealed : ℕ
  pub played : ℕ
  pub resets : ℕ
  pub jitter_us_bits : ℕ

pub record JitterBuffer : Type 0 where
  pub slots : List Slot
  pub next_seq : ℕ
  pub newest_seq : ℕ
  pub started : Bool
  pub stats : JitterStats

unfoldable pub new : JitterBuffer
new = record {
  slots = replicate slot_count new_slot;
  next_seq = 0;
  newest_seq = 0;
  started = false;
  stats = record {
    received = 0;
    late = 0;
    duplicates = 0;
    concealed = 0;
    played = 0;
    resets = 0;
    jitter_us_bits = 0;
  };
}

-- `fetch_add(1)` on a counter.
abbrev pub inc : ℕ → ℕ
inc n = (n + 1) % u64_mod

-- `&self.slots[seq as usize % SLOTS]`, and the slots with another there.
abbrev pub slot_of : List Slot → ℕ → Slot
slot_of slots seq = get_or slots (seq % slot_count) new_slot

abbrev pub with_slot : List Slot → ℕ → Slot → List Slot
with_slot slots seq s = set slots (seq % slot_count) s

abbrev pub is_written : SlotState → Bool
is_written SlotState.written = true
is_written _ = false

-- `state == STATE_WRITTEN && slot.seq == expect`.
abbrev pub has_seq : Slot → ℕ → Bool
has_seq s seq = is_written s.state && s.seq == seq

-- `for (dst, src) in old.iter().zip(src)`: the longer list's rest is kept, or left out.
unfoldable pub overwrite : Bytes → Bytes → Bytes
overwrite src old = take (length old) src ++ drop (length src) old

-- What `push` stores into a slot.
abbrev pub filled : ℕ → ℕ → Bytes → Slot → Slot
filled seq timestamp payload slot = record {
  state = SlotState.written;
  seq = seq;
  timestamp = timestamp;
  len = length payload % u16_mod;
  payload = overwrite payload slot.payload;
}

-- The part of `push` behind the checks of the stream position.
unfoldable pub store : JitterBuffer → ℕ → ℕ → Bytes → JitterBuffer × PushOutcome
store b seq timestamp payload =
    let slot = slot_of b.slots seq in
    if has_seq slot seq
    then (
      record b { stats = record b.stats { duplicates = inc b.stats.duplicates } },
      PushOutcome.duplicate,
    )
    else (
      record b {
        slots = with_slot b.slots seq (filled seq timestamp payload slot);
        stats = record b.stats { received = inc b.stats.received };
      },
      PushOutcome.stored,
    )

unfoldable pub push : JitterBuffer → ℕ → ℕ → Bytes → JitterBuffer × PushOutcome
unfolding store
push b seq timestamp payload =
    if ltb max_frame_bytes (length payload)
    then (b, PushOutcome.too_big)
    else if not b.started
    then store (record b { next_seq = seq; newest_seq = seq; started = true }) seq timestamp payload
    else if newer_than b.next_seq seq
    then (record b { stats = record b.stats { late = inc b.stats.late } }, PushOutcome.late)
    else if newer_than seq b.newest_seq
    then store (record b { newest_seq = seq }) seq timestamp payload
    else store b seq timestamp payload

-- `publish_jitter_us`, given the estimate's bits.
unfoldable pub publish_jitter_us : JitterBuffer → ℕ → JitterBuffer
publish_jitter_us b bits = record b { stats = record b.stats { jitter_us_bits = bits } }

unfoldable pub depth : JitterBuffer → ℤ
depth b = if not b.started then pos 0 else diff b.newest_seq b.next_seq +ℤ pos 1

unfoldable pub is_started : JitterBuffer → Bool
is_started b = b.started

-- What `take` returns: the buffer, `out` and the outcome.
pub record Taken : Type 0 where
  pub buffer : JitterBuffer
  pub out : Bytes
  pub outcome : PopOutcome

abbrev pub nothing : JitterBuffer → Bytes → Taken
nothing b out = record { buffer = b; out = out; outcome = PopOutcome.missing }

-- `out` with the slot's bytes copied_out to its start.
abbrev pub copied_out : Slot → Bytes → Bytes
copied_out slot out = overwrite slot.payload (take slot.len out) ++ drop slot.len out

-- The end of `take`: the slot is free again.
abbrev pub found : JitterBuffer → ℕ → Bytes → Taken
found b expect out =
    let slot = slot_of b.slots expect in
    record {
      buffer = record b {
        slots = with_slot b.slots expect (record slot { state = SlotState.empty });
      };
      out = copied_out slot out;
      outcome = PopOutcome.frame slot.len slot.timestamp;
    }

-- `out[..len]` panics, `none`, where `out` is shorter. The check of state and sequence number after
-- the copy reads the slot again.
unfoldable pub take_slot : JitterBuffer → ℕ → Bytes → Option Taken
take_slot b expect out =
    let slot = slot_of b.slots expect in
    if not (has_seq slot expect)
    then some (nothing b out)
    else if ltb max_frame_bytes slot.len
    then some (nothing b out)
    else if ltb (length out) slot.len
    then none
    else if not (has_seq (slot_of b.slots expect) expect)
    then some (nothing b (copied_out slot out))
    else some (found b expect out)

-- The counter that `pop_next` adds to.
abbrev counted : PopOutcome → JitterStats → JitterStats
counted (PopOutcome.frame _ _) s = record s { played = inc s.played }
counted PopOutcome.missing s = record s { concealed = inc s.concealed }

abbrev advanced : ℕ → Taken → Taken
advanced expect t = record t {
  buffer = record t.buffer {
    next_seq = wrapping_add expect 1;
    stats = counted t.outcome t.buffer.stats;
  };
}

-- `pop_next` of a started buffer whose read position is `expect`.
unfoldable pub pop_at : JitterBuffer → ℕ → Bytes → Option Taken
pop_at b expect out = elim (take_slot b expect out) [
  | none ↦ none
  | some t ↦ some (advanced expect t)
]

unfoldable pub pop_next : JitterBuffer → Bytes → Option Taken
pop_next b out = if not b.started then some (nothing b out) else pop_at b b.next_seq out

unfoldable pub skip_next : JitterBuffer → JitterBuffer × Bool
skip_next b =
    if not b.started
    then (b, false)
    else let slot = slot_of b.slots b.next_seq in
      let next = wrapping_add b.next_seq 1 in
      if has_seq slot b.next_seq
      then (
        record b {
          slots = with_slot b.slots b.next_seq (record slot { state = SlotState.empty });
          next_seq = next;
        },
        true,
      )
      else (record b { next_seq = next }, false)

abbrev emptied : Slot → Slot
emptied s = record s { state = SlotState.empty }

unfoldable pub reset : JitterBuffer → JitterBuffer
reset b = record b {
  slots = map emptied b.slots;
  started = false;
  stats = record b.stats { resets = inc b.stats.resets };
}
