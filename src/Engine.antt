-- ===== src/Engine.antt =====
-- The audio callbacks of crates/jam-core/src/engine.rs. The rings of the crate rtrb, between the
-- callbacks and between a callback and a thread, are lists, oldest item first, with a capacity; a
-- callback sees one state of the capture ring. The conversions of samples at the device are the
-- identity.
pub mod Capture
pub mod Output
pub mod Callback
mod Tests
use online_jam.Prelude.{
  ℕ, zero, suc, ◌+◌, ◌-◌, ◌*◌, ◌/◌, ◌%◌, List, [], ◌∷◌, ◌++◌, Option, none, some, ltb, leb, not,
  if◌then◌else◌, length, take, drop, get_or, replicate, min, max,
}
use online_jam.Prelude.Options.{◌>>=◌}
use online_jam.Protocol.{u16_mod, u64_mod}
use online_jam.Audio.Fifo
use online_jam.Audio.Fifo.{SampleFifo}

-- The end of `session_id_from_entropy`, from the mixed entropy.
unfoldable pub session_id : ℕ → ℕ
session_id mixed = max (mixed % u16_mod) 1

abbrev pub drift_cap : (frame hw_buffer : ℕ) → ℕ
drift_cap frame hw_buffer = max (frame * 4) (hw_buffer * 2)

-- The capture ring, a frame of it, and the counter of frames that it was short of.
pub record Captured (S : Type 0) : Type 0 where
  pub ring : List S
  pub local_in : List S
  pub starved : ℕ

-- What a device callback leaves.
pub record Played (P S : Type 0) : Type 0 where
  pub process : P
  pub pending : SampleFifo S
  pub block : List S

module _ {S : Type 0} where
  -- `while cap_cons.slots() > drift_cap`.
  unfoldable pub trim : (cap : ℕ) → List S → List S
  trim cap [] = []
  trim cap (x ∷ xs) = let rest = trim cap xs in if ltb cap (length (x ∷ xs)) then rest else x ∷ xs

  -- The start of an output callback: a frame of the capture ring, or silence.
  unfoldable pub capture : S → (frame hw_buffer : ℕ) → List S → (starved : ℕ) → Captured S
  unfolding trim
  capture silence frame hw_buffer ring starved =
      let kept = trim (drift_cap frame hw_buffer) ring in
      if leb frame (length kept)
      then record { ring = drop frame kept; local_in = take frame kept; starved = starved }
      else record {
        ring = kept;
        local_in = replicate frame silence;
        starved = (starved + 1) % u64_mod;
      }

  -- The loop of the input callback, for so many blocks of interleaved samples: channel 0 goes into
  -- the ring of capacity `cap`, and is dropped where that is full.
  unfoldable pub take_blocks : S → (channels cap blocks : ℕ) → List S → List S → List S
  take_blocks silence channels cap zero samples ring = ring
  take_blocks silence channels cap (suc n) samples ring =
      take_blocks silence channels cap n (drop channels samples)
        (if ltb (length ring) cap then ring ++ get_or samples 0 silence ∷ [] else ring)

  -- The input callback; `chunks_exact` leaves out what is less than a block.
  unfoldable pub on_input : S → (channels cap : ℕ) → List S → List S → List S
  unfolding take_blocks
  on_input silence channels cap samples ring =
      take_blocks silence channels cap (length samples / channels) samples ring

  -- Each sample goes to all channels.
  unfoldable pub fan : (channels : ℕ) → List S → List S
  fan channels [] = []
  fan channels (s ∷ ss) = replicate channels s ++ fan channels ss

  -- The draining loop of the output callback, for so many rounds: `needed` samples in chunks of at
  -- most a frame. `none` is a panic, or that the rounds do not do.
  unfoldable pub serve :
      (fuel channels frame needed : ℕ) → SampleFifo S → Option (SampleFifo S × List S)
  unfolding Fifo.pop fan
  serve zero channels frame needed pending = if ltb 0 needed then none else some (pending, [])
  serve (suc fuel) channels frame needed pending =
      if not (ltb 0 needed)
      then some (pending, [])
      else elim (Fifo.pop pending (min needed frame)) [
        | none ↦ none
        | some (pending', none) ↦ none
        | some (pending', some chunk) ↦ do
          (pending'', rest) ← serve fuel channels frame (needed - min needed frame) pending'
          some (pending'', fan channels chunk ++ rest)
      ]

module _ {P S : Type 0} (process : P → Option (P × List S)) where
  -- The filling loop, for so many rounds; `process` is a frame of the pipeline.
  unfoldable pub fill : (fuel needed : ℕ) → P → SampleFifo S → Option (P × SampleFifo S)
  unfolding Fifo.push
  fill zero needed p pending = if ltb pending.len needed then none else some (p, pending)
  fill (suc fuel) needed p pending = if not (ltb pending.len needed) then some (p, pending) else do
    (p', frame_buf) ← process p
    (pending', _) ← Fifo.push pending frame_buf
    fill fuel needed p' pending'

  -- The output callback, on a device block of `channels` interleaved channels. Both loops get as
  -- many rounds as there are samples to play.
  unfoldable pub on_output :
      (channels frame : ℕ) → P → SampleFifo S → (block : List S) → Option (Played P S)
  unfolding fill serve
  on_output channels frame p pending block = do
    let needed = length block / channels
    (p', filled) ← fill needed needed p pending
    (rest, played) ← serve needed channels frame needed filled
    some (record { process = p'; pending = rest; block = played ++ drop (length played) block })

-- `pending` at the start.
unfoldable pub new_pending : {S : Type 0} → S → (frame : ℕ) → SampleFifo S
unfolding Fifo.new
new_pending silence frame = Fifo.new silence (frame * 16 + 65536)
