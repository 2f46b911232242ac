-- ===== src/Audio/Fifo.antt =====
-- `SampleFifo` of crates/jam-audio/src/accum.rs, a ring of samples. `A` is f32 and `silence` is 0.0.
-- A method returns the new ring; `none` is a panic of a slice.
pub mod Append
pub mod Newest
pub mod Put
pub mod Queue
mod Tests
use online_jam.Prelude.{
  ℕ, ◌+◌, ◌-◌, ◌%◌, List, [], ◌++◌, Option, none, some, ltb, leb, ◌==◌, Bool, if◌then◌else◌, length,
  take, drop, replicate, min,
}
use online_jam.Prelude.Options.{◌>>=◌}

pub record SampleFifo (A : Type 0) : Type 0 where
  pub buf : List A
  pub head : ℕ
  pub len : ℕ

module _ {A : Type 0} where
  unfoldable pub new : A → (capacity : ℕ) → SampleFifo A
  new silence capacity = record { buf = replicate capacity silence; head = 0; len = 0 }

  unfoldable pub capacity : SampleFifo A → ℕ
  capacity f = length f.buf

  unfoldable pub is_empty : SampleFifo A → Bool
  is_empty f = f.len == 0

  -- `buf[at..at + src.len()].copy_from_slice(src)`.
  unfoldable pub write_at : List A → ℕ → List A → Option (List A)
  write_at buf at src =
      if leb (at + length src) (length buf)
      then some (take at buf ++ (src ++ drop (at + length src) buf))
      else none

  -- `buf[from..to]`.
  unfoldable pub slice : List A → ℕ → ℕ → Option (List A)
  slice buf from to =
      if leb from to
      then if leb to (length buf) then some (take (to - from) (drop from buf)) else none
      else none

  -- The two copies of `push`, behind the last sample.
  unfoldable pub append : SampleFifo A → List A → Option (SampleFifo A)
  unfolding write_at slice
  append f samples = do
    let cap = length f.buf
    let tail = (f.head + f.len) % cap
    let first = min (cap - tail) (length samples)
    front ← slice samples 0 first
    buf ← write_at f.buf tail front
    back ← slice samples first (length samples)
    buf' ← if ltb 0 (length samples - first) then write_at buf 0 back else some buf
    some (record { buf = buf'; head = f.head; len = f.len + length samples })

  -- The ring once the oldest `overflow` samples are gone.
  abbrev pub trimmed : SampleFifo A → ℕ → SampleFifo A
  trimmed f overflow =
      if ltb 0 overflow
      then record { buf = f.buf; head = (f.head + overflow) % length f.buf; len = f.len - overflow }
      else f

  -- The number of samples dropped comes with the ring.
  unfoldable pub push : SampleFifo A → List A → Option (SampleFifo A × ℕ)
  unfolding append
  push f samples =
      let cap = length f.buf in
      let overflow = f.len + length samples - cap in
      if leb cap (length samples)
      then some
          (record { buf = drop (length samples - cap) samples; head = 0; len = cap }, overflow)
      else do g ← append (trimmed f overflow) samples; some (g, overflow)

  -- The ring and the `n` samples that fill `out`, if there are so many.
  unfoldable pub pop : SampleFifo A → ℕ → Option (SampleFifo A × Option (List A))
  unfolding slice
  pop f n = if ltb f.len n then some (f, none) else do
    let cap = length f.buf
    let first = min (cap - f.head) n
    front ← slice f.buf f.head (f.head + first)
    back ← if ltb 0 (n - first) then slice f.buf 0 (n - first) else some []
    some (record { buf = f.buf; head = (f.head + n) % cap; len = f.len - n }, some (front ++ back))
