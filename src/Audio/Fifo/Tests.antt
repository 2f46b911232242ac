-- ===== src/Audio/Fifo/Tests.antt =====
-- Runs of the sample ring at concrete inputs.
use online_jam.Prelude.{
  ℕ, zero, suc, ◌+◌, ◌-◌, ◌++◌, ◌%◌, ◌≤◌, ◌<◌, ◌≡◌, refl, List, [], ◌∷◌, none, some, arith, length,
  get_elem?, take, drop,
}
use online_jam.Audio.Fifo
use online_jam.Audio.Fifo.{SampleFifo, push, pop}
use online_jam.Audio.Fifo.Newest.{push-IsQueue}
use online_jam.Audio.Fifo.Queue.{IsQueue, pop-IsQueue}

-- A full ring of three whose oldest sample, 5, is the last of its buffer.
abbrev ring : SampleFifo ℕ
ring = record { buf = 6 ∷ 7 ∷ 5 ∷ []; head = 2; len = 3 }

test_push : push ring (8 ∷ 9 ∷ []) ≡ some (record { buf = 9 ∷ 7 ∷ 8 ∷ []; head = 1; len = 3 }, 2)
unfolding push Fifo.append Fifo.slice Fifo.write_at
test_push = refl

test_pop : pop ring 2 ≡ some (record { buf = 6 ∷ 7 ∷ 5 ∷ []; head = 1; len = 1 }, some (5 ∷ 6 ∷ []))
unfolding pop Fifo.slice
test_pop = refl

abbrev new_samples : List ℕ
new_samples = 8 ∷ 9 ∷ []

abbrev samples : List ℕ
samples = 5 ∷ 6 ∷ 7 ∷ []

items : (k : ℕ) → k < 3 → get_elem? ring.buf ((2 + k) % 3) ≡ get_elem? samples k
items zero h = refl
items (suc zero) h = refl
items (suc (suc zero)) h = refl
items (suc (suc (suc k))) h = absurd (omega arith)

ring-IsQueue : IsQueue ring samples
ring-IsQueue = record { size = refl; fits = omega arith; starts = omega arith; items = items }

pop-IsQueue_example :
    (2 ≤ length samples
      → (g : SampleFifo ℕ) × (pop ring 2 ≡ some (g, some (take 2 samples)))
        × IsQueue g (drop 2 samples))
    × (length samples < 2 → pop ring 2 ≡ some (ring, none))
pop-IsQueue_example = pop-IsQueue ring samples 2 ring-IsQueue

push-IsQueue_example :
    (g : SampleFifo ℕ) × (push ring new_samples
      ≡ some (g, length samples + length new_samples - length ring.buf))
    × IsQueue g
        (drop (length samples + length new_samples - length ring.buf) (samples ++ new_samples))
    × (length g.buf ≡ length ring.buf)
push-IsQueue_example = push-IsQueue ring samples new_samples ring-IsQueue
