-- ===== src/Engine/Tests.antt =====
-- Runs of the audio callbacks, with a source that counts, and uses of their theorems.
use online_jam.Prelude.{
  ℕ, suc, ◌+◌, ◌-◌, ◌*◌, ◌/◌, ◌%◌, ◌^◌, ◌≤◌, ◌<◌, ◌≡◌, refl, List, [], ◌∷◌, ◌++◌, Option, some,
  arith, length, take, drop, replicate,
}
use online_jam.Audio.Fifo
use online_jam.Audio.Fifo.{SampleFifo}
use online_jam.Audio.Fifo.Queue.{IsQueue}
use online_jam.Engine.{
  Played, capture, drift_cap, fan, on_input, on_output, fill, serve, take_blocks, session_id,
}
use online_jam.Engine.Capture.{capture-newest}
use online_jam.Engine.Output.{Makes, IsSource, on_output-Makes}

-- Frames of two samples, counting up.
abbrev count : ℕ → Option (ℕ × List ℕ)
count n = some (suc n, n ∷ (n + 10) ∷ [])

abbrev Always : ℕ → Type 0
Always n = Unit {0}

count-IsSource : IsSource count Always 2
count-IsSource = record { makes = λ n v. (suc n, n ∷ (n + 10) ∷ [], refl, tt, refl) }

abbrev pending : SampleFifo ℕ
pending = record { buf = replicate 40 0; head = 0; len = 0 }

pending-IsQueue : IsQueue pending []
pending-IsQueue = record {
  size = refl;
  fits = omega arith;
  starts = omega arith;
  items = λ k lt. absurd (omega arith);
}

abbrev block : List ℕ
block = replicate 7 99

-- Three samples on two channels, and a tail that is less than a sample of both.
test_on_output :
    (o : Played ℕ ℕ) × (on_output count 2 2 5 pending block ≡ some o)
    × (o.block ≡ 5 ∷ 5 ∷ 15 ∷ 15 ∷ 6 ∷ 6 ∷ 99 ∷ [])
    × (o.process ≡ 7)
unfolding on_output fill serve fan Fifo.push Fifo.append Fifo.write_at Fifo.slice Fifo.pop
test_on_output = (_, refl, refl, refl)

on_output-Makes_example :
    (o : Played ℕ ℕ) × (ys : List ℕ) × (on_output count 2 2 5 pending block ≡ some o)
    × Makes count 5 ys o.process
    × Always 0
    × (o.block ≡ fan 2 (take (length block / 2) ([] ++ ys)) ++ drop (length block / 2 * 2) block)
    × IsQueue o.pending (drop (length block / 2) ([] ++ ys))
    × (length o.pending.buf ≡ length pending.buf)
on_output-Makes_example =
    on_output-Makes count Always 2 count-IsSource 2 5 pending [] block tt pending-IsQueue
      (omega arith) (omega arith) (omega arith)

-- The left channel of whole blocks, until the ring is full.
test_on_input : on_input {S = ℕ} 0 2 3 (1 ∷ 2 ∷ 3 ∷ 4 ∷ 5 ∷ 6 ∷ 7 ∷ []) (9 ∷ []) ≡ 9 ∷ 1 ∷ 3 ∷ []
unfolding on_input take_blocks
test_on_input = refl

test_session_id : (session_id 0 ≡ 1) × (session_id 65536 ≡ 1) × (session_id 65543 ≡ 7)
unfolding session_id
test_session_id = (refl, refl, refl)

abbrev ring : List ℕ
ring = 1 ∷ 2 ∷ 3 ∷ 4 ∷ 5 ∷ 6 ∷ 7 ∷ 8 ∷ 9 ∷ []

capture-newest_example :
    (length (capture 0 2 1 ring 5).local_in ≡ 2)
    × (length (capture 0 2 1 ring 5).ring ≤ drift_cap 2 1)
    × ((2 ≤ length ring)
        → ((capture 0 2 1 ring 5).local_in ++ (capture 0 2 1 ring 5).ring
            ≡ drop (length ring - drift_cap 2 1) ring)
          × ((capture 0 2 1 ring 5).starved ≡ 5))
    × ((length ring < 2)
        → (capture 0 2 1 ring 5
            ≡ record { ring = ring; local_in = replicate 2 0; starved = (5 + 1) % 2 ^ 64 }))
capture-newest_example = capture-newest 0 2 1 ring 5
