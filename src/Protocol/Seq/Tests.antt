-- ===== src/Protocol/Seq/Tests.antt =====
-- Runs of the sequence numbers, from the source's unit tests, and the theorems at concrete numbers.
use online_jam.Prelude.{◌≡◌, refl, true, false}
use online_jam.Prelude.Int.{pos, negsuc}
use online_jam.Protocol.Seq.{newer_than, diff, new, next}

ordering_across_wraparound :
    (newer_than 0 65535 ≡ true) × (newer_than 5 65530 ≡ true) × (newer_than 65535 0 ≡ false)
unfolding newer_than
ordering_across_wraparound = (refl, refl, refl)

diff_signs : (diff 7 10 ≡ negsuc 2) × (diff 2 65535 ≡ pos 3) × (diff 65535 2 ≡ negsuc 2)
unfolding diff
diff_signs = (refl, refl, refl)

generator_wraps : (next (record { value = 65535 })).1 ≡ new
unfolding new next
generator_wraps = refl
