-- ===== src/Audio/Playout/Tests.antt =====
-- Runs of the playout controller, with whole microseconds for floats.
use online_jam.Prelude.{ℕ, ◌+◌, ◌-◌, ◌*◌, ◌/◌, ◌≡◌, refl, true, List, [], ◌∷◌, arith, leb}
use online_jam.Prelude.Int.{ℤ, pos}
use online_jam.Audio.Playout
use online_jam.Audio.Playout.{PlayoutController}
use online_jam.Audio.Playout.Bounds
use online_jam.Audio.Playout.Bounds.{Call, IsTarget, run, run-new-IsTarget}
use online_jam.Audio.Playout.Outage.{gives_up, gives_up-misses}

-- `(k * jitter_us / frame_us).ceil()`.
abbrev frames_of : ℕ → ℕ → ℕ → ℤ
frames_of k jitter_us frame_us = pos ((k * jitter_us + frame_us - 1) / frame_us)

abbrev calls : List (Call ℕ)
calls = Call.before (pos 2) true ∷ Call.after true 90000 ∷ Call.after true 90000 ∷ []

abbrev controller : PlayoutController ℕ
controller = Playout.new 2500 3 2 3

test_target : (run frames_of controller calls).target ≡ pos 20
unfolding run Bounds.step Playout.new Playout.pre_pop Playout.post_pop
test_target = refl

run-new-IsTarget_example : IsTarget (run frames_of (Playout.new 2500 3 2 3) calls)
run-new-IsTarget_example = run-new-IsTarget frames_of 2500 3 2 3 calls

few : controller.consecutive_misses ≡ 0
unfolding Playout.new
few = refl

limit : controller.reset_after_misses ≡ 3
unfolding Playout.new
limit = refl

gives_up-misses_example :
    gives_up frames_of controller (10 ∷ 20 ∷ 30 ∷ [])
    ≡ leb controller.reset_after_misses (controller.consecutive_misses + 3)
gives_up-misses_example =
    gives_up-misses frames_of controller (10 ∷ 20 ∷ 30 ∷ []) (omega (arith, few, limit))
      (omega (arith, limit))
