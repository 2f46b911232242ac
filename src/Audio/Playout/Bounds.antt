-- ===== src/Audio/Playout/Bounds.antt =====
-- The bounds of the playout controller.
use online_jam.Prelude.{
  ℕ, ◌+◌, ◌%◌, ◌≡◌, ap, inl, inr, Bool, true, false, not, ◌&&◌, ◌||◌, List, [], ◌∷◌, arith, leb,
  Bool-cases,
}
use online_jam.Prelude.Int.{ℤ, ◌+ℤ◌, ◌-ℤ◌, ◌≤ℤ◌, leb_ℤ, ltb_ℤ}
use online_jam.Protocol.{u32_mod}
use online_jam.Audio.Playout
use online_jam.Audio.Playout.{
  PlayoutController, Adjust, clamp, set_fixed, pre_pop, evaluate, post_pop, set_deadband,
  observe_depth, take_adjustment, is_keep, wrap_i32,
}

-- The target is within the controller's bounds.
pub record IsTarget {F : Type 0} (c : PlayoutController F) : Type 0 where
  pub at_least : c.min_frames ≤ℤ c.target
  pub at_most : c.target ≤ℤ c.max_frames

clamp-within : (x lo hi : ℤ) → lo ≤ℤ hi → (lo ≤ℤ clamp x lo hi) × (clamp x lo hi ≤ℤ hi)
clamp-within x lo hi h = ground arith

-- A call of the audio callback, or of the settings.
pub data Call (F : Type 0) : Type 0 where
  fix : ℤ → Call F
  before : (depth : ℤ) → (started : Bool) → Call F
  after : (hit : Bool) → (jitter_us : F) → Call F
  widen : ℤ → Call F
  observe : (depth : ℤ) → Call F
  adjust : Call F
  restart : Call F

module _ {F : Type 0} (frames_of : F → F → F → ℤ) where
  unfoldable pub step : PlayoutController F → Call F → PlayoutController F
  step c (Call.fix frames) = set_fixed c frames
  step c (Call.before depth started) = (pre_pop c depth started).0
  step c (Call.after hit jitter_us) = (post_pop frames_of c hit jitter_us).0
  step c (Call.widen frames) = set_deadband c frames
  step c (Call.observe depth) = observe_depth c depth
  step c Call.adjust = (take_adjustment c).0
  step c Call.restart = Playout.reset c

  unfoldable pub run : PlayoutController F → List (Call F) → PlayoutController F
  run c [] = c
  run c (x ∷ xs) = run (step c x) xs

  evaluate-IsTarget :
      (c : PlayoutController F) (j : F) → IsTarget c → IsTarget (evaluate frames_of c j)
  unfolding evaluate
  evaluate-IsTarget c j v =
      elim (Bool-cases (leb c.eval_interval_frames ((c.frames_since_eval + 1) % u32_mod))) [
        | inr wait ↦ rw (wait, evaluate) (record { at_least = v.at_least; at_most = v.at_most })
        | inl due ↦
            let within =
              clamp-within (wrap_i32 (c.min_frames +ℤ frames_of c.k j c.frame_us)) c.min_frames
                c.max_frames (omega (arith, v.at_least, v.at_most)) in
            rw (due, evaluate) (record { at_least = within.0; at_most = within.1 })
      ]

  bounds : PlayoutController F → ℤ × ℤ × ℤ
  bounds c = (c.min_frames, c.target, c.max_frames)

  IsTarget-bounds : (c d : PlayoutController F) → IsTarget c → bounds d ≡ bounds c → IsTarget d
  unfolding bounds
  IsTarget-bounds c d v e =
      let min_e = ap (λ b. b.0) e in
      let target_e = ap (λ b. b.1) e in
      let max_e = ap (λ b. b.2) e in
      record {
        at_least = rw (min_e, target_e) v.at_least;
        at_most = rw (max_e, target_e) v.at_most;
      }

  bounds-pre_pop :
      (c : PlayoutController F) (d : ℤ) (started : Bool) → bounds (pre_pop c d started).0 ≡ bounds c
  unfolding pre_pop bounds
  bounds-pre_pop c d started = elim (Bool-cases c.primed) [
    | inl plays ↦ simp (pre_pop, plays)
    | inr fresh ↦ elim (Bool-cases (started && leb_ℤ c.target d)) [
      | inl deep ↦ simp (pre_pop, fresh, deep)
      | inr shallow ↦ simp (pre_pop, fresh, shallow)
    ]
  ]

  bounds-observe_depth : (c : PlayoutController F) (d : ℤ) → bounds (observe_depth c d) ≡ bounds c
  unfolding observe_depth bounds
  bounds-observe_depth c d = elim (Bool-cases (not (is_keep c.pending) || not c.primed)) [
    | inl idle ↦ simp (observe_depth, idle)
    | inr ready ↦ elim (Bool-cases (ltb_ℤ (wrap_i32 (c.target +ℤ c.deadband)) d)) [
      | inl deep ↦ simp (observe_depth, ready, deep)
      | inr fits ↦ elim (Bool-cases (ltb_ℤ d (wrap_i32 (c.target -ℤ c.deadband)))) [
        | inl shallow ↦ simp (observe_depth, ready, fits, shallow)
        | inr near ↦ simp (observe_depth, ready, fits, near)
      ]
    ]
  ]

  post_pop-IsTarget :
      (c : PlayoutController F) (hit : Bool) (j : F)
      → IsTarget c
      → IsTarget (post_pop frames_of c hit j).0
  unfolding post_pop
  post_pop-IsTarget c true j v =
      evaluate-IsTarget (record c { consecutive_misses = 0 }) j
        (record { at_least = v.at_least; at_most = v.at_most })
  post_pop-IsTarget c false j v =
      elim (Bool-cases (leb c.reset_after_misses ((c.consecutive_misses + 1) % u32_mod))) [
        | inl over ↦ rw (over, post_pop) (record { at_least = v.at_least; at_most = v.at_most })
        | inr few ↦
            rw (few, post_pop)
              (evaluate-IsTarget
                (record c { consecutive_misses = (c.consecutive_misses + 1) % u32_mod }) j
                (record { at_least = v.at_least; at_most = v.at_most }))
      ]

  step-IsTarget : (c : PlayoutController F) (x : Call F) → IsTarget c → IsTarget (step c x)
  unfolding step set_fixed set_deadband take_adjustment Playout.reset
  step-IsTarget c (Call.fix frames) v = record { at_least = omega arith; at_most = omega arith }
  step-IsTarget c (Call.before d started) v =
      IsTarget-bounds c (pre_pop c d started).0 v (bounds-pre_pop c d started)
  step-IsTarget c (Call.after hit j) v = post_pop-IsTarget c hit j v
  step-IsTarget c (Call.widen frames) v = record { at_least = v.at_least; at_most = v.at_most }
  step-IsTarget c (Call.observe d) v =
      IsTarget-bounds c (observe_depth c d) v (bounds-observe_depth c d)
  step-IsTarget c Call.adjust v = record { at_least = v.at_least; at_most = v.at_most }
  step-IsTarget c Call.restart v = record { at_least = v.at_least; at_most = v.at_most }

  run-IsTarget : (c : PlayoutController F) (xs : List (Call F)) → IsTarget c → IsTarget (run c xs)
  unfolding run
  run-IsTarget c [] v = v
  run-IsTarget c (x ∷ xs) v = run-IsTarget (step c x) xs (step-IsTarget c x v)

  -- After any calls on a new controller, the target depth is within the controller's bounds,
  -- whatever the float computations give.
  pub run-new-IsTarget :
      (frame_us k : F) (eval_interval reset_after : ℕ) (xs : List (Call F))
      → IsTarget (run (Playout.new frame_us k eval_interval reset_after) xs)
  unfolding Playout.new
  run-new-IsTarget frame_us k eval_interval reset_after xs =
      run-IsTarget (Playout.new frame_us k eval_interval reset_after) xs
        (record { at_least = omega arith; at_most = omega arith })
