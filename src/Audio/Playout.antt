-- ===== src/Audio/Playout.antt =====
-- `PlayoutController` of crates/jam-audio/src/jitter.rs. `F` is f32. The three float computations of
-- the code are arguments: what `new` makes of the frame's length, and in `post_pop`
-- `(k * jitter_us / frame_us).ceil() as i32`. A method returns the new controller.
pub mod Bounds
pub mod Outage
mod Tests
use online_jam.Prelude.{
  ℕ, ◌+◌, ◌-◌, ◌%◌, ◌^◌, Bool, true, false, not, ◌&&◌, ◌||◌, ltb, leb, if◌then◌else◌,
}
use online_jam.Prelude.Int.{ℤ, pos, negsuc, ◌+ℤ◌, ◌-ℤ◌, ltb_ℤ, leb_ℤ}
use online_jam.Protocol.{u32_mod}

-- The i32 with these 32 bits, and `+` and `-` on i32, which wrap.
abbrev pub as_i32 : ℕ → ℤ
as_i32 w = if ltb w (2 ^ 31) then pos w else negsuc (u32_mod - w - 1)

abbrev pub wrap_i32 : ℤ → ℤ
wrap_i32 (pos n) = as_i32 (n % u32_mod)
wrap_i32 (negsuc n) = as_i32 (u32_mod - 1 - n % u32_mod)

pub data Adjust : Type 0 where
  keep drop_one insert_one : Adjust

pub record PlayoutController (F : Type 0) : Type 0 where
  pub frame_us : F
  pub min_frames : ℤ
  pub max_frames : ℤ
  pub k : F
  pub target : ℤ
  pub eval_interval_frames : ℕ
  pub frames_since_eval : ℕ
  pub primed : Bool
  pub consecutive_misses : ℕ
  pub reset_after_misses : ℕ
  pub pending : Adjust
  pub deadband : ℤ

-- `x.clamp(lo, hi)`, where `lo` is at most `hi`.
abbrev pub clamp : ℤ → ℤ → ℤ → ℤ
clamp x lo hi = if ltb_ℤ x lo then lo else if ltb_ℤ hi x then hi else x

abbrev pub is_keep : Adjust → Bool
is_keep Adjust.keep = true
is_keep _ = false

module _ {F : Type 0} where
  unfoldable pub new : (frame_us k : F) (eval_interval reset_after : ℕ) → PlayoutController F
  new frame_us k eval_interval reset_after = record {
    frame_us = frame_us;
    min_frames = pos 2;
    max_frames = pos 20;
    k = k;
    target = pos 2;
    eval_interval_frames = eval_interval;
    frames_since_eval = 0;
    primed = false;
    consecutive_misses = 0;
    reset_after_misses = reset_after;
    pending = Adjust.keep;
    deadband = pos 1;
  }

  unfoldable pub is_primed : PlayoutController F → Bool
  is_primed c = c.primed

  unfoldable pub set_fixed : PlayoutController F → ℤ → PlayoutController F
  set_fixed c frames = record c { min_frames = frames; max_frames = frames; target = frames }

  unfoldable pub pre_pop : PlayoutController F → ℤ → Bool → PlayoutController F × Bool
  pre_pop c depth started =
      if not c.primed
      then if started && leb_ℤ c.target depth
        then (record c { primed = true; consecutive_misses = 0 }, true)
        else (c, c.primed)
      else (c, true)

  -- The end of `post_pop`: the target is worked out again at intervals.
  unfoldable pub evaluate : (F → F → F → ℤ) → PlayoutController F → F → PlayoutController F
  evaluate frames_of c jitter_us =
      let since = (c.frames_since_eval + 1) % u32_mod in
      if leb c.eval_interval_frames since
      then record c {
        frames_since_eval = 0;
        target =
            clamp (wrap_i32 (c.min_frames +ℤ frames_of c.k jitter_us c.frame_us)) c.min_frames
              c.max_frames;
      }
      else record c { frames_since_eval = since }

  unfoldable pub post_pop :
      (F → F → F → ℤ) → PlayoutController F → Bool → F → PlayoutController F × Bool
  unfolding evaluate
  post_pop frames_of c hit jitter_us =
      let misses = (c.consecutive_misses + 1) % u32_mod in
      if hit
      then (evaluate frames_of (record c { consecutive_misses = 0 }) jitter_us, false)
      else if leb c.reset_after_misses misses
      then (record c { primed = false; consecutive_misses = 0; pending = Adjust.keep }, true)
      else (evaluate frames_of (record c { consecutive_misses = misses }) jitter_us, false)

  unfoldable pub set_deadband : PlayoutController F → ℤ → PlayoutController F
  set_deadband c frames = record c { deadband = if ltb_ℤ frames (pos 1) then pos 1 else frames }

  unfoldable pub observe_depth : PlayoutController F → ℤ → PlayoutController F
  observe_depth c depth =
      if not (is_keep c.pending) || not c.primed
      then c
      else if ltb_ℤ (wrap_i32 (c.target +ℤ c.deadband)) depth
      then record c { pending = Adjust.drop_one }
      else if ltb_ℤ depth (wrap_i32 (c.target -ℤ c.deadband))
      then record c { pending = Adjust.insert_one }
      else c

  unfoldable pub take_adjustment : PlayoutController F → PlayoutController F × Adjust
  take_adjustment c = (record c { pending = Adjust.keep }, c.pending)

  unfoldable pub reset : PlayoutController F → PlayoutController F
  reset c = record c {
    primed = false;
    consecutive_misses = 0;
    pending = Adjust.keep;
    frames_since_eval = 0;
  }
