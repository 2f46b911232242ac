-- ===== src/Network/Arrival.antt =====
-- `ArrivalJitter` of crates/jam-audio/src/jitter.rs. `F` is f32; `blend j d` is
-- `j + (d as f32 - j) / 16.0`, and `zero_f` is 0.0.
use online_jam.Prelude.{ℕ, ◌+◌, Option, none, some}
use online_jam.Prelude.Int.{ℤ, sub_ℕ, ◌-ℤ◌, pos_part, neg_part}

pub record ArrivalJitter (F : Type 0) : Type 0 where
  pub prev : Option (ℕ × ℕ)
  pub j_us : F

-- `i64::abs`.
abbrev pub abs : ℤ → ℕ
abs d = pos_part d + neg_part d

module _ {F : Type 0} where
  -- `ArrivalJitter::default`.
  unfoldable pub new : F → ArrivalJitter F
  new zero_f = record { prev = none; j_us = zero_f }

  -- On i64, which the clocks do not fill, the differences are exact.
  unfoldable pub on_arrival : (F → ℕ → F) → ArrivalJitter F → ℕ → ℕ → ArrivalJitter F
  on_arrival blend j arrival_us media_us = record {
    prev = some (arrival_us, media_us);
    j_us = elim j.prev [
      | none ↦ j.j_us
      | some (pa, pm) ↦ blend j.j_us (abs (sub_ℕ arrival_us media_us -ℤ sub_ℕ pa pm))
    ];
  }
