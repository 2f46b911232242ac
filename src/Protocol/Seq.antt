-- ===== src/Protocol/Seq.antt =====
-- crates/jam-protocol/src/seq.rs: sequence numbers on the ring of 2 ^ 16.
pub mod Order
mod Tests
use online_jam.Prelude.{ℕ, ◌+◌, ◌-◌, ◌%◌, ◌^◌, ◌≡◌, Bool, ltb, if◌then◌else◌}
use online_jam.Prelude.Int.{ℤ, pos, negsuc, ltb_ℤ}
use online_jam.Protocol.{u16_mod}

-- `a.wrapping_sub(b)` and `a.wrapping_add(b)` on u16.
abbrev pub wrapping_sub : ℕ → ℕ → ℕ
wrapping_sub a b = (a + u16_mod - b) % u16_mod

abbrev pub wrapping_add : ℕ → ℕ → ℕ
wrapping_add a b = (a + b) % u16_mod

-- `w as i16`, of a u16.
abbrev pub as_i16 : ℕ → ℤ
as_i16 w = if ltb w (2 ^ 15) then pos w else negsuc (u16_mod - w - 1)

unfoldable pub newer_than : ℕ → ℕ → Bool
newer_than a b = ltb_ℤ (pos 0) (as_i16 (wrapping_sub a b))

unfoldable pub diff : ℕ → ℕ → ℤ
diff a b = as_i16 (wrapping_sub a b)

-- `SeqGen(u16)`.
pub record SeqGen : Type 0 where
  pub value : ℕ

unfoldable pub new : SeqGen
new = record { value = 0 }

unfoldable pub next : SeqGen → ℕ × SeqGen
next g = (g.value, record { value = wrapping_add g.value 1 })

unfoldable pub peek : SeqGen → ℕ
peek g = g.value
