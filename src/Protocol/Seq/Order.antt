-- ===== src/Protocol/Seq/Order.antt =====
-- What the order of crates/jam-protocol/src/seq.rs means on the ring.
use online_jam.Prelude.{ℕ, zero, suc, ◌+◌, ◌%◌, ◌^◌, ◌<◌, ◌≡◌, ◌≢◌, ◌↔◌, true, false, not, arith}
use online_jam.Prelude.Int.{pos}
use online_jam.Protocol.{u16_mod}
use online_jam.Protocol.Seq.{newer_than, diff, SeqGen, next, wrapping_add}

-- Steps forward of less than half the ring are newer, and `diff` counts them.
pub newer_than-wrapping_add :
    (b k : ℕ)
    → b < u16_mod
    → k < 2 ^ 15
    → (diff (wrapping_add b k) b ≡ pos k)
      × (newer_than b (wrapping_add b k) ≡ false)
      × ((newer_than (wrapping_add b k) b ≡ true) ↔ (0 < k))
unfolding newer_than diff
newer_than-wrapping_add b k hb hk = (ground arith, ground arith, ground arith)

-- Of two numbers that differ, and are not half the ring apart, exactly one is newer.
newer_than_total :
    (a b : ℕ)
    → a < u16_mod
    → b < u16_mod
    → a ≢ b
    → (a + 2 ^ 15) % u16_mod ≢ b
    → newer_than a b ≡ not (newer_than b a)
unfolding newer_than
newer_than_total a b ha hb ne far = ground arith

-- `n` calls of `next` in a row.
abbrev advance : ℕ → SeqGen → SeqGen
advance zero g = g
advance (suc n) g = advance n (next g).1

abbrev pub IsU16 : SeqGen → Type 0
IsU16 g = g.value < u16_mod

value-advance : (n : ℕ) (g : SeqGen) → IsU16 g → (advance n g).value ≡ wrapping_add g.value n
unfolding next
value-advance zero g h = omega arith
value-advance (suc n) g h =
    omega (arith, value-advance n (record { value = wrapping_add g.value 1 }) (omega arith))

-- Each number that a generator hands out within half a ring is newer than the earlier one.
newer_than-next :
    (n : ℕ) (g : SeqGen)
    → IsU16 g
    → 0 < n
    → n < 2 ^ 15
    → newer_than (next (advance n g)).0 (next g).0 ≡ true
unfolding next newer_than
newer_than-next n g h pos_n lt = ground (arith, value-advance n g h)
