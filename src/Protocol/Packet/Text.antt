-- ===== src/Protocol/Packet/Text.antt =====
-- Rust's `str` as its bytes: `std::str::from_utf8` and `str::is_char_boundary`.
pub mod Clip
use online_jam.Prelude.{
  ℕ, zero, suc, ◌-◌, ◌≡◌, Bool, true, false, not, ◌&&◌, ◌||◌, List, [], ◌∷◌, ◌==◌, leb, ltb,
  if◌then◌else◌, Bytes, length, get_elem?, Option, none, some,
}

-- What a UTF-8 sequence still wants: nothing, or a byte in a range and then some continuations.
pub data Need : Type 0 where
  start : Need
  more : (lo hi rest : ℕ) → Need

-- The step of the UTF-8 automaton (the Unicode standard's table of well-formed byte sequences).
abbrev lead : ℕ → Option Need
lead b =
    if ltb b 0x80
    then some start
    else if ltb b 0xc2
    then none
    else if ltb b 0xe0
    then some (more 0x80 0xbf 0)
    else if b == 0xe0
    then some (more 0xa0 0xbf 1)
    else if b == 0xed
    then some (more 0x80 0x9f 1)
    else if ltb b 0xf0
    then some (more 0x80 0xbf 1)
    else if b == 0xf0
    then some (more 0x90 0xbf 2)
    else if ltb b 0xf4
    then some (more 0x80 0xbf 2)
    else if b == 0xf4
    then some (more 0x80 0x8f 2)
    else none

abbrev after : ℕ → Need
after zero = start
after (suc n) = more 0x80 0xbf n

unfoldable pub utf8_step : Need → ℕ → Option Need
utf8_step start b = lead b
utf8_step (more lo hi rest) b = if leb lo b && leb b hi then some (after rest) else none

pub utf8_run : Need → Bytes → Bool
unfolding utf8_step
utf8_run start [] = true
utf8_run (more lo hi rest) [] = false
utf8_run s (b ∷ bs) = elim (utf8_step s b) [ none ↦ false | some s' ↦ utf8_run s' bs ]

-- Whether `std::str::from_utf8` accepts the bytes.
unfoldable pub is_utf8 : Bytes → Bool
unfolding utf8_run
is_utf8 = utf8_run start

-- A continuation byte, 0b10xx_xxxx.
abbrev pub is_continuation : ℕ → Bool
is_continuation b = leb 0x80 b && ltb b 0xc0

-- `s.is_char_boundary(n)`.
unfoldable pub is_char_boundary : Bytes → ℕ → Bool
is_char_boundary s zero = true
is_char_boundary s n = elim (get_elem? s n) [
  | none ↦ n == length s
  | some b ↦ not (is_continuation b)
]

-- `while n > 0 && !s.is_char_boundary(n) { n -= 1; }`.
unfoldable pub floor_boundary : Bytes → ℕ → ℕ
unfolding is_char_boundary
floor_boundary s zero = zero
floor_boundary s (suc n) =
    let rest = floor_boundary s n in if is_char_boundary s (suc n) then suc n else rest
