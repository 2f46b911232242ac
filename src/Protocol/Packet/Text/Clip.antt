-- ===== src/Protocol/Packet/Text/Clip.antt =====
-- Cutting UTF-8 at a character boundary leaves UTF-8.
use online_jam.Prelude.{
  ℕ, zero, suc, ◌≤◌, ◌<◌, ◌≡◌, refl, ◌∙◌, ◌⊎◌, inl, inr, Bool, true, not, [], ◌∷◌, Bytes, length,
  get_elem?, take, drop, none, some, arith, Bool-cases, Option-cases,
}
use online_jam.Protocol.Packet.Text.{
  Need, start, more, utf8_step, utf8_run, is_utf8, is_continuation, is_char_boundary,
  floor_boundary,
}

pub floor_boundary-le : (s : Bytes) (n : ℕ) → floor_boundary s n ≤ n
unfolding floor_boundary
floor_boundary-le s zero = omega arith
floor_boundary-le s (suc n) = ground (arith, floor_boundary-le s n)

floor_boundary-is_char_boundary :
    (s : Bytes) (n : ℕ) → is_char_boundary s (floor_boundary s n) ≡ true
unfolding floor_boundary is_char_boundary
floor_boundary-is_char_boundary s zero = refl
floor_boundary-is_char_boundary s (suc n) = elim (Bool-cases (is_char_boundary s (suc n))) [
  | inl at ↦ rw (at, floor_boundary) at
  | inr inside ↦ rw (inside, floor_boundary) (floor_boundary-is_char_boundary s n)
]

-- The whole text is kept where it is short enough.
pub floor_boundary-length : (s : Bytes) → floor_boundary s (length s) ≡ length s
unfolding floor_boundary is_char_boundary
floor_boundary-length [] = refl
floor_boundary-length (b ∷ s) = rw (at_end, floor_boundary)
  where
    past : (xs : Bytes) → get_elem? xs (length xs) ≡ none
    past [] = refl
    past (x ∷ xs) = past xs

    at_end : is_char_boundary (b ∷ s) (suc (length s)) ≡ true
    at_end = ground (arith, past s)

abbrev starts_char : Bytes → Bool
starts_char [] = true
starts_char (b ∷ bs) = not (is_continuation b)

starts_char-drop :
    (s : Bytes) (n : ℕ)
    → starts_char (drop n s)
      ≡ elim (get_elem? s n) [ none ↦ true | some b ↦ not (is_continuation b) ]
starts_char-drop [] zero = refl
starts_char-drop [] (suc n) = refl
starts_char-drop (b ∷ s) zero = refl
starts_char-drop (b ∷ s) (suc n) = starts_char-drop s n

boundary_starts :
    (s : Bytes) (n : ℕ) → is_char_boundary s n ≡ true → (n ≡ 0) ⊎ (starts_char (drop n s) ≡ true)
unfolding is_char_boundary
boundary_starts s zero h = inl refl
boundary_starts s (suc n) h = inr (ground (arith, starts_char-drop s (suc n)))

-- Each byte that a sequence still wants is a continuation byte.
abbrev InRange : Need → Type 0
InRange start = Unit {0}
InRange (more lo hi rest) = (0x80 ≤ lo) × (hi < 0xc0)

utf8_step-InRange : (s s' : Need) (b : ℕ) → utf8_step s b ≡ some s' → InRange s'
unfolding utf8_step
utf8_step-InRange start s' b h = ground arith
utf8_step-InRange (more lo hi zero) s' b h = ground arith
utf8_step-InRange (more lo hi (suc rest)) s' b h = ground arith

utf8_step-more :
    (lo hi rest b : ℕ) (s' : Need)
    → utf8_step (more lo hi rest) b ≡ some s'
    → InRange (more lo hi rest)
    → is_continuation b ≡ true
unfolding utf8_step
utf8_step-more lo hi rest b s' h range = ground arith

utf8_run-cons :
    (s : Need) (b : ℕ) (bs : Bytes)
    → utf8_run s (b ∷ bs) ≡ true
    → (s' : Need) × (utf8_step s b ≡ some s') × (utf8_run s' bs ≡ true)
unfolding utf8_run
utf8_run-cons s b bs h = elim (Option-cases (utf8_step s b)) [
  | inl bad ↦ absurd (ground arith)
  | inr (s', good) ↦ (s', good, rw (good, utf8_run) at h)
]

utf8_run-step :
    (s s' : Need) (b : ℕ) (bs : Bytes)
    → utf8_step s b ≡ some s'
    → utf8_run s (b ∷ bs) ≡ utf8_run s' bs
unfolding utf8_run
utf8_run-step s s' b bs e = rw (e, utf8_run)

utf8_run-take :
    (n : ℕ) (bs : Bytes) (s : Need)
    → InRange s
    → utf8_run s bs ≡ true
    → starts_char (drop n bs) ≡ true
    → utf8_run s (take n bs) ≡ true
utf8_run-take zero bs start range h cut = unfold utf8_run in refl
utf8_run-take zero [] (more lo hi rest) range h cut = unfold utf8_run in absurd (ground arith)
utf8_run-take zero (b ∷ bs) (more lo hi rest) range h cut =
    let (s', e, _) = utf8_run-cons (more lo hi rest) b bs h in
    absurd (ground (arith, utf8_step-more lo hi rest b s' e range))
utf8_run-take (suc n) [] s range h cut = h
utf8_run-take (suc n) (b ∷ bs) s range h cut =
    let (s', e, h') = utf8_run-cons s b bs h in
    utf8_run-step s s' b (take n bs) e ∙ utf8_run-take n bs s' (utf8_step-InRange s s' b e) h' cut

-- A prefix of UTF-8 that ends at a character boundary is UTF-8.
pub is_utf8-take :
    (s : Bytes) (n : ℕ) → is_utf8 s ≡ true → is_char_boundary s n ≡ true → is_utf8 (take n s) ≡ true
unfolding is_utf8
is_utf8-take s n h at = elim (boundary_starts s n at) [
  | inl e ↦ rw e refl
  | inr cut ↦ utf8_run-take n s start tt h cut
]

-- Text cut at the boundary that the writer finds is valid UTF-8 again, wherever the cut is asked
-- for.
pub is_utf8-floor_boundary :
    (s : Bytes) (n : ℕ) → is_utf8 s ≡ true → is_utf8 (take (floor_boundary s n) s) ≡ true
is_utf8-floor_boundary s n h =
    is_utf8-take s (floor_boundary s n) h (floor_boundary-is_char_boundary s n)
