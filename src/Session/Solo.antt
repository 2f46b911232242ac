-- ===== src/Session/Solo.antt =====
-- Solo never silences a room in which somebody can be heard.
use online_jam.Prelude.{
  ℕ, suc, ◌+◌, ◌≡◌, refl, ap, ◌∙◌, inl, inr, Bool, true, false, List, [], ◌∷◌, arith, Bool-cases,
}
use online_jam.Session.{HostShared, flag, is_present, solo_counts, any_from, any_solo, in_mix}

-- A player who is there and is not muted.
abbrev pub IsAudible : HostShared → ℕ → Type 0
IsAudible h p = (is_present h p ≡ true) × (flag h.muted p ≡ false)

solo_counts-IsAudible : (h : HostShared) (p : ℕ) → solo_counts h p ≡ true → IsAudible h p
unfolding solo_counts
solo_counts-IsAudible h p e = elim (Bool-cases (flag h.muted p)) [
  | inl quiet ↦ absurd (ground arith)
  | inr heard ↦ (ground arith, heard)
]

any_from-some :
    (h : HostShared) (p : ℕ) (ss : List Bool)
    → any_from h p ss ≡ true
    → (k : ℕ) × (flag ss k ≡ true) × (solo_counts h (p + k) ≡ true)
unfolding any_from
any_from-some h p [] e = absurd (ground arith)
any_from-some h p (true ∷ ss) e = elim (Bool-cases (solo_counts h p)) [
  | inl counts ↦ (0, refl, ap (solo_counts h) (omega arith) ∙ counts)
  | inr not_here ↦
      let (k, on, counts) = any_from-some h (suc p) ss (ground arith) in
      (suc k, on, ap (solo_counts h) (omega arith) ∙ counts)
]
any_from-some h p (false ∷ ss) e =
    let (k, on, counts) = any_from-some h (suc p) ss e in
    (suc k, on, ap (solo_counts h) (omega arith) ∙ counts)

-- When some player is there and not muted, then some player who is there and not muted is in the
-- mix, whatever the solo flags are, those of muted players and of empty slots included.
pub in_mix-IsAudible :
    (h : HostShared) (p : ℕ)
    → IsAudible h p
    → (q : ℕ) × (in_mix h q (any_solo h) ≡ true) × IsAudible h q
unfolding any_solo in_mix
in_mix-IsAudible h p audible = elim (Bool-cases (any_solo h)) [
  | inr none_solo ↦ (p, rw (none_solo, in_mix, audible.1) refl, audible)
  | inl solo ↦
      let (q, on, counts) = any_from-some h 0 h.soloed solo in
      let audible_q = solo_counts-IsAudible h q (ap (solo_counts h) (omega arith) ∙ counts) in
      (q, rw (in_mix, audible_q.1, solo, on) refl, audible_q)
]
