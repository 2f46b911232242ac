-- ===== src/Protocol/Packet/Accept.antt =====
-- `accept_control_seq` of crates/jam-protocol/src/packet.rs over a sequence of packets.
use online_jam.Prelude.{
  ℕ, ◌+◌, ◌-◌, ◌%◌, ◌^◌, ◌≤◌, ◌<◌, ◌≡◌, refl, All, inl, inr, true, false, List, [], ◌∷◌, Option,
  none, some, arith, if◌then◌else◌, Bool-cases,
}
use online_jam.Protocol.{u16_mod}
use online_jam.Protocol.Packet.Types.{accept_control_seq}
use online_jam.Protocol.Seq.{newer_than, wrapping_add}
use online_jam.Protocol.Seq.Order.{newer_than-wrapping_add}

-- The packets accepted, in order, when they arrive with these sequence numbers.
pub accepted : Option ℕ → List ℕ → List ℕ
accepted last [] = []
accepted last (s ∷ ss) =
    let (last', ok) = accept_control_seq last s in
    let rest = accepted last' ss in if ok then s ∷ rest else rest

-- Less than half a ring ahead, across the wrap.
abbrev pub IsAhead : (prev s : ℕ) → Type 0
IsAhead prev s = (d : ℕ) × (0 < d) × (d < 2 ^ 15) × (s ≡ wrapping_add prev d)

-- The number itself, or one up to half a ring behind it.
abbrev pub IsBehind : (prev s : ℕ) → Type 0
IsBehind prev s = (d : ℕ) × (d ≤ 2 ^ 15) × (prev ≡ wrapping_add s d)

-- What is to be accepted of the packets that arrive, after one numbered `last`: the first packet of
-- all, and then each that is ahead of the last one accepted.
pub data IsNewest : Option ℕ → (arrived taken : List ℕ) → Type 0 where
  ends : (last : Option ℕ) → IsNewest last [] []
  first : (s : ℕ) (ss ts : List ℕ) → IsNewest (some s) ss ts → IsNewest none (s ∷ ss) (s ∷ ts)
  ahead :
      (prev s : ℕ) (ss ts : List ℕ)
      → IsAhead prev s
      → IsNewest (some s) ss ts
      → IsNewest (some prev) (s ∷ ss) (s ∷ ts)
  behind :
      (prev s : ℕ) (ss ts : List ℕ)
      → IsBehind prev s
      → IsNewest (some prev) ss ts
      → IsNewest (some prev) (s ∷ ss) ts

newer_than-IsAhead :
    (prev s : ℕ) → prev < u16_mod → s < u16_mod → newer_than s prev ≡ true → IsAhead prev s
unfolding newer_than
newer_than-IsAhead prev s hp hs h =
    ((s + u16_mod - prev) % u16_mod, ground arith, ground arith, omega arith)

newer_than-IsBehind :
    (prev s : ℕ) → prev < u16_mod → s < u16_mod → newer_than s prev ≡ false → IsBehind prev s
unfolding newer_than
newer_than-IsBehind prev s hp hs h = ((prev + u16_mod - s) % u16_mod, ground arith, omega arith)

abbrev pub IsU16 : ℕ → Type 0
IsU16 s = s < u16_mod

-- Whatever the network repeats or reorders, the packets accepted are these and no others: the first
-- one that arrives, if none was accepted before, and each that is 1 to 2 ^ 15 - 1 ahead, modulo
-- 2 ^ 16, of the last one accepted. A repeat, and a packet up to half a ring behind, is refused. The
-- sequence numbers are below 2 ^ 16.
pub accepted-IsNewest :
    (last : Option ℕ) (ss : List ℕ)
    → ((prev : ℕ) → last ≡ some prev → IsU16 prev)
    → All IsU16 ss
    → IsNewest last ss (accepted last ss)
unfolding accepted accept_control_seq
accepted-IsNewest last [] before small = IsNewest.ends last
accepted-IsNewest none (s ∷ ss) before (h, hs) =
    IsNewest.first s ss (accepted (some s) ss)
      (accepted-IsNewest (some s) ss (λ p e. ground (arith, h)) hs)
accepted-IsNewest (some prev) (s ∷ ss) before (h, hs) = elim (Bool-cases (newer_than s prev)) [
  | inl newer ↦
      rw (newer, accepted, accept_control_seq)
        (IsNewest.ahead prev s ss (accepted (some s) ss)
          (newer_than-IsAhead prev s (before prev refl) h newer)
          (accepted-IsNewest (some s) ss (λ p e. ground (arith, h)) hs))
  | inr old ↦
      rw (old, accepted, accept_control_seq)
        (IsNewest.behind prev s ss (accepted (some prev) ss)
          (newer_than-IsBehind prev s (before prev refl) h old)
          (accepted-IsNewest (some prev) ss before hs))
]

-- After a packet is accepted, packets up to half a ring behind it, itself included, are refused and
-- change nothing.
accept_control_seq_stale :
    (last : Option ℕ) (s back : ℕ)
    → s < u16_mod
    → back < 2 ^ 15
    → (accept_control_seq last (wrapping_add s back)).1 ≡ true
    → accept_control_seq (accept_control_seq last (wrapping_add s back)).0 s
      ≡ (some (wrapping_add s back), false)
unfolding accept_control_seq
accept_control_seq_stale none s back hs hb h =
    ground (arith, (newer_than-wrapping_add s back hs hb).1)
accept_control_seq_stale (some prev) s back hs hb h =
    ground (arith, (newer_than-wrapping_add s back hs hb).1)
