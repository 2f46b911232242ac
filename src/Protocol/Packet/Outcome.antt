-- ===== src/Protocol/Packet/Outcome.antt =====
-- `Result<_, ParseError>` of crates/jam-protocol/src/packet.rs, with a third case for a Rust panic:
-- an index out of range, or a subtraction below zero.
use online_jam.Prelude.{ℕ, Bool, true, false}

pub data ParseError : Type 0 where
  truncated bad_magic bad_string bad_length trailing_bytes out_of_range : ParseError
  bad_version bad_type bad_codec bad_deny_reason : ℕ → ParseError

pub data Outcome {ℓ} (A : Type ℓ) : Type ℓ where
  ok : A → Outcome A
  err : ParseError → Outcome A
  panic : Outcome A

infixl 5 ◌>>=◌
abbrev pub ◌>>=◌ {ℓ κ} : {A : Type ℓ} {B : Type κ} → Outcome A → (A → Outcome B) → Outcome B
ok a >>= f = f a
err e >>= f = err e
panic >>= f = panic

infixl 5 ◌>>◌
abbrev pub ◌>>◌ {ℓ} : {B : Type ℓ} → Outcome (Unit {0}) → Outcome B → Outcome B
m >> k = m >>= λ _. k

-- `if !test { return Err(e); }`
abbrev pub ensure : Bool → ParseError → Outcome (Unit {0})
ensure true e = ok tt
ensure false e = err e
