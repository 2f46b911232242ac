-- ===== src/Protocol/Packet/Endian.antt =====
-- `to_be_bytes` and `from_be_bytes` of the unsigned integers of k bytes.
use online_jam.Prelude.{
  ℕ, zero, suc, ◌+◌, ◌*◌, ◌/◌, ◌%◌, ◌^◌, ◌<◌, ◌≡◌, refl, ◌∙◌, [], ◌∷◌, ◌++◌, arith, Bytes, length,
  length-append, All, All-append,
}
use native.Mathlib.Nat.{pow-suc}

unfoldable pub to_be : ℕ → ℕ → Bytes
to_be zero v = []
to_be (suc k) v = to_be k (v / 256) ++ (v % 256) ∷ []

unfoldable pub from_be_acc : ℕ → Bytes → ℕ
from_be_acc acc [] = acc
from_be_acc acc (b ∷ bs) = from_be_acc (acc * 256 + b) bs

unfoldable pub from_be : Bytes → ℕ
unfolding from_be_acc
from_be = from_be_acc 0

abbrev pub IsByte : ℕ → Type 0
IsByte b = b < 256

from_be_acc-append :
    (acc : ℕ) (bs cs : Bytes) → from_be_acc acc (bs ++ cs) ≡ from_be_acc (from_be_acc acc bs) cs
unfolding from_be_acc
from_be_acc-append acc [] cs = refl
from_be_acc-append acc (b ∷ bs) cs = from_be_acc-append (acc * 256 + b) bs cs

-- Reading back a number that fits.
pub from_be-to_be : (k v : ℕ) → v < 256 ^ k → from_be (to_be k v) ≡ v
unfolding from_be to_be
from_be-to_be zero v h = omega arith
from_be-to_be (suc k) v h =
    from_be_acc-append 0 (to_be k (v / 256)) (v % 256 ∷ [])
    ∙ omega (arith, from_be-to_be k (v / 256) (omega (arith, pow-suc 256 k)))

pub length-to_be : (k v : ℕ) → length (to_be k v) ≡ k
unfolding to_be
length-to_be zero v = refl
length-to_be (suc k) v =
    omega (arith, length-append (to_be k (v / 256)) (v % 256 ∷ []), length-to_be k (v / 256))

pub to_be-IsByte : (k v : ℕ) → All IsByte (to_be k v)
unfolding to_be
to_be-IsByte zero v = tt
to_be-IsByte (suc k) v =
    All-append IsByte (to_be k (v / 256)) (v % 256 ∷ []) (to_be-IsByte k (v / 256))
      (omega arith, tt)
