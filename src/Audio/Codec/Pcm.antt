-- ===== src/Audio/Codec/Pcm.antt =====
-- The loops over samples of crates/jam-audio/src/codec.rs: `to_le_bytes` and `from_le_bytes`.
use online_jam.Prelude.{
  ℕ, zero, suc, ◌+◌, ◌*◌, ◌/◌, ◌%◌, ◌^◌, ◌<◌, ◌≡◌, refl, ap, List, [], ◌∷◌, ◌++◌, arith, Bytes,
  length, take, drop, length-append, take-append, drop-append,
}
use native.Mathlib.Nat.{pow-suc}

unfoldable pub to_le : ℕ → ℕ → Bytes
to_le zero v = []
to_le (suc k) v = v % 256 ∷ to_le k (v / 256)

unfoldable pub from_le : Bytes → ℕ
from_le [] = 0
from_le (b ∷ bs) = b + 256 * from_le bs

-- `for (chunk, &x) in out.chunks_exact_mut(size).zip(pcm)`.
unfoldable pub pack : {S : Type 0} → (size : ℕ) → (S → ℕ) → List S → Bytes
unfolding to_le
pack size value [] = []
pack size value (x ∷ xs) = to_le size (value x) ++ pack size value xs

-- `for (x, chunk) in pcm.iter_mut().zip(payload.chunks_exact(size))`, for so many samples.
unfoldable pub unpack : {S : Type 0} → (size : ℕ) → (ℕ → S) → (count : ℕ) → Bytes → List S
unfolding from_le
unpack size value zero bs = []
unpack size value (suc n) bs = value (from_le (take size bs)) ∷ unpack size value n (drop size bs)

length-to_le : (k v : ℕ) → length (to_le k v) ≡ k
unfolding to_le
length-to_le zero v = refl
length-to_le (suc k) v = ap suc (length-to_le k (v / 256))

from_le-to_le : (k v : ℕ) → v < 256 ^ k → from_le (to_le k v) ≡ v
unfolding to_le from_le
from_le-to_le zero v h = omega arith
from_le-to_le (suc k) v h = omega (arith, from_le-to_le k (v / 256) (omega (arith, pow-suc 256 k)))

module _ {S : Type 0} (size : ℕ) (value : S → ℕ) where
  pub length-pack : (xs : List S) → length (pack size value xs) ≡ length xs * size
  unfolding pack
  length-pack [] = omega arith
  length-pack (x ∷ xs) = omega (
    arith,
    length-pack xs,
    length-to_le size (value x),
    length-append (to_le size (value x)) (pack size value xs),
  )

module _ {S : Type 0} (size : ℕ) (value : ℕ → S) where
  pub length-unpack : (n : ℕ) (bs : Bytes) → length (unpack size value n bs) ≡ n
  unfolding unpack
  length-unpack zero bs = refl
  length-unpack (suc n) bs = ap suc (length-unpack n (drop size bs))

-- The samples come back, if each fits its octets and its bits give it back.
module _ {S : Type 0} (size : ℕ) (to : S → ℕ) (of : ℕ → S) (fits : (x : S) → to x < 256 ^ size)
    (back : (x : S) → of (to x) ≡ x) where
  pub unpack-pack : (xs : List S) → unpack size of (length xs) (pack size to xs) ≡ xs
  unfolding pack unpack
  unpack-pack [] = refl
  unpack-pack (x ∷ xs) =
      let e = length-to_le size (to x) in
      rw
        (
          take-append (to_le size (to x)) (pack size to xs) {n = size} (omega arith),
          drop-append (to_le size (to x)) (pack size to xs) {n = size} (omega arith),
          from_le-to_le size (to x) (fits x),
          back x,
          unpack-pack xs,
        )
        refl
