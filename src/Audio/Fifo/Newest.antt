-- ===== src/Audio/Fifo/Newest.antt =====
-- A push keeps the newest samples.
use online_jam.Prelude.{
  ℕ, zero, suc, ◌+◌, ◌-◌, ◌%◌, ◌≤◌, ◌<◌, ◌≡◌, refl, sym, ap, ◌∙◌, inl, inr, List, [], ◌∷◌, ◌++◌,
  some, arith, ltb, leb, leb→le, Bool-cases, length, get_elem?, drop, length-drop, true,
}
use native.Mathlib.Nat.{mod-eq_of_lt}
use online_jam.Audio.Fifo.{SampleFifo, push, trimmed}
use online_jam.Audio.Fifo.Queue.{IsQueue, rest-IsQueue}
use online_jam.Audio.Fifo.Append.{append-IsQueue, appended}

module _ {A : Type 0} where
  drop-append_more : (xs ys : List A) (m : ℕ) → drop (length xs + m) (xs ++ ys) ≡ drop m ys
  drop-append_more [] ys m = ap (λ n. drop n ys) {x = 0 + m} {y = m} (omega arith)
  drop-append_more (x ∷ xs) ys m =
      ap (λ n. drop n (x ∷ (xs ++ ys))) {x = suc (length xs) + m} {y = suc (length xs + m)}
        (omega arith)
      ∙ drop-append_more xs ys m

  drop-append_fewer : (xs ys : List A) (m : ℕ) → m ≤ length xs → drop m (xs ++ ys) ≡ drop m xs ++ ys
  drop-append_fewer xs ys zero h = refl
  drop-append_fewer [] ys (suc m) h = absurd (omega arith)
  drop-append_fewer (x ∷ xs) ys (suc m) h = drop-append_fewer xs ys m (omega arith)

  trimmed-IsQueue :
      (f : SampleFifo A) (xs : List A) (n : ℕ)
      → IsQueue f xs
      → n ≤ length xs
      → IsQueue (trimmed f n) (drop n xs)
  trimmed-IsQueue f xs zero q h = q
  trimmed-IsQueue f xs (suc n) q h =
      let some_gone : ltb 0 (suc n) ≡ true = ground arith in
      rw some_gone (rest-IsQueue f xs (suc n) q h)

  length-trimmed : (f : SampleFifo A) (n : ℕ) → length (trimmed f n).buf ≡ length f.buf
  length-trimmed f n = elim (Bool-cases (ltb 0 n)) [ inl e ↦ rw e refl | inr e ↦ rw e refl ]

  filled-IsQueue :
      (ys : List A) (n : ℕ)
      → n ≡ length ys
      → 0 < n
      → IsQueue (record { buf = ys; head = 0; len = n }) ys
  filled-IsQueue ys n e h = record {
    size = e;
    fits = omega arith;
    starts = omega arith;
    items = λ k lt.
        ap (get_elem? ys)
          (ap (λ m. m % length ys) {x = 0 + k} {y = k} (omega arith) ∙ mod-eq_of_lt lt);
  }

  -- A push never panics. The ring then holds the newest samples, as many as it has room for, of
  -- those that it had and those that are pushed, in order; the number of the others, the oldest,
  -- is returned.
  pub push-IsQueue :
      (f : SampleFifo A) (xs ys : List A)
      → IsQueue f xs
      → (g : SampleFifo A) × (push f ys ≡ some (g, length xs + length ys - length f.buf))
        × IsQueue g (drop (length xs + length ys - length f.buf) (xs ++ ys))
        × (length g.buf ≡ length f.buf)
  unfolding push
  push-IsQueue f xs ys q =
      let o = length xs + length ys - length f.buf in
      let oe : f.len + length ys - length f.buf ≡ o = omega (arith, q.size) in
      elim (Bool-cases (leb (length f.buf) (length ys))) [
        | inl over ↦
            let le : length f.buf ≤ length ys = leb→le (length f.buf) (length ys) over in
            let m = length ys - length f.buf in
            let size = length-drop m ys in
            let cap : length (drop m ys) ≡ length f.buf = omega arith in
            let kept : drop o (xs ++ ys) ≡ drop m ys =
              ap (λ n. drop n (xs ++ ys)) {x = o} {y = length xs + m} (omega arith)
              ∙ drop-append_more xs ys m in
            (
              record { buf = drop m ys; head = 0; len = length f.buf },
              rw (push, over, oe) refl,
              rw kept
                  (filled-IsQueue (drop m ys) (length f.buf) (sym cap) (omega (arith, q.starts))),
              cap,
            )
        | inr below ↦
            let lt : length ys < length f.buf = ground arith in
            let h : o ≤ length xs = omega (arith, q.fits) in
            let t = trimmed-IsQueue f xs o q h in
            let cap = length-trimmed f o in
            let (e, q', len) =
              append-IsQueue (trimmed f o) (drop o xs) ys t (omega (arith, length-drop o xs)) in
            (
              appended (trimmed f o) ys,
              rw (push, below, oe, e) refl,
              rw (drop-append_fewer xs ys o h) q',
              len ∙ cap,
            )
      ]
