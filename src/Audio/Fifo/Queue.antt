-- ===== src/Audio/Fifo/Queue.antt =====
-- The ring of samples as the queue of its samples, oldest first.
use online_jam.Prelude.{
  ℕ, zero, suc, ◌+◌, ◌-◌, ◌%◌, ◌≤◌, ◌<◌, ◌≡◌, refl, sym, ap, ◌∙◌, inl, inr, List, [], ◌++◌, none,
  some, arith, ltb, leb, Bool-cases, length, get_elem?, get_elem?-append_left,
  get_elem?-append_right, get_elem?-take, get_elem?-drop, List-ext, take, drop, min, length-append,
  length-take, length-drop, true, false, ltb→lt, if◌then◌else◌,
}
use native.Mathlib.Nat.{mod-lt, mod-eq_of_lt, mod-eq-sub-mod, mod-add-mod}
use online_jam.Audio.Fifo.{SampleFifo, pop, slice}

pub wraps : (x c : ℕ) → c ≤ x → x < c + c → x % c ≡ x - c
wraps x c h h' = mod-eq-sub-mod h ∙ mod-eq_of_lt (omega arith)

module _ {A : Type 0} where
  -- The ring's samples are those of the list, oldest first.
  pub record IsQueue (f : SampleFifo A) (xs : List A) : Type 0 where
    pub size : f.len ≡ length xs
    pub fits : length xs ≤ length f.buf
    pub starts : f.head < length f.buf
    pub items :
        (k : ℕ) → k < length xs → get_elem? f.buf ((f.head + k) % length f.buf) ≡ get_elem? xs k

  -- The part of `n` samples that stands before the ring's end.
  abbrev before : SampleFifo A → ℕ → ℕ
  before f n = min (length f.buf - f.head) n

  abbrev read : SampleFifo A → ℕ → List A
  read f n = take (before f n) (drop f.head f.buf) ++ take (n - before f n) f.buf

  length-read :
      (f : SampleFifo A) (xs : List A) (n : ℕ)
      → IsQueue f xs
      → n ≤ length xs
      → length (read f n) ≡ n
  length-read f xs n v h =
      let a = length-append (take (before f n) (drop f.head f.buf)) (take (n - before f n) f.buf) in
      let b = length-take (before f n) (drop f.head f.buf) in
      let c = length-drop f.head f.buf in
      let d = length-take (n - before f n) f.buf in omega (arith, v.fits, v.starts)

  read-item :
      (f : SampleFifo A) (xs : List A) (n k : ℕ)
      → IsQueue f xs
      → n ≤ length xs
      → k < n
      → get_elem? (read f n) k ≡ get_elem? xs k
  read-item f xs n k v h lt = elim (Bool-cases (ltb k (before f n))) [
    | inl early ↦
        let l : k < before f n = ltb→lt k (before f n) early in
        let b = length-take (before f n) (drop f.head f.buf) in
        let c = length-drop f.head f.buf in
        get_elem?-append_left (take (before f n) (drop f.head f.buf)) (take (n - before f n) f.buf)
          k (omega (arith, v.starts))
        ∙ get_elem?-take (before f n) (drop f.head f.buf) k l
        ∙ get_elem?-drop f.head f.buf k
        ∙ ap (get_elem? f.buf) (sym (mod-eq_of_lt (omega (arith, v.starts))))
        ∙ v.items k (omega arith)
    | inr late ↦
        let l : before f n ≤ k = ground arith in
        let front = take (before f n) (drop f.head f.buf) in
        let b = length-take (before f n) (drop f.head f.buf) in
        let c = length-drop f.head f.buf in
        let e : k ≡ length front + (k - before f n) = omega (arith, v.starts) in
        ap (get_elem? (read f n)) e
        ∙ get_elem?-append_right front (take (n - before f n) f.buf) (k - before f n)
        ∙ get_elem?-take (n - before f n) f.buf (k - before f n) (omega arith)
        ∙ ap (get_elem? f.buf) (
            sym (
              wraps (f.head + k) (length f.buf) (omega (arith, v.starts))
                (omega (arith, v.starts, v.fits))
              ∙ omega (arith, v.starts, v.fits)))
        ∙ v.items k (omega arith)
  ]

  abbrev pub rest : SampleFifo A → ℕ → SampleFifo A
  rest f n = record { buf = f.buf; head = (f.head + n) % length f.buf; len = f.len - n }

  pub rest-IsQueue :
      (f : SampleFifo A) (xs : List A) (n : ℕ)
      → IsQueue f xs
      → n ≤ length xs
      → IsQueue (rest f n) (drop n xs)
  rest-IsQueue f xs n v h =
      let d = length-drop n xs in
      record {
        size = omega (arith, v.size);
        fits = omega (arith, v.fits);
        starts = mod-lt (f.head + n) (omega (arith, v.starts));
        items = λ k lt.
            ap (get_elem? f.buf) (
              mod-add-mod (f.head + n) (length f.buf) k
              ∙ ap (λ x. x % length f.buf) {x = f.head + n + k} {y = f.head + (n + k)}
                  (omega arith))
            ∙ v.items (n + k) (omega arith)
            ∙ sym (get_elem?-drop n xs k);
      }

  read-take :
      (f : SampleFifo A) (xs : List A) (n : ℕ) → IsQueue f xs → n ≤ length xs → read f n ≡ take n xs
  read-take f xs n v h =
      let size = length-read f xs n v h in
      List-ext (read f n) (take n xs) (omega (arith, size, length-take n xs)) (λ k lt.
        read-item f xs n k v h (omega (arith, size))
        ∙ sym (get_elem?-take n xs k (omega (arith, size))))

  pub slice-within :
      (buf : List A) (from n : ℕ)
      → from + n ≤ length buf
      → slice buf from (from + n) ≡ some (take n (drop from buf))
  unfolding slice
  slice-within buf from n h =
      let a : leb from (from + n) ≡ true = ground arith in
      let b : leb (from + n) (length buf) ≡ true = ground arith in
      let e : from + n - from ≡ n = omega arith in rw (slice, a, b, e) refl

  second :
      (buf : List A) (m : ℕ)
      → m ≤ length buf
      → (if ltb 0 m then slice buf 0 m else some []) ≡ some (take m buf)
  second buf zero h = refl
  second buf (suc m) h =
      let some_left : ltb 0 (suc m) ≡ true = ground arith in
      rw some_left (
        ap (slice buf 0) {x = suc m} {y = 0 + suc m} (omega arith)
        ∙ slice-within buf 0 (suc m) (omega arith))

  pop-read :
      (f : SampleFifo A) (xs : List A) (n : ℕ)
      → IsQueue f xs
      → n ≤ length xs
      → pop f n ≡ some (rest f n, some (read f n))
  unfolding pop
  pop-read f xs n v h =
      let enough : ltb f.len n ≡ false = ground (arith, v.size) in
      let a = slice-within f.buf f.head (before f n) (omega (arith, v.starts)) in
      let b = second f.buf (n - before f n) (omega (arith, v.fits, v.starts)) in
      rw (pop, enough, a, b) refl

  -- A pop of no more samples than the ring has takes the oldest ones, in order, and leaves the
  -- others; a pop of more leaves the ring as it is.
  pub pop-IsQueue :
      (f : SampleFifo A) (xs : List A) (n : ℕ)
      → IsQueue f xs
      → (n ≤ length xs
          → (g : SampleFifo A) × (pop f n ≡ some (g, some (take n xs))) × IsQueue g (drop n xs))
        × (length xs < n → pop f n ≡ some (f, none))
  unfolding pop
  pop-IsQueue f xs n v = (
    (λ h. (
      rest f n,
      pop-read f xs n v h ∙ ap (λ ys. some (rest f n, some ys)) (read-take f xs n v h),
      rest-IsQueue f xs n v h,
    )),
    (λ h. let over : ltb f.len n ≡ true = ground (arith, v.size) in rw (pop, over) refl),
  )

  -- A pop of so many samples leaves `rest`, in the same memory.
  pub pop-rest :
      (f : SampleFifo A) (xs : List A) (n : ℕ)
      → IsQueue f xs
      → n ≤ length xs
      → pop f n ≡ some (rest f n, some (take n xs))
  pop-rest f xs n v h =
      pop-read f xs n v h ∙ ap (λ ys. some (rest f n, some ys)) (read-take f xs n v h)
