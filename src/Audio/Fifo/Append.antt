-- ===== src/Audio/Fifo/Append.antt =====
-- Samples that are pushed stand behind those that the ring has.
use online_jam.Prelude.{
  ℕ, zero, suc, ◌+◌, ◌-◌, ◌%◌, ◌≤◌, ◌<◌, ◌≡◌, refl, sym, ap, ◌∙◌, ◌⊎◌, inl, inr, List, [], ◌∷◌,
  ◌++◌, some, arith, ltb, Bool-cases, length, get_elem?, get_elem?-append_left,
  get_elem?-append_right, get_elem?-take, get_elem?-drop, take, drop, min, length-append,
  length-take, length-drop, true, ltb→lt, if◌then◌else◌,
}
use native.Mathlib.Nat.{mod-lt, mod-eq_of_lt, mod-add-mod}
use online_jam.Audio.Fifo.{SampleFifo, append, slice, write_at}
use online_jam.Audio.Fifo.Put.{put, write_at-put, length-put, put-before, put-inside, put-after}
use online_jam.Audio.Fifo.Queue.{IsQueue, wraps, slice-within}

-- A number below twice the ring's size, on the ring.
ring-cases : (x c : ℕ) → x < c + c → ((x < c) × (x % c ≡ x)) ⊎ ((c ≤ x) × (x % c ≡ x - c))
ring-cases x c h = elim (Bool-cases (ltb x c)) [
  | inl below ↦ let lt : x < c = ltb→lt x c below in inl (lt, mod-eq_of_lt lt)
  | inr above ↦ let le : c ≤ x = ground arith in inr (le, wraps x c le h)
]

module _ {A : Type 0} where
  abbrev pub tail_of : SampleFifo A → ℕ
  tail_of f = (f.head + f.len) % length f.buf

  -- The samples that go in front of the ring's end.
  abbrev pub first_of : SampleFifo A → List A → ℕ
  first_of f ys = min (length f.buf - tail_of f) (length ys)

  abbrev pub appended : SampleFifo A → List A → SampleFifo A
  appended f ys = record {
    buf = put (put f.buf (tail_of f) (take (first_of f ys) ys)) 0 (drop (first_of f ys) ys);
    head = f.head;
    len = f.len + length ys;
  }

  -- The bounds of the two copies.
  record Fits (f : SampleFifo A) (ys : List A) : Type 0 where
    front : tail_of f + length (take (first_of f ys) ys) ≤ length f.buf
    back : length (drop (first_of f ys) ys) ≤ length f.buf
    buf : length (put f.buf (tail_of f) (take (first_of f ys) ys)) ≡ length f.buf

  fits : (f : SampleFifo A) (ys : List A) → 0 < length f.buf → length ys ≤ length f.buf → Fits f ys
  fits f ys pos_cap small =
      let t = mod-lt (f.head + f.len) pos_cap in
      let a = length-take (first_of f ys) ys in
      let b = length-drop (first_of f ys) ys in
      let front : tail_of f + length (take (first_of f ys) ys) ≤ length f.buf = omega arith in
      record {
        front = front;
        back = omega arith;
        buf = length-put f.buf (tail_of f) (take (first_of f ys) ys) front;
      }

  write_back :
      (buf : List A) (back : List A) (n : ℕ)
      → n ≡ length back
      → length back ≤ length buf
      → (if ltb 0 n then write_at buf 0 back else some buf) ≡ some (put buf 0 back)
  write_back buf [] zero e h = refl
  write_back buf [] (suc n) e h = absurd (omega arith)
  write_back buf (y ∷ back) n e h =
      let more : ltb 0 n ≡ true = ground arith in
      rw more (write_at-put buf 0 (y ∷ back) (omega arith))

  take-all : (n : ℕ) (xs : List A) → length xs ≤ n → take n xs ≡ xs
  take-all zero [] h = refl
  take-all zero (x ∷ xs) h = absurd (omega arith)
  take-all (suc n) [] h = refl
  take-all (suc n) (x ∷ xs) h = ap (◌∷◌ x) (take-all n xs (omega arith))

  append-appended :
      (f : SampleFifo A) (ys : List A)
      → 0 < length f.buf
      → length ys ≤ length f.buf
      → append f ys ≡ some (appended f ys)
  unfolding append
  append-appended f ys pos_cap small =
      let v = fits f ys pos_cap small in
      let n = first_of f ys in
      let a =
        ap (slice ys 0) {x = n} {y = 0 + n} (omega arith) ∙ slice-within ys 0 n (omega arith) in
      let b = write_at-put f.buf (tail_of f) (take n ys) v.front in
      let size = length-drop n ys in
      let c =
        ap (slice ys n) {x = length ys} {y = n + (length ys - n)} (omega arith)
        ∙ slice-within ys n (length ys - n) (omega arith)
        ∙ ap some (take-all (length ys - n) (drop n ys) (omega arith)) in
      let d =
        write_back (put f.buf (tail_of f) (take n ys)) (drop n ys) (length ys - n) (sym size)
          (omega (arith, v.back, v.buf)) in
      rw (append, a, b, c, d) refl

  -- The samples that the ring had.
  appended-old :
      (f : SampleFifo A) (xs ys : List A) (k : ℕ)
      → IsQueue f xs
      → length xs + length ys ≤ length f.buf
      → k < length xs
      → get_elem? (appended f ys).buf ((f.head + k) % length f.buf) ≡ get_elem? xs k
  appended-old f xs ys k q room lt =
      let v = fits f ys (omega (arith, q.starts)) (omega arith) in
      let n = first_of f ys in
      let t = ring-cases (f.head + f.len) (length f.buf) (omega (arith, q.starts, q.size)) in
      let i = ring-cases (f.head + k) (length f.buf) (omega (arith, q.starts)) in
      let a = length-take n ys in
      let b = length-drop n ys in
      let x = (f.head + k) % length f.buf in
      let front = take n ys in
      let inner = put f.buf (tail_of f) front in
      let clear : length (drop n ys) ≤ x = omega (arith, q.size) in
      let apart : (x < tail_of f) ⊎ (tail_of f + length front ≤ x) = omega (arith, q.size) in
      put-after inner 0 (drop n ys) x (omega (arith, v.back, v.buf)) (omega arith)
      ∙ elim apart [
        | inl lo ↦ put-before f.buf (tail_of f) front x v.front lo
        | inr hi ↦ put-after f.buf (tail_of f) front x v.front hi
      ]
      ∙ q.items k lt

  -- The samples that are new.
  appended-new :
      (f : SampleFifo A) (xs ys : List A) (j : ℕ)
      → IsQueue f xs
      → length xs + length ys ≤ length f.buf
      → j < length ys
      → get_elem? (appended f ys).buf ((f.head + (length xs + j)) % length f.buf) ≡ get_elem? ys j
  appended-new f xs ys j q room lt =
      let v = fits f ys (omega (arith, q.starts)) (omega arith) in
      let n = first_of f ys in
      let t = ring-cases (f.head + f.len) (length f.buf) (omega (arith, q.starts, q.size)) in
      let i = ring-cases (tail_of f + j) (length f.buf) (omega (arith, q.starts, q.size)) in
      let a = length-take n ys in
      let b = length-drop n ys in
      let x = (tail_of f + j) % length f.buf in
      let front = take n ys in
      let inner = put f.buf (tail_of f) front in
      let e : (f.head + (length xs + j)) % length f.buf ≡ x =
        ap (λ m. m % length f.buf) {x = f.head + (length xs + j)} {y = f.head + f.len + j}
          (omega (arith, q.size))
        ∙ sym (mod-add-mod (f.head + f.len) (length f.buf) j) in
      ap (get_elem? (appended f ys).buf) e ∙ elim (Bool-cases (ltb j n)) [
        | inl early ↦
            let l : j < n = ltb→lt j n early in
            put-after inner 0 (drop n ys) x (omega (arith, v.back, v.buf)) (omega arith)
            ∙ put-inside f.buf (tail_of f) front x j v.front (omega arith) (omega arith)
            ∙ get_elem?-take n ys j l
        | inr late ↦
            let l : n ≤ j = ground arith in
            put-inside inner 0 (drop n ys) x (j - n) (omega (arith, v.back, v.buf)) (omega arith)
              (omega arith)
            ∙ get_elem?-drop n ys (j - n)
            ∙ ap (get_elem? ys) {x = n + (j - n)} {y = j} (omega arith)
      ]

  pub append-IsQueue :
      (f : SampleFifo A) (xs ys : List A)
      → IsQueue f xs
      → length xs + length ys ≤ length f.buf
      → (append f ys ≡ some (appended f ys))
        × IsQueue (appended f ys) (xs ++ ys)
        × (length (appended f ys).buf ≡ length f.buf)
  append-IsQueue f xs ys q room =
      let v = fits f ys (omega (arith, q.starts)) (omega arith) in
      let n = first_of f ys in
      let size = length-append xs ys in
      let cap : length (appended f ys).buf ≡ length f.buf =
        length-put (put f.buf (tail_of f) (take n ys)) 0 (drop n ys) (omega (arith, v.back, v.buf))
        ∙ v.buf in
      (
        append-appended f ys (omega (arith, q.starts)) (omega arith),
        record {
          size = omega (arith, q.size);
          fits = omega arith;
          starts = omega (arith, q.starts);
          items =
              λ k lt. ap (λ c. get_elem? (appended f ys).buf ((f.head + k) % c)) cap ∙ item k lt;
        },
        cap,
      )
    where
      item :
          (k : ℕ)
          → k < length (xs ++ ys)
          → get_elem? (appended f ys).buf ((f.head + k) % length f.buf) ≡ get_elem? (xs ++ ys) k
      item k lt =
          let size = length-append xs ys in
          elim (Bool-cases (ltb k (length xs))) [
            | inl old ↦
                let l : k < length xs = ltb→lt k (length xs) old in
                appended-old f xs ys k q room l ∙ sym (get_elem?-append_left xs ys k l)
            | inr new ↦
                let l : length xs ≤ k = ground arith in
                let e : k ≡ length xs + (k - length xs) = omega arith in
                ap (λ m. get_elem? (appended f ys).buf ((f.head + m) % length f.buf)) e
                ∙ appended-new f xs ys (k - length xs) q room (omega arith)
                ∙ sym (ap (get_elem? (xs ++ ys)) e ∙ get_elem?-append_right xs ys (k - length xs))
          ]
