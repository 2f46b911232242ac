-- ===== src/Audio/Fifo/Put.antt =====
-- Writing into a list, item by item.
use online_jam.Prelude.{
  ℕ, ◌+◌, ◌-◌, ◌≤◌, ◌<◌, ◌≡◌, refl, ap, ◌∙◌, List, ◌++◌, some, arith, length, get_elem?, take, drop,
  length-append, length-take, length-drop, get_elem?-append_left, get_elem?-append_right,
  get_elem?-take, get_elem?-drop, true, leb,
}
use online_jam.Audio.Fifo.{write_at}

module _ {A : Type 0} where
  -- The result of a write within the list.
  abbrev pub put : List A → ℕ → List A → List A
  put buf at src = take at buf ++ (src ++ drop (at + length src) buf)

  pub write_at-put :
      (buf : List A) (at : ℕ) (src : List A)
      → at + length src ≤ length buf
      → write_at buf at src ≡ some (put buf at src)
  unfolding write_at
  write_at-put buf at src h =
      let within : leb (at + length src) (length buf) ≡ true = ground arith in
      rw (write_at, within) refl

  pub length-put :
      (buf : List A) (at : ℕ) (src : List A)
      → at + length src ≤ length buf
      → length (put buf at src) ≡ length buf
  length-put buf at src h = omega (
    arith,
    length-append (take at buf) (src ++ drop (at + length src) buf),
    length-append src (drop (at + length src) buf),
    length-take at buf,
    length-drop (at + length src) buf,
  )

  pub put-before :
      (buf : List A) (at : ℕ) (src : List A) (i : ℕ)
      → at + length src ≤ length buf
      → i < at
      → get_elem? (put buf at src) i ≡ get_elem? buf i
  put-before buf at src i h lt =
      get_elem?-append_left (take at buf) (src ++ drop (at + length src) buf) i
        (omega (arith, length-take at buf))
      ∙ get_elem?-take at buf i lt

  pub put-inside :
      (buf : List A) (at : ℕ) (src : List A) (i j : ℕ)
      → at + length src ≤ length buf
      → i ≡ at + j
      → j < length src
      → get_elem? (put buf at src) i ≡ get_elem? src j
  put-inside buf at src i j h e lt =
      let size = length-take at buf in
      ap (get_elem? (put buf at src)) {x = i} {y = length (take at buf) + j} (omega arith)
      ∙ get_elem?-append_right (take at buf) (src ++ drop (at + length src) buf) j
      ∙ get_elem?-append_left src (drop (at + length src) buf) j lt

  pub put-after :
      (buf : List A) (at : ℕ) (src : List A) (i : ℕ)
      → at + length src ≤ length buf
      → at + length src ≤ i
      → get_elem? (put buf at src) i ≡ get_elem? buf i
  put-after buf at src i h le =
      let size = length-take at buf in
      ap (get_elem? (put buf at src)) {x = i}
        {y = length (take at buf) + (length src + (i - at - length src))} (omega arith)
      ∙ get_elem?-append_right (take at buf) (src ++ drop (at + length src) buf)
          (length src + (i - at - length src))
      ∙ get_elem?-append_right src (drop (at + length src) buf) (i - at - length src)
      ∙ get_elem?-drop (at + length src) buf (i - at - length src)
      ∙ ap (get_elem? buf) {x = at + length src + (i - at - length src)} {y = i} (omega arith)
