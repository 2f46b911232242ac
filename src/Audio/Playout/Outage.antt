-- ===== src/Audio/Playout/Outage.antt =====
-- When the playout controller gives a stream up.
use online_jam.Prelude.{
  ℕ, ◌+◌, ◌%◌, ◌<◌, ◌≡◌, ap, ◌∙◌, sym, inl, inr, Bool, true, false, List, [], ◌∷◌, arith, leb,
  le→leb, Bool-cases, if◌then◌else◌, length,
}
use online_jam.Prelude.Int.{ℤ}
use online_jam.Protocol.{u32_mod}
use online_jam.Audio.Playout.{PlayoutController, evaluate, post_pop}

module _ {F : Type 0} (frames_of : F → F → F → ℤ) where
  -- Whether one of these misses in a row, each with its jitter estimate, asks for a reset.
  unfoldable pub gives_up : PlayoutController F → List F → Bool
  gives_up c [] = false
  gives_up c (j ∷ js) =
      let (c', reset) = post_pop frames_of c false j in
      let rest = gives_up c' js in if reset then true else rest

  -- The fields that decide.
  counts : PlayoutController F → ℕ × ℕ
  counts c = (c.consecutive_misses, c.reset_after_misses)

  counts-evaluate : (c : PlayoutController F) (j : F) → counts (evaluate frames_of c j) ≡ counts c
  unfolding evaluate counts
  counts-evaluate c j =
      elim (Bool-cases (leb c.eval_interval_frames ((c.frames_since_eval + 1) % u32_mod))) [
        | inl due ↦ simp (evaluate, due)
        | inr wait ↦ simp (evaluate, wait)
      ]

  -- A miss below the limit only counts.
  miss-few :
      (c : PlayoutController F) (j : F)
      → c.consecutive_misses + 1 < c.reset_after_misses
      → c.reset_after_misses < u32_mod
      → ((post_pop frames_of c false j).1 ≡ false)
        × (counts (post_pop frames_of c false j).0
            ≡ (c.consecutive_misses + 1, c.reset_after_misses))
  unfolding post_pop counts
  miss-few c j few small =
      let below : leb c.reset_after_misses ((c.consecutive_misses + 1) % u32_mod) ≡ false =
        ground arith in
      let n : (c.consecutive_misses + 1) % u32_mod ≡ c.consecutive_misses + 1 = omega arith in
      let kept =
        counts-evaluate (record c { consecutive_misses = (c.consecutive_misses + 1) % u32_mod })
          j in
      let e : post_pop frames_of c false j ≡ (
        evaluate frames_of (record c { consecutive_misses = (c.consecutive_misses + 1) % u32_mod })
            j,
        false,
      ) =
        simp (post_pop, below) in
      (ap (λ r. r.1) e, ap (λ r. counts r.0) e ∙ kept ∙ ap (λ m. (m, c.reset_after_misses)) n)

  miss-last :
      (c : PlayoutController F) (j : F)
      → c.consecutive_misses + 1 ≡ c.reset_after_misses
      → c.reset_after_misses < u32_mod
      → (post_pop frames_of c false j).1 ≡ true
  unfolding post_pop
  miss-last c j last small =
      let over : leb c.reset_after_misses ((c.consecutive_misses + 1) % u32_mod) ≡ true =
        ground arith in
      simp (post_pop, over)

  -- A controller that has counted fewer misses than its limit asks for a reset within further
  -- misses in a row exactly if they reach the limit, whatever the jitter estimates are.
  pub gives_up-misses :
      (c : PlayoutController F) (js : List F)
      → c.consecutive_misses < c.reset_after_misses
      → c.reset_after_misses < u32_mod
      → gives_up c js ≡ leb c.reset_after_misses (c.consecutive_misses + length js)
  unfolding gives_up counts
  gives_up-misses c [] below small = ground arith
  gives_up-misses c (j ∷ js) below small =
      elim (Bool-cases (leb c.reset_after_misses (c.consecutive_misses + 1))) [
        | inl last ↦
            let now = miss-last c j (ground arith) small in
            rw (gives_up, now) (sym (le→leb _ _ (ground arith)))
        | inr few ↦
            let (goes_on, counted) = miss-few c j (ground arith) small in
            let c' = (post_pop frames_of c false j).0 in
            let misses : c'.consecutive_misses ≡ c.consecutive_misses + 1 = ap (λ n. n.0) counted in
            let limit : c'.reset_after_misses ≡ c.reset_after_misses = ap (λ n. n.1) counted in
            ap (λ r. if r then true else gives_up c' js) goes_on
            ∙ gives_up-misses c' js (ground arith) (omega arith)
            ∙ ap (λ n. leb n.1 (n.0 + length js)) counted
            ∙ ap (leb c.reset_after_misses) (omega arith)
      ]
