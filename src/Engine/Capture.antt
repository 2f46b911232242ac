-- ===== src/Engine/Capture.antt =====
-- The capture ring at the start of an output callback: crates/jam-core/src/engine.rs.
use online_jam.Prelude.{
  ℕ, zero, suc, ◌+◌, ◌%◌, ◌^◌, ◌-◌, ◌≤◌, ◌<◌, ◌≡◌, refl, sym, inl, inr, List, [], ◌∷◌, ◌++◌, arith,
  ltb, leb, Bool-cases, length, drop, replicate, take-append-drop, length-take, length-drop,
  length-replicate,
}
use online_jam.Engine.{trim, capture, drift_cap}

module _ {S : Type 0} where
  drop-nil : (n : ℕ) → drop {A = S} n [] ≡ []
  drop-nil zero = refl
  drop-nil (suc n) = refl

  trim-drop : (cap : ℕ) (xs : List S) → trim cap xs ≡ drop (length xs - cap) xs
  unfolding trim
  trim-drop cap [] = sym (drop-nil (0 - cap))
  trim-drop cap (x ∷ xs) = elim (Bool-cases (ltb cap (length (x ∷ xs)))) [
    | inl over ↦
        let more : length (x ∷ xs) - cap ≡ suc (length xs - cap) = ground arith in
        rw (trim, over, more) (trim-drop cap xs)
    | inr fits ↦
        let none_over : length (x ∷ xs) - cap ≡ 0 = ground arith in rw (trim, fits, none_over) refl
  ]

  -- What a callback takes from the capture ring is always one frame, and what it leaves there is
  -- never more than the cap on the latency. If the ring has a frame, then the frame and what is left
  -- are, in order, the newest samples of the ring, as many as the cap allows; otherwise the frame is
  -- silence, and the starved frame is counted.
  pub capture-newest :
      (silence : S) (frame hw_buffer : ℕ) (ring : List S) (starved : ℕ)
      → (length (capture silence frame hw_buffer ring starved).local_in ≡ frame)
        × (length (capture silence frame hw_buffer ring starved).ring ≤ drift_cap frame hw_buffer)
        × ((frame ≤ length ring)
            → ((capture silence frame hw_buffer ring starved).local_in
                  ++ (capture silence frame hw_buffer ring starved).ring
                ≡ drop (length ring - drift_cap frame hw_buffer) ring)
              × ((capture silence frame hw_buffer ring starved).starved ≡ starved))
        × ((length ring < frame)
            → (capture silence frame hw_buffer ring starved ≡ record {
              ring = ring;
              local_in = replicate frame silence;
              starved = (starved + 1) % 2 ^ 64;
            }))
  unfolding capture
  capture-newest silence frame hw_buffer ring starved =
      let cap = drift_cap frame hw_buffer in
      let kept = drop (length ring - cap) ring in
      let l0 = length-drop (length ring - cap) ring in
      elim (Bool-cases (leb frame (length kept))) [
        | inl full ↦
            let l1 = length-take frame kept in
            let l2 = length-drop frame kept in
            rw (capture, trim-drop cap ring, full)
              (
                ground arith,
                ground arith,
                (λ enough. (take-append-drop frame kept, refl)),
                (λ few. absurd (ground arith)),
              )
        | inr short ↦
            let none_over : length ring - cap ≡ 0 = ground arith in
            rw (capture, trim-drop cap ring, short, none_over)
              (
                length-replicate frame silence,
                ground arith,
                (λ enough. absurd (ground arith)),
                (λ few. refl),
              )
      ]
