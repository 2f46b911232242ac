-- ===== src/Engine/Output.antt =====
-- The output callback of crates/jam-core/src/engine.rs, over any source of frames.
use online_jam.Prelude.{
  ℕ, zero, suc, ◌+◌, ◌-◌, ◌*◌, ◌/◌, ◌≤◌, ◌≡◌, refl, ap, subst, ◌∙◌, inl, inr, false, List, [], ◌∷◌,
  ◌++◌, Option, some, arith, ltb, Bool-cases, length, take, drop, replicate, min, length-append,
  length-take, length-drop, length-replicate, append_assoc, append-nil,
}
use online_jam.Audio.Fifo.{SampleFifo}
use online_jam.Audio.Fifo.Newest.{push-IsQueue}
use online_jam.Audio.Fifo.Queue.{IsQueue, rest, rest-IsQueue, pop-rest}
use online_jam.Engine.{Played, fan, serve, fill, on_output}

module _ {P S : Type 0} where
  -- The frames that a source makes one after the other, as one list, and the source after them.
  pub data Makes (process : P → Option (P × List S)) : P → List S → P → Type 0 where
    no_more : (p : P) → Makes process p [] p
    one_more :
        (p p1 p2 : P) (frame_buf ys : List S)
        → process p ≡ some (p1, frame_buf)
        → Makes process p1 ys p2
        → Makes process p (frame_buf ++ ys) p2

  -- A source that never panics and makes frames of one size, while the invariant holds.
  pub record IsSource (process : P → Option (P × List S)) (Valid : P → Type 0) (frame : ℕ)
      : Type 0 where
    pub makes :
        (p : P)
        → Valid p
        → (p' : P) × (frame_buf : List S) × (process p ≡ some (p', frame_buf))
          × Valid p'
          × (length frame_buf ≡ frame)

module _ {S : Type 0} where
  take-nil : (n : ℕ) → take {A = S} n [] ≡ []
  take-nil zero = refl
  take-nil (suc n) = refl

  drop-nil : (n : ℕ) → drop {A = S} n [] ≡ []
  drop-nil zero = refl
  drop-nil (suc n) = refl

  take-take : (m k n : ℕ) (xs : List S) → n ≡ m + k → take m xs ++ take k (drop m xs) ≡ take n xs
  take-take zero k n xs e = ap (λ i. take i xs) (omega arith)
  take-take (suc m) k zero xs e = absurd (omega arith)
  take-take (suc m) k (suc n) [] e = take-nil k
  take-take (suc m) k (suc n) (x ∷ xs) e = ap (◌∷◌ x) (take-take m k n xs (omega arith))

  drop-drop : (m k n : ℕ) (xs : List S) → n ≡ m + k → drop k (drop m xs) ≡ drop n xs
  drop-drop zero k n xs e = ap (λ i. drop i xs) (omega arith)
  drop-drop (suc m) k zero xs e = absurd (omega arith)
  drop-drop (suc m) k (suc n) [] e = drop-nil k
  drop-drop (suc m) k (suc n) (x ∷ xs) e = drop-drop m k n xs (omega arith)

  fan-append :
      (channels : ℕ) (xs ys : List S) → fan channels xs ++ fan channels ys ≡ fan channels (xs ++ ys)
  unfolding fan
  fan-append channels [] ys = refl
  fan-append channels (x ∷ xs) ys =
      append_assoc (replicate channels x) (fan channels xs) (fan channels ys)
      ∙ ap (λ zs. replicate channels x ++ zs) (fan-append channels xs ys)

  pub length-fan : (channels : ℕ) (xs : List S) → length (fan channels xs) ≡ length xs * channels
  unfolding fan
  length-fan channels [] = omega arith
  length-fan channels (x ∷ xs) = omega (
    arith,
    length-append (replicate channels x) (fan channels xs),
    length-fan channels xs,
    length-replicate channels x,
  )

  -- The drain gives the oldest samples, each to all channels, and leaves the others.
  serve-IsQueue :
      (fuel channels frame needed : ℕ) (pending : SampleFifo S) (xs : List S)
      → IsQueue pending xs
      → needed ≤ length xs
      → needed ≤ fuel
      → 1 ≤ frame
      → (g : SampleFifo S) × (serve fuel channels frame needed pending
          ≡ some (g, fan channels (take needed xs)))
        × IsQueue g (drop needed xs)
        × (length g.buf ≡ length pending.buf)
  unfolding serve
  serve-IsQueue zero channels frame zero pending xs q has enough low = (pending, refl, q, refl)
  serve-IsQueue zero channels frame (suc needed) pending xs q has enough low = absurd (omega arith)
  serve-IsQueue (suc fuel) channels frame needed pending xs q has enough low =
      elim (Bool-cases (ltb 0 needed)) [
        | inr over ↦
            let done : needed ≡ 0 = ground arith in
            (pending, rw (serve, over, done) refl, rw done q, refl)
        | inl more ↦
            let m = min needed frame in
            let k = needed - m in
            let whole : needed ≡ m + k = omega arith in
            let (g, e, q', cap) =
              serve-IsQueue fuel channels frame k (rest pending m) (drop m xs)
                (rest-IsQueue pending xs m q (omega arith)) (omega (arith, length-drop m xs))
                (ground arith) low in
            (
              g,
              rw (serve, more, pop-rest pending xs m q (omega arith), e)
                  (ap (λ ys. some (g, ys))
                    (fan-append channels (take m xs) (take k (drop m xs))
                      ∙ ap (fan channels) (take-take m k needed xs whole))),
              subst (IsQueue g) (drop-drop m k needed xs whole) q',
              cap,
            )
      ]

module _ {P S : Type 0} (process : P → Option (P × List S)) (Valid : P → Type 0) (frame : ℕ)
    (source : IsSource process Valid frame) where
  -- The loop fills the ring with the next frames, and drops none of its samples.
  fill-IsQueue :
      (fuel needed : ℕ) (p : P) (pending : SampleFifo S) (xs : List S)
      → Valid p
      → IsQueue pending xs
      → needed ≤ length xs + fuel
      → needed + frame ≤ length pending.buf
      → 1 ≤ frame
      → (p' : P) × (g : SampleFifo S) × (ys : List S) × (fill process fuel needed p pending
          ≡ some (p', g))
        × Valid p'
        × Makes process p ys p'
        × IsQueue g (xs ++ ys)
        × (needed ≤ length (xs ++ ys))
        × (length g.buf ≡ length pending.buf)
  unfolding fill
  fill-IsQueue zero needed p pending xs v q enough room low =
      let full : ltb pending.len needed ≡ false = ground (arith, q.size) in
      (
        p,
        pending,
        [],
        rw (fill, full) refl,
        v,
        Makes.no_more p,
        rw append-nil q,
        omega (arith, length-append xs []),
        refl,
      )
  fill-IsQueue (suc fuel) needed p pending xs v q enough room low =
      elim (Bool-cases (ltb pending.len needed)) [
        | inr full ↦ (
          p,
          pending,
          [],
          rw (fill, full) refl,
          v,
          Makes.no_more p,
          rw append-nil q,
          ground (arith, q.size, length-append xs []),
          refl,
        )
        | inl short ↦
            let (p1, buf, made, v1, size) = source.makes p v in
            let (g1, e1, q1, cap1) = push-IsQueue pending xs buf q in
            let fits : length xs + length buf - length pending.buf ≡ 0 = ground (arith, q.size) in
            let q1' : IsQueue g1 (xs ++ buf) = rw fits at q1 in
            let l = length-append xs buf in
            let (p', g, ys, e, v', run, q', enough', cap) =
              fill-IsQueue fuel needed p1 g1 (xs ++ buf) v1 q1' (omega arith) (omega arith) low in
            let assoc = append_assoc xs buf ys in
            (
              p',
              g,
              buf ++ ys,
              rw (fill, short, made, e1) e,
              v',
              Makes.one_more p p1 p' buf ys made run,
              rw assoc at q',
              rw assoc at enough',
              cap ∙ cap1,
            )
      ]

  -- A source that never panics and makes frames of one size, while its invariant holds, serves each
  -- device block that the ring of pending samples has room for, a frame besides: both loops of the
  -- callback end, and nothing panics. The block's samples, each on all channels, are the pending ones
  -- and then those of the next frames of the source, in order; what is pending after it is the rest of
  -- them. So no sample is lost, repeated or reordered between blocks, whatever their sizes are. Only
  -- what is less than one sample of all channels stays as it was in the block.
  pub on_output-Makes :
      (channels : ℕ) (p : P) (pending : SampleFifo S) (xs block : List S)
      → Valid p
      → IsQueue pending xs
      → 1 ≤ channels
      → length block / channels + frame ≤ length pending.buf
      → 1 ≤ frame
      → (o : Played P S) × (ys : List S) × (on_output process channels frame p pending block
          ≡ some o)
        × Makes process p ys o.process
        × Valid o.process
        × (o.block
            ≡ fan channels (take (length block / channels) (xs ++ ys))
              ++ drop (length block / channels * channels) block)
        × IsQueue o.pending (drop (length block / channels) (xs ++ ys))
        × (length o.pending.buf ≡ length pending.buf)
  unfolding on_output
  on_output-Makes channels p pending xs block v q many room low =
      let needed = length block / channels in
      let (p', filled, ys, e, v', run, q', enough, cap) =
        fill-IsQueue needed needed p pending xs v q (omega arith) room low in
      let (g, e', q'', cap') =
        serve-IsQueue needed channels frame needed filled (xs ++ ys) q' enough (omega arith) low in
      let played = fan channels (take needed (xs ++ ys)) in
      let size : length played ≡ needed * channels =
        length-fan channels (take needed (xs ++ ys))
        ∙ ap (λ n. n * channels) (omega (arith, length-take needed (xs ++ ys))) in
      (
        record { process = p'; pending = g; block = played ++ drop (length played) block },
        ys,
        rw (on_output, e, e') refl,
        run,
        v',
        ap (λ n. played ++ drop n block) size,
        q'',
        cap' ∙ cap,
      )
