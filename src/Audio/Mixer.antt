-- ===== src/Audio/Mixer.antt =====
-- crates/jam-audio/src/mixer.rs: smoothed gains, mixing and the soft clipper. The operations of f32
-- are those of an interface, `Real`; `S` is f32.
use online_jam.Prelude.{ℕ, suc, ◌≡◌, refl, ap, Bool, List, [], ◌∷◌, if◌then◌else◌, length, map}

-- `decimal n k` is the literal n / 10 ^ k.
pub record Real (S : Type 0) : Type 0 where
  pub add : S → S → S
  pub sub : S → S → S
  pub mul : S → S → S
  pub div : S → S → S
  pub neg : S → S
  pub abs : S → S
  pub exp : S → S
  pub sqrt : S → S
  pub lt : S → S → Bool
  pub le : S → S → Bool
  pub of_nat : ℕ → S
  pub decimal : (n k : ℕ) → S

pub record SmoothedGain (S : Type 0) : Type 0 where
  pub current : S
  pub alpha : S

-- Two slices side by side; what `dst` has beyond `src` stays.
unfoldable pub zip_into : {S : Type 0} → (S → S → S) → List S → List S → List S
zip_into f [] src = []
zip_into f (d ∷ dst) [] = d ∷ dst
zip_into f (d ∷ dst) (s ∷ src) = f d s ∷ zip_into f dst src

module _ {S : Type 0} (real : Real S) where
  abbrev pub one : S
  one = real.decimal 1 0

  abbrev pub zero_f : S
  zero_f = real.decimal 0 0

  -- `SmoothedGain::new`.
  unfoldable pub new : S → (frame_samples sample_rate : ℕ) → SmoothedGain S
  new initial frame_samples sample_rate =
      let frame_s = real.div (real.of_nat frame_samples) (real.of_nat sample_rate) in
      let tau = real.decimal 10 3 in
      record {
        current = initial;
        alpha = real.sub one (real.exp (real.div (real.neg frame_s) tau));
      }

  -- `SmoothedGain::next`: the gain to apply is the new `current`.
  unfoldable pub next : SmoothedGain S → S → SmoothedGain S
  next g target =
      let c = real.add g.current (real.mul (real.sub target g.current) g.alpha) in
      if real.lt (real.abs (real.sub c target)) (real.decimal 1 4)
      then record g { current = target }
      else record g { current = c }

  unfoldable pub mix_scaled : (dst src : List S) → (gain : S) → List S
  unfolding zip_into
  mix_scaled dst src gain = zip_into (λ d s. real.add d (real.mul s gain)) dst src

  unfoldable pub unmix_scaled : (dst src : List S) → (gain : S) → List S
  unfolding zip_into
  unmix_scaled dst src gain = zip_into (λ d s. real.sub d (real.mul s gain)) dst src

  unfoldable pub soft_clip : S → S
  soft_clip x =
      let two = real.decimal 2 0 in
      let three = real.decimal 3 0 in
      if real.le one x
      then real.div two three
      else if real.le x (real.neg one)
      then real.div (real.neg two) three
      else real.sub x (real.div (real.mul (real.mul x x) x) three)

  unfoldable pub soft_clip_buf : List S → List S
  unfolding soft_clip
  soft_clip_buf buf = map soft_clip buf

  -- The sum of `frame_rms`.
  unfoldable pub sum_squares : S → List S → S
  sum_squares sum [] = sum
  sum_squares sum (x ∷ xs) = sum_squares (real.add sum (real.mul x x)) xs

  unfoldable pub frame_rms : List S → S
  unfolding sum_squares
  frame_rms [] = zero_f
  frame_rms (x ∷ xs) =
      real.sqrt (real.div (sum_squares zero_f (x ∷ xs)) (real.of_nat (length (x ∷ xs))))

  -- `frame_rms(out) < LOW_ENERGY_RMS`.
  unfoldable pub is_quiet : List S → Bool
  unfolding frame_rms
  is_quiet out = real.lt (frame_rms out) (real.decimal 3 3)

module _ {S : Type 0} where
  pub length-zip_into :
      (f : S → S → S) (dst src : List S) → length (zip_into f dst src) ≡ length dst
  unfolding zip_into
  length-zip_into f [] src = refl
  length-zip_into f (d ∷ dst) [] = refl
  length-zip_into f (d ∷ dst) (s ∷ src) = ap suc (length-zip_into f dst src)
