-- ===== src/Playout/Tests.antt =====
-- Ticks of a stream's playout, with a decoder that gives ones and a resampler that copies.
use online_jam.Prelude.{ℕ, ◌+◌, ◌*◌, ◌-◌, ◌/◌, ◌≡◌, true, false, none, some, arith, map, length-map}
use online_jam.Prelude.Int.{pos}
use online_jam.Audio.Jitter
use online_jam.Audio.Jitter.{JitterBuffer}
use online_jam.Audio.Jitter.Invariant.{new-IsBuffer}
use online_jam.Audio.Playout as Policy
use online_jam.Playout
use online_jam.Playout.{Dsp, StreamPlayout, Ticked, tick}
use online_jam.Playout.Pull.{IsDsp, new-IsStream}
use online_jam.Playout.Total.{IsTicked, tick-Returns}

abbrev plain_dsp : Dsp ℕ ℕ ℕ ℕ ℕ ℕ
plain_dsp = record {
  decode = λ d packet dst. (d, map (λ x. 1) dst, true);
  process = λ r xs. (r, xs);
  new_resampler = 0;
  set_ratio = λ r ratio. ratio;
  drift_update = λ e error. (e, e);
  drift_ratio = λ e. e;
  is_quiet = λ out. false;
  silence = 0;
  jitter_us = λ bits. bits;
  frames_of = λ k jitter_us frame_us. pos ((k * jitter_us + frame_us - 1) / frame_us);
}

plain_dsp-IsDsp : IsDsp plain_dsp
plain_dsp-IsDsp = record {
  decodes = λ d packet dst. length-map (λ x. 1) dst;
  makes = λ r xs low. omega arith;
}

abbrev stream : StreamPlayout ℕ ℕ ℕ ℕ ℕ
stream = Playout.new plain_dsp 0 0 (Policy.new 2500 3 2 3) 120 none true

tick-Returns_example :
    (o : Ticked ℕ ℕ ℕ ℕ ℕ) × (tick plain_dsp Jitter.new stream stream.frame ≡ some o)
    × IsTicked plain_dsp plain_dsp-IsDsp stream.frame o
tick-Returns_example = tick-Returns plain_dsp plain_dsp-IsDsp Jitter.new stream new-IsBuffer (
    new-IsStream plain_dsp plain_dsp-IsDsp 0 0 (Policy.new 2500 3 2 3) 120 none true (omega arith)
      (omega arith))
