-- ===== src/Playout.antt =====
-- crates/jam-core/src/playout.rs: `StreamPlayout`, from a stream's jitter buffer to the samples of a
-- frame. The decoder, the resampler, the drift controller and the float computations are the
-- operations of an interface, `Dsp`; `S` is a sample, f32. `none` is a panic.
pub mod Pull
pub mod Stage
mod Tests
pub mod Total
use online_jam.Prelude.{
  ℕ, zero, suc, ◌+◌, ◌-◌, ◌*◌, Bool, true, false, not, List, [], ◌++◌, Option, none, some, ltb,
  ◌==◌, if◌then◌else◌, Bytes, length, take, drop, replicate, min,
}
use online_jam.Prelude.Options.{◌>>=◌}
use online_jam.Prelude.Int.{ℤ, pos, ◌-ℤ◌}
use online_jam.Audio.{max_frame_bytes, max_frame_samples}
use online_jam.Audio.Fifo
use online_jam.Audio.Fifo.{SampleFifo}
use online_jam.Audio.Jitter
use online_jam.Audio.Jitter.{JitterBuffer, Taken, PopOutcome}
use online_jam.Audio.Playout
use online_jam.Audio.Playout.{PlayoutController, Adjust, wrap_i32}

abbrev pub resample_slack : ℕ
resample_slack = 8

-- What the code calls: `AudioDecoder::decode` gives the buffer that it was handed and whether it
-- succeeded; `HermiteResampler::process` gives the samples that it wrote; `drift_update` is
-- `DriftController::update` on an error in frames, `drift_ratio` is `1.0 + current_ppm() * 1e-6`;
-- `is_quiet` is `frame_rms(out) < LOW_ENERGY_RMS`; `jitter_us` reads an estimate from its bits;
-- `frames_of` is the computation of the playout controller.
pub record Dsp (D R E G F S : Type 0) : Type 0 where
  pub decode : D → Option Bytes → List S → D × List S × Bool
  pub process : R → List S → R × List S
  pub new_resampler : R
  pub set_ratio : R → G → R
  pub drift_update : E → ℤ → E × G
  pub drift_ratio : E → G
  pub is_quiet : List S → Bool
  pub silence : S
  pub jitter_us : ℕ → F
  pub frames_of : F → F → F → ℤ

pub record StreamPlayout (D R E F S : Type 0) : Type 0 where
  pub decoder : D
  pub controller : PlayoutController F
  pub pkt_buf : Bytes
  pub insert_pending : Bool
  pub frame : ℕ
  pub drift_enabled : Bool
  pub resampler : R
  pub drift : E
  pub staging : SampleFifo S
  pub decode_buf : List S

-- What a tick gives: the buffer and the stream after it, `out`, and whether the stream is live.
pub record Ticked (D R E F S : Type 0) : Type 0 where
  pub jb : JitterBuffer
  pub stream : StreamPlayout D R E F S
  pub out : List S
  pub live : Bool

-- How the loop that fills the staging ring ends.
pub data Staged (D R E F S : Type 0) : Type 0 where
  ready : JitterBuffer → StreamPlayout D R E F S → Staged D R E F S
  outage : JitterBuffer → StreamPlayout D R E F S → Staged D R E F S
  panic : Staged D R E F S
  no_fuel : Staged D R E F S

module _ {D R E G F S : Type 0} (dsp : Dsp D R E G F S) where
  -- `StreamPlayout::new` with a decoder; the controller is the new one.
  unfoldable pub new :
      D → E → PlayoutController F → (frame_samples : ℕ) → Option ℤ → Bool → StreamPlayout D R E F S
  unfolding Playout.set_fixed Playout.set_deadband Fifo.new
  new decoder drift controller frame_samples jitter_fixed drift_correction =
      let c : PlayoutController F = elim jitter_fixed [
        | none ↦ controller
        | some n ↦ Playout.set_fixed controller n
      ] in
      record {
        decoder = decoder;
        controller = if drift_correction then Playout.set_deadband c (pos 3) else c;
        pkt_buf = replicate max_frame_bytes 0;
        insert_pending = false;
        frame = frame_samples;
        drift_enabled = drift_correction;
        resampler = dsp.new_resampler;
        drift = drift;
        staging = Fifo.new dsp.silence (frame_samples * 4 + 2 * resample_slack);
        decode_buf = replicate max_frame_samples dsp.silence;
      }

  -- A call of the decoder on the start of `decode_buf`, and whether it succeeded.
  unfoldable pub decode_into :
      StreamPlayout D R E F S → Option Bytes → StreamPlayout D R E F S × Bool
  decode_into sp packet =
      let (decoder, dst, ok) = dsp.decode sp.decoder packet (take sp.frame sp.decode_buf) in
      (record sp { decoder = decoder; decode_buf = dst ++ drop sp.frame sp.decode_buf }, ok)

  unfoldable pub conceal : StreamPlayout D R E F S → StreamPlayout D R E F S
  unfolding decode_into
  conceal sp = (decode_into sp none).0

  -- A frame that was popped, and whether it could be decoded.
  unfoldable pub play : StreamPlayout D R E F S → PopOutcome → StreamPlayout D R E F S × Bool
  unfolding decode_into conceal
  play sp (PopOutcome.frame len _) =
      let (sp', ok) = decode_into sp (some (take len sp.pkt_buf)) in
      if ok then (sp', true) else (conceal sp', false)
  play sp PopOutcome.missing = (conceal sp, false)

  -- The first half of `pull_decoded_into`: a frame, or its concealment.
  unfoldable pub next_frame :
      JitterBuffer
      → StreamPlayout D R E F S
      → Option (JitterBuffer × StreamPlayout D R E F S × Bool)
  unfolding Jitter.pop_next play conceal
  next_frame jb sp =
      if sp.insert_pending
      then some (jb, conceal (record sp { insert_pending = false }), false)
      else do
        t ← Jitter.pop_next jb sp.pkt_buf
        let (sp', hit) = play (record sp { pkt_buf = t.out }) t.outcome
        some (t.buffer, sp', hit)

  -- The second half: `some false` and `some true` are whether the frame was there, `none` is an
  -- outage, after which the buffer is reset.
  unfoldable pub count_frame :
      JitterBuffer × StreamPlayout D R E F S × Bool
      → JitterBuffer × StreamPlayout D R E F S × Option Bool
  unfolding Playout.post_pop Jitter.reset Playout.observe_depth Jitter.depth
  count_frame (jb, sp, hit) =
      let (c, gives_up) =
        Playout.post_pop dsp.frames_of sp.controller hit (dsp.jitter_us jb.stats.jitter_us_bits) in
      if gives_up
      then (Jitter.reset jb, record sp { controller = c }, none)
      else (jb, record sp { controller = Playout.observe_depth c (Jitter.depth jb) }, some hit)

  -- `pull_decoded_into`, at offset 0.
  unfoldable pub pull :
      JitterBuffer
      → StreamPlayout D R E F S
      → Option (JitterBuffer × StreamPlayout D R E F S × Option Bool)
  unfolding next_frame count_frame
  pull jb sp = do r ← next_frame jb sp; some (count_frame r)

  -- The correction taken from the controller.
  unfoldable pub adjusted :
      Adjust → JitterBuffer → StreamPlayout D R E F S → JitterBuffer × StreamPlayout D R E F S
  unfolding Jitter.skip_next
  adjusted Adjust.keep jb sp = (jb, sp)
  adjusted Adjust.drop_one jb sp = ((Jitter.skip_next jb).0, sp)
  adjusted Adjust.insert_one jb sp = (jb, record sp { insert_pending = true })

  unfoldable pub apply_step_adjustment :
      JitterBuffer → StreamPlayout D R E F S → List S → JitterBuffer × StreamPlayout D R E F S
  unfolding Playout.take_adjustment adjusted
  apply_step_adjustment jb sp out =
      let (c, adjust) = Playout.take_adjustment sp.controller in
      if dsp.is_quiet out then adjusted adjust jb (record sp { controller = c }) else (jb, sp)

  -- A round of the staging loop, behind the pull.
  unfoldable pub resample : StreamPlayout D R E F S → Option (StreamPlayout D R E F S)
  unfolding Fifo.push
  resample sp = do
    let (resampler, samples) = dsp.process sp.resampler (take sp.frame sp.decode_buf)
    (staging, _) ← Fifo.push sp.staging samples
    some (record sp { resampler = resampler; staging = staging })

  -- The loop of `tick_resampled`, for so many rounds.
  unfoldable pub stage : ℕ → JitterBuffer → StreamPlayout D R E F S → Staged D R E F S
  unfolding pull resample
  stage zero jb sp = if ltb sp.staging.len sp.frame then Staged.no_fuel else Staged.ready jb sp
  stage (suc fuel) jb sp =
      if ltb sp.staging.len sp.frame
      then elim (pull jb sp) [
        | none ↦ Staged.panic
        | some (jb', sp', none) ↦ Staged.outage jb' sp'
        | some (jb', sp', some _) ↦ elim (resample sp') [
          | none ↦ Staged.panic
          | some sp'' ↦ stage fuel jb' sp''
        ]
      ]
      else Staged.ready jb sp

  -- The loop of `reset_stream`, for so many rounds.
  unfoldable pub drain : ℕ → SampleFifo S → Option (SampleFifo S)
  unfolding Fifo.is_empty Fifo.pop
  drain zero staging = if Fifo.is_empty staging then some staging else none
  drain (suc fuel) staging =
      if Fifo.is_empty staging
      then some staging
      else elim (Fifo.pop staging (min staging.len max_frame_samples)) [
        | none ↦ none
        | some (staging', _) ↦ drain fuel staging'
      ]

  -- The fuel is the number of staged samples.
  unfoldable pub reset_stream : StreamPlayout D R E F S → Option (StreamPlayout D R E F S)
  unfolding drain Playout.reset
  reset_stream sp = do
    staging ← drain sp.staging.len sp.staging
    some (record sp {
      controller = Playout.reset sp.controller;
      insert_pending = false;
      staging = staging;
      resampler = dsp.set_ratio dsp.new_resampler (dsp.drift_ratio sp.drift);
    })

  -- The frame is silence.
  abbrev pub silent : JitterBuffer → StreamPlayout D R E F S → ℕ → Ticked D R E F S
  silent jb sp out_len = record {
    jb = jb;
    stream = sp;
    out = replicate out_len dsp.silence;
    live = false;
  }

  abbrev pub played : JitterBuffer → StreamPlayout D R E F S → List S → Ticked D R E F S
  played jb sp out =
      let (jb', sp') = apply_step_adjustment jb sp out in
      record { jb = jb'; stream = sp'; out = out; live = true }

  -- `out` has `out_len` samples, and what it held is overwritten.
  unfoldable pub tick_stepped :
      JitterBuffer → StreamPlayout D R E F S → (out_len : ℕ) → Option (Ticked D R E F S)
  unfolding pull apply_step_adjustment
  tick_stepped jb sp out_len = if not (out_len == sp.frame) then none else elim (pull jb sp) [
    | none ↦ none
    | some (jb', sp', none) ↦ some (silent jb' sp' out_len)
    | some (jb', sp', some _) ↦ some (played jb' sp' (take sp'.frame sp'.decode_buf))
  ]

  -- `tick_resampled` behind its loop; to find too few samples staged trips the assertion.
  unfoldable pub leave : Staged D R E F S → (out_len : ℕ) → Option (Ticked D R E F S)
  unfolding reset_stream Fifo.pop apply_step_adjustment
  leave Staged.panic out_len = none
  leave Staged.no_fuel out_len = none
  leave (Staged.outage jb sp) out_len = do sp' ← reset_stream sp; some (silent jb sp' out_len)
  leave (Staged.ready jb sp) out_len = elim (Fifo.pop sp.staging out_len) [
    | none ↦ none
    | some (staging, none) ↦ none
    | some (staging, some out) ↦ some (played jb (record sp { staging = staging }) out)
  ]

  -- The resampler after the controller's update.
  unfoldable pub steered : JitterBuffer → StreamPlayout D R E F S → StreamPlayout D R E F S
  unfolding Jitter.depth
  steered jb sp =
      let (drift, ratio) =
        dsp.drift_update sp.drift (wrap_i32 (Jitter.depth jb -ℤ sp.controller.target)) in
      record sp { drift = drift; resampler = dsp.set_ratio sp.resampler ratio }

  -- The fuel is the length of the frame.
  unfoldable pub tick_resampled :
      JitterBuffer → StreamPlayout D R E F S → (out_len : ℕ) → Option (Ticked D R E F S)
  unfolding steered stage leave
  tick_resampled jb sp out_len = leave (stage sp.frame jb (steered jb sp)) out_len

  -- `tick` once the controller has been asked.
  unfoldable pub tick_primed :
      Bool → JitterBuffer → StreamPlayout D R E F S → (out_len : ℕ) → Option (Ticked D R E F S)
  unfolding tick_resampled tick_stepped
  tick_primed false jb sp out_len = some (silent jb sp out_len)
  tick_primed true jb sp out_len =
      if sp.drift_enabled then tick_resampled jb sp out_len else tick_stepped jb sp out_len

  unfoldable pub tick :
      JitterBuffer → StreamPlayout D R E F S → (out_len : ℕ) → Option (Ticked D R E F S)
  unfolding Playout.pre_pop Jitter.depth Jitter.is_started tick_primed
  tick jb sp out_len =
      let (c, primed) = Playout.pre_pop sp.controller (Jitter.depth jb) (Jitter.is_started jb) in
      tick_primed primed jb (record sp { controller = c }) out_len
