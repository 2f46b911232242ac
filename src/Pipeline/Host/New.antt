-- ===== src/Pipeline/Host/New.antt =====
-- `HostPipeline::new` of crates/jam-core/src/pipeline.rs, and what it makes.
use online_jam.Prelude.{
  ℕ, zero, suc, ◌≤◌, ◌≡◌, refl, ◌⊎◌, inl, inr, Option, none, some, arith, All, replicate,
  length-replicate,
}
use online_jam.Protocol.{max_datagram}
use online_jam.Protocol.Packet.Types.{Codec}
use online_jam.Protocol.Seq
use online_jam.Audio.Codec.{
  Codecs, CodecError, Result, AudioEncoder, AudioDecoder, new_encoder, new_decoder,
}
use online_jam.Audio.Codec.Sound.{IsEncoder}
use online_jam.Audio.Mixer.{Real}
use online_jam.Audio.Playout.{PlayoutController}
use online_jam.Playout
use online_jam.Playout.{Dsp}
use online_jam.Playout.Pull.{IsDsp, new-IsStream}
use online_jam.Pipeline.{EngineParams, new_buffers}
use online_jam.Pipeline.Send.{IsBuffers}
use online_jam.Pipeline.Host.{HostPipeline, assembled, new, new_lane}
use online_jam.Pipeline.Host.Lanes.{IsLane}
use online_jam.Pipeline.Host.Total.{IsHost}

-- A coder is made with what its codec needs, unless libopus refuses.
new_encoder-IsEncoder :
    {N : Type 0} (c : Codec) (n : Option N)
    → (new_encoder c n ≡ Result.failed CodecError.opus)
      ⊎ ((e : AudioEncoder N) × (new_encoder c n ≡ Result.done e) × IsEncoder e × (e.codec ≡ c))
unfolding new_encoder
new_encoder-IsEncoder Codec.opus none = inl refl
new_encoder-IsEncoder Codec.opus (some n) = inr (_, refl, λ o z. ground arith, refl)
new_encoder-IsEncoder Codec.pcm_s16 n = inr (_, refl, λ o z. ground arith, refl)
new_encoder-IsEncoder Codec.pcm_f32 n = inr (_, refl, λ o z. ground arith, refl)

new_decoder-done :
    {D : Type 0} (c : Codec) (d : Option D)
    → (new_decoder c d ≡ Result.failed CodecError.opus)
      ⊎ ((e : AudioDecoder D) × (new_decoder c d ≡ Result.done e))
unfolding new_decoder
new_decoder-done Codec.opus none = inl refl
new_decoder-done Codec.opus (some d) = inr (_, refl)
new_decoder-done Codec.pcm_s16 d = inr (_, refl)
new_decoder-done Codec.pcm_f32 d = inr (_, refl)

pub new_buffers-IsBuffers : IsBuffers new_buffers
new_buffers-IsBuffers = record {
  enc_buf = length-replicate {A = ℕ} 1024 0;
  dgram = length-replicate {A = ℕ} max_datagram 0;
}

replicate-All : {A : Type 0} (P : A → Type 0) (n : ℕ) (a : A) → P a → All P (replicate n a)
replicate-All P zero a h = tt
replicate-All P (suc n) a h = (h, replicate-All P n a h)

module _ {N D R E G F S : Type 0} (real : Real S) (lib : Codecs N D S)
    (dsp : Dsp (AudioDecoder D) R E G F S) (valid : IsDsp dsp) where
  new_lane-IsLane :
      (params : EngineParams) (en : AudioEncoder N) (de : AudioDecoder D) (drift : E)
      (controller : PlayoutController F)
      → IsEncoder en
      → en.codec ≡ params.codec
      → 4 ≤ params.frame_samples
      → params.frame_samples ≤ 240
      → IsLane params params.frame_samples (new_lane real lib dsp params en de drift controller)
  unfolding Playout.new Seq.new
  new_lane-IsLane params en de drift controller has same low high = record {
    playout =
        new-IsStream dsp valid de drift controller params.frame_samples params.jitter_fixed
          params.drift_correction low high;
    frame = refl;
    sender = record {
      encoder = has;
      codec = same;
      seq = omega arith;
      prev = record { buf = length-replicate {A = ℕ} 1024 0; len = omega arith };
    };
  }

  pub assembled-IsHost :
      (params : EngineParams) (en : AudioEncoder N) (de : AudioDecoder D) (drift : E)
      (controller : PlayoutController F)
      → IsEncoder en
      → en.codec ≡ params.codec
      → 4 ≤ params.frame_samples
      → params.frame_samples ≤ 240
      → IsHost (assembled real lib dsp params en de drift controller)
  assembled-IsHost params en de drift controller has same low high = record {
    lanes =
        replicate-All (IsLane params params.frame_samples) 4 _
          (new_lane-IsLane params en de drift controller has same low high);
    count = refl;
    buffers = new_buffers-IsBuffers;
    clock = omega arith;
    high = high;
  }

  -- A new host's pipeline of a legal frame size is well formed, or libopus refused to make a coder.
  new-IsHost :
      (params : EngineParams) (opus_encoder : Option N) (opus_decoder : Option D) (drift : E)
      (controller : PlayoutController F)
      → 4 ≤ params.frame_samples
      → params.frame_samples ≤ 240
      → (new real lib dsp params opus_encoder opus_decoder drift controller
          ≡ Result.failed CodecError.opus)
        ⊎ ((h : HostPipeline N D R E F S) × (new real lib dsp params opus_encoder opus_decoder drift
                controller
              ≡ Result.done h)
            × (h.frame ≡ params.frame_samples)
            × IsHost h)
  unfolding new
  new-IsHost params opus_encoder opus_decoder drift controller low high =
      elim (new_decoder-done params.codec opus_decoder) [
        | inl bad ↦ inl (rw (new, bad) refl)
        | inr (de, made) ↦ elim (new_encoder-IsEncoder params.codec opus_encoder) [
          | inl bad ↦ inl (rw (new, made, bad) refl)
          | inr (en, made', has, same) ↦ inr (
            assembled real lib dsp params en de drift controller,
            rw (new, made, made') refl,
            refl,
            assembled-IsHost params en de drift controller has same low high,
          )
        ]
      ]
