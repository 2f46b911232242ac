-- ===== src/Pipeline/Host.antt =====
-- `HostPipeline` of crates/jam-core/src/pipeline.rs. What its arrays hold for one client is a `Lane`.
-- The sample buffers are written before they are read in each tick, and are values here. The gains
-- and the monitor gain of `HostShared` are arguments.
pub mod Emits
pub mod Lanes
pub mod New
pub mod Total
use online_jam.Prelude.{
  ℕ, zero, suc, Bool, true, false, not, ◌&&◌, List, [], ◌∷◌, ◌++◌, Option, none, some, ltb, ◌==◌,
  if◌then◌else◌, Bytes, length, get_or, replicate, map,
}
use online_jam.Prelude.Options.{◌>>=◌}
use online_jam.Protocol.{max_clients, host_sender_id}
use online_jam.Protocol.Seq
use online_jam.Audio.{max_frame_samples}
use online_jam.Audio.Codec
use online_jam.Audio.Codec.{Codecs, CodecError, AudioEncoder, AudioDecoder, Result}
use online_jam.Audio.Mixer
use online_jam.Audio.Mixer.{Real, SmoothedGain, one, zero_f, zip_into}
use online_jam.Audio.Playout.{PlayoutController}
use online_jam.Playout
use online_jam.Playout.{Dsp, StreamPlayout}
use online_jam.Session.{StreamShared, HostShared, any_solo, in_mix}
use online_jam.Pipeline.{
  MonitorMode, EngineParams, Sender, Buffers, Sent, no_frame, new_buffers, unsent, advance, send,
}

pub record Lane (N D R E F S : Type 0) : Type 0 where
  pub playout : StreamPlayout (AudioDecoder D) R E F S
  pub sender : Sender N
  pub smoother : SmoothedGain S
  pub last_active : Bool

-- `self_smoother` is `smoothers[0]`.
pub record HostPipeline (N D R E F S : Type 0) : Type 0 where
  pub frame : ℕ
  pub params : EngineParams
  pub lanes : List (Lane N D R E F S)
  pub self_smoother : SmoothedGain S
  pub monitor_smoother : SmoothedGain S
  pub buffers : Buffers
  pub sample_clock : ℕ

-- A lane once its frame is pulled, with its stream.
pub record Pulled (N D R E F S : Type 0) : Type 0 where
  pub stream : StreamShared
  pub lane : Lane N D R E F S
  pub decoded : List S

-- A lane once its frame is scaled.
pub record Voice (N D R E F S : Type 0) : Type 0 where
  pub lane : Lane N D R E F S
  pub decoded : List S
  pub scaled : List S

-- What the sends of a tick leave.
pub record Sends (N D R E F S : Type 0) : Type 0 where
  pub lanes : List (Lane N D R E F S)
  pub buffers : Buffers
  pub emitted : List (ℕ × Bytes)

pub record HostTick (N D R E F S : Type 0) : Type 0 where
  pub shared : HostShared
  pub pipeline : HostPipeline N D R E F S
  pub out : List S
  pub emitted : List (ℕ × Bytes)

-- `emit`, if there is a datagram.
abbrev pub emit : ℕ → Option Bytes → List (ℕ × Bytes) → List (ℕ × Bytes)
emit c none rest = rest
emit c (some bytes) rest = (c, bytes) ∷ rest

module _ {S : Type 0} (real : Real S) where
  -- 2. The smoothed gain of player `p`, 0 where mute or solo exclude it.
  unfoldable pub smoothed :
      HostShared → List S → (any : Bool) → (p : ℕ) → SmoothedGain S → SmoothedGain S
  unfolding in_mix Mixer.next
  smoothed shared gains any p g =
      let incl = if in_mix shared p any then one real else zero_f real in
      Mixer.next real g (real.mul (get_or gains p (zero_f real)) incl)

  -- A frame with the gain and the master trim.
  abbrev pub scaled_by : SmoothedGain S → List S → List S
  scaled_by g xs = map (λ s. real.mul s (real.mul g.current (real.decimal 5 1))) xs

  -- 4. What the host hears, and its monitor gain.
  unfoldable pub host_hears :
      MonitorMode
      → (monitor_gain : S) → (mix scaled_local local_in : List S) → SmoothedGain S
      → SmoothedGain S × List S
  unfolding Mixer.unmix_scaled Mixer.mix_scaled Mixer.next
  host_hears MonitorMode.through_mix monitor_gain mix scaled_local local_in g = (g, mix)
  host_hears MonitorMode.off monitor_gain mix scaled_local local_in g =
      (g, Mixer.unmix_scaled real mix scaled_local (one real))
  host_hears MonitorMode.direct monitor_gain mix scaled_local local_in g =
      let g' = Mixer.next real g monitor_gain in
      (
        g',
        Mixer.mix_scaled real (Mixer.unmix_scaled real mix scaled_local (one real)) local_in
            g'.current,
      )

module _ {N D R E F S : Type 0} (real : Real S) where
  -- The clients' frames, from player `p` on, are added to the mix.
  unfoldable pub mix_lanes :
      HostShared
      → List S
      → (any : Bool) → (p : ℕ) → (mix : List S) → List (Pulled N D R E F S)
      → List S × List (Voice N D R E F S)
  unfolding smoothed zip_into
  mix_lanes shared gains any p mix [] = (mix, [])
  mix_lanes shared gains any p mix (v ∷ vs) =
      let g = smoothed real shared gains any p v.lane.smoother in
      let scaled = scaled_by real g v.decoded in
      let mix' = if v.lane.last_active then zip_into real.add mix scaled else mix in
      let (whole, voices) = mix_lanes shared gains any (suc p) mix' vs in
      (
        whole,
        record { lane = record v.lane { smoother = g }; decoded = v.decoded; scaled = scaled }
            ∷ voices,
      )

  -- 3. What client `c` hears: the mix without itself, or its own frame.
  unfoldable pub heard_by : EngineParams → (mix : List S) → Voice N D R E F S → List S
  unfolding Mixer.unmix_scaled Mixer.soft_clip_buf
  heard_by params mix v =
      Mixer.soft_clip_buf real
        (if params.echo then v.decoded else Mixer.unmix_scaled real mix v.scaled (one real))

module _ {N D R E G F S : Type 0} (real : Real S) (lib : Codecs N D S)
    (dsp : Dsp (AudioDecoder D) R E G F S) where
  abbrev pub new_lane :
      EngineParams → AudioEncoder N → AudioDecoder D → E → PlayoutController F → Lane N D R E F S
  new_lane params encoder decoder drift controller = record {
    playout =
        Playout.new dsp decoder drift controller params.frame_samples params.jitter_fixed
          params.drift_correction;
    sender = record { encoder = encoder; seq = Seq.new; prev_enc = no_frame };
    smoother = Mixer.new real (one real) params.frame_samples params.sample_rate;
    last_active = false;
  }

  -- The pipeline, once its coders are made.
  abbrev pub assembled :
      EngineParams
      → AudioEncoder N
      → AudioDecoder D
      → E
      → PlayoutController F
      → HostPipeline N D R E F S
  assembled params encoder decoder drift controller = record {
    frame = params.frame_samples;
    params = params;
    lanes = replicate max_clients (new_lane params encoder decoder drift controller);
    self_smoother = Mixer.new real (one real) params.frame_samples params.sample_rate;
    monitor_smoother = Mixer.new real (one real) params.frame_samples params.sample_rate;
    buffers = new_buffers;
    sample_clock = 0;
  }

  -- `HostPipeline::new`, given what libopus answers to each of the calls that make a coder, and the
  -- new controllers.
  unfoldable pub new :
      EngineParams
      → Option N
      → Option D
      → E
      → PlayoutController F
      → Result (HostPipeline N D R E F S)
  unfolding Codec.new_encoder Codec.new_decoder
  new params opus_encoder opus_decoder drift controller =
      elim (Codec.new_decoder params.codec opus_decoder) [
        | Result.failed e ↦ Result.failed e
        | Result.done decoder ↦ elim (Codec.new_encoder params.codec opus_encoder) [
          | Result.failed e ↦ Result.failed e
          | Result.done encoder ↦ Result.done (assembled params encoder decoder drift controller)
        ]
      ]

  -- 1. The frame of an active client; a slot that came alive forgets its stale playout first.
  unfoldable pub pull_lane : ℕ → StreamShared → Lane N D R E F S → Option (Pulled N D R E F S)
  unfolding Playout.reset_stream Playout.tick
  pull_lane n stream lane =
      if not stream.active
      then some (record {
        stream = stream;
        lane = record lane { last_active = false };
        decoded = replicate n (zero_f real);
      })
      else do
        playout ←
            if lane.last_active then some lane.playout else Playout.reset_stream dsp lane.playout
        t ← Playout.tick dsp stream.jb playout n
        some (record {
          stream = record stream { jb = t.jb };
          lane = record lane { playout = t.stream; last_active = true };
          decoded = t.out;
        })

  unfoldable pub pull_lanes :
      ℕ → List StreamShared → List (Lane N D R E F S) → Option (List (Pulled N D R E F S))
  unfolding pull_lane
  pull_lanes n streams [] = some []
  pull_lanes n [] (lane ∷ lanes) = none
  pull_lanes n (stream ∷ streams) (lane ∷ lanes) = do
    p ← pull_lane n stream lane
    ps ← pull_lanes n streams lanes
    some (p ∷ ps)

  unfoldable pub send_lanes :
      EngineParams
      → (session_id clock : ℕ) → (mix : List S) → (c : ℕ) → Buffers
      → List (Voice N D R E F S)
      → Option (Sends N D R E F S)
  unfolding heard_by send
  send_lanes params session_id clock mix c b [] =
      some (record { lanes = []; buffers = b; emitted = [] })
  send_lanes params session_id clock mix c b (v ∷ vs) = do
    s ←
        if v.lane.last_active
        then send lib params session_id host_sender_id clock (heard_by real params mix v)
            v.lane.sender b
        else some (unsent v.lane.sender b)
    rest ← send_lanes params session_id clock mix (suc c) s.buffers vs
    some (record rest {
      lanes = record v.lane { sender = s.sender } ∷ rest.lanes;
      emitted = emit c s.datagram rest.emitted;
    })

  -- The tick behind step 1.
  unfoldable pub mix_and_send :
      HostPipeline N D R E F S
      → HostShared
      → (gains : List S) → (monitor_gain : S) → (local_in : List S) → List (Pulled N D R E F S)
      → Option (HostTick N D R E F S)
  unfolding any_solo smoothed mix_lanes send_lanes host_hears Mixer.soft_clip_buf zip_into
  mix_and_send h shared gains monitor_gain local_in ps =
      let shared' = record shared { clients = map (λ p. p.stream) ps } in
      let any = any_solo shared' in
      let g = smoothed real shared' gains any 0 h.self_smoother in
      let scaled_local = scaled_by real g local_in in
      let mix0 = zip_into real.add (replicate h.frame (zero_f real)) scaled_local in
      let (mix, voices) = mix_lanes real shared' gains any 1 mix0 ps in
      elim (send_lanes h.params shared.session_id h.sample_clock mix 0 h.buffers voices) [
        | none ↦ none
        | some s ↦
            let (m, out) =
              host_hears real h.params.monitor monitor_gain mix scaled_local local_in
                h.monitor_smoother in
            some (record {
              shared = shared';
              pipeline = record h {
                lanes = s.lanes;
                self_smoother = g;
                monitor_smoother = m;
                buffers = s.buffers;
                sample_clock = advance h.sample_clock h.frame;
              };
              out = Mixer.soft_clip_buf real out;
              emitted = s.emitted;
            })
      ]

  -- `process_frame`, with `out_len` samples for what the host hears.
  unfoldable pub process_frame :
      HostPipeline N D R E F S
      → HostShared
      → (gains : List S) → (monitor_gain : S) → (local_in : List S) → (out_len : ℕ)
      → Option (HostTick N D R E F S)
  unfolding pull_lanes mix_and_send
  process_frame h shared gains monitor_gain local_in out_len =
      if not (length local_in == h.frame && out_len == h.frame)
      then none
      else if ltb max_frame_samples h.frame
      then none
      else do
        ps ← pull_lanes h.frame shared.clients h.lanes
        mix_and_send h shared gains monitor_gain local_in ps
