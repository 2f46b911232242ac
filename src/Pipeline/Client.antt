-- ===== src/Pipeline/Client.antt =====
-- `ClientPipeline` of crates/jam-core/src/pipeline.rs. The sample buffer is written before it is read
-- in each tick, and is a value here. The gains of `ClientShared` are arguments.
pub mod Total
use online_jam.Prelude.{
  ℕ, Bool, true, false, not, ◌&&◌, List, [], ◌∷◌, Option, none, some, ltb, ◌==◌, if◌then◌else◌,
  Bytes, length, replicate, map,
}
use online_jam.Prelude.Options.{◌>>=◌}
use online_jam.Protocol.Seq
use online_jam.Audio.{max_frame_samples}
use online_jam.Audio.Codec
use online_jam.Audio.Codec.{Codecs, AudioDecoder, Result}
use online_jam.Audio.Mixer
use online_jam.Audio.Mixer.{Real, SmoothedGain, one, zero_f}
use online_jam.Audio.Playout.{PlayoutController}
use online_jam.Playout
use online_jam.Playout.{Dsp, StreamPlayout}
use online_jam.Session.{StreamShared, ClientShared}
use online_jam.Pipeline.{
  MonitorMode, EngineParams, Sender, Buffers, Sent, no_frame, new_buffers, unsent, advance, send,
}

pub record ClientPipeline (N D R E F S : Type 0) : Type 0 where
  pub frame : ℕ
  pub params : EngineParams
  pub sender : Sender N
  pub playout : StreamPlayout (AudioDecoder D) R E F S
  pub master_smoother : SmoothedGain S
  pub monitor_smoother : SmoothedGain S
  pub buffers : Buffers
  pub was_joined : Bool
  pub sample_clock : ℕ

pub record ClientTick (N D R E F S : Type 0) : Type 0 where
  pub shared : ClientShared
  pub pipeline : ClientPipeline N D R E F S
  pub out : List S
  pub emitted : Option Bytes

module _ {S : Type 0} (real : Real S) where
  -- 3. What the player hears, and the monitor gain.
  unfoldable pub player_hears :
      MonitorMode
      → (monitor_gain : S) → (mix local_in : List S) → SmoothedGain S
      → SmoothedGain S × List S
  unfolding Mixer.mix_scaled Mixer.next
  player_hears MonitorMode.direct monitor_gain mix local_in g =
      let g' = Mixer.next real g monitor_gain in (g', Mixer.mix_scaled real mix local_in g'.current)
  player_hears _ monitor_gain mix local_in g = (g, mix)

module _ {N D R E G F S : Type 0} (real : Real S) (lib : Codecs N D S)
    (dsp : Dsp (AudioDecoder D) R E G F S) where
  -- `ClientPipeline::new`, given what libopus answers and the new controllers.
  unfoldable pub new :
      EngineParams
      → Option N
      → Option D
      → E
      → PlayoutController F
      → Result (ClientPipeline N D R E F S)
  unfolding Codec.new_encoder Codec.new_decoder Playout.new Mixer.new Seq.new
  new params opus_encoder opus_decoder drift controller =
      elim (Codec.new_encoder params.codec opus_encoder) [
        | Result.failed e ↦ Result.failed e
        | Result.done encoder ↦ elim (Codec.new_decoder params.codec opus_decoder) [
          | Result.failed e ↦ Result.failed e
          | Result.done decoder ↦ Result.done (record {
            frame = params.frame_samples;
            params = params;
            sender = record { encoder = encoder; seq = Seq.new; prev_enc = no_frame };
            playout =
                Playout.new dsp decoder drift controller params.frame_samples params.jitter_fixed
                  params.drift_correction;
            master_smoother = Mixer.new real (one real) params.frame_samples params.sample_rate;
            monitor_smoother = Mixer.new real (one real) params.frame_samples params.sample_rate;
            buffers = new_buffers;
            was_joined = false;
            sample_clock = 0;
          })
        ]
      ]

  -- A join forgets the playout before it.
  unfoldable pub rejoined :
      ClientPipeline N D R E F S → (joined : Bool) → Option (ClientPipeline N D R E F S)
  unfolding Playout.reset_stream
  rejoined c joined =
      if not (joined && not c.was_joined) then some (record c { was_joined = joined }) else do
        playout ← Playout.reset_stream dsp c.playout
        some (record c { playout = playout; was_joined = joined })

  -- 1. Upstream.
  unfoldable pub upstream :
      ClientPipeline N D R E F S → ClientShared → (local_in : List S) → Option (Sent N)
  unfolding send
  upstream c shared local_in =
      if shared.joined
      then send lib c.params shared.session_id shared.sender_id c.sample_clock local_in c.sender
          c.buffers
      else some (unsent c.sender c.buffers)

  -- 2. Downstream: the stream, the playout and the samples.
  unfoldable pub downstream :
      ClientPipeline N D R E F S
      → ClientShared
      → Option (StreamShared × StreamPlayout (AudioDecoder D) R E F S × List S)
  unfolding Playout.tick
  downstream c shared =
      if not shared.joined
      then some (shared.from_host, c.playout, replicate c.frame (zero_f real))
      else do
        t ← Playout.tick dsp shared.from_host.jb c.playout c.frame
        some (record shared.from_host { jb = t.jb }, t.stream, t.out)

  -- The tick behind the change of `was_joined`.
  unfoldable pub exchange :
      ClientPipeline N D R E F S
      → ClientShared
      → (master_gain monitor_gain : S) → (local_in : List S) → Option (ClientTick N D R E F S)
  unfolding upstream downstream player_hears Mixer.next Mixer.soft_clip_buf
  exchange c shared master_gain monitor_gain local_in = do
    s ← upstream c shared local_in
    (from_host, playout, decoded) ← downstream c shared
    let g = Mixer.next real c.master_smoother master_gain
    let (m, out) =
        player_hears real c.params.monitor monitor_gain (map (λ x. real.mul x g.current) decoded)
          local_in c.monitor_smoother
    some (record {
      shared = record shared { from_host = from_host };
      pipeline = record c {
        sender = s.sender;
        playout = playout;
        master_smoother = g;
        monitor_smoother = m;
        buffers = s.buffers;
        sample_clock = advance c.sample_clock c.frame;
      };
      out = Mixer.soft_clip_buf real out;
      emitted = s.datagram;
    })

  -- `process_frame`, with `out_len` samples for what the player hears.
  unfoldable pub process_frame :
      ClientPipeline N D R E F S
      → ClientShared
      → (master_gain monitor_gain : S) → (local_in : List S) → (out_len : ℕ)
      → Option (ClientTick N D R E F S)
  unfolding rejoined exchange
  process_frame c shared master_gain monitor_gain local_in out_len =
      if not (length local_in == c.frame && out_len == c.frame)
      then none
      else if ltb max_frame_samples c.frame
      then none
      else do c' ← rejoined c shared.joined; exchange c' shared master_gain monitor_gain local_in
