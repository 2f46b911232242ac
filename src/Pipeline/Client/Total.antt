-- ===== src/Pipeline/Client/Total.antt =====
-- Each tick of a client's pipeline ends: `ClientPipeline` of crates/jam-core/src/pipeline.rs.
use online_jam.Prelude.{
  ◌^◌, ◌≤◌, ◌<◌, ◌≡◌, refl, ◌∙◌, inl, inr, Bool, true, false, not, ◌&&◌, List, Option, none, some,
  arith, Bytes, ltb, ◌==◌, Bool-cases, length, map, replicate, length-map, length-replicate,
}
use online_jam.Protocol.{u32_mod}
use online_jam.Audio.Codec.{Codecs, AudioDecoder}
use online_jam.Audio.Codec.Sound.{IsCodecs}
use online_jam.Audio.Jitter.Slots.{IsBuffer}
use online_jam.Audio.Mixer
use online_jam.Audio.Mixer.{Real, SmoothedGain, length-zip_into, zero_f}
use online_jam.Playout.{Dsp, StreamPlayout}
use online_jam.Playout.Pull.{IsDsp, IsStream}
use online_jam.Playout.Stage.{reset_stream-IsStream}
use online_jam.Playout.Total.{tick-Returns}
use online_jam.Session.{StreamShared, ClientShared}
use online_jam.Pipeline.{MonitorMode, Sent, advance, unsent, Sender}
use online_jam.Pipeline.Send.{IsSender, IsBuffers, Steps, send-Steps}
use online_jam.Pipeline.Client.{
  ClientPipeline, ClientTick, rejoined, upstream, downstream, player_hears, exchange, process_frame,
}

-- What holds of a client's pipeline between ticks.
pub record IsClient {N D R E F S : Type 0} (c : ClientPipeline N D R E F S) : Type 0 where
  pub sender : IsSender c.params c.sender
  pub buffers : IsBuffers c.buffers
  pub playout : IsStream c.playout
  pub frame : c.playout.frame ≡ c.frame
  pub clock : c.sample_clock < u32_mod

-- The shared state's numbers are in range.
pub record IsClientShared (s : ClientShared) : Type 0 where
  pub session : s.session_id < 2 ^ 16
  pub sender : s.sender_id < 2 ^ 16
  pub jb : IsBuffer s.from_host.jb

-- What a tick sends: before the join nothing, and then what becomes of the player's frame.
pub record Upstream {N D R E F S : Type 0} (lib : Codecs N D S) (local_in : List S)
    (c : ClientPipeline N D R E F S) (shared : ClientShared) (s' : Sender N) (buf' : Bytes)
    (datagram : Option Bytes) : Type 0 where
  pub silent : shared.joined ≡ false → (datagram ≡ none) × (s' ≡ c.sender)
  pub steps :
      shared.joined ≡ true
      → Steps lib c.params shared.session_id shared.sender_id c.sample_clock local_in c.sender s'
          c.buffers.enc_buf buf' datagram

-- What a tick leaves.
pub record IsClientTick {N D R E F S : Type 0} (lib : Codecs N D S) (local_in : List S)
    (c : ClientPipeline N D R E F S) (shared : ClientShared) (t : ClientTick N D R E F S)
    : Type 0 where
  pub pipeline : IsClient t.pipeline
  pub shared_kept : IsClientShared t.shared
  pub out : length t.out ≡ c.frame
  pub frame : t.pipeline.frame ≡ c.frame
  pub clock : t.pipeline.sample_clock ≡ advance c.sample_clock c.frame
  pub upstream :
      Upstream lib local_in c shared t.pipeline.sender t.pipeline.buffers.enc_buf t.emitted

module _ {S : Type 0} (real : Real S) where
  length-player_hears :
      (m : MonitorMode) (gain : S) (mix local_in : List S) (g : SmoothedGain S)
      → length (player_hears real m gain mix local_in g).1 ≡ length mix
  unfolding player_hears Mixer.mix_scaled
  length-player_hears MonitorMode.direct gain mix local_in g = length-zip_into _ mix local_in
  length-player_hears MonitorMode.through_mix gain mix local_in g = refl
  length-player_hears MonitorMode.off gain mix local_in g = refl

  length-soft_clip_buf : (xs : List S) → length (Mixer.soft_clip_buf real xs) ≡ length xs
  unfolding Mixer.soft_clip_buf
  length-soft_clip_buf xs = length-map (Mixer.soft_clip real) xs

module _ {N D R E G F S : Type 0} (real : Real S) (lib : Codecs N D S)
    (dsp : Dsp (AudioDecoder D) R E G F S) (codecs : IsCodecs lib) (valid : IsDsp dsp) where
  -- All but the playout and the flag is kept.
  rejoined-IsClient :
      (c : ClientPipeline N D R E F S) (joined : Bool)
      → IsClient c
      → (playout : StreamPlayout (AudioDecoder D) R E F S) × (rejoined real lib dsp c joined
          ≡ some (record c { playout = playout; was_joined = joined }))
        × IsStream playout
        × (playout.frame ≡ c.frame)
  unfolding rejoined
  rejoined-IsClient c joined v = elim (Bool-cases (joined && not c.was_joined)) [
    | inr same ↦ (c.playout, rw (rejoined, same) refl, v.playout, v.frame)
    | inl fresh ↦
        let (p, e, v', frame) = reset_stream-IsStream dsp valid c.playout v.playout in
        (p, rw (rejoined, fresh, e) refl, v', frame ∙ v.frame)
  ]

  upstream-Upstream :
      (c : ClientPipeline N D R E F S) (shared : ClientShared) (local_in : List S)
      → IsClient c
      → IsClientShared shared
      → length local_in ≤ 240
      → (o : Sent N) × (upstream real lib dsp c shared local_in ≡ some o)
        × IsSender c.params o.sender
        × IsBuffers o.buffers
        × Upstream lib local_in c shared o.sender o.buffers.enc_buf o.datagram
  unfolding upstream
  upstream-Upstream c shared local_in v w small = elim (Bool-cases shared.joined) [
    | inr out ↦ (
      unsent c.sender c.buffers,
      rw (upstream, out) refl,
      v.sender,
      v.buffers,
      record { silent = λ e. (refl, refl); steps = λ e. absurd (ground arith) },
    )
    | inl joined ↦
        let (o, e, v', w', steps) =
          send-Steps lib codecs c.params shared.session_id shared.sender_id c.sample_clock w.session
            w.sender v.clock local_in c.sender c.buffers small v.sender v.buffers in
        (
          o,
          rw (upstream, joined) e,
          v',
          w',
          record { silent = λ out. absurd (ground arith); steps = λ e. steps },
        )
  ]

  downstream-Returns :
      (c : ClientPipeline N D R E F S) (shared : ClientShared)
      → IsClient c
      → IsClientShared shared
      → (from_host : StreamShared) × (playout : StreamPlayout (AudioDecoder D) R E F S)
        × (decoded : List S) × (downstream real lib dsp c shared
            ≡ some (from_host, playout, decoded))
        × IsBuffer from_host.jb
        × IsStream playout
        × (playout.frame ≡ c.frame)
        × (length decoded ≡ c.frame)
  unfolding downstream
  downstream-Returns c shared v w = elim (Bool-cases shared.joined) [
    | inr out ↦ (
      shared.from_host,
      c.playout,
      replicate c.frame (zero_f real),
      rw (downstream, out) refl,
      w.jb,
      v.playout,
      v.frame,
      length-replicate c.frame (zero_f real),
    )
    | inl joined ↦
        let (t, e, ticked) = tick-Returns dsp valid shared.from_host.jb c.playout w.jb v.playout in
        (
          record shared.from_host { jb = t.jb },
          t.stream,
          t.out,
          rw (downstream, joined, ← v.frame, e) refl,
          ticked.buffer,
          ticked.stream,
          ticked.frame_kept ∙ v.frame,
          ticked.out ∙ v.frame,
        )
  ]

  exchange-IsClientTick :
      (c : ClientPipeline N D R E F S) (shared : ClientShared) (master_gain monitor_gain : S)
      (local_in : List S)
      → IsClient c
      → IsClientShared shared
      → length local_in ≤ 240
      → (t : ClientTick N D R E F S) × (exchange real lib dsp c shared master_gain monitor_gain
            local_in
          ≡ some t)
        × IsClientTick lib local_in c shared t
  unfolding exchange
  exchange-IsClientTick c shared master_gain monitor_gain local_in v w small =
      let (o, e, v', w', sends) = upstream-Upstream c shared local_in v w small in
      let (from_host, playout, decoded, e', b, p, frame, size) = downstream-Returns c shared v w in
      let g = Mixer.next real c.master_smoother master_gain in
      let mix = map (λ x. real.mul x g.current) decoded in
      let heard = player_hears real c.params.monitor monitor_gain mix local_in c.monitor_smoother in
      let l0 = length-map (λ x. real.mul x g.current) decoded in
      let l1 =
        length-player_hears real c.params.monitor monitor_gain mix local_in c.monitor_smoother in
      (
        record {
          shared = record shared { from_host = from_host };
          pipeline = record c {
            sender = o.sender;
            playout = playout;
            master_smoother = g;
            monitor_smoother = heard.0;
            buffers = o.buffers;
            sample_clock = advance c.sample_clock c.frame;
          };
          out = Mixer.soft_clip_buf real heard.1;
          emitted = o.datagram;
        },
        rw (exchange, e, e') refl,
        record {
          pipeline = record {
            sender = v';
            buffers = w';
            playout = p;
            frame = frame;
            clock = omega arith;
          };
          shared_kept = record { session = w.session; sender = w.sender; jb = b };
          out = length-soft_clip_buf real heard.1 ∙ l1 ∙ l0 ∙ size;
          frame = refl;
          clock = refl;
          upstream = sends;
        },
      )

  -- Each tick of a well-formed client's pipeline ends without a panic, whatever its jitter buffer
  -- holds and whatever the float computations give, if the decoder fills what it is given, the
  -- resampler makes a sample at least of a frame, and libopus keeps to its slices and to 960 octets a
  -- frame. It gives one frame of samples, moves the sample clock on by a frame, modulo 2 ^ 32, and
  -- leaves the pipeline, its buffers and the jitter buffer well formed. Before the join it emits
  -- nothing, and its sender stays as it was. After it, the player's frame goes to the encoder: if that
  -- makes a payload, one datagram is emitted that carries it, with the session, the client's id, this
  -- tick's timestamp and the next sequence number; if it refuses the frame, nothing is emitted, and
  -- the number is kept.
  pub client_frame-IsClientTick :
      (c : ClientPipeline N D R E F S) (shared : ClientShared) (master_gain monitor_gain : S)
      (local_in : List S)
      → IsClient c
      → IsClientShared shared
      → length local_in ≡ c.frame
      → (t : ClientTick N D R E F S) × (process_frame real lib dsp c shared master_gain monitor_gain
            local_in c.frame
          ≡ some t)
        × IsClientTick lib local_in c shared t
  unfolding process_frame
  client_frame-IsClientTick c shared master_gain monitor_gain local_in v w size =
      let (playout, e, p, frame) = rejoined-IsClient c shared.joined v in
      let c' : ClientPipeline N D R E F S = record c {
        playout = playout;
        was_joined = shared.joined;
      } in
      let v' : IsClient c' = record {
        sender = v.sender;
        buffers = v.buffers;
        playout = p;
        frame = frame;
        clock = v.clock;
      } in
      let high : c.frame ≤ 240 = omega (arith, v.playout.high, v.frame) in
      let sized : (length local_in == c.frame && c.frame == c.frame) ≡ true = ground arith in
      let legal : ltb 240 c.frame ≡ false = ground arith in
      let (t, e', ticked) =
        exchange-IsClientTick c' shared master_gain monitor_gain local_in v' w (omega arith) in
      (
        t,
        rw (process_frame, sized, legal, e) e',
        record {
          pipeline = ticked.pipeline;
          shared_kept = ticked.shared_kept;
          out = ticked.out;
          frame = ticked.frame;
          clock = ticked.clock;
          upstream = record { silent = ticked.upstream.silent; steps = ticked.upstream.steps };
        },
      )
