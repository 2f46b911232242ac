-- ===== src/Pipeline/Host/Total.antt =====
-- Each tick of the host's pipeline ends: `HostPipeline` of crates/jam-core/src/pipeline.rs.
use online_jam.Prelude.{
  ◌^◌, ◌≤◌, ◌<◌, ◌≡◌, refl, sym, ◌∙◌, true, false, ◌&&◌, List, some, arith, ltb, ◌==◌, All, length,
  map, replicate, length-map, length-replicate,
}
use online_jam.Protocol.{u32_mod}
use online_jam.Audio.Codec.{Codecs, AudioDecoder}
use online_jam.Audio.Codec.Sound.{IsCodecs}
use online_jam.Audio.Mixer
use online_jam.Audio.Mixer.{Real, SmoothedGain, length-zip_into, zip_into, zero_f, one}
use online_jam.Playout.{Dsp}
use online_jam.Playout.Pull.{IsDsp}
use online_jam.Session.{HostShared, any_solo}
use online_jam.Pipeline.{MonitorMode, advance}
use online_jam.Pipeline.Send.{IsBuffers}
use online_jam.Pipeline.Host.{
  HostPipeline, HostTick, Pulled, Voice, smoothed, scaled_by, mix_lanes, heard_by, host_hears,
  pull_lanes, mix_and_send, process_frame,
}
use online_jam.Pipeline.Host.Emits.{send_lanes-Round}
use online_jam.Pipeline.Host.Lanes.{
  IsLanes, Round, Pulls, HasBuffer, pull_lanes-Pulls, mix_lanes-Voices,
}

-- What holds of the host's pipeline between ticks.
pub record IsHost {N D R E F S : Type 0} (h : HostPipeline N D R E F S) : Type 0 where
  pub lanes : IsLanes h.params h.frame h.lanes
  pub count : length h.lanes ≡ 4
  pub buffers : IsBuffers h.buffers
  pub clock : h.sample_clock < u32_mod
  pub high : h.frame ≤ 240

pub record IsHostShared (s : HostShared) : Type 0 where
  pub session : s.session_id < 2 ^ 16
  pub count : length s.clients ≡ 4
  pub buffers : All HasBuffer s.clients

-- The mix of a tick's frames and of the host's own, and each client's voice in it.
abbrev pub mixed :
    {N D R E F S : Type 0}
    → Real S
    → HostPipeline N D R E F S
    → HostShared
    → (gains local_in : List S) → List (Pulled N D R E F S)
    → List S × List (Voice N D R E F S)
mixed real h shared gains local_in ps =
    let any = any_solo shared in
    let own = scaled_by real (smoothed real shared gains any 0 h.self_smoother) local_in in
    mix_lanes real shared gains any 1 (zip_into real.add (replicate h.frame (zero_f real)) own) ps

-- The frames that the clients are to hear.
abbrev pub heard :
    {N D R E F S : Type 0}
    → Real S
    → HostPipeline N D R E F S
    → HostShared
    → (gains local_in : List S) → List (Pulled N D R E F S)
    → List (List S)
heard real h shared gains local_in ps =
    let m = mixed real h shared gains local_in ps in map (heard_by real h.params m.0) m.1

-- What a tick leaves. `pulled` is what comes out of the clients' jitter buffers.
pub record IsHostTick {N D R E G F S : Type 0} (real : Real S) (lib : Codecs N D S)
    (dsp : Dsp (AudioDecoder D) R E G F S) (gains local_in : List S) (h : HostPipeline N D R E F S)
    (shared : HostShared) (t : HostTick N D R E F S) : Type 0 where
  pub pipeline : IsHost t.pipeline
  pub shared_kept : IsHostShared t.shared
  pub out : length t.out ≡ h.frame
  pub frame : t.pipeline.frame ≡ h.frame
  pub clock : t.pipeline.sample_clock ≡ advance h.sample_clock h.frame
  pub pulled : List (Pulled N D R E F S)
  pub pulls : pull_lanes real lib dsp h.frame shared.clients h.lanes ≡ some pulled
  pub streams : t.shared ≡ record shared { clients = map (λ p. p.stream) pulled }
  pub round :
      Round lib h.params shared.session_id h.sample_clock 0 h.buffers.enc_buf shared.clients h.lanes
        t.pipeline.lanes
        (heard real h t.shared gains local_in pulled)
        t.emitted

module _ {S : Type 0} (real : Real S) where
  length-host_hears :
      (m : MonitorMode) (gain : S) (mix scaled_local local_in : List S) (g : SmoothedGain S)
      → length (host_hears real m gain mix scaled_local local_in g).1 ≡ length mix
  unfolding host_hears Mixer.mix_scaled Mixer.unmix_scaled
  length-host_hears MonitorMode.through_mix gain mix scaled_local local_in g = refl
  length-host_hears MonitorMode.off gain mix scaled_local local_in g =
      length-zip_into _ mix scaled_local
  length-host_hears MonitorMode.direct gain mix scaled_local local_in g =
      length-zip_into _ (Mixer.unmix_scaled real mix scaled_local (one real)) local_in
      ∙ length-zip_into _ mix scaled_local

  length-soft_clip_buf : (xs : List S) → length (Mixer.soft_clip_buf real xs) ≡ length xs
  unfolding Mixer.soft_clip_buf
  length-soft_clip_buf xs = length-map (Mixer.soft_clip real) xs

module _ {N D R E G F S : Type 0} (real : Real S) (lib : Codecs N D S)
    (dsp : Dsp (AudioDecoder D) R E G F S) (codecs : IsCodecs lib) (valid : IsDsp dsp) where
  mix_and_send-IsHostTick :
      (h : HostPipeline N D R E F S) (shared : HostShared) (gains : List S) (monitor_gain : S)
      (local_in : List S) (ps : List (Pulled N D R E F S))
      → IsHost h
      → IsHostShared shared
      → All HasBuffer (map (λ p. p.stream) ps)
      → length ps ≡ 4
      → Pulls h.frame shared.clients h.lanes ps
      → pull_lanes real lib dsp h.frame shared.clients h.lanes ≡ some ps
      → (t : HostTick N D R E F S) × (mix_and_send real lib dsp h shared gains monitor_gain local_in
            ps
          ≡ some t)
        × IsHostTick real lib dsp gains local_in h shared t
  unfolding mix_and_send
  mix_and_send-IsHostTick h shared gains monitor_gain local_in ps v w bs count pulls from =
      let shared' : HostShared = record shared { clients = map (λ p. p.stream) ps } in
      let any = any_solo shared' in
      let g = smoothed real shared' gains any 0 h.self_smoother in
      let scaled_local = scaled_by real g local_in in
      let nothing = replicate h.frame (zero_f real) in
      let mix0 = zip_into real.add nothing scaled_local in
      let mixed = mix_lanes real shared' gains any 1 mix0 ps in
      let (size, voices) =
        mix_lanes-Voices real shared' gains any 1 mix0 h.frame shared.clients h.lanes ps pulls in
      let size' : length mixed.0 ≡ h.frame =
        size
        ∙ length-zip_into real.add nothing scaled_local
        ∙ length-replicate h.frame (zero_f real) in
      let (s, e, lanes, kept, b, round) =
        send_lanes-Round real lib dsp codecs h.params shared.session_id h.sample_clock w.session
          v.clock h.frame mixed.0 0 shared.clients h.lanes mixed.1 h.buffers v.high size' voices
          v.lanes v.buffers in
      let heard =
        host_hears real h.params.monitor monitor_gain mixed.0 scaled_local local_in
          h.monitor_smoother in
      (
        record {
          shared = shared';
          pipeline = record h {
            lanes = s.lanes;
            self_smoother = g;
            monitor_smoother = heard.0;
            buffers = s.buffers;
            sample_clock = advance h.sample_clock h.frame;
          };
          out = Mixer.soft_clip_buf real heard.1;
          emitted = s.emitted;
        },
        rw (mix_and_send, e) refl,
        record {
          pipeline = record {
            lanes = lanes;
            count = kept ∙ v.count;
            buffers = b;
            clock = omega arith;
            high = v.high;
          };
          shared_kept = record {
            session = w.session;
            count = length-map (λ p. p.stream) ps ∙ count;
            buffers = bs;
          };
          out =
              length-soft_clip_buf real heard.1
              ∙ length-host_hears real h.params.monitor monitor_gain mixed.0 scaled_local local_in
                  h.monitor_smoother
              ∙ size';
          frame = refl;
          clock = refl;
          pulled = ps;
          pulls = from;
          streams = refl;
          round = round;
        },
      )

  -- Each tick of a well-formed host's pipeline ends without a panic, whatever the jitter buffers hold
  -- and whatever the float computations give, if the decoder fills what it is given, the resampler
  -- makes a sample at least of a frame, and libopus keeps to its slices and to 960 octets a frame. It
  -- gives one frame of samples, moves the sample clock on by a frame, modulo 2 ^ 32, and leaves the
  -- pipeline, its buffers and the jitter buffers well formed. The frames of the slots are pulled
  -- first and mixed with the host's own. Then, in the order of the slots, the frame that `heard_by`
  -- makes of that mix for each active client goes to the client's encoder. If the encoder makes a
  -- payload, that client is sent one datagram that carries it, with the host's sender id, the
  -- session, this tick's timestamp and the sender's next sequence number. If the encoder refuses the
  -- frame, it is sent nothing, and keeps its number. An inactive slot is sent nothing, and its sender
  -- stays as it was.
  pub host_frame-IsHostTick :
      (h : HostPipeline N D R E F S) (shared : HostShared) (gains : List S) (monitor_gain : S)
      (local_in : List S)
      → IsHost h
      → IsHostShared shared
      → length local_in ≡ h.frame
      → (t : HostTick N D R E F S) × (process_frame real lib dsp h shared gains monitor_gain
            local_in h.frame
          ≡ some t)
        × IsHostTick real lib dsp gains local_in h shared t
  unfolding process_frame
  host_frame-IsHostTick h shared gains monitor_gain local_in v w size =
      let sized : (length local_in == h.frame && h.frame == h.frame) ≡ true = ground arith in
      let legal : ltb 240 h.frame ≡ false = ground (arith, v.high) in
      let (ps, e, bs, count, pulls) =
        pull_lanes-Pulls real lib dsp valid h.params h.frame shared.clients h.lanes w.buffers
          v.lanes (w.count ∙ sym v.count) in
      let (t, e', ticked) =
        mix_and_send-IsHostTick h shared gains monitor_gain local_in ps v w bs (count ∙ v.count)
          pulls e in
      (t, rw (process_frame, sized, legal, e) e', ticked)
