-- ===== src/Pipeline/Tests.antt =====
-- Runs of the pipelines, with numbers for floats, PCM frames of four samples, and uses of their
-- theorems.
use online_jam.Prelude.{
  ℕ, ◌+◌, ◌-◌, ◌*◌, ◌/◌, ◌%◌, ◌^◌, ◌≡◌, refl, true, false, List, [], ◌∷◌, none, some, arith, ltb,
  leb, Bytes, length, map, replicate, length-map, length-replicate,
}
use online_jam.Prelude.Int.{pos}
use online_jam.Protocol.Packet.Parse
use online_jam.Protocol.Packet.Parse.{be_at}
use online_jam.Protocol.Packet.Reader.{slice}
use online_jam.Protocol.Packet.Endian.{from_be, from_be_acc}
use online_jam.Protocol.Packet.Types.{Codec, ptype_from, codec_from}
use online_jam.Audio.Codec.{Codecs, AudioEncoder, AudioDecoder}
use online_jam.Audio.Codec.Sound.{IsEncoder, IsCodecs}
use online_jam.Audio.Jitter
use online_jam.Audio.Jitter.Invariant.{new-IsBuffer}
use online_jam.Audio.Mixer.{Real, SmoothedGain}
use online_jam.Audio.Playout as Policy
use online_jam.Playout
use online_jam.Playout.{Dsp, StreamPlayout}
use online_jam.Playout.Pull.{IsDsp, new-IsStream}
use online_jam.Network.Receive.{push_redundant}
use online_jam.Session
use online_jam.Session.{HostShared, ClientShared}
use online_jam.Engine.Output.{IsSource}
use online_jam.Engine.Callback.{host_callback, client_callback}
use online_jam.Engine.Callback.Total.{
  IsHostAudio, IsClientAudio, host_callback-IsSource, client_callback-IsSource,
}
use online_jam.Pipeline.{
  MonitorMode, EngineParams, Sender, Sent, new_buffers, no_frame, redundant_copy, advance, send,
  get,
}
use online_jam.Pipeline.Send.{IsSender, IsBuffers, Steps, Carries, header_of, packet_of, send-Steps}
use online_jam.Pipeline.Repair.{push_redundant-Carries}
use online_jam.Pipeline.Client.{ClientPipeline, ClientTick}
use online_jam.Pipeline.Client as Client
use online_jam.Pipeline.Client.Total.{
  IsClient, IsClientShared, IsClientTick, client_frame-IsClientTick,
}
use online_jam.Pipeline.Host.{
  HostPipeline, HostTick, Pulled, Voice, assembled, heard_by, mix_lanes, new_lane,
}
use online_jam.Pipeline.Host as Host
use online_jam.Pipeline.Host.New.{assembled-IsHost, new_buffers-IsBuffers}
use online_jam.Pipeline.Host.Total.{IsHostShared, IsHostTick, host_frame-IsHostTick}

abbrev real : Real ℕ
real = record {
  add = λ x y. x + y;
  sub = λ x y. x - y;
  mul = λ x y. x * y;
  div = λ x y. x / y;
  neg = λ x. x;
  abs = λ x. x;
  exp = λ x. x;
  sqrt = λ x. x;
  lt = ltb;
  le = leb;
  of_nat = λ n. n;
  decimal = λ n k. n / 10 ^ k;
}

-- An Opus that echoes its buffers, at no octet a frame.
abbrev lib : Codecs ℕ ℕ ℕ
lib = record {
  encode_float = λ n pcm out. (n, out, some 0);
  decode_float = λ d bs pcm. (d, pcm, some 0);
  bits = λ x. x % 2 ^ 32;
  of_bits = λ w. w;
  quantise = λ x. x % 2 ^ 16;
  dequantise = λ w. w;
  zero_f = 0;
}

lib-IsCodecs : IsCodecs lib
lib-IsCodecs = record {
  same_out = λ n pcm out. refl;
  short = λ n pcm out k e. ground arith;
  same_pcm = λ d bs pcm. refl;
}

abbrev dsp : Dsp (AudioDecoder ℕ) ℕ ℕ ℕ ℕ ℕ
dsp = record {
  decode = λ d packet dst. (d, map (λ x. 1) dst, true);
  process = λ r xs. (r, xs);
  new_resampler = 0;
  set_ratio = λ r ratio. ratio;
  drift_update = λ e error. (e, e);
  drift_ratio = λ e. e;
  is_quiet = λ out. false;
  silence = 0;
  jitter_us = λ bits. bits;
  frames_of = λ k jitter_us frame_us. pos ((k * jitter_us + frame_us - 1) / frame_us);
}

dsp-IsDsp : IsDsp dsp
dsp-IsDsp = record {
  decodes = λ d packet dst. length-map (λ x. 1) dst;
  makes = λ r xs low. omega arith;
}

abbrev params : EngineParams
params = record {
  sample_rate = 48000;
  frame_samples = 4;
  codec = Codec.pcm_s16;
  redundancy = true;
  monitor = MonitorMode.direct;
  jitter_fixed = none;
  drift_correction = false;
  echo = false;
}

abbrev encoder : AudioEncoder ℕ
encoder = record { codec = Codec.pcm_s16; opus = none }

abbrev decoder : AudioDecoder ℕ
decoder = record { codec = Codec.pcm_s16; opus = none }

abbrev frame : List ℕ
frame = 1 ∷ 2 ∷ 3 ∷ 258 ∷ []

abbrev controller : Policy.PlayoutController ℕ
controller = Policy.new 83 3 2 3

abbrev sender : Sender ℕ
sender = record { encoder = encoder; seq = record { value = 65535 }; prev_enc = no_frame }

encoder-IsEncoder : IsEncoder encoder
encoder-IsEncoder = λ o z. ground arith

sender-IsSender : IsSender params sender
sender-IsSender = record {
  encoder = encoder-IsEncoder;
  codec = refl;
  seq = omega arith;
  prev = record { buf = length-replicate {A = ℕ} 1024 0; len = omega arith };
}

send-Steps_example :
    (o : Sent ℕ) × (send lib params 7 1 480 frame sender new_buffers ≡ some o)
    × IsSender params o.sender
    × IsBuffers o.buffers
    × Steps lib params 7 1 480 frame sender o.sender new_buffers.enc_buf o.buffers.enc_buf
        o.datagram
send-Steps_example =
    send-Steps lib lib-IsCodecs params 7 1 480 (omega arith) (omega arith) (omega arith) frame
      sender new_buffers (omega arith) sender-IsSender new_buffers-IsBuffers

-- Two frames of an octet, across the wrap of the sequence number and of the clock.
abbrev sender_after : (seq : ℕ) → Bytes → Sender ℕ
sender_after seq payload = record {
  encoder = encoder;
  seq = record { value = seq };
  prev_enc = record { buf = payload; len = length payload };
}

abbrev clock : ℕ
clock = 4294967294

abbrev first_datagram : Bytes
first_datagram =
    0xa5 ∷ 0x10 ∷ 0 ∷ 7 ∷ 0 ∷ 1 ∷ 255 ∷ 255 ∷ 255 ∷ 255 ∷ 255 ∷ 254 ∷ 1 ∷ 0 ∷ 0 ∷ 1 ∷ 5 ∷ []

abbrev second_datagram : Bytes
second_datagram =
    0xa5 ∷ 0x10 ∷ 0 ∷ 7 ∷ 0 ∷ 1 ∷ 0 ∷ 0 ∷ 0 ∷ 0 ∷ 0 ∷ 2 ∷ 1 ∷ 1 ∷ 0 ∷ 1 ∷ 6 ∷ 0 ∷ 1 ∷ 5 ∷ []

first_datagram-Carries : Carries params 7 1 clock sender (sender_after 0 (5 ∷ [])) first_datagram
unfolding Parse.datagram Parse.header Parse.payload Parse.audio Parse.redundancy be_at slice from_be
    from_be_acc ptype_from codec_from get
first_datagram-Carries = record {
  payload = 5 ∷ [];
  size = omega arith;
  reads = refl;
  seq = refl;
  prev = refl;
}

second_datagram-Carries :
    Carries params 7 1
      (advance clock 4)
      (sender_after 0 (5 ∷ []))
      (sender_after 1 (6 ∷ []))
      second_datagram
unfolding Parse.datagram Parse.header Parse.payload Parse.audio Parse.redundancy be_at slice from_be
    from_be_acc ptype_from codec_from get
second_datagram-Carries = record {
  payload = 6 ∷ [];
  size = omega arith;
  reads = refl;
  seq = refl;
  prev = refl;
}

push_redundant-Carries_example :
    push_redundant 4
      (header_of 7 1 0)
      (packet_of params
        (advance clock 4)
        (6 ∷ [])
        (redundant_copy params (sender_after 0 (5 ∷ [])).prev_enc))
      Jitter.new
    ≡ (Jitter.push Jitter.new 65535 clock (5 ∷ [])).0
unfolding first_datagram-Carries second_datagram-Carries
push_redundant-Carries_example =
    push_redundant-Carries params 7 1 clock 4 sender (sender_after 0 (5 ∷ []))
      (sender_after 1 (6 ∷ [])) first_datagram second_datagram first_datagram-Carries
      second_datagram-Carries Jitter.new refl (omega arith) (omega arith) (omega arith)

abbrev gain : SmoothedGain ℕ
gain = record { current = 1; alpha = 0 }

abbrev client : ClientPipeline ℕ ℕ ℕ ℕ ℕ ℕ
client = record {
  frame = 4;
  params = params;
  sender = sender;
  playout = Playout.new dsp decoder 0 controller 4 none false;
  master_smoother = gain;
  monitor_smoother = gain;
  buffers = new_buffers;
  was_joined = false;
  sample_clock = clock;
}

abbrev client_shared : ClientShared
client_shared = record Session.new_client { joined = true; sender_id = 1; session_id = 7 }

client-IsClient : IsClient client
unfolding Playout.new
client-IsClient = record {
  sender = sender-IsSender;
  buffers = new_buffers-IsBuffers;
  playout =
      new-IsStream dsp dsp-IsDsp decoder 0 controller 4 none false (omega arith) (omega arith);
  frame = refl;
  clock = omega arith;
}

client_shared-IsClientShared : IsClientShared client_shared
unfolding Session.new_client Session.new_stream
client_shared-IsClientShared = record {
  session = omega arith;
  sender = omega arith;
  jb = new-IsBuffer;
}

client_frame-IsClientTick_example :
    (t : ClientTick ℕ ℕ ℕ ℕ ℕ ℕ) × (Client.process_frame real lib dsp client client_shared 1 1 frame
        client.frame
      ≡ some t)
    × IsClientTick lib frame client client_shared t
client_frame-IsClientTick_example =
    client_frame-IsClientTick real lib dsp lib-IsCodecs dsp-IsDsp client client_shared 1 1 frame
      client-IsClient client_shared-IsClientShared refl

abbrev host : HostPipeline ℕ ℕ ℕ ℕ ℕ ℕ
host = assembled real lib dsp params encoder decoder 0 controller

abbrev host_shared : HostShared
host_shared = record (Session.new 7) {
  clients = replicate 4 (record Session.new_stream { active = true });
}

host_shared-IsHostShared : IsHostShared host_shared
unfolding Session.new Session.new_stream
host_shared-IsHostShared = record {
  session = omega arith;
  count = refl;
  buffers = (new-IsBuffer, (new-IsBuffer, (new-IsBuffer, (new-IsBuffer, tt))));
}

host_frame-IsHostTick_example :
    (t : HostTick ℕ ℕ ℕ ℕ ℕ ℕ) × (Host.process_frame real lib dsp host host_shared
        (1 ∷ [])
        1
        frame
        host.frame
      ≡ some t)
    × IsHostTick real lib dsp (1 ∷ []) frame host host_shared t
host_frame-IsHostTick_example =
    host_frame-IsHostTick real lib dsp lib-IsCodecs dsp-IsDsp host host_shared (1 ∷ []) 1 frame
      (assembled-IsHost real lib dsp dsp-IsDsp params encoder decoder 0 controller encoder-IsEncoder
        refl (omega arith) (omega arith))
      host_shared-IsHostShared refl

host_callback-IsSource_example :
    IsSource (host_callback real lib dsp 128 (1 ∷ []) 1) (IsHostAudio 4) 4
host_callback-IsSource_example =
    host_callback-IsSource real lib dsp lib-IsCodecs dsp-IsDsp 128 4 (1 ∷ []) 1

client_callback-IsSource_example :
    IsSource (client_callback real lib dsp 128 1 1) (IsClientAudio 4) 4
client_callback-IsSource_example =
    client_callback-IsSource real lib dsp lib-IsCodecs dsp-IsDsp 128 4 1 1
