-- ===== src/Pipeline.antt =====
-- crates/jam-core/src/pipeline.rs: what the pipelines of the host and of a client share, from an
-- encoded frame to its datagram. Meters are left out: what is modelled reads none. `none` is a panic.
pub mod Host
pub mod Client
pub mod Send
pub mod Repair
mod Tests
use online_jam.Prelude.{
  ℕ, ◌+◌, ◌%◌, Bool, List, [], ◌++◌, Option, none, some, ltb, if◌then◌else◌, Bytes, length, take,
  drop, replicate,
}
use online_jam.Prelude.Options.{◌>>=◌}
use online_jam.Prelude.Int.{ℤ}
use online_jam.Protocol.{max_datagram, u32_mod}
use online_jam.Protocol.Packet.Types.{PacketType, Codec, Header, AudioPacket}
use online_jam.Protocol.Packet.Write
use online_jam.Protocol.Seq
use online_jam.Protocol.Seq.{SeqGen}
use online_jam.Audio.{max_frame_bytes}
use online_jam.Audio.Codec
use online_jam.Audio.Codec.{Codecs, AudioEncoder, Encoded, Result}

-- `MonitorMode` and `EngineParams` of crates/jam-core/src/lib.rs.
pub data MonitorMode : Type 0 where
  direct through_mix off : MonitorMode

pub record EngineParams : Type 0 where
  pub sample_rate : ℕ
  pub frame_samples : ℕ
  pub codec : Codec
  pub redundancy : Bool
  pub monitor : MonitorMode
  pub jitter_fixed : Option ℤ
  pub drift_correction : Bool
  pub echo : Bool

pub record PrevFrame : Type 0 where
  pub buf : Bytes
  pub len : ℕ

-- `PrevFrame::new`.
abbrev pub no_frame : PrevFrame
no_frame = record { buf = replicate max_frame_bytes 0; len = 0 }

unfoldable pub store : PrevFrame → Bytes → Option PrevFrame
store prev bytes =
    if ltb (length prev.buf) (length bytes)
    then none
    else some (record { buf = bytes ++ drop (length bytes) prev.buf; len = length bytes })

-- `len` is at most the length of `buf`.
unfoldable pub get : PrevFrame → Option Bytes
get prev = if ltb 0 prev.len then some (take prev.len prev.buf) else none

-- `write_audio_datagram`: `dgram` after it, and the length.
unfoldable pub write_audio_datagram :
    (dgram : Bytes) (session_id sender_id seq timestamp : ℕ)
    → EngineParams
    → (payload : Bytes) → (redundant : Option Bytes) → Option (Bytes × ℕ)
unfolding Write.audio
write_audio_datagram dgram session_id sender_id seq timestamp params payload redundant =
    let header : Header = record {
      ptype = PacketType.audio;
      session_id = session_id;
      sender_id = sender_id;
      seq = seq;
    } in
    let pkt : AudioPacket = record {
      timestamp = timestamp;
      codec = params.codec;
      payload = payload;
      redundant = redundant;
    } in
    Write.audio pkt header dgram

-- What a pipeline keeps for each of its receivers: `encoders[c]`, `seqs[c]` and `prev_enc[c]` at the
-- host, `encoder`, `seq` and `prev_enc` at a client.
pub record Sender (N : Type 0) : Type 0 where
  pub encoder : AudioEncoder N
  pub seq : SeqGen
  pub prev_enc : PrevFrame

-- The two buffers that all frames use.
pub record Buffers : Type 0 where
  pub enc_buf : Bytes
  pub dgram : Bytes

abbrev pub new_buffers : Buffers
new_buffers = record { enc_buf = replicate max_frame_bytes 0; dgram = replicate max_datagram 0 }

-- What a frame leaves, and its datagram, if the encoder made one.
pub record Sent (N : Type 0) : Type 0 where
  pub sender : Sender N
  pub buffers : Buffers
  pub datagram : Option Bytes

-- Nothing is sent.
abbrev pub unsent : {N : Type 0} → Sender N → Buffers → Sent N
unsent s b = record { sender = s; buffers = b; datagram = none }

-- `&bs[..n]`.
abbrev pub slice : Bytes → ℕ → Option Bytes
slice bs n = if ltb (length bs) n then none else some (take n bs)

-- `wrapping_add(n as u32)` on the sample clock.
abbrev pub advance : (clock n : ℕ) → ℕ
advance clock n = (clock + n % u32_mod) % u32_mod

-- The redundant copy that goes with a frame.
abbrev pub redundant_copy : EngineParams → PrevFrame → Option Bytes
redundant_copy params prev = if params.redundancy then get prev else none

-- A frame of `len` octets in `enc_buf` is written, emitted and kept as the previous one.
unfoldable pub transmit :
    {N : Type 0}
    → EngineParams
    → (session_id sender_id clock : ℕ) → Sender N
    → Buffers
    → (len : ℕ) → Option (Sent N)
unfolding write_audio_datagram store get Seq.next
transmit params session_id sender_id clock s b len = do
  payload ← slice b.enc_buf len
  let (seq, seqs) = Seq.next s.seq
  (dgram, dlen) ←
      write_audio_datagram b.dgram session_id sender_id seq clock params payload
        (redundant_copy params s.prev_enc)
  bytes ← slice dgram dlen
  prev ← store s.prev_enc payload
  some (record {
    sender = record { encoder = s.encoder; seq = seqs; prev_enc = prev };
    buffers = record { enc_buf = b.enc_buf; dgram = dgram };
    datagram = some bytes;
  })

-- Behind the encoder: a frame that it refuses is left out.
unfoldable pub after_encode :
    {N : Type 0}
    → EngineParams
    → (session_id sender_id clock : ℕ) → Sender N
    → Buffers
    → Result ℕ
    → Option (Sent N)
unfolding transmit
after_encode params session_id sender_id clock s b (Result.failed _) = some (unsent s b)
after_encode params session_id sender_id clock s b (Result.done len) =
    transmit params session_id sender_id clock s b len

-- Encode, write, emit.
unfoldable pub send :
    {N D S : Type 0}
    → Codecs N D S
    → EngineParams
    → (session_id sender_id clock : ℕ) → List S
    → Sender N
    → Buffers
    → Option (Sent N)
unfolding Codec.encode after_encode
send lib params session_id sender_id clock pcm s b = do
  e ← Codec.encode lib s.encoder pcm b.enc_buf
  after_encode params session_id sender_id clock (record s { encoder = e.encoder })
      (record b { enc_buf = e.out }) e.result
