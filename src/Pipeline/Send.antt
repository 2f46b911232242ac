-- ===== src/Pipeline/Send.antt =====
-- A frame on its way out of a pipeline of crates/jam-core/src/pipeline.rs, up to the receiver's parser.
use online_jam.Prelude.{
  ℕ, ◌^◌, ◌≤◌, ◌<◌, ◌≡◌, refl, ◌∙◌, inl, inr, false, List, ◌++◌, Option, none, some, arith, ltb,
  if◌then◌else◌, Bool-cases, Bytes, length, take, drop, length-append, length-take, length-drop,
  take-append,
}
use online_jam.Protocol.{max_datagram, u32_mod}
use online_jam.Protocol.Packet.Outcome.{ok}
use online_jam.Protocol.Packet.Parse
use online_jam.Protocol.Packet.RoundTrip.{IsCopy, datagram-audio-write}
use online_jam.Protocol.Packet.Types.{PacketType, Header, AudioPacket, Payload}
use online_jam.Protocol.Seq
use online_jam.Protocol.Seq.{wrapping_add}
use online_jam.Audio.Codec
use online_jam.Audio.Codec.{Codecs, AudioEncoder, Result}
use online_jam.Audio.Codec.Sound.{IsEncoder, IsCodecs, IsResult, encode-Encodes}
use online_jam.Pipeline.{
  EngineParams, PrevFrame, Sender, Buffers, Sent, store, get, redundant_copy, unsent, transmit,
  after_encode, send, write_audio_datagram,
}

-- The frame kept for redundancy.
pub record IsPrev (p : PrevFrame) : Type 0 where
  pub buf : length p.buf ≡ 1024
  pub len : p.len ≤ 960

pub record IsSender {N : Type 0} (params : EngineParams) (s : Sender N) : Type 0 where
  pub encoder : IsEncoder s.encoder
  pub codec : s.encoder.codec ≡ params.codec
  pub seq : s.seq.value < 2 ^ 16
  pub prev : IsPrev s.prev_enc

pub record IsBuffers (b : Buffers) : Type 0 where
  pub enc_buf : length b.enc_buf ≡ 1024
  pub dgram : length b.dgram ≡ max_datagram

-- The frame that a datagram of these fields is about.
abbrev pub header_of : (session_id sender_id seq : ℕ) → Header
header_of session_id sender_id seq = record {
  ptype = PacketType.audio;
  session_id = session_id;
  sender_id = sender_id;
  seq = seq;
}

abbrev pub packet_of : EngineParams → (clock : ℕ) → Bytes → Option Bytes → AudioPacket
packet_of params clock payload redundant = record {
  timestamp = clock;
  codec = params.codec;
  payload = payload;
  redundant = redundant;
}

-- A payload as `PrevFrame` gives it back: an empty one is none.
abbrev pub kept : Bytes → Option Bytes
kept payload = if ltb 0 (length payload) then some payload else none

-- The datagram that carries the next frame of a sender: what its receiver reads in it, and the
-- sender behind it.
pub record Carries {N : Type 0} (params : EngineParams) (session_id sender_id clock : ℕ)
    (s s' : Sender N) (datagram : Bytes) : Type 0 where
  pub payload : Bytes
  pub size : length datagram ≤ max_datagram
  pub reads :
      Parse.datagram datagram
      ≡ ok (
        header_of session_id sender_id s.seq.value,
        Payload.audio (packet_of params clock payload (redundant_copy params s.prev_enc)),
      )
  pub seq : s'.seq.value ≡ wrapping_add s.seq.value 1
  pub prev : get s'.prev_enc ≡ kept payload

-- What an encoder's result means for a sender. A frame of `len` octets in `out` goes out in one
-- datagram, as its payload. Of a frame that is refused nothing goes out, and neither the sequence
-- number nor the frame kept for redundancy changes.
abbrev pub Follows :
    {N : Type 0}
    → EngineParams
    → (session_id sender_id clock : ℕ) → (s s' : Sender N) → Result ℕ
    → (out : Bytes) → (datagram : Option Bytes) → Type 0
Follows params session_id sender_id clock s s' (Result.done len) out (some datagram) =
    (c : Carries params session_id sender_id clock s s' datagram) × (c.payload ≡ take len out)
Follows params session_id sender_id clock s s' (Result.failed _) out none =
    (s'.seq ≡ s.seq) × (s'.prev_enc ≡ s.prev_enc)
Follows params session_id sender_id clock s s' _ out _ = ⊥

-- A sender before and after a frame `pcm`, and the encoder's buffer before and after it: the encoder
-- takes or refuses `pcm`, and its result decides on the datagram.
abbrev pub Steps :
    {N D S : Type 0}
    → Codecs N D S
    → EngineParams
    → (session_id sender_id clock : ℕ) → (pcm : List S) → (s s' : Sender N) → (buf buf' : Bytes)
    → Option Bytes
    → Type 0
Steps {N} lib params session_id sender_id clock pcm s s' buf buf' datagram =
    (r : Result ℕ) × (Codec.encode lib s.encoder pcm buf
      ≡ some (record { encoder = s'.encoder; out = buf'; result = r }))
    × Follows params session_id sender_id clock s s' r buf' datagram

-- `Follows` does not read the encoder that the sender had.
Follows-encoder :
    {N : Type 0} (params : EngineParams) (session_id sender_id clock : ℕ) (e : AudioEncoder N)
    (s s' : Sender N) (r : Result ℕ) (out : Bytes) (datagram : Option Bytes)
    → Follows params session_id sender_id clock (record s { encoder = e }) s' r out datagram
    → Follows params session_id sender_id clock s s' r out datagram
Follows-encoder params session_id sender_id clock e s s' (Result.failed _) out none h = h
Follows-encoder params session_id sender_id clock e s s' (Result.done len) out (some datagram)
      (h, same) =
    (
      record { payload = h.payload; size = h.size; reads = h.reads; seq = h.seq; prev = h.prev },
      same,
    )
Follows-encoder params session_id sender_id clock e s s' (Result.failed _) out (some _) h = h
Follows-encoder params session_id sender_id clock e s s' (Result.done _) out none h = h

store-IsPrev :
    (p : PrevFrame) (bs : Bytes)
    → IsPrev p
    → length bs ≤ 960
    → (p' : PrevFrame) × (store p bs ≡ some p') × IsPrev p' × (get p' ≡ kept bs)
unfolding store get
store-IsPrev p bs v small =
    let l0 = length-append bs (drop (length bs) p.buf) in
    let l1 = length-drop (length bs) p.buf in
    let fits : ltb (length p.buf) (length bs) ≡ false = ground (arith, v.buf) in
    (
      record { buf = bs ++ drop (length bs) p.buf; len = length bs },
      rw (store, fits) refl,
      record { buf = omega (arith, v.buf); len = small },
      rw (take-append bs (drop (length bs) p.buf) {n = length bs} refl) refl,
    )

get-IsCopy : (params : EngineParams) (p : PrevFrame) → IsPrev p → IsCopy (redundant_copy params p)
unfolding get
get-IsCopy params p v = elim (Bool-cases params.redundancy) [
  | inr off ↦ rw off tt
  | inl on ↦ elim (Bool-cases (ltb 0 p.len)) [
    | inr empty ↦ rw (on, get, empty) tt
    | inl full ↦ rw (on, get, full) (omega (arith, length-take p.len p.buf, v.len))
  ]
]

module _ {N : Type 0} (params : EngineParams) (session_id sender_id clock : ℕ)
    (session : session_id < 2 ^ 16) (sender : sender_id < 2 ^ 16) (time : clock < u32_mod) where
  -- A frame that comes out of a pipeline behind its encoder: what it leaves is well formed, the
  -- encoder and its buffer are as they were, and the datagram follows from the encoder's result.
  abbrev Sends : Sender N → Buffers → Result ℕ → Option (Sent N) → Type 0
  Sends s b r sent =
      (o : Sent N) × (sent ≡ some o)
      × IsSender params o.sender
      × IsBuffers o.buffers
      × (o.sender.encoder ≡ s.encoder)
      × (o.buffers.enc_buf ≡ b.enc_buf)
      × Follows params session_id sender_id clock s o.sender r b.enc_buf o.datagram

  transmit-Sends :
      (s : Sender N) (b : Buffers) (len : ℕ)
      → IsSender params s
      → IsBuffers b
      → len ≤ 960
      → Sends s b (Result.done len) (transmit params session_id sender_id clock s b len)
  unfolding transmit write_audio_datagram Seq.next
  transmit-Sends s b len v w small =
      let payload = take len b.enc_buf in
      let size = length-take len b.enc_buf in
      let (prev, e, v', back) = store-IsPrev s.prev_enc payload v.prev (omega (arith, size)) in
      let d =
        datagram-audio-write (packet_of params clock payload (redundant_copy params s.prev_enc))
          (header_of session_id sender_id s.seq.value) b.dgram time (omega (arith, size))
          (get-IsCopy params s.prev_enc v.prev)
          (record { session = session; sender = sender; seq = v.seq }) refl w.dgram in
      let fits : ltb (length b.enc_buf) len ≡ false = ground (arith, w.enc_buf) in
      let within : ltb (length d.out) d.size ≡ false = ground (arith, d.room, d.within) in
      (
        record {
          sender = record {
            encoder = s.encoder;
            seq = record { value = wrapping_add s.seq.value 1 };
            prev_enc = prev;
          };
          buffers = record { enc_buf = b.enc_buf; dgram = d.out };
          datagram = some (take d.size d.out);
        },
        rw (transmit, fits, d.returns, within, e) refl,
        record { encoder = v.encoder; codec = v.codec; seq = omega arith; prev = v' },
        record { enc_buf = w.enc_buf; dgram = d.room },
        refl,
        refl,
        (
          record {
            payload = payload;
            size = omega (arith, length-take d.size d.out, d.within);
            reads = d.reads;
            seq = refl;
            prev = back;
          },
          refl,
        ),
      )

  after_encode-Sends :
      (s : Sender N) (b : Buffers) (r : Result ℕ)
      → IsSender params s
      → IsBuffers b
      → IsResult r
      → Sends s b r (after_encode params session_id sender_id clock s b r)
  unfolding after_encode
  after_encode-Sends s b (Result.done len) v w small = transmit-Sends s b len v w small
  after_encode-Sends s b (Result.failed e) v w small =
      (unsent s b, refl, v, w, refl, refl, (refl, refl))

module _ {N D S : Type 0} (lib : Codecs N D S) (valid : IsCodecs lib) (params : EngineParams)
    (session_id sender_id clock : ℕ) (session : session_id < 2 ^ 16) (sender : sender_id < 2 ^ 16)
    (time : clock < u32_mod) where
  -- A sender that is well formed sends each frame of at most 240 samples without a panic, if libopus
  -- keeps to the slices that it is given and to 960 octets a frame. The frame is given to the
  -- sender's encoder, with the buffer, and the sender keeps what the encoder becomes. If the encoder
  -- refuses the frame, no datagram goes out, and neither the sequence number nor the frame kept for
  -- redundancy changes. If it makes a payload, one datagram goes out. A receiver parses it as that
  -- payload, with the session, the sender, the next sequence number, the sample clock and the codec,
  -- and, if and only if redundancy is on and there is one, with the payload before it. The sequence
  -- number then goes up by one, and the payload is the one kept for redundancy, unless it is empty.
  pub send-Steps :
      (pcm : List S) (s : Sender N) (b : Buffers)
      → length pcm ≤ 240
      → IsSender params s
      → IsBuffers b
      → (o : Sent N) × (send lib params session_id sender_id clock pcm s b ≡ some o)
        × IsSender params o.sender
        × IsBuffers o.buffers
        × Steps lib params session_id sender_id clock pcm s o.sender b.enc_buf o.buffers.enc_buf
            o.datagram
  unfolding send
  send-Steps pcm s b small v w =
      let (e, encoded, good) = encode-Encodes lib valid s.encoder pcm b.enc_buf v.encoder small in
      let s' : Sender N = record s { encoder = e.encoder } in
      let b' : Buffers = record b { enc_buf = e.out } in
      let v' : IsSender params s' = record {
        encoder = good.encoder;
        codec = good.codec ∙ v.codec;
        seq = v.seq;
        prev = v.prev;
      } in
      let w' : IsBuffers b' = record { enc_buf = good.room ∙ w.enc_buf; dgram = w.dgram } in
      let (o, out, v2, w2, same, room, follows) =
        after_encode-Sends params session_id sender_id clock session sender time s' b' e.result v'
          w' good.result in
      (
        o,
        rw (send, encoded) out,
        v2,
        w2,
        (
          e.result,
          rw (same, room) encoded,
          rw room (
              Follows-encoder params session_id sender_id clock e.encoder s o.sender e.result e.out
                o.datagram follows),
        ),
      )
