-- ===== src/Audio/Codec.antt =====
-- crates/jam-audio/src/codec.rs: the encoder and the decoder. libopus and the conversions of f32 are
-- the operations of an interface, `Codecs`: `N` and `D` are libopus' states, `S` is f32. `none` is a
-- panic.
mod Pcm
pub mod Sound
mod Tests
use online_jam.Prelude.{
  ℕ, zero, suc, ◌+◌, ◌*◌, ◌/◌, ◌%◌, Bool, not, List, [], ◌∷◌, ◌++◌, Option, none, some, ltb, ◌==◌,
  if◌then◌else◌, Bytes, length, take, drop, replicate,
}
use online_jam.Protocol.Packet.Types.{Codec}
unfoldable pub use Pcm.*

-- `encode_float` gives the encoder, the output buffer and the length it wrote, or an error;
-- `decode_float` the decoder, the samples and how many it wrote. `bits` and `of_bits` are
-- `f32::to_bits` and its inverse; `quantise` is `(x.clamp(-1.0, 1.0) * i16::MAX as f32) as i16`, as
-- its 16 bits, and `dequantise` is `i16::from_le_bytes(..) as f32 / i16::MAX as f32`.
pub record Codecs (N D S : Type 0) : Type 0 where
  pub encode_float : N → List S → Bytes → N × Bytes × Option ℕ
  pub decode_float : D → Bytes → List S → D × List S × Option ℕ
  pub bits : S → ℕ
  pub of_bits : ℕ → S
  pub quantise : S → ℕ
  pub dequantise : ℕ → S
  pub zero_f : S

pub data CodecError : Type 0 where
  opus output_too_small bad_pcm_length : CodecError

pub data Result (A : Type 0) : Type 0 where
  done : A → Result A
  failed : CodecError → Result A

pub record AudioEncoder (N : Type 0) : Type 0 where
  pub codec : Codec
  pub opus : Option N

pub record AudioDecoder (D : Type 0) : Type 0 where
  pub codec : Codec
  pub opus : Option D

-- The state that libopus makes, if the codec needs one.
abbrev made : {A : Type 0} → Codec → Option A → Result (Option A)
made Codec.opus none = Result.failed CodecError.opus
made Codec.opus (some a) = Result.done (some a)
made _ a = Result.done none

-- `AudioEncoder::new` and `AudioDecoder::new`, given what libopus answers.
unfoldable pub new_encoder : {N : Type 0} → Codec → Option N → Result (AudioEncoder N)
new_encoder codec n = elim (made codec n) [
  | Result.failed e ↦ Result.failed e
  | Result.done o ↦ Result.done (record { codec = codec; opus = o })
]

unfoldable pub new_decoder : {D : Type 0} → Codec → Option D → Result (AudioDecoder D)
new_decoder codec d = elim (made codec d) [
  | Result.failed e ↦ Result.failed e
  | Result.done o ↦ Result.done (record { codec = codec; opus = o })
]

-- What a call of the encoder leaves: the encoder, `out`, and the number of bytes.
pub record Encoded (N : Type 0) : Type 0 where
  pub encoder : AudioEncoder N
  pub out : Bytes
  pub result : Result ℕ

-- What a call of the decoder leaves.
pub record Decoded (D S : Type 0) : Type 0 where
  pub decoder : AudioDecoder D
  pub pcm : List S
  pub result : Result Unit

module _ {N D S : Type 0} (lib : Codecs N D S) where
  -- A PCM branch of `encode`: `size` octets a sample.
  unfoldable pub encode_pcm : (size : ℕ) → (S → ℕ) → AudioEncoder N → List S → Bytes → Encoded N
  unfolding pack
  encode_pcm size value en pcm out =
      let need = length pcm * size in
      if ltb (length out) need
      then record { encoder = en; out = out; result = Result.failed CodecError.output_too_small }
      else record {
        encoder = en;
        out = pack size value pcm ++ drop need out;
        result = Result.done need;
      }

  -- The Opus branch.
  unfoldable pub encode_opus : AudioEncoder N → List S → Bytes → Option (Encoded N)
  encode_opus en pcm out = elim en.opus [
    | none ↦ none
    | some n ↦
        let (n', out', len) = lib.encode_float n pcm out in
        let en' : AudioEncoder N = record en { opus = some n' } in
        some (elim len [
          | none ↦ record { encoder = en'; out = out'; result = Result.failed CodecError.opus }
          | some k ↦ record { encoder = en'; out = out'; result = Result.done k }
        ])
  ]

  -- `encode` by its codec.
  unfoldable pub encode_as : Codec → AudioEncoder N → List S → Bytes → Option (Encoded N)
  unfolding encode_pcm encode_opus
  encode_as Codec.opus en pcm out = encode_opus en pcm out
  encode_as Codec.pcm_s16 en pcm out = some (encode_pcm 2 lib.quantise en pcm out)
  encode_as Codec.pcm_f32 en pcm out = some (encode_pcm 4 lib.bits en pcm out)

  unfoldable pub encode : AudioEncoder N → List S → Bytes → Option (Encoded N)
  unfolding encode_as
  encode en pcm out = encode_as en.codec en pcm out

  -- A PCM branch of `decode`.
  unfoldable pub decode_pcm :
      (size : ℕ) → (ℕ → S) → AudioDecoder D → Option Bytes → List S → Decoded D S
  unfolding unpack
  decode_pcm size value de payload pcm = elim payload [
    | none ↦ record {
      decoder = de;
      pcm = replicate (length pcm) lib.zero_f;
      result = Result.done tt;
    }
    | some bs ↦
        if not (length bs == length pcm * size)
        then record { decoder = de; pcm = pcm; result = Result.failed CodecError.bad_pcm_length }
        else record {
          decoder = de;
          pcm = unpack size value (length pcm) bs;
          result = Result.done tt;
        }
  ]

  abbrev payload_or_empty : Option Bytes → Bytes
  payload_or_empty none = []
  payload_or_empty (some bs) = bs

  -- The Opus branch; the samples behind those written are zeroed.
  unfoldable pub decode_opus : AudioDecoder D → Option Bytes → List S → Option (Decoded D S)
  decode_opus de payload pcm = elim de.opus [
    | none ↦ none
    | some d ↦
        let (d', pcm', len) = lib.decode_float d (payload_or_empty payload) pcm in
        let de' : AudioDecoder D = record de { opus = some d' } in
        some (elim len [
          | none ↦ record { decoder = de'; pcm = pcm'; result = Result.failed CodecError.opus }
          | some k ↦ record {
            decoder = de';
            pcm = take k pcm' ++ replicate (length (drop k pcm')) lib.zero_f;
            result = Result.done tt;
          }
        ])
  ]

  -- `decode` by its codec.
  unfoldable pub decode_as : Codec → AudioDecoder D → Option Bytes → List S → Option (Decoded D S)
  unfolding decode_pcm decode_opus
  decode_as Codec.opus de payload pcm = decode_opus de payload pcm
  decode_as Codec.pcm_s16 de payload pcm = some (decode_pcm 2 lib.dequantise de payload pcm)
  decode_as Codec.pcm_f32 de payload pcm = some (decode_pcm 4 lib.of_bits de payload pcm)

  unfoldable pub decode : AudioDecoder D → Option Bytes → List S → Option (Decoded D S)
  unfolding decode_as
  decode de payload pcm = decode_as de.codec de payload pcm
