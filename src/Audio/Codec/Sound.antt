-- ===== src/Audio/Codec/Sound.antt =====
-- What the encoder and the decoder of crates/jam-audio/src/codec.rs leave, on every branch.
use online_jam.Prelude.{
  ℕ, ◌*◌, ◌^◌, ◌≤◌, ◌<◌, ◌≡◌, ◌≢◌, refl, inl, inr, true, false, List, ◌++◌, Option, none, some,
  arith, ltb, ◌==◌, Bool-cases, Option-cases, Bytes, length, take, drop, replicate, length-append,
  length-take, length-drop, length-replicate, take-append,
}
use online_jam.Protocol.Packet.Types.{Codec}
use online_jam.Audio.Codec.{
  Codecs, CodecError, Result, AudioEncoder, AudioDecoder, Encoded, Decoded, encode, encode_pcm,
  encode_opus, encode_as, decode, decode_as, decode_pcm, decode_opus, payload_or_empty, pack,
  length-pack, length-unpack, unpack-pack,
}

-- An encoder that has what its codec needs.
abbrev pub IsEncoder : {N : Type 0} → AudioEncoder N → Type 0
IsEncoder en = en.codec ≡ Codec.opus → en.opus ≢ none

abbrev pub IsDecoder : {D : Type 0} → AudioDecoder D → Type 0
IsDecoder de = de.codec ≡ Codec.opus → de.opus ≢ none

-- libopus writes into the slices it is given, and at most 960 octets a frame.
pub record IsCodecs {N D S : Type 0} (lib : Codecs N D S) : Type 0 where
  pub same_out :
      (n : N) (pcm : List S) (out : Bytes) → length (lib.encode_float n pcm out).1 ≡ length out
  pub short :
      (n : N) (pcm : List S) (out : Bytes) (k : ℕ)
      → (lib.encode_float n pcm out).2 ≡ some k
      → k ≤ 960
  pub same_pcm :
      (d : D) (bs : Bytes) (pcm : List S) → length (lib.decode_float d bs pcm).1 ≡ length pcm

-- What a call of the encoder leaves: a frame of at most 960 octets, or an error.
abbrev pub IsResult : Result ℕ → Type 0
IsResult (Result.done k) = k ≤ 960
IsResult (Result.failed e) = Unit

pub record IsEncoded {N : Type 0} (en : AudioEncoder N) (out : Bytes) (e : Encoded N) : Type 0 where
  pub encoder : IsEncoder e.encoder
  pub codec : e.encoder.codec ≡ en.codec
  pub room : length e.out ≡ length out
  pub result : IsResult e.result

module _ {N D S : Type 0} (lib : Codecs N D S) (valid : IsCodecs lib) where
  abbrev Encodes : AudioEncoder N → Bytes → Option (Encoded N) → Type 0
  Encodes en out r = (e : Encoded N) × (r ≡ some e) × IsEncoded en out e

  encode_opus-Encodes :
      (en : AudioEncoder N) (pcm : List S) (out : Bytes)
      → en.opus ≢ none
      → Encodes en out (encode_opus lib en pcm out)
  unfolding encode_opus
  encode_opus-Encodes en pcm out has = elim (Option-cases en.opus) [
    | inl lacks ↦ absurd (has lacks)
    | inr (n, e) ↦
        let r = lib.encode_float n pcm out in
        let size = valid.same_out n pcm out in
        elim (Option-cases r.2) [
          | inl bad ↦ (
            record {
              encoder = record en { opus = some r.0 };
              out = r.1;
              result = Result.failed CodecError.opus;
            },
            rw (e, encode_opus, bad) refl,
            record { encoder = λ o z. ground arith; codec = refl; room = size; result = tt },
          )
          | inr (k, good) ↦ (
            record { encoder = record en { opus = some r.0 }; out = r.1; result = Result.done k },
            rw (e, encode_opus, good) refl,
            record {
              encoder = λ o z. ground arith;
              codec = refl;
              room = size;
              result = valid.short n pcm out k good;
            },
          )
        ]
  ]

  encode_pcm-IsEncoded :
      (size : ℕ) (value : S → ℕ) (en : AudioEncoder N) (pcm : List S) (out : Bytes)
      → IsEncoder en
      → length pcm * size ≤ 960
      → IsEncoded en out (encode_pcm lib size value en pcm out)
  unfolding encode_pcm
  encode_pcm-IsEncoded size value en pcm out has small =
      elim (Bool-cases (ltb (length out) (length pcm * size))) [
        | inl full ↦
            rw (encode_pcm, full) (record { encoder = has; codec = refl; room = refl; result = tt })
        | inr room ↦
            let l0 = length-append (pack size value pcm) (drop (length pcm * size) out) in
            let l1 = length-pack size value pcm in
            let l2 = length-drop (length pcm * size) out in
            rw (encode_pcm, room)
              (record { encoder = has; codec = refl; room = ground arith; result = small })
      ]

  encode_as-Encodes :
      (c : Codec) (en : AudioEncoder N) (pcm : List S) (out : Bytes)
      → IsEncoder en
      → en.codec ≡ c
      → length pcm ≤ 240
      → Encodes en out (encode_as lib c en pcm out)
  unfolding encode_as
  encode_as-Encodes Codec.opus en pcm out has e small = encode_opus-Encodes en pcm out (has e)
  encode_as-Encodes Codec.pcm_s16 en pcm out has e small =
      (_, refl, encode_pcm-IsEncoded 2 lib.quantise en pcm out has (omega arith))
  encode_as-Encodes Codec.pcm_f32 en pcm out has e small =
      (_, refl, encode_pcm-IsEncoded 4 lib.bits en pcm out has (omega arith))

  -- An encoder that has what its codec needs never panics: of a frame of at most 240 samples it makes
  -- at most 960 octets, or it reports an error, and it keeps its codec, the codec's state, and the size
  -- of the output buffer.
  pub encode-Encodes :
      (en : AudioEncoder N) (pcm : List S) (out : Bytes)
      → IsEncoder en
      → length pcm ≤ 240
      → (e : Encoded N) × (encode lib en pcm out ≡ some e) × IsEncoded en out e
  unfolding encode
  encode-Encodes en pcm out has small = encode_as-Encodes en.codec en pcm out has refl small

  abbrev Decodes : AudioDecoder D → List S → Option (Decoded D S) → Type 0
  Decodes de pcm r =
      (d : Decoded D S) × (r ≡ some d)
      × IsDecoder d.decoder
      × (d.decoder.codec ≡ de.codec)
      × (length d.pcm ≡ length pcm)

  decode_opus-Decodes :
      (de : AudioDecoder D) (payload : Option Bytes) (pcm : List S)
      → de.opus ≢ none
      → Decodes de pcm (decode_opus lib de payload pcm)
  unfolding decode_opus
  decode_opus-Decodes de payload pcm has = elim (Option-cases de.opus) [
    | inl lacks ↦ absurd (has lacks)
    | inr (d, e) ↦
        let r = lib.decode_float d (payload_or_empty lib payload) pcm in
        let size = valid.same_pcm d (payload_or_empty lib payload) pcm in
        elim (Option-cases r.2) [
          | inl bad ↦ (
            record {
              decoder = record de { opus = some r.0 };
              pcm = r.1;
              result = Result.failed CodecError.opus;
            },
            rw (e, decode_opus, bad) refl,
            λ o z. ground arith,
            refl,
            size,
          )
          | inr (k, good) ↦ (
            record {
              decoder = record de { opus = some r.0 };
              pcm = take k r.1 ++ replicate (length (drop k r.1)) lib.zero_f;
              result = Result.done tt;
            },
            rw (e, decode_opus, good) refl,
            λ o z. ground arith,
            refl,
            omega (
              arith,
              size,
              length-append (take k r.1) (replicate (length (drop k r.1)) lib.zero_f),
              length-replicate (length (drop k r.1)) lib.zero_f,
              length-take k r.1,
              length-drop k r.1,
            ),
          )
        ]
  ]

  decode_pcm-Decodes :
      (size : ℕ) (value : ℕ → S) (de : AudioDecoder D) (payload : Option Bytes) (pcm : List S)
      → IsDecoder de
      → Decodes de pcm (some (decode_pcm lib size value de payload pcm))
  unfolding decode_pcm
  decode_pcm-Decodes size value de none pcm has =
      (_, refl, has, refl, length-replicate (length pcm) lib.zero_f)
  decode_pcm-Decodes size value de (some bs) pcm has =
      elim (Bool-cases (length bs == length pcm * size)) [
        | inl fits ↦
            rw (decode_pcm, fits) (_, refl, has, refl, length-unpack size value (length pcm) bs)
        | inr bad ↦ rw (decode_pcm, bad) (_, refl, has, refl, refl)
      ]

  decode_as-Decodes :
      (c : Codec) (de : AudioDecoder D) (payload : Option Bytes) (pcm : List S)
      → IsDecoder de
      → de.codec ≡ c
      → Decodes de pcm (decode_as lib c de payload pcm)
  unfolding decode_as
  decode_as-Decodes Codec.opus de payload pcm has e = decode_opus-Decodes de payload pcm (has e)
  decode_as-Decodes Codec.pcm_s16 de payload pcm has e =
      decode_pcm-Decodes 2 lib.dequantise de payload pcm has
  decode_as-Decodes Codec.pcm_f32 de payload pcm has e =
      decode_pcm-Decodes 4 lib.of_bits de payload pcm has

  -- A decoder that has what its codec needs never panics, whatever the packet, and it leaves as many
  -- samples as it was to fill.
  pub decode-Decodes :
      (de : AudioDecoder D) (payload : Option Bytes) (pcm : List S)
      → IsDecoder de
      → (d : Decoded D S) × (decode lib de payload pcm ≡ some d)
        × IsDecoder d.decoder
        × (d.decoder.codec ≡ de.codec)
        × (length d.pcm ≡ length pcm)
  unfolding decode
  decode-Decodes de payload pcm has = decode_as-Decodes de.codec de payload pcm has refl

module _ {N D S : Type 0} (lib : Codecs N D S) (fits : (x : S) → lib.bits x < 2 ^ 32)
    (back : (x : S) → lib.of_bits (lib.bits x) ≡ x) where
  -- PCM of 32-bit floats is bit exact: if `from_bits` inverts `to_bits`, then of each frame for which
  -- the output buffer has room the decoder makes the samples that were encoded.
  pub decode-encode :
      (en : AudioEncoder N) (de : AudioDecoder D) (pcm old : List S) (out : Bytes)
      → en.codec ≡ Codec.pcm_f32
      → de.codec ≡ Codec.pcm_f32
      → length pcm * 4 ≤ length out
      → length old ≡ length pcm
      → (e : Encoded N) × (encode lib en pcm out ≡ some e)
        × (e.result ≡ Result.done (length pcm * 4))
        × (decode lib de (some (take (length pcm * 4) e.out)) old
            ≡ some (record { decoder = de; pcm = pcm; result = Result.done tt }))
  unfolding encode decode encode_as decode_as encode_pcm decode_pcm
  decode-encode en de pcm old out ce cd room same =
      let bs = pack 4 lib.bits pcm in
      let size = length-pack 4 lib.bits pcm in
      let has_room : ltb (length out) (length pcm * 4) ≡ false = ground arith in
      let exact : (length bs == length pcm * 4) ≡ true = ground arith in
      (
        record {
          encoder = en;
          out = bs ++ drop (length pcm * 4) out;
          result = Result.done (length pcm * 4);
        },
        rw (encode, ce, encode_as, encode_pcm, has_room) refl,
        refl,
        rw
            (
              take-append bs (drop (length pcm * 4) out) {n = length pcm * 4} (omega arith),
              decode,
              cd,
              decode_as,
              decode_pcm,
              same,
              exact,
              unpack-pack 4 lib.bits lib.of_bits fits back pcm,
            )
            refl,
      )
