-- ===== src/Audio/Codec/Tests.antt =====
-- Frames of numbers for floats, encoded and decoded.
use online_jam.Prelude.{
  ℕ, zero, suc, ◌%◌, ◌+◌, ◌^◌, ◌≤◌, ◌≡◌, refl, Bool, true, false, List, [], ◌∷◌, none, some, arith,
  Bytes, take, replicate,
}
use online_jam.Protocol.Packet.Types.{Codec}
use online_jam.Audio.Codec.{
  Codecs, Result, AudioEncoder, AudioDecoder, Encoded, encode, encode_as, encode_pcm, decode, pack,
  to_le,
}
use online_jam.Audio.Codec.Sound.{IsCodecs, decode-encode}

-- An Opus that echoes its buffers, at no octet a frame.
abbrev lib : Codecs ℕ ℕ ℕ
lib = record {
  encode_float = λ n pcm out. (n, out, some 0);
  decode_float = λ d bs pcm. (d, pcm, some 0);
  bits = λ x. x % 2 ^ 32;
  of_bits = λ w. w;
  quantise = λ x. x % 2 ^ 16;
  dequantise = λ w. w;
  zero_f = 0;
}

lib-IsCodecs : IsCodecs lib
lib-IsCodecs = record {
  same_out = λ n pcm out. refl;
  short = λ n pcm out k e. ground arith;
  same_pcm = λ d bs pcm. refl;
}

abbrev encoder : AudioEncoder ℕ
encoder = record { codec = Codec.pcm_s16; opus = none }

abbrev decoder : AudioDecoder ℕ
decoder = record { codec = Codec.pcm_s16; opus = none }

abbrev frame : List ℕ
frame = 1 ∷ 2 ∷ 3 ∷ 258 ∷ []

abbrev out : Bytes
out = replicate 10 9

-- The samples' octets, and the buffer's rest.
test_encode :
    encode lib encoder frame out
    ≡ some (record {
      encoder = encoder;
      out = 1 ∷ 0 ∷ 2 ∷ 0 ∷ 3 ∷ 0 ∷ 2 ∷ 1 ∷ 9 ∷ 9 ∷ [];
      result = Result.done 8;
    })
unfolding encode encode_as encode_pcm pack to_le
test_encode = refl

-- Two floats: 0.0 and 1.0, with their bits.
abbrev float_bits : Bool → ℕ
float_bits true = 0x3f800000
float_bits false = 0

abbrev of_float_bits : ℕ → Bool
of_float_bits zero = false
of_float_bits (suc _) = true

abbrev two_floats : Codecs ℕ ℕ Bool
two_floats = record {
  encode_float = λ n pcm out. (n, out, none);
  decode_float = λ d bs pcm. (d, pcm, none);
  bits = float_bits;
  of_bits = of_float_bits;
  quantise = λ x. 0;
  dequantise = λ w. false;
  zero_f = false;
}

float_bits-small : (x : Bool) → float_bits x + 1 ≤ 2 ^ 32
float_bits-small true = omega arith
float_bits-small false = omega arith

float_bits-back : (x : Bool) → of_float_bits (float_bits x) ≡ x
float_bits-back true = refl
float_bits-back false = refl

abbrev en_32 : AudioEncoder ℕ
en_32 = record { codec = Codec.pcm_f32; opus = none }

abbrev de_32 : AudioDecoder ℕ
de_32 = record { codec = Codec.pcm_f32; opus = none }

decode-encode_example :
    (e : Encoded ℕ) × (encode two_floats en_32 (true ∷ false ∷ []) out ≡ some e)
    × (e.result ≡ Result.done 8)
    × (decode two_floats de_32 (some (take 8 e.out)) (false ∷ false ∷ [])
        ≡ some (record { decoder = de_32; pcm = true ∷ false ∷ []; result = Result.done tt }))
decode-encode_example =
    decode-encode two_floats (λ x. omega (arith, float_bits-small x)) float_bits-back en_32 de_32
      (true ∷ false ∷ []) (false ∷ false ∷ []) out refl refl (omega arith) refl
