-- ===== src/Protocol/Packet/Parse/Whole.antt =====
-- Headers, audio bodies and whole datagrams are read back from the documented bytes.
use Prim.Native.Nat.{bit_and, bit_or}
use online_jam.Prelude.{
  ℕ, ◌+◌, ◌-◌, ◌/◌, ◌^◌, ◌<◌, ◌≡◌, refl, sym, ap, subst, ◌∙◌, [], ◌∷◌, ◌++◌, not, Option, none,
  some, arith, ◌==◌, Bytes, length, take, drop, length-append, take-append, drop-append,
  append_assoc, append-nil,
}
use online_jam.Protocol.{magic, protocol_version}
use online_jam.Protocol.Packet.Outcome.{ok}
use online_jam.Protocol.Packet.Endian.{to_be, length-to_be, from_be-to_be}
use online_jam.Protocol.Packet.Layout
use online_jam.Protocol.Packet.Layout.{IsControl, IsName, IsHeader, IsAudio, IsRedundancy}
use online_jam.Protocol.Packet.Parse.{be_at, header, redundancy, audio, payload, datagram}
use online_jam.Protocol.Packet.Parse.Sound.{control-body, codec_code-lt, codec_from-codec_code}
use online_jam.Protocol.Packet.Parse.Body.{control}
use online_jam.Protocol.Packet.Reader.{slice}
use online_jam.Protocol.Packet.Types.{
  PacketType, Header, AudioPacket, Control, Payload, ptype_code, ptype_from, codec_code,
  packet_type,
}
use online_jam.Protocol.Packet.Write.{version_byte, flags, audio_flag_redundancy}
use online_jam.Protocol.Packet.Write.Sound.{length-header}

-- The part of a buffer between what stands before it and what stands behind it.
slice-middle :
    (pre bs rest : Bytes) {from to : ℕ}
    → from ≡ length pre
    → to ≡ from + length bs
    → slice (pre ++ (bs ++ rest)) from to ≡ ok bs
unfolding slice
slice-middle pre bs rest {from} {to} e e' =
    let total = length-append pre (bs ++ rest) in
    let part = length-append bs rest in
    let cut : take (to - from) (drop from (pre ++ (bs ++ rest))) ≡ bs =
      rw (drop-append pre (bs ++ rest) e) (take-append bs rest (omega arith)) in
    ground (arith, cut)

be_at-middle :
    (k v : ℕ) (pre rest : Bytes) {at : ℕ}
    → v < 256 ^ k
    → at ≡ length pre
    → be_at k (pre ++ (to_be k v ++ rest)) at ≡ ok v
unfolding be_at
be_at-middle k v pre rest {at} fits e =
    rw
      (slice-middle pre (to_be k v) rest {from = at} {to = at + k} e
        (omega (arith, length-to_be k v)))
      (ap ok (from_be-to_be k v fits))

be_at-byte :
    (b : ℕ) (pre rest : Bytes) {at : ℕ}
    → b < 256
    → at ≡ length pre
    → be_at 1 (pre ++ (b ∷ rest)) at ≡ ok b
be_at-byte b pre rest {at} fits e =
    let single : to_be 1 b ≡ b ∷ [] = unfold to_be in ap (λ x. x ∷ []) (omega arith) in
    subst (λ bs. be_at 1 (pre ++ (bs ++ rest)) at ≡ ok b) single
      (be_at-middle 1 b pre rest {at = at} fits e)

slice-end :
    (pre rest : Bytes) {from : ℕ}
    → from ≡ length pre
    → slice (pre ++ rest) from (length (pre ++ rest)) ≡ ok rest
slice-end pre rest {from} e =
    subst (λ x. slice (pre ++ x) from (length (pre ++ x)) ≡ ok rest) (append-nil rest)
      (slice-middle pre rest [] (e)
        (omega (arith, length-append pre (rest ++ []), length-append rest [])))

version_bits :
    (p : PacketType)
    → (bit_or 16 (ptype_code p) < 256)
      × (bit_or 16 (ptype_code p) / 2 ^ 4 ≡ protocol_version)
      × (ptype_from (bit_and (bit_or 16 (ptype_code p)) 0x0f) ≡ ok p)
unfolding ptype_code ptype_from
version_bits PacketType.audio = (omega arith, refl, refl)
version_bits _ = (omega arith, refl, refl)

-- The parts of a header and what follows it, bracketed to the right.
abbrev opened : Header → Bytes → Bytes
opened h rest =
    magic
    ∷ version_byte h
    ∷ (to_be 2 h.session_id ++ (to_be 2 h.sender_id ++ (to_be 2 h.seq ++ rest)))

pub header-Layout :
    (h : Header) (rest : Bytes) → IsHeader h → header (Layout.header h ++ rest) ≡ ok (h, rest)
unfolding header
header-Layout h rest valid =
    subst (λ buf. header buf ≡ ok (h, rest)) regroup
      (ground (
        arith,
        version_bits h.ptype,
        magic_at,
        version_at,
        session_at,
        sender_at,
        seq_at,
        rest_at,
        l0,
        l1,
        l2,
        length-append (to_be 2 h.session_id) (to_be 2 h.sender_id ++ (to_be 2 h.seq ++ rest)),
        length-append (to_be 2 h.sender_id) (to_be 2 h.seq ++ rest),
        length-append (to_be 2 h.seq) rest,
      ))
  where
    regroup : opened h rest ≡ Layout.header h ++ rest
    regroup = simp append_assoc

    l0 : length (to_be 2 h.session_id) ≡ 2
    l0 = length-to_be 2 h.session_id

    l1 : length (to_be 2 h.sender_id) ≡ 2
    l1 = length-to_be 2 h.sender_id

    l2 : length (to_be 2 h.seq) ≡ 2
    l2 = length-to_be 2 h.seq

    magic_at : be_at 1 (opened h rest) 0 ≡ ok magic
    magic_at = be_at-byte magic [] _ {at = 0} (omega arith) refl

    version_at : be_at 1 (opened h rest) 1 ≡ ok (version_byte h)
    version_at = be_at-byte (version_byte h) (magic ∷ []) _ {at = 1} (version_bits h.ptype).0 refl

    session_at : be_at 2 (opened h rest) 2 ≡ ok h.session_id
    session_at =
        be_at-middle 2 h.session_id (magic ∷ version_byte h ∷ []) _ {at = 2} valid.session refl

    sender_at : be_at 2 (opened h rest) 4 ≡ ok h.sender_id
    sender_at =
        be_at-middle 2 h.sender_id (magic ∷ version_byte h ∷ to_be 2 h.session_id)
          (to_be 2 h.seq ++ rest) {at = 4} valid.sender (omega (arith, l0))

    seq_at : be_at 2 (opened h rest) 6 ≡ ok h.seq
    seq_at =
        subst (λ buf. be_at 2 buf 6 ≡ ok h.seq)
          (ap (λ x. magic ∷ version_byte h ∷ x)
            (append_assoc (to_be 2 h.session_id) (to_be 2 h.sender_id) (to_be 2 h.seq ++ rest)))
          (be_at-middle 2 h.seq
            (magic ∷ version_byte h ∷ (to_be 2 h.session_id ++ to_be 2 h.sender_id)) rest {at = 6}
            valid.seq
            (omega (arith, l0, l1, length-append (to_be 2 h.session_id) (to_be 2 h.sender_id))))

    rest_at : slice (opened h rest) 8 (length (opened h rest)) ≡ ok rest
    rest_at =
        subst (λ buf. slice buf 8 (length buf) ≡ ok rest) (sym regroup)
          (slice-end (Layout.header h) rest {from = 8} (sym (length-header h)))

redundancy-Layout :
    (r : Option Bytes)
    → IsRedundancy r
    → redundancy
        (not (
          bit_and (elim r [ none ↦ 0 | some _ ↦ audio_flag_redundancy ]) audio_flag_redundancy
          == 0))
        (Layout.redundancy r)
      ≡ ok (r, [])
unfolding redundancy
redundancy-Layout none valid = refl
redundancy-Layout (some red) valid = ground (
  arith,
  length_at,
  copy_at_two,
  whole,
  nothing_left,
  length-append (to_be 2 (length red)) red,
  length-to_be 2 (length red),
)
  where
    length_at : be_at 2 (to_be 2 (length red) ++ red) 0 ≡ ok (length red)
    length_at = be_at-middle 2 (length red) [] red {at = 0} valid refl

    copy_at_two :
        slice (to_be 2 (length red) ++ red) 2 (length (to_be 2 (length red) ++ red)) ≡ ok red
    copy_at_two =
        slice-end (to_be 2 (length red)) red {from = 2} (omega (arith, length-to_be 2 (length red)))

    whole : slice red 0 (length red) ≡ ok red
    whole = slice-end [] red {from = 0} refl

    nothing_left : slice red (length red) (length red) ≡ ok []
    nothing_left =
        subst (λ bs. slice bs (length red) (length bs) ≡ ok []) (append-nil red)
          (slice-end red [] {from = length red} refl)

pub audio-Layout : (p : AudioPacket) → IsAudio p → audio (Layout.audio p) ≡ ok p
unfolding audio
audio-Layout p valid = ground (
  arith,
  codec_from-codec_code p.codec,
  time_at,
  codec_at,
  flags_at,
  size_at,
  rest_at,
  payload_at,
  tail_at,
  redundancy-Layout p.redundant valid.copy_size,
  lt,
  length-append (to_be 4 p.timestamp) (codec_code p.codec ∷ flags p ∷ (size ++ rest)),
  length-append size rest,
  length-to_be 2 (length p.payload),
  length-append p.payload (Layout.redundancy p.redundant),
)
  where
    rest : Bytes
    rest = p.payload ++ Layout.redundancy p.redundant

    size : Bytes
    size = to_be 2 (length p.payload)

    lt : length (to_be 4 p.timestamp) ≡ 4
    lt = length-to_be 4 p.timestamp

    time_at : be_at 4 (Layout.audio p) 0 ≡ ok p.timestamp
    time_at = be_at-middle 4 p.timestamp [] _ {at = 0} valid.time refl

    codec_at : be_at 1 (Layout.audio p) 4 ≡ ok (codec_code p.codec)
    codec_at =
        be_at-byte (codec_code p.codec) (to_be 4 p.timestamp) (flags p ∷ (size ++ rest)) {at = 4}
          (codec_code-lt p.codec) (omega (arith, lt))

    -- The bytes before the length field, and before the payload.
    to_size : Bytes
    to_size = to_be 4 p.timestamp ++ (codec_code p.codec ∷ flags p ∷ [])

    length_to_size : length to_size ≡ 6
    length_to_size =
        omega (arith, lt, length-append (to_be 4 p.timestamp) (codec_code p.codec ∷ flags p ∷ []))

    at_size : to_size ++ (size ++ rest) ≡ Layout.audio p
    at_size = append_assoc (to_be 4 p.timestamp) (codec_code p.codec ∷ flags p ∷ []) (size ++ rest)

    flags_at : be_at 1 (Layout.audio p) 5 ≡ ok (flags p)
    flags_at =
        subst (λ bs. be_at 1 bs 5 ≡ ok (flags p))
          (append_assoc (to_be 4 p.timestamp) (codec_code p.codec ∷ []) (flags p ∷ (size ++ rest)))
          (be_at-byte (flags p) (to_be 4 p.timestamp ++ codec_code p.codec ∷ []) (size ++ rest)
            {at = 5} (ground arith)
            (omega (arith, lt, length-append (to_be 4 p.timestamp) (codec_code p.codec ∷ []))))

    size_at : be_at 2 (Layout.audio p) 6 ≡ ok (length p.payload)
    size_at =
        subst (λ bs. be_at 2 bs 6 ≡ ok (length p.payload)) at_size
          (be_at-middle 2 (length p.payload) to_size rest {at = 6} valid.size (sym length_to_size))

    rest_at : slice (Layout.audio p) 8 (length (Layout.audio p)) ≡ ok rest
    rest_at =
        subst (λ bs. slice bs 8 (length bs) ≡ ok rest) (append_assoc to_size size rest ∙ at_size)
          (slice-end (to_size ++ size) rest {from = 8} (
            omega (
              arith,
              length_to_size,
              length-append to_size size,
              length-to_be 2 (length p.payload),
            )))

    payload_at : slice rest 0 (length p.payload) ≡ ok p.payload
    payload_at =
        slice-middle [] p.payload (Layout.redundancy p.redundant) {from = 0} {to = length p.payload}
          refl (omega arith)

    tail_at : slice rest (length p.payload) (length rest) ≡ ok (Layout.redundancy p.redundant)
    tail_at = slice-end p.payload (Layout.redundancy p.redundant) {from = length p.payload} refl

payload-control :
    (c : Control) (bs : Bytes)
    → control (packet_type c) bs ≡ ok c
    → payload (packet_type c) bs ≡ ok (Payload.control c)
unfolding payload packet_type
payload-control (Control.hello c) bs e = rw e
payload-control _ bs e = rw e

-- `parse_datagram` reads back the header and either kind of body.
pub datagram-control :
    (h : Header) (c : Control)
    → IsHeader h
    → IsControl IsName c
    → h.ptype ≡ packet_type c
    → datagram (Layout.header h ++ Layout.body c) ≡ ok (h, Payload.control c)
unfolding datagram
datagram-control h c valid valid' e = rw (
  header-Layout h (Layout.body c) valid,
  e,
  payload-control c (Layout.body c) (control-body c valid'),
)

pub datagram-audio :
    (h : Header) (p : AudioPacket)
    → IsHeader h
    → IsAudio p
    → h.ptype ≡ PacketType.audio
    → datagram (Layout.header h ++ Layout.audio p) ≡ ok (h, Payload.audio p)
unfolding datagram payload
datagram-audio h p valid valid' e =
    rw (header-Layout h (Layout.audio p) valid, e, audio-Layout p valid')
