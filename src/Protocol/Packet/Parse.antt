-- ===== src/Protocol/Packet/Parse.antt =====
-- `Header::parse`, `AudioPacket::parse` and `parse_datagram` of crates/jam-protocol/src/packet.rs.
pub mod Body
pub mod Sound
pub mod Whole
pub mod Total
use Prim.Native.Nat.{bit_and}
use online_jam.Prelude.{
  ℕ, ◌+◌, ◌*◌, ◌/◌, ◌^◌, Bool, List, [], ◌∷◌, Option, none, some, ltb, leb, ◌==◌, if◌then◌else◌,
  not, Bytes, length, drop,
}
use online_jam.Protocol.{magic, protocol_version}
use online_jam.Protocol.Packet.Outcome.{
  Outcome, ok, err, panic, truncated, bad_magic, bad_version, bad_length, trailing_bytes, ensure,
  ◌>>=◌, ◌>>◌,
}
use online_jam.Protocol.Packet.Endian.{from_be}
use online_jam.Protocol.Packet.Reader.{slice}
use online_jam.Protocol.Packet.Types.{
  PacketType, Header, AudioPacket, Control, Payload, ptype_from, codec_from,
}
use online_jam.Protocol.Packet.Write.{header_len, audio_header_len, audio_flag_redundancy}
use Body.{control}

-- `uN::from_be_bytes([buf[at], .., buf[at + k - 1]])`; with `k` 1, `buf[at]`.
unfoldable pub be_at : ℕ → Bytes → ℕ → Outcome ℕ
be_at k buf at = do b ← slice buf at (at + k); ok (from_be b)

unfoldable pub header : Bytes → Outcome (Header × Bytes)
header buf = do
  ensure (leb header_len (length buf)) truncated
  m ← be_at 1 buf 0
  ensure (m == magic) bad_magic
  b ← be_at 1 buf 1
  ensure (b / 2 ^ 4 == protocol_version) (bad_version (b / 2 ^ 4))
  ptype ← ptype_from (bit_and b 0x0f)
  session_id ← be_at 2 buf 2
  sender_id ← be_at 2 buf 4
  seq ← be_at 2 buf 6
  rest ← slice buf header_len (length buf)
  ok (record { ptype = ptype; session_id = session_id; sender_id = sender_id; seq = seq }, rest)

-- The redundant copy, and what is left of `tail`.
unfoldable pub redundancy : Bool → Bytes → Outcome (Option Bytes × Bytes)
redundancy flag tail = if not flag then ok (none, tail) else do
  ensure (leb 2 (length tail)) truncated
  rlen ← be_at 2 tail 0
  tail0 ← slice tail 2 (length tail)
  ensure (leb rlen (length tail0)) bad_length
  red ← slice tail0 0 rlen
  tail1 ← slice tail0 rlen (length tail0)
  ok (some red, tail1)

unfoldable pub audio : Bytes → Outcome AudioPacket
audio body = do
  ensure (leb audio_header_len (length body)) truncated
  timestamp ← be_at 4 body 0
  code ← be_at 1 body 4
  codec ← codec_from code
  flags ← be_at 1 body 5
  plen ← be_at 2 body 6
  rest ← slice body audio_header_len (length body)
  ensure (leb plen (length rest)) bad_length
  payload ← slice rest 0 plen
  tail ← slice rest plen (length rest)
  (redundant, tail0) ← redundancy (not (bit_and flags audio_flag_redundancy == 0)) tail
  ensure (length tail0 == 0) trailing_bytes
  ok (record { timestamp = timestamp; codec = codec; payload = payload; redundant = redundant })

unfoldable pub payload : PacketType → Bytes → Outcome Payload
payload PacketType.audio body = do p ← audio body; ok (Payload.audio p)
payload ptype body = do c ← control ptype body; ok (Payload.control c)

unfoldable pub datagram : Bytes → Outcome (Header × Payload)
datagram buf = do (h, body) ← header buf; p ← payload h.ptype body; ok (h, p)
