-- ===== src/Protocol/Packet/Write.antt =====
-- The `write` methods of crates/jam-protocol/src/packet.rs. Each returns the buffer after the call
-- and the datagram's length; `none` is a panic, where the buffer is too small.
pub mod Sound
use Prim.Native.Nat.{bit_or}
use online_jam.Prelude.{ℕ, ◌+◌, ◌*◌, ◌%◌, ◌^◌, List, [], ◌∷◌, Option, none, some, Bytes, length}
use online_jam.Prelude.Options.{◌>>=◌}
use online_jam.Protocol.{magic, protocol_version, u16_mod}
use online_jam.Protocol.Packet.Endian.{to_be}
use online_jam.Protocol.Packet.Types.{
  Header, AudioPacket, Hello, Welcome, Control, ptype_code, codec_code, deny_code,
}
use online_jam.Protocol.Packet.Writer
use online_jam.Protocol.Packet.Writer.{Put, copy_at, nothing, ◌>>◌}

abbrev pub header_len : ℕ
header_len = 8

abbrev pub audio_header_len : ℕ
audio_header_len = 8

abbrev pub audio_flag_redundancy : ℕ
audio_flag_redundancy = 1

abbrev pub version_byte : Header → ℕ
version_byte h = bit_or (protocol_version * 2 ^ 4) (ptype_code h.ptype)

unfoldable pub header : Header → Bytes → Option (Bytes × ℕ)
header h out = do
  out0 ← copy_at out 0 (magic ∷ [])
  out1 ← copy_at out0 1 (version_byte h ∷ [])
  out2 ← copy_at out1 2 (to_be 2 h.session_id)
  out3 ← copy_at out2 4 (to_be 2 h.sender_id)
  out4 ← copy_at out3 6 (to_be 2 h.seq)
  some (out4, header_len)

abbrev pub flags : AudioPacket → ℕ
flags p = elim p.redundant [ none ↦ 0 | some _ ↦ audio_flag_redundancy ]

-- The redundant copy, behind the first `n` bytes.
unfoldable pub redundancy : Option Bytes → Bytes → ℕ → Option (Bytes × ℕ)
redundancy none out n = some (out, n)
redundancy (some red) out n = do
  out0 ← copy_at out n (to_be 2 (length red % u16_mod))
  out1 ← copy_at out0 (n + 2) red
  some (out1, n + 2 + length red)

unfoldable pub audio : AudioPacket → Header → Bytes → Option (Bytes × ℕ)
audio p h out = do
  (out0, n) ← header h out
  out1 ← copy_at out0 n (to_be 4 p.timestamp)
  out2 ← copy_at out1 (n + 4) (codec_code p.codec ∷ [])
  out3 ← copy_at out2 (n + 5) (flags p ∷ [])
  out4 ← copy_at out3 (n + 6) (to_be 2 (length p.payload % u16_mod))
  out5 ← copy_at out4 (n + audio_header_len) p.payload
  redundancy p.redundant out5 (n + audio_header_len + length p.payload)

-- The body of a control packet: the `match` of `Control::write`.
unfoldable pub body : Control → Put
body (Control.hello c) =
    Writer.u8 c.proto_version
    >> Writer.bytes c.room_code
    >> Writer.string c.name
    >> Writer.u8 c.codec_mask
    >> Writer.u8 c.frame_mask
body (Control.welcome c) =
    Writer.u16 c.assigned_id
    >> Writer.u16 c.session_id
    >> Writer.u32 c.sample_rate
    >> Writer.u16 c.frame_samples
    >> Writer.u8 (codec_code c.codec)
    >> Writer.players c.roster
body (Control.deny reason) = Writer.u8 (deny_code reason)
body (Control.ping t1) = Writer.u64 t1
body (Control.pong t1 t2 t3) = Writer.u64 t1 >> Writer.u64 t2 >> Writer.u64 t3
body Control.keepalive = nothing
body (Control.roster players) = Writer.players players
body Control.bye = nothing
body (Control.ack seq type) = Writer.u16 seq >> Writer.u8 type

unfoldable pub control : Control → Header → Bytes → Option (Bytes × ℕ)
control c h out = do
  (out0, n) ← header h out
  w ← body c (record { buf = out0; pos = n })
  some (w.buf, w.pos)
