-- ===== src/Protocol/Packet/Tests.antt =====
-- Runs of the wire format, and its theorems at concrete packets.
use online_jam.Prelude.{◌≡◌, ◌≢◌, refl, [], ◌∷◌, none, some, arith, Bytes, replicate}
use online_jam.Protocol.{max_datagram}
use online_jam.Protocol.Packet.Accept.{accepted, IsNewest, accepted-IsNewest}
use online_jam.Protocol.Packet.Layout.{sent}
use online_jam.Protocol.Packet.Outcome.{
  err, panic, truncated, bad_magic, trailing_bytes, bad_version,
}
use online_jam.Protocol.Packet.Parse
use online_jam.Protocol.Packet.Parse.{be_at}
use online_jam.Protocol.Packet.Parse.Body
use online_jam.Protocol.Packet.Parse.Total.{datagram-ne-panic}
use online_jam.Protocol.Packet.Reader
use online_jam.Protocol.Packet.Reader.{slice}
use online_jam.Protocol.Packet.Endian.{to_be, from_be, from_be_acc}
use online_jam.Protocol.Packet.RoundTrip.{Delivered, datagram-control-write, datagram-audio-write}
use online_jam.Protocol.Packet.Text.{is_utf8}
use online_jam.Protocol.Packet.Text.{floor_boundary, is_char_boundary}
use online_jam.Protocol.Packet.Types.{
  PacketType, Codec, Header, AudioPacket, Control, Payload, ptype_code, ptype_from, packet_type,
}
use online_jam.Protocol.Packet.Write
use online_jam.Protocol.Packet.Writer
use online_jam.Protocol.Packet.Writer.{copy_at}

abbrev blank : Bytes
blank = replicate 2048 0

abbrev host_name : Bytes
host_name = 0x68 ∷ 0xc3 ∷ 0xb6 ∷ []

abbrev roster_packet : Control
roster_packet = Control.roster (record { id = 0; name = host_name } ∷ [])

abbrev header_of : PacketType → Header
header_of p = record { ptype = p; session_id = 42; sender_id = 1; seq = 65535 }

abbrev audio_packet : AudioPacket
audio_packet = record {
  timestamp = 120;
  codec = Codec.pcm_s16;
  payload = 1 ∷ 2 ∷ [];
  redundant = some (3 ∷ []);
}

roster_bytes :
    Write.control roster_packet (header_of PacketType.roster) (replicate 15 0)
    ≡ some (0xa5 ∷ 0x17 ∷ 0 ∷ 42 ∷ 0 ∷ 1 ∷ 255 ∷ 255 ∷ 1 ∷ 0 ∷ 0 ∷ 3 ∷ 0x68 ∷ 0xc3 ∷ 0xb6 ∷ [], 15)
unfolding Write.control Write.header Write.body Writer.players Writer.each_player Writer.string
    Writer.clip Writer.u8 Writer.u16 Writer.bytes copy_at to_be ptype_code floor_boundary
    is_char_boundary
roster_bytes = refl

-- One byte too few, and the write panics.
roster_panics : Write.control roster_packet (header_of PacketType.roster) (replicate 14 0) ≡ none
unfolding Write.control Write.header Write.body Writer.players Writer.each_player Writer.string
    Writer.clip Writer.u8 Writer.u16 Writer.bytes copy_at to_be ptype_code floor_boundary
    is_char_boundary
roster_panics = refl

parse_errors :
    (Parse.datagram (0xa5 ∷ 0x18 ∷ []) ≡ err truncated)
    × (Parse.datagram (0xa4 ∷ 0x18 ∷ 0 ∷ 0 ∷ 0 ∷ 0 ∷ 0 ∷ 0 ∷ []) ≡ err bad_magic)
    × (Parse.datagram (0xa5 ∷ 0x28 ∷ 0 ∷ 0 ∷ 0 ∷ 0 ∷ 0 ∷ 0 ∷ []) ≡ err (bad_version 2))
    × (Parse.datagram (0xa5 ∷ 0x18 ∷ 0 ∷ 0 ∷ 0 ∷ 0 ∷ 0 ∷ 0 ∷ 9 ∷ []) ≡ err trailing_bytes)
unfolding Parse.datagram Parse.header Parse.payload Body.control Body.whole Body.fields be_at slice
    from_be from_be_acc ptype_from Reader.finish
parse_errors = (refl, refl, refl, refl)

datagram-control-write_example :
    Delivered max_datagram
      (Write.control roster_packet (header_of PacketType.roster) blank)
      (header_of PacketType.roster)
      (Payload.control (sent roster_packet))
unfolding is_utf8 packet_type
datagram-control-write_example =
    datagram-control-write roster_packet (header_of PacketType.roster) blank
      (omega arith, ((omega arith, refl), tt))
      (record { session = omega arith; sender = omega arith; seq = omega arith }) refl refl

datagram-audio-write_example :
    Delivered max_datagram
      (Write.audio audio_packet (header_of PacketType.audio) blank)
      (header_of PacketType.audio)
      (Payload.audio audio_packet)
datagram-audio-write_example =
    datagram-audio-write audio_packet (header_of PacketType.audio) blank (omega arith) (omega arith)
      (omega arith) (record { session = omega arith; sender = omega arith; seq = omega arith }) refl
      refl

accepted-IsNewest_example :
    IsNewest (some 65535) (1 ∷ 1 ∷ 0 ∷ 3 ∷ 2 ∷ []) (accepted (some 65535) (1 ∷ 1 ∷ 0 ∷ 3 ∷ 2 ∷ []))
accepted-IsNewest_example =
    accepted-IsNewest (some 65535) (1 ∷ 1 ∷ 0 ∷ 3 ∷ 2 ∷ []) (λ prev e. ground arith)
      (omega arith, (omega arith, (omega arith, (omega arith, (omega arith, tt)))))

datagram-ne-panic_example : Parse.datagram (0xa5 ∷ 0x11 ∷ []) ≢ panic
datagram-ne-panic_example = datagram-ne-panic (0xa5 ∷ 0x11 ∷ [])
