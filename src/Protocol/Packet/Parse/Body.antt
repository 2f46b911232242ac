-- ===== src/Protocol/Packet/Parse/Body.antt =====
-- `Control::parse` of crates/jam-protocol/src/packet.rs.
use online_jam.Prelude.{Bytes}
use online_jam.Protocol.{room_code_len}
use online_jam.Protocol.Packet.Outcome.{Outcome, ok, err, panic, bad_type}
use online_jam.Protocol.Packet.Reader
use online_jam.Protocol.Packet.Reader.{Get, return, lift, ◌>>=◌}
use online_jam.Protocol.Packet.Types.{PacketType, Control, ptype_code, codec_from, deny_from}

-- The `match` of `Control::parse`; the fields are read in order.
unfoldable pub fields : PacketType → Get Control
fields PacketType.audio = lift (err (bad_type (ptype_code PacketType.audio)))
fields PacketType.hello = do
  version ← Reader.u8
  code ← Reader.bytes room_code_len
  name ← Reader.string
  codecs ← Reader.u8
  frames ← Reader.u8
  return (
      Control.hello (record {
        proto_version = version;
        room_code = code;
        name = name;
        codec_mask = codecs;
        frame_mask = frames;
      }))
fields PacketType.welcome = do
  assigned ← Reader.u16
  session ← Reader.u16
  rate ← Reader.u32
  frame ← Reader.u16
  code ← Reader.u8
  codec ← lift (codec_from code)
  players ← Reader.players
  return (
      Control.welcome (record {
        assigned_id = assigned;
        session_id = session;
        sample_rate = rate;
        frame_samples = frame;
        codec = codec;
        roster = players;
      }))
fields PacketType.deny = do
  code ← Reader.u8
  reason ← lift (deny_from code)
  return (Control.deny reason)
fields PacketType.ping = do t1 ← Reader.u64; return (Control.ping t1)
fields PacketType.pong = do
  t1 ← Reader.u64
  t2 ← Reader.u64
  t3 ← Reader.u64
  return (Control.pong t1 t2 t3)
fields PacketType.keepalive = return Control.keepalive
fields PacketType.roster = do players ← Reader.players; return (Control.roster players)
fields PacketType.bye = return Control.bye
fields PacketType.ack = do seq ← Reader.u16; type ← Reader.u8; return (Control.ack seq type)

unfoldable pub whole : PacketType → Get Control
whole ptype = do c ← fields ptype; _ ← Reader.finish; return c

unfoldable pub control : PacketType → Bytes → Outcome Control
control ptype body = elim (whole ptype (record { buf = body; pos = 0 })) [
  | ok (c, r) ↦ ok c
  | err e ↦ err e
  | panic ↦ panic
]
