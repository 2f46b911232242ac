-- ===== src/Protocol/Packet/Types.antt =====
-- crates/jam-protocol/src/packet.rs: the types of a datagram, and their codes on the wire.
use online_jam.Prelude.{ℕ, Bool, true, false, List, Option, none, some, ◌==◌, if◌then◌else◌, Bytes}
use online_jam.Protocol.Packet.Outcome.{Outcome, ok, err, bad_type, bad_codec, bad_deny_reason}
use online_jam.Protocol.Seq.{newer_than}

pub data PacketType : Type 0 where
  audio hello welcome deny ping pong keepalive roster bye ack : PacketType

pub data Codec : Type 0 where
  opus pcm_s16 pcm_f32 : Codec

pub data DenyReason : Type 0 where
  bad_room_code room_full version_mismatch : DenyReason

-- The discriminants of the `#[repr(u8)]` enums.
unfoldable pub ptype_code : PacketType → ℕ
ptype_code audio = 0
ptype_code hello = 1
ptype_code welcome = 2
ptype_code deny = 3
ptype_code ping = 4
ptype_code pong = 5
ptype_code keepalive = 6
ptype_code roster = 7
ptype_code bye = 8
ptype_code ack = 9

unfoldable pub codec_code : Codec → ℕ
codec_code opus = 0
codec_code pcm_s16 = 1
codec_code pcm_f32 = 2

unfoldable pub deny_code : DenyReason → ℕ
deny_code bad_room_code = 0
deny_code room_full = 1
deny_code version_mismatch = 2

-- `PacketType::try_from`.
unfoldable pub ptype_from : ℕ → Outcome PacketType
ptype_from v =
    if v == 0
    then ok audio
    else if v == 1
    then ok hello
    else if v == 2
    then ok welcome
    else if v == 3
    then ok deny
    else if v == 4
    then ok ping
    else if v == 5
    then ok pong
    else if v == 6
    then ok keepalive
    else if v == 7
    then ok roster
    else if v == 8
    then ok bye
    else if v == 9
    then ok ack
    else err (bad_type v)

-- `Codec::try_from`.
unfoldable pub codec_from : ℕ → Outcome Codec
codec_from v =
    if v == 0
    then ok opus
    else if v == 1
    then ok pcm_s16
    else if v == 2
    then ok pcm_f32
    else err (bad_codec v)

-- `DenyReason::try_from`.
unfoldable pub deny_from : ℕ → Outcome DenyReason
deny_from v =
    if v == 0
    then ok bad_room_code
    else if v == 1
    then ok room_full
    else if v == 2
    then ok version_mismatch
    else err (bad_deny_reason v)

pub record Header : Type 0 where
  pub ptype : PacketType
  pub session_id : ℕ
  pub sender_id : ℕ
  pub seq : ℕ

pub record AudioPacket : Type 0 where
  pub timestamp : ℕ
  pub codec : Codec
  pub payload : Bytes
  pub redundant : Option Bytes

-- A Rust `String` is its UTF-8 bytes.
pub record PlayerInfo : Type 0 where
  pub id : ℕ
  pub name : Bytes

pub record Hello : Type 0 where
  pub proto_version : ℕ
  pub room_code : Bytes
  pub name : Bytes
  pub codec_mask : ℕ
  pub frame_mask : ℕ

pub record Welcome : Type 0 where
  pub assigned_id : ℕ
  pub session_id : ℕ
  pub sample_rate : ℕ
  pub frame_samples : ℕ
  pub codec : Codec
  pub roster : List PlayerInfo

pub data Control : Type 0 where
  hello : Hello → Control
  welcome : Welcome → Control
  deny : DenyReason → Control
  ping : (t1_us : ℕ) → Control
  pong : (t1_us t2_us t3_us : ℕ) → Control
  keepalive : Control
  roster : List PlayerInfo → Control
  bye : Control
  ack : (acked_seq acked_type : ℕ) → Control

unfoldable pub packet_type : Control → PacketType
packet_type (Control.hello _) = PacketType.hello
packet_type (Control.welcome _) = PacketType.welcome
packet_type (Control.deny _) = PacketType.deny
packet_type (Control.ping _) = PacketType.ping
packet_type (Control.pong _ _ _) = PacketType.pong
packet_type Control.keepalive = PacketType.keepalive
packet_type (Control.roster _) = PacketType.roster
packet_type Control.bye = PacketType.bye
packet_type (Control.ack _ _) = PacketType.ack

-- `Payload`, a parsed datagram's body.
pub data Payload : Type 0 where
  audio : AudioPacket → Payload
  control : Control → Payload

-- `AckKey`: a control packet that awaits its ACK.
pub record AckKey : Type 0 where
  pub seq : ℕ
  pub ptype : ℕ

unfoldable pub is_reliable : PacketType → Bool
is_reliable PacketType.hello = true
is_reliable PacketType.welcome = true
is_reliable _ = false

-- The new value of `*last`, and the result.
unfoldable pub accept_control_seq : Option ℕ → ℕ → Option ℕ × Bool
accept_control_seq none incoming = (some incoming, true)
accept_control_seq (some prev) incoming =
    if newer_than incoming prev then (some incoming, true) else (some prev, false)
