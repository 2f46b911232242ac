-- ===== src/Protocol/Packet/Layout.antt =====
-- The wire format as the comments of crates/jam-protocol/src/packet.rs give it: the bytes of each
-- datagram, with no buffer, position or cursor.
use online_jam.Prelude.{
  ◌≡◌, ◌≤◌, ◌<◌, ◌+◌, ◌^◌, true, List, [], ◌∷◌, ◌++◌, map, Option, none, some, All, Bytes, length,
}
use online_jam.Protocol.{magic, room_code_len, max_name_len, max_clients}
use online_jam.Protocol.Packet.Endian.{to_be}
use online_jam.Protocol.Packet.Text.{is_utf8}
use online_jam.Protocol.Packet.Types.{
  Header, AudioPacket, PlayerInfo, Control, codec_code, deny_code,
}
use online_jam.Protocol.Packet.Write.{version_byte, flags}
use online_jam.Protocol.Packet.Writer.{clip}

abbrev pub header : Header → Bytes
header h = magic ∷ version_byte h ∷ (to_be 2 h.session_id ++ (to_be 2 h.sender_id ++ to_be 2 h.seq))

abbrev pub text : Bytes → Bytes
text s = to_be 1 (length s) ++ s

abbrev pub each_player : List PlayerInfo → Bytes
each_player [] = []
each_player (p ∷ ps) = (to_be 2 p.id ++ text p.name) ++ each_player ps

abbrev pub players : List PlayerInfo → Bytes
players ps = to_be 1 (length ps) ++ each_player ps

abbrev pub body : Control → Bytes
body (Control.hello c) =
    to_be 1 c.proto_version
    ++ (c.room_code ++ (text c.name ++ (to_be 1 c.codec_mask ++ to_be 1 c.frame_mask)))
body (Control.welcome c) =
    to_be 2 c.assigned_id
    ++ (to_be 2 c.session_id
        ++ (to_be 4 c.sample_rate
            ++ (to_be 2 c.frame_samples ++ (to_be 1 (codec_code c.codec) ++ players c.roster))))
body (Control.deny reason) = to_be 1 (deny_code reason)
body (Control.ping t1) = to_be 8 t1
body (Control.pong t1 t2 t3) = to_be 8 t1 ++ (to_be 8 t2 ++ to_be 8 t3)
body Control.keepalive = []
body (Control.roster ps) = players ps
body Control.bye = []
body (Control.ack seq type) = to_be 2 seq ++ to_be 1 type

abbrev pub redundancy : Option Bytes → Bytes
redundancy none = []
redundancy (some red) = to_be 2 (length red) ++ red

abbrev pub audio : AudioPacket → Bytes
audio p =
    to_be 4 p.timestamp
    ++ (codec_code p.codec
        ∷ flags p
        ∷ (to_be 2 (length p.payload) ++ (p.payload ++ redundancy p.redundant)))

-- A player, or a control packet, as it is sent: names are cut to what fits.
abbrev pub sent_player : PlayerInfo → PlayerInfo
sent_player p = record p { name = clip p.name }

abbrev pub sent : Control → Control
sent (Control.hello c) = Control.hello (record c { name = clip c.name })
sent (Control.welcome c) = Control.welcome (record c { roster = map sent_player c.roster })
sent (Control.roster ps) = Control.roster (map sent_player ps)
sent c = c

-- A Rust string, and one that is short enough for the wire.
abbrev pub IsText : Bytes → Type 0
IsText s = is_utf8 s ≡ true

abbrev pub IsName : Bytes → Type 0
IsName s = (is_utf8 s ≡ true) × (length s ≤ max_name_len)

-- The fields lie in the ranges of their Rust types, a room code has its length, a list of players is
-- no longer than a full room, and each name satisfies `N`.
abbrev pub IsPlayer : (Bytes → Type 0) → PlayerInfo → Type 0
IsPlayer N p = (p.id < 2 ^ 16) × N p.name

abbrev pub IsRoster : (Bytes → Type 0) → List PlayerInfo → Type 0
IsRoster N ps = (length ps ≤ max_clients + 1) × All (IsPlayer N) ps

abbrev pub IsControl : (Bytes → Type 0) → Control → Type 0
IsControl N (Control.hello c) =
    (c.proto_version < 256)
    × (length c.room_code ≡ room_code_len)
    × N c.name
    × (c.codec_mask < 256)
    × (c.frame_mask < 256)
IsControl N (Control.welcome c) =
    (c.assigned_id < 2 ^ 16)
    × (c.session_id < 2 ^ 16)
    × (c.sample_rate < 2 ^ 32)
    × (c.frame_samples < 2 ^ 16)
    × IsRoster N c.roster
IsControl N (Control.deny reason) = Unit
IsControl N (Control.ping t1) = t1 < 2 ^ 64
IsControl N (Control.pong t1 t2 t3) = (t1 < 2 ^ 64) × (t2 < 2 ^ 64) × (t3 < 2 ^ 64)
IsControl N Control.keepalive = Unit
IsControl N (Control.roster ps) = IsRoster N ps
IsControl N Control.bye = Unit
IsControl N (Control.ack seq type) = (seq < 2 ^ 16) × (type < 256)

-- A list of players is no longer than a full room.
abbrev pub IsShort : Control → Type 0
IsShort (Control.welcome c) = length c.roster ≤ max_clients + 1
IsShort (Control.roster ps) = length ps ≤ max_clients + 1
IsShort _ = Unit

pub IsControl-IsShort : (N : Bytes → Type 0) (c : Control) → IsControl N c → IsShort c
IsControl-IsShort N (Control.hello c) h = tt
IsControl-IsShort N (Control.welcome c) h = h.4.0
IsControl-IsShort N (Control.deny reason) h = tt
IsControl-IsShort N (Control.ping t1) h = tt
IsControl-IsShort N (Control.pong t1 t2 t3) h = tt
IsControl-IsShort N Control.keepalive h = tt
IsControl-IsShort N (Control.roster ps) h = h.0
IsControl-IsShort N Control.bye h = tt
IsControl-IsShort N (Control.ack seq type) h = tt

pub record IsHeader (h : Header) : Type 0 where
  pub session : h.session_id < 2 ^ 16
  pub sender : h.sender_id < 2 ^ 16
  pub seq : h.seq < 2 ^ 16

abbrev pub IsRedundancy : Option Bytes → Type 0
IsRedundancy none = Unit
IsRedundancy (some red) = length red < 2 ^ 16

pub record IsAudio (p : AudioPacket) : Type 0 where
  pub time : p.timestamp < 2 ^ 32
  pub size : length p.payload < 2 ^ 16
  pub copy_size : IsRedundancy p.redundant
