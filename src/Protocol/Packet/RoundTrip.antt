-- ===== src/Protocol/Packet/RoundTrip.antt =====
-- What one side writes the other parses.
use online_jam.Prelude.{
  ℕ, ◌*◌, ◌≤◌, ◌<◌, ◌≡◌, refl, sym, ap, subst, ◌∙◌, List, [], ◌∷◌, ◌++◌, map, Option, none, some,
  arith, min, All, Bytes, length, take, length-append, length-map,
}
use online_jam.Protocol.{max_datagram, u32_mod}
use online_jam.Protocol.Packet.Endian.{to_be, length-to_be}
use online_jam.Protocol.Packet.Layout
use online_jam.Protocol.Packet.Layout.{
  sent, sent_player, IsText, IsName, IsPlayer, IsRoster, IsControl, IsControl-IsShort, IsHeader,
  IsAudio, IsRedundancy,
}
use online_jam.Protocol.Packet.Outcome.{ok}
use online_jam.Protocol.Packet.Parse
use online_jam.Protocol.Packet.Parse.Whole.{datagram-control, datagram-audio}
use online_jam.Protocol.Packet.Text.Clip.{floor_boundary-length, is_utf8-floor_boundary}
use online_jam.Protocol.Packet.Types.{
  PacketType, Header, AudioPacket, PlayerInfo, Control, Payload, packet_type,
}
use online_jam.Protocol.Packet.Write
use online_jam.Protocol.Packet.Write.Sound.{
  Done, control-Done, audio-Done, length-clip, length-header,
}
use online_jam.Protocol.Packet.Writer.{clip}

clip-IsName : (s : Bytes) → IsText s → IsName (clip s)
clip-IsName s h = (unfold clip in is_utf8-floor_boundary s (min (length s) 32) h, (length-clip s).1)

players-IsName :
    (ps : List PlayerInfo) → All (IsPlayer IsText) ps → All (IsPlayer IsName) (map sent_player ps)
players-IsName [] h = tt
players-IsName (p ∷ ps) (h, hs) = ((h.0, clip-IsName p.name h.1), players-IsName ps hs)

IsRoster-IsName : (ps : List PlayerInfo) → IsRoster IsText ps → IsRoster IsName (map sent_player ps)
IsRoster-IsName ps (len, h) = (omega (arith, length-map sent_player ps), players-IsName ps h)

sent-IsName : (c : Control) → IsControl IsText c → IsControl IsName (sent c)
sent-IsName (Control.hello c) (h0, h1, h2, h3, h4) = (h0, h1, clip-IsName c.name h2, h3, h4)
sent-IsName (Control.welcome c) (h0, h1, h2, h3, h4) = (h0, h1, h2, h3, IsRoster-IsName c.roster h4)
sent-IsName (Control.roster ps) h = IsRoster-IsName ps h
sent-IsName (Control.deny _) h = h
sent-IsName (Control.ping _) h = h
sent-IsName (Control.pong _ _ _) h = h
sent-IsName Control.keepalive h = h
sent-IsName Control.bye h = h
sent-IsName (Control.ack _ _) h = h

packet_type-sent : (c : Control) → packet_type (sent c) ≡ packet_type c
unfolding packet_type
packet_type-sent (Control.hello c) = refl
packet_type-sent _ = refl

-- No control packet is longer than 184 bytes.
length-text : (s : Bytes) → IsName s → length (Layout.text s) ≤ 33
length-text s h =
    omega (arith, h.1, length-to_be 1 (length s), length-append (to_be 1 (length s)) s)

length-each_player :
    (ps : List PlayerInfo)
    → All (IsPlayer IsName) ps
    → length (Layout.each_player ps) ≤ 35 * length ps
length-each_player [] h = omega arith
length-each_player (p ∷ ps) (h, hs) = omega (
  arith,
  length-text p.name h.1,
  length-to_be 2 p.id,
  length-append (to_be 2 p.id) (Layout.text p.name),
  length-append (to_be 2 p.id ++ Layout.text p.name) (Layout.each_player ps),
  length-each_player ps hs,
)

length-players : (ps : List PlayerInfo) → IsRoster IsName ps → length (Layout.players ps) ≤ 176
length-players ps (len, h) = omega (
  arith,
  length-to_be 1 (length ps),
  length-append (to_be 1 (length ps)) (Layout.each_player ps),
  length-each_player ps h,
)

length-body : (c : Control) → IsControl IsName c → length (Layout.body c) ≤ 190
length-body (Control.hello c) (h0, h1, h2, h3, h4) =
    simp (length-append, length-to_be, h1) (omega (arith, h2.1))
length-body (Control.welcome c) (h0, h1, h2, h3, h4) =
    let short = length-players c.roster h4 in
    simp (length-append, length-to_be)
      (omega (
        arith,
        length-append (to_be 1 (length c.roster)) (Layout.each_player c.roster),
        length-to_be 1 (length c.roster),
      ))
length-body (Control.deny _) h = simp length-to_be (omega arith)
length-body (Control.ping _) h = simp length-to_be (omega arith)
length-body (Control.pong _ _ _) h = simp (length-append, length-to_be) (omega arith)
length-body Control.keepalive h = omega arith
length-body (Control.roster ps) h = omega (arith, length-players ps h)
length-body Control.bye h = omega arith
length-body (Control.ack _ _) h = simp (length-append, length-to_be) (omega arith)

-- A `write` that returns, and a length at which the written part of the buffer parses.
pub record Delivered (cap : ℕ) (o : Option (Bytes × ℕ)) (h : Header) (p : Payload) : Type 0 where
  pub out : Bytes
  pub size : ℕ
  pub returns : o ≡ some (out, size)
  pub within : size ≤ cap
  pub room : length out ≡ cap
  pub reads : Parse.datagram (take size out) ≡ ok (h, p)

delivered :
    (cap : ℕ) (bs : Bytes) (o : Option (Bytes × ℕ)) (h : Header) (p : Payload)
    → Done cap bs o
    → length bs ≤ cap
    → Parse.datagram bs ≡ ok (h, p)
    → Delivered cap o h p
delivered cap bs none h p done fits e = absurd done
delivered cap bs (some (out, size)) h p (filled, here, room) fits e = record {
  out = out;
  size = size;
  returns = refl;
  within = omega arith;
  room = room;
  reads = ap Parse.datagram filled ∙ e;
}

-- Written into a datagram buffer, every control packet with fields in range comes back from
-- `parse_datagram` with its header; its names come back cut to 32 bytes at a character boundary.
pub datagram-control-write :
    (c : Control) (h : Header) (out : Bytes)
    → IsControl IsText c
    → IsHeader h
    → h.ptype ≡ packet_type c
    → length out ≡ max_datagram
    → Delivered max_datagram (Write.control c h out) h (Payload.control (sent c))
datagram-control-write c h out valid valid' same room =
    subst (λ cap. Delivered cap (Write.control c h out) h (Payload.control (sent c))) room
      (delivered (length out) (Layout.header h ++ Layout.body (sent c)) _ h _
        (control-Done c h out (IsControl-IsShort IsText c valid) (omega (arith, short)))
        (omega
          (arith, short, length-header h, length-append (Layout.header h) (Layout.body (sent c))))
        (datagram-control h (sent c) valid' (sent-IsName c valid)
          (same ∙ sym (packet_type-sent c))))
  where
    short : length (Layout.body (sent c)) ≤ 190
    short = length-body (sent c) (sent-IsName c valid)

-- An audio frame: at most 960 bytes, the largest legal one.
abbrev pub IsFrame : Bytes → Type 0
IsFrame bs = length bs ≤ 960

abbrev pub IsCopy : Option Bytes → Type 0
IsCopy none = Unit
IsCopy (some red) = IsFrame red

-- Written into a datagram buffer, every audio packet of legal frames, with or without a redundant
-- copy, comes back unchanged.
pub datagram-audio-write :
    (p : AudioPacket) (h : Header) (out : Bytes)
    → p.timestamp < u32_mod
    → IsFrame p.payload
    → IsCopy p.redundant
    → IsHeader h
    → h.ptype ≡ PacketType.audio
    → length out ≡ max_datagram
    → Delivered max_datagram (Write.audio p h out) h (Payload.audio p)
datagram-audio-write p h out time frame copy valid same room =
    subst (λ cap. Delivered cap (Write.audio p h out) h (Payload.audio p)) room
      (delivered (length out) (Layout.header h ++ Layout.audio p) _ h _
        (audio-Done p h out valid' (omega (arith, size)))
        (omega (arith, size, length-append (Layout.header h) (Layout.audio p), length-header h))
        (datagram-audio h p valid valid' same))
  where
    copy_size : (r : Option Bytes) → IsCopy r → IsRedundancy r
    copy_size none c = tt
    copy_size (some red) c = omega arith

    copy_short : (r : Option Bytes) → IsCopy r → length (Layout.redundancy r) ≤ 962
    copy_short none c = omega arith
    copy_short (some red) c = simp (length-append, length-to_be) (omega arith)

    valid' : IsAudio p
    valid' = record { time = time; size = omega arith; copy_size = copy_size p.redundant copy }

    size : length (Layout.audio p) ≤ 1930
    size = simp (length-append, length-to_be) (omega (arith, copy_short p.redundant copy))

-- A name of at most 32 bytes is sent whole.
pub clip-IsName_self : (s : Bytes) → IsName s → clip s ≡ s
unfolding clip
clip-IsName_self s (valid, short) =
    let whole : min (length s) 32 ≡ length s = omega arith in
    rw (whole, floor_boundary-length s) (take-length s)
  where
    take-length : (xs : Bytes) → take (length xs) xs ≡ xs
    take-length [] = refl
    take-length (x ∷ xs) = ap (◌∷◌ x) (take-length xs)

players-sent : (ps : List PlayerInfo) → All (IsPlayer IsName) ps → map sent_player ps ≡ ps
players-sent [] h = refl
players-sent (p ∷ ps) (h, hs) =
    let rest = players-sent ps hs in let name = clip-IsName_self p.name h.1 in cc

-- A control packet whose names are text of at most 32 bytes is sent whole: none of its names is
-- cut.
sent_self : (c : Control) → IsControl IsName c → sent c ≡ c
sent_self (Control.hello c) (h0, h1, h2, h3, h4) = let name = clip-IsName_self c.name h2 in cc
sent_self (Control.welcome c) (h0, h1, h2, h3, h4) = let roster = players-sent c.roster h4.1 in cc
sent_self (Control.roster ps) h = ap Control.roster (players-sent ps h.1)
sent_self (Control.deny _) h = refl
sent_self (Control.ping _) h = refl
sent_self (Control.pong _ _ _) h = refl
sent_self Control.keepalive h = refl
sent_self Control.bye h = refl
sent_self (Control.ack _ _) h = refl
