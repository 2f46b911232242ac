-- ===== src/Protocol/Packet/Parse/Sound.antt =====
-- The `parse` functions read the documented bytes back.
use online_jam.Prelude.{
  suc, ◌≤◌, ◌<◌, ◌≡◌, refl, sym, ap, subst, List, [], ◌∷◌, ◌++◌, true, arith, le→not_ltb, Bytes,
  length, append_assoc, append-nil, All,
}
use online_jam.Protocol.Packet.Outcome.{ok}
use online_jam.Protocol.Packet.Endian.{to_be}
use online_jam.Protocol.Packet.Layout
use online_jam.Protocol.Packet.Layout.{
  IsControl, IsPlayer, IsRoster, IsName, IsHeader, IsAudio, IsRedundancy,
}
use online_jam.Protocol.Packet.Parse.Body.{fields, whole, control}
use online_jam.Protocol.Packet.Reader
use online_jam.Protocol.Packet.Reader.{
  Reader, ◌>>=◌, limited, string, checked, each_player, counted, players, finish,
}
use online_jam.Protocol.Packet.Reader.Reads.{
  Ahead, Reads, return-Reads, lift-Reads, >>=-Reads, map-Reads, bytes-Reads, u8-Reads, u16-Reads,
  u32-Reads, u64-Reads,
}
use online_jam.Protocol.Packet.Text.{is_utf8}
use online_jam.Protocol.Packet.Types.{
  Codec, opus, pcm_s16, pcm_f32, DenyReason, bad_room_code, room_full, version_mismatch, PlayerInfo,
  Control, codec_code, codec_from, deny_code, deny_from, packet_type,
}

pub codec_from-codec_code : (c : Codec) → codec_from (codec_code c) ≡ ok c
unfolding codec_from codec_code
codec_from-codec_code opus = refl
codec_from-codec_code pcm_s16 = refl
codec_from-codec_code pcm_f32 = refl

pub codec_code-lt : (c : Codec) → codec_code c < 256
unfolding codec_code
codec_code-lt c = ground arith

deny_from-deny_code : (r : DenyReason) → deny_from (deny_code r) ≡ ok r
unfolding deny_from deny_code
deny_from-deny_code bad_room_code = refl
deny_from-deny_code room_full = refl
deny_from-deny_code version_mismatch = refl

deny_code-lt : (r : DenyReason) → deny_code r < 256
unfolding deny_code
deny_code-lt r = ground arith

limited-Reads : (s : Bytes) → length s ≤ 32 → Reads (limited (length s)) s s
unfolding limited
limited-Reads s h = rw (le→not_ltb (length s) 32 h) (bytes-Reads s)

checked-Reads : (s : Bytes) → is_utf8 s ≡ true → Reads (checked s) [] s
unfolding checked
checked-Reads s h = rw h (lift-Reads _ s refl)

string-Reads : (s : Bytes) → IsName s → Reads string (Layout.text s) s
unfolding string
string-Reads s (valid, short) = >>=-Reads _ (u8-Reads (length s) (omega arith)) (
    subst (λ bs. Reads (limited (length s) >>= checked) bs s) (append-nil s)
      (>>=-Reads checked (limited-Reads s short) (checked-Reads s valid)))

each_player-Reads :
    (ps : List PlayerInfo)
    → All (IsPlayer IsName) ps
    → Reads (each_player (length ps)) (Layout.each_player ps) ps
unfolding each_player
each_player-Reads [] valid = return-Reads []
each_player-Reads (p ∷ ps) (player, rest) =
    subst (λ bs. Reads (each_player (suc (length ps))) bs (p ∷ ps))
      (sym (append_assoc (to_be 2 p.id) (Layout.text p.name) (Layout.each_player ps)))
      (>>=-Reads _ (u16-Reads p.id player.0) (
        >>=-Reads _ (string-Reads p.name player.1)
          (map-Reads (λ qs. p ∷ qs) (each_player-Reads ps rest))))

counted-Reads :
    (ps : List PlayerInfo)
    → length ps ≤ 5
    → All (IsPlayer IsName) ps
    → Reads (counted (length ps)) (Layout.each_player ps) ps
unfolding counted
counted-Reads ps h valid = rw (le→not_ltb (length ps) 5 h) (each_player-Reads ps valid)

players-Reads : (ps : List PlayerInfo) → IsRoster IsName ps → Reads players (Layout.players ps) ps
unfolding players
players-Reads ps (short, valid) =
    >>=-Reads counted (u8-Reads (length ps) (omega arith)) (counted-Reads ps short valid)

-- Each kind of control packet is read back from its bytes.
fields-Reads : (c : Control) → IsControl IsName c → Reads (fields (packet_type c)) (Layout.body c) c
unfolding fields packet_type to_be
fields-Reads (Control.hello c) (version, code, name, codecs, frames) =
    >>=-Reads _ (u8-Reads c.proto_version version) (
      >>=-Reads _
        (subst (λ n. Reads (Reader.bytes n) c.room_code c.room_code) code (bytes-Reads c.room_code))
        (>>=-Reads _ (string-Reads c.name name) (
          >>=-Reads _ (u8-Reads c.codec_mask codecs) (map-Reads _ (u8-Reads c.frame_mask frames)))))
fields-Reads (Control.welcome c) (assigned, session, rate, frame, roster) =
    >>=-Reads _ (u16-Reads c.assigned_id assigned) (
      >>=-Reads _ (u16-Reads c.session_id session) (
        >>=-Reads _ (u32-Reads c.sample_rate rate) (
          >>=-Reads _ (u16-Reads c.frame_samples frame) (
            >>=-Reads _ (u8-Reads (codec_code c.codec) (codec_code-lt c.codec)) (
              >>=-Reads _ (lift-Reads _ c.codec (codec_from-codec_code c.codec))
                (map-Reads _ (players-Reads c.roster roster)))))))
fields-Reads (Control.deny reason) h =
    >>=-Reads _ (u8-Reads (deny_code reason) (deny_code-lt reason))
      (map-Reads _ (lift-Reads _ reason (deny_from-deny_code reason)))
fields-Reads (Control.ping t1) h = map-Reads Control.ping (u64-Reads t1 h)
fields-Reads (Control.pong t1 t2 t3) (h1, h2, h3) =
    >>=-Reads _ (u64-Reads t1 h1)
      (>>=-Reads _ (u64-Reads t2 h2) (map-Reads (Control.pong t1 t2) (u64-Reads t3 h3)))
fields-Reads Control.keepalive h = return-Reads Control.keepalive
fields-Reads (Control.roster ps) h = map-Reads Control.roster (players-Reads ps h)
fields-Reads Control.bye h = return-Reads Control.bye
fields-Reads (Control.ack seq type) (h1, h2) =
    >>=-Reads _ (u16-Reads seq h1) (map-Reads (Control.ack seq) (u8-Reads type h2))

finish_at_end : (r : Reader) → Ahead r [] → finish r ≡ ok (tt, r)
unfolding finish
finish_at_end r a = ground (arith, ap length a.splits, ap length (append-nil a.behind))

-- `Control::parse` takes the whole body.
pub control-body :
    (c : Control) → IsControl IsName c → control (packet_type c) (Layout.body c) ≡ ok c
unfolding control whole
control-body c valid =
    let start : Ahead (record { buf = Layout.body c; pos = 0 }) (Layout.body c ++ []) = record {
      behind = [];
      splits = sym (append-nil (Layout.body c));
      here = refl;
    } in
    let (r, e, a) = (fields-Reads c valid).run _ [] start in ground (arith, e, finish_at_end r a)
