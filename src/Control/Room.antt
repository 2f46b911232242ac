-- ===== src/Control/Room.antt =====
-- `ControlIo::send` of crates/jam-core/src/control.rs does not panic on what the two sides send.
use online_jam.Prelude.{
  ℕ, ◌*◌, ◌≤◌, ◌≡◌, ap, Bytes, ◌∙◌, List, [], ◌∷◌, ◌++◌, map, some, arith, length, length-append,
  Option-cases, inl, inr,
}
use online_jam.Protocol.Handshake.{SocketAddr}
use online_jam.Protocol.Packet.Endian.{to_be, length-to_be}
use online_jam.Protocol.Packet.Layout
use online_jam.Protocol.Packet.Layout.{sent, sent_player, IsShort}
use online_jam.Protocol.Packet.Types.{Control, PlayerInfo}
use online_jam.Protocol.Packet.Write
use online_jam.Protocol.Packet.Write.Sound.{Done, control-Done, length-clip}
use online_jam.Protocol.Packet.Writer.{clip}
use online_jam.Protocol.Seq.{next}
use online_jam.Control.{ControlIo, Datagram, send, control_header}

-- The packet fits in a datagram's buffer.
abbrev pub Fits : Control → Type 0
Fits c = IsShort c × (length (Layout.body (sent c)) ≤ 2040)

pub length-each_player :
    (ps : List PlayerInfo) → length (Layout.each_player (map sent_player ps)) ≤ 35 * length ps
length-each_player [] = omega arith
length-each_player (p ∷ ps) =
    let l0 =
      length-append (to_be 2 p.id ++ Layout.text (clip p.name))
        (Layout.each_player (map sent_player ps)) in
    let l1 = length-append (to_be 2 p.id) (Layout.text (clip p.name)) in
    let l2 = length-append (to_be 1 (length (clip p.name))) (clip p.name) in
    let l3 = length-to_be 2 p.id in
    let l4 = length-to_be 1 (length (clip p.name)) in
    let (_, l5) = length-clip p.name in let l6 = length-each_player ps in omega arith

pub players-le :
    (ps : List PlayerInfo) → length ps ≤ 5 → length (Layout.players (map sent_player ps)) ≤ 176
players-le ps h =
    let l0 =
      length-append (to_be 1 (length (map sent_player ps)))
        (Layout.each_player (map sent_player ps)) in
    let l1 = length-to_be 1 (length (map sent_player ps)) in
    let l2 = length-each_player ps in omega arith

-- The datagram of a control packet, as the wire format is documented.
unfoldable pub wire : Control → (session_id sender_id seq : ℕ) → Bytes
wire c session_id sender_id seq =
    Layout.header (control_header c session_id sender_id seq) ++ Layout.body (sent c)

pub send-wire :
    (io : ControlIo) (c : Control) (session id : ℕ) (to : SocketAddr)
    → Fits c
    → length io.buf ≡ 2048
    → (io' : ControlIo) × (send io c session id to
        ≡ some (io', (next io.seq).0, (to, wire c session id (next io.seq).0)))
      × (length io'.buf ≡ 2048)
unfolding send wire
send-wire io c session id to (short, fits) room =
    let h = control_header c session id (next io.seq).0 in
    let done = control-Done c h io.buf short (omega arith) in
    elim (Option-cases (Write.control c h io.buf)) [
      | inl e ↦ absurd (rw e at done)
      | inr ((buf, n), e) ↦
          let wrote : Done (length io.buf) (Layout.header h ++ Layout.body (sent c))
              (some (buf, n)) =
            rw e at done in
          let io' : ControlIo = record { seq = (next io.seq).1; buf = buf } in
          (
            io',
            rw (send, e) (ap (λ bs. some (io', (next io.seq).0, (to, bs))) wrote.0),
            wrote.2 ∙ room,
          )
    ]

pub send-some :
    (io : ControlIo) (c : Control) (session id : ℕ) (to : SocketAddr)
    → Fits c
    → length io.buf ≡ 2048
    → (io' : ControlIo) × (d : Datagram) × (send io c session id to
        ≡ some (io', (next io.seq).0, d))
      × (length io'.buf ≡ 2048)
send-some io c session id to fits room =
    let (io', e, room') = send-wire io c session id to fits room in (io', _, e, room')
