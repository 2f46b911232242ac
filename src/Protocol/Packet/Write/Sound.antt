-- ===== src/Protocol/Packet/Write/Sound.antt =====
-- The `write` methods produce the documented bytes.
use online_jam.Prelude.{
  ℕ, ◌+◌, ◌%◌, ◌^◌, ◌≤◌, ◌≡◌, refl, subst, List, [], ◌∷◌, ◌++◌, map, Option, none, some, arith, min,
  Bytes, length, length-take, length-append, length-map, append_assoc, append-nil,
}
use online_jam.Prelude.Options.{◌>>=◌}
use online_jam.Protocol.{magic}
use online_jam.Protocol.Packet.Endian.{to_be, length-to_be}
use online_jam.Protocol.Packet.Layout
use online_jam.Protocol.Packet.Layout.{sent, sent_player, IsShort, IsText, IsAudio, IsRedundancy}
use online_jam.Protocol.Packet.Text.{floor_boundary}
use online_jam.Protocol.Packet.Text.Clip.{floor_boundary-le}
use online_jam.Protocol.Packet.Types.{Header, AudioPacket, PlayerInfo, Control, codec_code}
use online_jam.Protocol.Packet.Write.{header, version_byte, flags, body, control, redundancy, audio}
use online_jam.Protocol.Packet.Writer.{Writer, clip, string, each_player, players}
use online_jam.Protocol.Packet.Writer.Emits.{
  Wrote, Emits, copy_at-then, bytes-Emits, nothing-Emits, >>-Emits, u8-Emits, u16-Emits, u32-Emits,
  u64-Emits,
}

pub length-clip :
    (s : Bytes) → (length (clip s) ≡ floor_boundary s (min (length s) 32)) × (length (clip s) ≤ 32)
unfolding clip
length-clip s =
    let le = floor_boundary-le s (min (length s) 32) in
    let len = length-take (floor_boundary s (min (length s) 32)) s in (omega arith, omega arith)

string-Emits : (s : Bytes) → Emits (string s) (Layout.text (clip s))
unfolding string
string-Emits s =
    let (len, le) = length-clip s in
    let same : floor_boundary s (min (length s) 32) % 2 ^ 8 ≡ length (clip s) = omega arith in
    >>-Emits (rw same (u8-Emits (length (clip s)))) (bytes-Emits (clip s))

each_player-Emits :
    (ps : List PlayerInfo) → Emits (each_player ps) (Layout.each_player (map sent_player ps))
unfolding each_player
each_player-Emits [] = nothing-Emits
each_player-Emits (p ∷ ps) =
    >>-Emits (>>-Emits (u16-Emits p.id) (string-Emits p.name)) (each_player-Emits ps)

players-Emits :
    (ps : List PlayerInfo)
    → length ps ≤ 5
    → Emits (players ps) (Layout.players (map sent_player ps))
unfolding players
players-Emits ps h =
    let len = length-map sent_player ps in
    let same : length ps % 2 ^ 8 ≡ length (map sent_player ps) = omega arith in
    >>-Emits (rw same (u8-Emits (length (map sent_player ps)))) (each_player-Emits ps)

pub body-Emits : (c : Control) → IsShort c → Emits (body c) (Layout.body (sent c))
unfolding body
body-Emits (Control.hello c) h =
    >>-Emits (u8-Emits _)
      (>>-Emits (bytes-Emits _) (>>-Emits (string-Emits _) (>>-Emits (u8-Emits _) (u8-Emits _))))
body-Emits (Control.welcome c) h = >>-Emits (u16-Emits _) (
    >>-Emits (u16-Emits _) (
      >>-Emits (u32-Emits _)
        (>>-Emits (u16-Emits _) (>>-Emits (u8-Emits _) (players-Emits c.roster h)))))
body-Emits (Control.deny reason) h = u8-Emits _
body-Emits (Control.ping t1) h = u64-Emits t1
body-Emits (Control.pong t1 t2 t3) h =
    >>-Emits (u64-Emits t1) (>>-Emits (u64-Emits t2) (u64-Emits t3))
body-Emits Control.keepalive h = nothing-Emits
body-Emits (Control.roster ps) h = players-Emits ps h
body-Emits Control.bye h = nothing-Emits
body-Emits (Control.ack seq type) h = >>-Emits (u16-Emits seq) (u8-Emits type)

-- The buffer and the length that a `write` returns.
abbrev pub Done : ℕ → Bytes → Option (Bytes × ℕ) → Type 0
Done cap bs none = ⊥
Done cap bs (some (out, n)) = Wrote cap bs (some (record { buf = out; pos = n }))

-- The rule for a block that starts with `Header::write`.
header-then {ℓ} :
    {B : Type ℓ} (P : Option B → Type 0) (h : Header) (out : Bytes) (f : Bytes × ℕ → Option B)
    → 8 ≤ length out
    → ((out' : Bytes)
        → Wrote (length out) (Layout.header h) (some (record { buf = out'; pos = 8 }))
        → P (f (out', 8)))
    → P (header h out >>= f)
unfolding header
header-then P h out f room next =
    let ls = length-to_be 2 h.session_id in
    let ln = length-to_be 2 h.sender_id in
    let lq = length-to_be 2 h.seq in
    let lsn = length-append (to_be 2 h.session_id) (to_be 2 h.sender_id) in
    let order = append_assoc (to_be 2 h.session_id) (to_be 2 h.sender_id) (to_be 2 h.seq) in
    let then_f = λ (o : Option (Bytes × ℕ)). P (o >>= f) in
    copy_at-then then_f cap 0 1 out [] (magic ∷ []) _ refl (refl, refl, refl) (omega arith)
      λ o0 w0.
        copy_at-then then_f cap 1 2 o0 _ (version_byte h ∷ []) _ refl w0 (omega arith) λ o1 w1.
          copy_at-then then_f cap 2 4 o1 _ (to_be 2 h.session_id) _ (omega arith) w1 (omega arith)
            λ o2 w2.
              copy_at-then then_f cap 4 6 o2 _ (to_be 2 h.sender_id) _ (omega arith) w2
                (omega arith)
                λ o3 w3.
                  copy_at-then then_f cap 6 8 o3 _ (to_be 2 h.seq) _ (omega arith) w3 (omega arith)
                    λ o4 w4. next o4 (rw order at w4)
  where
    cap : ℕ
    cap = length out

pub length-header : (h : Header) → length (Layout.header h) ≡ 8
length-header h = simp (length-append, length-to_be)

finished :
    (cap : ℕ) (bs : Bytes) (o : Option Writer)
    → Wrote cap bs o
    → Done cap bs (o >>= λ w. some (w.buf, w.pos))
finished cap bs none wrote = wrote
finished cap bs (some w) wrote = wrote

-- `Control::write` fills the start of a large enough buffer with the documented bytes.
pub control-Done :
    (c : Control) (h : Header) (out : Bytes)
    → IsShort c
    → 8 + length (Layout.body (sent c)) ≤ length out
    → Done (length out) (Layout.header h ++ Layout.body (sent c)) (control c h out)
unfolding control
control-Done c h out valid room =
    header-then (Done (length out) (Layout.header h ++ Layout.body (sent c))) h out _ (omega arith)
      λ out' wrote. finished (length out) (Layout.header h ++ Layout.body (sent c)) _ (
        (body-Emits c valid).run (length out) (Layout.header h) (record { buf = out'; pos = 8 })
          wrote (omega (arith, length-header h)))

redundancy-Done :
    (cap n : ℕ) (pre out : Bytes) (r : Option Bytes)
    → IsRedundancy r
    → Wrote cap pre (some (record { buf = out; pos = n }))
    → length pre + length (Layout.redundancy r) ≤ cap
    → Done cap (pre ++ Layout.redundancy r) (redundancy r out n)
unfolding redundancy
redundancy-Done cap n pre out none valid wrote room = rw append-nil wrote
redundancy-Done cap n pre out (some red) valid wrote room =
    let len = length-to_be 2 (length red) in
    let len' = length-append (to_be 2 (length red)) red in
    let len'' = length-append pre (to_be 2 (length red)) in
    let same : length red % 2 ^ 16 ≡ length red = omega arith in
    rw same (
      copy_at-then (Done cap (pre ++ (to_be 2 (length red) ++ red))) cap n (n + 2) out pre
        (to_be 2 (length red)) _ (omega arith) wrote (omega arith)
        λ o0 w0.
          copy_at-then (Done cap (pre ++ (to_be 2 (length red) ++ red))) cap (n + 2)
            (n + 2 + length red) o0 _ red _ refl w0 (omega arith) λ o1 w1. rw append_assoc at w1)

-- `AudioPacket::write` does so too.
pub audio-Done :
    (p : AudioPacket) (h : Header) (out : Bytes)
    → IsAudio p
    → 8 + length (Layout.audio p) ≤ length out
    → Done (length out) (Layout.header h ++ Layout.audio p) (audio p h out)
unfolding audio
audio-Done p h out valid room =
    let lh = length-header h in
    let lt = length-to_be 4 p.timestamp in
    let lp = length-to_be 2 (length p.payload) in
    let la = length-append (to_be 4 p.timestamp) (codec_code p.codec ∷ flags p ∷ sized) in
    let ls =
      length-append (to_be 2 (length p.payload)) (p.payload ++ Layout.redundancy p.redundant) in
    let lr = length-append p.payload (Layout.redundancy p.redundant) in
    let same : length p.payload % 2 ^ 16 ≡ length p.payload = omega (arith, valid.size) in
    rw same (
      header-then goal h out _ (omega arith) λ o w.
        copy_at-then goal cap 8 12 o _ (to_be 4 p.timestamp) _ (omega arith) w (omega arith)
          λ o0 w0.
            let l0 = length-append (Layout.header h) (to_be 4 p.timestamp) in
            copy_at-then goal cap 12 13 o0 _ (codec_code p.codec ∷ []) _ refl w0 (omega arith)
              λ o1 w1.
                copy_at-then goal cap 13 14 o1 _ (flags p ∷ []) _ refl w1 (omega (arith, w1.1))
                  λ o2 w2.
                    copy_at-then goal cap 14 16 o2 _ (to_be 2 (length p.payload)) _ (omega arith) w2
                      (omega (arith, w2.1))
                      λ o3 w3.
                        copy_at-then goal cap 16 (16 + length p.payload) o3 _ p.payload _ refl w3
                          (omega (arith, w3.1))
                          λ o4 w4.
                            subst
                              (λ bs.
                                Done cap bs (redundancy p.redundant o4 (16 + length p.payload)))
                              (simp append_assoc)
                              (redundancy-Done cap (16 + length p.payload) _ o4 p.redundant
                                valid.copy_size w4 (omega (arith, w4.1))))
  where
    cap : ℕ
    cap = length out

    sized : Bytes
    sized = to_be 2 (length p.payload) ++ (p.payload ++ Layout.redundancy p.redundant)

    goal : Option (Bytes × ℕ) → Type 0
    goal = Done cap (Layout.header h ++ Layout.audio p)
