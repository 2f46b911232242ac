-- ===== src/Control/Client/Consistent.antt =====
-- The state that a client's control thread keeps, `spawn_client_control` of
-- crates/jam-core/src/control.rs, and the sends that keep it.
use online_jam.Prelude.{
  ℕ, ◌≡◌, refl, sym, ◌∙◌, ap, true, false, List, [], ◌∷◌, ◌++◌, Option, some, arith, length,
  length-append, append_assoc, append-nil,
}
use online_jam.Prelude.Options.{◌>>=◌}
use online_jam.Protocol.{protocol_version}
use online_jam.Protocol.Handshake.{SessionParams}
use online_jam.Protocol.Handshake.Client
use online_jam.Protocol.Handshake.Client.{ClientHandshake, ClientPhase, ClientAction}
use online_jam.Protocol.Packet.Endian.{to_be, length-to_be}
use online_jam.Protocol.Packet.Layout
use online_jam.Protocol.Packet.Types.{Control}
use online_jam.Protocol.Packet.Write.Sound.{length-clip}
use online_jam.Protocol.Packet.Writer.{clip}
use online_jam.Protocol.Seq.{next}
use online_jam.Control.{ControlIo, Datagram}
use online_jam.Control.Room.{Fits, wire, send-wire}
use online_jam.Control.Client.{
  Config, ClientControl, set_cs, send_as, send_ctrl, send_each, start_over,
}

-- A client that is in a session, for the audio threads, is so for the handshake, under the same id
-- and session.
abbrev pub IsJoined : ClientControl → Type 0
IsJoined st =
    st.shared.joined ≡ true
    → (params : SessionParams) × (st.cs.phase
        ≡ ClientPhase.joined st.shared.sender_id st.shared.session_id params)

pub record IsConsistent (st : ClientControl) : Type 0 where
  pub buffer : length st.io.buf ≡ 2048
  pub hello : Fits st.cs.hello
  pub joined : IsJoined st

-- The computation ends in a consistent state, and has sent more.
pub record Outcome (before : List Datagram) (st : ClientControl) : Type 0 where
  pub good : IsConsistent st
  pub rest : List Datagram
  pub more : st.sent ≡ before ++ rest

abbrev pub Ends : List Datagram → Option ClientControl → Type 0
Ends before o = (st : ClientControl) × (o ≡ some st) × Outcome before st

pub Ends-some : (st : ClientControl) → IsConsistent st → Ends st.sent (some st)
Ends-some st g = (st, refl, record { good = g; rest = []; more = sym (append-nil st.sent) })

pub Ends-then :
    (before : List Datagram) (o : Option ClientControl) (f : ClientControl → Option ClientControl)
    → Ends before o
    → ((st : ClientControl) → IsConsistent st → Ends st.sent (f st))
    → Ends before (o >>= f)
Ends-then before o f (st, e, g) next_ends =
    let (st', e', g') = next_ends st g.good in
    (
      st',
      rw e e',
      record {
        good = g'.good;
        rest = g.rest ++ g'.rest;
        more = g'.more ∙ ap (λ xs. xs ++ g'.rest) g.more ∙ append_assoc before g.rest g'.rest;
      },
    )

-- The thread after a datagram.
unfoldable pub after_send : ClientControl → ControlIo → Datagram → ClientControl
after_send st io d = record st { io = io; sent = st.sent ++ (d ∷ []) }

pub send_as-some :
    (cfg : Config) (st : ClientControl) (c : Control) (session id : ℕ)
    → IsConsistent st
    → Fits c
    → (io : ControlIo) × (send_as cfg st c session id
        ≡ some (after_send st io (cfg.host_addr, wire c session id (next st.io.seq).0)))
      × IsConsistent (after_send st io (cfg.host_addr, wire c session id (next st.io.seq).0))
unfolding send_as after_send
send_as-some cfg st c session id g fits =
    let (io, sends, room) = send-wire st.io c session id cfg.host_addr fits g.buffer in
    (io, rw (send_as, sends) refl, record { buffer = room; hello = g.hello; joined = g.joined })

pub send_ctrl-Ends :
    (cfg : Config) (st : ClientControl) (c : Control)
    → IsConsistent st
    → Fits c
    → Ends st.sent (send_ctrl cfg st c)
unfolding send_ctrl after_send
send_ctrl-Ends cfg st c g fits =
    let (io, sends, g') = send_as-some cfg st c st.shared.session_id st.shared.sender_id g fits in
    (_, sends, record { good = g'; rest = _; more = refl })

-- The room code is an array of six octets.
pub record IsConfig (cfg : Config) : Type 0 where
  pub code : length cfg.room_code ≡ 6

pub hello-Fits : (cfg : Config) → IsConfig cfg → Fits (Client.new cfg.room_code cfg.name).hello
unfolding Client.new
hello-Fits cfg valid =
    let tail = to_be 1 7 ++ to_be 1 3 in
    let text = Layout.text (clip cfg.name) in
    let l0 = length-append (to_be 1 protocol_version) (cfg.room_code ++ (text ++ tail)) in
    let l1 = length-append cfg.room_code (text ++ tail) in
    let l2 = length-append text tail in
    let l3 = length-append (to_be 1 (length (clip cfg.name))) (clip cfg.name) in
    let l4 = length-append (to_be 1 7) (to_be 1 3) in
    let (_, l5) = length-clip cfg.name in
    (
      tt,
      omega (
        arith,
        valid.code,
        length-to_be 1 protocol_version,
        length-to_be 1 (length (clip cfg.name)),
        length-to_be 1 7,
        length-to_be 1 3,
      ),
    )

pub start_over-Ends :
    (cfg : Config) (st : ClientControl) (now : ℕ)
    → IsConfig cfg
    → length st.io.buf ≡ 2048
    → st.shared.joined ≡ false
    → Ends st.sent (start_over cfg st now)
unfolding start_over Client.start send_each Client.new
start_over-Ends cfg st now valid room out =
    let cs = (Client.start (Client.new cfg.room_code cfg.name) now).0 in
    let g : IsConsistent (set_cs st cs) = record {
      buffer = room;
      hello = hello-Fits cfg valid;
      joined = λ e. absurd (ground arith);
    } in
    Ends-then st.sent (send_ctrl cfg (set_cs st cs) _) _
      (send_ctrl-Ends cfg (set_cs st cs) _ g (hello-Fits cfg valid)) (λ st' g'. Ends-some st' g')
