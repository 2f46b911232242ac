-- ===== src/Control/Client/Rounds.antt =====
-- The rounds of a client's control thread, `spawn_client_control` of crates/jam-core/src/control.rs.
use online_jam.Prelude.{
  ℕ, ◌≡◌, refl, ◌∙◌, ap, List, [], ◌∷◌, ◌++◌, Option, none, some, arith, length, ◌≤◌, length-append,
  length-replicate, append_assoc, ◌==◌, Bool-cases, inl, inr,
}
use online_jam.Prelude.Options.{◌>>=◌}
use online_jam.Protocol.Handshake.Client
use online_jam.Protocol.Handshake.Client.{ClientHandshake, ClientPhase, ClientAction}
use online_jam.Protocol.Packet.Endian.{to_be, length-to_be}
use online_jam.Protocol.Packet.Layout
use online_jam.Protocol.Packet.Types.{Header, Control, Welcome, ptype_code}
use online_jam.Protocol.Seq.{next}
use online_jam.Session.{new_client}
use online_jam.Network.{CtrlEvent}
use online_jam.Audio.Jitter
use online_jam.Audio.Jitter.{JitterBuffer}
use online_jam.Control.{Datagram, new_io}
use online_jam.Control.Room.{wire}
use online_jam.Control.Client.{
  Config, ClientControl, Times, Turn, new, host_left, on_roster, stored, ack_of, on_control,
  on_event, rest_of_round, round, rounds, idle,
}
use online_jam.Control.Client.Batch.{then_tick, tick-Batch, packet-Batch}
use online_jam.Control.Client.Consistent.{
  IsJoined, IsConsistent, Ends, Ends-some, Ends-then, IsConfig, after_send, send_as-some,
  start_over-Ends,
}
use online_jam.Control.Client.Steps.{rest_of_round-Ends}

-- A round whose event gives no action.
quiet-Ends :
    (cfg : Config) (t : Times) (st : ClientControl)
    → IsConfig cfg
    → IsConsistent st
    → Ends st.sent (rest_of_round cfg t (st, []))
unfolding then_tick
quiet-Ends cfg t st valid g =
    rest_of_round-Ends cfg t st (st.cs, []) valid (tick-Batch st t.now_ms g)

-- The ACK of a WELCOME, from a client in this state.
abbrev pub ack_datagram : Config → ClientControl → Header → Welcome → Datagram
ack_datagram cfg st h w =
    (cfg.host_addr, wire (ack_of h) w.session_id st.shared.sender_id (next st.io.seq).0)

new-Ends :
    (cfg : Config) (clock_ms now0 : ℕ) → IsConfig cfg → Ends [] (new cfg new_client clock_ms now0)
unfolding new new_client new_io idle
new-Ends cfg clock_ms now0 valid =
    start_over-Ends cfg (idle cfg new_client clock_ms) now0 valid (length-replicate {A = ℕ} 2048 0)
      refl

module _ (ewma : ℕ → ℕ → ℕ) (to_u32 : ℕ → ℕ) where
  welcome-Ends :
      (cfg : Config) (st : ClientControl) (ev : CtrlEvent) (w : Welcome) (t : Times)
      → IsConfig cfg
      → IsConsistent st
      → Ends
          (st.sent ++ (ack_datagram cfg st ev.header w ∷ []))
          (on_control ewma to_u32 cfg st ev (Control.welcome w) >>= rest_of_round cfg t)
  unfolding on_control after_send
  welcome-Ends cfg st ev w t valid g =
      let (io, sends, g1) =
        send_as-some cfg st (ack_of ev.header) w.session_id st.shared.sender_id g (tt, ack_room) in
      let st1 = after_send st io (ack_datagram cfg st ev.header w) in
      rw sends (
        rest_of_round-Ends cfg t st1 (Client.on_control st1.cs (Control.welcome w)) valid
          ((packet-Batch st1 t.now_ms g1).0 w))
    where
      ack_room : length (Layout.body (ack_of ev.header)) ≤ 2040
      ack_room = omega (
        arith,
        length-append (to_be 2 ev.header.seq) (to_be 1 (ptype_code ev.header.ptype)),
        length-to_be 2 ev.header.seq,
        length-to_be 1 (ptype_code ev.header.ptype),
      )

  on_control-Ends :
      (cfg : Config) (st : ClientControl) (ev : CtrlEvent) (c : Control) (t : Times)
      → IsConfig cfg
      → IsConsistent st
      → Ends st.sent (on_control ewma to_u32 cfg st ev c >>= rest_of_round cfg t)
  unfolding on_control on_roster Jitter.reset
  on_control-Ends cfg st ev (Control.welcome w) t valid g =
      let (st', e, r) = welcome-Ends cfg st ev w t valid g in
      (
        st',
        e,
        record {
          good = r.good;
          rest = ack_datagram cfg st ev.header w ∷ r.rest;
          more = r.more ∙ append_assoc st.sent (ack_datagram cfg st ev.header w ∷ []) r.rest;
        },
      )
  on_control-Ends cfg st ev (Control.deny reason) t valid g =
      rest_of_round-Ends cfg t st (Client.on_control st.cs (Control.deny reason)) valid
        ((packet-Batch st t.now_ms g).1 reason)
  on_control-Ends cfg st ev (Control.roster players) t valid g =
      quiet-Ends cfg t (on_roster st ev.header.seq players) valid
        (record { buffer = g.buffer; hello = g.hello; joined = g.joined })
  on_control-Ends cfg st ev (Control.pong t1 t2 t3) t valid g =
      quiet-Ends cfg t _ valid (record { buffer = g.buffer; hello = g.hello; joined = g.joined })
  on_control-Ends cfg st ev Control.bye t valid g =
      elim (Bool-cases (ev.header.session_id == st.shared.session_id)) [
        | inr other ↦ rw other (quiet-Ends cfg t st valid g)
        | inl ours ↦ rw ours (
            quiet-Ends cfg t (host_left st) valid (record {
              buffer = g.buffer;
              hello = g.hello;
              joined = λ inside. absurd (ground arith);
            }))
      ]
  on_control-Ends cfg st ev (Control.hello c) t valid g = quiet-Ends cfg t st valid g
  on_control-Ends cfg st ev (Control.ping t1) t valid g = quiet-Ends cfg t st valid g
  on_control-Ends cfg st ev Control.keepalive t valid g = quiet-Ends cfg t st valid g
  on_control-Ends cfg st ev (Control.ack seq type) t valid g = quiet-Ends cfg t st valid g

  pub round-Ends :
      (cfg : Config) (st : ClientControl) (event : Option CtrlEvent) (t : Times)
      → IsConfig cfg
      → IsConsistent st
      → Ends st.sent (round ewma to_u32 cfg st event t)
  unfolding round on_event rest_of_round
  round-Ends cfg st none t valid g = quiet-Ends cfg t st valid g
  round-Ends cfg st (some ev) t valid g = on_control-Ends cfg st ev ev.control t valid g

  rounds-Ends :
      (cfg : Config) (turns : List Turn) (st : ClientControl)
      → IsConfig cfg
      → IsConsistent st
      → Ends st.sent (rounds ewma to_u32 cfg st turns)
  unfolding rounds
  rounds-Ends cfg [] st valid g = Ends-some st g
  rounds-Ends cfg (t ∷ turns) st valid g =
      Ends-then st.sent _ _
        (round-Ends cfg (stored st t.rx) t.event t.times valid
          (record { buffer = g.buffer; hello = g.hello; joined = g.joined }))
        λ st' g'. rounds-Ends cfg turns st' valid g'

  -- From the start, whatever arrives and in whatever order, at whatever times, and whatever the
  -- receive thread stores in the stream, a client's control thread does not panic, if its room code
  -- has six octets; and after any number of rounds, if the audio threads are told that the client is
  -- in a session, the handshake has joined one under the id and the session number that they stamp on
  -- packets.
  pub rounds-new-IsJoined :
      (cfg : Config) (clock_ms now0 : ℕ) (turns : List Turn)
      → IsConfig cfg
      → (st : ClientControl) × ((new cfg new_client clock_ms now0 >>= λ st0.
            rounds ewma to_u32 cfg st0 turns)
          ≡ some st)
        × IsJoined st
  rounds-new-IsJoined cfg clock_ms now0 turns valid =
      let (st, e, r) =
        Ends-then [] (new cfg new_client clock_ms now0) (λ st0. rounds ewma to_u32 cfg st0 turns)
          (new-Ends cfg clock_ms now0 valid) (λ st0 g. rounds-Ends cfg turns st0 valid g) in
      (st, e, r.good.joined)

  -- In every consistent state, whatever its phase, a round that gets a WELCOME ends, and the first
  -- datagram that it sends is an ACK to the host of that WELCOME's sequence number and type, under the
  -- WELCOME's session number, as the wire format is documented.
  pub round-acks_welcome :
      (cfg : Config) (st : ClientControl) (ev : CtrlEvent) (w : Welcome) (t : Times)
      → IsConfig cfg
      → IsConsistent st
      → ev.control ≡ Control.welcome w
      → (st' : ClientControl) × (rest : List Datagram) × (round ewma to_u32 cfg st (some ev) t
          ≡ some st')
        × (st'.sent ≡ (st.sent ++ (ack_datagram cfg st ev.header w ∷ [])) ++ rest)
  unfolding round on_event
  round-acks_welcome cfg st ev w t valid g e =
      let (st', ends, r) = welcome-Ends cfg st ev w t valid g in
      (
        st',
        r.rest,
        ap (λ c. on_control ewma to_u32 cfg st ev c >>= rest_of_round cfg t) e ∙ ends,
        r.more,
      )
