-- ===== src/Control/Host.antt =====
-- The host's control thread, `spawn_host_control` of crates/jam-core/src/control.rs.
pub mod Calls
pub mod Clears
pub mod Effect
pub mod Follows
pub mod Mirror
pub mod Rounds
pub mod Run
use online_jam.Prelude.{
  ℕ, zero, suc, ◌+◌, ◌-◌, ◌/◌, Bool, true, false, ◌&&◌, List, [], ◌∷◌, ◌++◌, Option, none, some,
  leb, ltb, ◌==◌, if◌then◌else◌, Bytes, set, replicate,
}
use online_jam.Prelude.Options.{◌>>=◌}
use online_jam.Protocol.{max_clients, host_sender_id, keepalive_ms}
use online_jam.Protocol.Handshake.{SocketAddr, SessionParams}
use online_jam.Protocol.Handshake.Host
use online_jam.Protocol.Handshake.Host.{
  HostHandshake, HostAction, welcome_sent, client_addr, client_addrs, sender_for_addr, mark_heard,
  on_hello, on_ack, on_bye,
}
use online_jam.Protocol.Packet.Types.{Control}
use online_jam.Audio.Jitter
use online_jam.Audio.Jitter.{JitterBuffer}
use online_jam.Session
use online_jam.Session.{StreamShared, HostShared, stream_of}
use online_jam.Network.{AddrUpdate, CtrlEvent}
use online_jam.Control.{
  ControlIo, Datagram, new_io, send, update_rtt, rtt_from_pong, ping_interval_ms,
  snapshot_interval_ms,
}

-- The thread's variables, with what it has put on the network and into the two channels of address
-- updates, which get the same.
pub record HostControl : Type 0 where
  pub hs : HostHandshake
  pub io : ControlIo
  pub names : List (Option Bytes)
  pub shared : HostShared
  pub sent : List Datagram
  pub updates : List AddrUpdate
  pub last_ping : ℕ
  pub last_keepalive : ℕ
  pub last_snapshot : ℕ

unfoldable pub new : Bytes → SessionParams → Bytes → HostShared → HostControl
unfolding Host.new new_io
new code params name shared = record {
  hs = Host.new code shared.session_id params name;
  io = new_io;
  names = replicate max_clients none;
  shared = shared;
  sent = [];
  updates = [];
  last_ping = 0;
  last_keepalive = 0;
  last_snapshot = 0;
}

abbrev pub is_welcome : Control → Bool
is_welcome (Control.welcome _) = true
is_welcome _ = false

-- `io.send(&control, shared.session_id, HOST_SENDER_ID, to)`, with its sequence number.
unfoldable pub send_to : HostControl → SocketAddr → Control → Option (HostControl × ℕ)
unfolding send
send_to st to control = do
  (io, seq, d) ← send st.io control st.shared.session_id host_sender_id to
  some (record st { io = io; sent = st.sent ++ (d ∷ []) }, seq)

-- The streams and the flags of a player who joins or leaves.
abbrev pub joined_stream : StreamShared → StreamShared
joined_stream s = record s { jb = Jitter.reset s.jb; last_rx_us = 0; rtt_us = 0; active = true }

abbrev pub left_stream : StreamShared → StreamShared
left_stream s = record s { active = false; jb = Jitter.reset s.jb }

abbrev pub with_player : HostShared → ℕ → StreamShared → HostShared
with_player shared id s = record shared {
  clients = set shared.clients (id - 1) s;
  muted = set shared.muted id false;
  soloed = set shared.soloed id false;
}

-- Whether the indices that an id gives are in range.
abbrev pub is_player : ℕ → Bool
is_player id = leb 1 id && leb id max_clients

-- One round of `run`'s loop; `none` is a panic.
unfoldable pub run_action : HostControl → HostAction → Option HostControl
unfolding send_to welcome_sent client_addr Jitter.reset
run_action st (HostAction.send to control) = do
  (st', seq) ← send_to st to control
  some (if is_welcome control then record st' { hs = welcome_sent st'.hs to seq } else st')
run_action st (HostAction.client_joined id name) =
    if is_player id
    then some (record st {
      shared = with_player st.shared id (joined_stream (stream_of st.shared.clients (id - 1)));
      names = set st.names (id - 1) (some name);
      updates = st.updates ++ (AddrUpdate.client (id - 1) (client_addr st.hs id) ∷ []);
    })
    else none
run_action st (HostAction.client_left id _) =
    if is_player id
    then some (record st {
      shared = with_player st.shared id (left_stream (stream_of st.shared.clients (id - 1)));
      names = set st.names (id - 1) none;
      updates = st.updates ++ (AddrUpdate.client (id - 1) none ∷ []);
    })
    else none

unfoldable pub run : HostControl → List HostAction → Option HostControl
unfolding run_action
run st [] = some st
run st (a ∷ actions) = do st' ← run_action st a; run st' actions

-- `hs` is replaced, then its actions run.
abbrev pub run_after : HostControl → HostHandshake × List HostAction → Option HostControl
run_after st (hs, actions) = run (record st { hs = hs }) actions

-- The sender's mark, on any packet of a client.
abbrev pub heard : HostHandshake → SocketAddr → ℕ → HostHandshake
heard hs from now_ms = elim (sender_for_addr hs from) [
  | none ↦ hs
  | some id ↦ mark_heard hs id now_ms
]

-- The liveness of the audio path, for the streams from index `slot` on.
unfoldable pub feed : ℕ → List StreamShared → HostHandshake → HostHandshake
feed slot [] hs = hs
feed slot (s ∷ ss) hs =
    feed (suc slot) ss
      (if ltb 0 s.last_rx_us then mark_heard hs (slot + 1) (s.last_rx_us / 1000) else hs)

-- One packet for each of these clients.
unfoldable pub send_all : HostControl → List (ℕ × SocketAddr) → (ℕ → Control) → Option HostControl
send_all st [] control = some st
send_all st ((id, addr) ∷ clients) control = do
  (st', _) ← send_to st addr (control 0)
  send_all st' clients (λ i. control (suc i))

-- PINGs, at intervals; `ping_us` gives the clock's readings.
unfoldable pub pings : HostControl → ℕ → (ℕ → ℕ) → Option HostControl
unfolding send_all client_addrs
pings st now_ms ping_us =
    if leb ping_interval_ms (now_ms - st.last_ping)
    then send_all (record st { last_ping = now_ms }) (client_addrs st.hs)
        (λ i. Control.ping (ping_us i))
    else some st

unfoldable pub keepalives : HostControl → ℕ → Option HostControl
unfolding send_all client_addrs
keepalives st now_ms =
    if leb keepalive_ms (now_ms - st.last_keepalive)
    then send_all (record st { last_keepalive = now_ms }) (client_addrs st.hs)
        (λ i. Control.keepalive)
    else some st

-- `build_host_snapshot` changes nothing but the display.
abbrev pub snapshot : HostControl → ℕ → HostControl
snapshot st now_ms =
    if leb snapshot_interval_ms (now_ms - st.last_snapshot)
    then record st { last_snapshot = now_ms }
    else st

-- The end of the thread: BYE to every client, twice on a shutdown, once when the channel closes.
unfoldable pub goodbye : ℕ → HostControl → Option HostControl
unfolding send_all client_addrs
goodbye zero st = some st
goodbye (suc n) st = do st' ← send_all st (client_addrs st.hs) (λ i. Control.bye); goodbye n st'

-- What a round meets: the values that the receive thread has stored in the streams since the last
-- one, the event, and the clock's readings.
pub record Turn : Type 0 where
  pub rx : ℕ → JitterBuffer × ℕ
  pub event : Option CtrlEvent
  pub now_ms : ℕ
  pub ping_us : ℕ → ℕ

-- The streams from index `slot` on, with those values.
abbrev pub stored : (ℕ → JitterBuffer × ℕ) → ℕ → List StreamShared → List StreamShared
stored rx slot [] = []
stored rx slot (s ∷ ss) =
    record s { jb = (rx slot).0; last_rx_us = (rx slot).1 } ∷ stored rx (suc slot) ss

module _ (ewma : ℕ → ℕ → ℕ) (to_u32 : ℕ → ℕ) where
  -- A PONG sets the round-trip time of the client that it is from.
  unfoldable pub on_pong : HostControl → SocketAddr → ℕ → HostControl
  unfolding update_rtt
  on_pong st from rtt = elim (sender_for_addr st.hs from) [
    | none ↦ st
    | some id ↦
        let s = stream_of st.shared.clients (id - 1) in
        if leb 1 id
        then record st {
          shared = record st.shared {
            clients =
                set st.shared.clients (id - 1)
                  (record s { rtt_us = update_rtt ewma to_u32 s.rtt_us rtt });
          };
        }
        else st
  ]

  -- The `match` on a control packet, once its sender is marked.
  unfoldable pub on_control : HostControl → CtrlEvent → Control → ℕ → Option HostControl
  unfolding run on_hello on_ack on_pong on_bye rtt_from_pong
  on_control st ev (Control.hello c) now_ms =
      run_after st (on_hello st.hs ev.from (Control.hello c) now_ms)
  on_control st ev (Control.ack seq _) now_ms = run_after st (on_ack st.hs ev.from seq now_ms)
  on_control st ev (Control.pong t1 t2 t3) now_ms =
      some (on_pong st ev.from (rtt_from_pong ev.rx_us t1 t2 t3))
  on_control st ev Control.bye now_ms =
      if ev.header.session_id == st.shared.session_id
      then run_after st (on_bye st.hs ev.from)
      else some st
  on_control st ev _ now_ms = some st

  -- An event of the channel, or none before the timeout.
  unfoldable pub on_event : HostControl → Option CtrlEvent → ℕ → Option HostControl
  unfolding on_control
  on_event st none now_ms = some st
  on_event st (some ev) now_ms =
      on_control (record st { hs = heard st.hs ev.from now_ms }) ev ev.control now_ms

  -- One round of the thread's loop.
  unfoldable pub round : HostControl → Option CtrlEvent → ℕ → (ℕ → ℕ) → Option HostControl
  unfolding on_event feed run Host.tick pings keepalives
  round st event now_ms ping_us = do
    st1 ← on_event st event now_ms
    st2 ← run_after st1 (Host.tick (feed 0 st1.shared.clients st1.hs) now_ms)
    st3 ← pings st2 now_ms ping_us
    st4 ← keepalives st3 now_ms
    some (snapshot st4 now_ms)

  -- The thread's loop, for as many rounds.
  unfoldable pub rounds : HostControl → List Turn → Option HostControl
  unfolding round
  rounds st [] = some st
  rounds st (t ∷ turns) = do
    st' ←
        round
          (record st { shared = record st.shared { clients = stored t.rx 0 st.shared.clients } })
          t.event t.now_ms t.ping_us
    rounds st' turns
