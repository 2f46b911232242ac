-- ===== src/Control/Client.antt =====
-- A client's control thread, `spawn_client_control` of crates/jam-core/src/control.rs.
pub mod Batch
pub mod Consistent
pub mod Rounds
pub mod Steps
use online_jam.Prelude.{
  ℕ, zero, suc, ◌+◌, ◌-◌, ◌*◌, Bool, true, false, not, ◌&&◌, ◌||◌, List, [], ◌∷◌, ◌++◌, Option,
  none, some, leb, ltb, ◌==◌, if◌then◌else◌, Bytes,
}
use online_jam.Prelude.Options.{◌>>=◌}
use online_jam.Protocol.{keepalive_ms, peer_timeout_ms, rejoin_window_ms}
use online_jam.Protocol.Handshake.{SocketAddr, SessionParams}
use online_jam.Protocol.Handshake.Client
use online_jam.Protocol.Handshake.Client.{ClientHandshake, ClientAction, JoinFailure}
use online_jam.Protocol.Packet.Types.{
  Header, Control, Welcome, PlayerInfo, DenyReason, ptype_code, codec_code, accept_control_seq,
}
use online_jam.Audio.Jitter
use online_jam.Audio.Jitter.{JitterBuffer}
use online_jam.Session.{StreamShared, ClientShared}
use online_jam.Network.{CtrlEvent}
use online_jam.Control.{
  ControlIo, Datagram, new_io, send, update_rtt, rtt_from_pong, ping_interval_ms,
  snapshot_interval_ms,
}

-- `ClientControlConfig`; of its parameters the frame size and the codec count.
pub record Config : Type 0 where
  pub room_code : Bytes
  pub name : Bytes
  pub params : SessionParams
  pub host_addr : SocketAddr

-- The texts that `terminal_status` can hold.
pub data Status : Type 0 where
  host_ended parameter_mismatch timed_out : Status
  denied : DenyReason → Status

-- The thread's variables, with what it has put on the network.
pub record ClientControl : Type 0 where
  pub cs : ClientHandshake
  pub io : ControlIo
  pub shared : ClientShared
  pub roster : List PlayerInfo
  pub last_roster_seq : Option ℕ
  pub last_ping : ℕ
  pub last_keepalive : ℕ
  pub last_snapshot : ℕ
  pub rejoin_deadline : Option ℕ
  pub terminal_status : Option Status
  pub sent : List Datagram

-- The clock's readings in a round: after the event, on a join, for the liveness check, for a PING.
pub record Times : Type 0 where
  pub now_ms : ℕ
  pub start_us : ℕ
  pub check_us : ℕ
  pub ping_us : ℕ

abbrev pub set_cs : ClientControl → ClientHandshake → ClientControl
set_cs st cs = record st { cs = cs }

-- A datagram to the host, under a session and an id.
unfoldable pub send_as :
    Config → ClientControl → Control → (session_id sender_id : ℕ) → Option ClientControl
unfolding send
send_as cfg st control session_id sender_id = do
  (io, _, d) ← send st.io control session_id sender_id cfg.host_addr
  some (record st { io = io; sent = st.sent ++ (d ∷ []) })

unfoldable pub send_ctrl : Config → ClientControl → Control → Option ClientControl
unfolding send_as
send_ctrl cfg st control = send_as cfg st control st.shared.session_id st.shared.sender_id

-- The sends among a list of actions.
unfoldable pub send_each : Config → ClientControl → List ClientAction → Option ClientControl
unfolding send_ctrl
send_each cfg st [] = some st
send_each cfg st (ClientAction.send c ∷ actions) = do
  st' ← send_ctrl cfg st c
  send_each cfg st' actions
send_each cfg st (_ ∷ actions) = send_each cfg st actions

-- A handshake from its start, with its packets.
unfoldable pub start_over : Config → ClientControl → (now_ms : ℕ) → Option ClientControl
unfolding Client.new Client.start send_each
start_over cfg st now_ms =
    let (cs, actions) = Client.start (Client.new cfg.room_code cfg.name) now_ms in
    send_each cfg (set_cs st cs) actions

-- The thread's variables before it sends.
unfoldable pub idle : Config → ClientShared → (clock_ms : ℕ) → ClientControl
unfolding Client.new new_io
idle cfg shared clock_ms = record {
  cs = Client.new cfg.room_code cfg.name;
  io = new_io;
  shared = shared;
  roster = [];
  last_roster_seq = none;
  last_ping = 0;
  last_keepalive = 0;
  last_snapshot = 0;
  rejoin_deadline = some (clock_ms + rejoin_window_ms);
  terminal_status = none;
  sent = [];
}

-- Up to the loop; the two readings of the clock are those for the deadline and for the handshake.
unfoldable pub new : Config → ClientShared → (clock_ms now0 : ℕ) → Option ClientControl
unfolding start_over idle
new cfg shared clock_ms now0 = start_over cfg (idle cfg shared clock_ms) now0

abbrev pub reset_jb : StreamShared → StreamShared
reset_jb s = record s { jb = Jitter.reset s.jb }

-- The client is out of the session.
abbrev pub out_of_session : ClientShared → ClientShared
out_of_session shared = record shared { joined = false; from_host = reset_jb shared.from_host }

abbrev pub host_left : ClientControl → ClientControl
host_left st = record st {
  shared = out_of_session st.shared;
  terminal_status = some Status.host_ended;
  rejoin_deadline = none;
}

-- A ROSTER's list, if it is newer.
unfoldable pub on_roster : ClientControl → ℕ → List PlayerInfo → ClientControl
unfolding accept_control_seq
on_roster st seq players =
    let (last, newer) = accept_control_seq st.last_roster_seq seq in
    record st { last_roster_seq = last; roster = if newer then players else st.roster }

abbrev pub same_params : SessionParams → SessionParams → Bool
same_params p q = p.frame_samples == q.frame_samples && codec_code p.codec == codec_code q.codec

-- `ClientAction::StartAudio`.
unfoldable pub start_audio :
    Config → ClientControl → Times → (sender_id session_id : ℕ) → SessionParams → ClientControl
unfolding Jitter.reset
start_audio cfg st t sender_id session_id params = record st {
  shared = record {
    joined = true;
    sender_id = sender_id;
    session_id = session_id;
    from_host = record st.shared.from_host {
      jb = Jitter.reset st.shared.from_host.jb;
      last_rx_us = t.start_us;
    };
  };
  terminal_status =
      if same_params params cfg.params then st.terminal_status else some Status.parameter_mismatch;
  rejoin_deadline = some (t.now_ms + rejoin_window_ms);
  last_roster_seq = none;
}

-- Whether the rejoin window is still open.
abbrev pub in_window : Option ℕ → ℕ → Bool
in_window none now_ms = false
in_window (some deadline) now_ms = ltb now_ms deadline

unfoldable pub run_action : Config → ClientControl → Times → ClientAction → Option ClientControl
unfolding send_ctrl start_audio start_over
run_action cfg st t (ClientAction.send c) = send_ctrl cfg st c
run_action cfg st t (ClientAction.start_audio id session params) =
    some (start_audio cfg st t id session params)
run_action cfg st t (ClientAction.roster_update players) = some (record st { roster = players })
run_action cfg st t (ClientAction.failed (JoinFailure.denied reason)) =
    some (record st { terminal_status = some (Status.denied reason); rejoin_deadline = none })
run_action cfg st t (ClientAction.failed JoinFailure.timeout) =
    if in_window st.rejoin_deadline t.now_ms
    then start_over cfg st t.now_ms
    else some (record st { terminal_status = some Status.timed_out })

unfoldable pub run_actions :
    Config → ClientControl → Times → List ClientAction → Option ClientControl
unfolding run_action
run_actions cfg st t [] = some st
run_actions cfg st t (a ∷ actions) = do st' ← run_action cfg st t a; run_actions cfg st' t actions

-- Back to the handshake when the host has gone quiet.
unfoldable pub check_host : Config → ClientControl → Times → Option ClientControl
unfolding start_over Jitter.reset
check_host cfg st t =
    if st.shared.joined
      && ltb (peer_timeout_ms * 1000) (t.check_us - st.shared.from_host.last_rx_us)
    then start_over cfg
        (record st {
          shared = out_of_session st.shared;
          rejoin_deadline = some (t.now_ms + rejoin_window_ms);
        })
        t.now_ms
    else some st

unfoldable pub ping : Config → ClientControl → Times → Option ClientControl
unfolding send_ctrl
ping cfg st t =
    if st.shared.joined && leb ping_interval_ms (t.now_ms - st.last_ping)
    then send_ctrl cfg (record st { last_ping = t.now_ms }) (Control.ping t.ping_us)
    else some st

unfoldable pub keepalive : Config → ClientControl → Times → Option ClientControl
unfolding send_ctrl
keepalive cfg st t =
    if st.shared.joined && leb keepalive_ms (t.now_ms - st.last_keepalive)
    then send_ctrl cfg (record st { last_keepalive = t.now_ms }) Control.keepalive
    else some st

-- `build_client_snapshot` changes nothing but the display.
abbrev pub snapshot : ClientControl → Times → ClientControl
snapshot st t =
    if leb snapshot_interval_ms (t.now_ms - st.last_snapshot)
    then record st { last_snapshot = t.now_ms }
    else st

-- The end of the thread: BYE to the host, twice on a shutdown, once when the channel closes.
unfoldable pub goodbye : ℕ → Config → ClientControl → Option ClientControl
unfolding send_ctrl
goodbye zero cfg st = some st
goodbye (suc n) cfg st =
    if st.shared.joined then send_ctrl cfg st Control.bye >>= goodbye n cfg else some st

-- What a round meets: the values that the receive thread has stored in the stream since the last one,
-- the event, and the times.
pub record Turn : Type 0 where
  pub rx : JitterBuffer × ℕ
  pub event : Option CtrlEvent
  pub times : Times

abbrev pub stored : ClientControl → JitterBuffer × ℕ → ClientControl
stored st (jb, last_rx_us) = record st {
  shared = record st.shared {
    from_host = record st.shared.from_host { jb = jb; last_rx_us = last_rx_us };
  };
}

-- The ACK of a WELCOME.
abbrev pub ack_of : Header → Control
ack_of h = Control.ack h.seq (ptype_code h.ptype)

-- A call of the handshake: its new state is stored, its actions are for later.
abbrev pub with_actions :
    ClientControl → ClientHandshake × List ClientAction → ClientControl × List ClientAction
with_actions st (cs, actions) = (set_cs st cs, actions)

-- A round behind its event, with the actions that the event has brought.
unfoldable pub rest_of_round :
    Config → Times → ClientControl × List ClientAction → Option ClientControl
unfolding Client.tick run_actions check_host ping keepalive
rest_of_round cfg t (st, actions) = do
  let (cs, more) = Client.tick st.cs t.now_ms
  st2 ← run_actions cfg (set_cs st cs) t (actions ++ more)
  st3 ← check_host cfg st2 t
  st4 ← ping cfg st3 t
  st5 ← keepalive cfg st4 t
  some (snapshot st5 t)

module _ (ewma : ℕ → ℕ → ℕ) (to_u32 : ℕ → ℕ) where
  abbrev pub on_pong : ClientControl → ℕ → ClientControl
  on_pong st rtt = record st {
    shared = record st.shared {
      from_host = record st.shared.from_host {
        rtt_us = update_rtt ewma to_u32 st.shared.from_host.rtt_us rtt;
      };
    };
  }

  -- The `match` on an event's packet: the new state, and the actions to run.
  unfoldable pub on_control :
      Config → ClientControl → CtrlEvent → Control → Option (ClientControl × List ClientAction)
  unfolding send_as Client.on_control on_roster rtt_from_pong update_rtt Jitter.reset
  on_control cfg st ev (Control.welcome w) = do
    st' ← send_as cfg st (ack_of ev.header) w.session_id st.shared.sender_id
    some (with_actions st' (Client.on_control st'.cs (Control.welcome w)))
  on_control cfg st ev (Control.roster players) = some (on_roster st ev.header.seq players, [])
  on_control cfg st ev (Control.deny reason) =
      some (with_actions st (Client.on_control st.cs (Control.deny reason)))
  on_control cfg st ev (Control.pong t1 t2 t3) =
      some (on_pong st (rtt_from_pong ev.rx_us t1 t2 t3), [])
  on_control cfg st ev Control.bye =
      some ((if ev.header.session_id == st.shared.session_id then host_left st else st), [])
  on_control cfg st ev _ = some (st, [])

  unfoldable pub on_event :
      Config → ClientControl → Option CtrlEvent → Option (ClientControl × List ClientAction)
  unfolding on_control
  on_event cfg st none = some (st, [])
  on_event cfg st (some ev) = on_control cfg st ev ev.control

  -- One round of the thread's loop.
  unfoldable pub round : Config → ClientControl → Option CtrlEvent → Times → Option ClientControl
  unfolding on_event rest_of_round
  round cfg st event t = on_event cfg st event >>= rest_of_round cfg t

  -- The thread's loop, for as many rounds.
  unfoldable pub rounds : Config → ClientControl → List Turn → Option ClientControl
  unfolding round
  rounds cfg st [] = some st
  rounds cfg st (t ∷ turns) = do
    st' ← round cfg (stored st t.rx) t.event t.times
    rounds cfg st' turns
