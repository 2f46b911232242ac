-- ===== src/Protocol/Handshake/Client.antt =====
-- The client's side of crates/jam-protocol/src/handshake.rs. A method returns the new state and
-- its actions; `now_ms` is an argument. On u64, `saturating_sub` is the subtraction of ℕ.
pub mod Runs
use online_jam.Prelude.{ℕ, ◌+◌, ◌-◌, List, [], ◌∷◌, ltb, leb, if◌then◌else◌, Bytes}
use online_jam.Protocol.{protocol_version, control_retry_ms, control_max_tries}
use online_jam.Protocol.Handshake.{SessionParams}
use online_jam.Protocol.Packet.Types.{Control, Welcome, DenyReason, PlayerInfo}

pub data JoinFailure : Type 0 where
  denied : DenyReason → JoinFailure
  timeout : JoinFailure

pub data ClientPhase : Type 0 where
  idle : ClientPhase
  joining : (last_tx_ms tries : ℕ) → ClientPhase
  joined : (sender_id session_id : ℕ) → SessionParams → ClientPhase
  failed : JoinFailure → ClientPhase

pub data ClientAction : Type 0 where
  send : Control → ClientAction
  start_audio : (sender_id session_id : ℕ) → SessionParams → ClientAction
  roster_update : List PlayerInfo → ClientAction
  failed : JoinFailure → ClientAction

pub record ClientHandshake : Type 0 where
  pub phase : ClientPhase
  pub hello : Control

unfoldable pub new : Bytes → Bytes → ClientHandshake
new code name = record {
  phase = ClientPhase.idle;
  hello = Control.hello (record {
    proto_version = protocol_version;
    room_code = code;
    name = name;
    codec_mask = 7;
    frame_mask = 3;
  });
}

unfoldable pub start : ClientHandshake → ℕ → ClientHandshake × List ClientAction
start c now = (record c { phase = ClientPhase.joining now 1 }, ClientAction.send c.hello ∷ [])

-- `tick` in the phase given.
unfoldable pub tick_in : ClientPhase → ClientHandshake → ℕ → ClientHandshake × List ClientAction
tick_in (ClientPhase.joining last_tx_ms tries) c now =
    if ltb (now - last_tx_ms) control_retry_ms
    then (c, [])
    else if leb control_max_tries tries
    then (
      record c { phase = ClientPhase.failed JoinFailure.timeout },
      ClientAction.failed JoinFailure.timeout ∷ [],
    )
    else (record c { phase = ClientPhase.joining now (tries + 1) }, ClientAction.send c.hello ∷ [])
tick_in _ c now = (c, [])

unfoldable pub tick : ClientHandshake → ℕ → ClientHandshake × List ClientAction
unfolding tick_in
tick c now = tick_in c.phase c now

-- The parameters that a WELCOME carries.
abbrev pub welcome_params : Welcome → SessionParams
welcome_params w = record {
  sample_rate = w.sample_rate;
  frame_samples = w.frame_samples;
  codec = w.codec;
}

-- `on_control` in the phase given.
unfoldable pub on_control_in :
    ClientPhase → ClientHandshake → Control → ClientHandshake × List ClientAction
on_control_in (ClientPhase.joining _ _) c (Control.welcome w) = (
  record c { phase = ClientPhase.joined w.assigned_id w.session_id (welcome_params w) },
  ClientAction.start_audio w.assigned_id w.session_id (welcome_params w)
      ∷ ClientAction.roster_update w.roster
      ∷ [],
)
on_control_in (ClientPhase.joining _ _) c (Control.deny reason) = (
  record c { phase = ClientPhase.failed (JoinFailure.denied reason) },
  ClientAction.failed (JoinFailure.denied reason) ∷ [],
)
on_control_in (ClientPhase.joined _ _ _) c (Control.roster players) =
    (c, ClientAction.roster_update players ∷ [])
on_control_in _ c _ = (c, [])

unfoldable pub on_control : ClientHandshake → Control → ClientHandshake × List ClientAction
unfolding on_control_in
on_control c control = on_control_in c.phase c control
