-- ===== src/Control/Tests.antt =====
-- Runs of the control threads, and uses of their theorems.
use online_jam.Prelude.Options.{◌>>=◌}
use online_jam.Prelude.{
  true, ◌++◌, length-replicate, ℕ, ◌+◌, ◌*◌, ◌/◌, ◌≡◌, refl, List, [], ◌∷◌, Option, none, some,
  Bytes, map,
}
use online_jam.Audio.Jitter
use online_jam.Protocol.Handshake.{SocketAddr, SessionParams}
use online_jam.Protocol.Handshake.Host.Distinct.{addresses}
use online_jam.Protocol.Packet.Types.{PacketType, Codec, Control, Welcome}
use online_jam.Session
use online_jam.Session.{new_client}
use online_jam.Network.{CtrlEvent}
use online_jam.Protocol.Handshake
use online_jam.Protocol.Handshake.Client.{ClientPhase}
use online_jam.Control.{Datagram, new_io}
use online_jam.Control.Client
use online_jam.Control.Client.{Config, ClientControl, Times}
use online_jam.Control.Client.Consistent.{IsJoined, IsConsistent, IsConfig, hello-Fits}
use online_jam.Control.Client.Rounds.{ack_datagram, rounds-new-IsJoined, round-acks_welcome}
use online_jam.Control.Host
use online_jam.Control.Host.{HostControl, Turn, rounds}
use online_jam.Control.Host.Effect.{table, actives, is_some}
use online_jam.Control.Host.Rounds.{rounds-new-Mirrors}

abbrev average : ℕ → ℕ → ℕ
average old sample = (4 * old + sample) / 5

abbrev same_us : ℕ → ℕ
same_us us = us

abbrev room : Bytes
room = 65 ∷ 66 ∷ 67 ∷ 68 ∷ 69 ∷ 70 ∷ []

abbrev stereo : SessionParams
stereo = record { sample_rate = 48000; frame_samples = 120; codec = Codec.pcm_s16 }

abbrev event : SocketAddr → PacketType → Control → CtrlEvent
event from ptype control = record {
  from = from;
  header = record { ptype = ptype; session_id = 7; sender_id = 0; seq = 0 };
  control = control;
  rx_us = 0;
}

abbrev hello_event : CtrlEvent
hello_event = event 11 PacketType.hello (
    Control.hello (record {
      proto_version = 1;
      room_code = room;
      name = 97 ∷ [];
      codec_mask = 7;
      frame_mask = 1;
    }))

abbrev turn : ℕ → Option CtrlEvent → Turn
turn now_ms ev = record {
  rx = λ slot. (Jitter.new, 0);
  event = ev;
  now_ms = now_ms;
  ping_us = λ i. now_ms * 1000 + i;
}

abbrev turns : List Turn
turns =
    turn 10 (some hello_event)
    ∷ turn 60 none
    ∷ turn 110 (some (event 11 PacketType.bye Control.bye))
    ∷ []

abbrev host_start : HostControl
host_start = Host.new room stereo (104 ∷ []) (Session.new 7)

rounds-new-Mirrors_example :
    (st : HostControl) × (rounds average same_us host_start turns ≡ some st)
    × (table st ≡ addresses st.hs.slots)
    × (actives st ≡ map is_some (addresses st.hs.slots))
rounds-new-Mirrors_example = rounds-new-Mirrors average same_us room stereo (104 ∷ []) 7 turns

abbrev config : Config
config = record { room_code = room; name = 97 ∷ []; params = stereo; host_addr = 5 }

config-IsConfig : IsConfig config
config-IsConfig = record { code = refl }

abbrev times : ℕ → Times
times now_ms = record {
  now_ms = now_ms;
  start_us = now_ms * 1000;
  check_us = now_ms * 1000;
  ping_us = now_ms * 1000;
}

abbrev welcome : Welcome
welcome = record {
  assigned_id = 1;
  session_id = 7;
  sample_rate = 48000;
  frame_samples = 120;
  codec = Codec.pcm_s16;
  roster = [];
}

abbrev welcome_event : CtrlEvent
welcome_event = event 5 PacketType.welcome (Control.welcome welcome)

abbrev client_turn : ℕ → Option CtrlEvent → Client.Turn
client_turn now_ms ev = record { rx = (Jitter.new, 0); event = ev; times = times now_ms }

abbrev client_turns : List Client.Turn
client_turns = client_turn 10 (some welcome_event) ∷ client_turn 60 none ∷ []

rounds-new-IsJoined_example :
    (st : ClientControl) × ((Client.new config new_client 0 1 >>= λ st0.
    Client.rounds average same_us config st0 client_turns)
      ≡ some st)
    × IsJoined st
rounds-new-IsJoined_example =
    rounds-new-IsJoined average same_us config 0 1 client_turns config-IsConfig

-- A client that has joined, and of whose ACK the host has not heard.
abbrev joined_client : ClientControl
joined_client =
    record (Client.idle config (record new_client { joined = true; sender_id = 1; session_id = 7 })
      0) {
        cs = record (Handshake.Client.new room (97 ∷ [])) { phase = ClientPhase.joined 1 7 stereo };
      }

joined_client-IsConsistent : IsConsistent joined_client
unfolding Client.idle new_io Handshake.Client.new new_client
joined_client-IsConsistent = record {
  buffer = length-replicate {A = ℕ} 2048 0;
  hello = hello-Fits config config-IsConfig;
  joined = λ inside. (stereo, refl);
}

round-acks_welcome_example :
    (st' : ClientControl) × (rest : List Datagram) × (Client.round average same_us config
        joined_client
        (some welcome_event)
        (times 20)
      ≡ some st')
    × (st'.sent
        ≡ (joined_client.sent
            ++ (ack_datagram config joined_client welcome_event.header welcome ∷ []))
          ++ rest)
round-acks_welcome_example =
    round-acks_welcome average same_us config joined_client welcome_event welcome (times 20)
      config-IsConfig joined_client-IsConsistent refl
