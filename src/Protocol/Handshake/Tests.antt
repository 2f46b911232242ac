-- ===== src/Protocol/Handshake/Tests.antt =====
-- Runs of the handshake at concrete inputs.
use online_jam.Prelude.{
  ℕ, zero, suc, ◌+◌, ◌≤◌, ◌<◌, ◌≡◌, ◌≢◌, ◌↔◌, refl, List, [], ◌∷◌, none, some, arith, Bytes,
  bytes_eq,
}
use online_jam.Protocol.{control_max_tries}
use online_jam.Protocol.Packet.Types.{Control, Hello, DenyReason}
use online_jam.Protocol.Handshake.{default_params}
use online_jam.Protocol.Handshake.Client
use online_jam.Protocol.Handshake.Client.{
  ClientHandshake, ClientPhase, ClientAction, JoinFailure, start, on_control,
}
use online_jam.Protocol.Handshake.Client.Runs
use online_jam.Protocol.Handshake.Client.Runs.{
  Event, sends, sends-start, run-settled, IsSettled, start-gives_up, clocks,
}
use online_jam.Protocol.Handshake.Host
use online_jam.Protocol.Handshake.Host.{
  Slot, SlotState, HostHandshake, HostAction, slot_at, sender_id, sender_for_addr, client_addr,
  on_hello, on_bye, on_ack, welcome_sent, welcome_for, broadcast_roster, welcomed, deny,
}
use online_jam.Protocol.Handshake.Host.Admit.{seated, IsWanted}
use online_jam.Protocol.Handshake.Host.Answer.{
  Answer, welcome_of, on_hello-newcomer, on_hello-Answer,
}
use online_jam.Protocol.Handshake.Host.Seats.{each, seats, roster_of, IsStranger}
use online_jam.Protocol.Handshake.Host.Distinct.{IsHost}
use online_jam.Protocol.Handshake.Host.Expiry.{ticks, ticks-unacked}
use online_jam.Protocol.Handshake.Host.Invariant
use online_jam.Protocol.Handshake.Host.Invariant.{Call, run-new-IsHost}
use online_jam.Protocol.Handshake.Host.Mapping.{client_addr-sender_for_addr}
use online_jam.Protocol.Handshake.Times
use online_jam.Protocol.Handshake.Join.{join-completes}

abbrev code : Bytes
code = 65 ∷ 66 ∷ 67 ∷ 68 ∷ []

abbrev empty_host : HostHandshake
empty_host = Host.new code 7 default_params (72 ∷ [])

abbrev client_a : Hello
client_a = record {
  proto_version = 1;
  room_code = code;
  name = 97 ∷ [];
  codec_mask = 7;
  frame_mask = 3;
}

abbrev old_client : Hello
old_client = record client_a { proto_version = 2 }

-- The host with one client, at address 5, whose WELCOME went out at 1000.
abbrev host_1 : HostHandshake
host_1 = record empty_host { slots = some (welcomed 5 (97 ∷ []) 1000) ∷ none ∷ none ∷ none ∷ [] }

abbrev slot_1 : Slot
slot_1 = record { addr = 5; name = 97 ∷ []; state = SlotState.active; last_heard_ms = 1100 }

-- The same once the WELCOME is acknowledged.
abbrev host_2 : HostHandshake
host_2 = record empty_host { slots = some slot_1 ∷ none ∷ none ∷ none ∷ [] }

abbrev calls : List Call
calls = Call.hello 5 (Control.hello client_a) 1000 ∷ Call.sent 5 9 ∷ Call.ack 5 9 1100 ∷ []

test_join : Invariant.run empty_host calls ≡ host_2
unfolding Invariant.run Invariant.step on_hello welcome_sent on_ack Host.new bytes_eq
test_join = refl

host_1-IsHost : IsHost host_1
host_1-IsHost = record { four = refl; apart = (tt, tt) }

empty_host-IsHost : IsHost empty_host
unfolding Host.new
empty_host-IsHost = record { four = refl; apart = tt }

wanted : IsWanted host_1 client_a
unfolding IsWanted Host.new
wanted = (refl, refl)

has_5 : Host.position_addr 5 0 host_1.slots ≡ some 0
unfolding Host.position_addr
has_5 = refl

missed : Host.position_addr 6 0 host_1.slots ≡ none
unfolding Host.position_addr
missed = refl

free : Host.position_free 0 host_1.slots ≡ some 1
unfolding Host.position_free
free = refl

stranger : IsStranger 6 host_1.slots
stranger zero s e = ground arith
stranger (suc zero) s e = ground arith
stranger (suc (suc zero)) s e = ground arith
stranger (suc (suc (suc zero))) s e = ground arith
stranger (suc (suc (suc (suc j)))) s e = ground arith

first_taken : (j : ℕ) → j < 1 → slot_at host_1.slots j ≢ none
first_taken zero lt = ground arith
first_taken (suc j) lt = absurd (omega arith)

-- The host with four clients.
abbrev full_host : HostHandshake
full_host = record empty_host {
  slots =
      some (welcomed 5 (97 ∷ []) 1000)
      ∷ some (welcomed 6 (98 ∷ []) 1000)
      ∷ some (welcomed 7 (99 ∷ []) 1000)
      ∷ some (welcomed 8 (100 ∷ []) 1000)
      ∷ [];
}

full_host-IsHost : IsHost full_host
full_host-IsHost = record { four = refl; apart = ground arith }

run-new-IsHost_example : IsHost (Invariant.run (Host.new code 7 default_params (72 ∷ [])) calls)
run-new-IsHost_example = run-new-IsHost code 7 default_params (72 ∷ []) calls

client_addr-sender_for_addr_example :
    (sender_for_addr host_1 5 ≡ some 1) ↔ (client_addr host_1 1 ≡ some 5)
client_addr-sender_for_addr_example = client_addr-sender_for_addr host_1 5 1 host_1-IsHost

on_hello-newcomer_example :
    (on_hello host_1 6 (Control.hello client_a) 1200 ≡ (
      seated host_1 1 6 client_a.name 1200,
      HostAction.send 6 (Control.welcome (welcome_of (seated host_1 1 6 client_a.name 1200) 1))
          ∷ HostAction.client_joined 2 client_a.name
          ∷ each
              (λ j s.
                HostAction.send s.addr
                  (Control.roster (roster_of (seated host_1 1 6 client_a.name 1200))))
              host_1.slots
              seats,
    ))
    × (slot_at (seated host_1 1 6 client_a.name 1200).slots 1
        ≡ some (welcomed 6 client_a.name 1200))
    × ((j : ℕ)
        → 1 ≢ j
        → slot_at (seated host_1 1 6 client_a.name 1200).slots j ≡ slot_at host_1.slots j)
on_hello-newcomer_example =
    on_hello-newcomer host_1 6 client_a 1200 1 host_1-IsHost wanted stranger refl (omega arith)
      first_taken

on_hello-Answer_example :
    Answer full_host 9 client_a 1200
      (on_hello full_host 9 (Control.hello client_a) 1200).0
      (on_hello full_host 9 (Control.hello client_a) 1200).1
on_hello-Answer_example = on_hello-Answer full_host 9 client_a 1200 full_host-IsHost

join-completes_example :
    (w : Control) × (rest : List HostAction) × ((on_hello host_1 6
        (start (Client.new host_1.room_code (98 ∷ [])) 0).0.hello
        10).1
      ≡ HostAction.send 6 w ∷ rest)
    × ((on_control (start (Client.new host_1.room_code (98 ∷ [])) 0).0 w).0.phase
        ≡ ClientPhase.joined (sender_id 1) host_1.session_id host_1.params)
    × (slot_at
          (on_ack
            (welcome_sent
              (on_hello host_1 6 (start (Client.new host_1.room_code (98 ∷ [])) 0).0.hello 10).0
              6
              33)
            6
            33
            20).0.slots
          1
        ≡ some (record { addr = 6; name = 98 ∷ []; state = SlotState.active; last_heard_ms = 20 }))
    × (client_addr
          (on_ack
            (welcome_sent
              (on_hello host_1 6 (start (Client.new host_1.room_code (98 ∷ [])) 0).0.hello 10).0
              6
              33)
            6
            33
            20).0
          (sender_id 1)
        ≡ some 6)
join-completes_example = join-completes host_1 6 (98 ∷ []) 1 0 10 20 33 host_1-IsHost missed free

-- Nine tries were made; the tick after the tenth gives the slot up.
abbrev nearly : HostHandshake
nearly = record empty_host {
  slots =
      some (record {
        addr = 5;
        name = 97 ∷ [];
        state = SlotState.pending (some 3) 100 9;
        last_heard_ms = 0;
      })
      ∷ none
      ∷ none
      ∷ none
      ∷ [];
}

spaced : Times.Spaced 100 (400 ∷ 700 ∷ [])
unfolding Times.Spaced
spaced = omega arith

ticks-unacked_example : slot_at (ticks nearly (400 ∷ 700 ∷ [])).slots 0 ≡ none
ticks-unacked_example =
    ticks-unacked 1 nearly 0
      (record {
        addr = 5;
        name = 97 ∷ [];
        state = SlotState.pending (some 3) 100 9;
        last_heard_ms = 0;
      })
      (some 3) 100 9 (400 ∷ 700 ∷ []) refl refl (omega arith) spaced (omega arith)

abbrev client_0 : ClientHandshake
client_0 = record { phase = ClientPhase.idle; hello = Control.hello client_a }

sends-start_example :
    sends (start client_0 0).1
      + sends (Runs.run (start client_0 0).0 (Event.clock 300 ∷ Event.clock 600 ∷ [])).1
    ≤ control_max_tries
sends-start_example = sends-start client_0 0 (Event.clock 300 ∷ Event.clock 600 ∷ [])

abbrev times : List ℕ
times = 250 ∷ 500 ∷ 750 ∷ 1000 ∷ 1250 ∷ 1500 ∷ 1750 ∷ 2000 ∷ 2250 ∷ 2500 ∷ []

times-Spaced : Times.Spaced 0 times
unfolding Times.Spaced
times-Spaced = omega arith

start-gives_up_example :
    (Runs.run (start client_0 0).0 (clocks times)).0.phase ≡ ClientPhase.failed JoinFailure.timeout
start-gives_up_example = start-gives_up client_0 0 times times-Spaced (omega arith)

abbrev joined_client : ClientHandshake
joined_client = record client_0 { phase = ClientPhase.joined 1 7 default_params }

run-settled_example :
    ((Runs.run joined_client (Event.received (Control.deny DenyReason.room_full) ∷ [])).0
      ≡ joined_client)
    × (sends (Runs.run joined_client (Event.received (Control.deny DenyReason.room_full) ∷ [])).1
        ≡ 0)
run-settled_example =
    run-settled joined_client (ClientPhase.joined 1 7 default_params)
      (Event.received (Control.deny DenyReason.room_full) ∷ []) refl
      (IsSettled.joined 1 7 default_params)
