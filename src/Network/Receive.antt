-- ===== src/Network/Receive.antt =====
-- The RX thread of crates/jam-core/src/net.rs, for one datagram. `F` is f32; the arguments `blend`,
-- `zero_f` and `bits` (`f32::to_bits`) are its operations, `media` is
-- `(timestamp as f64 * us_per_sample) as u64`.
pub mod Spoof
use online_jam.Prelude.{
  ℕ, suc, ◌+◌, ◌-◌, ◌%◌, Bool, true, false, not, ◌&&◌, ◌||◌, List, [], ◌∷◌, Option, none, some, ltb,
  leb, ◌==◌, if◌then◌else◌, Bytes, take, get_or, set, replicate,
}
use online_jam.Prelude.Options.{◌>>=◌}
use online_jam.Protocol.{host_sender_id, max_clients, u16_mod, u32_mod}
use online_jam.Protocol.Handshake.{SocketAddr}
use online_jam.Protocol.Packet.Outcome.{Outcome, ok, err, panic}
use online_jam.Protocol.Packet.Parse
use online_jam.Protocol.Packet.Write
use online_jam.Protocol.Packet.Types.{PacketType, Header, AudioPacket, Control, Payload}
use online_jam.Protocol.Seq.{wrapping_sub}
use online_jam.Audio.Jitter
use online_jam.Audio.Jitter.{JitterBuffer}
use online_jam.Session.{StreamShared, HostShared, ClientShared, stream_of}
use online_jam.Network.{AddrUpdate, CtrlEvent, AddrTable, addr_at, no_addrs, update_table}
use online_jam.Network.Arrival
use online_jam.Network.Arrival.{ArrivalJitter, on_arrival}

-- The host's tables, mirrored from the control thread, and the jitter estimates.
pub record Rx (F : Type 0) : Type 0 where
  pub client_addrs : AddrTable
  pub jitters : List (ArrivalJitter F)

-- The two readings of the clock: on receipt, and when a PONG is made.
pub record Times : Type 0 where
  pub now_us : ℕ
  pub reply_us : ℕ

-- What a datagram brings about, besides the new state of the streams: datagrams sent, and control
-- packets passed on.
pub record Received (S : Type 0) : Type 0 where
  pub state : S
  pub sent : List (SocketAddr × Bytes)
  pub events : List CtrlEvent

abbrev pub dropped : {S : Type 0} → S → Received S
dropped s = record { state = s; sent = []; events = [] }

abbrev pub pong_header : ℕ → Header → Header
pong_header sender_id h = record {
  ptype = PacketType.pong;
  session_id = h.session_id;
  sender_id = sender_id;
  seq = h.seq;
}

-- The answer to a PING; the buffer has 64 octets, and `none` is a panic.
unfoldable pub pong : Times → (sender_id : ℕ) → Header → (t1_us : ℕ) → Option Bytes
pong t sender_id h t1_us = do
  (out, n) ←
      Write.control (Control.pong t1_us t.now_us t.reply_us) (pong_header sender_id h)
        (replicate 64 0)
  some (take n out)

abbrev pub source : SocketAddr → Option SocketAddr → Bool
source from none = false
source from (some a) = a == from

-- `(1..=MAX_CLIENTS as u16).contains(&sender)`.
abbrev pub is_client : ℕ → Bool
is_client sender = leb 1 sender && leb sender max_clients

-- The redundant copy is the frame before.
unfoldable pub push_redundant :
    (frame_samples : ℕ) → Header → AudioPacket → JitterBuffer → JitterBuffer
unfolding Jitter.push
push_redundant frame_samples h audio jb = elim audio.redundant [
  | none ↦ jb
  | some red ↦
      (Jitter.push jb (wrapping_sub h.seq 1)
        ((audio.timestamp + u32_mod - frame_samples % u32_mod) % u32_mod) red).0
]

module _ {F : Type 0} (zero_f : F) (blend : F → ℕ → F) (bits : F → ℕ) (media : ℕ → ℕ) where
  unfoldable pub new : Rx F
  unfolding no_addrs Arrival.new
  new = record { client_addrs = no_addrs; jitters = replicate max_clients (Arrival.new zero_f) }

  unfoldable pub update : Rx F → AddrUpdate → Rx F
  unfolding update_table Arrival.new
  update rx (AddrUpdate.peer a) = rx
  update rx (AddrUpdate.client slot a) = record {
    client_addrs = update_table rx.client_addrs (AddrUpdate.client slot a);
    jitters = if ltb slot max_clients then set rx.jitters slot (Arrival.new zero_f) else rx.jitters;
  }

  -- An audio packet for a stream: the stream and the jitter estimate.
  unfoldable pub deliver :
      (frame_samples now_us : ℕ)
      → Header
      → AudioPacket
      → StreamShared × ArrivalJitter F
      → StreamShared × ArrivalJitter F
  unfolding on_arrival Jitter.publish_jitter_us Jitter.push push_redundant
  deliver frame_samples now_us h audio (s, j) =
      let j' = on_arrival blend j now_us (media audio.timestamp) in
      let jb = Jitter.publish_jitter_us s.jb (bits j'.j_us) in
      let jb' = (Jitter.push jb h.seq audio.timestamp audio.payload).0 in
      (record s { last_rx_us = now_us; jb = push_redundant frame_samples h audio jb' }, j')

  -- Audio at the host.
  unfoldable pub host_audio :
      (frame_samples now_us : ℕ)
      → SocketAddr
      → Header
      → AudioPacket
      → HostShared × Rx F
      → HostShared × Rx F
  unfolding deliver Arrival.new
  host_audio frame_samples now_us from h audio (shared, rx) =
      let slot = h.sender_id - 1 in
      if not (h.session_id == shared.session_id)
      then (shared, rx)
      else if not (is_client h.sender_id)
      then (shared, rx)
      else if not (source from (addr_at rx.client_addrs slot))
      then (shared, rx)
      else let (s, j) =
          deliver frame_samples now_us h audio
            (stream_of shared.clients slot, get_or rx.jitters slot (Arrival.new zero_f)) in
        (
          record shared { clients = set shared.clients slot s },
          record rx { jitters = set rx.jitters slot j },
        )

  -- A control packet at the host marks the stream of its sender, if the address fits.
  unfoldable pub host_control : (now_us : ℕ) → SocketAddr → Header → HostShared → Rx F → HostShared
  host_control now_us from h shared rx =
      let slot = h.sender_id - 1 in
      if is_client h.sender_id && source from (addr_at rx.client_addrs slot)
      then record shared {
        clients =
            set shared.clients slot
              (record (stream_of shared.clients slot) { last_rx_us = now_us });
      }
      else shared

  -- The thread's loop at the host, behind the parser.
  unfoldable pub host_parsed :
      (frame_samples : ℕ)
      → Times
      → SocketAddr
      → Outcome (Header × Payload)
      → HostShared × Rx F
      → Option (Received (HostShared × Rx F))
  unfolding pong host_audio host_control
  host_parsed frame_samples t from panic st = none
  host_parsed frame_samples t from (err _) st = some (dropped st)
  host_parsed frame_samples t from (ok (h, Payload.audio audio)) st =
      some (dropped (host_audio frame_samples t.now_us from h audio st))
  host_parsed frame_samples t from (ok (h, Payload.control (Control.ping t1_us))) st = do
    out ← pong t host_sender_id h t1_us
    some (record { state = st; sent = (from, out) ∷ []; events = [] })
  host_parsed frame_samples t from (ok (h, Payload.control control)) (shared, rx) = some (record {
    state = (host_control t.now_us from h shared rx, rx);
    sent = [];
    events = record { from = from; header = h; control = control; rx_us = t.now_us } ∷ [];
  })

  -- The thread's loop at the host, for one datagram.
  unfoldable pub at_host :
      (frame_samples : ℕ)
      → Times
      → SocketAddr
      → Bytes
      → HostShared × Rx F
      → Option (Received (HostShared × Rx F))
  unfolding host_parsed
  at_host frame_samples t from datagram st =
      host_parsed frame_samples t from (Parse.datagram datagram) st

  -- Audio at a client, from the host alone.
  unfoldable pub client_audio :
      (frame_samples now_us : ℕ)
      → (host_addr from : SocketAddr) → Header
      → AudioPacket
      → ClientShared × ArrivalJitter F
      → ClientShared × ArrivalJitter F
  unfolding deliver
  client_audio frame_samples now_us host_addr from h audio (shared, jitter) =
      if not (from == host_addr)
        || not (h.sender_id == host_sender_id)
        || not shared.joined
        || not (h.session_id == shared.session_id)
      then (shared, jitter)
      else let (s, j) = deliver frame_samples now_us h audio (shared.from_host, jitter) in
        (record shared { from_host = s }, j)

  -- The thread's loop at a client, behind the parser.
  unfoldable pub client_parsed :
      (frame_samples : ℕ)
      → Times
      → (host_addr from : SocketAddr) → Outcome (Header × Payload)
      → ClientShared × ArrivalJitter F
      → Option (Received (ClientShared × ArrivalJitter F))
  unfolding pong client_audio
  client_parsed frame_samples t host_addr from panic st = none
  client_parsed frame_samples t host_addr from (err _) st = some (dropped st)
  client_parsed frame_samples t host_addr from (ok (h, Payload.audio audio)) st =
      some (dropped (client_audio frame_samples t.now_us host_addr from h audio st))
  client_parsed frame_samples t host_addr from (ok (h, Payload.control (Control.ping t1_us)))
        (shared, j) =
      do
        out ← pong t shared.sender_id h t1_us
        some (record { state = (shared, j); sent = (from, out) ∷ []; events = [] })
  client_parsed frame_samples t host_addr from (ok (h, Payload.control control)) (shared, j) =
      if not (from == host_addr)
      then some (dropped (shared, j))
      else some (record {
        state =
            (record shared { from_host = record shared.from_host { last_rx_us = t.now_us } }, j);
        sent = [];
        events = record { from = from; header = h; control = control; rx_us = t.now_us } ∷ [];
      })

  -- The thread's loop at a client, for one datagram.
  unfoldable pub at_client :
      (frame_samples : ℕ)
      → Times
      → (host_addr from : SocketAddr) → Bytes
      → ClientShared × ArrivalJitter F
      → Option (Received (ClientShared × ArrivalJitter F))
  unfolding client_parsed
  at_client frame_samples t host_addr from datagram st =
      client_parsed frame_samples t host_addr from (Parse.datagram datagram) st
