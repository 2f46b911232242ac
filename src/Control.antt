-- ===== src/Control.antt =====
-- crates/jam-core/src/control.rs: the control threads of the host and of a client. The socket and
-- the channels are lists of what passes through them; the snapshots for display are left out.
pub mod Client
pub mod Host
pub mod Room
mod Tests
use online_jam.Prelude.{ℕ, ◌-◌, Option, none, some, Bytes, take, replicate, if◌then◌else◌, ◌==◌}
use online_jam.Prelude.Options.{◌>>=◌}
use online_jam.Protocol.{max_datagram}
use online_jam.Protocol.Handshake.{SocketAddr}
use online_jam.Protocol.Packet.Types.{Header, Control, packet_type}
use online_jam.Protocol.Packet.Write
use online_jam.Protocol.Seq
use online_jam.Protocol.Seq.{SeqGen, next}

abbrev pub ping_interval_ms : ℕ
ping_interval_ms = 1000

abbrev pub snapshot_interval_ms : ℕ
snapshot_interval_ms = 500

pub record ControlIo : Type 0 where
  pub seq : SeqGen
  pub buf : Bytes

unfoldable pub new_io : ControlIo
unfolding Seq.new
new_io = record { seq = Seq.new; buf = replicate max_datagram 0 }

-- A datagram on its way to an address.
abbrev pub Datagram : Type 0
Datagram = SocketAddr × Bytes

abbrev pub control_header : Control → ℕ → ℕ → ℕ → Header
control_header control session_id sender_id seq = record {
  ptype = packet_type control;
  session_id = session_id;
  sender_id = sender_id;
  seq = seq;
}

-- `ControlIo::send`: the sequence number and the datagram come with the new state; `none` is a
-- panic of `Control::write`.
unfoldable pub send :
    ControlIo
    → Control
    → (session_id sender_id : ℕ) → SocketAddr
    → Option (ControlIo × ℕ × Datagram)
unfolding next
send io control session_id sender_id to = do
  (buf, n) ←
      Write.control control (control_header control session_id sender_id (next io.seq).0) io.buf
  some (record { seq = (next io.seq).1; buf = buf }, (next io.seq).0, (to, take n buf))

-- `update_rtt`; `ewma` is the float computation for an old value that is not 0.
unfoldable pub update_rtt : (ℕ → ℕ → ℕ) → (to_u32 : ℕ → ℕ) → ℕ → ℕ → ℕ
update_rtt ewma to_u32 old sample_us = if old == 0 then to_u32 sample_us else ewma old sample_us

-- The subtractions saturate.
unfoldable pub rtt_from_pong : (rx_us t1_us t2_us t3_us : ℕ) → ℕ
rtt_from_pong rx_us t1_us t2_us t3_us = rx_us - t1_us - (t3_us - t2_us)
