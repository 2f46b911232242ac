-- ===== src/Protocol/Handshake.antt =====
-- crates/jam-protocol/src/handshake.rs: joining and leaving a session.
pub mod Client
pub mod Host
pub mod Join
mod Tests
pub mod Times
use online_jam.Prelude.{ℕ}
use online_jam.Protocol.Packet.Types.{Codec}

-- `std::net::SocketAddr`. Addresses are only copied and compared, so a number stands for each.
abbrev pub SocketAddr : Type 0
SocketAddr = ℕ

pub record SessionParams : Type 0 where
  pub sample_rate : ℕ
  pub frame_samples : ℕ
  pub codec : Codec

-- `SessionParams::default`.
abbrev pub default_params : SessionParams
default_params = record { sample_rate = 48000; frame_samples = 120; codec = Codec.opus }
