-- ===== src/Protocol.antt =====
-- crates/jam-protocol/src/lib.rs: the constants of the protocol.
pub mod Seq
pub mod Packet
pub mod Handshake
use online_jam.Prelude.{ℕ, ◌^◌}

abbrev pub magic : ℕ
magic = 0xa5

abbrev pub protocol_version : ℕ
protocol_version = 1

abbrev pub max_clients : ℕ
max_clients = 4

abbrev pub host_sender_id : ℕ
host_sender_id = 0

abbrev pub unjoined_sender_id : ℕ
unjoined_sender_id = 0xffff

abbrev pub room_code_len : ℕ
room_code_len = 6

abbrev pub max_name_len : ℕ
max_name_len = 32

abbrev pub max_datagram : ℕ
max_datagram = 2048

abbrev pub control_retry_ms : ℕ
control_retry_ms = 100

abbrev pub control_max_tries : ℕ
control_max_tries = 10

abbrev pub keepalive_ms : ℕ
keepalive_ms = 500

abbrev pub peer_timeout_ms : ℕ
peer_timeout_ms = 5000

abbrev pub rejoin_window_ms : ℕ
rejoin_window_ms = 30000

-- The sizes of Rust's unsigned types.
abbrev pub u8_mod : ℕ
u8_mod = 2 ^ 8

abbrev pub u16_mod : ℕ
u16_mod = 2 ^ 16

abbrev pub u32_mod : ℕ
u32_mod = 2 ^ 32

abbrev pub u64_mod : ℕ
u64_mod = 2 ^ 64
