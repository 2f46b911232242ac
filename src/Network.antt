-- ===== src/Network.antt =====
-- crates/jam-core/src/net.rs: the datagrams that come in and go out. Sockets, channels and the ring
-- between the threads are lists of what passes through them.
pub mod Arrival
pub mod Receive
pub mod Transmit
mod Tests
use online_jam.Prelude.{
  ℕ, List, Option, none, some, Bytes, ltb, if◌then◌else◌, set, get_or, replicate,
}
use online_jam.Protocol.{max_clients}
use online_jam.Protocol.Handshake.{SocketAddr}
use online_jam.Protocol.Packet.Types.{Header, Control}

-- An update of the address tables, from the control thread to the other two.
pub data AddrUpdate : Type 0 where
  client : (slot : ℕ) → Option SocketAddr → AddrUpdate
  peer : SocketAddr → AddrUpdate

-- A control packet on its way to the control thread.
pub record CtrlEvent : Type 0 where
  pub from : SocketAddr
  pub header : Header
  pub control : Control
  pub rx_us : ℕ

-- `[Option<SocketAddr>; MAX_CLIENTS]`.
abbrev pub AddrTable : Type 0
AddrTable = List (Option SocketAddr)

unfoldable pub no_addrs : AddrTable
no_addrs = replicate max_clients none

-- The address of a slot, where there is one.
abbrev pub addr_at : AddrTable → ℕ → Option SocketAddr
addr_at table slot = get_or table slot none

-- What an update does to the table of clients.
unfoldable pub update_table : AddrTable → AddrUpdate → AddrTable
update_table table (AddrUpdate.client slot addr) =
    if ltb slot max_clients then set table slot addr else table
update_table table (AddrUpdate.peer _) = table
