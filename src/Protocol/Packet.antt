-- ===== src/Protocol/Packet.antt =====
-- crates/jam-protocol/src/packet.rs: the wire format.
pub mod Outcome
pub mod Types
pub mod Text
pub mod Endian
pub mod Writer
pub mod Reader
pub mod Write
pub mod Parse
pub mod Layout
pub mod RoundTrip
pub mod Accept
mod Tests
