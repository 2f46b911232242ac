-- ===== src/Network/Transmit.antt =====
-- The TX thread of crates/jam-core/src/net.rs. The float comparison of the loss simulation,
-- `roll < simulate_loss`, is an argument `drops` on the generator's 24 bits.
use online_jam.Prelude.{
  ℕ, ◌+◌, ◌*◌, ◌/◌, ◌%◌, ◌^◌, Bool, ◌&&◌, List, [], ◌∷◌, Option, none, some, ltb, ◌==◌,
  if◌then◌else◌, Bytes, length, take, replicate, ◌++◌, drop,
}
use online_jam.Protocol.{max_datagram, u16_mod, u64_mod}
use online_jam.Protocol.Handshake.{SocketAddr}
use online_jam.Network.{AddrUpdate, AddrTable, addr_at, no_addrs, update_table}

-- `DEST_PEER` of crates/jam-core/src/pipeline.rs.
abbrev pub dest_peer : ℕ
dest_peer = 255

pub record TxItem : Type 0 where
  pub dest : ℕ
  pub len : ℕ
  pub buf : Bytes

-- `TxItem::new`; `none` is a panic, where the datagram is longer than the buffer.
unfoldable pub new : ℕ → Bytes → Option TxItem
new dest bytes =
    if ltb max_datagram (length bytes)
    then none
    else some (record {
      dest = dest;
      len = length bytes % u16_mod;
      buf = bytes ++ drop (length bytes) (replicate max_datagram 0);
    })

-- The thread's state: its tables and the generator of the loss simulation.
pub record Tx : Type 0 where
  pub clients : AddrTable
  pub peer : Option SocketAddr
  pub rng : ℕ

unfoldable pub new_tx : Tx
unfolding no_addrs
new_tx = record { clients = no_addrs; peer = none; rng = 0x9e3779b97f4a7c15 }

unfoldable pub update : Tx → AddrUpdate → Tx
unfolding update_table
update t (AddrUpdate.peer a) = record t { peer = some a }
update t (AddrUpdate.client slot a) = record t {
  clients = update_table t.clients (AddrUpdate.client slot a);
}

-- One step of the generator.
abbrev pub next_rng : ℕ → ℕ
next_rng r = (r * 6364136223846793005 + 1442695040888963407) % u64_mod

abbrev pub dest_addr : Tx → ℕ → Option SocketAddr
dest_addr t dest = if dest == dest_peer then t.peer else addr_at t.clients dest

-- What one item sends, `&item.buf[..item.len]`.
abbrev pub sent_item : Tx → TxItem → List (SocketAddr × Bytes)
sent_item t item = elim (dest_addr t item.dest) [
  | none ↦ []
  | some a ↦ (a, take item.len item.buf) ∷ []
]

-- The inner loop: the items of the ring, in order. `simulate` is `simulate_loss > 0.0`.
unfoldable pub drain : (ℕ → Bool) → Bool → Tx → List TxItem → Tx × List (SocketAddr × Bytes)
drain drops simulate t [] = (t, [])
drain drops simulate t (item ∷ items) =
    let t' = if simulate then record t { rng = next_rng t.rng } else t in
    let (t'', sent) = drain drops simulate t' items in
    if simulate && drops (t'.rng / 2 ^ 40) then (t'', sent) else (t'', sent_item t' item ++ sent)
