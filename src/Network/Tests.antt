-- ===== src/Network/Tests.antt =====
-- Runs of the network threads, with whole microseconds for floats, and uses of their theorems.
use online_jam.Prelude.{ℕ, ◌+◌, ◌*◌, ◌/◌, ◌≡◌, refl, true, false, [], ◌∷◌, some, Bytes}
use online_jam.Session
use online_jam.Session.{HostShared}
use online_jam.Network.{AddrUpdate, update_table, no_addrs}
use online_jam.Network.Receive
use online_jam.Network.Receive.{Rx, Times, Received, at_host}
use online_jam.Network.Receive.Spoof.{Spares, at_host-Spares}
use online_jam.Network.Transmit
use online_jam.Network.Transmit.{TxItem, Tx, drain, new_tx, dest_peer}

abbrev blend : ℕ → ℕ → ℕ
blend j d = (15 * j + d) / 16

abbrev bits : ℕ → ℕ
bits j = j

abbrev media : ℕ → ℕ
media timestamp = timestamp * 20

-- An audio packet of client 1 in session 7.
abbrev audio_datagram : Bytes
audio_datagram = 0xa5 ∷ 0x10 ∷ 0 ∷ 7 ∷ 0 ∷ 1 ∷ 0 ∷ 5 ∷ 0 ∷ 0 ∷ 0 ∷ 120 ∷ 1 ∷ 0 ∷ 0 ∷ 1 ∷ 9 ∷ []

-- Client 1 is at address 11.
abbrev tables : Rx ℕ
tables =
    Receive.update 0 blend bits media (Receive.new 0 blend bits media)
      (AddrUpdate.client 0 (some 11))

abbrev times : Times
times = record { now_us = 5000; reply_us = 5001 }

abbrev shared : HostShared
shared = Session.new 7

at_host-Spares_example :
    (r : Received (HostShared × Rx ℕ)) × (at_host 0 blend bits media 120 times 99 audio_datagram
        (shared, tables)
      ≡ some r)
    × Spares 99 (shared, tables) r.state
at_host-Spares_example = at_host-Spares 0 blend bits media 120 times 99 audio_datagram shared tables

abbrev tx : Tx
tx = Transmit.update (Transmit.update new_tx (AddrUpdate.client 0 (some 11))) (AddrUpdate.peer 5)

abbrev item : ℕ → TxItem
item dest = record { dest = dest; len = 1; buf = 9 ∷ 0 ∷ [] }

-- Items for a client, for a free slot and for the peer.
test_drain :
    (drain (λ roll. true) false tx (item 0 ∷ item 2 ∷ item dest_peer ∷ [])).1
    ≡ (11, 9 ∷ []) ∷ (5, 9 ∷ []) ∷ []
unfolding drain Transmit.update new_tx update_table no_addrs
test_drain = refl
