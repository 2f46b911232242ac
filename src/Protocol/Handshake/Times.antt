-- ===== src/Protocol/Handshake/Times.antt =====
-- Times at which the embedding control loop ticks a handshake.
use online_jam.Prelude.{ℕ, ◌+◌, ◌≤◌, List, [], ◌∷◌}
use online_jam.Protocol.{control_retry_ms}

-- Each time is at least one retry interval after the one before it.
unfoldable pub Spaced : ℕ → List ℕ → Type 0
Spaced last [] = Unit
Spaced last (t ∷ ts) = last + control_retry_ms ≤ t × Spaced t ts
