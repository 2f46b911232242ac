-- ===== src/Session.antt =====
-- The shared state of crates/jam-core/src/lib.rs, with solo and mute. An atomic is its value. The
-- gains are arguments of the pipelines, the counter of starved frames is a callback's, and the meters
-- are left out.
-- Index 0 of a player's flags is the host, 1 to 4 are the clients.
pub mod Solo
mod Tests
use online_jam.Prelude.{
  ℕ, suc, ◌-◌, Bool, false, not, ◌&&◌, ◌||◌, List, [], ◌∷◌, ◌==◌, if◌then◌else◌, get_or, replicate,
}
use online_jam.Protocol.{max_clients, unjoined_sender_id}
use online_jam.Audio.Jitter
use online_jam.Audio.Jitter.{JitterBuffer}

pub record StreamShared : Type 0 where
  pub active : Bool
  pub jb : JitterBuffer
  pub last_rx_us : ℕ
  pub rtt_us : ℕ

-- `StreamShared::default`.
unfoldable pub new_stream : StreamShared
unfolding Jitter.new
new_stream = record { active = false; jb = Jitter.new; last_rx_us = 0; rtt_us = 0 }

pub record HostShared : Type 0 where
  pub session_id : ℕ
  pub clients : List StreamShared
  pub muted : List Bool
  pub soloed : List Bool

unfoldable pub new : ℕ → HostShared
new session_id = record {
  session_id = session_id;
  clients = replicate max_clients new_stream;
  muted = replicate (suc max_clients) false;
  soloed = replicate (suc max_clients) false;
}

pub record ClientShared : Type 0 where
  pub joined : Bool
  pub sender_id : ℕ
  pub session_id : ℕ
  pub from_host : StreamShared

-- `ClientShared::default`.
unfoldable pub new_client : ClientShared
new_client = record {
  joined = false;
  sender_id = unjoined_sender_id;
  session_id = 0;
  from_host = new_stream;
}

-- The load of a flag, and a client's stream; the index is in range wherever the code reads one.
abbrev pub flag : List Bool → ℕ → Bool
flag flags p = get_or flags p false

abbrev pub stream_of : List StreamShared → ℕ → StreamShared
stream_of clients slot = get_or clients slot new_stream

abbrev pub is_present : HostShared → ℕ → Bool
is_present h p = p == 0 || (stream_of h.clients (p - 1)).active

unfoldable pub solo_counts : HostShared → ℕ → Bool
solo_counts h p = if flag h.muted p then false else is_present h p

-- `(p..p + flags.len()).any(..)`, with the flags from index `p` on.
unfoldable pub any_from : HostShared → ℕ → List Bool → Bool
unfolding solo_counts
any_from h p [] = false
any_from h p (s ∷ ss) = let rest = any_from h (suc p) ss in s && solo_counts h p || rest

unfoldable pub any_solo : HostShared → Bool
unfolding any_from
any_solo h = any_from h 0 h.soloed

unfoldable pub in_mix : HostShared → ℕ → Bool → Bool
in_mix h p any = not (flag h.muted p) && (not any || flag h.soloed p)
