-- ===== src/Audio.antt =====
-- crates/jam-audio: the blocks between the network and the audio callback.
pub mod Codec
pub mod Fifo
pub mod Jitter
pub mod Mixer
pub mod Playout
use online_jam.Prelude.{ℕ}

-- The constant of crates/jam-audio/src/lib.rs.
abbrev pub max_frame_bytes : ℕ
max_frame_bytes = 1024

abbrev pub max_frame_samples : ℕ
max_frame_samples = 240
