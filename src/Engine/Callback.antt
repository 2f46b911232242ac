-- ===== src/Engine/Callback.antt =====
-- The `process` closures of `start_host_audio` and `start_client_audio` of crates/jam-core/src/engine.rs:
-- from the capture ring through a pipeline to the ring of the transmit thread.
pub mod Total
use online_jam.Prelude.{
  ℕ, Bool, List, [], ◌∷◌, ◌++◌, Option, none, some, ltb, if◌then◌else◌, Bytes, length,
}
use online_jam.Prelude.Options.{◌>>=◌}
use online_jam.Audio.Codec.{Codecs, AudioDecoder}
use online_jam.Audio.Mixer.{Real, zero_f}
use online_jam.Playout.{Dsp}
use online_jam.Session.{HostShared, ClientShared}
use online_jam.Network.Transmit
use online_jam.Network.Transmit.{TxItem, dest_peer}
use online_jam.Pipeline.Host
use online_jam.Pipeline.Host.{HostPipeline, HostTick}
use online_jam.Pipeline.Client
use online_jam.Pipeline.Client.{ClientPipeline, ClientTick}
use online_jam.Engine.{Captured, capture}

-- The ring of the transmit thread.
abbrev pub tx_cap : ℕ
tx_cap = 256

-- `let _ = tx.push(TxItem::new(dest, bytes))` for each datagram: what does not fit is dropped.
unfoldable pub queue : List (ℕ × Bytes) → List TxItem → Option (List TxItem)
unfolding Transmit.new
queue [] tx = some tx
queue ((dest, bytes) ∷ items) tx = do
  item ← Transmit.new dest bytes
  queue items (if ltb (length tx) tx_cap then tx ++ item ∷ [] else tx)

-- What the host's closure owns and shares.
pub record HostAudio (N D R E F S : Type 0) : Type 0 where
  pub pipeline : HostPipeline N D R E F S
  pub shared : HostShared
  pub ring : List S
  pub tx : List TxItem
  pub starved : ℕ

pub record ClientAudio (N D R E F S : Type 0) : Type 0 where
  pub pipeline : ClientPipeline N D R E F S
  pub shared : ClientShared
  pub ring : List S
  pub tx : List TxItem
  pub starved : ℕ

abbrev pub to_peer : Option Bytes → List (ℕ × Bytes)
to_peer none = []
to_peer (some bytes) = (dest_peer, bytes) ∷ []

module _ {N D R E G F S : Type 0} (real : Real S) (lib : Codecs N D S)
    (dsp : Dsp (AudioDecoder D) R E G F S) (hw_buffer : ℕ) where
  unfoldable pub host_callback :
      (gains : List S)
      → (monitor_gain : S) → HostAudio N D R E F S
      → Option (HostAudio N D R E F S × List S)
  unfolding capture Host.process_frame queue
  host_callback gains monitor_gain a = do
    let frame = a.pipeline.frame
    let c = capture (zero_f real) frame hw_buffer a.ring a.starved
    t ← Host.process_frame real lib dsp a.pipeline a.shared gains monitor_gain c.local_in frame
    tx ← queue t.emitted a.tx
    some (
      record {
        pipeline = t.pipeline;
        shared = t.shared;
        ring = c.ring;
        tx = tx;
        starved = c.starved;
      },
      t.out,
    )

  unfoldable pub client_callback :
      (master_gain monitor_gain : S)
      → ClientAudio N D R E F S
      → Option (ClientAudio N D R E F S × List S)
  unfolding capture Client.process_frame queue
  client_callback master_gain monitor_gain a = do
    let frame = a.pipeline.frame
    let c = capture (zero_f real) frame hw_buffer a.ring a.starved
    t ←
        Client.process_frame real lib dsp a.pipeline a.shared master_gain monitor_gain c.local_in
          frame
    tx ← queue (to_peer t.emitted) a.tx
    some (
      record {
        pipeline = t.pipeline;
        shared = t.shared;
        ring = c.ring;
        tx = tx;
        starved = c.starved;
      },
      t.out,
    )
