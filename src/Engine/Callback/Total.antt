-- ===== src/Engine/Callback/Total.antt =====
-- The closures of crates/jam-core/src/engine.rs never panic.
use online_jam.Prelude.{
  ℕ, suc, ◌%◌, ◌≤◌, ◌≡◌, refl, ◌∙◌, inl, inr, Bool, true, false, List, [], ◌∷◌, ◌++◌, Option, none,
  some, arith, ltb, Bool-cases, All, Bytes, length, drop, replicate, length-append,
}
use online_jam.Protocol.{max_datagram, u16_mod, host_sender_id}
use online_jam.Audio.Codec.{Codecs, AudioDecoder, Result}
use online_jam.Audio.Codec.Sound.{IsCodecs}
use online_jam.Audio.Mixer.{Real, zero_f}
use online_jam.Playout.{Dsp}
use online_jam.Playout.Pull.{IsDsp}
use online_jam.Session.{StreamShared}
use online_jam.Network.Transmit
use online_jam.Network.Transmit.{TxItem, dest_peer}
use online_jam.Pipeline.{EngineParams, Sender}
use online_jam.Pipeline.Send.{Steps}
use online_jam.Pipeline.Host.{Lane}
use online_jam.Pipeline.Host.Lanes.{Round}
use online_jam.Pipeline.Host.Total.{IsHost, IsHostShared, heard, host_frame-IsHostTick}
use online_jam.Pipeline.Client.Total.{IsClient, IsClientShared, client_frame-IsClientTick}
use online_jam.Engine.{capture}
use online_jam.Engine.Capture.{capture-newest}
use online_jam.Engine.Output.{IsSource}
use online_jam.Engine.Callback.{
  HostAudio, ClientAudio, queue, to_peer, host_callback, client_callback,
}

-- A datagram that the transmit thread has room for.
abbrev IsSmall : ℕ × Bytes → Type 0
IsSmall item = length item.1 ≤ max_datagram

queue-Returns :
    (items : List (ℕ × Bytes)) (tx : List TxItem)
    → All IsSmall items
    → length tx ≤ 256
    → (tx' : List TxItem) × (queue items tx ≡ some tx') × (length tx' ≤ 256)
unfolding queue Transmit.new
queue-Returns [] tx small room = (tx, refl, room)
queue-Returns ((dest, bytes) ∷ items) tx (small, rest) room =
    let fits : ltb max_datagram (length bytes) ≡ false = ground arith in
    let item : TxItem = record {
      dest = dest;
      len = length bytes % u16_mod;
      buf = bytes ++ drop (length bytes) (replicate max_datagram 0);
    } in
    let l = length-append tx (item ∷ []) in
    elim (Bool-cases (ltb (length tx) 256)) [
      | inl free ↦
          let (tx', e, room') = queue-Returns items (tx ++ item ∷ []) rest (ground arith) in
          (tx', rw (queue, Transmit.new, fits, free) e, room')
      | inr full ↦
          let (tx', e, room') = queue-Returns items tx rest room in
          (tx', rw (queue, Transmit.new, fits, full) e, room')
    ]

Steps-IsSmall :
    {N D S : Type 0} (lib : Codecs N D S) (params : EngineParams) (session_id sender_id clock : ℕ)
    (pcm : List S) (s s' : Sender N) (buf buf' bytes : Bytes)
    → Steps lib params session_id sender_id clock pcm s s' buf buf' (some bytes)
    → length bytes ≤ max_datagram
Steps-IsSmall lib params session_id sender_id clock pcm s s' buf buf' bytes
      (Result.done len, encoded, (carries, same)) =
    carries.size
Steps-IsSmall lib params session_id sender_id clock pcm s s' buf buf' bytes
      (Result.failed _, encoded, none_out) =
    absurd none_out

module _ {N D R E F S : Type 0} (lib : Codecs N D S) (params : EngineParams)
    (session_id clock : ℕ) where
  Round-IsSmall :
      (c : ℕ) (buf : Bytes) (streams : List StreamShared) (ls ls' : List (Lane N D R E F S))
      (frames : List (List S)) (items : List (ℕ × Bytes))
      → Round lib params session_id clock c buf streams ls ls' frames items
      → All IsSmall items
  Round-IsSmall _ _ _ _ _ _ _ (Round.ends c buf) = tt
  Round-IsSmall _ _ _ _ _ _ _ (Round.idle c b s ss l l' ks ks' f fs items off same round) =
      Round-IsSmall (suc c) b ss ks ks' fs items round
  Round-IsSmall _ _ _ _ _ _ _ (Round.refused c b b' s ss l l' ks ks' f fs items on steps round) =
      Round-IsSmall (suc c) b' ss ks ks' fs items round
  Round-IsSmall _ _ _ _ _ _ _
        (Round.sent c b b' s ss l l' ks ks' f fs datagram rest on steps round) =
      (
        Steps-IsSmall lib params session_id host_sender_id clock f l.sender l'.sender b b' datagram
            steps,
        Round-IsSmall (suc c) b' ss ks ks' fs rest round,
      )

module _ {N D S : Type 0} (lib : Codecs N D S) (params : EngineParams) where
  to_peer-IsSmall :
      (session_id sender_id clock : ℕ) (joined : Bool) (pcm : List S) (s s' : Sender N)
      (buf buf' : Bytes) (d : Option Bytes)
      → (joined ≡ false → (d ≡ none) × (s' ≡ s))
      → (joined ≡ true → Steps lib params session_id sender_id clock pcm s s' buf buf' d)
      → All IsSmall (to_peer d)
  to_peer-IsSmall session_id sender_id clock joined pcm s s' buf buf' none silent steps = tt
  to_peer-IsSmall session_id sender_id clock true pcm s s' buf buf' (some bytes) silent steps =
      (Steps-IsSmall lib params session_id sender_id clock pcm s s' buf buf' bytes (steps refl), tt)
  to_peer-IsSmall session_id sender_id clock false pcm s s' buf buf' (some bytes) silent steps =
      absurd (ground (arith, (silent refl).0))

-- What holds of what a closure owns.
pub record IsHostAudio {N D R E F S : Type 0} (frame : ℕ) (a : HostAudio N D R E F S) : Type 0 where
  pub pipeline : IsHost a.pipeline
  pub shared : IsHostShared a.shared
  pub frame_size : a.pipeline.frame ≡ frame
  pub tx : length a.tx ≤ 256

pub record IsClientAudio {N D R E F S : Type 0} (frame : ℕ) (a : ClientAudio N D R E F S)
    : Type 0 where
  pub pipeline : IsClient a.pipeline
  pub shared : IsClientShared a.shared
  pub frame_size : a.pipeline.frame ≡ frame
  pub tx : length a.tx ≤ 256

module _ {N D R E G F S : Type 0} (real : Real S) (lib : Codecs N D S)
    (dsp : Dsp (AudioDecoder D) R E G F S) (codecs : IsCodecs lib) (valid : IsDsp dsp)
    (hw_buffer frame : ℕ) where
  -- The host's closure is a source of frames that never panics, whatever the capture ring holds: each
  -- call makes one frame of samples, every datagram of its tick fits an item of the transmit ring,
  -- and that ring never has more than 256. It leaves what it owns well formed.
  pub host_callback-IsSource :
      (gains : List S) (monitor_gain : S)
      → IsSource (host_callback real lib dsp hw_buffer gains monitor_gain) (IsHostAudio frame) frame
  unfolding host_callback
  host_callback-IsSource gains monitor_gain = record {
    makes = λ a v.
        let n = a.pipeline.frame in
        let c = capture (zero_f real) n hw_buffer a.ring a.starved in
        let size = (capture-newest (zero_f real) n hw_buffer a.ring a.starved).0 in
        let (t, e, ticked) =
          host_frame-IsHostTick real lib dsp codecs valid a.pipeline a.shared gains monitor_gain
            c.local_in v.pipeline v.shared size in
        let (tx, e', room) =
          queue-Returns t.emitted a.tx
            (Round-IsSmall lib a.pipeline.params a.shared.session_id a.pipeline.sample_clock 0
              a.pipeline.buffers.enc_buf a.shared.clients a.pipeline.lanes t.pipeline.lanes
              (heard real a.pipeline t.shared gains c.local_in ticked.pulled) t.emitted
              ticked.round)
            v.tx in
        (
          record {
            pipeline = t.pipeline;
            shared = t.shared;
            ring = c.ring;
            tx = tx;
            starved = c.starved;
          },
          t.out,
          rw (host_callback, e, e') refl,
          record {
            pipeline = ticked.pipeline;
            shared = ticked.shared_kept;
            frame_size = ticked.frame ∙ v.frame_size;
            tx = room;
          },
          ticked.out ∙ v.frame_size,
        );
  }

  -- A client's closure is a source of frames too, whatever the capture ring holds, before the join
  -- and after it: no call panics, each makes one frame of samples, the datagram that a tick emits fits
  -- an item of the transmit ring, and that ring never has more than 256. It leaves what it owns well
  -- formed. The conditions are those of the host's: the decoder fills what it is given, the resampler
  -- makes a sample at least of a frame, and libopus keeps to its slices and to 960 octets a frame.
  pub client_callback-IsSource :
      (master_gain monitor_gain : S)
      → IsSource
          (client_callback real lib dsp hw_buffer master_gain monitor_gain)
          (IsClientAudio frame)
          frame
  unfolding client_callback
  client_callback-IsSource master_gain monitor_gain = record {
    makes = λ a v.
        let n = a.pipeline.frame in
        let c = capture (zero_f real) n hw_buffer a.ring a.starved in
        let size = (capture-newest (zero_f real) n hw_buffer a.ring a.starved).0 in
        let (t, e, ticked) =
          client_frame-IsClientTick real lib dsp codecs valid a.pipeline a.shared master_gain
            monitor_gain c.local_in v.pipeline v.shared size in
        let (tx, e', room) =
          queue-Returns (to_peer t.emitted) a.tx
            (to_peer-IsSmall lib a.pipeline.params a.shared.session_id a.shared.sender_id
              a.pipeline.sample_clock a.shared.joined c.local_in a.pipeline.sender t.pipeline.sender
              a.pipeline.buffers.enc_buf t.pipeline.buffers.enc_buf t.emitted ticked.upstream.silent
              ticked.upstream.steps)
            v.tx in
        (
          record {
            pipeline = t.pipeline;
            shared = t.shared;
            ring = c.ring;
            tx = tx;
            starved = c.starved;
          },
          t.out,
          rw (client_callback, e, e') refl,
          record {
            pipeline = ticked.pipeline;
            shared = ticked.shared_kept;
            frame_size = ticked.frame ∙ v.frame_size;
            tx = room;
          },
          ticked.out ∙ v.frame_size,
        );
  }
