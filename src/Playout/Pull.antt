-- ===== src/Playout/Pull.antt =====
-- What a frame that is pulled leaves as it is: `pull_decoded_into` of crates/jam-core/src/playout.rs.
use online_jam.Prelude.{
  ℕ, ◌+◌, ◌-◌, ◌*◌, ◌≤◌, ◌<◌, ◌≡◌, refl, ◌∙◌, Bool, false, List, [], ◌++◌, Option, none, some,
  arith, Bool-cases, inl, inr, Bytes, length, take, drop, length-append, length-take, length-drop,
  length-replicate,
}
use online_jam.Prelude.Int.{ℤ}
use online_jam.Audio.{max_frame_bytes}
use online_jam.Audio.Fifo
use online_jam.Audio.Fifo.{SampleFifo}
use online_jam.Audio.Fifo.Queue.{IsQueue}
use online_jam.Audio.Fifo.Newest.{push-IsQueue}
use online_jam.Audio.Jitter
use online_jam.Audio.Jitter.{JitterBuffer, PopOutcome, Taken}
use online_jam.Audio.Jitter.Slots.{IsBuffer}
use online_jam.Audio.Jitter.Invariant.{pop_next-IsRead, read-IsBuffer, reset-IsBuffer}
use online_jam.Audio.Playout
use online_jam.Audio.Playout.{PlayoutController, Adjust}
use online_jam.Playout.{
  Dsp, StreamPlayout, new, decode_into, conceal, play, next_frame, count_frame, pull, resample,
}

module _ {D R E G F S : Type 0} where
  -- The decoder fills the slice that it is given, and the resampler makes at least one sample of a
  -- frame.
  pub record IsDsp (dsp : Dsp D R E G F S) : Type 0 where
    pub decodes :
        (d : D) (packet : Option Bytes) (dst : List S)
        → length (dsp.decode d packet dst).1 ≡ length dst
    pub makes : (r : R) (xs : List S) → 4 ≤ length xs → 1 ≤ length (dsp.process r xs).1

module _ {D R E F S : Type 0} where
  -- What stays as it is when a frame is pulled.
  pub record Kept (sp sp' : StreamPlayout D R E F S) : Type 0 where
    pub frame : sp'.frame ≡ sp.frame
    pub staging : sp'.staging ≡ sp.staging
    pub packet : length sp'.pkt_buf ≡ length sp.pkt_buf
    pub decoded : length sp'.decode_buf ≡ length sp.decode_buf

  -- What holds of a stream between ticks.
  pub record IsStream (sp : StreamPlayout D R E F S) : Type 0 where
    pub packet : length sp.pkt_buf ≡ max_frame_bytes
    pub decoded : length sp.decode_buf ≡ 240
    pub low : 4 ≤ sp.frame
    pub high : sp.frame ≤ 240
    pub samples : List S
    pub queue : IsQueue sp.staging samples
    pub room : sp.frame ≤ length sp.staging.buf

  pub same_sizes : (sp : StreamPlayout D R E F S) → Kept sp sp
  same_sizes sp = record { frame = refl; staging = refl; packet = refl; decoded = refl }

  Kept-then : (a b c : StreamPlayout D R E F S) → Kept a b → Kept b c → Kept a c
  Kept-then a b c k k' = record {
    frame = k'.frame ∙ k.frame;
    staging = k'.staging ∙ k.staging;
    packet = k'.packet ∙ k.packet;
    decoded = k'.decoded ∙ k.decoded;
  }

  pub Kept-IsStream : (sp sp' : StreamPlayout D R E F S) → Kept sp sp' → IsStream sp → IsStream sp'
  Kept-IsStream sp sp' k v = record {
    packet = k.packet ∙ v.packet;
    decoded = k.decoded ∙ v.decoded;
    low = rw k.frame v.low;
    high = rw k.frame v.high;
    samples = v.samples;
    queue = rw k.staging v.queue;
    room = rw (k.frame, k.staging) v.room;
  }

module _ {D R E G F S : Type 0} (dsp : Dsp D R E G F S) (valid : IsDsp dsp) where
  decode_into-Kept :
      (sp : StreamPlayout D R E F S) (packet : Option Bytes) → Kept sp (decode_into dsp sp packet).0
  unfolding decode_into
  decode_into-Kept sp packet =
      let l0 = valid.decodes sp.decoder packet (take sp.frame sp.decode_buf) in
      let l1 =
        length-append (dsp.decode sp.decoder packet (take sp.frame sp.decode_buf)).1
          (drop sp.frame sp.decode_buf) in
      let l2 = length-take sp.frame sp.decode_buf in
      let l3 = length-drop sp.frame sp.decode_buf in
      record { frame = refl; staging = refl; packet = refl; decoded = omega arith }

  play-Kept : (sp : StreamPlayout D R E F S) (o : PopOutcome) → Kept sp (play dsp sp o).0
  unfolding play conceal
  play-Kept sp PopOutcome.missing = decode_into-Kept sp none
  play-Kept sp (PopOutcome.frame len time) =
      let first = decode_into-Kept sp (some (take len sp.pkt_buf)) in
      let r = decode_into dsp sp (some (take len sp.pkt_buf)) in
      elim (Bool-cases r.1) [
        | inl good ↦ rw (play, good) first
        | inr bad ↦
            rw (play, bad)
              (Kept-then sp r.0 (decode_into dsp r.0 none).0 first (decode_into-Kept r.0 none))
      ]

  next_frame-Kept :
      (jb : JitterBuffer) (sp : StreamPlayout D R E F S)
      → IsBuffer jb
      → IsStream sp
      → (jb' : JitterBuffer) × (sp' : StreamPlayout D R E F S) × (hit : Bool) × (next_frame dsp jb
            sp
          ≡ some (jb', sp', hit))
        × IsBuffer jb'
        × Kept sp sp'
  unfolding next_frame conceal
  next_frame-Kept jb sp b v = elim (Bool-cases sp.insert_pending) [
    | inl insert ↦
        let sp0 : StreamPlayout D R E F S = record sp { insert_pending = false } in
        let k = decode_into-Kept sp0 none in
        (
          jb,
          conceal dsp sp0,
          false,
          rw (next_frame, insert) refl,
          b,
          record { frame = k.frame; staging = k.staging; packet = k.packet; decoded = k.decoded },
        )
    | inr take_one ↦
        let (t, e, read, size) = pop_next-IsRead jb sp.pkt_buf (omega (arith, v.packet)) in
        let sp0 : StreamPlayout D R E F S = record sp { pkt_buf = t.out } in
        let k = play-Kept sp0 t.outcome in
        (
          t.buffer,
          (play dsp sp0 t.outcome).0,
          (play dsp sp0 t.outcome).1,
          rw (next_frame, take_one, e) refl,
          read-IsBuffer jb t.buffer jb.next_seq b read,
          record {
            frame = k.frame;
            staging = k.staging;
            packet = k.packet ∙ size;
            decoded = k.decoded;
          },
        )
  ]

  count_frame-Kept :
      (jb : JitterBuffer) (sp : StreamPlayout D R E F S) (hit : Bool)
      → IsBuffer jb
      → IsBuffer (count_frame dsp (jb, sp, hit)).0 × Kept sp (count_frame dsp (jb, sp, hit)).1
  unfolding count_frame
  count_frame-Kept jb sp hit b =
      let c =
        Playout.post_pop dsp.frames_of sp.controller hit (dsp.jitter_us jb.stats.jitter_us_bits) in
      let same : (c' : PlayoutController F) → Kept sp (record sp { controller = c' }) =
        λ c'. record { frame = refl; staging = refl; packet = refl; decoded = refl } in
      elim (Bool-cases c.1) [
        | inl over ↦ rw (count_frame, over) (reset-IsBuffer jb b, same c.0)
        | inr on ↦ rw (count_frame, on) (b, same (Playout.observe_depth c.0 (Jitter.depth jb)))
      ]

  pub pull-Kept :
      (jb : JitterBuffer) (sp : StreamPlayout D R E F S)
      → IsBuffer jb
      → IsStream sp
      → (jb' : JitterBuffer) × (sp' : StreamPlayout D R E F S) × (hit : Option Bool) × (pull dsp jb
            sp
          ≡ some (jb', sp', hit))
        × IsBuffer jb'
        × Kept sp sp'
  unfolding pull
  pull-Kept jb sp b v =
      let (jb1, sp1, hit, e, b1, k1) = next_frame-Kept jb sp b v in
      let (b2, k2) = count_frame-Kept jb1 sp1 hit b1 in
      let r = count_frame dsp (jb1, sp1, hit) in
      (r.0, r.1, r.2, rw (pull, e) refl, b2, Kept-then sp sp1 r.1 k1 k2)

  -- A round of the loop puts a sample at least into the ring, if it has room.
  pub resample-IsStream :
      (sp : StreamPlayout D R E F S)
      → (v : IsStream sp) → length v.samples < length sp.staging.buf
      → (sp' : StreamPlayout D R E F S) × (resample dsp sp ≡ some sp')
        × (v' : IsStream sp') × (sp'.frame ≡ sp.frame)
        × (length v.samples < length v'.samples)
  unfolding resample
  resample-IsStream sp v room =
      let xs = take sp.frame sp.decode_buf in
      let ys = (dsp.process sp.resampler xs).1 in
      let size = length-take sp.frame sp.decode_buf in
      let some_made : 1 ≤ length ys =
        valid.makes sp.resampler xs (omega (arith, v.decoded, v.low, v.high)) in
      let (g, e, q, cap) = push-IsQueue sp.staging v.samples ys v.queue in
      let o = length v.samples + length ys - length sp.staging.buf in
      let l0 = length-drop o (v.samples ++ ys) in
      let l1 = length-append v.samples ys in
      (
        record sp { resampler = (dsp.process sp.resampler xs).0; staging = g },
        rw (resample, e) refl,
        record {
          packet = v.packet;
          decoded = v.decoded;
          low = v.low;
          high = v.high;
          samples = drop o (v.samples ++ ys);
          queue = q;
          room = omega (arith, v.room);
        },
        refl,
        omega arith,
      )

  -- A new stream of a legal frame size is well formed.
  pub new-IsStream :
      (d : D) (e : E) (c : PlayoutController F) (frame : ℕ) (fixed : Option ℤ) (drift : Bool)
      → 4 ≤ frame
      → frame ≤ 240
      → IsStream (new dsp d e c frame fixed drift)
  unfolding new Fifo.new
  new-IsStream d e c frame fixed drift low high =
      let size = length-replicate (frame * 4 + 2 * 8) dsp.silence in
      record {
        packet = length-replicate {A = ℕ} 1024 0;
        decoded = length-replicate 240 dsp.silence;
        low = low;
        high = high;
        samples = [];
        queue = record {
          size = refl;
          fits = omega arith;
          starts = omega arith;
          items = λ k lt. absurd (omega arith);
        };
        room = omega arith;
      }
