-- ===== src/Playout/Total.antt =====
-- Each tick of a stream's playout ends: `StreamPlayout` of crates/jam-core/src/playout.rs.
use online_jam.Prelude.{
  ℕ, ◌≡◌, refl, subst, ◌∙◌, Bool, true, false, List, Option, some, arith, ◌==◌, if◌then◌else◌,
  Option-cases, inl, inr, length, take, drop, length-take, replicate, length-replicate,
}
use online_jam.Audio.Fifo.Queue.{rest, rest-IsQueue, pop-rest}
use online_jam.Audio.Jitter
use online_jam.Audio.Jitter.{JitterBuffer, PopOutcome, Taken}
use online_jam.Audio.Jitter.Slots.{IsBuffer}
use online_jam.Audio.Playout
use online_jam.Audio.Playout.{PlayoutController, Adjust}
use online_jam.Playout.{
  Dsp, StreamPlayout, Ticked, Staged, silent, played, tick_stepped, leave, steered, tick_resampled,
  tick_primed, tick,
}
use online_jam.Playout.Pull.{IsDsp, Kept-IsStream, pull-Kept, Kept, IsStream}
use online_jam.Playout.Stage.{
  IsStaged, stage-IsStaged, reset_stream-IsStream, apply_step_adjustment-Kept,
}

module _ {D R E G F S : Type 0} (dsp : Dsp D R E G F S) (valid : IsDsp dsp) where
  -- What a tick gives: the stream as it was, but for its samples, and a frame, of silence if the
  -- stream is not live.
  pub record IsTicked (frame : ℕ) (o : Ticked D R E F S) : Type 0 where
    pub buffer : IsBuffer o.jb
    pub stream : IsStream o.stream
    pub frame_kept : o.stream.frame ≡ frame
    pub out : length o.out ≡ frame
    pub silence : o.live ≡ false → o.out ≡ replicate frame dsp.silence

  -- The computation returns such a tick.
  abbrev Returns : ℕ → Option (Ticked D R E F S) → Type 0
  Returns frame r = (o : Ticked D R E F S) × (r ≡ some o) × IsTicked frame o

  if-Returns :
      (frame : ℕ) (c : Bool) (x y : Option (Ticked D R E F S))
      → Returns frame x
      → Returns frame y
      → Returns frame (if c then x else y)
  if-Returns frame true x y hx hy = hx
  if-Returns frame false x y hx hy = hy

  silent-Returns :
      (frame : ℕ) (jb : JitterBuffer) (sp : StreamPlayout D R E F S)
      → IsBuffer jb
      → IsStream sp
      → sp.frame ≡ frame
      → Returns frame (some (silent dsp jb sp frame))
  silent-Returns frame jb sp b v same = (
    silent dsp jb sp frame,
    refl,
    record {
      buffer = b;
      stream = v;
      frame_kept = same;
      out = length-replicate frame dsp.silence;
      silence = λ quiet. refl;
    },
  )

  played-Returns :
      (frame : ℕ) (jb : JitterBuffer) (sp : StreamPlayout D R E F S) (out : List S)
      → IsBuffer jb
      → IsStream sp
      → sp.frame ≡ frame
      → length out ≡ frame
      → Returns frame (some (played dsp jb sp out))
  played-Returns frame jb sp out b v same size =
      let (b', k) = apply_step_adjustment-Kept dsp valid jb sp out b in
      (
        played dsp jb sp out,
        refl,
        record {
          buffer = b';
          stream = Kept-IsStream sp _ k v;
          frame_kept = k.frame ∙ same;
          out = size;
          silence = λ quiet. absurd (ground arith);
        },
      )

  tick_stepped-Returns :
      (jb : JitterBuffer) (sp : StreamPlayout D R E F S)
      → IsBuffer jb
      → IsStream sp
      → Returns sp.frame (tick_stepped dsp jb sp sp.frame)
  unfolding tick_stepped
  tick_stepped-Returns jb sp b v =
      let (jb', sp', hit, e, b', k) = pull-Kept dsp valid jb sp b v in
      let v' = Kept-IsStream sp sp' k v in
      let exact : (sp.frame == sp.frame) ≡ true = ground arith in
      let size = length-take sp'.frame sp'.decode_buf in
      elim (Option-cases hit) [
        | inl out ↦ rw (tick_stepped, exact, e, out) (silent-Returns sp.frame jb' sp' b' v' k.frame)
        | inr (h, got) ↦
            rw (tick_stepped, exact, e, got)
              (played-Returns sp.frame jb' sp' (take sp'.frame sp'.decode_buf) b' v' k.frame
                (omega (arith, v'.decoded, v'.high, k.frame)))
      ]

  leave-Returns :
      (frame : ℕ) (s : Staged D R E F S)
      → IsStaged dsp valid frame s
      → Returns frame (leave dsp s frame)
  unfolding leave
  leave-Returns frame (Staged.ready jb sp) (b, v, same, enough) =
      let left : StreamPlayout D R E F S = record sp { staging = rest sp.staging frame } in
      rw (leave, pop-rest sp.staging v.samples frame v.queue enough)
        (played-Returns frame jb left (take frame v.samples) b
          (record {
            packet = v.packet;
            decoded = v.decoded;
            low = v.low;
            high = v.high;
            samples = drop frame v.samples;
            queue = rest-IsQueue sp.staging v.samples frame v.queue enough;
            room = v.room;
          })
          same (omega (arith, length-take frame v.samples)))
  leave-Returns frame (Staged.outage jb sp) (b, v, same) =
      let (sp', e, v', same') = reset_stream-IsStream dsp valid sp v in
      rw (leave, e) (silent-Returns frame jb sp' b v' (same' ∙ same))
  leave-Returns frame Staged.panic h = absurd h
  leave-Returns frame Staged.no_fuel h = absurd h

  tick_resampled-Returns :
      (jb : JitterBuffer) (sp : StreamPlayout D R E F S)
      → IsBuffer jb
      → IsStream sp
      → Returns sp.frame (tick_resampled dsp jb sp sp.frame)
  unfolding tick_resampled steered
  tick_resampled-Returns jb sp b v =
      let k : Kept sp (steered dsp jb sp) = record {
        frame = refl;
        staging = refl;
        packet = refl;
        decoded = refl;
      } in
      leave-Returns sp.frame _ (
        stage-IsStaged dsp valid sp.frame sp.frame jb (steered dsp jb sp) b (Kept-IsStream sp _ k v)
          refl (omega arith))

  tick_primed-Returns :
      (primed : Bool) (jb : JitterBuffer) (sp : StreamPlayout D R E F S)
      → IsBuffer jb
      → IsStream sp
      → Returns sp.frame (tick_primed dsp primed jb sp sp.frame)
  unfolding tick_primed
  tick_primed-Returns false jb sp b v = silent-Returns sp.frame jb sp b v refl
  tick_primed-Returns true jb sp b v =
      if-Returns sp.frame sp.drift_enabled _ _ (tick_resampled-Returns jb sp b v)
        (tick_stepped-Returns jb sp b v)

  -- If the decoder fills what it is given and the resampler makes a sample at least of a frame, then
  -- each tick of a well-formed stream on a well-formed jitter buffer ends, without a panic, whatever
  -- the buffer holds and whatever the decoder, the resampler and the float computations give. It gives
  -- one frame, of silence if it reports that the stream is not live, and leaves the stream and the
  -- buffer well formed.
  pub tick-Returns :
      (jb : JitterBuffer) (sp : StreamPlayout D R E F S)
      → IsBuffer jb
      → IsStream sp
      → (o : Ticked D R E F S) × (tick dsp jb sp sp.frame ≡ some o) × IsTicked sp.frame o
  unfolding tick
  tick-Returns jb sp b v =
      let r = Playout.pre_pop sp.controller (Jitter.depth jb) (Jitter.is_started jb) in
      let sp0 : StreamPlayout D R E F S = record sp { controller = r.0 } in
      tick_primed-Returns r.1 jb sp0 b (
        Kept-IsStream sp sp0
          (record { frame = refl; staging = refl; packet = refl; decoded = refl }) v)

  -- The same for a frame of any size that is the stream's.
  pub tick-Returns_at :
      (jb : JitterBuffer) (sp : StreamPlayout D R E F S) (n : ℕ)
      → sp.frame ≡ n
      → IsBuffer jb
      → IsStream sp
      → (o : Ticked D R E F S) × (tick dsp jb sp n ≡ some o) × IsTicked n o
  tick-Returns_at jb sp n same b v =
      subst (λ n. (o : Ticked D R E F S) × (tick dsp jb sp n ≡ some o) × IsTicked n o) same
        (tick-Returns jb sp b v)
