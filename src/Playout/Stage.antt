-- ===== src/Playout/Stage.antt =====
-- The two loops of crates/jam-core/src/playout.rs end: staging and draining.
use online_jam.Prelude.{
  ℕ, zero, suc, ◌+◌, ◌≤◌, ◌<◌, ◌≡◌, refl, sym, ◌∙◌, ap, false, List, some, arith, ltb, Bool-cases,
  Option-cases, inl, inr, length, drop, min, length-drop,
}
use online_jam.Audio.Fifo
use online_jam.Audio.Fifo.{SampleFifo}
use online_jam.Audio.Fifo.Queue.{IsQueue, rest, rest-IsQueue, pop-rest}
use online_jam.Audio.Jitter
use online_jam.Audio.Jitter.{JitterBuffer, PopOutcome, Taken}
use online_jam.Audio.Jitter.Slots.{IsBuffer}
use online_jam.Audio.Jitter.Invariant.{read-IsBuffer, skip_next-IsRead}
use online_jam.Audio.Playout
use online_jam.Audio.Playout.{PlayoutController, Adjust}
use online_jam.Playout.{
  Dsp, StreamPlayout, Staged, adjusted, apply_step_adjustment, stage, drain, reset_stream,
}
use online_jam.Playout.Pull.{
  IsDsp, same_sizes, Kept-IsStream, pull-Kept, resample-IsStream, Kept, IsStream,
}

module _ {D R E G F S : Type 0} (dsp : Dsp D R E G F S) (valid : IsDsp dsp) where
  -- The loop has ended with a frame staged, or in an outage.
  abbrev pub IsStaged : ℕ → Staged D R E F S → Type 0
  IsStaged frame (Staged.ready jb sp) =
      IsBuffer jb × (v : IsStream sp) × (sp.frame ≡ frame) × (frame ≤ length v.samples)
  IsStaged frame (Staged.outage jb sp) = IsBuffer jb × IsStream sp × (sp.frame ≡ frame)
  IsStaged frame Staged.panic = ⊥
  IsStaged frame Staged.no_fuel = ⊥

  pub stage-IsStaged :
      (fuel frame : ℕ) (jb : JitterBuffer) (sp : StreamPlayout D R E F S)
      → IsBuffer jb
      → (v : IsStream sp) → sp.frame ≡ frame
      → frame ≤ length v.samples + fuel
      → IsStaged frame (stage dsp fuel jb sp)
  unfolding stage
  stage-IsStaged zero frame jb sp b v same enough =
      elim (Bool-cases (ltb sp.staging.len sp.frame)) [
        | inl short ↦ absurd (ground (arith, v.queue.size))
        | inr full ↦ rw (stage, full) (b, v, same, omega arith)
      ]
  stage-IsStaged (suc fuel) frame jb sp b v same enough =
      elim (Bool-cases (ltb sp.staging.len sp.frame)) [
        | inr full ↦ rw (stage, full) (b, v, same, ground (arith, v.queue.size))
        | inl short ↦
            let (jb', sp', hit, e, b', k) = pull-Kept dsp valid jb sp b v in
            let v' = Kept-IsStream sp sp' k v in
            let same_samples : length v'.samples ≡ length v.samples =
              sym v'.queue.size ∙ ap (λ f. f.len) k.staging ∙ v.queue.size in
            let few : length v.samples < sp.frame = ground (arith, v.queue.size) in
            let ring : length v'.samples < length sp'.staging.buf =
              rw k.staging (omega (arith, v.room)) in
            elim (Option-cases hit) [
              | inl out ↦ rw (stage, short, e, out) (b', v', k.frame ∙ same)
              | inr (h, got) ↦
                  let (sp'', e', v'', same', more) = resample-IsStream dsp valid sp' v' ring in
                  rw (stage, short, e, got, e')
                    (stage-IsStaged fuel frame jb' sp'' b' v'' (same' ∙ k.frame ∙ same)
                      (omega (arith, same_samples)))
            ]
      ]

  -- The loop empties the ring.
  drain-IsQueue :
      (fuel : ℕ) (f : SampleFifo S) (xs : List S)
      → IsQueue f xs
      → length xs ≤ fuel
      → (g : SampleFifo S) × (drain dsp fuel f ≡ some g)
        × (ys : List S) × IsQueue g ys
        × (length g.buf ≡ length f.buf)
        × (g.len ≡ 0)
  unfolding drain Fifo.is_empty
  drain-IsQueue zero f xs q enough = elim (Bool-cases (Fifo.is_empty f)) [
    | inl empty ↦ (f, rw (drain, empty) refl, xs, q, refl, ground arith)
    | inr more ↦ absurd (ground (arith, q.size))
  ]
  drain-IsQueue (suc fuel) f xs q enough = elim (Bool-cases (Fifo.is_empty f)) [
    | inl empty ↦ (f, rw (drain, empty) refl, xs, q, refl, ground arith)
    | inr more ↦
        let n = min f.len 240 in
        let low : n ≤ length xs = omega (arith, q.size) in
        let some_left : 1 ≤ f.len = ground arith in
        let (g, e, ys, q', cap, empty) =
          drain-IsQueue fuel (rest f n) (drop n xs) (rest-IsQueue f xs n q low)
            (omega (arith, length-drop n xs, q.size)) in
        (g, rw (drain, more, pop-rest f xs n q low) e, ys, q', cap, empty)
  ]

  pub reset_stream-IsStream :
      (sp : StreamPlayout D R E F S)
      → IsStream sp
      → (sp' : StreamPlayout D R E F S) × (reset_stream dsp sp ≡ some sp')
        × IsStream sp'
        × (sp'.frame ≡ sp.frame)
  unfolding reset_stream
  reset_stream-IsStream sp v =
      let (g, e, ys, q, cap, empty) =
        drain-IsQueue sp.staging.len sp.staging v.samples v.queue (omega (arith, v.queue.size)) in
      (
        record sp {
          controller = Playout.reset sp.controller;
          insert_pending = false;
          staging = g;
          resampler = dsp.set_ratio dsp.new_resampler (dsp.drift_ratio sp.drift);
        },
        rw (reset_stream, e) refl,
        record {
          packet = v.packet;
          decoded = v.decoded;
          low = v.low;
          high = v.high;
          samples = ys;
          queue = q;
          room = omega (arith, v.room);
        },
        refl,
      )

  adjusted-Kept :
      (a : Adjust) (jb : JitterBuffer) (sp : StreamPlayout D R E F S)
      → IsBuffer jb
      → IsBuffer (adjusted dsp a jb sp).0 × Kept sp (adjusted dsp a jb sp).1
  unfolding adjusted
  adjusted-Kept Adjust.keep jb sp b = (b, same_sizes sp)
  adjusted-Kept Adjust.drop_one jb sp b =
      (read-IsBuffer jb (Jitter.skip_next jb).0 jb.next_seq b (skip_next-IsRead jb), same_sizes sp)
  adjusted-Kept Adjust.insert_one jb sp b =
      (b, record { frame = refl; staging = refl; packet = refl; decoded = refl })

  pub apply_step_adjustment-Kept :
      (jb : JitterBuffer) (sp : StreamPlayout D R E F S) (out : List S)
      → IsBuffer jb
      → IsBuffer (apply_step_adjustment dsp jb sp out).0
        × Kept sp (apply_step_adjustment dsp jb sp out).1
  unfolding apply_step_adjustment
  apply_step_adjustment-Kept jb sp out b =
      let (c, adjust) = Playout.take_adjustment sp.controller in
      let sp0 : StreamPlayout D R E F S = record sp {
        controller = (Playout.take_adjustment sp.controller).0;
      } in
      let (b', k) = adjusted-Kept (Playout.take_adjustment sp.controller).1 jb sp0 b in
      elim (Bool-cases (dsp.is_quiet out)) [
        | inl quiet ↦
            rw (apply_step_adjustment, quiet)
              (
                b',
                record {
                  frame = k.frame;
                  staging = k.staging;
                  packet = k.packet;
                  decoded = k.decoded;
                },
              )
        | inr loud ↦ rw (apply_step_adjustment, loud) (b, same_sizes sp)
      ]
