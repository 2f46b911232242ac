-- ===== src/Audio/Jitter/Tests.antt =====
-- Runs of the jitter buffer at concrete inputs.
use online_jam.Prelude.{◌≡◌, refl, true, inr, [], ◌∷◌, ◌++◌, some, arith, Bytes, length, replicate}
use online_jam.Prelude.Int.{pos}
use online_jam.Protocol.Seq
use online_jam.Protocol.Seq.{wrapping_add}
use online_jam.Audio.{max_frame_bytes}
use online_jam.Audio.Jitter
use online_jam.Audio.Jitter.{
  PushOutcome, JitterBuffer, push, store, pop_next, skip_next, pop_at, take_slot, reset, depth,
  nothing, inc, Taken, Slot, SlotState, PopOutcome, slot_of,
}
use online_jam.Audio.Jitter.Slots.{IsBuffer}
use online_jam.Audio.Jitter.Race.{Actor, ReaderAt, race, start, step, writes, write_step, read_step}
use online_jam.Audio.Jitter.Race.Atomic.{Ended, race-Ended}
use online_jam.Audio.Jitter.Holds.{Frame, Has, push-Has, push-Has_other}
use online_jam.Audio.Jitter.Invariant.{Call, run, run-new-IsBuffer, new-IsBuffer, push-IsBuffer}
use online_jam.Audio.Jitter.Play.{
  played, pop_next-Has, pops, Consecutive, bytes_of, pops-Consecutive,
}
use online_jam.Audio.Jitter.Once.{Plays, pop_next-once}
use online_jam.Audio.Jitter.Position.{push-behind, reset-push}

abbrev frame_7 : Frame
frame_7 = record { seq = 7; timestamp = 840; bytes = 1 ∷ 2 ∷ 3 ∷ [] }

abbrev frame_8 : Frame
frame_8 = record { seq = 8; timestamp = 960; bytes = 4 ∷ [] }

abbrev frame_9 : Frame
frame_9 = record { seq = 9; timestamp = 1080; bytes = [] }

abbrev out : Bytes
out = replicate max_frame_bytes 0

room : max_frame_bytes ≡ length out
room = refl

-- The frames arrive as 7, 9, 8.
abbrev pushed : JitterBuffer → Frame → JitterBuffer
pushed b f = (push b f.seq f.timestamp f.bytes).0

abbrev buffer_1 : JitterBuffer
buffer_1 = pushed Jitter.new frame_7

abbrev buffer_2 : JitterBuffer
buffer_2 = pushed buffer_1 frame_9

abbrev buffer_3 : JitterBuffer
buffer_3 = pushed buffer_2 frame_8

buffer_1-IsBuffer : IsBuffer buffer_1
buffer_1-IsBuffer = push-IsBuffer Jitter.new frame_7 new-IsBuffer

buffer_2-IsBuffer : IsBuffer buffer_2
buffer_2-IsBuffer = push-IsBuffer buffer_1 frame_9 buffer_1-IsBuffer

buffer_3-IsBuffer : IsBuffer buffer_3
buffer_3-IsBuffer = push-IsBuffer buffer_2 frame_8 buffer_2-IsBuffer

stored_7 : (push Jitter.new 7 840 frame_7.bytes).1 ≡ PushOutcome.stored
unfolding push store Jitter.new
stored_7 = refl

stored_9 : (push buffer_1 9 1080 frame_9.bytes).1 ≡ PushOutcome.stored
unfolding push store Jitter.new Seq.newer_than
stored_9 = refl

stored_8 : (push buffer_2 8 960 frame_8.bytes).1 ≡ PushOutcome.stored
unfolding push store Jitter.new Seq.newer_than
stored_8 = refl

push-Has_example : Has buffer_1.slots frame_7
push-Has_example = push-Has Jitter.new frame_7 new-IsBuffer stored_7

frame_7-Has : Has buffer_3.slots frame_7
frame_7-Has =
    push-Has_other buffer_2 frame_7 frame_8
      (push-Has_other buffer_1 frame_7 frame_9 (push-Has Jitter.new frame_7 new-IsBuffer stored_7)
        (inr (ground arith)))
      (inr (ground arith))

frame_9-Has : Has buffer_3.slots frame_9
frame_9-Has =
    push-Has_other buffer_2 frame_9 frame_8 (push-Has buffer_1 frame_9 buffer_1-IsBuffer stored_9)
      (inr (ground arith))

frame_8-Has : Has buffer_3.slots frame_8
frame_8-Has = push-Has buffer_2 frame_8 buffer_2-IsBuffer stored_8

runs : buffer_3.started ≡ true
unfolding push store Jitter.new Seq.newer_than
runs = refl

position : buffer_3.next_seq ≡ 7
unfolding push store Jitter.new Seq.newer_than
position = refl

in_order : Consecutive buffer_3.next_seq (frame_7 ∷ frame_8 ∷ frame_9 ∷ [])
unfolding push store Jitter.new Seq.newer_than Consecutive
in_order = (refl, (refl, (refl, tt)))

pops-Consecutive_example : pops 3 buffer_3 out ≡ bytes_of (frame_7 ∷ frame_8 ∷ frame_9 ∷ [])
pops-Consecutive_example =
    pops-Consecutive (frame_7 ∷ frame_8 ∷ frame_9 ∷ []) buffer_3 out buffer_3-IsBuffer runs in_order
      (omega arith) (frame_7-Has, (frame_8-Has, (frame_9-Has, tt))) (omega (arith, room))

run-new-IsBuffer_example :
    (b : JitterBuffer) × (run Jitter.new
        (Call.push frame_7 ∷ Call.pop out ∷ Call.pop out ∷ Call.skip ∷ [])
      ≡ some b)
    × IsBuffer b
run-new-IsBuffer_example =
    run-new-IsBuffer (Call.push frame_7 ∷ Call.pop out ∷ Call.pop out ∷ Call.skip ∷ [])
      (tt, (omega (arith, room), (omega (arith, room), (tt, tt))))

push-behind_example : push buffer_3 5 600 [] ≡ (
  record buffer_3 { stats = record buffer_3.stats { late = inc buffer_3.stats.late } },
  PushOutcome.late,
)
push-behind_example =
    push-behind buffer_3 5 2 600 [] (omega arith) runs (omega arith) (omega arith) (omega arith)
      position

reset-push_example :
    (depth (reset buffer_3) ≡ pos 0)
    × (pop_next (reset buffer_3) out ≡ some (nothing (reset buffer_3) out))
    × ((push (reset buffer_3) 40 0 (5 ∷ [])).1 ≡ PushOutcome.stored)
    × ((push (reset buffer_3) 40 0 (5 ∷ [])).0.next_seq ≡ 40)
    × (depth (push (reset buffer_3) 40 0 (5 ∷ [])).0 ≡ pos 1)
reset-push_example = reset-push buffer_3 40 0 (5 ∷ []) out (omega arith)

-- A pop that finds frame 7, a push and a skip.
abbrev buffer_8 : JitterBuffer
buffer_8 = (played buffer_3 frame_7 out).buffer

buffer_9-Plays : Plays 2 buffer_3 (skip_next (pushed buffer_8 frame_9)).0
buffer_9-Plays =
    Plays.popped 1 buffer_3 (skip_next (pushed buffer_8 frame_9)).0 out
      (played buffer_3 frame_7 out)
      (pop_next-Has buffer_3 frame_7 out buffer_3-IsBuffer runs position frame_7-Has
        (omega (arith, room)))
      (Plays.pushed 1 buffer_8 (skip_next (pushed buffer_8 frame_9)).0 9 1080 frame_9.bytes (
        Plays.skipped 0 (pushed buffer_8 frame_9) (skip_next (pushed buffer_8 frame_9)).0
          (Plays.ends (skip_next (pushed buffer_8 frame_9)).0)))

pop_next-once_example :
    ((skip_next (pushed buffer_8 frame_9)).0.next_seq ≡ wrapping_add buffer_3.next_seq 2)
    × (push (skip_next (pushed buffer_8 frame_9)).0 (wrapping_add buffer_3.next_seq 1) 960 [] ≡ (
      record (skip_next (pushed buffer_8 frame_9)).0 {
        stats = record (skip_next (pushed buffer_8 frame_9)).0.stats {
          late = inc (skip_next (pushed buffer_8 frame_9)).0.stats.late;
        };
      },
      PushOutcome.late,
    ))
pop_next-once_example =
    pop_next-once 2 1 buffer_3 (skip_next (pushed buffer_8 frame_9)).0 960 [] runs
      (omega (arith, position)) buffer_9-Plays (omega arith) (omega arith) (omega arith)

-- A run in which the reader meets a slot that was never freed, with a number one ring older, while
-- the writer stores the frame that the reader is to take: the copy is torn, with the old time and the
-- old first octet, and the rechecks pass.
abbrev stale : Slot
stale = record { state = SlotState.written; seq = 0; timestamp = 1; len = 2; payload = 1 ∷ 1 ∷ [] }

abbrev frame_64 : Frame
frame_64 = record { seq = 64; timestamp = 10; bytes = 8 ∷ 9 ∷ [] }

test_torn :
    (race 64
      (Actor.reader
        ∷ (replicate 4 Actor.writer
            ++ (replicate 4 Actor.reader
                ++ (replicate 6 Actor.writer ++ replicate 5 Actor.reader))))
      (start stale (frame_64 ∷ []) (0 ∷ 0 ∷ []))).reader
    ≡ record { at = ReaderAt.done (PopOutcome.frame 2 1); out = 1 ∷ 9 ∷ [] }
unfolding race step writes write_step read_step
test_torn = refl

race-Ended_example :
    Ended Jitter.new 7 out
      (race 7
        (Actor.writer ∷ Actor.resetter ∷ replicate 1032 Actor.reader)
        (start (slot_of Jitter.new.slots 7) (frame_64 ∷ []) out)).reader
race-Ended_example =
    race-Ended Jitter.new 7 (frame_64 ∷ []) out
      (Actor.writer ∷ Actor.resetter ∷ replicate 1032 Actor.reader) new-IsBuffer
      (omega (arith, room)) (omega arith, tt) (omega arith)
