-- ===== src/Audio/Jitter/Play.antt =====
-- What the reader of the jitter buffer gets.
use online_jam.Prelude.{
  ℕ, zero, suc, ◌+◌, ◌≤◌, ◌<◌, ◌≡◌, refl, ap, ◌∙◌, true, false, not, List, [], ◌∷◌, ◌++◌, Option,
  none, some, arith, ltb, Bytes, length, take, drop, All, if◌then◌else◌, take-append, length-take,
}
use online_jam.Protocol.Seq.{wrapping_add}
use online_jam.Audio.{max_frame_bytes}
use online_jam.Audio.Jitter.{
  SlotState, PopOutcome, JitterBuffer, slot_count, slot_of, with_slot, overwrite, take_slot,
  pop_next, pop_at, nothing, Taken, advanced,
}
use online_jam.Audio.Jitter.Slots.{
  with_slot-IsBuffer, slot_of-with_ne, IsBuffer, slot_of-IsSlot, overwrite-take,
}
use online_jam.Audio.Jitter.Holds.{Has-same, Frame, Has, Elsewhere}

copied-Has :
    (b : JitterBuffer) (f : Frame) (out : Bytes)
    → IsBuffer b
    → Has b.slots f
    → max_frame_bytes ≤ length out
    → let s = slot_of b.slots f.seq in overwrite s.payload (take s.len out) ≡ f.bytes
copied-Has b f out v h room =
    let s = slot_of b.slots f.seq in
    let size = slot_of-IsSlot b f.seq v in
    let cut = length-take s.len out in
    let short : length (take s.len out) ≡ length f.bytes =
      omega (arith, cut, h.len, h.small, room) in
    overwrite-take s.payload (take s.len out) (omega (arith, short, h.small, size))
    ∙ ap (λ n. take n s.payload) short
    ∙ h.bytes

-- What `take` returns when it finds the frame.
abbrev taken : JitterBuffer → Frame → Bytes → Taken
taken b f out = record {
  buffer = record b {
    slots = with_slot b.slots f.seq (record (slot_of b.slots f.seq) { state = SlotState.empty });
  };
  out = f.bytes ++ drop (length f.bytes) out;
  outcome = PopOutcome.frame (length f.bytes) f.timestamp;
}

take_slot-Has :
    (b : JitterBuffer) (f : Frame) (out : Bytes)
    → IsBuffer b
    → Has b.slots f
    → max_frame_bytes ≤ length out
    → take_slot b f.seq out ≡ some (taken b f out)
unfolding take_slot
take_slot-Has b f out v h room =
    let s = slot_of b.slots f.seq in
    let copy = copied-Has b f out v h room in
    let fits : ltb max_frame_bytes s.len ≡ false = ground (arith, h.len, h.small) in
    let enough : ltb (length out) s.len ≡ false = ground (arith, h.len, h.small, room) in
    rw (take_slot, h.found, fits, enough, copy, h.len, h.timestamp) refl

-- What a pop that finds the frame returns.
abbrev pub played : JitterBuffer → Frame → Bytes → Taken
played b f out = advanced f.seq (taken b f out)

-- When the buffer has the frame of the read position, popping returns its length and timestamp and
-- puts its bytes at the start of `out`, the rest of which it leaves; the slot is free again, and
-- the read position is one further.
pub pop_next-Has :
    (b : JitterBuffer) (f : Frame) (out : Bytes)
    → IsBuffer b
    → b.started ≡ true
    → b.next_seq ≡ f.seq
    → Has b.slots f
    → max_frame_bytes ≤ length out
    → pop_next b out ≡ some (played b f out)
unfolding pop_next pop_at
pop_next-Has b f out v runs at h room =
    ap (λ x. if not x then some (nothing b out) else pop_at b b.next_seq out) runs
    ∙ ap (λ n. pop_at b n out) at
    ∙ rw (pop_at, take_slot-Has b f out v h room) refl

played-IsBuffer :
    (b : JitterBuffer) (f : Frame) (out : Bytes) → IsBuffer b → IsBuffer (played b f out).buffer
played-IsBuffer b f out v =
    let s = record (slot_of b.slots f.seq) { state = SlotState.empty } in
    let (count, sized) = with_slot-IsBuffer b f.seq s v (slot_of-IsSlot b f.seq v) in
    record { count = count; sized = sized }

-- Popping `n` times, each time into `out`: the frames, or `none` for a miss or a panic.
pub pops : ℕ → JitterBuffer → Bytes → List (Option Bytes)
pops zero b out = []
pops (suc n) b out = elim (pop_next b out) [
  | none ↦ none ∷ []
  | some t ↦
      elim t.outcome [ PopOutcome.frame len _ ↦ some (take len t.out) | PopOutcome.missing ↦ none ]
      ∷ pops n t.buffer out
]

-- Frames with consecutive numbers from `seq` on.
unfoldable pub Consecutive : ℕ → List Frame → Type 0
Consecutive seq [] = Unit
Consecutive seq (f ∷ fs) = (seq ≡ f.seq) × Consecutive (wrapping_add f.seq 1) fs

pub bytes_of : List Frame → List (Option Bytes)
bytes_of [] = []
bytes_of (f ∷ fs) = some f.bytes ∷ bytes_of fs

-- Later frames have other slots.
Consecutive-Elsewhere :
    (fs : List Frame) (f : Frame) (k seq : ℕ)
    → k + length fs < slot_count
    → seq ≡ wrapping_add f.seq (k + 1)
    → Consecutive seq fs
    → All (λ g. Elsewhere f.seq g.seq) fs
unfolding Consecutive
Consecutive-Elsewhere [] f k seq few e h = tt
Consecutive-Elsewhere (g ∷ fs) f k seq few e (at, h) = (
  ground arith,
  Consecutive-Elsewhere fs f (suc k) (wrapping_add g.seq 1) (omega arith) (omega arith) h,
)

Has-played :
    (b : JitterBuffer) (f : Frame) (out : Bytes) (fs : List Frame)
    → All (λ g. Elsewhere f.seq g.seq) fs
    → All (Has b.slots) fs
    → All (Has (played b f out).buffer.slots) fs
Has-played b f out [] far h = tt
Has-played b f out (g ∷ fs) far h = (
  Has-same b.slots _ g (slot_of-with_ne b.slots f.seq g.seq _ far.0) h.0,
  Has-played b f out fs far.1 h.1,
)

-- When the buffer has all of up to 64 frames with consecutive numbers from the read position on, in
-- whatever order they came, popping plays them all, in the order of their numbers.
pub pops-Consecutive :
    (fs : List Frame) (b : JitterBuffer) (out : Bytes)
    → IsBuffer b
    → b.started ≡ true
    → Consecutive b.next_seq fs
    → length fs ≤ slot_count
    → All (Has b.slots) fs
    → max_frame_bytes ≤ length out
    → pops (length fs) b out ≡ bytes_of fs
unfolding pops Consecutive bytes_of
pops-Consecutive [] b out v runs order few all room = refl
pops-Consecutive (f ∷ fs) b out v runs (at, order) few (h, all) room =
    let far = Consecutive-Elsewhere fs f 0 (wrapping_add f.seq 1) (omega arith) refl order in
    let rest =
      pops-Consecutive fs (played b f out).buffer out (played-IsBuffer b f out v) runs order
        (omega arith) (Has-played b f out fs far all) room in
    rw
      (
        pops,
        pop_next-Has b f out v runs at h room,
        take-append f.bytes (drop (length f.bytes) out) {n = length f.bytes} refl,
        rest,
      )
      refl
