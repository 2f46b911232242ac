-- ===== src/Audio/Jitter/Holds.antt =====
-- How the jitter buffer keeps the frames that it has stored, until each is played.
use online_jam.Prelude.{
  ℕ, ◌%◌, ◌≤◌, ◌≡◌, ◌≢◌, refl, ap, ◌∙◌, ◌⊎◌, inl, inr, true, false, List, arith, ltb, ==_refl,
  Bool-cases, Bytes, length, take,
}
use online_jam.Protocol.Seq.{newer_than}
use online_jam.Audio.{max_frame_bytes}
use online_jam.Audio.Jitter.{
  Slot, PushOutcome, JitterBuffer, slot_count, slot_of, with_slot, has_seq, store, push, filled,
}
use online_jam.Audio.Jitter.Slots.{
  IsBuffer, slot_of-IsSlot, slot_of-with_self, slot_of-with_ne, take-overwrite,
}

-- A frame as it arrives.
pub record Frame : Type 0 where
  pub seq : ℕ
  pub timestamp : ℕ
  pub bytes : Bytes

-- The slots have the frame in the slot of its number, ready to be played.
pub record Has (slots : List Slot) (f : Frame) : Type 0 where
  pub found : has_seq (slot_of slots f.seq) f.seq ≡ true
  pub timestamp : (slot_of slots f.seq).timestamp ≡ f.timestamp
  pub len : (slot_of slots f.seq).len ≡ length f.bytes
  pub bytes : take (length f.bytes) (slot_of slots f.seq).payload ≡ f.bytes
  pub small : length f.bytes ≤ max_frame_bytes

pub Has-same :
    (xs ys : List Slot) (f : Frame) → slot_of ys f.seq ≡ slot_of xs f.seq → Has xs f → Has ys f
Has-same xs ys f e h = record {
  found = rw e h.found;
  timestamp = rw e h.timestamp;
  len = rw e h.len;
  bytes = rw e h.bytes;
  small = h.small;
}

-- Numbers of different slots.
abbrev pub Elsewhere : ℕ → ℕ → Type 0
Elsewhere s t = s % slot_count ≢ t % slot_count

-- A push stores its frame in the frame's slot, or leaves all slots as they are.
pub data Pushed (slots : List Slot) (f : Frame) (r : JitterBuffer × PushOutcome) : Type 0 where
  stores :
      has_seq (slot_of slots f.seq) f.seq ≡ false
      → length f.bytes ≤ max_frame_bytes
      → r.0.slots ≡ with_slot slots f.seq (filled f.seq f.timestamp f.bytes (slot_of slots f.seq))
      → Pushed slots f r
  leaves : r.1 ≢ PushOutcome.stored → r.0.slots ≡ slots → Pushed slots f r

store-Pushed :
    (b : JitterBuffer) (f : Frame)
    → length f.bytes ≤ max_frame_bytes
    → Pushed b.slots f (store b f.seq f.timestamp f.bytes)
unfolding store
store-Pushed b f small = elim (Bool-cases (has_seq (slot_of b.slots f.seq) f.seq)) [
  | inl dup ↦ rw (dup, store) (Pushed.leaves (λ e. ground arith) refl)
  | inr fresh ↦ rw (fresh, store) (Pushed.stores fresh small refl)
]

pub push-Pushed :
    (b : JitterBuffer) (f : Frame) → Pushed b.slots f (push b f.seq f.timestamp f.bytes)
unfolding push
push-Pushed b f = elim (Bool-cases (ltb max_frame_bytes (length f.bytes))) [
  | inl big ↦ rw (big, push) (Pushed.leaves (λ e. ground arith) refl)
  | inr fits ↦
      let small : length f.bytes ≤ max_frame_bytes = ground arith in
      elim (Bool-cases b.started) [
        | inr idle ↦
            rw (fits, idle, push)
              (store-Pushed (record b { next_seq = f.seq; newest_seq = f.seq; started = true }) f
                small)
        | inl runs ↦ elim (Bool-cases (newer_than b.next_seq f.seq)) [
          | inl late ↦ rw (fits, runs, late, push) (Pushed.leaves (λ e. ground arith) refl)
          | inr due ↦ elim (Bool-cases (newer_than f.seq b.newest_seq)) [
            | inl newest ↦
                rw (fits, runs, due, newest, push)
                  (store-Pushed (record b { newest_seq = f.seq; started = true }) f small)
            | inr older ↦
                rw (fits, runs, due, older, push)
                  (store-Pushed (record b { started = true }) f small)
          ]
        ]
      ]
]

filled-Has :
    (b : JitterBuffer) (f : Frame)
    → IsBuffer b
    → length f.bytes ≤ max_frame_bytes
    → Has (with_slot b.slots f.seq (filled f.seq f.timestamp f.bytes (slot_of b.slots f.seq))) f
filled-Has b f v small =
    let s = filled f.seq f.timestamp f.bytes (slot_of b.slots f.seq) in
    let e = slot_of-with_self b f.seq s v in
    record {
      found = rw e (==_refl f.seq);
      timestamp = ap (λ s. s.timestamp) e;
      len = ap (λ s. s.len) e ∙ omega arith;
      bytes =
          ap (λ s. take (length f.bytes) s.payload) e
          ∙ take-overwrite f.bytes (slot_of b.slots f.seq).payload
              (omega (arith, slot_of-IsSlot b f.seq v));
      small = small;
    }

-- A frame that a push reports as stored is in the buffer.
pub push-Has :
    (b : JitterBuffer) (f : Frame)
    → IsBuffer b
    → (push b f.seq f.timestamp f.bytes).1 ≡ PushOutcome.stored
    → Has (push b f.seq f.timestamp f.bytes).0.slots f
push-Has b f v e = elim (push-Pushed b f) [
  | Pushed.stores fresh small slots ↦ rw slots (filled-Has b f v small)
  | Pushed.leaves other same ↦ absurd (other e)
]

-- A frame in the buffer stays there whatever is pushed, unless its number is another one of the
-- same slot.
pub push-Has_other :
    (b : JitterBuffer) (f g : Frame)
    → Has b.slots f
    → (g.seq ≡ f.seq) ⊎ Elsewhere g.seq f.seq
    → Has (push b g.seq g.timestamp g.bytes).0.slots f
push-Has_other b f g h apart = elim (push-Pushed b g) [
  | Pushed.leaves other same ↦ rw same h
  | Pushed.stores fresh small slots ↦ rw slots (elim apart [
    | inl same ↦ absurd (ground arith)
    | inr far ↦ Has-same b.slots _ f (slot_of-with_ne b.slots g.seq f.seq _ far) h
  ])
]
