-- ===== src/Protocol/Packet/Writer/Emits.antt =====
-- What a method of `Writer` appends.
use online_jam.Prelude.{
  ℕ, ◌+◌, ◌≤◌, ◌≡◌, subst, [], ◌++◌, Option, none, some, arith, le→leb, Bytes, length, take, drop,
  length-append, length-take, length-drop, take-append, append_assoc, append-nil,
}
use online_jam.Prelude.Options.{◌>>=◌}
use online_jam.Protocol.Packet.Endian.{to_be}
use online_jam.Protocol.Packet.Writer.{
  Writer, Put, ◌>>◌, nothing, copy_at, bytes, u8, u16, u32, u64,
}

-- The buffer has kept its capacity, and starts with `bs`, which end at the position.
abbrev pub Wrote : ℕ → Bytes → Option Writer → Type 0
Wrote cap bs none = ⊥
Wrote cap bs (some w) = (take w.pos w.buf ≡ bs) × (w.pos ≡ length bs) × (length w.buf ≡ cap)

-- The method appends `bs` wherever they fit.
pub record Emits (m : Put) (bs : Bytes) : Type 0 where
  pub run :
      (cap : ℕ) (pre : Bytes) (w : Writer)
      → Wrote cap pre (some w)
      → length pre + length bs ≤ cap
      → Wrote cap (pre ++ bs) (m w)

copied :
    (cap at : ℕ) (out pre bs : Bytes)
    → Wrote cap pre (some (record { buf = out; pos = at }))
    → length pre + length bs ≤ cap
    → (out' : Bytes) × (copy_at out at bs ≡ some out')
      × Wrote cap (pre ++ bs) (some (record { buf = out'; pos = at + length bs }))
unfolding copy_at
copied cap at out pre bs (filled, here, room) fits = (
  take at out ++ (bs ++ rest),
  rw (le→leb (at + length bs) (length out) (omega arith)),
  (
    rw (filled, ← append_assoc pre bs rest)
        (take-append (pre ++ bs) rest (omega (arith, length-append pre bs))),
    omega (arith, length-append pre bs),
    omega (
      arith,
      length-append (take at out) (bs ++ rest),
      length-append bs rest,
      length-take at out,
      length-drop (at + length bs) out,
    ),
  ),
)
  where
    rest : Bytes
    rest = drop (at + length bs) out

-- The rule for a copy in the middle of an option block.
pub copy_at-then {ℓ} :
    {B : Type ℓ} (P : Option B → Type 0) (cap at at' : ℕ) (out pre bs : Bytes)
    (f : Bytes → Option B)
    → at + length bs ≡ at'
    → Wrote cap pre (some (record { buf = out; pos = at }))
    → length pre + length bs ≤ cap
    → ((out' : Bytes)
        → Wrote cap (pre ++ bs) (some (record { buf = out'; pos = at' }))
        → P (f out'))
    → P (copy_at out at bs >>= f)
copy_at-then P cap at at' out pre bs f step wrote fits next =
    let (out', e, w) = copied cap at out pre bs wrote fits in
    rw e (
      next out' (subst (λ n. Wrote cap (pre ++ bs) (some (record { buf = out'; pos = n }))) step w))

pub bytes-Emits : (bs : Bytes) → Emits (bytes bs) bs
unfolding bytes
bytes-Emits bs = record {
  run = λ cap pre w wrote fits.
      let (out', e, done) = copied cap w.pos w.buf pre bs wrote fits in rw (e, bytes) done;
}

pub nothing-Emits : Emits nothing []
nothing-Emits = record { run = λ cap pre w wrote fits. rw append-nil wrote }

then_wrote :
    {k : Put} {cs : Bytes} (cap : ℕ) (pre : Bytes) (o : Option Writer)
    → Emits k cs
    → Wrote cap pre o
    → length pre + length cs ≤ cap
    → Wrote cap (pre ++ cs) (elim o [ none ↦ none | some w ↦ k w ])
then_wrote cap pre none e wrote fits = wrote
then_wrote cap pre (some w) e wrote fits = e.run cap pre w wrote fits

pub >>-Emits : {m k : Put} {bs cs : Bytes} → Emits m bs → Emits k cs → Emits (m >> k) (bs ++ cs)
>>-Emits {m} {k} {bs} {cs} e e' = record {
  run = λ cap pre w wrote fits.
      let len = length-append bs cs in
      let len' = length-append pre bs in
      rw (← append_assoc pre bs cs)
        (then_wrote cap (pre ++ bs) (m w) e' (e.run cap pre w wrote (omega arith)) (omega arith));
}

pub u8-Emits : (v : ℕ) → Emits (u8 v) (to_be 1 v)
unfolding u8
u8-Emits v = bytes-Emits (to_be 1 v)

pub u16-Emits : (v : ℕ) → Emits (u16 v) (to_be 2 v)
unfolding u16
u16-Emits v = bytes-Emits (to_be 2 v)

pub u32-Emits : (v : ℕ) → Emits (u32 v) (to_be 4 v)
unfolding u32
u32-Emits v = bytes-Emits (to_be 4 v)

pub u64-Emits : (v : ℕ) → Emits (u64 v) (to_be 8 v)
unfolding u64
u64-Emits v = bytes-Emits (to_be 8 v)
