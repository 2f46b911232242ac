-- ===== src/Audio/Jitter/Once.antt =====
-- No number of a frame comes up twice at the reader of the jitter buffer: crates/jam-audio/src/jitter.rs.
use online_jam.Prelude.{
  ℕ, suc, ◌-◌, ◌^◌, ◌≤◌, ◌<◌, ◌≡◌, refl, sym, ap, ◌∙◌, true, not, some, arith, Bytes, length,
  if◌then◌else◌,
}
use online_jam.Protocol.{u16_mod}
use online_jam.Protocol.Seq.{wrapping_add}
use online_jam.Audio.{max_frame_bytes}
use online_jam.Audio.Jitter.{
  PushOutcome, JitterBuffer, push, store, pop_at, pop_next, skip_next, Taken, nothing, inc,
}
use online_jam.Audio.Jitter.Position.{push-behind, pop_at-position}

-- A buffer before and after `n` pops and skips, in any order, with any pushes before, between and
-- behind them.
pub data Plays : ℕ → JitterBuffer → JitterBuffer → Type 0 where
  ends : (b : JitterBuffer) → Plays 0 b b
  pushed :
      (n : ℕ) (b c : JitterBuffer) (seq timestamp : ℕ) (payload : Bytes)
      → Plays n (push b seq timestamp payload).0 c
      → Plays n b c
  popped :
      (n : ℕ) (b c : JitterBuffer) (out : Bytes) (t : Taken)
      → pop_next b out ≡ some t
      → Plays n t.buffer c
      → Plays (suc n) b c
  skipped : (n : ℕ) (b c : JitterBuffer) → Plays n (skip_next b).0 c → Plays (suc n) b c

-- A started buffer whose read position is `at`.
pub record IsAt (at : ℕ) (b : JitterBuffer) : Type 0 where
  pub runs : b.started ≡ true
  pub next : b.next_seq ≡ at

-- A push does not move the reader.
push-IsAt :
    (b : JitterBuffer) (at seq timestamp : ℕ) (payload : Bytes)
    → IsAt at b
    → IsAt at (push b seq timestamp payload).0
unfolding push store
push-IsAt b at seq timestamp payload v =
    let runs = v.runs in let next = v.next in record { runs = ground arith; next = ground arith }

pop_next-IsAt :
    (b : JitterBuffer) (at : ℕ) (out : Bytes) (t : Taken)
    → IsAt at b
    → pop_next b out ≡ some t
    → IsAt (wrapping_add at 1) t.buffer
unfolding pop_next
pop_next-IsAt b at out t v e =
    let at_next : pop_at b b.next_seq out ≡ some t =
      sym (ap (λ x. if not x then some (nothing b out) else pop_at b b.next_seq out) v.runs) ∙ e in
    let (next, still) = pop_at-position b b.next_seq out t at_next in
    record { runs = still ∙ v.runs; next = next ∙ ap (λ n. wrapping_add n 1) v.next }

skip_next-IsAt : (b : JitterBuffer) (at : ℕ) → IsAt at b → IsAt (wrapping_add at 1) (skip_next b).0
unfolding skip_next
skip_next-IsAt b at v =
    let runs = v.runs in let next = v.next in record { runs = ground arith; next = ground arith }

Plays-IsAt :
    (n at : ℕ) (b c : JitterBuffer)
    → Plays n b c
    → at < u16_mod
    → IsAt at b
    → IsAt (wrapping_add at n) c
Plays-IsAt _ at _ _ (Plays.ends b) small v = record { runs = v.runs; next = v.next ∙ omega arith }
Plays-IsAt _ at _ _ (Plays.pushed n b c seq timestamp payload rest) small v =
    Plays-IsAt n at (push b seq timestamp payload).0 c rest small
      (push-IsAt b at seq timestamp payload v)
Plays-IsAt _ at _ _ (Plays.popped n b c out t e rest) small v =
    let r =
      Plays-IsAt n (wrapping_add at 1) t.buffer c rest (omega arith)
        (pop_next-IsAt b at out t v e) in
    record { runs = r.runs; next = r.next ∙ omega arith }
Plays-IsAt _ at _ _ (Plays.skipped n b c rest) small v =
    let r =
      Plays-IsAt n (wrapping_add at 1) (skip_next b).0 c rest (omega arith)
        (skip_next-IsAt b at v) in
    record { runs = r.runs; next = r.next ∙ omega arith }

-- From a started buffer on, `n` pops and skips, fewer than 2 ^ 15, move the read position by `n`,
-- whether they find their frames or not and whatever is pushed between them. Each of the `n` numbers
-- that they passed is then late: a frame of legal size with that number is refused, and nothing but
-- the counter of late packets changes. So no frame is played twice, nor after it was concealed or
-- skipped, as long as the buffer is not reset and the reader is fewer than 2 ^ 15 numbers past it.
pub pop_next-once :
    (n k : ℕ) (b c : JitterBuffer) (timestamp : ℕ) (payload : Bytes)
    → b.started ≡ true
    → b.next_seq < u16_mod
    → Plays n b c
    → k < n
    → n < 2 ^ 15
    → length payload ≤ max_frame_bytes
    → (c.next_seq ≡ wrapping_add b.next_seq n)
      × (push c (wrapping_add b.next_seq k) timestamp payload
          ≡ (record c { stats = record c.stats { late = inc c.stats.late } }, PushOutcome.late))
pop_next-once n k b c timestamp payload runs small plays passed near legal =
    let v = Plays-IsAt n b.next_seq b c plays small (record { runs = runs; next = refl }) in
    (
      v.next,
      push-behind c (wrapping_add b.next_seq k) (n - k) timestamp payload legal v.runs (omega arith)
          (omega arith) (omega arith) (v.next ∙ omega arith),
    )
