-- ===== src/Protocol/Packet/Reader/Reads.antt =====
-- What a method of `Reader` takes off the buffer.
use online_jam.Prelude.{
  ℕ, ◌+◌, ◌-◌, ◌^◌, ◌<◌, ◌≡◌, refl, sym, ◌∙◌, ap, [], ◌++◌, arith, subst, Bytes, length, take, drop,
  length-append, take-append, drop-append, append_assoc,
}
use online_jam.Protocol.Packet.Outcome.{Outcome, ok}
use online_jam.Protocol.Packet.Endian.{to_be, from_be, length-to_be, from_be-to_be}
use online_jam.Protocol.Packet.Reader.{
  Reader, Get, return, lift, ◌>>=◌, slice, bytes, u8, u16, u32, u64,
}

-- The bytes `rest` are what lies ahead of the position.
pub record Ahead (r : Reader) (rest : Bytes) : Type 0 where
  pub behind : Bytes
  pub splits : r.buf ≡ behind ++ rest
  pub here : r.pos ≡ length behind

-- The method takes the bytes `bs` for the value `v`, whatever follows them.
pub record Reads {ℓ} {A : Type ℓ} (m : Get A) (bs : Bytes) (v : A) : Type ℓ where
  pub run :
      (r : Reader) (rest : Bytes)
      → Ahead r (bs ++ rest)
      → (r' : Reader) × (m r ≡ ok (v, r')) × Ahead r' rest

pub return-Reads {ℓ} : {A : Type ℓ} (v : A) → Reads (return v) [] v
return-Reads v = record { run = λ r rest a. (r, refl, a) }

pub lift-Reads {ℓ} : {A : Type ℓ} (m : Outcome A) (v : A) → m ≡ ok v → Reads (lift m) [] v
lift-Reads m v e = record { run = λ r rest a. (r, rw e refl, a) }

bind-eq {ℓ κ} :
    {A : Type ℓ} {B : Type κ} (m : Get A) (f : A → Get B) (r r' : Reader) (a : A)
    → m r ≡ ok (a, r')
    → (m >>= f) r ≡ f a r'
bind-eq m f r r' a e = rw (e, ◌>>=◌)

-- The rule for a step of a block.
pub >>=-Reads {ℓ κ} :
    {A : Type ℓ} {B : Type κ} {m : Get A} (f : A → Get B) {bs cs : Bytes} {a : A} {b : B}
    → Reads m bs a
    → Reads (f a) cs b
    → Reads (m >>= f) (bs ++ cs) b
>>=-Reads {m = m} f {bs = bs} {cs = cs} {a = a} x y = record {
  run = λ r rest ahead.
      let split : Ahead r (bs ++ (cs ++ rest)) = record {
        behind = ahead.behind;
        splits = ahead.splits ∙ ap (◌++◌ ahead.behind) (append_assoc bs cs rest);
        here = ahead.here;
      } in
      let (r1, e1, a1) = x.run r (cs ++ rest) split in
      let (r2, e2, a2) = y.run r1 rest a1 in (r2, bind-eq m f r r1 a e1 ∙ e2, a2);
}

-- The rule for a block's last step.
pub map-Reads {ℓ κ} :
    {A : Type ℓ} {B : Type κ} {m : Get A} (f : A → B) {bs : Bytes} {a : A}
    → Reads m bs a
    → Reads (m >>= λ x. return (f x)) bs (f a)
map-Reads {m = m} f {a = a} x = record {
  run = λ r rest ahead.
      let (r1, e1, a1) = x.run r rest ahead in (r1, bind-eq m (λ y. return (f y)) r r1 a e1, a1);
}

pub bytes-Reads : (bs : Bytes) → Reads (bytes (length bs)) bs bs
unfolding bytes slice
bytes-Reads bs = record {
  run = λ r rest a.
      let total = length-append a.behind (bs ++ rest) in
      let part = length-append bs rest in
      let size : length r.buf ≡ length (a.behind ++ (bs ++ rest)) = ap length a.splits in
      let cut : take (r.pos + length bs - r.pos) (drop r.pos r.buf) ≡ bs =
        rw (a.splits, drop-append a.behind (bs ++ rest) a.here)
          (take-append bs rest (omega arith)) in
      (
        record r { pos = r.pos + length bs },
        ground (arith, cut),
        record {
          behind = a.behind ++ bs;
          splits = a.splits ∙ sym (append_assoc a.behind bs rest);
          here = omega (arith, length-append a.behind bs);
        },
      );
}

pub number-Reads :
    (k v : ℕ) → v < 256 ^ k → Reads (bytes k >>= λ b. return (from_be b)) (to_be k v) v
number-Reads k v fits =
    subst (Reads (bytes k >>= λ b. return (from_be b)) (to_be k v)) (from_be-to_be k v fits) (
      map-Reads from_be (
        subst (λ n. Reads (bytes n) (to_be k v) (to_be k v)) (length-to_be k v)
          (bytes-Reads (to_be k v))))

pub u8-Reads : (v : ℕ) → v < 256 → Reads u8 (to_be 1 v) v
unfolding u8
u8-Reads v h = number-Reads 1 v h

pub u16-Reads : (v : ℕ) → v < 2 ^ 16 → Reads u16 (to_be 2 v) v
unfolding u16
u16-Reads v h = number-Reads 2 v h

pub u32-Reads : (v : ℕ) → v < 2 ^ 32 → Reads u32 (to_be 4 v) v
unfolding u32
u32-Reads v h = number-Reads 4 v h

pub u64-Reads : (v : ℕ) → v < 2 ^ 64 → Reads u64 (to_be 8 v) v
unfolding u64
u64-Reads v h = number-Reads 8 v h
