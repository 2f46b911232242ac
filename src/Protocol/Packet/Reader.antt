-- ===== src/Protocol/Packet/Reader.antt =====
-- `Reader` of crates/jam-protocol/src/packet.rs. A Rust panic (an index out of range, a subtraction
-- below zero) is `panic`.
pub mod Reads
use online_jam.Prelude.{
  ℕ, zero, suc, ◌+◌, ◌-◌, ◌%◌, ◌≡◌, Bool, List, [], ◌∷◌, ◌++◌, Option, none, some, ltb, leb, ◌==◌,
  if◌then◌else◌, Bytes, length, take, drop, min,
}
use online_jam.Protocol.{max_name_len, max_clients}
use online_jam.Protocol.Packet.Outcome.{
  Outcome, ok, err, panic, truncated, bad_string, trailing_bytes, out_of_range,
}
use online_jam.Protocol.Packet.Endian.{from_be}
use online_jam.Protocol.Packet.Text.{is_utf8}
use online_jam.Protocol.Packet.Types.{PlayerInfo}

pub record Reader : Type 0 where
  pub buf : Bytes
  pub pos : ℕ

-- A method of `Reader`.
abbrev pub Get {ℓ} : Type ℓ → Type ℓ
Get A = Reader → Outcome (A × Reader)

infixl 5 ◌>>=◌
abbrev pub ◌>>=◌ {ℓ κ} : {A : Type ℓ} {B : Type κ} → Get A → (A → Get B) → Get B
◌>>=◌ m f r = elim (m r) [ ok (a, r') ↦ f a r' | err e ↦ err e | panic ↦ panic ]

abbrev pub return {ℓ} : {A : Type ℓ} → A → Get A
return a r = ok (a, r)

abbrev pub lift {ℓ} : {A : Type ℓ} → Outcome A → Get A
lift m r = elim m [ ok a ↦ ok (a, r) | err e ↦ err e | panic ↦ panic ]

-- `&buf[from..to]`.
unfoldable pub slice : Bytes → ℕ → ℕ → Outcome Bytes
slice buf from to =
    if leb from to
    then if leb to (length buf) then ok (take (to - from) (drop from buf)) else panic
    else panic

-- `self.buf.len() - self.pos` is an overflow where the position is past the end.
unfoldable pub bytes : ℕ → Get Bytes
bytes n r =
    if ltb (length r.buf) r.pos
    then panic
    else if ltb (length r.buf - r.pos) n
    then err truncated
    else lift (slice r.buf r.pos (r.pos + n)) (record r { pos = r.pos + n })

unfoldable pub u8 : Get ℕ
u8 = do b ← bytes 1; return (from_be b)

unfoldable pub u16 : Get ℕ
u16 = do b ← bytes 2; return (from_be b)

unfoldable pub u32 : Get ℕ
u32 = do b ← bytes 4; return (from_be b)

unfoldable pub u64 : Get ℕ
u64 = do b ← bytes 8; return (from_be b)

unfoldable pub checked : Bytes → Get Bytes
checked s = lift (if is_utf8 s then ok s else err bad_string)

unfoldable pub limited : ℕ → Get Bytes
limited n = if ltb max_name_len n then lift (err out_of_range) else bytes n

unfoldable pub string : Get Bytes
string = do n ← u8; s ← limited n; checked s

-- The rounds of the loop that are left, and the players pushed so far.
unfoldable pub each_player : ℕ → Get (List PlayerInfo)
each_player zero = return []
each_player (suc n) = do
  id ← u16
  name ← string
  ps ← each_player n
  return (record { id = id; name = name } ∷ ps)

unfoldable pub counted : ℕ → Get (List PlayerInfo)
counted n = if ltb (max_clients + 1) n then lift (err out_of_range) else each_player n

unfoldable pub players : Get (List PlayerInfo)
players = do n ← u8; counted n

unfoldable pub finish : Get (Unit {0})
finish r = if r.pos == length r.buf then ok (tt, r) else err trailing_bytes
