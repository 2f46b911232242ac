-- ===== src/Protocol/Packet/Writer.antt =====
-- `Writer` of crates/jam-protocol/src/packet.rs. A Rust panic (an index out of range) is `none`.
pub mod Emits
use online_jam.Prelude.{
  ℕ, zero, suc, ◌+◌, ◌-◌, ◌%◌, ◌≡◌, Bool, List, [], ◌∷◌, ◌++◌, Option, none, some, ltb, leb, ◌==◌,
  if◌then◌else◌, Bytes, length, take, drop, min,
}
use online_jam.Protocol.{max_name_len, max_clients, u8_mod}
use online_jam.Protocol.Packet.Endian.{to_be}
use online_jam.Protocol.Packet.Text.{floor_boundary}
use online_jam.Protocol.Packet.Types.{PlayerInfo}

-- `out[at..at + bytes.len()].copy_from_slice(bytes)`.
unfoldable pub copy_at : Bytes → ℕ → Bytes → Option Bytes
copy_at out at bs =
    if leb (at + length bs) (length out)
    then some (take at out ++ (bs ++ drop (at + length bs) out))
    else none

pub record Writer : Type 0 where
  pub buf : Bytes
  pub pos : ℕ

-- A method of `Writer` that returns nothing.
abbrev pub Put : Type 0
Put = Writer → Option Writer

infixr 5 ◌>>◌
abbrev pub ◌>>◌ : Put → Put → Put
◌>>◌ m k w = elim (m w) [ none ↦ none | some w' ↦ k w' ]

abbrev pub nothing : Put
nothing = some

unfoldable pub bytes : Bytes → Put
unfolding copy_at
bytes v w = elim (copy_at w.buf w.pos v) [
  | none ↦ none
  | some buf ↦ some (record { buf = buf; pos = w.pos + length v })
]

unfoldable pub u8 : ℕ → Put
u8 v = bytes (to_be 1 v)

unfoldable pub u16 : ℕ → Put
u16 v = bytes (to_be 2 v)

unfoldable pub u32 : ℕ → Put
u32 v = bytes (to_be 4 v)

unfoldable pub u64 : ℕ → Put
u64 v = bytes (to_be 8 v)

-- The part of a name that is sent.
unfoldable pub clip : Bytes → Bytes
clip s = take (floor_boundary s (min (length s) max_name_len)) s

unfoldable pub string : Bytes → Put
string s = u8 (floor_boundary s (min (length s) max_name_len) % u8_mod) >> bytes (clip s)

unfoldable pub each_player : List PlayerInfo → Put
each_player [] = nothing
each_player (p ∷ ps) = (u16 p.id >> string p.name) >> each_player ps

unfoldable pub players : List PlayerInfo → Put
players ps = u8 (length ps % u8_mod) >> each_player ps
