-- ===== src/Stun.antt =====
-- crates/jam-app/src/stun.rs: the parser of a STUN binding response.
pub mod Attributes
mod Tests
use Prim.Native.Nat.{bit_xor}
use online_jam.Prelude.{
  ℕ, zero, suc, ◌+◌, ◌*◌, ◌/◌, Bool, not, ◌||◌, true, false, List, [], ◌∷◌, Option, none, some, ltb,
  leb, ◌==◌, if◌then◌else◌, Bytes, length, take, drop, get_or,
}
use online_jam.Protocol.Packet.Endian.{from_be}

-- An IPv4 address: its octets and the port.
abbrev pub Address : Type 0
Address = Bytes × ℕ

-- `MAGIC_COOKIE`, in bytes, and its high half.
abbrev pub magic_cookie : Bytes
magic_cookie = 0x21 ∷ 0x12 ∷ 0xa4 ∷ 0x42 ∷ []

abbrev pub cookie_high : ℕ
cookie_high = 0x2112

abbrev pub attr_xor_mapped_address : ℕ
attr_xor_mapped_address = 0x20

abbrev pub attr_mapped_address : ℕ
attr_mapped_address = 1

-- `for (o, c) in octets.iter_mut().zip(cookie)`.
unfoldable pub xor_each : Bytes → Bytes → Bytes
xor_each (o ∷ octets) (c ∷ cookie) = bit_xor o c ∷ xor_each octets cookie
xor_each octets _ = octets

unfoldable pub parse_address : Bytes → Bool → Option Address
unfolding from_be xor_each
parse_address value xored =
    if ltb (length value) 8 || not (get_or value 1 0 == 1)
    then none
    else let port = from_be (take 2 (drop 2 value)) in
      let octets = take 4 (drop 4 value) in
      some
        (if xored then (xor_each octets magic_cookie, bit_xor port cookie_high) else (octets, port))

-- `4 + len.div_ceil(4) * 4`: attributes are aligned to four bytes.
abbrev pub advance : ℕ → ℕ
advance len = 4 + (len + 3) / 4 * 4

-- The loop over the attributes; `none` is the end of the fuel.
unfoldable pub parse_attrs : ℕ → Bytes → Option (Option Address)
unfolding parse_address from_be
parse_attrs zero attrs = if ltb (length attrs) 4 then some none else none
parse_attrs (suc fuel) attrs =
    let attr_type = from_be (take 2 attrs) in
    let len = from_be (take 2 (drop 2 attrs)) in
    let value = take len (drop 4 attrs) in
    let next = parse_attrs fuel (drop (advance len) attrs) in
    if ltb (length attrs) 4
    then some none
    else if ltb (length attrs) (4 + len)
    then some none
    else if attr_type == attr_xor_mapped_address
    then some (parse_address value true)
    else if attr_type == attr_mapped_address
    then some (parse_address value false)
    else if ltb (length attrs) (advance len)
    then some none
    else next

-- The message is of 20 bytes at least, which the caller has checked; `none` is a panic otherwise. The
-- length of the attributes is the fuel.
unfoldable pub parse_binding_response : Bytes → Option (Option Address)
unfolding parse_attrs from_be
parse_binding_response msg =
    let attr_len = from_be (take 2 (drop 2 msg)) in
    if ltb (length msg) 4
    then none
    else if ltb (length msg) (20 + attr_len)
    then some none
    else parse_attrs attr_len (take attr_len (drop 20 msg))
