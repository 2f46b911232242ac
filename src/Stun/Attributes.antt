-- ===== src/Stun/Attributes.antt =====
-- The parser of crates/jam-app/src/stun.rs against the layout of a STUN response.
use online_jam.Prelude.{
  ℕ, zero, suc, ◌+◌, ◌*◌, ◌/◌, ◌^◌, ◌≤◌, ◌<◌, ◌≡◌, refl, sym, ◌∙◌, ap, true, false, List, [], ◌∷◌,
  ◌++◌, Option, none, some, arith, ltb, ◌==◌, if◌then◌else◌, All, Bytes, length, take, drop,
  length-append, take-append, drop-append, append_assoc,
}
use online_jam.Protocol.Packet.Endian.{to_be, from_be, from_be-to_be, length-to_be}
use online_jam.Stun.{
  Address, attr_xor_mapped_address, attr_mapped_address, parse_address, advance, parse_attrs,
  parse_binding_response,
}

-- An attribute: its type, its value, and the bytes up to the next one.
pub record Attribute : Type 0 where
  pub type : ℕ
  pub value : Bytes
  pub padding : Bytes

-- The fields fit, and the padding reaches the next multiple of four.
pub record IsAttribute (a : Attribute) : Type 0 where
  pub type_fits : a.type < 2 ^ 16
  pub size_fits : length a.value < 2 ^ 16
  pub aligned : length a.value + length a.padding ≡ (length a.value + 3) / 4 * 4

unfoldable pub encode : List Attribute → Bytes
encode [] = []
encode (a ∷ more) =
    to_be 2 a.type ++ (to_be 2 (length a.value) ++ (a.value ++ (a.padding ++ encode more)))

-- The address of the first attribute that is of one of the two types.
unfoldable pub first_address : List Attribute → Option Address
first_address [] = none
first_address (a ∷ more) =
    let rest = first_address more in
    if a.type == attr_xor_mapped_address
    then parse_address a.value true
    else if a.type == attr_mapped_address
    then parse_address a.value false
    else rest

-- The parts of a list of attributes, where the parser looks for them.
record Parts (a : Attribute) (more bytes : Bytes) : Type 0 where
  type_at : from_be (take 2 bytes) ≡ a.type
  len_at : from_be (take 2 (drop 2 bytes)) ≡ length a.value
  value_at : take (length a.value) (drop 4 bytes) ≡ a.value
  next_at : drop (advance (length a.value)) bytes ≡ more
  size : length bytes ≡ advance (length a.value) + length more

parts :
    (a : Attribute) (more : Bytes)
    → IsAttribute a
    → Parts a more
        (to_be 2 a.type ++ (to_be 2 (length a.value) ++ (a.value ++ (a.padding ++ more))))
parts a more v =
    let t = to_be 2 a.type in
    let n = to_be 2 (length a.value) in
    let rest = a.value ++ (a.padding ++ more) in
    let lt : length t ≡ 2 = length-to_be 2 a.type in
    let ln : length n ≡ 2 = length-to_be 2 (length a.value) in
    let ltn = length-append t n in
    let lr = length-append a.value (a.padding ++ more) in
    let lp = length-append a.padding more in
    let lnr = length-append n rest in
    let ltr = length-append t (n ++ rest) in
    let lh = length-append (t ++ n) a.value in
    let lhp = length-append ((t ++ n) ++ a.value) a.padding in
    let four : drop 4 (t ++ (n ++ rest)) ≡ rest =
      ap (drop 4) (sym (append_assoc t n rest)) ∙ drop-append (t ++ n) rest {n = 4} (omega arith) in
    let whole : t ++ (n ++ rest) ≡ (((t ++ n) ++ a.value) ++ a.padding) ++ more = sym (
      append_assoc ((t ++ n) ++ a.value) a.padding more
      ∙ append_assoc (t ++ n) a.value (a.padding ++ more)
      ∙ append_assoc t n rest) in
    record {
      type_at =
          ap from_be (take-append t (n ++ rest) {n = 2} (omega arith))
          ∙ from_be-to_be 2 a.type (omega (arith, v.type_fits));
      len_at =
          ap (λ xs. from_be (take 2 xs)) (drop-append t (n ++ rest) {n = 2} (omega arith))
          ∙ ap from_be (take-append n rest {n = 2} (omega arith))
          ∙ from_be-to_be 2 (length a.value) (omega (arith, v.size_fits));
      value_at = ap (take (length a.value)) four ∙ take-append a.value (a.padding ++ more) refl;
      next_at =
          ap (drop (advance (length a.value))) whole
          ∙ drop-append (((t ++ n) ++ a.value) ++ a.padding) more {n = advance (length a.value)}
              (omega (arith, v.aligned));
      size = omega (arith, v.aligned);
    }

parse_attrs-step :
    (fuel : ℕ) (a : Attribute) (more bytes : Bytes)
    → Parts a more bytes
    → parse_attrs (suc fuel) bytes ≡ (
        if a.type == attr_xor_mapped_address
        then some (parse_address a.value true)
        else if a.type == attr_mapped_address
        then some (parse_address a.value false)
        else parse_attrs fuel more)
unfolding parse_attrs
parse_attrs-step fuel a more bytes p =
    let n = length a.value in
    let size = p.size in
    let short : ltb (length bytes) 4 ≡ false = ground arith in
    let cut : ltb (length bytes) (4 + n) ≡ false = ground arith in
    let last : ltb (length bytes) (advance n) ≡ false = ground arith in
    rw (parse_attrs, p.type_at, p.len_at, p.value_at, p.next_at, short, cut, last) refl

parse_attrs-first_address :
    (attrs : List Attribute) (fuel : ℕ)
    → All IsAttribute attrs
    → length (encode attrs) ≤ fuel
    → parse_attrs fuel (encode attrs) ≡ some (first_address attrs)
unfolding encode first_address
parse_attrs-first_address [] zero h enough = unfold parse_attrs in refl
parse_attrs-first_address [] (suc fuel) h enough = unfold parse_attrs in refl
parse_attrs-first_address (a ∷ more) zero (v, h) enough =
    let size = (parts a (encode more) v).size in absurd (omega arith)
parse_attrs-first_address (a ∷ more) (suc fuel) (v, h) enough =
    let p = parts a (encode more) v in
    let size = p.size in
    let later = parse_attrs-first_address more fuel h (omega arith) in
    parse_attrs-step fuel a (encode more) (encode (a ∷ more)) p ∙ rw later (ground arith)

-- A response: the type, the length of the attributes, the cookie and the transaction id, the
-- attributes, and what stands behind them.
unfoldable pub response : (head cookie_and_id : Bytes) → List Attribute → (after : Bytes) → Bytes
response head cookie_and_id attrs after =
    head ++ (to_be 2 (length (encode attrs)) ++ (cookie_and_id ++ (encode attrs ++ after)))

-- Of a response with well-formed attributes, whatever their types and number, and whatever its type,
-- cookie and transaction id, the parser returns what the first attribute with an address says, or
-- nothing where there is none; it does not panic, and its loop ends.
pub parse_binding_response-first_address :
    (head cookie_and_id : Bytes) (attrs : List Attribute) (after : Bytes)
    → length head ≡ 2
    → length cookie_and_id ≡ 16
    → All IsAttribute attrs
    → length (encode attrs) < 2 ^ 16
    → parse_binding_response (response head cookie_and_id attrs after) ≡ some (first_address attrs)
unfolding parse_binding_response response
parse_binding_response-first_address head id attrs after two sixteen valid fits =
    let e = encode attrs in
    let n = to_be 2 (length e) in
    let tail = id ++ (e ++ after) in
    let msg = head ++ (n ++ tail) in
    let ln : length n ≡ 2 = length-to_be 2 (length e) in
    let l0 = length-append head (n ++ tail) in
    let l1 = length-append n tail in
    let l2 = length-append id (e ++ after) in
    let l3 = length-append e after in
    let l4 = length-append head n in
    let l5 = length-append (head ++ n) id in
    let len_at : from_be (take 2 (drop 2 msg)) ≡ length e =
      ap (λ xs. from_be (take 2 xs)) (drop-append head (n ++ tail) {n = 2} (omega arith))
      ∙ ap from_be (take-append n tail {n = 2} (omega arith))
      ∙ from_be-to_be 2 (length e) (omega arith) in
    let behind : drop 20 msg ≡ e ++ after =
      ap (drop 20) (sym (append_assoc (head ++ n) id (e ++ after) ∙ append_assoc head n tail))
      ∙ drop-append ((head ++ n) ++ id) (e ++ after) {n = 20} (omega arith) in
    let attrs_at : take (length e) (drop 20 msg) ≡ e =
      ap (take (length e)) behind ∙ take-append e after refl in
    let short : ltb (length msg) 4 ≡ false = ground arith in
    let cut : ltb (length msg) (20 + length e) ≡ false = ground arith in
    rw (parse_binding_response, response, len_at, short, cut, attrs_at)
      (parse_attrs-first_address attrs (length e) valid (omega arith))
