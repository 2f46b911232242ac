-- ===== src/Stun/Tests.antt =====
-- Runs of the parser of STUN responses, and its theorem at one.
use online_jam.Prelude.{◌≡◌, refl, true, [], ◌∷◌, some, arith, Bytes}
use online_jam.Protocol.Packet.Endian.{to_be, from_be, from_be_acc}
use online_jam.Stun.{parse_binding_response, parse_address, xor_each}
use online_jam.Stun.Attributes.{
  Attribute, response, first_address, encode, parse_binding_response-first_address,
}

abbrev software : Attribute
software = record { type = 0x8022; value = 97 ∷ 98 ∷ []; padding = 0 ∷ 0 ∷ [] }

-- 203.0.113.7, port 4242.
abbrev mapped : Attribute
mapped = record { type = 1; value = 0 ∷ 1 ∷ 16 ∷ 146 ∷ 203 ∷ 0 ∷ 113 ∷ 7 ∷ []; padding = [] }

abbrev cookie_and_id : Bytes
cookie_and_id = 0x21 ∷ 0x12 ∷ 0xa4 ∷ 0x42 ∷ 1 ∷ 2 ∷ 3 ∷ 4 ∷ 5 ∷ 6 ∷ 7 ∷ 8 ∷ 9 ∷ 10 ∷ 11 ∷ 12 ∷ []

test_first_address : first_address (software ∷ mapped ∷ []) ≡ some (203 ∷ 0 ∷ 113 ∷ 7 ∷ [], 4242)
unfolding first_address parse_address from_be from_be_acc
test_first_address = refl

test_xored :
    parse_address (0 ∷ 1 ∷ 0x31 ∷ 0x80 ∷ 0xea ∷ 0x12 ∷ 0xd5 ∷ 0x45 ∷ []) true
    ≡ some (203 ∷ 0 ∷ 113 ∷ 7 ∷ [], 4242)
unfolding parse_address from_be from_be_acc xor_each
test_xored = refl

parse_binding_response-first_address_example :
    parse_binding_response (response (1 ∷ 1 ∷ []) cookie_and_id (software ∷ mapped ∷ []) [])
    ≡ some (first_address (software ∷ mapped ∷ []))
unfolding encode to_be
parse_binding_response-first_address_example =
    parse_binding_response-first_address (1 ∷ 1 ∷ []) cookie_and_id (software ∷ mapped ∷ []) [] refl
      refl
      (
        record { type_fits = omega arith; size_fits = omega arith; aligned = refl },
        (record { type_fits = omega arith; size_fits = omega arith; aligned = refl }, tt),
      )
      (omega arith)
