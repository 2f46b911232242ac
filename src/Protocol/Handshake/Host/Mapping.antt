-- ===== src/Protocol/Handshake/Host/Mapping.antt =====
-- The two lookups of the host, by address and by sender id.
use online_jam.Prelude.{
  ℕ, zero, suc, [], ◌∷◌, ◌<◌, ◌≡◌, ◌↔◌, inl, inr, some, arith, Option-cases, length,
}
use online_jam.Protocol.Handshake.{SocketAddr}
use online_jam.Protocol.Handshake.Host.{
  Slot, Slots, HostHandshake, slot_at, sender_id, slot_of_sender, position_addr, sender_for_addr,
  client_addr,
}
use online_jam.Protocol.Handshake.Host.Distinct.{IsHost, position_addr-slot_at, position_addr-some}

pub slot_at-lt : (slots : Slots) (k : ℕ) {s : Slot} → slot_at slots k ≡ some s → k < length slots
slot_at-lt [] k e = absurd (ground arith)
slot_at-lt (t ∷ slots) zero e = omega arith
slot_at-lt (t ∷ slots) (suc k) e = omega (arith, slot_at-lt slots k e)

client_addr-some :
    (h : HostHandshake) (id a : ℕ)
    → client_addr h id ≡ some a
    → (k : ℕ) × (s : Slot) × (slot_of_sender id ≡ some k)
      × (slot_at h.slots k ≡ some s)
      × (s.addr ≡ a)
unfolding client_addr
client_addr-some h id a e = elim (Option-cases (slot_of_sender id)) [
  | inl none_ ↦ absurd (ground arith)
  | inr (k, ek) ↦ elim (Option-cases (slot_at h.slots k)) [
    | inl free ↦ absurd (ground arith)
    | inr (s, taken) ↦ (k, s, ek, taken, ground arith)
  ]
]

pub slot_of_sender-sender_id : (k : ℕ) → k < 4 → slot_of_sender (sender_id k) ≡ some k
unfolding slot_of_sender sender_id
slot_of_sender-sender_id k h = ground arith

sender_id-slot_of_sender : (id k : ℕ) → slot_of_sender id ≡ some k → sender_id k ≡ id
unfolding slot_of_sender sender_id
sender_id-slot_of_sender id k e = ground arith

-- Looking up a sender by address and an address by sender are inverse: the ids of the connected
-- clients and their addresses correspond one to one.
pub client_addr-sender_for_addr :
    (h : HostHandshake) (a : SocketAddr) (id : ℕ)
    → IsHost h
    → (sender_for_addr h a ≡ some id) ↔ (client_addr h id ≡ some a)
client_addr-sender_for_addr h a id v = (there, back)
  where
    there : sender_for_addr h a ≡ some id → client_addr h id ≡ some a
    there e = elim (Option-cases (position_addr a 0 h.slots)) [
      | inl lost ↦ unfold sender_for_addr in absurd (ground arith)
      | inr (i, found) ↦
          let (k, at, s, taken, same, lt) = position_addr-some h.slots a 0 i found in
          let back = slot_of_sender-sender_id k (omega (arith, v.four)) in
          unfold sender_for_addr client_addr in ground (arith, back, found)
    ]

    back : client_addr h id ≡ some a → sender_for_addr h a ≡ some id
    back e =
        let (k, s, slot, taken, same) = client_addr-some h id a e in
        let found = position_addr-slot_at h.slots k 0 {s = s} v.apart taken in
        let same_id = sender_id-slot_of_sender id k slot in
        unfold sender_for_addr in ground (arith, found, same_id)
