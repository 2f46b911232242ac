-- ===== src/Protocol/Handshake/Host/Expiry.antt =====
-- How long the host resends a WELCOME that is not acknowledged.
use online_jam.Prelude.{
  ℕ, ◌+◌, ◌-◌, ◌<◌, ◌≤◌, ◌≡◌, refl, ap, ◌∙◌, ◌⊎◌, inl, inr, List, [], ◌∷◌, Option, none, some,
  arith, Bool-cases, ltb, length,
}
use online_jam.Protocol.{peer_timeout_ms, control_retry_ms, control_max_tries}
use online_jam.Protocol.Handshake.Times.{Spaced}
use online_jam.Protocol.Handshake.Host
use online_jam.Protocol.Handshake.Host.{
  Slot, SlotState, HostHandshake, slot_at, tick_slot, tick_state,
}
use online_jam.Protocol.Handshake.Host.Slots.{tick-slot_at}

-- The host after ticks at these times, with nothing else between.
pub ticks : HostHandshake → List ℕ → HostHandshake
ticks h [] = h
ticks h (t ∷ ts) = ticks (Host.tick h t).0 ts

ticks-free :
    (h : HostHandshake) (ts : List ℕ) (k : ℕ)
    → slot_at h.slots k ≡ none
    → slot_at (ticks h ts).slots k ≡ none
unfolding ticks tick_slot
ticks-free h [] k e = e
ticks-free h (t ∷ ts) k e =
    ticks-free (Host.tick h t).0 ts k (tick-slot_at h t k ∙ ap (λ s. (tick_slot t k s).slot) e)

-- A due tick frees an unacknowledged slot, or counts one more try.
tick_slot-due :
    (now k : ℕ) (s : Slot) (seq : Option ℕ) (last tries : ℕ)
    → s.state ≡ SlotState.pending seq last tries
    → last + control_retry_ms ≤ now
    → ((tick_slot now k (some s)).slot ≡ none)
      ⊎ ((tries < control_max_tries)
          × ((tick_slot now k (some s)).slot
              ≡ some (record s { state = SlotState.pending seq now (tries + 1) })))
unfolding tick_slot tick_state
tick_slot-due now k s seq last tries e due =
    elim (Bool-cases (ltb peer_timeout_ms (now - s.last_heard_ms))) [
      | inl late ↦ rw late (inl refl)
      | inr near ↦ rw (near, e) (ground arith)
    ]

-- A slot whose WELCOME is not acknowledged is free again after the ticks that its remaining tries
-- allow, and one more, when each tick is at least one retry interval after the last.
pub ticks-unacked :
    (n : ℕ) (h : HostHandshake) (k : ℕ) (s : Slot) (seq : Option ℕ) (last tries : ℕ) (ts : List ℕ)
    → slot_at h.slots k ≡ some s
    → s.state ≡ SlotState.pending seq last tries
    → control_max_tries ≤ tries + n
    → Spaced last ts
    → n < length ts
    → slot_at (ticks h ts).slots k ≡ none
unfolding ticks Spaced
ticks-unacked n h k s seq last tries [] taken state enough spaced long = ground arith
ticks-unacked n h k s seq last tries (t ∷ ts) taken state enough (due, spaced) long =
    let now = tick-slot_at h t k ∙ ap (λ x. (tick_slot t k x).slot) taken in
    elim (tick_slot-due t k s seq last tries state due) [
      | inl gone ↦ ticks-free (Host.tick h t).0 ts k (now ∙ gone)
      | inr (few, again) ↦
          ticks-unacked (n - 1) (Host.tick h t).0 k
            (record s { state = SlotState.pending seq t (tries + 1) }) seq t (tries + 1) ts
            (now ∙ again) refl (omega arith) spaced (omega arith)
    ]
