-- ===== src/Control/Host/Clears.antt =====
-- The slots that crates/jam-protocol/src/handshake.rs frees in one sweep, with the reports of it that
-- crates/jam-core/src/control.rs acts on.
use online_jam.Prelude.{
  ℕ, zero, suc, ◌+◌, ◌-◌, ◌≤◌, ◌≡◌, refl, sym, ◌∙◌, ap, ◌⊎◌, inl, inr, List, [], ◌∷◌, ◌++◌, Option,
  none, some, arith, All, length, length-append, set, append_assoc, Bool-cases, ltb, leb,
}
use online_jam.Protocol.{peer_timeout_ms, control_retry_ms, control_max_tries}
use online_jam.Protocol.Handshake.{SocketAddr}
use online_jam.Protocol.Handshake.Host.{
  HostAction, Slot, SlotState, Slots, LeaveReason, sender_id, has_addr, remove_from, tick_slot,
  tick_state, tick_from,
}
use online_jam.Protocol.Handshake.Host.Distinct.{addr_of, addresses}
use online_jam.Network.{AddrTable}
use online_jam.Control.Host.Effect.{IsRunnable, effect, effects}

-- The addresses before and after a sweep from index `i` on, and its actions.
pub data Clears : ℕ → AddrTable → AddrTable → List HostAction → Type 0 where
  done : (i : ℕ) → Clears i [] [] []
  keep :
      (i : ℕ) (x : Option SocketAddr) {xs ys : AddrTable} {actions : List HostAction}
      → Clears (suc i) xs ys actions
      → Clears i (x ∷ xs) (x ∷ ys) actions
  clear :
      (i : ℕ) (x : Option SocketAddr) (why : LeaveReason) {xs ys : AddrTable}
      {actions : List HostAction}
      → Clears (suc i) xs ys actions
      → Clears i (x ∷ xs) (none ∷ ys) (HostAction.client_left (sender_id i) why ∷ actions)

pub sender_id-lem : (i : ℕ) → suc i ≤ 4 → sender_id i ≡ suc i
unfolding sender_id
sender_id-lem i h = omega arith

set-middle :
    (pre : AddrTable) (x v : Option SocketAddr) (xs : AddrTable) (i : ℕ)
    → i ≡ length pre
    → set (pre ++ (x ∷ xs)) i v ≡ (pre ++ (v ∷ [])) ++ xs
set-middle [] x v xs zero e = refl
set-middle [] x v xs (suc i) e = absurd (omega arith)
set-middle (p ∷ pre) x v xs zero e = absurd (omega arith)
set-middle (p ∷ pre) x v xs (suc i) e = ap (◌∷◌ p) (set-middle pre x v xs i (omega arith))

pub Clears-IsRunnable :
    {i : ℕ} {xs ys : AddrTable} {actions : List HostAction} (held : AddrTable)
    → Clears i xs ys actions
    → i + length xs ≤ 4
    → All (IsRunnable held) actions
Clears-IsRunnable held (done i) h = tt
Clears-IsRunnable held (keep i x c) h = Clears-IsRunnable held c (omega arith)
Clears-IsRunnable held (clear i x why c) h =
    let id = sender_id-lem i (omega arith) in
    ((omega arith, omega arith), Clears-IsRunnable held c (omega arith))

Clears-from :
    {i : ℕ} {xs ys : AddrTable} {actions : List HostAction} (pre held : AddrTable)
    → Clears i xs ys actions
    → i ≡ length pre
    → i + length xs ≤ 4
    → effects held actions (pre ++ xs) ≡ pre ++ ys
unfolding effects effect
Clears-from pre held (done i) e h = refl
Clears-from pre held (keep i x {xs} {ys} {actions} c) e h =
    ap (effects held actions) (sym (append_assoc pre (x ∷ []) xs))
    ∙ Clears-from (pre ++ (x ∷ [])) held c (omega (arith, length-append pre (x ∷ []))) (omega arith)
    ∙ append_assoc pre (x ∷ []) ys
Clears-from pre held (clear i x why {xs} {ys} {actions} c) e h =
    ap (effects held actions)
      (set-middle pre x none xs (sender_id i - 1) (omega (arith, sender_id-lem i (omega arith))))
    ∙ Clears-from (pre ++ (none ∷ [])) held c (omega (arith, length-append pre (none ∷ [])))
        (omega arith)
    ∙ append_assoc pre (none ∷ []) ys

-- The actions do to a table what the sweep did to the slots.
pub Clears-effects :
    {xs ys : AddrTable} {actions : List HostAction} (held : AddrTable)
    → Clears 0 xs ys actions
    → length xs ≡ 4
    → effects held actions xs ≡ ys
Clears-effects held c four = Clears-from [] held c refl (omega arith)

pub remove_from-Clears :
    (a : SocketAddr) (why : LeaveReason) (i : ℕ) (slots : Slots)
    → Clears i
        (addresses slots)
        (addresses (remove_from a why i slots).0)
        (remove_from a why i slots).1
unfolding remove_from
remove_from-Clears a why i [] = done i
remove_from-Clears a why i (s ∷ slots) =
    let rest = remove_from-Clears a why (suc i) slots in
    elim (Bool-cases (has_addr a s)) [
      | inl hit ↦ rw hit (clear i (addr_of s) why rest)
      | inr miss ↦ rw miss (keep i (addr_of s) rest)
    ]

-- The sweep drops the slot and says so, or keeps its address and says nothing.
tick_slot-cases :
    (now i : ℕ) (s : Option Slot)
    → ((addr_of (tick_slot now i s).slot ≡ addr_of s) × ((tick_slot now i s).actions ≡ []))
      ⊎ (((tick_slot now i s).slot ≡ none)
          × (why : LeaveReason) × ((tick_slot now i s).actions
              ≡ HostAction.client_left (sender_id i) why ∷ []))
unfolding tick_slot tick_state
tick_slot-cases now i none = inl (refl, refl)
tick_slot-cases now i (some s) = elim (Bool-cases (ltb peer_timeout_ms (now - s.last_heard_ms))) [
  | inl late ↦ rw late (inr (refl, LeaveReason.timeout, refl))
  | inr near ↦ rw near (state_cases s.state)
]
  where
    state_cases :
        (state : SlotState)
        → ((addr_of (tick_state now i s state).slot ≡ some s.addr)
            × ((tick_state now i s state).actions ≡ []))
          ⊎ (((tick_state now i s state).slot ≡ none)
              × (why : LeaveReason) × ((tick_state now i s state).actions
                  ≡ HostAction.client_left (sender_id i) why ∷ []))
    state_cases (SlotState.pending seq last tries) =
        elim (Bool-cases (leb control_retry_ms (now - last))) [
          | inr early ↦ rw early (inl (refl, refl))
          | inl due ↦ elim (Bool-cases (leb control_max_tries tries)) [
            | inl over ↦ rw (due, over) (inr (refl, LeaveReason.welcome_unacked, refl))
            | inr more ↦ rw (due, more) (inl (refl, refl))
          ]
        ]
    state_cases SlotState.active = inl (refl, refl)

pub tick_from-Clears :
    (now i : ℕ) (slots : Slots)
    → Clears i
        (addresses slots)
        (addresses (tick_from now i slots).slots)
        (tick_from now i slots).actions
unfolding tick_from
tick_from-Clears now i [] = done i
tick_from-Clears now i (s ∷ slots) =
    let rest = tick_from-Clears now (suc i) slots in
    elim (tick_slot-cases now i s) [
      | inl (same, quiet) ↦ rw (same, quiet) (keep i (addr_of s) rest)
      | inr (gone, why, says) ↦ rw (gone, says) (clear i (addr_of s) why rest)
    ]
