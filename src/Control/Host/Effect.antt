-- ===== src/Control/Host/Effect.antt =====
-- What the actions of the host's handshake do to the address tables of the other threads and to the
-- streams' flags, in crates/jam-core/src/control.rs.
use online_jam.Prelude.{
  ℕ, zero, suc, ◌-◌, ◌≤◌, ◌≡◌, refl, ap, Bool, true, false, List, [], ◌∷◌, ◌++◌, map, Option, none,
  some, arith, length, set, leb, Bool-cases, inl, inr,
}
use online_jam.Protocol.Handshake.{SocketAddr}
use online_jam.Protocol.Handshake.Host.{
  HostHandshake, HostAction, Slots, client_addr, slot_of_sender, slot_at,
}
use online_jam.Protocol.Handshake.Host.Distinct.{addresses}
use online_jam.Network.{AddrTable, AddrUpdate, no_addrs, addr_at, update_table}
use online_jam.Control.Room.{Fits}
use online_jam.Control.Host.{HostControl}

abbrev pub is_some : Option SocketAddr → Bool
is_some none = false
is_some (some a) = true

-- The table of a thread that got these updates.
unfoldable pub table_after : AddrTable → List AddrUpdate → AddrTable
table_after table [] = table
table_after table (u ∷ us) = table_after (update_table table u) us

unfoldable pub table : HostControl → AddrTable
table st = table_after no_addrs st.updates

pub table_after-append :
    (t : AddrTable) (us vs : List AddrUpdate)
    → table_after t (us ++ vs) ≡ table_after (table_after t us) vs
unfolding table_after
table_after-append t [] vs = refl
table_after-append t (u ∷ us) vs = table_after-append (update_table t u) us vs

unfoldable pub actives : HostControl → List Bool
actives st = map (λ s. s.active) st.shared.clients

-- What an action does to the table, when the handshake holds these addresses.
unfoldable pub effect : AddrTable → HostAction → AddrTable → AddrTable
effect held (HostAction.send to c) t = t
effect held (HostAction.client_joined id name) t = set t (id - 1) (addr_at held (id - 1))
effect held (HostAction.client_left id reason) t = set t (id - 1) none

unfoldable pub effects : AddrTable → List HostAction → AddrTable → AddrTable
unfolding effect
effects held [] t = t
effects held (a ∷ actions) t = effects held actions (effect held a t)

-- The action can be run: what it sends fits, and its id is of a slot, taken where a client joined.
abbrev pub IsRunnable : AddrTable → HostAction → Type 0
IsRunnable held (HostAction.send to c) = Fits c
IsRunnable held (HostAction.client_joined id name) =
    (1 ≤ id) × (id ≤ 4) × (is_some (addr_at held (id - 1)) ≡ true)
IsRunnable held (HostAction.client_left id reason) = (1 ≤ id) × (id ≤ 4)

-- The sizes of the thread's arrays.
pub record IsSized (st : HostControl) : Type 0 where
  pub buffer : length st.io.buf ≡ 2048
  pub streams : length st.shared.clients ≡ 4

-- How running actions changes the thread's state.
pub record Ran (actions : List HostAction) (st st' : HostControl) : Type 0 where
  pub held : addresses st'.hs.slots ≡ addresses st.hs.slots
  pub sized : IsSized st'
  pub tables : table st' ≡ effects (addresses st.hs.slots) actions (table st)
  pub flags : actives st ≡ map is_some (table st) → actives st' ≡ map is_some (table st')

pub map-set :
    {A B : Type 0} (f : A → B) (xs : List A) (k : ℕ) (x : A)
    → map f (set xs k x) ≡ set (map f xs) k (f x)
map-set f [] k x = refl
map-set f (y ∷ ys) zero x = refl
map-set f (y ∷ ys) (suc k) x = ap (◌∷◌ (f y)) (map-set f ys k x)

slots-addr_at :
    (slots : Slots) (k : ℕ)
    → elim (slot_at slots k) [ none ↦ none | some s ↦ some s.addr ] ≡ addr_at (addresses slots) k
slots-addr_at [] k = refl
slots-addr_at (none ∷ slots) zero = refl
slots-addr_at (some s ∷ slots) zero = refl
slots-addr_at (s ∷ slots) (suc k) = slots-addr_at slots k

pub client_addr-addr_at :
    (hs : HostHandshake) (id : ℕ)
    → 1 ≤ id
    → id ≤ 4
    → client_addr hs id ≡ addr_at (addresses hs.slots) (id - 1)
unfolding client_addr slot_of_sender
client_addr-addr_at hs id low high = elim (Bool-cases (leb 1 id)) [
  | inr e ↦ absurd (ground arith)
  | inl e ↦ elim (Bool-cases (leb id 4)) [
    | inr e' ↦ absurd (ground arith)
    | inl e' ↦ rw (client_addr, slot_of_sender, e, e') (slots-addr_at hs.slots (id - 1))
  ]
]
