-- ===== src/Control/Host/Run.antt =====
-- The run of the actions of the host's handshake, `run` of `spawn_host_control` in
-- crates/jam-core/src/control.rs.
use online_jam.Prelude.{
  ℕ, ◌-◌, ◌≤◌, ◌<◌, ◌≡◌, refl, sym, ◌∙◌, ap, subst, true, List, [], ◌∷◌, ◌++◌, map, Option, none,
  some, arith, Bytes, All, length, length-set, set, ltb, Bool-cases, inl, inr,
}
use online_jam.Protocol.Handshake.{SocketAddr}
use online_jam.Protocol.Handshake.Host.{HostAction, client_addr, welcome_sent}
use online_jam.Protocol.Handshake.Host.Distinct.{addresses, addresses-map, addr_of-welcome_sent}
use online_jam.Protocol.Seq.{next}
use online_jam.Protocol.Packet.Types.{Control}
use online_jam.Audio.Jitter
use online_jam.Session.{StreamShared, stream_of}
use online_jam.Network.{AddrTable, AddrUpdate, no_addrs, update_table}
use online_jam.Control.{ControlIo, Datagram}
use online_jam.Control.Room.{Fits, send-some}
use online_jam.Control.Host.{
  HostControl, run_action, run, send_to, is_welcome, is_player, with_player, joined_stream,
  left_stream,
}
use online_jam.Control.Host.Effect.{
  is_some, table_after, table, table_after-append, actives, effect, effects, IsRunnable, map-set,
  client_addr-addr_at, IsSized, Ran,
}

-- The thread after it has sent a datagram.
unfoldable pub after_send : HostControl → ControlIo → Datagram → HostControl
after_send st io d = record st { io = io; sent = st.sent ++ (d ∷ []) }

pub send_to-some :
    (st : HostControl) (to : SocketAddr) (c : Control)
    → IsSized st
    → Fits c
    → (io : ControlIo) × (d : Datagram) × (send_to st to c
        ≡ some (after_send st io d, (next st.io.seq).0))
      × (length io.buf ≡ 2048)
unfolding send_to after_send
send_to-some st to c sized fits =
    let (io, d, sends, room) = send-some st.io c st.shared.session_id 0 to fits sized.buffer in
    (io, d, rw (send_to, sends) refl, room)

sent-Ran :
    (st : HostControl) (to : SocketAddr) (c : Control)
    → IsSized st
    → Fits c
    → (st' : HostControl) × (run_action st (HostAction.send to c) ≡ some st')
      × Ran (HostAction.send to c ∷ []) st st'
unfolding run_action after_send welcome_sent effects effect table actives
sent-Ran st to c sized fits =
    let (io, d, sends, room) = send_to-some st to c sized fits in
    let seq = (next st.io.seq).0 in
    let st1 = after_send st io d in
    elim (Bool-cases (is_welcome c)) [
      | inr e ↦ (
        st1,
        rw (run_action, sends, e) refl,
        record {
          held = refl;
          sized = record { buffer = room; streams = sized.streams };
          tables = refl;
          flags = λ same. same;
        },
      )
      | inl e ↦ (
        record st1 { hs = welcome_sent st1.hs to seq },
        rw (run_action, sends, e) refl,
        record {
          held = addresses-map _ st.hs.slots (addr_of-welcome_sent to seq);
          sized = record { buffer = room; streams = sized.streams };
          tables = refl;
          flags = λ same. same;
        },
      )
    ]

update_table-client :
    (t : AddrTable) (k : ℕ) (a : Option SocketAddr)
    → k < 4
    → update_table t (AddrUpdate.client k a) ≡ set t k a
unfolding update_table
update_table-client t k a lt = elim (Bool-cases (ltb k 4)) [
  | inl e ↦ rw e refl
  | inr e ↦ absurd (ground arith)
]

-- Every player's stream changed with the table.
module _ (st : HostControl) (id : ℕ) (s : StreamShared) (a : Option SocketAddr) where
  -- The thread after a player's stream is replaced and an update sent.
  abbrev placed : List (Option Bytes) → HostControl
  placed names = record st {
    shared = with_player st.shared id s;
    names = names;
    updates = st.updates ++ (AddrUpdate.client (id - 1) a ∷ []);
  }

  placed-table :
      (names : List (Option Bytes)) → id - 1 < 4 → table (placed names) ≡ set (table st) (id - 1) a
  unfolding table table_after
  placed-table names lt =
      table_after-append no_addrs st.updates (AddrUpdate.client (id - 1) a ∷ [])
      ∙ update_table-client (table st) (id - 1) a lt

  placed-Ran :
      (actions : List HostAction) (names : List (Option Bytes))
      → id - 1 < 4
      → IsSized st
      → effects (addresses st.hs.slots) actions (table st) ≡ set (table st) (id - 1) a
      → s.active ≡ is_some a
      → Ran actions st (placed names)
  unfolding actives
  placed-Ran actions names lt sized effect_is active_is = record {
    held = refl;
    sized = record {
      buffer = sized.buffer;
      streams = length-set st.shared.clients (id - 1) s ∙ sized.streams;
    };
    tables = placed-table names lt ∙ sym effect_is;
    flags = λ same.
        map-set (λ t. t.active) st.shared.clients (id - 1) s
        ∙ ap (λ xs. set xs (id - 1) s.active) same
        ∙ ap (λ b. set (map is_some (table st)) (id - 1) b) active_is
        ∙ sym (map-set is_some (table st) (id - 1) a)
        ∙ ap (map is_some) (sym (placed-table names lt));
  }

is_player-true : (id : ℕ) → 1 ≤ id → id ≤ 4 → is_player id ≡ true
is_player-true id low high = ground arith

-- An action that can be run is run.
run_action-Ran :
    (st : HostControl) (a : HostAction)
    → IsSized st
    → IsRunnable (addresses st.hs.slots) a
    → (st' : HostControl) × (run_action st a ≡ some st') × Ran (a ∷ []) st st'
unfolding effects effect run_action Jitter.reset client_addr
run_action-Ran st (HostAction.send to c) sized fits = sent-Ran st to c sized fits
run_action-Ran st (HostAction.client_joined id name) sized (low, high, taken) =
    let addr = client_addr-addr_at st.hs id low high in
    let s = joined_stream (stream_of st.shared.clients (id - 1)) in
    (
      placed st id s (client_addr st.hs id) (set st.names (id - 1) (some name)),
      rw (run_action, is_player-true id low high) refl,
      placed-Ran st id s (client_addr st.hs id) (HostAction.client_joined id name ∷ [])
          (set st.names (id - 1) (some name)) (omega arith) sized
          (ap (set (table st) (id - 1)) (sym addr)) (sym (ap is_some addr ∙ taken)),
    )
run_action-Ran st (HostAction.client_left id reason) sized (low, high) =
    let s = left_stream (stream_of st.shared.clients (id - 1)) in
    (
      placed st id s none (set st.names (id - 1) none),
      rw (run_action, is_player-true id low high) refl,
      placed-Ran st id s none (HostAction.client_left id reason ∷ []) (set st.names (id - 1) none)
          (omega arith) sized refl refl,
    )

Ran-then :
    {st st1 st2 : HostControl} (a : HostAction) (actions : List HostAction)
    → Ran (a ∷ []) st st1
    → Ran actions st1 st2
    → Ran (a ∷ actions) st st2
unfolding effects
Ran-then {st} {st1} {st2} a actions r r' = record {
  held = r'.held ∙ r.held;
  sized = r'.sized;
  tables =
      r'.tables
      ∙ ap (λ held. effects held actions (table st1)) r.held
      ∙ ap (effects (addresses st.hs.slots) actions) r.tables;
  flags = λ same. r'.flags (r.flags same);
}

-- A list of actions that can be run is run to its end.
pub run-Ran :
    (actions : List HostAction) (st : HostControl)
    → IsSized st
    → All (IsRunnable (addresses st.hs.slots)) actions
    → (st' : HostControl) × (run st actions ≡ some st') × Ran actions st st'
unfolding effects run
run-Ran [] st sized h =
    (st, refl, record { held = refl; sized = sized; tables = refl; flags = λ same. same })
run-Ran (a ∷ actions) st sized (h, hs) =
    let (st1, ran, r) = run_action-Ran st a sized h in
    let (st2, ran', r') =
      run-Ran actions st1 r.sized (subst (λ held. All (IsRunnable held) actions) (sym r.held) hs) in
    (st2, rw (run, ran) ran', Ran-then a actions r r')
