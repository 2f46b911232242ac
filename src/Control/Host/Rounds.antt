-- ===== src/Control/Host/Rounds.antt =====
-- Each round of the host's control thread ends, with the tables of the other threads in step with the
-- handshake: `spawn_host_control` of crates/jam-core/src/control.rs.
use online_jam.Prelude.{
  ℕ, zero, suc, ◌-◌, ◌≡◌, refl, sym, ◌∙◌, ap, List, [], ◌∷◌, map, Option, none, some, Bytes, length,
  length-set, set, leb, ◌==◌, Bool-cases, Option-cases, inl, inr,
}
use online_jam.Protocol.Handshake.{SocketAddr, SessionParams}
use online_jam.Protocol.Handshake.Host
use online_jam.Protocol.Handshake.Host.{
  HostHandshake, HostAction, slot_at, slot_of_sender, sender_for_addr, mark_heard, on_hello, on_ack,
  on_bye, client_addrs,
}
use online_jam.Protocol.Handshake.Host.Distinct.{addresses}
use online_jam.Protocol.Handshake.Host.Invariant.{Call, step, step-IsHost}
use online_jam.Protocol.Packet.Types.{Control}
use online_jam.Session.{StreamShared, stream_of}
use online_jam.Session
use online_jam.Network.{CtrlEvent}
use online_jam.Audio.Jitter.{JitterBuffer}
use online_jam.Control.Host.{
  HostControl, run_after, heard, on_pong, on_control, on_event, feed, pings, keepalives, round, new,
  Turn, stored, rounds,
}
use online_jam.Control.Host.Effect.{effects, table, actives, is_some}
use online_jam.Control.Host.Follows.{on_hello-Follows, on_bye-Follows, tick-Follows}
use online_jam.Control.Host.Mirror.{
  Ends, Ends-some, Ends-then, IsHost-cast, with_host-IsMirror, run_after-Ends, heard-addresses,
  on_ack-Follows, feed-addresses, pings-Ends, keepalives-Ends, snapshot-IsMirror, new-IsMirror,
  IsMirror,
}

-- A new round-trip time leaves the flags.
set-active :
    (ss : List StreamShared) (k : ℕ) (s : StreamShared)
    → s.active ≡ (stream_of ss k).active
    → map (λ t. t.active) (set ss k s) ≡ map (λ t. t.active) ss
set-active [] k s e = refl
set-active (t ∷ ss) zero s e = ap (λ b. b ∷ map (λ t. t.active) ss) e
set-active (t ∷ ss) (suc k) s e = ap (◌∷◌ t.active) (set-active ss k s e)

tick-Ends :
    (st : HostControl) (h : HostHandshake) (now : ℕ)
    → IsMirror st
    → addresses h.slots ≡ addresses st.hs.slots
    → Ends (run_after st (Host.tick h now))
unfolding step
tick-Ends st h now m same =
    let v = IsHost-cast st.hs h m.host same in
    let f = tick-Follows h now v in
    run_after-Ends st (Host.tick h now).0 (Host.tick h now).1 m (step-IsHost h (Call.tick now) v)
      (record {
        runnable = f.runnable;
        follows =
            ap (effects (addresses (Host.tick h now).0.slots) (Host.tick h now).1) (sym same)
            ∙ f.follows;
      })

-- The receive thread's stores leave the flags.
stored-active :
    (rx : ℕ → JitterBuffer × ℕ) (slot : ℕ) (ss : List StreamShared)
    → map (λ s. s.active) (stored rx slot ss) ≡ map (λ s. s.active) ss
stored-active rx slot [] = refl
stored-active rx slot (s ∷ ss) = ap (◌∷◌ s.active) (stored-active rx (suc slot) ss)

stored-length :
    (rx : ℕ → JitterBuffer × ℕ) (slot : ℕ) (ss : List StreamShared)
    → length (stored rx slot ss) ≡ length ss
stored-length rx slot [] = refl
stored-length rx slot (s ∷ ss) = ap suc (stored-length rx (suc slot) ss)

stored-IsMirror :
    (st : HostControl) (rx : ℕ → JitterBuffer × ℕ)
    → IsMirror st
    → IsMirror (record st { shared = record st.shared { clients = stored rx 0 st.shared.clients } })
unfolding table actives
stored-IsMirror st rx m = record {
  host = m.host;
  sized = record {
    buffer = m.sized.buffer;
    streams = stored-length rx 0 st.shared.clients ∙ m.sized.streams;
  };
  tables = m.tables;
  flags = stored-active rx 0 st.shared.clients ∙ m.flags;
}

module _ (ewma : ℕ → ℕ → ℕ) (to_u32 : ℕ → ℕ) where
  on_pong-IsMirror :
      (st : HostControl) (from : SocketAddr) (rtt : ℕ)
      → IsMirror st
      → IsMirror (on_pong ewma to_u32 st from rtt)
  unfolding on_pong table actives
  on_pong-IsMirror st from rtt m = elim (Option-cases (sender_for_addr st.hs from)) [
    | inl e ↦ rw (on_pong, e) m
    | inr (id, e) ↦ elim (Bool-cases (leb 1 id)) [
      | inr low ↦ rw (on_pong, e, low) m
      | inl ok ↦
          rw (on_pong, e, ok)
            (record {
              host = m.host;
              sized = record {
                buffer = m.sized.buffer;
                streams = length-set st.shared.clients (id - 1) _ ∙ m.sized.streams;
              };
              tables = m.tables;
              flags = set-active st.shared.clients (id - 1) _ refl ∙ m.flags;
            })
    ]
  ]

  on_control-Ends :
      (st : HostControl) (ev : CtrlEvent) (c : Control) (now : ℕ)
      → IsMirror st
      → Ends (on_control ewma to_u32 st ev c now)
  unfolding on_control on_ack step
  on_control-Ends st ev (Control.hello c) now m =
      run_after-Ends st (on_hello st.hs ev.from (Control.hello c) now).0 _ m
        (step-IsHost st.hs (Call.hello ev.from (Control.hello c) now) m.host)
        (on_hello-Follows st.hs ev.from (Control.hello c) now m.host)
  on_control-Ends st ev (Control.ack seq type) now m =
      run_after-Ends st (on_ack st.hs ev.from seq now).0 _ m
        (step-IsHost st.hs (Call.ack ev.from seq now) m.host) (on_ack-Follows st.hs ev.from seq now)
  on_control-Ends st ev (Control.pong t1 t2 t3) now m =
      Ends-some _ (on_pong-IsMirror st ev.from _ m)
  on_control-Ends st ev Control.bye now m =
      elim (Bool-cases (ev.header.session_id == st.shared.session_id)) [
        | inr other ↦ rw (on_control, other) (Ends-some st m)
        | inl ours ↦
            rw (on_control, ours)
              (run_after-Ends st (on_bye st.hs ev.from).0 _ m
                (step-IsHost st.hs (Call.bye ev.from) m.host) (on_bye-Follows st.hs ev.from m.host))
      ]
  on_control-Ends st ev (Control.welcome c) now m = Ends-some st m
  on_control-Ends st ev (Control.deny reason) now m = Ends-some st m
  on_control-Ends st ev (Control.ping t1) now m = Ends-some st m
  on_control-Ends st ev Control.keepalive now m = Ends-some st m
  on_control-Ends st ev (Control.roster ps) now m = Ends-some st m

  on_event-Ends :
      (st : HostControl) (event : Option CtrlEvent) (now : ℕ)
      → IsMirror st
      → Ends (on_event ewma to_u32 st event now)
  unfolding on_event
  on_event-Ends st none now m = Ends-some st m
  on_event-Ends st (some ev) now m =
      on_control-Ends _ ev ev.control now
        (with_host-IsMirror st (heard st.hs ev.from now) m (heard-addresses st.hs ev.from now))

  round-Ends :
      (st : HostControl) (event : Option CtrlEvent) (now : ℕ) (ping_us : ℕ → ℕ)
      → IsMirror st
      → Ends (round ewma to_u32 st event now ping_us)
  unfolding round step
  round-Ends st event now ping_us m =
      Ends-then (on_event ewma to_u32 st event now) _ (on_event-Ends st event now m) λ st1 m1.
        let fed = feed 0 st1.shared.clients st1.hs in
        Ends-then _ _ (tick-Ends st1 fed now m1 (feed-addresses 0 st1.shared.clients st1.hs))
          λ st2 m2. Ends-then (pings st2 now ping_us) _ (pings-Ends st2 now ping_us m2) λ st3 m3.
            Ends-then (keepalives st3 now) _ (keepalives-Ends st3 now m3)
              λ st4 m4. Ends-some _ (snapshot-IsMirror st4 now m4)

  rounds-Ends :
      (turns : List Turn) (st : HostControl) → IsMirror st → Ends (rounds ewma to_u32 st turns)
  unfolding rounds
  rounds-Ends [] st m = Ends-some st m
  rounds-Ends (t ∷ turns) st m =
      Ends-then _ _ (round-Ends _ t.event t.now_ms t.ping_us (stored-IsMirror st t.rx m))
        λ st' m'. rounds-Ends turns st' m'

  -- From the start, whatever arrives and in whatever order, at whatever times, and whatever the
  -- receive thread stores in the streams, the host's control thread does not panic; and after any
  -- number of rounds the address table that its updates give to the other threads is that of the
  -- handshake's slots, and the streams flagged active are those of the taken slots.
  pub rounds-new-Mirrors :
      (code : Bytes) (params : SessionParams) (name : Bytes) (session_id : ℕ) (turns : List Turn)
      → (st : HostControl) × (rounds ewma to_u32
            (new code params name (Session.new session_id))
            turns
          ≡ some st)
        × (table st ≡ addresses st.hs.slots)
        × (actives st ≡ map is_some (addresses st.hs.slots))
  rounds-new-Mirrors code params name session_id turns =
      let (st, ends, m) = rounds-Ends turns _ (new-IsMirror code params name session_id) in
      (st, ends, m.tables, m.flags ∙ ap (map is_some) m.tables)
