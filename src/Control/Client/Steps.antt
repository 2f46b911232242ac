-- ===== src/Control/Client/Steps.antt =====
-- The parts of a round of a client's control thread, `spawn_client_control` of
-- crates/jam-core/src/control.rs.
use online_jam.Prelude.{
  ℕ, ◌+◌, ◌-◌, ◌*◌, refl, ◌&&◌, List, some, arith, ltb, leb, Bool-cases, inl, inr,
}
use online_jam.Protocol.{keepalive_ms, peer_timeout_ms, rejoin_window_ms}
use online_jam.Protocol.Handshake.Client.{ClientHandshake, ClientAction}
use online_jam.Protocol.Packet.Endian.{length-to_be}
use online_jam.Protocol.Packet.Types.{Control}
use online_jam.Audio.Jitter
use online_jam.Audio.Jitter.{JitterBuffer}
use online_jam.Control.Client.{
  Config, ClientControl, Times, set_cs, with_actions, out_of_session, check_host, ping, keepalive,
  snapshot, rest_of_round,
}
use online_jam.Control.Client.Batch.{Batch, then_tick, run_actions-Ends}
use online_jam.Control.Client.Consistent.{
  IsConsistent, Ends, Ends-some, Ends-then, IsConfig, send_ctrl-Ends, start_over-Ends,
}

-- The times of the last packets are of no matter.
timed-IsConsistent :
    (st : ClientControl) (p k s : ℕ)
    → IsConsistent st
    → IsConsistent (record st { last_ping = p; last_keepalive = k; last_snapshot = s })
timed-IsConsistent st p k s g = record { buffer = g.buffer; hello = g.hello; joined = g.joined }

check_host-Ends :
    (cfg : Config) (st : ClientControl) (t : Times)
    → IsConfig cfg
    → IsConsistent st
    → Ends st.sent (check_host cfg st t)
unfolding check_host Jitter.reset
check_host-Ends cfg st t valid g =
    let st1 : ClientControl = record st {
      shared = out_of_session st.shared;
      rejoin_deadline = some (t.now_ms + rejoin_window_ms);
    } in
    elim (Bool-cases (
      st.shared.joined
      && ltb (peer_timeout_ms * 1000) (t.check_us - st.shared.from_host.last_rx_us))) [
        | inl quiet ↦ rw (check_host, quiet) (start_over-Ends cfg st1 t.now_ms valid g.buffer refl)
        | inr heard ↦ rw (check_host, heard) (Ends-some st g)
      ]

ping-Ends :
    (cfg : Config) (st : ClientControl) (t : Times) → IsConsistent st → Ends st.sent (ping cfg st t)
unfolding ping
ping-Ends cfg st t g = elim (Bool-cases (st.shared.joined && leb 1000 (t.now_ms - st.last_ping))) [
  | inl due ↦
      rw (ping, due)
        (send_ctrl-Ends cfg _ (Control.ping t.ping_us)
          (timed-IsConsistent st t.now_ms st.last_keepalive st.last_snapshot g)
          (tt, omega (arith, length-to_be 8 t.ping_us)))
  | inr early ↦ rw (ping, early) (Ends-some st g)
]

keepalive-Ends :
    (cfg : Config) (st : ClientControl) (t : Times)
    → IsConsistent st
    → Ends st.sent (keepalive cfg st t)
unfolding keepalive
keepalive-Ends cfg st t g =
    elim (Bool-cases (st.shared.joined && leb keepalive_ms (t.now_ms - st.last_keepalive))) [
      | inl due ↦
          rw (keepalive, due)
            (send_ctrl-Ends cfg _ Control.keepalive
              (timed-IsConsistent st st.last_ping t.now_ms st.last_snapshot g) (tt, omega arith))
      | inr early ↦ rw (keepalive, early) (Ends-some st g)
    ]

snapshot-Ends :
    (st : ClientControl) (t : Times) → IsConsistent st → Ends st.sent (some (snapshot st t))
snapshot-Ends st t g = elim (Bool-cases (leb 500 (t.now_ms - st.last_snapshot))) [
  | inl due ↦
      rw (snapshot, due)
        (Ends-some _ (timed-IsConsistent st st.last_ping st.last_keepalive t.now_ms g))
  | inr early ↦ rw (snapshot, early) (Ends-some st g)
]

pub rest_of_round-Ends :
    (cfg : Config) (t : Times) (st : ClientControl) (r : ClientHandshake × List ClientAction)
    → IsConfig cfg
    → Batch (set_cs st (then_tick r t.now_ms).0) (then_tick r t.now_ms).1
    → Ends st.sent (rest_of_round cfg t (with_actions st r))
unfolding rest_of_round then_tick
rest_of_round-Ends cfg t st r valid batch =
    Ends-then st.sent _ _ (run_actions-Ends cfg _ t _ valid batch) λ st2 g2.
      Ends-then st2.sent _ _ (check_host-Ends cfg st2 t valid g2) λ st3 g3.
        Ends-then st3.sent _ _ (ping-Ends cfg st3 t g3) λ st4 g4.
          Ends-then st4.sent _ _ (keepalive-Ends cfg st4 t g4) λ st5 g5. snapshot-Ends st5 t g5
