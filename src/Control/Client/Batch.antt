-- ===== src/Control/Client/Batch.antt =====
-- The lists of actions that the handshake of crates/jam-protocol/src/handshake.rs gives to a client's
-- control thread, and what running them keeps.
use online_jam.Prelude.{
  ℕ, ◌+◌, ◌-◌, ◌≡◌, ◌≢◌, refl, sym, ◌∙◌, false, List, [], ◌∷◌, ◌++◌, arith, ltb, leb, Bool-cases,
  inl, inr,
}
use online_jam.Protocol.{control_retry_ms, control_max_tries}
use online_jam.Protocol.Handshake.{SessionParams}
use online_jam.Protocol.Handshake.Client
use online_jam.Protocol.Handshake.Client.{
  ClientHandshake, ClientPhase, ClientAction, JoinFailure, tick_in, on_control_in, welcome_params,
}
use online_jam.Protocol.Packet.Types.{Control, Welcome, PlayerInfo, DenyReason}
use online_jam.Control.Client.{
  Config, ClientControl, Times, set_cs, start_audio, in_window, run_action, run_actions,
}
use online_jam.Control.Client.Consistent.{
  IsConsistent, Ends, Ends-some, Ends-then, IsConfig, send_ctrl-Ends, start_over-Ends,
}

-- The lists of actions that a round can meet, in a state.
pub data Batch (st : ClientControl) : List ClientAction → Type 0 where
  nothing : IsConsistent st → Batch st []
  hello : IsConsistent st → Batch st (ClientAction.send st.cs.hello ∷ [])
  failed :
      IsConsistent st
      → st.shared.joined ≡ false
      → (f : JoinFailure) → Batch st (ClientAction.failed f ∷ [])
  started :
      IsConsistent st
      → (id session : ℕ) (params : SessionParams) (players : List PlayerInfo)
      → st.cs.phase ≡ ClientPhase.joined id session params
      → Batch st
          (ClientAction.start_audio id session params ∷ ClientAction.roster_update players ∷ [])

-- A phase other than a session's keeps the audio threads out.
not_joined :
    (st : ClientControl) (p : ClientPhase)
    → IsConsistent st
    → st.cs.phase ≡ p
    → ((id session : ℕ) (params : SessionParams) → p ≢ ClientPhase.joined id session params)
    → st.shared.joined ≡ false
not_joined st p g e other = elim (Bool-cases st.shared.joined) [
  | inr out ↦ out
  | inl inside ↦
      let (params, at) = g.joined inside in
      absurd (other st.shared.sender_id st.shared.session_id params (sym e ∙ at))
]

-- A change of the phase alone, out of a session.
rephased :
    (st : ClientControl) (p : ClientPhase)
    → IsConsistent st
    → st.shared.joined ≡ false
    → IsConsistent (set_cs st (record st.cs { phase = p }))
rephased st p g out = record {
  buffer = g.buffer;
  hello = g.hello;
  joined = λ inside. absurd (ground arith);
}

tick_in-Batch :
    (p : ClientPhase) (st : ClientControl) (now : ℕ)
    → IsConsistent st
    → st.cs.phase ≡ p
    → Batch (set_cs st (tick_in p st.cs now).0) (tick_in p st.cs now).1
unfolding tick_in
tick_in-Batch (ClientPhase.joining last tries) st now g e =
    let out = not_joined st _ g e (λ id session params same. ground arith) in
    elim (Bool-cases (ltb (now - last) control_retry_ms)) [
      | inl early ↦ rw (tick_in, early) (nothing g)
      | inr due ↦ elim (Bool-cases (leb control_max_tries tries)) [
        | inl over ↦
            rw (tick_in, due, over)
              (failed (rephased st (ClientPhase.failed JoinFailure.timeout) g out) out
                JoinFailure.timeout)
        | inr again ↦
            rw (tick_in, due, again)
              (hello (rephased st (ClientPhase.joining now (tries + 1)) g out))
      ]
    ]
tick_in-Batch ClientPhase.idle st now g e = nothing g
tick_in-Batch (ClientPhase.joined id session params) st now g e = nothing g
tick_in-Batch (ClientPhase.failed f) st now g e = nothing g

pub tick-Batch :
    (st : ClientControl) (now : ℕ)
    → IsConsistent st
    → Batch (set_cs st (Client.tick st.cs now).0) (Client.tick st.cs now).1
unfolding Client.tick
tick-Batch st now g = tick_in-Batch st.cs.phase st now g refl

-- The actions of a packet, with those of the tick that follows.
unfoldable pub then_tick :
    ClientHandshake × List ClientAction → ℕ → ClientHandshake × List ClientAction
then_tick (cs, actions) now = ((Client.tick cs now).0, actions ++ (Client.tick cs now).1)

welcome-Batch :
    (p : ClientPhase) (st : ClientControl) (w : Welcome) (now : ℕ)
    → IsConsistent st
    → st.cs.phase ≡ p
    → let r = then_tick (on_control_in p st.cs (Control.welcome w)) now in Batch (set_cs st r.0) r.1
unfolding on_control_in then_tick Client.tick tick_in
welcome-Batch (ClientPhase.joining last tries) st w now g e =
    let out = not_joined st _ g e (λ id session params same. ground arith) in
    started (rephased st (ClientPhase.joined w.assigned_id w.session_id (welcome_params w)) g out)
      w.assigned_id w.session_id (welcome_params w) w.roster refl
welcome-Batch ClientPhase.idle st w now g e = tick-Batch st now g
welcome-Batch (ClientPhase.joined id session params) st w now g e = tick-Batch st now g
welcome-Batch (ClientPhase.failed f) st w now g e = tick-Batch st now g

deny-Batch :
    (p : ClientPhase) (st : ClientControl) (reason : DenyReason) (now : ℕ)
    → IsConsistent st
    → st.cs.phase ≡ p
    → let r = then_tick (on_control_in p st.cs (Control.deny reason)) now in
      Batch (set_cs st r.0) r.1
unfolding on_control_in then_tick Client.tick tick_in
deny-Batch (ClientPhase.joining last tries) st reason now g e =
    let out = not_joined st _ g e (λ id session params same. ground arith) in
    failed (rephased st (ClientPhase.failed (JoinFailure.denied reason)) g out) out
      (JoinFailure.denied reason)
deny-Batch ClientPhase.idle st reason now g e = tick-Batch st now g
deny-Batch (ClientPhase.joined id session params) st reason now g e = tick-Batch st now g
deny-Batch (ClientPhase.failed f) st reason now g e = tick-Batch st now g

-- What a WELCOME or a DENY and the tick after it give.
pub packet-Batch :
    (st : ClientControl) (now : ℕ)
    → IsConsistent st
    → ((w : Welcome)
        → let r = then_tick (Client.on_control st.cs (Control.welcome w)) now in
          Batch (set_cs st r.0) r.1)
      × ((reason : DenyReason)
          → let r = then_tick (Client.on_control st.cs (Control.deny reason)) now in
            Batch (set_cs st r.0) r.1)
unfolding Client.on_control
packet-Batch st now g = (
  (λ w. welcome-Batch st.cs.phase st w now g refl),
  (λ reason. deny-Batch st.cs.phase st reason now g refl),
)

-- The consistency of a state that differs in what it does not speak of.
started-IsConsistent :
    (cfg : Config) (st : ClientControl) (t : Times) (id session : ℕ) (params : SessionParams)
    (players : List PlayerInfo)
    → IsConsistent st
    → st.cs.phase ≡ ClientPhase.joined id session params
    → IsConsistent (record (start_audio cfg st t id session params) { roster = players })
unfolding start_audio
started-IsConsistent cfg st t id session params players g e = record {
  buffer = g.buffer;
  hello = g.hello;
  joined = λ inside. (params, e);
}

failed-Ends :
    (cfg : Config) (st : ClientControl) (t : Times) (f : JoinFailure)
    → IsConfig cfg
    → IsConsistent st
    → st.shared.joined ≡ false
    → Ends st.sent (run_action cfg st t (ClientAction.failed f))
unfolding run_action
failed-Ends cfg st t (JoinFailure.denied reason) valid g out =
    Ends-some _ (record { buffer = g.buffer; hello = g.hello; joined = g.joined })
failed-Ends cfg st t JoinFailure.timeout valid g out =
    elim (Bool-cases (in_window st.rejoin_deadline t.now_ms)) [
      | inl early ↦ rw (run_action, early) (start_over-Ends cfg st t.now_ms valid g.buffer out)
      | inr late ↦
          rw (run_action, late)
            (Ends-some _ (record { buffer = g.buffer; hello = g.hello; joined = g.joined }))
    ]

-- Such a list runs to its end.
pub run_actions-Ends :
    (cfg : Config) (st : ClientControl) (t : Times) (actions : List ClientAction)
    → IsConfig cfg
    → Batch st actions
    → Ends st.sent (run_actions cfg st t actions)
unfolding run_actions run_action start_audio
run_actions-Ends cfg st t _ valid (nothing g) = Ends-some st g
run_actions-Ends cfg st t _ valid (hello g) =
    Ends-then st.sent _ _ (send_ctrl-Ends cfg st st.cs.hello g g.hello) (λ st' g'. Ends-some st' g')
run_actions-Ends cfg st t _ valid (failed g out f) =
    Ends-then st.sent _ _ (failed-Ends cfg st t f valid g out) (λ st' g'. Ends-some st' g')
run_actions-Ends cfg st t _ valid (started g id session params players e) =
    Ends-some _ (started-IsConsistent cfg st t id session params players g e)
