-- ===== src/Protocol/Handshake/Client/Runs.antt =====
-- The client's state machine of crates/jam-protocol/src/handshake.rs over whole runs.
use online_jam.Prelude.{
  ℕ, zero, suc, ◌+◌, ◌-◌, ◌≤◌, ◌<◌, ◌≡◌, refl, ap, ◌∙◌, inl, inr, List, [], ◌∷◌, ◌++◌, arith, ltb,
  leb, Bool-cases, length,
}
use online_jam.Protocol.{control_retry_ms, control_max_tries}
use online_jam.Protocol.Handshake.{SessionParams}
use online_jam.Protocol.Handshake.Client.{
  JoinFailure, ClientPhase, ClientAction, ClientHandshake, start, tick, tick_in, on_control,
  on_control_in,
}
use online_jam.Protocol.Handshake.Times.{Spaced}
use online_jam.Protocol.Packet.Types.{Control}

-- What the embedder feeds the client after `start`.
pub data Event : Type 0 where
  clock : (now : ℕ) → Event
  received : Control → Event

pub step : ClientHandshake → Event → ClientHandshake × List ClientAction
step c (Event.clock now) = tick c now
step c (Event.received control) = on_control c control

pub run : ClientHandshake → List Event → ClientHandshake × List ClientAction
run c [] = (c, [])
run c (e ∷ es) =
    let (c', actions) = step c e in let (c'', later) = run c' es in (c'', actions ++ later)

-- How many packets a list of actions sends.
pub sends : List ClientAction → ℕ
sends [] = 0
sends (ClientAction.send _ ∷ rest) = suc (sends rest)
sends (_ ∷ rest) = sends rest

-- How often the client may still send.
budget : ClientPhase → ℕ
budget (ClientPhase.joining _ tries) = control_max_tries - tries
budget _ = 0

sends-append : (xs ys : List ClientAction) → sends (xs ++ ys) ≡ sends xs + sends ys
unfolding sends
sends-append [] ys = omega arith
sends-append (ClientAction.send _ ∷ xs) ys = let ih = sends-append xs ys in omega arith
sends-append (ClientAction.start_audio _ _ _ ∷ xs) ys = sends-append xs ys
sends-append (ClientAction.roster_update _ ∷ xs) ys = sends-append xs ys
sends-append (ClientAction.failed _ ∷ xs) ys = sends-append xs ys

tick_in-budget :
    (p : ClientPhase) (c : ClientHandshake) (now : ℕ)
    → c.phase ≡ p
    → sends (tick_in p c now).1 + budget (tick_in p c now).0.phase ≤ budget p
unfolding tick_in sends budget
tick_in-budget (ClientPhase.joining last tries) c now e =
    elim (Bool-cases (ltb (now - last) control_retry_ms)) [
      | inl early ↦ rw (early, e) (omega arith)
      | inr due ↦ elim (Bool-cases (leb control_max_tries tries)) [
        | inl over ↦ rw (due, over) (omega arith)
        | inr again ↦ rw (due, again) (ground arith)
      ]
    ]
tick_in-budget ClientPhase.idle c now e = rw e (omega arith)
tick_in-budget (ClientPhase.joined _ _ _) c now e = rw e (omega arith)
tick_in-budget (ClientPhase.failed _) c now e = rw e (omega arith)

on_control_in-budget :
    (p : ClientPhase) (c : ClientHandshake) (m : Control)
    → c.phase ≡ p
    → sends (on_control_in p c m).1 + budget (on_control_in p c m).0.phase ≤ budget p
unfolding on_control_in sends budget
on_control_in-budget (ClientPhase.joining _ _) c (Control.welcome w) e = omega arith
on_control_in-budget (ClientPhase.joining _ _) c (Control.deny r) e = omega arith
on_control_in-budget (ClientPhase.joined _ _ _) c (Control.roster ps) e = rw e (omega arith)
on_control_in-budget _ c _ e = rw e (omega arith)

step-budget :
    (c : ClientHandshake) (e : Event)
    → sends (step c e).1 + budget (step c e).0.phase ≤ budget c.phase
unfolding step tick on_control
step-budget c (Event.clock now) = tick_in-budget c.phase c now refl
step-budget c (Event.received m) = on_control_in-budget c.phase c m refl

run-budget :
    (c : ClientHandshake) (es : List Event)
    → sends (run c es).1 + budget (run c es).0.phase ≤ budget c.phase
unfolding run sends
run-budget c [] = omega arith
run-budget c (e ∷ es) =
    let now = step-budget c e in
    let later = run-budget (step c e).0 es in
    let both = sends-append (step c e).1 (run (step c e).0 es).1 in omega arith

-- After `start`, whatever arrives and however often the clock ticks, the client sends no more than
-- ten packets, the one that `start` returns included.
pub sends-start :
    (c : ClientHandshake) (now : ℕ) (es : List Event)
    → sends (start c now).1 + sends (run (start c now).0 es).1 ≤ control_max_tries
unfolding start sends budget
sends-start c now es = let later = run-budget (start c now).0 es in omega arith

pub clocks : List ℕ → List Event
clocks [] = []
clocks (t ∷ ts) = Event.clock t ∷ clocks ts

tick_in-due :
    (c : ClientHandshake) (last tries now : ℕ)
    → last + control_retry_ms ≤ now
    → tries < control_max_tries
    → tick_in (ClientPhase.joining last tries) c now
      ≡ (record c { phase = ClientPhase.joining now (tries + 1) }, ClientAction.send c.hello ∷ [])
unfolding tick_in
tick_in-due c last tries now due few = ground arith

tick_in-over :
    (c : ClientHandshake) (last tries now : ℕ)
    → last + control_retry_ms ≤ now
    → control_max_tries ≤ tries
    → (tick_in (ClientPhase.joining last tries) c now).0.phase
      ≡ ClientPhase.failed JoinFailure.timeout
unfolding tick_in
tick_in-over c last tries now due over = ground arith

step-failed :
    (c : ClientHandshake) (why : JoinFailure) (e : Event)
    → c.phase ≡ ClientPhase.failed why
    → step c e ≡ (c, [])
unfolding step tick tick_in on_control on_control_in
step-failed c why (Event.clock now) e = ap (λ p. tick_in p c now) e
step-failed c why (Event.received m) e = ap (λ p. on_control_in p c m) e

-- A client that has failed keeps its state and asks for nothing, whatever arrives.
pub run-failed :
    (c : ClientHandshake) (why : JoinFailure) (es : List Event)
    → c.phase ≡ ClientPhase.failed why
    → run c es ≡ (c, [])
unfolding run
run-failed c why [] e = refl
run-failed c why (x ∷ es) e = rw (step-failed c why x e, run-failed c why es e) refl

give_up :
    (n : ℕ) (c : ClientHandshake) (last tries : ℕ) (ts : List ℕ)
    → c.phase ≡ ClientPhase.joining last tries
    → Spaced last ts
    → tries + n ≡ control_max_tries
    → n < length ts
    → (run c (clocks ts)).0.phase ≡ ClientPhase.failed JoinFailure.timeout
unfolding run step tick clocks Spaced
give_up n c last tries [] e spaced total long = ground arith
give_up zero c last tries (t ∷ ts) e (due, spaced) total long =
    let over =
      ap (λ p. (tick_in p c t).0.phase) e ∙ tick_in-over c last tries t due (omega arith) in
    ap (λ r. r.0.phase) (run-failed (tick_in c.phase c t).0 JoinFailure.timeout (clocks ts) over)
    ∙ over
give_up (suc n) c last tries (t ∷ ts) e (due, spaced) total long =
    let again = ap (λ p. tick_in p c t) e ∙ tick_in-due c last tries t due (omega arith) in
    ap (λ r. (run r.0 (clocks ts)).0.phase) again
    ∙ give_up n (record c { phase = ClientPhase.joining t (tries + 1) }) t (tries + 1) ts refl
        spaced (omega arith) (omega arith)

-- A client that is started and then hears nothing, while the clock ticks at least ten times, each
-- at least one retry interval after the last, ends in the phase failed by timeout.
pub start-gives_up :
    (c : ClientHandshake) (now : ℕ) (ts : List ℕ)
    → Spaced now ts
    → control_max_tries ≤ length ts
    → (run (start c now).0 (clocks ts)).0.phase ≡ ClientPhase.failed JoinFailure.timeout
unfolding start
start-gives_up c now ts spaced long =
    give_up 9 (start c now).0 now 1 ts refl spaced (omega arith) (omega arith)

on_control_in-joined :
    (c : ClientHandshake) (m : Control) (id session : ℕ) (params : SessionParams)
    → ((on_control_in (ClientPhase.joined id session params) c m).0 ≡ c)
      × (sends (on_control_in (ClientPhase.joined id session params) c m).1 ≡ 0)
unfolding on_control_in sends
on_control_in-joined c (Control.roster ps) id session params = (refl, refl)
on_control_in-joined c m id session params = (refl, refl)

step-joined :
    (c : ClientHandshake) (id session : ℕ) (params : SessionParams) (e : Event)
    → c.phase ≡ ClientPhase.joined id session params
    → ((step c e).0 ≡ c) × (sends (step c e).1 ≡ 0)
unfolding step tick tick_in on_control sends
step-joined c id session params (Event.clock now) e =
    let same = ap (λ p. tick_in p c now) e in (ap (λ r. r.0) same, ap (λ r. sends r.1) same)
step-joined c id session params (Event.received m) e =
    let same = ap (λ p. on_control_in p c m) e in
    let (keeps, quiet) = on_control_in-joined c m id session params in
    (ap (λ r. r.0) same ∙ keeps, ap (λ r. sends r.1) same ∙ quiet)

-- A client that has joined keeps its state, whatever arrives, and sends nothing more.
pub run-joined :
    (c : ClientHandshake) (id session : ℕ) (params : SessionParams) (es : List Event)
    → c.phase ≡ ClientPhase.joined id session params
    → ((run c es).0 ≡ c) × (sends (run c es).1 ≡ 0)
unfolding run sends
run-joined c id session params [] e = (refl, refl)
run-joined c id session params (x ∷ es) e =
    let (keeps, quiet) = step-joined c id session params x e in
    let (keeps', quiet') =
      run-joined (step c x).0 id session params es (ap (λ c. c.phase) keeps ∙ e) in
    let both = sends-append (step c x).1 (run (step c x).0 es).1 in (keeps' ∙ keeps, omega arith)

-- The phases in which a handshake is over.
pub data IsSettled : ClientPhase → Type 0 where
  joined :
      (id session : ℕ) (params : SessionParams) → IsSettled (ClientPhase.joined id session params)
  failed : (why : JoinFailure) → IsSettled (ClientPhase.failed why)

-- A client that has joined or failed keeps its state, whatever arrives and however often the clock
-- ticks, and sends nothing more.
pub run-settled :
    (c : ClientHandshake) (p : ClientPhase) (es : List Event)
    → c.phase ≡ p
    → IsSettled p
    → ((run c es).0 ≡ c) × (sends (run c es).1 ≡ 0)
unfolding sends
run-settled c _ es e (joined id session params) = run-joined c id session params es e
run-settled c _ es e (failed why) =
    let same = run-failed c why es e in (ap (λ r. r.0) same, ap (λ r. sends r.1) same)
