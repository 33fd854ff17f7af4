-- ===== src/Operations/Stop/Background/Inflight.antt =====
-- The registry of the stops in flight, over any interleaving of requests and worker threads.
use llauncher.Base.{
  ◌↔◌, Option, sym, refl, sym, arith, ◌∙◌, ap, ℕ, true, none, some, List, [], ◌∷◌, String, nat_eq,
  ◌≡◌,
}
use mathlib.Core.Option.{some-injective}
use llauncher.Base.Dict.{lookup}
use llauncher.Host.{
  attempt, ◌>>=◌, continue, pure, raise, ◌>>=◌, attempt, Env, World, Result, ok, err,
}
use llauncher.Operations.Stop.{StopResult, Check, early, live, reconcile_for_stop, terminate}
use llauncher.Operations.Stop.Background.{
  accept, Check, accept, in_phase, Phase, Worker, Registry, stop_in_background, advance,
}
use llauncher.Operations.Stop.Background.Consistent.{
  Consistent, in_phase-Consistent, reap-Consistent, register-Consistent, holding,
}

-- A step: a request, or the next step of a thread, each in the world that it finds.
pub data Event : Type 0 where
  asked : ℕ → String → World → Event
  moved : ℕ → World → Event

abbrev pub registry_after : Registry → Result Registry → Registry
registry_after r (ok r') = r'
registry_after r (err x) = r

abbrev pub registry_asked : {A : Type 0} → Registry → Result (A × Registry) → Registry
registry_asked r (ok (_, r')) = r'
registry_asked r (err x) = r

module _ (e : Env) where
  abbrev pub move : ℕ → World → Registry → Option Worker → Registry
  move thread w r none = r
  move thread w r (some worker) = registry_after r (advance thread worker worker.phase r e w).0

  abbrev pub take : Event → Registry → Registry
  take (Event.asked port caller w) r = registry_asked r (stop_in_background port caller r e w).0
  take (Event.moved thread w) r = move thread w r (lookup thread r.workers)

  abbrev pub after_events : List Event → Registry → Registry
  after_events [] r = r
  after_events (event ∷ events) r = after_events events (take event r)

abbrev pub no_stops : Registry
no_stops = record { inflight = []; workers = []; next_thread = 0 }

accept-Consistent :
    (port : ℕ) (caller : String) (r : Registry) (found : Check)
    → Consistent r
    → Consistent (accept port caller r found).1
unfolding accept
accept-Consistent port caller r (early result) c = c
accept-Consistent port caller r (live existing) c =
    register-Consistent port caller existing r (lookup port r.inflight) refl c

continue-Consistent :
    (e : Env) (port : ℕ) (caller : String) (r : Registry) (w : World) (q : Result Check)
    → Consistent r
    → Consistent
        (registry_asked r (continue (λ found. pure (accept port caller r found)) raise q e w).0)
continue-Consistent e port caller r w (ok found) c = accept-Consistent port caller r found c
continue-Consistent e port caller r w (err x) c = c

terminated-Consistent :
    (e : Env) (r r' : Registry) (w : World) (q : Result StopResult)
    → Consistent r'
    → Consistent (registry_after r (continue (λ _. pure r') (λ _. pure r') q e w).0)
terminated-Consistent e r r' w (ok found) c = c
terminated-Consistent e r r' w (err x) c = c

registry_asked-Consistent :
    (e : Env) (port : ℕ) (caller : String) (r : Registry) (w : World)
    → Consistent r
    → Consistent (registry_asked r (stop_in_background port caller r e w).0)
unfolding stop_in_background ◌>>=◌ attempt
registry_asked-Consistent e port caller r w c =
    let (q, w') = reconcile_for_stop port caller e w in continue-Consistent e port caller r w' q c

advance-Consistent :
    (e : Env) (thread : ℕ) (worker : Worker) (phase : Phase) (r : Registry) (w : World)
    → lookup thread r.workers ≡ some worker
    → worker.phase ≡ phase
    → Consistent r
    → Consistent (registry_after r (advance thread worker phase r e w).0)
unfolding advance attempt
advance-Consistent e thread worker Phase.terminating r w found now c =
    let (q, w') = terminate worker.port worker.caller worker.existing e w in
    terminated-Consistent e r (in_phase thread worker Phase.reaping r) w' q
      (in_phase-Consistent thread worker Phase.reaping r found (sym (ap holding now)) c)
advance-Consistent e thread worker Phase.reaping r w found now c =
    reap-Consistent thread worker r found (ap holding now) c
advance-Consistent e thread worker Phase.leaving r w found now c =
    in_phase-Consistent thread worker Phase.ended r found (sym (ap holding now)) c
advance-Consistent e thread worker Phase.ended r w found now c = c

moved-Consistent :
    (e : Env) (thread : ℕ) (w : World) (r : Registry) (o : Option Worker)
    → lookup thread r.workers ≡ o
    → Consistent r
    → Consistent (move e thread w r o)
moved-Consistent e thread w r none found c = c
moved-Consistent e thread w r (some worker) found c =
    advance-Consistent e thread worker worker.phase r w found refl c

pub after_events-Consistent :
    (e : Env) (events : List Event) (r : Registry)
    → Consistent r
    → Consistent (after_events e events r)
after_events-Consistent e [] r c = c
after_events-Consistent e (Event.asked port caller w ∷ events) r c =
    after_events-Consistent e events (take e (Event.asked port caller w) r)
      (registry_asked-Consistent e port caller r w c)
after_events-Consistent e (Event.moved thread w ∷ events) r c =
    after_events-Consistent e events (take e (Event.moved thread w) r)
      (moved-Consistent e thread w r (lookup thread r.workers) refl c)

pub no_stops-Consistent : Consistent no_stops
unfolding lookup
no_stops-Consistent = record {
  known = λ thread worker h. ground (arith, h);
  registered = λ thread worker h. ground (arith, h);
  held = λ port thread h. ground (arith, h);
}

-- Whatever requests came and however the worker threads and other processes ran in between, two
-- threads that terminate the server of one port, or have yet to clear its registry entry, are
-- the same thread.
pub after_events-exclusive :
    (e : Env) (events : List Event) (s t : ℕ) (v w : Worker)
    → lookup s (after_events e events no_stops).workers ≡ some v
    → lookup t (after_events e events no_stops).workers ≡ some w
    → holding v.phase ≡ true
    → holding w.phase ≡ true
    → v.port ≡ w.port
    → s ≡ t
after_events-exclusive e events s t v w at_s at_t busy_s busy_t port_same =
    let c = after_events-Consistent e events no_stops no_stops-Consistent in
    some-injective s t (
      sym (c.registered s v at_s busy_s)
      ∙ ap (λ port. lookup port (after_events e events no_stops).inflight) port_same
      ∙ c.registered t w at_t busy_t)

-- After any such steps, a port has a registry entry exactly when a thread of that port is alive
-- that has not cleared it: no entry outlives its thread, and none is cleared by another.
pub after_events-registered :
    (e : Env) (events : List Event) (port thread : ℕ)
    → (lookup port (after_events e events no_stops).inflight ≡ some thread) ↔ (
        (worker : Worker) × (lookup thread (after_events e events no_stops).workers ≡ some worker)
        × (worker.port ≡ port)
        × (holding worker.phase ≡ true))
after_events-registered e events port thread =
    let c = after_events-Consistent e events no_stops no_stops-Consistent in
    (
      c.held port thread,
      λ h.
          let (worker, at, port_same, busy) = h in
          ap (λ p. lookup p (after_events e events no_stops).inflight) (sym port_same)
          ∙ c.registered thread worker at busy,
    )
