-- ===== src/Operations/Stop/Background/Finished.antt =====
-- A stop in flight comes to its end once its worker thread has run.
use mathlib.Core.Option.{some-injective}
use mathlib.Core.Path.{subst}
use llauncher.Base.{
  ℕ, ◌-◌, ◌+◌, ◌≤◌, ◌≡◌, ◌≢◌, refl, sym, ap, ◌∙◌, true, false, Option, none, some, List, [], ◌∷◌,
  String, nat_eq, ◌==◌, ==-eq, if◌then◌else◌, inl, inr, Bool-cases, arith,
}
use llauncher.Base.Dict.{lookup, lookup-put}
use llauncher.Records.{Lockfile}
use llauncher.Host.{Env, World, Result, ok, err, continue, pure, raise, attempt, ◌>>=◌}
use llauncher.Operations.Stop.{StopResult, Check, early, live, reconcile_for_stop, terminate}
use llauncher.Operations.Stop.Background.{
  Phase, Worker, Registry, register, is_alive, spawn_worker, accept, stop_in_background, in_phase,
  reap, advance,
}
use llauncher.Operations.Stop.Background.Consistent.{Consistent, holding}
use llauncher.Operations.Stop.Background.Inflight.{
  Event, registry_after, registry_asked, move, take, after_events, no_stops,
  after_events-Consistent, no_stops-Consistent,
}

-- How many steps of its own a thread is away from having cleared its registry entry.
abbrev rank : Phase → ℕ
rank Phase.terminating = 2
rank Phase.reaping = 1
rank Phase.leaving = 0
rank Phase.ended = 0

abbrev hit : ℕ → ℕ → ℕ
hit thread t = if t == thread then 1 else 0

abbrev hits : ℕ → Event → ℕ
hits thread (Event.asked port caller w) = 0
hits thread (Event.moved t w) = hit thread t

-- How often a thread runs in a sequence of steps.
abbrev pub runs : ℕ → List Event → ℕ
runs thread [] = 0
runs thread (event ∷ events) = hits thread event + runs thread events

module _ (thread : ℕ) where
  -- The thread is there, and has at most so many steps left.
  abbrev Left : ℕ → Registry → Type 0
  Left n r = (worker : Worker) × (lookup thread r.workers ≡ some worker) × (rank worker.phase ≤ n)

  register-Left :
      (n port : ℕ) (caller : String) (existing : Lockfile) (r : Registry)
      → Consistent r
      → Left n r
      → Left n (spawn_worker port caller existing r)
  unfolding spawn_worker
  register-Left n port caller existing r c left =
      let (worker, found, few) = left in
      let known = c.known thread worker found in
      let made : Worker = record {
        port = port;
        existing = existing;
        caller = caller;
        phase = Phase.terminating;
      } in
      let apart : (r.next_thread == thread) ≡ false = ground (arith, known) in
      (
        worker,
        lookup-put r.next_thread thread made r.workers
            ∙ ap (λ b. if b then some made else lookup thread r.workers) apart
            ∙ found,
        few,
      )

  accept-Left :
      (n port : ℕ) (caller : String) (existing : Lockfile) (r : Registry) (o : Option ℕ)
      → Consistent r
      → Left n r
      → Left n (register port caller existing r o)
  unfolding register
  accept-Left n port caller existing r none c left = register-Left n port caller existing r c left
  accept-Left n port caller existing r (some pending) c left =
      elim (Bool-cases (is_alive pending r)) [
        | inl b ↦ rw b left
        | inr b ↦ rw b (register-Left n port caller existing r c left)
      ]

  checked-Left :
      (n port : ℕ) (caller : String) (r : Registry) (found : Check)
      → Consistent r
      → Left n r
      → Left n (accept port caller r found).1
  unfolding accept
  checked-Left n port caller r (early result) c left = left
  checked-Left n port caller r (live existing) c left =
      accept-Left n port caller existing r (lookup port r.inflight) c left

  continue-Left :
      (e : Env) (n port : ℕ) (caller : String) (r : Registry) (w : World) (q : Result Check)
      → Consistent r
      → Left n r
      → Left n
          (registry_asked r (continue (λ found. pure (accept port caller r found)) raise q e w).0)
  continue-Left e n port caller r w (ok found) c left = checked-Left n port caller r found c left
  continue-Left e n port caller r w (err x) c left = left

  asked-Left :
      (e : Env) (n port : ℕ) (caller : String) (r : Registry) (w : World)
      → Consistent r
      → Left n r
      → Left n (registry_asked r (stop_in_background port caller r e w).0)
  unfolding stop_in_background ◌>>=◌ attempt
  asked-Left e n port caller r w c left =
      let (q, w') = reconcile_for_stop port caller e w in
      continue-Left e n port caller r w' q c left

  -- A step of a thread that leaves it fewer steps.
  in_phase-Left :
      (n t : ℕ) (worker : Worker) (phase : Phase) (r : Registry)
      → lookup t r.workers ≡ some worker
      → rank phase ≤ rank worker.phase - 1
      → Left n r
      → Left (n - hit thread t) (in_phase t worker phase r)
  in_phase-Left n t worker phase r found fewer (mine, at, few) = elim (Bool-cases (t == thread)) [
    | inl b ↦ rw b (
        let same : mine ≡ worker =
          some-injective mine worker
            (sym at ∙ ap (λ s. lookup s r.workers) (sym (==-eq t thread b)) ∙ found) in
        let count : rank worker.phase ≤ n = subst (λ m. rank m.phase ≤ n) same few in
        (
          record worker { phase = phase },
          lookup-put t thread (record worker { phase = phase }) r.workers
              ∙ ap
                  (λ x.
                    if x then some (record worker { phase = phase }) else lookup thread r.workers)
                  b,
          omega (arith, fewer, count),
        ))
    | inr b ↦ rw b (
      mine,
      lookup-put t thread (record worker { phase = phase }) r.workers
          ∙ ap (λ x. if x then some (record worker { phase = phase }) else lookup thread r.workers)
              b
          ∙ at,
      omega (arith, few),
    )
  ]

  -- A step of a thread that has none left.
  same-Left :
      (n t : ℕ) (worker : Worker) (r : Registry)
      → lookup t r.workers ≡ some worker
      → rank worker.phase ≡ 0
      → Left n r
      → Left (n - hit thread t) r
  same-Left n t worker r found over (mine, at, few) = elim (Bool-cases (t == thread)) [
    | inl b ↦ rw b (
        let same : worker ≡ mine =
          some-injective worker mine
            (sym found ∙ ap (λ s. lookup s r.workers) (==-eq t thread b) ∙ at) in
        let count : rank mine.phase ≡ 0 = subst (λ m. rank m.phase ≡ 0) same over in
        (mine, at, omega (arith, count)))
    | inr b ↦ rw b (mine, at, omega (arith, few))
  ]

  reap-workers : (t port : ℕ) (r : Registry) (o : Option ℕ) → (reap t port r o).workers ≡ r.workers
  unfolding reap
  reap-workers t port r none = refl
  reap-workers t port r (some registered) = elim (Bool-cases (registered == t)) [
    | inl b ↦ rw b refl
    | inr b ↦ rw b refl
  ]

  reap-Left :
      (n t : ℕ) (worker : Worker) (r : Registry)
      → lookup t r.workers ≡ some worker
      → Left n r
      → Left
          (n - hit thread t)
          (in_phase t worker Phase.leaving (reap t worker.port r (lookup worker.port r.inflight)))
  reap-Left n t worker r found (mine, at, few) =
      let reaped = reap t worker.port r (lookup worker.port r.inflight) in
      let same = reap-workers t worker.port r (lookup worker.port r.inflight) in
      in_phase-Left n t worker Phase.leaving reaped (ap (lookup t) same ∙ found) (omega arith)
        (mine, ap (lookup thread) same ∙ at, few)

  terminated-Left :
      (e : Env) (m : ℕ) (r r' : Registry) (w : World) (q : Result StopResult)
      → Left m r'
      → Left m (registry_after r (continue (λ _. pure r') (λ _. pure r') q e w).0)
  terminated-Left e m r r' w (ok found) left = left
  terminated-Left e m r r' w (err x) left = left

  advance-Left :
      (e : Env) (n t : ℕ) (worker : Worker) (phase : Phase) (r : Registry) (w : World)
      → lookup t r.workers ≡ some worker
      → worker.phase ≡ phase
      → Left n r
      → Left (n - hit thread t) (registry_after r (advance t worker phase r e w).0)
  unfolding advance attempt
  advance-Left e n t worker Phase.terminating r w found now left =
      let (q, w') = terminate worker.port worker.caller worker.existing e w in
      let busy = ap rank now in
      terminated-Left e (n - hit thread t) r (in_phase t worker Phase.reaping r) w' q
        (in_phase-Left n t worker Phase.reaping r found (omega (arith, busy)) left)
  advance-Left e n t worker Phase.reaping r w found now left = reap-Left n t worker r found left
  advance-Left e n t worker Phase.leaving r w found now left =
      in_phase-Left n t worker Phase.ended r found (omega arith) left
  advance-Left e n t worker Phase.ended r w found now left =
      same-Left n t worker r found (ap rank now) left

  none-Left :
      (n t : ℕ) (r : Registry) → lookup t r.workers ≡ none → Left n r → Left (n - hit thread t) r
  none-Left n t r gone (mine, at, few) = elim (Bool-cases (t == thread)) [
    | inl b ↦
        let absurd : none ≡ some mine =
          sym gone ∙ ap (λ s. lookup s r.workers) (==-eq t thread b) ∙ at in
        ground (arith, absurd)
    | inr b ↦ rw b (mine, at, omega (arith, few))
  ]

  move-Left :
      (e : Env) (n t : ℕ) (w : World) (r : Registry) (o : Option Worker)
      → lookup t r.workers ≡ o
      → Left n r
      → Left (n - hit thread t) (move e t w r o)
  move-Left e n t w r none found left = none-Left n t r found left
  move-Left e n t w r (some worker) found left =
      advance-Left e n t worker worker.phase r w found refl left

  take-Left :
      (e : Env) (n : ℕ) (event : Event) (r : Registry)
      → Consistent r
      → Left n r
      → Left (n - hits thread event) (take e event r)
  take-Left e n (Event.asked port caller w) r c left =
      let (worker, at, few) = asked-Left e n port caller r w c left in
      (worker, at, omega (arith, few))
  take-Left e n (Event.moved t w) r c left = move-Left e n t w r (lookup t r.workers) refl left

  after_events-Left :
      (e : Env) (n : ℕ) (events : List Event) (r : Registry)
      → Consistent r
      → Left n r
      → Left (n - runs thread events) (after_events e events r)
  after_events-Left e n [] r c (worker, at, few) = (worker, at, omega (arith, few))
  after_events-Left e n (event ∷ events) r c left =
      let stepped = take-Left e n event r c left in
      let (worker, at, few) =
        after_events-Left e (n - hits thread event) events (take e event r)
          (after_events-Consistent e (event ∷ []) r c) stepped in
      (worker, at, omega (arith, few))

holding-rank : (phase : Phase) → rank phase ≤ 0 → holding phase ≡ false
holding-rank Phase.terminating h = ground (arith, h)
holding-rank Phase.reaping h = ground (arith, h)
holding-rank Phase.leaving h = refl
holding-rank Phase.ended h = refl

rank-bounded : (phase : Phase) → rank phase ≤ 2
rank-bounded Phase.terminating = omega arith
rank-bounded Phase.reaping = omega arith
rank-bounded Phase.leaving = omega arith
rank-bounded Phase.ended = omega arith

-- Whatever led to a thread being registered for a port, and whatever requests come, other threads do
-- and the machine answers after that: once the thread has made two steps of its own, the port is not
-- held by it any more, even if `_terminate` raised. So no stop blocks its port for ever.
pub after_events-finished :
    (e : Env) (events later : List Event) (port thread : ℕ)
    → lookup port (after_events e events no_stops).inflight ≡ some thread
    → 2 ≤ runs thread later
    → lookup port (after_events e later (after_events e events no_stops)).inflight ≢ some thread
after_events-finished e events later port thread held enough still =
    let r = after_events e events no_stops in
    let c = after_events-Consistent e events no_stops no_stops-Consistent in
    let (worker, at, port_same, busy) = c.held port thread held in
    let (w, at_w, few) =
      after_events-Left thread e 2 later r c (worker, at, rank-bounded worker.phase) in
    let d = after_events-Consistent e later r c in
    let (v, at_v, v_same, v_busy) = d.held port thread still in
    let same : v ≡ w = some-injective v w (sym at_v ∙ at_w) in
    let none_left : rank w.phase ≤ 0 = omega (arith, few, enough) in
    let idle = holding-rank w.phase none_left in
    let busy_w : holding w.phase ≡ true = subst (λ x. holding x.phase ≡ true) same v_busy in
    ground (arith, idle, busy_w)
