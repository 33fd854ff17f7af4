-- ===== src/Operations/Stop/Background/Consistent.antt =====
-- The registry of the stops in flight agrees with the worker threads, and each change keeps it so.
use llauncher.Base.{
  Option, ◌==◌, Bool-cases, ==-eq, sym, refl, Bool-cases, nat_beq_iff, sym, ==-self, arith, inl,
  inr, if◌then◌else◌, ◌∙◌, ap, ℕ, ◌<◌, Bool, true, false, none, some, String, nat_eq, ◌≡◌,
}
use mathlib.Core.Option.{some-injective}
use llauncher.Base.Dict.{
  remove-some, lookup-remove, lookup-put, lookup-put_self, remove, put-cases, lookup,
}
use llauncher.Operations.Stop.Background.{
  register, is_alive, alive, Lockfile, reap, in_phase, spawn_worker, Phase, Worker, Registry,
}

-- A worker has not given up its registry entry.
abbrev pub holding : Phase → Bool
holding Phase.terminating = true
holding Phase.reaping = true
holding _ = false

pub record Consistent (r : Registry) : Type 0 where
  pub known :
      (thread : ℕ) (worker : Worker)
      → lookup thread r.workers ≡ some worker
      → thread < r.next_thread
  pub registered :
      (thread : ℕ) (worker : Worker)
      → lookup thread r.workers ≡ some worker
      → holding worker.phase ≡ true
      → lookup worker.port r.inflight ≡ some thread
  pub held :
      (port thread : ℕ)
      → lookup port r.inflight ≡ some thread
      → (worker : Worker) × (lookup thread r.workers ≡ some worker)
        × (worker.port ≡ port)
        × (holding worker.phase ≡ true)

spawn_worker-Consistent :
    (port : ℕ) (caller : String) (existing : Lockfile) (r : Registry)
    → lookup port r.inflight ≡ none
    → Consistent r
    → Consistent (spawn_worker port caller existing r)
unfolding spawn_worker
spawn_worker-Consistent port caller existing r free c =
    let made : Worker = record {
      port = port;
      existing = existing;
      caller = caller;
      phase = Phase.terminating;
    } in
    record {
      known = λ thread worker found.
          elim (put-cases r.next_thread thread made worker r.workers found) [
            | inl (same, _) ↦ omega (arith, same)
            | inr (_, at) ↦ omega (arith, c.known thread worker at)
          ];
      registered = λ thread worker found holds.
          elim (put-cases r.next_thread thread made worker r.workers found) [
            | inl (same, q) ↦
                ground
                  (arith, same, ap (λ w. w.port) q, lookup-put_self port r.next_thread r.inflight)
            | inr (_, at) ↦ ground (
              arith,
              free,
              c.registered thread worker at holds,
              lookup-put port worker.port r.next_thread r.inflight,
              nat_beq_iff port worker.port,
            )
          ];
      held = λ p thread found. elim (put-cases port p r.next_thread thread r.inflight found) [
        | inl (same, q) ↦
            (made, ground (arith, q, lookup-put_self r.next_thread made r.workers), same, refl)
        | inr (_, at) ↦
            let (worker, here, port_same, holds) = c.held p thread at in
            let old = c.known thread worker here in
            (
              worker,
              ground (arith, old, here, lookup-put r.next_thread thread made r.workers),
              port_same,
              holds,
            )
      ];
    }

-- A thread has one worker.
same_worker :
    (thread t : ℕ) (worker w : Worker) (r : Registry)
    → lookup thread r.workers ≡ some worker
    → lookup t r.workers ≡ some w
    → (thread == t) ≡ true
    → worker ≡ w
same_worker thread t worker w r found here b =
    some-injective worker w (sym found ∙ ap (λ k. lookup k r.workers) (==-eq thread t b) ∙ here)

pub in_phase-Consistent :
    (thread : ℕ) (worker : Worker) (phase : Phase) (r : Registry)
    → lookup thread r.workers ≡ some worker
    → (holding phase ≡ holding worker.phase)
    → Consistent r
    → Consistent (in_phase thread worker phase r)
in_phase-Consistent thread worker phase r found same c = record {
  known = λ t w at. elim (put-cases thread t (record worker { phase = phase }) w r.workers at) [
    | inl (q, _) ↦ omega (arith, q, c.known thread worker found)
    | inr (_, here) ↦ c.known t w here
  ];
  registered = λ t w at holds.
      elim (put-cases thread t (record worker { phase = phase }) w r.workers at) [
        | inl (q, made) ↦ ground (
          arith,
          q,
          ap (λ x. x.port) made,
          c.registered thread worker found (sym same ∙ ap (λ x. holding x.phase) made ∙ holds),
        )
        | inr (_, here) ↦ c.registered t w here holds
      ];
  held = λ p t at.
      let (w, here, port_same, holds) = c.held p t at in
      elim (Bool-cases (thread == t)) [
        | inl b ↦
            let q : worker ≡ w = same_worker thread t worker w r found here b in
            (
              record worker { phase = phase },
              ground (arith, b, lookup-put thread t (record worker { phase = phase }) r.workers),
              ap (λ x. x.port) q ∙ port_same,
              same ∙ ap (λ x. holding x.phase) q ∙ holds,
            )
        | inr b ↦ (
          w,
          ground (arith, b, here, lookup-put thread t (record worker { phase = phase }) r.workers),
          port_same,
          holds,
        )
      ];
}

reaped-Consistent :
    (thread : ℕ) (worker : Worker) (r : Registry)
    → lookup thread r.workers ≡ some worker
    → holding worker.phase ≡ true
    → Consistent r
    → Consistent (
        in_phase thread worker Phase.leaving
          (record r { inflight = remove worker.port r.inflight }))
reaped-Consistent thread worker r found holds c =
    let left : Worker = record worker { phase = Phase.leaving } in
    record {
      known = λ t w at. elim (put-cases thread t left w r.workers at) [
        | inl (q, _) ↦ omega (arith, q, c.known thread worker found)
        | inr (_, here) ↦ c.known t w here
      ];
      registered = λ t w at busy. elim (put-cases thread t left w r.workers at) [
        | inl (_, made) ↦ ground (arith, ap (λ x. holding x.phase) made, busy)
        | inr (apart, here) ↦ ground (
          arith,
          c.registered t w here busy,
          c.registered thread worker found holds,
          apart,
          nat_beq_iff worker.port w.port,
          lookup-remove worker.port w.port r.inflight,
          ap (λ p. lookup p r.inflight),
        )
      ];
      held = λ p t at.
          let (apart, before) = remove-some worker.port p t r.inflight at in
          let (w, here, port_same, busy) = c.held p t before in
          (
            w,
            elim (Bool-cases (thread == t)) [
              | inl b ↦
                  elim (apart (
                    ap (λ x. x.port) (same_worker thread t worker w r found here b)
                    ∙ port_same)) [ ]
              | inr b ↦ ground (arith, b, here, lookup-put thread t left r.workers)
            ],
            port_same,
            busy,
          );
    }

reap-own :
    (thread port : ℕ) (r : Registry)
    → lookup port r.inflight ≡ some thread
    → reap thread port r (lookup port r.inflight) ≡ record r { inflight = remove port r.inflight }
unfolding reap
reap-own thread port r mine =
    ap (reap thread port r) mine
    ∙ ap (λ b. if b then record r { inflight = remove port r.inflight } else r) (==-self thread)

pub reap-Consistent :
    (thread : ℕ) (worker : Worker) (r : Registry)
    → lookup thread r.workers ≡ some worker
    → holding worker.phase ≡ true
    → Consistent r
    → Consistent (
        in_phase thread worker Phase.leaving
          (reap thread worker.port r (lookup worker.port r.inflight)))
reap-Consistent thread worker r found holds c =
    rw (reap-own thread worker.port r (c.registered thread worker found holds))
      (reaped-Consistent thread worker r found holds c)

alive-holding : (phase : Phase) → holding phase ≡ true → alive phase ≡ true
unfolding alive
alive-holding Phase.terminating h = refl
alive-holding Phase.reaping h = refl
alive-holding Phase.leaving h = refl
alive-holding Phase.ended h = h

is_alive-true :
    (thread : ℕ) (worker : Worker) (r : Registry)
    → lookup thread r.workers ≡ some worker
    → holding worker.phase ≡ true
    → is_alive thread r ≡ true
unfolding is_alive
is_alive-true thread worker r found holds = rw (is_alive, found) (alive-holding worker.phase holds)

pub register-Consistent :
    (port : ℕ) (caller : String) (existing : Lockfile) (r : Registry) (pending : Option ℕ)
    → lookup port r.inflight ≡ pending
    → Consistent r
    → Consistent (register port caller existing r pending)
unfolding register
register-Consistent port caller existing r none free c =
    spawn_worker-Consistent port caller existing r free c
register-Consistent port caller existing r (some thread) found c =
    let (worker, here, _, holds) = c.held port thread found in
    let busy : is_alive thread r ≡ true = is_alive-true thread worker r here holds in rw busy c
