-- ===== src/Agent/Server/Shutdown/Reaped.antt =====
-- What the shutdown of the agent leaves of the servers' claims.
use llauncher.Base.{
  Option, ℕ, suc, Bool, Bool-cases, true, false, none, List, [], ◌∷◌, map, String, ◌≡◌, refl, ap,
  ◌∙◌, inl, inr, nat_eq, ◌==◌, if◌then◌else◌, all,
}
use llauncher.Base.Dict.{lookup, remove, lookup-remove}
use llauncher.Records.{Lockfile}
use llauncher.Host.{World, Env, Exn, Exec, Result, ok, err, meet, is_os_error, attempt, continue}
use llauncher.Host.Hoare.{
  Hoare, Post, Hoare-pure, Hoare-raise, Hoare-if, Hoare-bind, Hoare-attempt, Hoare-weaken,
}
use llauncher.Host.Framed.{Framed}
use llauncher.Host.Safely.{Safely}
use llauncher.Core.Files.{parsed}
use llauncher.Core.Lockfile.{remove_lockfile, list_lockfiles, listed, listing}
use llauncher.Core.Lockfile.Claimed.{Claimed, Claimed-Framed, owner, Settled, Anyway}
use llauncher.Core.Process.Stop.Denied.{IsDenied}
use llauncher.Operations.Stop.{stop}
use llauncher.Operations.Start.Claims.{both}
use llauncher.Operations.Stop.Claims.{stop-left}
use llauncher.Operations.Stop.Denied.{stop-Denied}
use llauncher.Operations.Stop.Background.{Registry, join_inflight_stop}
use llauncher.Agent.Server.Shutdown.{
  attempt, Reaping, pass_os_error, stop_entry, reap_entry, reap, shutdown, shutdown_caller,
}

-- A successful stop has left its port without a claim.
abbrev pub Freed : Bool → ℕ → World → Type 0
Freed true port = Claimed port none
Freed false port = Anyway

abbrev pub IsFreed : ℕ → Reaping → World → Type 0
IsFreed port (Reaping.stopped r) = Freed r.success port
IsFreed port _ = Anyway

abbrev pub AllFreed : List (ℕ × Reaping) → World → Type 0
AllFreed [] w = Unit {0}
AllFreed ((port, one) ∷ rest) w = IsFreed port one w × AllFreed rest w

-- Both of two triples of an action.
Hoare-both :
    {A : Type 0} {e : Env} {P P' : World → Type 0} {Q Q' : A → World → Type 0}
    {R R' : Exn → World → Type 0} {m : Exec A}
    → Hoare e P m Q R
    → Hoare e P' m Q' R'
    → Hoare e (λ w. P w × P' w) m (λ a w. Q a w × Q' a w) (λ x w. R x w × R' x w)
Hoare-both {A} {e} {P} {P'} {Q} {Q'} {R} {R'} {m} h h' = record {
  at = λ w (p, p'). go (m e w) (h.at w p) (h'.at w p');
}
  where
    go :
        (o : Result A × World)
        → Post Q R o
        → Post Q' R' o
        → Post (λ a w. Q a w × Q' a w) (λ x w. R x w × R' x w) o
    go (ok a, w) q q' = (q, q')
    go (err x, w) r r' = (r, r')

-- What no stop of any port undoes.
record Steady (e : Env) (P : World → Type 0) : Type 0 where
  framed : Framed e P
  removes : (port : ℕ) → Safely e P (remove_lockfile port)

unclaimed-removed :
    (port q : ℕ) (w : World)
    → Claimed port none w
    → Claimed port none (record w { lock_dir = remove q w.lock_dir })
unclaimed-removed port q w h = elim (Bool-cases (q == port)) [
  | inl b ↦
      ap (λ o. owner (parsed o)) (lookup-remove q port w.lock_dir)
      ∙ ap (λ c. owner (parsed (if c then none else lookup port w.lock_dir))) b
  | inr b ↦
      ap (λ o. owner (parsed o)) (lookup-remove q port w.lock_dir)
      ∙ ap (λ c. owner (parsed (if c then none else lookup port w.lock_dir))) b
      ∙ h
]

module _ {e : Env} where
  Anyway-Steady : Steady e Anyway
  unfolding remove_lockfile
  Anyway-Steady = record {
    framed = record {
      stable = record { meets = λ w u. tt };
      audit_free = λ w l u. tt;
      machine_free = λ w m u. tt;
    };
    removes = λ port. record { at = λ w u. tt };
  }

  Claimed-Steady : (port : ℕ) → Settled e port → Steady e (Claimed port none)
  unfolding remove_lockfile
  Claimed-Steady port s = record {
    framed = Claimed-Framed port s none;
    removes = λ q. record { at = λ w h. unclaimed-removed port q (meet e w) ((s none).meets w h) };
  }

  Freed-Steady : (b : Bool) (port : ℕ) → Settled e port → Steady e (Freed b port)
  Freed-Steady true port s = Claimed-Steady port s
  Freed-Steady false port s = Anyway-Steady

  IsFreed-Steady : (port : ℕ) (one : Reaping) → Settled e port → Steady e (IsFreed port one)
  IsFreed-Steady port (Reaping.stopped r) s = Freed-Steady r.success port s
  IsFreed-Steady port Reaping.coalesced s = Anyway-Steady
  IsFreed-Steady port Reaping.failed s = Anyway-Steady

abbrev Denied : (World → Type 0) → Exn → World → Type 0
Denied P x w = IsDenied x × P w

pass-Denied :
    {A : Type 0} {e : Env} {P : World → Type 0} {Q : A → World → Type 0} (a : A) (x : Exn)
    → ((w : World) → P w → Q a w)
    → Hoare e (Denied P x) (pass_os_error a x) Q (Denied P)
pass-Denied a x h =
    Hoare-if (is_os_error x) _ _ (λ _. Hoare-pure a (λ w d. h w d.1))
      (λ _. Hoare-raise x (λ w d. d))

module _ {e : Env} {P : World → Type 0} (st : Steady e P) (before after : ℕ → Registry) where
  stop_entry-kept : (port : ℕ) → Hoare e P (stop_entry port) (λ _. P) (Denied P)
  unfolding stop_entry
  stop_entry-kept port =
      Hoare-attempt _ _ _ (stop-Denied st.framed port (st.removes port) shutdown_caller)
        (λ r. Hoare-pure _ (λ w p. p)) (λ x. pass-Denied Reaping.failed x (λ w p. p))

  reap-kept :
      (i : ℕ) (entries : List Lockfile)
      → Hoare e P (reap before after i entries) (λ _. P) (Denied P)
  unfolding reap reap_entry
  reap-kept i [] = Hoare-pure _ (λ w p. p)
  reap-kept i (entry ∷ entries) =
      Hoare-bind _ _
        (Hoare-if (join_inflight_stop entry.port (before i) (after i)) _ _
          (λ _. Hoare-pure _ (λ w p. p)) (λ _. stop_entry-kept entry.port))
        λ one. Hoare-bind _ _ (reap-kept (suc i) entries) λ rest. Hoare-pure _ (λ w p. p)

left-Freed :
    (b : Bool) (port : ℕ) (o : Option (String × ℕ)) (w : World)
    → Claimed port (if b then none else o) w
    → Freed b port w
left-Freed true port o w h = h
left-Freed false port o w h = tt

abbrev pub Reaps : List Lockfile → List (ℕ × Reaping) → World → Type 0
Reaps entries rs w = (map (λ r. r.0) rs ≡ map (λ entry. entry.port) entries) × AllFreed rs w

module _ {e : Env} (settled : (port : ℕ) → Settled e port) (before after : ℕ → Registry) where
  stop-Freed :
      (port : ℕ)
      → Hoare e Anyway (stop port shutdown_caller) (λ r. Freed r.success port) (Denied Anyway)
  stop-Freed port =
      Hoare-weaken
        (Hoare-both (stop-left port shutdown_caller (settled port))
          (stop-Denied Anyway-Steady.framed port (Anyway-Steady.removes port) shutdown_caller))
        (λ w u. (tt, tt)) (λ r w h. left-Freed r.success port (both r.model r.pid) w h.0)
        (λ x w h. h.1)

  reap_entry-IsFreed :
      (i port : ℕ) → Hoare e Anyway (reap_entry before after i port) (IsFreed port) (Denied Anyway)
  unfolding reap_entry stop_entry
  reap_entry-IsFreed i port =
      Hoare-if (join_inflight_stop port (before i) (after i)) _ _ (λ _. Hoare-pure _ (λ w u. tt))
        (λ _.
          Hoare-attempt _ _ _ (stop-Freed port) (λ r. Hoare-pure _ (λ w h. h))
            (λ x. pass-Denied Reaping.failed x (λ w u. tt)))

  reap-freed :
      (i : ℕ) (entries : List Lockfile)
      → Hoare e Anyway (reap before after i entries) (Reaps entries) (Denied Anyway)
  unfolding reap
  reap-freed i [] = Hoare-pure _ (λ w u. (refl, tt))
  reap-freed i (entry ∷ entries) = Hoare-bind _ _ (reap_entry-IsFreed i entry.port) λ one.
      Hoare-bind _ _
        (Hoare-weaken
          (Hoare-both
            (reap-kept (IsFreed-Steady entry.port one (settled entry.port)) before after (suc i)
              entries)
            (reap-freed (suc i) entries))
          (λ w f. (f, tt)) (λ rest w h. h) (λ x w h. h.1))
        λ rest. Hoare-pure _ (λ w h. (ap (λ l. entry.port ∷ l) h.1.0, (h.0, h.1.1)))

abbrev pub Stopped : Exn → World → Type 0
Stopped x w = x ≡ Exn.access_denied

-- What a shutdown ends in, by the list of the lockfiles and the world at that point.
abbrev pub Shut : Result (List Lockfile) → World → List (ℕ × Reaping) → World → Type 0
Shut (ok entries) v rs w = Reaps entries rs w
Shut (err x) v rs w = (rs ≡ []) × (w ≡ v)

-- Whatever stops are in flight, and as long as the other processes do not change who claims a port:
-- if every lockfile can be opened, the shutdown of the agent handles the port of each that it has
-- listed, once and in their order, and after it no port that it has stopped with success is claimed;
-- or it is cut short by `AccessDenied`. If one of them cannot be opened, the shutdown does nothing
-- at all. No other exception than `AccessDenied` leaves it.
pub shutdown-frees :
    (before after : ℕ → Registry) (e : Env)
    → ((port : ℕ) → Settled e port)
    → (w : World)
    → Post (Shut (listing e (meet e w)) (meet e w)) Stopped (shutdown before after e w)
unfolding shutdown list_lockfiles attempt
shutdown-frees before after e settled w =
    go (all (λ f. e.opens (meet e w).tick f.0) (meet e w).lock_dir)
  where
    go :
        (b : Bool)
        → Post (Shut (if b then ok (listed (meet e w)) else err Exn.os_error) (meet e w)) Stopped (
            continue
              (reap before after 0)
              (pass_os_error [])
              (if b then ok (listed (meet e w)) else err Exn.os_error)
              e
              (meet e w))
    go true =
        (Hoare-weaken {R' = Stopped} (reap-freed settled before after 0 (listed (meet e w)))
            (λ w u. u) (λ rs w h. h) (λ x w h. h.0)).at
          (meet e w) tt
    go false = (refl, refl)
