-- ===== src/Core/Process/Wait/Ready.antt =====
-- What the outcome of `wait_for_server_ready` means.
use llauncher.Base.{
  ◌≤◌, refl, ◌∷◌, ℕ, zero, suc, ◌+◌, ◌-◌, ◌≡◌, Bool, true, not, ltb, Option, none, some, List,
  String,
}
use llauncher.Base.Text.{Text}
use llauncher.Host.{World, Env, Exec, ok}
use llauncher.Host.Hoare.{Post-ok, Returns, Hoare-if}
use llauncher.Host.Frame.{Returns-pure, Returns-raise, Returns-if, Returns-bind, Returns-then}
use llauncher.Host.Framed.{Framed}
use llauncher.Host.Safely.{Safely-value}
use llauncher.Core.Process.Wait.{
  wait_loop, wait_for_server_ready, give_up, is_ready, seen, looks_ready,
}
use llauncher.Core.Process.Wait.Returning.{Forward, Looks, Safely-wait}

abbrev MeansReady : Bool × List Text → Type 0
MeansReady o = o.0 ≡ true → looks_ready o.1 ≡ true

module _ {e : Env} (port : ℕ) (timeout : ℕ) (cancel_check : Option (Exec Bool))
    (model_name : String) (pid : ℕ) where
  give_up-means :
      (l : List Text) → Returns e MeansReady (give_up port timeout cancel_check model_name pid l)
  unfolding give_up
  give_up-means l = Returns-bind _ _ (λ logs. Returns-pure _ (λ h. cc))

  loop-means :
      (fuel start : ℕ) (l : List Text)
      → Returns e MeansReady (wait_loop port timeout cancel_check model_name pid fuel start l)
  unfolding wait_loop
  loop-means zero start l = Returns-raise _
  loop-means (suc fuel) start l = Returns-bind _ _ λ now.
      Returns-if (not (ltb (now - start) timeout)) _ _ (give_up-means l) (
        Returns-bind _ _ λ stop. Returns-if stop _ _ (give_up-means l) (
          Returns-bind _ _ λ over. Returns-if over _ _ (give_up-means l) (
            Returns-bind _ _ λ ready. Returns-bind _ _ λ logs.
              Hoare-if (is_ready port timeout cancel_check model_name pid logs) _ _
                (λ b. Returns-pure _ (λ _. ready-seen logs b))
                (λ b. Returns-then _ _ (loop-means fuel start _)))))
    where
      ready-seen :
          (logs : Option (List Text))
          → is_ready port timeout cancel_check model_name pid logs ≡ true
          → looks_ready (seen port timeout cancel_check model_name pid logs List.[]) ≡ true
      ready-seen none b = cc
      ready-seen (some List.[]) b = b
      ready-seen (some (l ∷ ls)) b = b

-- `wait_for_server_ready` reports a ready server only with a log that has one of the four phrases
-- of a server that is up, in upper or lower case.
pub wait_for_server_ready-MeansReady :
    (port : ℕ) (timeout : ℕ) (cancel_check : Option (Exec Bool)) (model_name : String) (pid : ℕ)
    (e : Env) (w : World) {logs : List Text}
    → (wait_for_server_ready port timeout cancel_check model_name pid e w).0 ≡ ok (true, logs)
    → looks_ready logs ≡ true
unfolding wait_for_server_ready
wait_for_server_ready-MeansReady port timeout cancel_check model_name pid e w h =
    Post-ok (λ o _. MeansReady o) (λ _ _. Unit {0})
      (wait_for_server_ready port timeout cancel_check model_name pid e w)
      ((Returns-bind {e = e} {Q = MeansReady} _ _
          (λ start. loop-means port timeout cancel_check model_name pid e.rounds start List.[])).at
        w tt)
      h refl

-- `wait_for_server_ready` returns, without an exception, in `timeout + 1` rounds of its loop at most.
-- This holds for a port up to 65535 and as long as a sleep of a second takes a second or more by the
-- clock, if the cancel check always returns and only reads.
pub wait_for_server_ready-returns :
    (port : ℕ) (timeout : ℕ) (cancel_check : Option (Exec Bool)) (model_name : String) (pid : ℕ)
    (e : Env)
    → Looks e cancel_check
    → Forward e
    → port ≤ 65535
    → timeout + 1 ≤ e.rounds
    → (w : World)
    → (o : Bool × List Text) × ((wait_for_server_ready port timeout cancel_check model_name pid e
          w).0
        ≡ ok o)
wait_for_server_ready-returns port timeout cancel_check model_name pid e looks forward small enough
      w =
    Safely-value
      (Safely-wait anything port timeout cancel_check model_name pid looks forward small enough) w
      tt
  where
    anything : Framed e (λ _. Unit {0})
    anything = record {
      stable = record { meets = λ w u. tt };
      audit_free = λ w l u. tt;
      machine_free = λ w m u. tt;
    }
