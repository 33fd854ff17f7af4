-- ===== src/Agent/Routing/Answers.antt =====
-- What the endpoints answer.
use llauncher.Base.{ℕ, true, false, Option, String, ◌≡◌, refl, leb}
use llauncher.Host.{World, Env, Result, ok, err}
use llauncher.Host.Hoare.{Post, Hoare-attempt, Hoare-pure, Hoare}
use llauncher.Operations.Preflight.{PreflightCheck}
use llauncher.Operations.Start.{StartResult, StartAction}
use llauncher.Operations.Start.Coherent.{is_success, start-Returns}
use llauncher.Agent.Routing.{
  Reply, payload, http_exception, unhandled, reply, start_call, start_server, start_status_code,
}

-- A reply whose status says what its result says: 200 for a success and 4xx or 5xx for the rest.
abbrev pub IsHonest : Reply StartResult → Type 0
IsHonest (payload code r) = (code ≡ 200) × (r.success ≡ true)
IsHonest (http_exception code r) = (leb 400 code ≡ true) × (r.success ≡ false)
IsHonest (unhandled code) = code ≡ 500

honest :
    (r : StartResult) (a : StartAction)
    → r.success ≡ is_success a
    → IsHonest (reply (start_status_code a) r)
honest r StartAction.started h = (refl, h)
honest r StartAction.already_running h = (refl, h)
honest r StartAction.rejected_occupied h = (refl, h)
honest r StartAction.rejected_preflight h = (refl, h)
honest r StartAction.rejected_in_progress h = (refl, h)
honest r StartAction.cancelled h = (refl, h)
honest r StartAction.error h = (refl, h)

-- The endpoint of `start` always answers, also when `start` raises: with 200 and a result that is a
-- success, with 400 or more and a result that is none, or with 500 and a structured body.
pub start_server-IsHonest :
    (readiness_timeout : ℕ) (model_health_check vram_check : Option PreflightCheck) (port : ℕ)
    (model : String) (e : Env) (w : World)
    → (answer : Reply StartResult) × (((start_server readiness_timeout model_health_check vram_check
            port model e w).0
          ≡ ok answer)
        × IsHonest answer)
unfolding start_server
start_server-IsHonest readiness_timeout model_health_check vram_check port model e w =
    go (start_server readiness_timeout model_health_check vram_check port model e w) (all.at w tt)
  where
    all :
        Hoare e
          (λ _. Unit {0})
          (start_server readiness_timeout model_health_check vram_check port model)
          (λ answer _. IsHonest answer)
          (λ _ _. ⊥)
    all =
        Hoare-attempt _ _ _
          (start-Returns (start_call readiness_timeout model_health_check vram_check port model))
          (λ r. Hoare-pure _ (λ w h. honest r r.action h.by_action))
          (λ x. Hoare-pure _ (λ w u. refl))

    go :
        (o : Result (Reply StartResult) × World)
        → Post (λ answer _. IsHonest answer) (λ _ _. ⊥) o
        → (answer : Reply StartResult) × ((o.0 ≡ ok answer) × IsHonest answer)
    go (ok answer, v) h = (answer, (refl, h))
    go (err x, v) h = elim h [ ]
