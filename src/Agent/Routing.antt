-- ===== src/Agent/Routing.antt =====
-- llauncher/agent/routing.py: the HTTP status of a verb's outcome, and the endpoints of the verbs.
pub mod Answers
use llauncher.Base.{ℕ, Bool, Option, String, leb, if◌then◌else◌}
use llauncher.Host.{Exec, pure, attempt, ◌>>=◌}
use llauncher.Operations.Preflight.{PreflightCheck}
use llauncher.Operations.Start.{StartAction, StartResult, StartCall, start}
use llauncher.Operations.Swap.{swap}
use llauncher.Operations.Swap.Types.{SwapAction, SwapResult, SwapCall}
use llauncher.Operations.Stop.{StopAction}
use llauncher.Operations.Delete.{DeleteAction, DeleteModelResult, delete_model}

abbrev pub start_status_code : StartAction → ℕ
start_status_code StartAction.started = 200
start_status_code StartAction.already_running = 200
start_status_code StartAction.rejected_occupied = 409
start_status_code StartAction.rejected_preflight = 409
start_status_code StartAction.rejected_in_progress = 409
start_status_code StartAction.cancelled = 409
start_status_code StartAction.error = 500

abbrev pub stop_status_code : StopAction → ℕ
stop_status_code StopAction.stopped = 200
stop_status_code StopAction.already_empty = 200
stop_status_code StopAction.stopping = 202
stop_status_code StopAction.error = 500

abbrev pub swap_status_code : SwapAction → ℕ
swap_status_code SwapAction.swapped = 200
swap_status_code SwapAction.already_running = 200
swap_status_code SwapAction.rejected_empty = 400
swap_status_code SwapAction.rejected_preflight = 409
swap_status_code SwapAction.rejected_in_progress = 409
swap_status_code SwapAction.rejected_stop_failed = 500
swap_status_code SwapAction.rolled_back = 503
swap_status_code SwapAction.cancelled = 503
swap_status_code SwapAction.failed = 500

abbrev pub delete_status_code : DeleteAction → ℕ
delete_status_code DeleteAction.deleted = 200
delete_status_code DeleteAction.not_found = 404
delete_status_code DeleteAction.rejected_in_use = 409
delete_status_code DeleteAction.error = 500

-- What a client gets: the result as the body of a success or as the detail of an `HTTPException`,
-- or the structured body of an exception that left the verb.
pub data Reply (A : Type 0) : Type 0 where
  payload http_exception : ℕ → A → Reply A
  unhandled : ℕ → Reply A

-- `if code >= 400: raise HTTPException`
abbrev pub reply : {A : Type 0} → ℕ → A → Reply A
reply code result = if leb 400 code then http_exception code result else payload code result

-- The defaults of the verbs' optional arguments.
module _ (readiness_timeout : ℕ) (model_health_check vram_check : Option PreflightCheck) where
  abbrev pub start_call : ℕ → String → StartCall
  start_call port model = record {
    model_name = model;
    port = port;
    caller = "agent";
    readiness_timeout = readiness_timeout;
    model_health_check = model_health_check;
  }

  abbrev pub swap_call : ℕ → String → SwapCall
  swap_call port model = record {
    model_name = model;
    port = port;
    caller = "agent";
    readiness_timeout = readiness_timeout;
    model_health_check = model_health_check;
    vram_check = vram_check;
  }

  unfoldable pub start_server : ℕ → String → Exec (Reply StartResult)
  start_server port model =
      attempt (start (start_call port model)) (λ r. pure (reply (start_status_code r.action) r))
        (λ x. pure (unhandled 500))

  unfoldable pub swap_server : ℕ → String → Exec (Reply SwapResult)
  swap_server port model = do
    r ← swap (swap_call port model)
    pure (reply (swap_status_code r.action) r)

unfoldable pub delete_endpoint : String → Exec (Reply DeleteModelResult)
delete_endpoint name = do
  r ← delete_model name "agent"
  pure (reply (delete_status_code r.action) r)
