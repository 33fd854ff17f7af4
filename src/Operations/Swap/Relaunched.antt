-- ===== src/Operations/Swap/Relaunched.antt =====
-- A launch by `swap` claims the port if it is ready, and leaves it free if it is not; and what the
-- ways back to the previous model claim.
use llauncher.Base.{
  ℕ, Bool, true, false, Option, none, some, List, String, ◌≡◌, ◌∙◌, ap, if◌then◌else◌,
}
use llauncher.Base.Text.{Text}
use llauncher.Records.{ModelConfig}
use llauncher.Host.{World, Env, Exn, Exec}
use llauncher.Host.Hoare.{
  Keeps-gives, Hoare-weaken, Hoare, Hoare-attempt, Hoare-bind, Hoare-then, Hoare-if, Hoare-pure,
  Hoare-raise,
}
use llauncher.Host.Safely.{Safely-bind, Safely-then, Safely-weak}
use llauncher.Core.AuditLog.{Safely-record_audit}
use llauncher.Core.Kept.{Safely-is_cancelled, Keeps-start_server, Looks-none, Looks-is_cancelled}
use llauncher.Core.Lockfile.Claimed.{
  Claimed, Settled, Claimed-Framed, Hoare-write_lockfile, Hoare-remove_lockfile,
}
use llauncher.Core.Process.Wait.Returning.{Looks, Keeps-wait}
use llauncher.Operations.Start.{is_launch_error}
use llauncher.Operations.Start.Kept.{Safely-teardown}
use llauncher.Operations.Start.Claims.{both}
use llauncher.Operations.Swap.Launch.{
  Launch, launch_and_await_ready, claim_launched, await_ready, unready, not_claimed, not_launched,
}
use llauncher.Operations.Swap.Restore.{
  handle_cancel_during_swap, launch_new, port_dead, relaunch, cancel_restored, rolled_back,
  roll_back, swap_complete,
}
use llauncher.Operations.Swap.Types.{SwapResult, SwapCall}

-- What a launch leaves on the port.
abbrev claim_of : String → Launch → Option (String × ℕ)
claim_of name l = if l.ready then both (some name) l.pid else none

abbrev pub Quiet : Exn → World → Type 0
Quiet x w = Unit {0}

module _ {e : Env} (config : ModelConfig) (port readiness_timeout : ℕ) (check : Option (Exec Bool))
    (s : Settled e port) (looks : Looks e check) where
  abbrev Left : Launch → World → Type 0
  Left l = Claimed port (claim_of config.name l)

  await-claims :
      (pid : ℕ)
      → Hoare e
          (Claimed port (some (config.name, pid)))
          (await_ready config port readiness_timeout check pid)
          Left
          Quiet
  unfolding await_ready unready
  await-claims pid =
      Hoare-bind _ _ (Keeps-gives (Keeps-wait (Claimed-Framed port s _) _ _ _ _ _ looks))
        λ (ready, logs).
          Hoare-if ready _ _ (λ _. Hoare-pure _ (λ w p. p))
            (λ _. Safely-bind _ _ (looks.looks (s _)) λ stopped.
              Safely-then _ _ (Safely-teardown (Claimed-Framed port s _) pid) (
                Hoare-then _ _ (Safely-weak (Hoare-remove_lockfile port))
                  (Hoare-pure _ (λ w p. p))))

  not_claimed-claims :
      (pid : ℕ) (x : Exn)
      → Hoare e
          (Claimed port none)
          (not_claimed config port readiness_timeout check pid x)
          Left
          Quiet
  unfolding not_claimed
  not_claimed-claims pid Exn.file_exists =
      Safely-then _ _ (Safely-teardown (Claimed-Framed port s _) pid) (Hoare-pure _ (λ w p. p))
  not_claimed-claims pid x = Hoare-raise x (λ w p. tt)

  launch-claims :
      Hoare e
        (Claimed port none)
        (launch_and_await_ready config port readiness_timeout check)
        Left
        Quiet
  unfolding launch_and_await_ready claim_launched not_launched
  launch-claims =
      Hoare-attempt _ _ _ (Keeps-start_server (Claimed-Framed port s none) config port)
        (λ pid.
          Hoare-attempt _ _ _ (Hoare-write_lockfile port config.name pid s) (λ lf. await-claims pid)
            (not_claimed-claims pid))
        (λ x.
          Hoare-if (is_launch_error x) _ _ (λ _. Hoare-pure _ (λ w p. p))
            (λ _. Hoare-raise x (λ w p. tt)))

-- The claim of a launch that is ready, under the name of the model.
renamed :
    (port : ℕ) (name name' : String) (l : Launch) (w : World)
    → name ≡ name'
    → l.ready ≡ true
    → Claimed port (claim_of name l) w
    → Claimed port (both (some name') l.pid) w
renamed port name name' l w h b p =
    p ∙ ap (λ b. if b then both (some name) l.pid else none) b ∙ ap (λ n. both (some n) l.pid) h

freed :
    (port : ℕ) (name : String) (l : Launch) (w : World)
    → l.ready ≡ false
    → Claimed port (claim_of name l) w
    → Claimed port none w
freed port name l w b p = p ∙ ap (λ b. if b then both (some name) l.pid else none) b

module _ (call : SwapCall) (previous : String) (old : ModelConfig) (named : old.name ≡ previous)
    {e : Env} (s : Settled e call.port) where
  abbrev pub Told : SwapResult → World → Type 0
  Told r = Claimed call.port (both r.model r.pid)

  port_dead-Told :
      (logs : List Text)
      → Hoare e (Claimed call.port none) (port_dead call previous old logs) Told Quiet
  unfolding port_dead
  port_dead-Told logs =
      Safely-then _ _ (Safely-record_audit (Claimed-Framed call.port s _) _)
        (Hoare-pure _ (λ w p. p))

  cancel_restored-Told :
      (back : Launch)
      → Hoare e
          (Claimed call.port (claim_of old.name back))
          (cancel_restored call previous old back)
          Told
          Quiet
  unfolding cancel_restored
  cancel_restored-Told back =
      Hoare-if back.ready _ _
        (λ b.
          Safely-then _ _ (Safely-record_audit (Claimed-Framed call.port s _) _)
            (Hoare-pure _ (λ w p. renamed call.port old.name previous back w named b p)))
        (λ b.
          Hoare-weaken (port_dead-Told back.logs) (λ w p. freed call.port old.name back w b p)
            (λ r w p. p) (λ x w p. p))

  pub handle_cancel-Told :
      Hoare e (Claimed call.port none) (handle_cancel_during_swap call previous old) Told Quiet
  unfolding handle_cancel_during_swap relaunch
  handle_cancel-Told =
      Safely-then _ _ (Safely-record_audit (Claimed-Framed call.port s _) _)
        (Hoare-bind _ _ (launch-claims old _ _ _ s Looks-none) cancel_restored-Told)

  rolled_back-Told :
      (cancel : Bool) (logs : List Text) (back : Launch)
      → Hoare e
          (Claimed call.port (claim_of old.name back))
          (rolled_back call previous old cancel logs back)
          Told
          Quiet
  unfolding rolled_back
  rolled_back-Told cancel logs back =
      Hoare-if back.ready _ _
        (λ b. Safely-then _ _ (Safely-record_audit (Claimed-Framed call.port s _) _) (
          Safely-then _ _ (Safely-record_audit (Claimed-Framed call.port s _) _)
            (Hoare-pure _ (λ w p. renamed call.port old.name previous back w named b p))))
        (λ b.
          Hoare-weaken (port_dead-Told _) (λ w p. freed call.port old.name back w b p) (λ r w p. p)
            (λ x w p. p))

  swap_complete-Told :
      (config : ModelConfig) (new : Launch)
      → config.name ≡ call.model_name
      → new.ready ≡ true
      → Hoare e
          (Claimed call.port (claim_of config.name new))
          (swap_complete call previous old config new)
          Told
          Quiet
  unfolding swap_complete
  swap_complete-Told config new found b =
      Safely-bind _ _ (Safely-is_cancelled (s _) call.port) λ late.
        Safely-then _ _ (Safely-record_audit (Claimed-Framed call.port s _) _) (
          Safely-then _ _ (Safely-record_audit (Claimed-Framed call.port s _) _)
            (Hoare-pure _ (λ w p. renamed call.port config.name call.model_name new w found b p)))

  pub launch_new-Told :
      (config : ModelConfig)
      → config.name ≡ call.model_name
      → Hoare e (Claimed call.port none) (launch_new call previous old config) Told Quiet
  unfolding launch_new roll_back relaunch
  launch_new-Told config found =
      Hoare-bind _ _ (launch-claims config _ _ _ s (Looks-is_cancelled call.port)) λ new.
        Hoare-if new.ready _ _ (λ b. swap_complete-Told config new found b)
          (λ b.
            Hoare-weaken
              (Safely-then _ _ (Safely-record_audit (Claimed-Framed call.port s none) _) (
                Hoare-bind _ _ (launch-claims old _ _ _ s Looks-none)
                  (rolled_back-Told _ new.logs)))
              (λ w p. freed call.port config.name new w b p) (λ r w p. p) (λ x w p. p))
