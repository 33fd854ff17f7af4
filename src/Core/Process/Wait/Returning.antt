-- ===== src/Core/Process/Wait/Returning.antt =====
-- `wait_for_server_ready` keeps what it does not look at, and returns if the clock goes forward.
use llauncher.Host.Frame.{Keeps-pure, Keeps-raise, Keeps-if, Keeps-reads, Keeps-bind, Keeps-then}
use llauncher.Base.{
  sym, ℕ, zero, suc, ◌+◌, ◌-◌, ◌≤◌, Bool, true, false, not, Option, List, String, ltb, arith, ◌≡◌,
}
use llauncher.Base.Text.{Text}
use mathlib.Core.Path.{subst}
use llauncher.Host.{World, Env, ok, Exec, Exn}
use llauncher.Host.Hoare.{
  Hoare-given, Hoare, Stable, Hoare-step, Hoare-if, Hoare-bind, Hoare-then, Hoare-weaken, Keeps,
}
use llauncher.Host.Framed.{Framed, Keeps-on_machine}
use llauncher.Host.Safely.{
  Safely, Safely-pure, Safely-reads, Safely-bind, meet-machine, Safely-Hoare,
}
use llauncher.Core.Process.Wait.{
  clock, nap, attempt_logs, give_up, probe_logs, wait_loop, wait_for_server_ready, run_check,
  is_ready, connect,
}

-- A check that reads and always returns.
pub record Looks (e : Env) (check : Option (Exec Bool)) : Type 1 where
  pub looks : {P : World → Type 0} → Stable e P → Safely e P (run_check check)

-- A sleep of a second takes a second or more by the clock, which nobody sets back.
abbrev pub Forward : Env → Type 0
Forward e = (t n : ℕ) → n + 1 ≤ e.after_nap t n

-- The clock has reached `t`.
pub record Since (P : World → Type 0) (t : ℕ) (w : World) : Type 0 where
  pub holds : P w
  pub reached : t ≤ w.machine.now

module _ {e : Env} {P : World → Type 0} (fr : Framed e P) where
  Since-Stable : (t : ℕ) → Stable e (Since P t)
  Since-Stable t = record {
    meets = λ w h. record {
      holds = fr.stable.meets w h.holds;
      reached = subst (λ m. t ≤ m.now) (sym (meet-machine e w)) h.reached;
    };
  }

  module _ (port : ℕ) (timeout : ℕ) (cancel_check : Option (Exec Bool)) (model_name : String)
      (pid : ℕ) (check : Looks e cancel_check) where
    clock-reads :
        (t : ℕ)
        → Hoare e
            (Since P t)
            (clock port timeout cancel_check model_name pid)
            (λ now w. (t ≤ now) × Since P now w)
            (λ _ _. ⊥)
    unfolding clock
    clock-reads t =
        Hoare-step (λ e w. (ok w.machine.now, w)) (Since-Stable t)
          (λ w h. (h.reached, record { holds = h.holds; reached = ground arith }))

    napped : {t now later : ℕ} → t ≤ now → now + 1 ≤ later → suc t ≤ later
    napped h later = omega arith

    nap-passes :
        (t : ℕ)
        → Forward e
        → Hoare e
            (Since P t)
            (nap port timeout cancel_check model_name pid)
            (λ _. Since P (suc t))
            (λ _ _. ⊥)
    unfolding nap
    nap-passes t forward =
        Hoare-step
          (λ e w. (
            ok tt,
            record w { machine = record w.machine { now = e.after_nap w.tick w.machine.now } },
          ))
          (Since-Stable t)
          (λ w h. record {
            holds = fr.machine_free w _ h.holds;
            reached = napped h.reached (forward w.tick w.machine.now);
          })

    module _ {Q : World → Type 0} (s : Stable e Q) where
      give_up-returns :
          (l : List Text) → Safely e Q (give_up port timeout cancel_check model_name pid l)
      unfolding give_up attempt_logs
      give_up-returns l =
          Safely-bind _ _ (Safely-reads (λ e w. e.log_lines w.tick port model_name 50) s)
            (λ logs. Safely-pure _)

      probe_logs-returns :
          (b : Bool) → Safely e Q (probe_logs port timeout cancel_check model_name pid b)
      unfolding probe_logs attempt_logs
      probe_logs-returns false = Safely-pure _
      probe_logs-returns true =
          Safely-bind _ _ (Safely-reads (λ e w. e.log_lines w.tick port model_name 20) s)
            (λ logs. Safely-pure _)

    forget :
        {A : Type 0} {t : ℕ} {m : Exec A}
        → Safely e (Since P t) m
        → Hoare e (Since P t) m (λ _. P) (λ _ _. ⊥)
    forget h = Hoare-weaken h (λ w p. p) (λ a w h. h.holds) (λ x w z. z)

    connect-returns :
        {Q : World → Type 0}
        → Stable e Q
        → ltb 65535 port ≡ false
        → Safely e Q (connect port timeout cancel_check model_name pid)
    unfolding connect
    connect-returns s small = rw small (Safely-reads (λ e w. e.connects w.tick port) s)

    wait_loop-kept :
        (fuel start : ℕ) (l : List Text)
        → Keeps e P (wait_loop port timeout cancel_check model_name pid fuel start l)
    unfolding wait_loop clock nap connect
    wait_loop-kept zero start l = Keeps-raise Exn.out_of_fuel
    wait_loop-kept (suc fuel) start l =
        Safely-bind _ _ (Safely-reads (λ e w. w.machine.now) fr.stable) λ now.
          Keeps-if (not (ltb (now - start) timeout)) _ _
            (Safely-Hoare (give_up-returns fr.stable l))
            (Safely-bind _ _ (check.looks fr.stable) λ stop.
              Keeps-if stop _ _ (Safely-Hoare (give_up-returns fr.stable l)) (
                Safely-bind _ _ (Safely-reads (λ e w. e.exited w.tick pid) fr.stable) λ over.
                  Keeps-if over _ _ (Safely-Hoare (give_up-returns fr.stable l)) (
                    Keeps-bind _ _
                      (Keeps-if (ltb 65535 port) _ _ (Keeps-raise Exn.overflow_error)
                        (Keeps-reads (λ e w. e.connects w.tick port) fr.stable))
                      λ ready. Safely-bind _ _ (probe_logs-returns fr.stable ready) λ logs.
                        Keeps-if (is_ready port timeout cancel_check model_name pid logs) _ _
                          (Keeps-pure _)
                          (Keeps-then _ _
                            (Keeps-on_machine
                              (λ e t m. (ok tt, record m { now = e.after_nap t m.now })) fr)
                            (wait_loop-kept fuel start _)))))

    -- Also a poll that raises, or that is not followed to its end.
    pub Keeps-wait : Keeps e P (wait_for_server_ready port timeout cancel_check model_name pid)
    unfolding wait_for_server_ready clock
    Keeps-wait = record {
      at =
          (Safely-bind {R = λ _. P} _ _ (Safely-reads (λ e w. w.machine.now) fr.stable)
            (λ start. wait_loop-kept e.rounds start List.[])).at;
    }

    -- Enough fuel: the clock passes the deadline before it runs out.
    wait_loop-returns :
        (fuel start t : ℕ) (l : List Text)
        → Forward e
        → ltb 65535 port ≡ false
        → start ≤ t
        → start + timeout + 1 ≤ t + fuel
        → 1 ≤ fuel
        → Hoare e
            (Since P t)
            (wait_loop port timeout cancel_check model_name pid fuel start l)
            (λ _. P)
            (λ _ _. ⊥)
    unfolding wait_loop
    wait_loop-returns zero start t l forward small h1 h2 h3 = record { at = λ w p. ground arith }
    wait_loop-returns (suc fuel) start t l forward small h1 h2 h3 =
        Hoare-bind _ _ (clock-reads t) λ now. Hoare-given λ at.
          Hoare-if (not (ltb (now - start) timeout)) _ _
            (λ _. forget (give_up-returns (Since-Stable now) l))
            (λ b. Safely-bind _ _ (check.looks (Since-Stable now)) λ stop.
              Hoare-if stop _ _ (λ _. forget (give_up-returns (Since-Stable now) l))
                (λ _.
                  Safely-bind _ _ (Safely-reads (λ e w. e.exited w.tick pid) (Since-Stable now))
                    λ over.
                      Hoare-if over _ _ (λ _. forget (give_up-returns (Since-Stable now) l))
                        (λ _. Safely-bind _ _ (connect-returns (Since-Stable now) small) λ ready.
                          Safely-bind _ _ (probe_logs-returns (Since-Stable now) ready) λ logs.
                            Hoare-if (is_ready port timeout cancel_check model_name pid logs) _ _
                              (λ _. forget (Safely-pure _))
                              (λ _. Hoare-then _ _ (nap-passes now forward) (
                                wait_loop-returns fuel start (suc now) _ forward small
                                  (ground arith) (ground arith) (ground arith))))))

    pub Safely-wait :
        Forward e
        → port ≤ 65535
        → timeout + 1 ≤ e.rounds
        → Safely e P (wait_for_server_ready port timeout cancel_check model_name pid)
    unfolding wait_for_server_ready clock
    Safely-wait forward small enough = record {
      at =
          (Hoare-bind _ _
            (Hoare-step {Q = λ now. Since P now} (λ e w. (ok w.machine.now, w)) fr.stable
              (λ w p. record { holds = p; reached = ground arith }))
            (λ now.
              wait_loop-returns e.rounds now now _ forward (ground (arith, small)) (ground arith)
                (omega (arith, enough)) (omega (arith, enough)))).at;
    }
