-- ===== src/State/Startable.antt =====
-- A port that the allocator hands out is one that the rules let a server start on.
use llauncher.Base.{
  ◌+◌, ℕ, Bool, true, false, Option, List, String, contains, nat_eq, string_eq, ◌≡◌, sym, ap, ◌∙◌,
  inl, inr, arith,
}
use llauncher.Base.Dict.{Dict, has_key}
use llauncher.Records.{ModelConfig}
use llauncher.Core.Process.Ports.{Socket, first_port, find_available_port}
use llauncher.Core.Process.Ports.Chosen.{is_usable, FirstUsable, find_available_port-FirstUsable}
use llauncher.State.{ChangeRules, valid, validate_start, can_start, is_excluded}

FirstUsable-usable :
    (sockets : Option (List Socket)) (can_bind : ℕ → Bool) (blacklisted : List ℕ) (start bound : ℕ)
    (answer : Bool × ℕ) (port : ℕ)
    → FirstUsable sockets can_bind blacklisted start bound answer
    → answer ≡ (true, port)
    → is_usable sockets can_bind blacklisted port ≡ true
FirstUsable-usable sockets can_bind blacklisted start bound (true, p) port f h =
    ap (is_usable sockets can_bind blacklisted) (sym (ap (λ a. a.1) h)) ∙ f.2
FirstUsable-usable sockets can_bind blacklisted start bound (false, p) port f h =
    let absurd : false ≡ true = ap (λ a. a.0) h in ground (arith, absurd)

find_available_port-usable :
    (sockets : Option (List Socket)) (can_bind : ℕ → Bool) (blacklisted : List ℕ) (default_port : ℕ)
    (preferred start : Option ℕ) (last_port port : ℕ)
    → find_available_port sockets can_bind blacklisted default_port preferred start last_port
      ≡ (true, port)
    → is_usable sockets can_bind blacklisted port ≡ true
find_available_port-usable sockets can_bind blacklisted default_port preferred start last_port port
      h =
    elim (find_available_port-FirstUsable sockets can_bind blacklisted default_port preferred start
      last_port) [
        | inl x ↦
            let (p, _, usable, at) = x in
            ap (is_usable sockets can_bind blacklisted) (ap (λ a. a.1) (sym h ∙ at)) ∙ usable
        | inr x ↦
            FirstUsable-usable sockets can_bind blacklisted
              (first_port sockets can_bind blacklisted default_port start) (last_port + 1)
              (find_available_port sockets can_bind blacklisted default_port preferred start
                last_port)
              port x.1 h
      ]

-- A port that `find_available_port` hands out passes `can_start` under rules that forbid the same
-- ports, while the listeners are the same, if no server is known to run there, the caller and the
-- model are allowed, and the model file exists.
pub can_start-found_port :
    {Server : Type 0} (running : Dict ℕ Server) (rules : ChangeRules)
    (sockets : Option (List Socket)) (can_bind : ℕ → Bool) (exists : String → Bool)
    (config : ModelConfig) (caller : String) (default_port : ℕ) (preferred start : Option ℕ)
    (last_port port : ℕ)
    → find_available_port sockets can_bind rules.blacklisted_ports default_port preferred start
        last_port
      ≡ (true, port)
    → has_key port running ≡ false
    → contains caller rules.blacklisted_callers ≡ false
    → is_excluded config.name rules.whitelisted_models ≡ false
    → exists config.model_path ≡ true
    → can_start running rules sockets can_bind exists config caller port ≡ valid
unfolding can_start validate_start
can_start-found_port running rules sockets can_bind exists config caller default_port preferred
      start last_port port found idle allowed listed there =
    let usable =
      find_available_port-usable sockets can_bind rules.blacklisted_ports default_port preferred
        start last_port port found in
    ground (arith, usable, idle, allowed, listed, there)
