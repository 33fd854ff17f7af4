-- ===== src/Agent/Server/Again.antt =====
-- A start of the agent after another one, and `print-token`.
use mathlib.Core.Path.{subst}
use llauncher.Base.{
  ℕ, ◌≤◌, Bool, Bool-cases, true, false, Option, none, some, [], ◌∷◌, ltb, ◌≡◌, refl, sym, ap, ◌∙◌,
  inl, inr, arith,
}
use llauncher.Base.Text.{Text, text_eq}
use llauncher.Core.AgentToken.{
  Resolution, resolve_agent_token, count_env_file_token_lines, legacy_token_env_misconfigured,
}
use llauncher.Core.AgentToken.Stripped.{UrlSafe}
use llauncher.Core.AgentToken.Settled.{resolve_agent_token-Settles, resolve_agent_token-again}
use llauncher.Agent.Server.{
  Command, print_token, main, Ran, AgentConfig, App, build_app, is_blank, is_loopback, create_app,
  Serving, Startup, Given, with_app, with_token, run_agent,
}
use llauncher.Agent.Server.Guarded.{resolved, Settles-single}

-- The application that a start serves.
abbrev app_served : Startup → App
app_served (Startup.serves s) = s.app
app_served _ = build_app none

abbrev is_serving : Startup → Bool
is_serving (Startup.serves s) = true
is_serving _ = false

not_serving :
    {A : Type 0} (o : Startup) (s : Serving) → is_serving o ≡ false → o ≡ Startup.serves s → A
not_serving o s h q =
    let absurd : true ≡ false = sym (ap is_serving q) ∙ h in ground (arith, absurd)

-- A later start of the same configuration, in which another token would be generated.
abbrev pub later : Text → Given → Given
later generated given = record given { generated = generated }

module _ (config : AgentConfig) (given : Given) (generated : Text) (c : Option AgentConfig)
    (ran : Ran) where
  -- A later start serves the same, and `print-token` prints the token that it checks.
  abbrev pub Agreed : Serving → Option Text → Type 0
  Agreed s file' =
      (run_agent config (later generated given) file' ≡ (Startup.serves s, file'))
      × ((t : Text) × (s.app ≡ build_app (some t))
          × (main c (later generated given) ran Command.print_token_command file'
              ≡ ((t ∷ [], 0), file')))

  with_token-app :
      (loopback : Bool) (t : Text) (s : Serving)
      → with_token config given loopback (Resolution.token t) ≡ Startup.serves s
      → s.app ≡ build_app (some t)
  unfolding with_token with_app create_app
  with_token-app loopback t s = elim (Bool-cases (is_blank t)) [
    | inl h ↦ rw h (not_serving Startup.blank_error s refl)
    | inr h ↦ rw h (λ q. sym (ap app_served q))
  ]

  unresolved-serving :
      {A : Type 0} {s : Serving} (loopback : Bool)
      → with_token config given loopback Resolution.unresolved ≡ Startup.serves s
      → A
  unfolding with_token
  unresolved-serving {A} {s} true = not_serving Startup.blank_error s refl
  unresolved-serving {A} {s} false = not_serving (Startup.exits 2) s refl

  served-Agreed :
      (file file' : Option Text) (s : Serving) (t : Text)
      → UrlSafe given.generated
      → legacy_token_env_misconfigured given.legacy_token given.agent_token ≡ false
      → ltb 1 (count_env_file_token_lines file') ≡ false
      → resolve_agent_token given.stdin given.generated
          (is_loopback config.host)
          given.agent_token
          file
        ≡ (Resolution.token t, file')
      → with_token config given (is_loopback config.host) (Resolution.token t) ≡ Startup.serves s
      → Agreed s file'
  unfolding run_agent main with_token print_token
  served-Agreed file file' s t safe current single resolves serving =
      let again : (allow : Bool)
          → resolve_agent_token given.stdin generated allow given.agent_token file'
            ≡ (Resolution.token t, file') =
        λ allow.
          resolve_agent_token-again given.stdin given.generated generated (is_loopback config.host)
            allow file file' t safe given.agent_token resolves in
      (
        rw (current, single, again (is_loopback config.host)) (ap (λ o. (o, file')) serving),
        (t, with_token-app (is_loopback config.host) t s serving, rw (again false) refl),
      )

  resolved-Agreed :
      (file file' : Option Text) (s : Serving) (r : Resolution)
      → UrlSafe given.generated
      → legacy_token_env_misconfigured given.legacy_token given.agent_token ≡ false
      → ltb 1 (count_env_file_token_lines file') ≡ false
      → resolve_agent_token given.stdin given.generated
          (is_loopback config.host)
          given.agent_token
          file
        ≡ (r, file')
      → with_token config given (is_loopback config.host) r ≡ Startup.serves s
      → Agreed s file'
  unfolding with_token
  resolved-Agreed file file' s Resolution.no_stdin_token safe current single resolves serving =
      not_serving Startup.stdin_error s refl serving
  resolved-Agreed file file' s Resolution.unresolved safe current single resolves serving =
      unresolved-serving (is_loopback config.host) serving
  resolved-Agreed file file' s (Resolution.token t) safe current single resolves serving =
      served-Agreed file file' s t safe current single resolves serving

-- What a start that serves has passed.
run_agent-serves :
    (config : AgentConfig) (given : Given) (file file' : Option Text) (s : Serving)
    → run_agent config given file ≡ (Startup.serves s, file')
    → (legacy_token_env_misconfigured given.legacy_token given.agent_token ≡ false)
      × (ltb 1 (count_env_file_token_lines file) ≡ false)
      × (resolved config given file ≡ ((resolved config given file).0, file'))
      × (with_token config given (is_loopback config.host) (resolved config given file).0
          ≡ Startup.serves s)
unfolding run_agent
run_agent-serves config given file file' s =
    elim (Bool-cases (legacy_token_env_misconfigured given.legacy_token given.agent_token)) [
      | inl b ↦ rw b (λ h. not_serving (Startup.exits 2) s refl (ap (λ r. r.0) h))
      | inr b ↦ rw b (elim (Bool-cases (ltb 1 (count_env_file_token_lines file))) [
        | inl q ↦ rw q (λ h. not_serving (Startup.exits 2) s refl (ap (λ r. r.0) h))
        | inr q ↦
            rw q (λ h.
              (refl, refl, ap (λ o. ((resolved config given file).0, o.1)) h, ap (λ o. o.0) h))
      ])
    ]

single_again : {n : ℕ} → n ≤ 1 → ltb 1 n ≡ false
single_again h = ground (arith, h)

-- If a start serves, with a generator of letters, digits, `-` and `_`, then a start after it with the
-- same configuration, environment and stdin serves the same application on the same address and
-- leaves agent.env alone, whatever token it would generate, and `print-token` prints the one token
-- that the application checks.
pub run_agent-again :
    (config : AgentConfig) (given : Given) (generated : Text) (c : Option AgentConfig) (ran : Ran)
    (file file' : Option Text) (s : Serving)
    → UrlSafe given.generated
    → run_agent config given file ≡ (Startup.serves s, file')
    → Agreed config given generated c ran s file'
run_agent-again config given generated c ran file file' s safe h =
    let (current, few, resolves, serving) = run_agent-serves config given file file' s h in
    let settles =
      resolve_agent_token-Settles given.stdin given.generated (is_loopback config.host) file
        given.agent_token in
    let single =
      Settles-single config given file safe (resolved config given file) settles
        (ground (arith, few)) in
    resolved-Agreed config given generated c ran file file' s (resolved config given file).0 safe
      current
      (single_again (subst (λ f. count_env_file_token_lines f ≤ 1) (ap (λ r. r.1) resolves) single))
      resolves serving
