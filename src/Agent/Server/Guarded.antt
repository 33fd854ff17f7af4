-- ===== src/Agent/Server/Guarded.antt =====
-- What a start of the agent guarantees of the application that it serves.
use llauncher.Base.{
  ℕ, ◌≤◌, Bool, Bool-cases, true, false, Option, some, [], ltb, ◌≡◌, refl, sym, ap, ◌∙◌, inl, inr,
  arith,
}
use llauncher.Base.Text.{Text, codes, text_eq}
use llauncher.Base.Lines.{is_space}
use llauncher.Base.Lines.Strip.{strip-no_space}
use llauncher.Core.AgentToken.{
  Resolution, is_empty, resolve_agent_token, count_env_file_token_lines,
  legacy_token_env_misconfigured,
}
use llauncher.Core.AgentToken.Stripped.{UrlSafe, no_space-UrlSafe}
use llauncher.Core.AgentToken.Settled.{Settles, resolve_agent_token-Settles}
use llauncher.Core.AgentToken.Rewritten.{persist_token-read}
use llauncher.Core.Delegation.{should_delegate, is_agent_process}
use llauncher.Agent.Server.{
  Environment, AgentConfig, build_app, is_blank, is_loopback, create_app, Serving, Startup, Given,
  with_app, with_token, run_agent,
}

UrlSafe-usable : (t : Text) → UrlSafe t → is_blank t ≡ false
unfolding is_blank
UrlSafe-usable t safe = ap is_empty (strip-no_space t (no_space-UrlSafe t safe.1)) ∙ safe.0

abbrev found : Resolution → Text
found (Resolution.token t) = t
found _ = []

token-injective : (t u : Text) → Resolution.token t ≡ Resolution.token u → t ≡ u
token-injective t u h = ap found h

abbrev is_token : Resolution → Bool
is_token (Resolution.token t) = true
is_token _ = false

stamped-never_delegates :
    (environment : Environment) (reply : Option ℕ)
    → should_delegate (record environment { agent_process = some (codes "1") }) reply ≡ false
unfolding should_delegate is_agent_process is_space
stamped-never_delegates environment reply = refl

module _ (config : AgentConfig) (given : Given) (file : Option Text) where
  abbrev pub resolved : Resolution × Option Text
  resolved =
      resolve_agent_token given.stdin given.generated (is_loopback config.host) given.agent_token
        file

-- Why a start exits with 2.
pub data Refusal (config : AgentConfig) (given : Given) (file : Option Text) : Type 0 where
  legacy :
      legacy_token_env_misconfigured given.legacy_token given.agent_token ≡ true
      → Refusal config given file
  duplicate : ltb 1 (count_env_file_token_lines file) ≡ true → Refusal config given file
  no_token :
      is_loopback config.host ≡ false
      → (resolved config given file).0 ≡ Resolution.unresolved
      → Refusal config given file

-- What holds of a call of `uvicorn.run`, with the file before the start and after it.
pub record Guarded (config : AgentConfig) (s : Serving) (file file' : Option Text) : Type 0 where
  pub token : Text
  pub secured : s.app ≡ build_app (some token)
  pub usable : is_blank token ≡ false
  pub bound : (s.host ≡ config.host) × (s.port ≡ config.port)
  pub exposed : is_loopback s.host ≡ false → file' ≡ file
  pub single : count_env_file_token_lines file' ≤ 1
  pub never_delegates : (reply : Option ℕ) → should_delegate s.environment reply ≡ false

module _ (config : AgentConfig) (given : Given) (file : Option Text) where
  abbrev pub IsGuarded : Startup × Option Text → Type 0
  IsGuarded (Startup.exits code, file') = (code ≡ 2) × (file' ≡ file) × Refusal config given file
  IsGuarded (Startup.stdin_error, file') =
      (file' ≡ file) × ((resolved config given file).0 ≡ Resolution.no_stdin_token)
  IsGuarded (Startup.blank_error, file') =
      (file' ≡ file)
      × ((t : Text) × ((resolved config given file).0 ≡ Resolution.token t) × (is_blank t ≡ true))
  IsGuarded (Startup.serves s, file') = Guarded config s file file'

module _ (config : AgentConfig) (given : Given) (file : Option Text)
    (safe : UrlSafe given.generated) where
  -- The file that a resolution leaves has one token line at most, as it had before.
  pub Settles-single :
      (r : Resolution × Option Text)
      → Settles given.generated (is_loopback config.host) file r
      → count_env_file_token_lines file ≤ 1
      → count_env_file_token_lines r.1 ≤ 1
  Settles-single r (inl (same, found)) few = rw same few
  Settles-single r (inr (allowed, made)) few =
      rw made (let one = (persist_token-read given.generated file safe).1 in omega (arith, one))

  Settles-exposed :
      (r : Resolution × Option Text)
      → Settles given.generated (is_loopback config.host) file r
      → (is_loopback config.host) ≡ false
      → r.1 ≡ file
  Settles-exposed r (inl (same, found)) off = same
  Settles-exposed r (inr (allowed, made)) off = ground (arith, allowed, off)

  -- A start that fails after the resolution has generated no token.
  Settles-blank :
      (t : Text) (file' : Option Text)
      → Settles given.generated (is_loopback config.host) file (Resolution.token t, file')
      → is_blank t ≡ true
      → file' ≡ file
  Settles-blank t file' (inl (same, found)) blank = same
  Settles-blank t file' (inr (allowed, made)) blank =
      let same = token-injective t given.generated (ap (λ r. r.0) made) in
      let usable = UrlSafe-usable given.generated safe in
      let absurd : true ≡ false = sym blank ∙ ap is_blank same ∙ usable in ground (arith, absurd)

  Settles-failed :
      (r : Resolution) (file' : Option Text)
      → Settles given.generated (is_loopback config.host) file (r, file')
      → is_token r ≡ false
      → file' ≡ file
  Settles-failed r file' (inl (same, found)) failed = same
  Settles-failed r file' (inr (allowed, made)) failed =
      let absurd : false ≡ true = sym failed ∙ ap (λ q. is_token q.0) made in ground (arith, absurd)

  unresolved-refused :
      (file' : Option Text)
      → Settles given.generated (is_loopback config.host) file (Resolution.unresolved, file')
      → is_loopback config.host ≡ false
  unresolved-refused file' (inl (same, found)) = elim (Bool-cases (is_loopback config.host)) [
    | inl h ↦ let absurd : true ≡ false = found h in ground (arith, absurd)
    | inr h ↦ h
  ]
  unresolved-refused file' (inr (allowed, made)) =
      let absurd : false ≡ true = ap (λ q. is_token q.0) made in ground (arith, absurd)

  with_token-IsGuarded :
      (r : Resolution) (file' : Option Text)
      → (resolved config given file).0 ≡ r
      → Settles given.generated (is_loopback config.host) file (r, file')
      → count_env_file_token_lines file ≤ 1
      → IsGuarded config given file (with_token config given (is_loopback config.host) r, file')
  unfolding with_token with_app create_app
  with_token-IsGuarded Resolution.no_stdin_token file' at settles few =
      (Settles-failed Resolution.no_stdin_token file' settles refl, at)
  with_token-IsGuarded Resolution.unresolved file' at settles few =
      let off = unresolved-refused file' settles in
      rw off
        (refl, Settles-failed Resolution.unresolved file' settles refl, Refusal.no_token off at)
  with_token-IsGuarded (Resolution.token t) file' at settles few = elim (Bool-cases (is_blank t)) [
    | inl h ↦ rw h (Settles-blank t file' settles h, (t, at, h))
    | inr h ↦ rw h (record {
      token = t;
      secured = refl;
      usable = h;
      bound = (refl, refl);
      exposed = Settles-exposed (Resolution.token t, file') settles;
      single = Settles-single (Resolution.token t, file') settles few;
      never_delegates = stamped-never_delegates given.environment;
    })
  ]

-- Whatever the environment, agent.env and stdin hold, and for a generator of letters, digits, `-`
-- and `_`, a start has one of four outcomes. It exits with 2, and then the token is under its old
-- name only, or agent.env has two token lines, or the host is not loopback and there is no token. It
-- raises since stdin has no token, or since the token is blank. Or it serves, and then the
-- application checks the API key against a token that is not blank, limits the body and shows no
-- docs, the host and port are those of the configuration, the process never delegates a verb,
-- agent.env has one token line at most, and off the loopback interface agent.env is as it was, so
-- the token was not generated. Unless it serves, agent.env is as it was.
pub run_agent-IsGuarded :
    (config : AgentConfig) (given : Given) (file : Option Text)
    → UrlSafe given.generated
    → IsGuarded config given file (run_agent config given file)
unfolding run_agent
run_agent-IsGuarded config given file safe =
    elim (Bool-cases (legacy_token_env_misconfigured given.legacy_token given.agent_token)) [
      | inl h ↦ rw h (refl, refl, Refusal.legacy h)
      | inr h ↦ rw h (elim (Bool-cases (ltb 1 (count_env_file_token_lines file))) [
        | inl b ↦ rw b (refl, refl, Refusal.duplicate b)
        | inr b ↦ rw b (
            let (r, file') = resolved config given file in
            with_token-IsGuarded config given file safe r file' refl
              (resolve_agent_token-Settles given.stdin given.generated (is_loopback config.host)
                file given.agent_token)
              (ground (arith, b)))
      ])
    ]
