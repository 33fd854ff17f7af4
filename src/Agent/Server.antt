-- ===== src/Agent/Server.antt =====
-- llauncher/agent/server.py: how the agent starts, the application it builds and the codes it exits
-- with. uvicorn is an argument: how `uvicorn.run` ends. Logging is left out.
pub mod Guarded
pub mod Again
pub mod Shutdown
use llauncher.Base.{
  ℕ, Bool, true, false, not, ◌&&◌, Option, none, some, List, [], ◌∷◌, ◌++◌, contains, leb, ltb,
  if◌then◌else◌,
}
use llauncher.Base.Text.{Text, codes, text_eq}
use llauncher.Base.Lines.{strip}
use llauncher.Core.AgentToken.{
  Resolution, no_stdin_token, unresolved, token, is_empty, resolve_agent_token,
  legacy_token_env_misconfigured, count_env_file_token_lines,
}
use llauncher.Core.Delegation.{Environment}

-- `LOOPBACK_HOSTS`
abbrev pub loopback_hosts : List Text
loopback_hosts = codes "127.0.0.1" ∷ codes "::1" ∷ codes "localhost" ∷ []

abbrev pub is_loopback : Text → Bool
is_loopback host = contains host loopback_hosts

pub record AgentConfig : Type 0 where
  pub host : Text
  pub port : ℕ

-- The middleware that is added to the application.
pub data Middleware : Type 0 where
  authentication : Text → Middleware
  body_size_limit : Middleware

-- The middleware is in the order in which it is added, so that the last one is the outermost.
pub record App : Type 0 where
  pub openapi_url : Option Text
  pub docs_url : Option Text
  pub redoc_url : Option Text
  pub middleware : List Middleware

unfoldable pub build_app : Option Text → App
build_app none = record {
  openapi_url = some (codes "/openapi.json");
  docs_url = some (codes "/docs");
  redoc_url = some (codes "/redoc");
  middleware = Middleware.body_size_limit ∷ [];
}
build_app (some auth_token) = record {
  openapi_url = none;
  docs_url = none;
  redoc_url = none;
  middleware = Middleware.authentication auth_token ∷ Middleware.body_size_limit ∷ [];
}

-- `not auth_token or not auth_token.strip()`
unfoldable pub is_blank : Text → Bool
unfolding strip
is_blank auth_token = is_empty (strip auth_token)

-- `none` is a `ValueError`.
unfoldable pub create_app : Text → Option App
unfolding build_app is_blank
create_app auth_token = if is_blank auth_token then none else some (build_app (some auth_token))

-- `none` is a `RuntimeError`.
unfoldable pub create_app_unauthenticated : Bool → Option App
unfolding build_app
create_app_unauthenticated debug = if not debug then none else some (build_app none)

-- What `uvicorn.run` is called with, and the environment that the process has then.
pub record Serving : Type 0 where
  pub app : App
  pub host : Text
  pub port : ℕ
  pub environment : Environment

-- `SystemExit` with its code, another exception, or the call of `uvicorn.run`.
pub data Startup : Type 0 where
  exits : ℕ → Startup
  stdin_error blank_error : Startup
  serves : Serving → Startup

-- The variables that a start reads, the line on stdin and the token that would be generated.
pub record Given : Type 0 where
  pub legacy_token : Option Text
  pub agent_token : Option Text
  pub environment : Environment
  pub stdin : Text
  pub generated : Text

module _ (config : AgentConfig) (given : Given) where
  with_app : Option App → Startup
  with_app none = blank_error
  with_app (some app) = serves (record {
    app = app;
    host = config.host;
    port = config.port;
    environment = record given.environment { agent_process = some (codes "1") };
  })

  -- The guard on `None` is there in the branch that may not generate a token; `create_app` raises
  -- the error of a blank token for it otherwise.
  with_token : Bool → Resolution → Startup
  unfolding with_app create_app
  with_token loopback Resolution.no_stdin_token = stdin_error
  with_token loopback Resolution.unresolved = if not loopback then exits 2 else blank_error
  with_token loopback (Resolution.token auth_token) = with_app (create_app auth_token)

  -- The outcome, and the file agent.env after it.
  unfoldable pub run_agent : Option Text → Startup × Option Text
  unfolding with_token resolve_agent_token legacy_token_env_misconfigured count_env_file_token_lines
  run_agent file =
      let loopback = is_loopback config.host in
      let (resolved, file') =
        resolve_agent_token given.stdin given.generated loopback given.agent_token file in
      if legacy_token_env_misconfigured given.legacy_token given.agent_token
      then (exits 2, file)
      else if ltb 1 (count_env_file_token_lines file)
      then (exits 2, file)
      else (with_token loopback resolved, file')

-- How `uvicorn.run` ends.
pub data Ran : Type 0 where
  returned interrupted raised : Ran

abbrev run_code : Startup → Ran → ℕ
run_code (exits code) ran = code
run_code stdin_error ran = 1
run_code blank_error ran = 1
run_code (serves s) Ran.returned = 0
run_code (serves s) Ran.interrupted = 0
run_code (serves s) Ran.raised = 1

-- What the process prints on stdout, and its exit code: 1 for an exception that leaves `main`.
unfoldable pub print_token : Resolution → List Text × ℕ
print_token Resolution.no_stdin_token = ([], 1)
print_token Resolution.unresolved = ([], 1)
print_token (Resolution.token t) = (t ∷ [], 0)

pub data Command : Type 0 where
  print_token_command stop_command run_command : Command

-- `config` is `none` if `AgentConfig.from_env` raises. A `--stop` exits with 0 whether or not an
-- agent was stopped.
module _ (config : Option AgentConfig) (given : Given) (ran : Ran) where
  run_config : Option AgentConfig → Option Text → (List Text × ℕ) × Option Text
  unfolding run_agent
  run_config none file = (([], 1), file)
  run_config (some c) file =
      let (startup, file') = run_agent c given file in (([], run_code startup ran), file')

  stop_code : Option AgentConfig → ℕ
  stop_code none = 1
  stop_code (some c) = 0

  unfoldable pub main : Command → Option Text → (List Text × ℕ) × Option Text
  unfolding run_config stop_code print_token resolve_agent_token
  main print_token_command file =
      let (resolved, file') =
        resolve_agent_token given.stdin given.generated false given.agent_token file in
      (print_token resolved, file')
  main stop_command file = (([], stop_code config), file)
  main run_command file = run_config config file
