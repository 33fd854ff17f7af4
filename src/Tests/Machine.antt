-- ===== src/Tests/Machine.antt =====
-- A machine where every launch works: two models in the config, and a port that is free or served.
use llauncher.Base.{◌+◌, ℕ, true, false, none, some, [], ◌∷◌, nat_eq, string_eq}
use llauncher.Base.Text.{codes}
use llauncher.Records.{ModelConfig, Lockfile, valid}
use llauncher.Host.{World, Env, ConfigFile, Machine, Argv, Row, Sight, Fate, Disk, meet}
use llauncher.Host.Hoare.{Stable}
use llauncher.Core.Lockfile.Claimed.{Settled}
use llauncher.Core.Marker.Unmarked.{Unchallenged}
use llauncher.Core.Config.Keyed.{Keyed}
use llauncher.Operations.Start.{StartCall}
use llauncher.Operations.Swap.Types.{SwapCall}

abbrev pub model_a : ModelConfig
model_a = record {
  name = "a";
  model_path = "/models/a.gguf";
  mmproj_path = none;
  n_gpu_layers = 99;
  ctx_size = 4096;
  parallel = 1;
  metrics = false;
  slots = false;
  extra_args = "--jinja";
}

abbrev pub model_b : ModelConfig
model_b = record model_a { name = "b" }

abbrev pub machine : Machine
machine = record { signals = []; scan_cached = true; now = 1000 }

abbrev pub free_world : World
free_world = record {
  lock_dir = [];
  swap_dir = [];
  config = ConfigFile.entries (("a", model_a) ∷ ("b", model_b) ∷ []);
  audit = [];
  machine = machine;
  tick = 0;
}

abbrev pub claim_a : Lockfile
claim_a = record { pid = 41; model = "a"; port = 8080; llauncher_pid = 7 }

-- Model `a` serves port 8080.
abbrev pub served_world : World
served_world = record free_world { lock_dir = (8080, valid claim_a) ∷ [] }

abbrev pub server_row : Row
server_row = record {
  pid = 41;
  name = codes "llama-server";
  cmdline = Argv.argv (codes "/usr/bin/llama-server" ∷ codes "--port" ∷ codes "8080" ∷ []);
}

-- Nobody else acts, and the child with pid 42 listens at once.
abbrev pub calm : Env
calm = record {
  own_pid = 7;
  acts = λ t. [];
  sight = λ t pid. Sight.running;
  table = λ t. server_row ∷ [];
  children = λ t pid. some [];
  fate = λ t pid. Fate.obeys;
  disk = λ t. Disk.fine;
  audit_writable = λ t. true;
  binary_path = codes "/usr/bin/llama-server";
  binary_exists = λ t. true;
  popen = λ t. some 42;
  exited = λ t pid. false;
  connects = λ t port. true;
  log_lines = λ t port model n. codes "main: server is listening" ∷ [];
  after_nap = λ t n. n + 1;
  rounds = 6;
  unlinks = λ t. true;
  opens = λ t port. true;
}

-- The same machine, where every new child exits at once.
abbrev pub broken : Env
broken = record calm { exited = λ t pid. true }

pub calm-Settled : (port : ℕ) → Settled calm port
unfolding meet
calm-Settled port v = record { meets = λ w h. h }

pub calm-Unchallenged : (port : ℕ) → Unchallenged calm port
unfolding meet
calm-Unchallenged port = record { meets = λ w h. h }

pub calm-Keyed : Stable calm Keyed
unfolding meet
calm-Keyed = record { meets = λ w h. h }

abbrev pub start_a : StartCall
start_a = record {
  model_name = "a";
  port = 8080;
  caller = "test";
  readiness_timeout = 5;
  model_health_check = none;
}

abbrev pub swap_to_b : SwapCall
swap_to_b = record {
  model_name = "b";
  port = 8080;
  caller = "test";
  readiness_timeout = 5;
  model_health_check = none;
  vram_check = none;
}
