-- ===== src/Core/Config.antt =====
-- llauncher/core/config.py, `ConfigStore`: the registry of model configs in config.json.
pub mod Keyed
pub mod Migration
pub mod Load
use llauncher.Base.{not, Option, none, some, List, String, ◌==◌, string_eq, if◌then◌else◌}
use llauncher.Base.Dict.{Dict, lookup, put, remove, has_key}
use llauncher.Records.{ModelConfig, AuditAction, AuditResult, AuditEntry}
use llauncher.Host.{
  World, ConfigFile, absent, unreadable, malformed, entries, Disk, fine, no_directory, no_space,
  Exec, Exn, Result, ok, err, pure, raise, step, ◌>>=◌, ◌>>◌,
}
use llauncher.Core.AuditLog.{record_audit}

abbrev pub Registry : Type 0
Registry = Dict String ModelConfig

abbrev pub loaded : ConfigFile → Result Registry
loaded absent = ok List.[]
loaded unreadable = err Exn.os_error
loaded malformed = err Exn.json_error
loaded (entries d) = ok d

-- A file that is there and cannot be read is an error, never an empty registry.
unfoldable pub load : Exec Registry
load = step (λ e w. (loaded w.config, w))

-- The write to a temporary file and its `replace`.
unfoldable pub saved : Disk → Registry → World → Result (Unit {0}) × World
saved fine models w = (ok tt, record w { config = entries models })
saved no_directory models w = (err Exn.os_error, w)
saved no_space models w = (err Exn.os_error, w)

unfoldable pub save : Registry → Exec (Unit {0})
unfolding saved
save models = step (λ e w. saved (e.disk w.tick) models w)

abbrev model_entry : AuditAction → String → String → AuditEntry
model_entry action caller name = record {
  action = action;
  result = AuditResult.success;
  caller = caller;
  port = none;
  model = some name;
  from_model = none;
  pid = none;
}

unfoldable pub add_model : ModelConfig → String → Exec (Unit {0})
unfolding load save
add_model config caller = do
  models ← load
  save (put config.name config models)
  record_audit (model_entry AuditAction.model_added caller config.name)

unfoldable pub update_model : String → ModelConfig → String → Exec (Unit {0})
unfolding load save
update_model name config caller = if not (name == config.name) then raise Exn.value_error else do
  models ← load
  if has_key name models
      then (do
        save (put name config models)
        record_audit (model_entry AuditAction.model_updated caller name))
      else raise Exn.key_error

unfoldable pub remove_model : String → String → Exec (Unit {0})
unfolding load save
remove_model name caller = do
  models ← load
  if has_key name models
      then (do
        save (remove name models)
        record_audit (model_entry AuditAction.model_removed caller name))
      else pure tt

unfoldable pub get_model : String → Exec (Option ModelConfig)
unfolding load
get_model name = do models ← load; pure (lookup name models)
