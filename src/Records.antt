-- ===== src/Records.antt =====
-- The records that llauncher writes to its run directory, its audit log and its config:
-- llauncher/core/lockfile.py, core/marker.py, core/audit_log.py and models/config.py.
-- The texts that only people read (`message`) and the wall-clock stamps are left out.
use llauncher.Base.{ℕ, Bool, Option, String}

-- `kind` has one value. The constraints that pydantic checks are not stated.
pub record ModelConfig : Type 0 where
  pub name : String
  pub model_path : String
  pub mmproj_path : Option String
  pub n_gpu_layers : ℕ
  pub ctx_size : ℕ
  pub parallel : ℕ
  pub metrics : Bool
  pub slots : Bool
  pub extra_args : String

pub record Lockfile : Type 0 where
  pub pid : ℕ
  pub model : String
  pub port : ℕ
  pub llauncher_pid : ℕ

pub record SwapMarker : Type 0 where
  pub port : ℕ
  pub caller : String
  pub llauncher_pid : ℕ
  pub from_model : String
  pub to_model : String
  pub cancelled : Bool

-- A file of the run directory: its JSON parses to a record, or it does not.
pub data Claim (A : Type 0) : Type 0 where
  valid : A → Claim A
  corrupt : Claim A

pub data AuditAction : Type 0 where
  started stopped swapped model_added model_updated model_removed : AuditAction
  observed_stopped observed_orphan swap_aborted : AuditAction

pub data AuditResult : Type 0 where
  success error rejected_preflight rejected_in_progress rejected_occupied : AuditResult
  rejected_empty rejected_stop_failed rolled_back unavailable cancelled : AuditResult

pub record AuditEntry : Type 0 where
  pub action : AuditAction
  pub result : AuditResult
  pub caller : String
  pub port : Option ℕ
  pub model : Option String
  pub from_model : Option String
  pub pid : Option ℕ
