-- ===== src/Core/Process/Command/Allowed.antt =====
-- What `build_command` lets through of a model's extra arguments.
use llauncher.Base.{
  sym, ℕ, Bool, true, false, Option, none, some, List, [], ◌++◌, any, ◌==◌, string_eq, ◌≡◌, refl,
  if◌then◌else◌,
}
use mathlib.Core.Path.{subst}
use mathlib.Core.List.{append-nil}
use llauncher.Base.Text.{Text, codes}
use llauncher.Records.{ModelConfig}
use llauncher.Host.{Exn, Result, ok, err}
use llauncher.Core.Process.Command.{
  managed_args, is_denied, check_extra_args_deny_list, extra_tokens, extended, build_command, split,
}

-- A command is the launcher's own arguments and then extra ones, none of which is denied.
pub record IsAllowed (server_bin : Text) (config : ModelConfig) (port : ℕ) (cmd : List Text)
    : Type 0 where
  pub extras : List Text
  pub in_order : cmd ≡ managed_args server_bin config port ++ extras
  pub harmless : any is_denied extras ≡ false

module _ (server_bin : Text) (config : ModelConfig) (port : ℕ) where
  abbrev Allows : Result (List Text) → Type 0
  Allows (ok cmd) = IsAllowed server_bin config port cmd
  Allows (err x) = Unit {0}

  abbrev managed : List Text
  managed = managed_args server_bin config port

  checked-Allows :
      (tokens : List Text) (b : Bool)
      → any is_denied tokens ≡ b
      → Allows (extended managed (if b then err Exn.extra_args_error else ok tokens))
  unfolding extended
  checked-Allows tokens true h = tt
  checked-Allows tokens false h = record { extras = tokens; in_order = refl; harmless = h }

  tokens-Allows : (found : Option (List Text)) → Allows (extended managed (extra_tokens found))
  unfolding extra_tokens check_extra_args_deny_list extended
  tokens-Allows none = tt
  tokens-Allows (some tokens) = checked-Allows tokens (any is_denied tokens) refl

  build-Allows :
      (b : Bool) (found : Option (List Text))
      → Allows (if b then ok managed else extended managed (extra_tokens found))
  build-Allows true found = record {
    extras = [];
    in_order = sym (append-nil managed);
    harmless = refl;
  }
  build-Allows false found = tokens-Allows found

-- A command that `build_command` returns is the launcher's own arguments, in their order, and then
-- tokens of which none is one of the nine denied spellings, be it bare or with `=` and a value. Other
-- spellings of the same options, such as `-a` and `--api-key-file`, are not denied.
pub build_command-IsAllowed :
    (server_bin : Text) (config : ModelConfig) (port : ℕ) {cmd : List Text}
    → build_command server_bin config port ≡ ok cmd
    → IsAllowed server_bin config port cmd
unfolding build_command
build_command-IsAllowed server_bin config port h = subst (Allows server_bin config port) h (
    build-Allows server_bin config port (config.extra_args == "") (split (codes config.extra_args)))
