-- ===== src/Core/Process/Roster/Agreed.antt =====
-- The walk and the look at one pid agree on what a llama-server is.
use llauncher.Base.{
  ℕ, ◌≡◌, refl, ap, ◌∙◌, Bool, true, false, ◌&&◌, Option, none, some, List, [], ◌∷◌, inl, inr,
  Bool-cases, if◌then◌else◌,
}
use llauncher.Base.Text.{Text}
use llauncher.Host.{Argv, argv_gone, argv_denied, argv, Row, Sight}
use llauncher.Core.Process.Scan.{is_cmdline_scan_candidate, is_llama_server}
use llauncher.Core.Process.Roster.{
  ServerProcessInfo, verify_pid, verify_argv, discover_argv, discover_all,
}

-- Whether the walk looks at a process: its name is a candidate, and its command line is there, and can
-- be read unless the name alone says what it is.
abbrev has_argv : Text → Text → Argv → Bool
has_argv path name argv_gone = false
has_argv path name argv_denied = is_llama_server path name []
has_argv path name (argv []) = false
has_argv path name (argv (a ∷ args)) = true

unfoldable pub is_visible : Text → Row → Bool
is_visible path row = is_cmdline_scan_candidate path row.name && has_argv path row.name row.cmdline

abbrev onto_list : Option ServerProcessInfo → List ServerProcessInfo → List ServerProcessInfo
onto_list none rest = rest
onto_list (some info) rest = info ∷ rest

module _ (path : Text) (to_int : Text → Option ℕ) (created : ℕ → Option ℕ) where
  -- What `verify_pid` says of each running process that the walk looks at.
  unfoldable pub verified : List Row → List ServerProcessInfo
  verified [] = []
  verified (row ∷ rows) =
      let rest = verified rows in
      if is_visible path row
      then onto_list
          (verify_pid path to_int created row.pid none Sight.running row.name row.cmdline) rest
      else rest

  discover_argv-verified :
      (pid : ℕ) (name : Text) (cmdline : Argv) (rest : List ServerProcessInfo)
      → discover_argv path to_int created pid name cmdline rest ≡ (
          if has_argv path name cmdline
          then onto_list (verify_argv path to_int created pid none name cmdline) rest
          else rest)
  unfolding discover_argv verify_argv
  discover_argv-verified pid name argv_gone rest = refl
  discover_argv-verified pid name argv_denied rest = refl
  discover_argv-verified pid name (argv []) rest = refl
  discover_argv-verified pid name (argv (a ∷ args)) rest =
      elim (Bool-cases (is_llama_server path name (a ∷ args))) [
        | inl b ↦ rw b refl
        | inr b ↦ rw b refl
      ]

  -- A walk over the process table lists, in the order of the table, exactly what `verify_pid` says of
  -- the running processes that it looks at: those whose name is a candidate, and whose command line
  -- is not empty and can be read, or whose name alone is that of a llama-server.
  pub discover_all-verified :
      (rows : List Row) → discover_all path to_int created rows ≡ verified rows
  unfolding discover_all verified is_visible verify_pid
  discover_all-verified [] = refl
  discover_all-verified (row ∷ rows) = elim (Bool-cases (is_cmdline_scan_candidate path row.name)) [
    | inl b ↦ rw b (
        ap (discover_argv path to_int created row.pid row.name row.cmdline)
          (discover_all-verified rows)
        ∙ discover_argv-verified row.pid row.name row.cmdline (verified rows))
    | inr b ↦ rw b (discover_all-verified rows)
  ]
