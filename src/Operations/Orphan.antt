-- ===== src/Operations/Orphan.antt =====
-- llauncher/operations/orphan.py, and `refresh_orphans` of llauncher/state.py: the llama-servers that
-- no live claim names, and when the audit log says so. The scan of the processes is given.
pub mod Sighted
use llauncher.Base.{
  ℕ, Bool, true, false, not, ◌&&◌, ◌||◌, Option, none, some, List, [], ◌∷◌, ◌++◌, any, contains,
  leb, ◌==◌, nat_eq, if◌then◌else◌,
}
use llauncher.Records.{Lockfile, AuditAction, AuditResult, AuditEntry}
use llauncher.Host.{Exec, pure, ◌>>=◌, ◌>>◌}
use llauncher.Core.AuditLog.{record_audit}
use llauncher.Core.Lockfile.{read_lockfile, is_pid_alive}

-- A row of `discover_all`, and what is kept of it.
pub record OrphanInfo : Type 0 where
  pub pid : ℕ
  pub port : Option ℕ
  pub cmdline_unreadable : Bool

unclaimed : OrphanInfo → Option Lockfile → Exec Bool
unclaimed info none = pure true
unclaimed info (some claim) = do
  live ← is_pid_alive claim.pid
  pure (if live then not (claim.pid == info.pid) else true)

-- Whether a process is an orphan.
unfoldable pub is_orphan : OrphanInfo → Option ℕ → Bool → Exec Bool
unfolding unclaimed
is_orphan info port true = pure true
is_orphan info none false = pure true
is_orphan info (some port) false = do claim ← read_lockfile port; unclaimed info claim

abbrev by_pid : OrphanInfo → List OrphanInfo → List OrphanInfo
by_pid o [] = o ∷ []
by_pid o (p ∷ ps) = let rest = by_pid o ps in if leb o.pid p.pid then o ∷ p ∷ ps else p ∷ rest

unfoldable pub sort_orphans : List OrphanInfo → List OrphanInfo
sort_orphans [] = []
sort_orphans (o ∷ os) = by_pid o (sort_orphans os)

unfoldable pub find_orphans : List OrphanInfo → Exec (List OrphanInfo)
unfolding is_orphan
find_orphans [] = pure []
find_orphans (info ∷ infos) = do
  orphan ← is_orphan info info.port info.cmdline_unreadable
  rest ← find_orphans infos
  pure (if orphan then info ∷ rest else rest)

unfoldable pub list_orphans : List OrphanInfo → Exec (List OrphanInfo)
unfolding find_orphans sort_orphans
list_orphans scan = do found ← find_orphans scan; pure (sort_orphans found)

unfoldable pub record_observed_orphan : OrphanInfo → Exec (Unit {0})
record_observed_orphan orphan = record_audit (record {
  action = AuditAction.observed_orphan;
  result = AuditResult.success;
  caller = "reconcile";
  port = orphan.port;
  model = none;
  from_model = none;
  pid = some orphan.pid;
})

-- The two sets of pids that a `LauncherState` keeps between refreshes.
pub record Seen : Type 0 where
  pub observed : List ℕ
  pub warned : List ℕ

unfoldable pub warn : ℕ → Seen → Seen
warn pid seen =
    if contains pid seen.warned then seen else record seen { warned = pid ∷ seen.warned }

abbrev recorded_first : OrphanInfo → List OrphanInfo × Seen → List OrphanInfo × Seen
recorded_first orphan (recorded, seen) = (orphan ∷ recorded, seen)

-- The loop of a refresh: the orphans to record, in order, and the sets after.
unfoldable pub observe : List OrphanInfo → Seen → List OrphanInfo × Seen
unfolding warn
observe [] seen = ([], seen)
observe (orphan ∷ orphans) seen =
    let unreadable = observe orphans (warn orphan.pid seen) in
    let known = observe orphans seen in
    let added = observe orphans (record seen { observed = orphan.pid ∷ seen.observed }) in
    if orphan.cmdline_unreadable
    then unreadable
    else if contains orphan.pid seen.observed
    then known
    else recorded_first orphan added

abbrev pub in_scan : ℕ → List OrphanInfo → Bool
in_scan pid = any (λ orphan. orphan.pid == pid)

-- `pids &= current_pids`
unfoldable pub prune : List OrphanInfo → List ℕ → List ℕ
prune current [] = []
prune current (pid ∷ pids) =
    let rest = prune current pids in if in_scan pid current then pid ∷ rest else rest

abbrev pruned : List OrphanInfo → Seen → Seen
pruned current seen = record {
  observed = prune current seen.observed;
  warned = prune current seen.warned;
}

record_all : List OrphanInfo → Exec (Unit {0})
unfolding record_observed_orphan
record_all [] = pure tt
record_all (orphan ∷ orphans) = do record_observed_orphan orphan; record_all orphans

-- What a refresh records, and the sets that it leaves.
unfoldable pub observe_scan : List OrphanInfo → Seen → List OrphanInfo × Seen
unfolding observe prune
observe_scan current seen =
    let (recorded, after) = observe current seen in (recorded, pruned current after)

unfoldable pub refresh_orphans : List OrphanInfo → Seen → Exec (List OrphanInfo × Seen)
unfolding observe_scan record_all
refresh_orphans scan seen = do
  current ← list_orphans scan
  record_all (observe_scan current seen).0
  pure (current, (observe_scan current seen).1)
