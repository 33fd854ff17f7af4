-- ===== src/Core/Process/Stop/Denied.antt =====
-- The only exception of `stop_server_by_pid` is `AccessDenied`.
use llauncher.Base.{ℕ, ◌≡◌, refl}
use llauncher.Host.{World, Env, Machine, Sight, Fate, Exn}
use llauncher.Host.Hoare.{Hoare}
use llauncher.Host.Framed.{Framed, Raises, Hoare-on_machine}
use llauncher.Core.Process.Stop.{
  Family, stop_main, stop_tree, stop_seen, stop_step, stop_server_by_pid, family,
}

abbrev pub IsDenied : Exn → Type 0
IsDenied x = x ≡ Exn.access_denied

stop_main-IsDenied :
    (pid : ℕ) (fate : Fate) (m : Machine) → Raises IsDenied (stop_main pid fate m).0
unfolding stop_main
stop_main-IsDenied pid Fate.fate_gone m = tt
stop_main-IsDenied pid Fate.fate_denied m = refl
stop_main-IsDenied pid Fate.obeys m = tt
stop_main-IsDenied pid Fate.outlives m = tt

stop_tree-IsDenied :
    (pid : ℕ) (fate : Fate) (fam : Family) (m : Machine)
    → Raises IsDenied (stop_tree pid fate fam m).0
unfolding stop_tree
stop_tree-IsDenied pid fate (Family.done l) m = stop_main-IsDenied pid fate _
stop_tree-IsDenied pid fate (Family.vanished l) m = stop_main-IsDenied pid fate _
stop_tree-IsDenied pid fate (Family.refused l) m = refl

stop_seen-IsDenied :
    (s : Sight) (pid : ℕ) (fate : Fate) (fam : Family) (m : Machine)
    → Raises IsDenied (stop_seen s pid fate fam m).0
unfolding stop_seen
stop_seen-IsDenied Sight.gone pid fate fam m = tt
stop_seen-IsDenied Sight.zombie pid fate fam m = stop_tree-IsDenied pid fate fam m
stop_seen-IsDenied Sight.denied pid fate fam m = stop_tree-IsDenied pid fate fam m
stop_seen-IsDenied Sight.running pid fate fam m = stop_tree-IsDenied pid fate fam m

pub Hoare-stop_server_by_pid :
    {e : Env} {P : World → Type 0}
    → Framed e P
    → (pid : ℕ) → Hoare e P (stop_server_by_pid pid) (λ _. P) (λ x w. IsDenied x × P w)
unfolding stop_server_by_pid
Hoare-stop_server_by_pid {e} fr pid = Hoare-on_machine IsDenied (stop_step pid) fr (λ t m.
    stop_seen-IsDenied (e.sight t pid) pid (e.fate t pid) (family (e.fate t) (e.children t pid)) m)
