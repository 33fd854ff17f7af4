-- ===== src/Core/Process/Ports.antt =====
-- llauncher/core/process.py: which ports are in use, and the choice of a free one. What psutil lists
-- of the sockets is given (`none` where it may not), and so is whether a bind succeeds.
pub mod Chosen
use llauncher.Base.{
  ℕ, zero, suc, ◌+◌, ◌-◌, Bool, true, false, not, ◌&&◌, ◌||◌, Option, none, some, List, [], ◌∷◌,
  contains, ◌==◌, nat_eq, if◌then◌else◌,
}

-- A row of `psutil.net_connections(kind="tcp")`.
pub record Socket : Type 0 where
  pub listens : Bool
  pub local_port : Option ℕ

abbrev listened : Bool → Option ℕ → List ℕ → List ℕ
listened true (some port) ports = port ∷ ports
listened _ _ ports = ports

ports_of : List Socket → List ℕ
ports_of [] = []
ports_of (s ∷ sockets) = listened s.listens s.local_port (ports_of sockets)

unfoldable pub listening_ports : Option (List Socket) → Option (List ℕ)
unfolding ports_of
listening_ports none = none
listening_ports (some sockets) = some (ports_of sockets)

module _ (sockets : Option (List Socket)) (can_bind : ℕ → Bool) where
  -- Any `OSError` of the bind counts as in use.
  unfoldable pub bind_probe_port_in_use : ℕ → Bool
  bind_probe_port_in_use port = not (can_bind port)

  in_use_of : Option (List ℕ) → ℕ → Bool
  unfolding bind_probe_port_in_use
  in_use_of none port = bind_probe_port_in_use port
  in_use_of (some ports) port = contains port ports

  unfoldable pub is_port_in_use : ℕ → Bool
  unfolding in_use_of
  is_port_in_use port = in_use_of (listening_ports sockets) port

  module _ (blacklisted : List ℕ) where
    is_preferred : Option ℕ → ℕ → Bool
    is_preferred none port = false
    is_preferred (some preferred) port = port == preferred

    -- The scan of `count` ports from `port` on.
    unfoldable pub scan_ports : Option ℕ → ℕ → ℕ → Bool × ℕ
    unfolding is_preferred is_port_in_use
    scan_ports preferred port zero = (false, 0)
    scan_ports preferred port (suc count) =
        let rest = scan_ports preferred (port + 1) count in
        if contains port blacklisted
        then rest
        else if is_preferred preferred port
        then rest
        else if not (is_port_in_use port)
        then (true, port)
        else rest

    abbrev pub first_port : ℕ → Option ℕ → ℕ
    first_port default_port none = default_port
    first_port default_port (some start) = start

    -- `range(start, end + 1)`
    abbrev scan_range : Option ℕ → ℕ → ℕ → Bool × ℕ
    scan_range preferred start last_port = scan_ports preferred start (last_port + 1 - start)

    -- Whether there is a port, and which. `default_port` is the one of the settings.
    unfoldable pub find_available_port : ℕ → Option ℕ → Option ℕ → ℕ → Bool × ℕ
    unfolding scan_ports is_port_in_use
    find_available_port default_port none start last_port =
        scan_range none (first_port default_port start) last_port
    find_available_port default_port (some preferred) start last_port =
        if not (is_port_in_use preferred) && not (contains preferred blacklisted)
        then (true, preferred)
        else scan_range (some preferred) (first_port default_port start) last_port
