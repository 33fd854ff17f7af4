-- ===== src/Core/LogRotation.antt =====
-- llauncher/core/log_rotation.py. The log is slot 0 of a directory, and `path.n` is slot n.
pub mod Shifted
use llauncher.Base.{
  ℕ, zero, suc, ◌+◌, Bool, true, false, Option, none, some, String, nat_eq, ltb, ◌==◌,
  if◌then◌else◌,
}
use llauncher.Base.Dict.{Dict, lookup, put, remove}

pub record Log : Type 0 where
  pub content : String
  pub size : ℕ

abbrev pub Slots : Type 0
Slots = Dict ℕ Log

-- `os.replace`
unfoldable pub replace : ℕ → ℕ → Slots → Slots
replace src dst d = elim (lookup src d) [ none ↦ d | some log ↦ put dst log (remove src d) ]

-- `works n` is whether the file system lets slot n be renamed or removed.
module _ (works : ℕ → Bool) (keep : ℕ) where
  -- One round of the loop, `none` where it returns `False`.
  unfoldable pub shift_slot : ℕ → Slots → Option Slots
  unfolding replace
  shift_slot n d = elim (lookup n d) [
    | none ↦ some d
    | some log ↦
        if works n then some (if n == keep then remove n d else replace n (n + 1) d) else none
  ]

  shift_next : (Slots → Bool × Slots) → Slots → Option Slots → Bool × Slots
  shift_next rest d none = (false, d)
  shift_next rest d (some d') = rest d'

  -- `for n in range(keep, 0, -1)`
  unfoldable pub shift_slots : ℕ → Slots → Bool × Slots
  unfolding shift_slot shift_next
  shift_slots zero d = (true, d)
  shift_slots (suc n) d = shift_next (shift_slots n) d (shift_slot (suc n) d)

  unfoldable pub move_live : Slots → Bool × Slots
  unfolding replace
  move_live d =
      if works 0 then (true, if keep == 0 then remove 0 d else replace 0 1 d) else (false, d)

  move_shifted : Bool × Slots → Bool × Slots
  unfolding move_live
  move_shifted (true, d) = move_live d
  move_shifted (false, d) = (false, d)

  rotate_log : (stat_works : Bool) → ℕ → Slots → Option Log → Bool × Slots
  unfolding shift_slots move_shifted
  rotate_log stat_works max_bytes d none = (false, d)
  rotate_log false max_bytes d (some log) = (false, d)
  rotate_log true max_bytes d (some log) =
      if ltb max_bytes log.size then move_shifted (shift_slots keep d) else (false, d)

  -- A number of bytes or of files below zero is 0 here, as the source treats both.
  unfoldable pub rotate_if_needed : Bool → ℕ → Slots → Bool × Slots
  unfolding rotate_log
  rotate_if_needed stat_works max_bytes d =
      if max_bytes == 0 then (false, d) else rotate_log stat_works max_bytes d (lookup 0 d)
