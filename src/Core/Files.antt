-- ===== src/Core/Files.antt =====
-- What the lockfiles and the swap markers share: a directory of small files, one for each port.
use llauncher.Base.{ℕ, Option, none, some, nat_eq, if◌then◌else◌}
use llauncher.Base.Dict.{Dict, put, has_key}
use llauncher.Records.{Claim, valid, corrupt}
use llauncher.Host.{Disk, fine, no_directory, no_space, Exn, Result, ok, err}

module _ {A : Type 0} where
  -- `mkdir`, then `os.open(path, O_CREAT | O_EXCL)`, then the write. A write that fails removes
  -- the file again.
  abbrev pub create_excl : Disk → ℕ → A → Dict ℕ (Claim A) → Result (Dict ℕ (Claim A))
  create_excl no_directory port a d = err Exn.os_error
  create_excl no_space port a d = if has_key port d then err Exn.file_exists else err Exn.os_error
  create_excl fine port a d =
      if has_key port d then err Exn.file_exists else ok (put port (valid a) d)

  -- The record in a file, `None` for one that is absent or corrupt.
  abbrev pub parsed : Option (Claim A) → Option A
  parsed (some (valid a)) = some a
  parsed (some corrupt) = none
  parsed none = none
