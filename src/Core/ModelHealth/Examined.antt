-- ===== src/Core/ModelHealth/Examined.antt =====
-- What an examined file is like, and that a forced check does not read the cache.
use llauncher.Base.{
  ℕ, ◌≡◌, refl, Bool, true, false, Option, none, some, leb, ltb, inl, inr, Bool-cases, arith,
}
use llauncher.Base.Text.{Text}
use llauncher.Core.ModelHealth.{
  Disk, Reason, not_found, HealthCache, resolve_shard_path, min_size_bytes, check_model_health,
  examine, remember, examine_head, examine_file, examine_path, examine_size,
}

-- A file that is there, opens, and has at least a mebibyte.
usable_file : Option Bool → Option ℕ → Option Text → Bool
usable_file (some true) (some size) (some head) = leb min_size_bytes size
usable_file _ _ _ = false

usable_at : Disk → Option Text → Bool
unfolding usable_file
usable_at disk none = false
usable_at disk (some path) = usable_file (disk.is_file path) (disk.size path) (disk.head path)

unfoldable pub usable : Disk → Text → Bool
unfolding usable_at
usable disk model_path = usable_at disk (disk.resolve (resolve_shard_path disk model_path))

is_absent : Option Bool → Bool
is_absent (some false) = true
is_absent _ = false

absent_at : Disk → Option Text → Bool
unfolding is_absent
absent_at disk none = false
absent_at disk (some path) = is_absent (disk.is_file path)

-- The path leads to no file.
unfoldable pub absent : Disk → Text → Bool
unfolding absent_at
absent disk model_path = absent_at disk (disk.resolve (resolve_shard_path disk model_path))

abbrev pub is_not_found : Option Reason → Bool
is_not_found (some not_found) = true
is_not_found _ = false

examine_head-valid :
    (size : Option ℕ) (head : Option Text)
    → (examine_head size head).valid ≡ usable_file (some true) size head
unfolding examine_head examine_size usable_file
examine_head-valid none none = refl
examine_head-valid (some n) none = refl
examine_head-valid none (some h) = refl
examine_head-valid (some n) (some h) = elim (Bool-cases (ltb n min_size_bytes)) [
  | inl b ↦ rw b (ground (arith, b))
  | inr b ↦ rw b (ground (arith, b))
]

examine_file-valid :
    (is_file : Option Bool) (disk : Disk) (path : Text)
    → (examine_file is_file disk path).valid ≡ usable_file is_file (disk.size path) (disk.head path)
unfolding examine_file usable_file
examine_file-valid none disk path = refl
examine_file-valid (some false) disk path = refl
examine_file-valid (some true) disk path = examine_head-valid (disk.size path) (disk.head path)

examine_path-valid :
    (o : Option Text) (disk : Disk) → (examine_path o disk).valid ≡ usable_at disk o
unfolding examine_path usable_at
examine_path-valid none disk = refl
examine_path-valid (some path) disk = examine_file-valid (disk.is_file path) disk path

pub examine-valid : (disk : Disk) (path : Text) → (examine disk path).valid ≡ usable disk path
unfolding examine usable
examine-valid disk path = examine_path-valid (disk.resolve (resolve_shard_path disk path)) disk

examine_size-reason : (size : Option ℕ) → is_not_found (examine_size size).reason ≡ false
unfolding examine_size
examine_size-reason none = refl
examine_size-reason (some n) = elim (Bool-cases (ltb n min_size_bytes)) [
  | inl b ↦ rw b refl
  | inr b ↦ rw b refl
]

examine_head-reason :
    (size : Option ℕ) (head : Option Text) → is_not_found (examine_head size head).reason ≡ false
unfolding examine_head
examine_head-reason size none = refl
examine_head-reason size (some head) = examine_size-reason size

examine_file-reason :
    (is_file : Option Bool) (disk : Disk) (path : Text)
    → is_not_found (examine_file is_file disk path).reason ≡ is_absent is_file
unfolding examine_file is_absent
examine_file-reason none disk path = refl
examine_file-reason (some false) disk path = refl
examine_file-reason (some true) disk path = examine_head-reason (disk.size path) (disk.head path)

examine_path-reason :
    (o : Option Text) (disk : Disk) → is_not_found (examine_path o disk).reason ≡ absent_at disk o
unfolding examine_path absent_at
examine_path-reason none disk = refl
examine_path-reason (some path) disk = examine_file-reason (disk.is_file path) disk path

pub examine-reason :
    (disk : Disk) (path : Text) → is_not_found (examine disk path).reason ≡ absent disk path
unfolding examine absent
examine-reason disk path = examine_path-reason (disk.resolve (resolve_shard_path disk path)) disk

pub check_model_health-forced :
    (disk : Disk) (now : ℕ) (path : Text) (c : HealthCache)
    → (check_model_health disk now path true c).0 ≡ examine disk path
unfolding check_model_health remember
check_model_health-forced disk now path c = refl
