-- ===== src/Operations/Validate/Gated.antt =====
-- What decides whether a model is good, and what its status says.
use llauncher.Base.{
  ℕ, ◌≡◌, refl, ◌&&◌, ◌||◌, not, Bool, true, false, Option, none, some, List, [], ◌∷◌, ◌++◌, ◌==◌,
  inl, inr, Bool-cases, arith, if◌then◌else◌, ap, ◌∙◌,
}
use mathlib.Core.Option.{some-injective}
use mathlib.Core.Path.{subst}
use llauncher.Base.Text.{Text, codes, text_eq, lower}
use llauncher.Records.{ModelConfig, Lockfile}
use llauncher.Core.ModelHealth.Examined.{usable, examine-valid, check_model_health-forced}
use llauncher.Core.ModelHealth.{
  Reason, Disk, HealthCache, suffix, check_model_health, ModelHealthResult,
}
use llauncher.Operations.Validate.{
  Status, status_ok, stale_lock, vram_unknown, Check, weights, gguf_magic, vram, lockfile,
  failed_status, weights_status, advisory_status, gating_status, status_of, validate_found,
  validate_one, ModelValidation, validation, alive, weights_of, resolved_path_of, vram_verdict,
  listed, Sight, gate, gguf_magic_verdict, vram_verdicts, running_port_and_lockfile_verdict,
  ValidationVerdict, weights_verdict, magic_of, Scene,
}

starts_with_magic : Option Text → Bool
starts_with_magic none = false
starts_with_magic (some head) = head == codes "GGUF"

-- A file that is there and is called .gguf starts with the magic bytes.
unfoldable pub genuine : Disk → Text → Bool → Bool
unfolding starts_with_magic
genuine disk path exists =
    not exists || not (lower (suffix path) == codes ".gguf") || starts_with_magic (disk.head path)

weights_of-gate :
    (r : ModelHealthResult × HealthCache) (rest : List ValidationVerdict)
    → gate ((weights_of r).0 ∷ rest) ≡ (r.0.valid && gate rest)
unfolding weights_of
weights_of-gate (result, c) rest = refl

weights_verdict-gate :
    (scene : Scene) (config : ModelConfig) (c : HealthCache) (rest : List ValidationVerdict)
    → gate ((weights_verdict scene true config c).0 ∷ rest)
      ≡ (usable scene.disk (codes config.model_path) && gate rest)
unfolding weights_verdict
weights_verdict-gate scene config c rest =
    weights_of-gate (check_model_health scene.disk scene.now (codes config.model_path) true c) rest
    ∙ ap (λ b. b && gate rest)
        (ap (λ r. r.valid)
            (check_model_health-forced scene.disk scene.now (codes config.model_path) c)
          ∙ examine-valid scene.disk (codes config.model_path))

all-append : (xs ys : List ValidationVerdict) → gate (xs ++ ys) ≡ (gate xs && gate ys)
all-append [] ys = refl
all-append (x ∷ xs) ys = ground (arith, all-append xs ys)

genuine-read :
    (exists : Bool) (head : Option Text)
    → gate (listed (if exists then some (magic_of head) else none))
      ≡ (not exists || false || starts_with_magic head)
unfolding magic_of starts_with_magic
genuine-read false head = refl
genuine-read true none = refl
genuine-read true (some head) = elim (Bool-cases (head == codes "GGUF")) [
  | inl b ↦ rw b refl
  | inr b ↦ rw b refl
]

genuine-unread : (exists b : Bool) → true ≡ (not exists || true || b)
genuine-unread false b = refl
genuine-unread true b = refl

gate-magic :
    (disk : Disk) (path : Text) (exists : Bool)
    → gate (listed (gguf_magic_verdict disk path exists)) ≡ genuine disk path exists
unfolding gguf_magic_verdict genuine
gate-magic disk path exists = elim (Bool-cases (lower (suffix path) == codes ".gguf")) [
  | inl b ↦ rw b (genuine-read exists (disk.head path))
  | inr b ↦ rw b (genuine-unread exists (starts_with_magic (disk.head path)))
]

gate-vram :
    (with_vram : Bool) (port : Option ℕ) (scene : Scene) (config : ModelConfig)
    → gate (vram_verdicts with_vram port scene config) ≡ true
unfolding vram_verdicts vram_verdict
gate-vram false port scene config = refl
gate-vram true (some p) scene config = refl
gate-vram true none scene config = refl

gate-lockfile :
    (sight : ℕ → Sight) (name : Text) (locks : List Lockfile)
    → gate (listed (running_port_and_lockfile_verdict sight name locks).1) ≡ true
unfolding running_port_and_lockfile_verdict
gate-lockfile sight name [] = refl
gate-lockfile sight name (lock ∷ locks) = elim (Bool-cases (codes lock.model == name)) [
  | inl b ↦
      rw b (elim (Bool-cases (alive (sight lock.pid))) [ inl l ↦ rw l refl | inr l ↦ rw l refl ])
  | inr b ↦ rw b (gate-lockfile sight name locks)
]

-- The verdicts after the first.
abbrev others : Scene → Bool → Text → ModelConfig → Bool → List ValidationVerdict
others scene with_vram name config exists =
    let running = running_port_and_lockfile_verdict scene.sight name scene.lockfiles in
    listed (gguf_magic_verdict scene.disk (resolved_path_of scene.disk config) exists)
    ++ (vram_verdicts with_vram running.0 scene config ++ listed running.1)

gate-others :
    (scene : Scene) (with_vram : Bool) (name : Text) (config : ModelConfig) (exists : Bool)
    → gate (others scene with_vram name config exists)
      ≡ genuine scene.disk (resolved_path_of scene.disk config) exists
gate-others scene with_vram name config exists =
    let path = resolved_path_of scene.disk config in
    let running = running_port_and_lockfile_verdict scene.sight name scene.lockfiles in
    let m = listed (gguf_magic_verdict scene.disk path exists) in
    let v = vram_verdicts with_vram running.0 scene config in
    ground (
      arith,
      all-append m (v ++ listed running.1),
      all-append v (listed running.1),
      gate-magic scene.disk path exists,
      gate-vram with_vram running.0 scene config,
      gate-lockfile scene.sight name scene.lockfiles,
    )

validation-ok :
    (scene : Scene) (with_vram : Bool) (name : Text) (config : ModelConfig) (exists : Bool)
    (c : HealthCache)
    → (validation scene with_vram name config exists (weights_verdict scene true config c).0).ok ≡ (
        usable scene.disk (codes config.model_path)
        && genuine scene.disk (resolved_path_of scene.disk config) exists)
unfolding validation
validation-ok scene with_vram name config exists c =
    weights_verdict-gate scene config c (others scene with_vram name config exists)
    ∙ ap (λ b. usable scene.disk (codes config.model_path) && b)
        (gate-others scene with_vram name config exists)

validated_exists :
    (scene : Scene) (with_vram : Bool) (name : Text) (config : ModelConfig) (exists : Bool)
    (c : HealthCache)
    → (validation scene with_vram name config exists (weights_verdict scene true config c).0).ok ≡ (
        usable scene.disk (codes config.model_path)
        && genuine scene.disk
            (resolved_path_of scene.disk config)
            (validation scene with_vram name config exists
              (weights_verdict scene true config c).0).exists)
unfolding validation
validated_exists = validation-ok

-- A status that does not stand for a failure.
abbrev pub is_healthy : Status → Bool
is_healthy status_ok = true
is_healthy stale_lock = true
is_healthy vram_unknown = true
is_healthy _ = false

failed_status-unhealthy :
    (check : Check) (reason : Option Reason) → is_healthy (failed_status check reason) ≡ false
unfolding failed_status weights_status
failed_status-unhealthy gguf_magic reason = refl
failed_status-unhealthy vram reason = refl
failed_status-unhealthy lockfile reason = refl
failed_status-unhealthy weights none = refl
failed_status-unhealthy weights (some Reason.not_found) = refl
failed_status-unhealthy weights (some Reason.unreadable) = refl
failed_status-unhealthy weights (some Reason.too_small) = refl
failed_status-unhealthy weights (some Reason.raised) = refl
failed_status-unhealthy weights (some Reason.bad_magic) = refl
failed_status-unhealthy weights (some Reason.stale_lock) = refl
failed_status-unhealthy weights (some Reason.no_headroom) = refl

-- What an advisory makes of the status of the advisories after it.
advisory-healthy :
    (check : Check) (rest : Status)
    → is_healthy rest ≡ true
    → is_healthy (elim check [ lockfile ↦ stale_lock | vram ↦ vram_unknown | _ ↦ rest ]) ≡ true
advisory-healthy weights rest h = h
advisory-healthy gguf_magic rest h = h
advisory-healthy vram rest h = refl
advisory-healthy lockfile rest h = refl

advisory_status-healthy :
    (verdicts : List ValidationVerdict) → is_healthy (advisory_status verdicts) ≡ true
unfolding advisory_status
advisory_status-healthy [] = refl
advisory_status-healthy (v ∷ verdicts) = elim (Bool-cases (v.ok || not v.advisory)) [
  | inl b ↦ rw b (advisory_status-healthy verdicts)
  | inr b ↦
      rw b (advisory-healthy v.check (advisory_status verdicts) (advisory_status-healthy verdicts))
]

gating_status-healthy :
    (verdicts : List ValidationVerdict) (later : Status)
    → is_healthy later ≡ true
    → is_healthy (gating_status verdicts later) ≡ gate verdicts
unfolding gating_status
gating_status-healthy [] later h = h
gating_status-healthy (v ∷ verdicts) later h =
    ground (arith, failed_status-unhealthy v.check v.reason, gating_status-healthy verdicts later h)

-- The status of a validation that was made says the same as `ok`.
status_of-healthy :
    (scene : Scene) (with_vram : Bool) (name : Text) (config : ModelConfig) (exists : Bool)
    (first : ValidationVerdict)
    → is_healthy (status_of (validation scene with_vram name config exists first))
      ≡ (validation scene with_vram name config exists first).ok
unfolding status_of validation
status_of-healthy scene with_vram name config exists first =
    let verdicts = first ∷ others scene with_vram name config exists in
    gating_status-healthy verdicts (advisory_status verdicts) (advisory_status-healthy verdicts)

validate_found-ok :
    (scene : Scene) (with_vram : Bool) (name : Text) (config : ModelConfig) (c : HealthCache)
    (found : Option Bool) (v : ModelValidation)
    → (validate_found scene with_vram name config c found).0 ≡ some v
    → (v.ok ≡ (
        usable scene.disk (codes config.model_path)
        && genuine scene.disk (resolved_path_of scene.disk config) v.exists))
      × (is_healthy (status_of v) ≡ v.ok)
unfolding validate_found
validate_found-ok scene with_vram name config c none v h = ground (arith, h)
validate_found-ok scene with_vram name config c (some exists) v h =
    let made =
      validation scene with_vram name config exists (weights_verdict scene true config c).0 in
    let same = some-injective made v h in
    subst
      (λ w.
        (w.ok ≡ (
          usable scene.disk (codes config.model_path)
          && genuine scene.disk (resolved_path_of scene.disk config) w.exists))
        × (is_healthy (status_of w) ≡ w.ok))
      same
      (
        validated_exists scene with_vram name config exists c,
        status_of-healthy scene with_vram name config exists
            (weights_verdict scene true config c).0,
      )

-- Whatever the cache of the health checks, the lockfiles and the collector say, and with or without
-- the check of the GPU's memory, a model is reported good exactly if the path of its weights leads to
-- a file that is there now, opens, and has at least a mebibyte, and that starts with the magic bytes
-- if it is called .gguf. Its status says OK, STALE_LOCK or VRAM? exactly if it is good.
pub validate_one-ok :
    (scene : Scene) (with_vram : Bool) (name : Text) (config : ModelConfig) (c : HealthCache)
    (v : ModelValidation)
    → (validate_one scene with_vram name config c).0 ≡ some v
    → (v.ok ≡ (
        usable scene.disk (codes config.model_path)
        && genuine scene.disk (resolved_path_of scene.disk config) v.exists))
      × (is_healthy (status_of v) ≡ v.ok)
unfolding validate_one
validate_one-ok scene with_vram name config c v h =
    validate_found-ok scene with_vram name config c
      (scene.disk.exists (resolved_path_of scene.disk config)) v h
