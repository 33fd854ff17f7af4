-- ===== src/Operations/Preflight/Vram.antt =====
-- llauncher/operations/preflight.py: the check that a GPU has room for a model. Digits are ASCII. The
-- numbers are exact, as the floats are for sizes below 2 ^ 53 whose fraction has few digits. What
-- `GPUHealthCollector.get_health` gives is an argument.
use llauncher.Base.{
  ℕ, ◌+◌, ◌*◌, ◌-◌, Bool, true, false, ◌&&◌, ◌||◌, not, Option, none, some, List, [], ◌∷◌, ◌++◌,
  leb, ltb, nat_eq, ◌==◌, if◌then◌else◌, ◌≡◌, inl, inr, arith, refl, any, Bool-cases, sym,
}
use Prim.Native.Nat.{◌/◌}
use llauncher.Base.Text.{Text, codes}
use llauncher.Base.Lines.{lstrip}
use llauncher.Records.{ModelConfig}

-- What is known of the GPUs: the backends that were found, and the free memory that each device
-- reports, in MiB.
pub record Health : Type 0 where
  pub backends : List Text
  pub free_vram_mb : List (Option ℕ)

abbrev pub is_digit : ℕ → Bool
is_digit c = leb b'0' c && leb c b'9'

-- The digits at the front of a text, and what follows them.
abbrev onto_digits : ℕ → Text × Text → Text × Text
onto_digits c (digits, s) = (c ∷ digits, s)

unfoldable pub split_digits : Text → Text × Text
split_digits [] = ([], [])
split_digits (c ∷ s) =
    let rest = split_digits s in if is_digit c then onto_digits c rest else ([], c ∷ s)

after_point : Text → Text × Text
unfolding split_digits
after_point [] = ([], [])
after_point (c ∷ s) = if c == b'.' then split_digits s else ([], c ∷ s)

abbrev starts_with_b : Text → Bool
starts_with_b [] = false
starts_with_b (c ∷ s) = c == b'b' || c == b'B'

-- `(\d+\.?\d*)\s*[bB]` at a digit: the digits before and after the point.
unfoldable pub match_size : Text → Option (Text × Text)
unfolding lstrip split_digits after_point
match_size s =
    let whole = split_digits s in
    let fraction = after_point whole.1 in
    if starts_with_b (lstrip fraction.1) then some (whole.0, fraction.0) else none

search_next : Option (Text × Text) → Option (Text × Text) → Option (Text × Text)
search_next none later = later
search_next (some found) later = some found

-- `re.search(r"(?<!\d)(\d+\.?\d*)\s*[bB]", s)`, with whether a digit stands before the text
unfoldable pub search_size : Bool → Text → Option (Text × Text)
unfolding match_size search_next
search_size after_digit [] = none
search_size after_digit (c ∷ s) =
    let later = search_size (is_digit c) s in
    if is_digit c && not after_digit then search_next (match_size (c ∷ s)) later else later

abbrev pub digits_value : ℕ → Text → ℕ
digits_value n [] = n
digits_value n (c ∷ s) = digits_value (n * 10 + (c - b'0')) s

abbrev ten_to : Text → ℕ
ten_to [] = 1
ten_to (c ∷ s) = 10 * ten_to s

abbrev vram_mb_per_b_params : ℕ
vram_mb_per_b_params = 1024

abbrev typical_max_layers : ℕ
typical_max_layers = 32

-- `int(params_billion * VRAM_MB_PER_B_PARAMS)`
abbrev base_mb : Option (Text × Text) → ℕ
base_mb none = 7 * vram_mb_per_b_params
base_mb (some (whole, fraction)) =
    digits_value 0 (whole ++ fraction) * vram_mb_per_b_params / ten_to fraction

unfoldable pub estimate_vram_mb : ModelConfig → ℕ
unfolding search_size
estimate_vram_mb config =
    let base = base_mb (search_size false (codes config.model_path ++ b' ' ∷ codes config.name)) in
    if ltb config.n_gpu_layers typical_max_layers
    then base * config.n_gpu_layers / typical_max_layers
    else base

-- `all(v is None for v in values)`
abbrev all_none : List (Option ℕ) → Bool
all_none [] = true
all_none (none ∷ values) = all_none values
all_none (some v ∷ values) = false

abbrev or_zero : Option ℕ → ℕ
or_zero none = 0
or_zero (some v) = v

-- `max(int(v or 0) for v in values)`
unfoldable pub best_free : List (Option ℕ) → ℕ
best_free [] = 0
best_free (v ∷ values) =
    let rest = best_free values in if leb rest (or_zero v) then or_zero v else rest

abbrev pub is_empty : {A : Type 0} → List A → Bool
is_empty [] = true
is_empty (a ∷ l) = false

-- Whether the check passes. `all` over no devices is true, so the two refusals are one.
unfoldable pub default_vram_check : Health → ModelConfig → Bool
unfolding best_free estimate_vram_mb
default_vram_check health config =
    if is_empty health.backends
    then true
    else if is_empty health.free_vram_mb
    then false
    else if all_none health.free_vram_mb
    then false
    else leb (estimate_vram_mb config) (best_free health.free_vram_mb)

abbrev pub has_room : ℕ → Option ℕ → Bool
has_room required none = false
has_room required (some free) = leb required free

best_free-all_none : (values : List (Option ℕ)) → all_none values ≡ true → best_free values ≡ 0
unfolding best_free
best_free-all_none [] h = refl
best_free-all_none (none ∷ values) h = ground (arith, best_free-all_none values h)
best_free-all_none (some v ∷ values) h = ground (arith, h)

any-all_none :
    (n : ℕ) (values : List (Option ℕ)) → all_none values ≡ true → any (has_room n) values ≡ false
any-all_none n [] h = refl
any-all_none n (none ∷ values) h = any-all_none n values h
any-all_none n (some v ∷ values) h = ground (arith, h)

leb-best_free :
    (n : ℕ) (values : List (Option ℕ))
    → all_none values ≡ false
    → leb n (best_free values) ≡ any (has_room n) values
unfolding best_free
leb-best_free n [] h = ground (arith, h)
leb-best_free n (none ∷ values) h = ground (arith, leb-best_free n values h)
leb-best_free n (some v ∷ values) h = elim (Bool-cases (all_none values)) [
  | inl b ↦ ground (arith, best_free-all_none values b, any-all_none n values b)
  | inr b ↦ ground (arith, leb-best_free n values b)
]

headroom :
    (n : ℕ) (values : List (Option ℕ))
    → (if is_empty values
        then false
        else if all_none values
        then false
        else leb n (best_free values))
      ≡ any (has_room n) values
headroom n [] = refl
headroom n (v ∷ values) = elim (Bool-cases (all_none (v ∷ values))) [
  | inl b ↦ rw b (sym (any-all_none n (v ∷ values) b))
  | inr b ↦ rw b (leb-best_free n (v ∷ values) b)
]

-- The check passes exactly if no backend was found, or a device reports at least the memory that the
-- model is estimated to take. Devices without a number never make it pass.
pub default_vram_check_lem :
    (health : Health) (config : ModelConfig)
    → default_vram_check health config
      ≡ (is_empty health.backends || any (has_room (estimate_vram_mb config)) health.free_vram_mb)
unfolding default_vram_check
default_vram_check_lem health config = elim (Bool-cases (is_empty health.backends)) [
  | inl b ↦ rw b refl
  | inr b ↦ rw b (headroom (estimate_vram_mb config) health.free_vram_mb)
]
