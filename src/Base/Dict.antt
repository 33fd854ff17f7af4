-- ===== src/Base/Dict.antt =====
-- A Python dict, in insertion order. `put` writes in place where the key is there.
use mathlib.Core.Path.{◌≡◌, refl}
use mathlib.Core.Bool.{Bool, true, false}
use mathlib.Core.Option.{Option, none, some}
use mathlib.Core.List.{List, [], ◌∷◌}
use native.Mathlib.Omega.{arith}
use llauncher.Base.Equality.{Eq, ◌==◌}
use llauncher.Base.Tests.{if◌then◌else◌, Bool-cases}
use mathlib.Core.Logic.{◌≢◌, ◌⊎◌, inl, inr}

abbrev pub Dict {ℓ κ} : Type ℓ → Type κ → Type (ℓ ⊔ κ)
Dict K V = List (K × V)

module _ {ℓ κ} {K : Type ℓ} {V : Type κ} ⦃e : Eq K⦄ where
  -- `d.get(k)`
  unfoldable pub lookup : K → Dict K V → Option V
  lookup k [] = none
  lookup k ((j, v) ∷ d) = if j == k then some v else lookup k d

  -- `d[k] = v`
  unfoldable pub put : K → V → Dict K V → Dict K V
  put k v [] = (k, v) ∷ []
  put k v ((j, w) ∷ d) = if j == k then (j, v) ∷ d else (j, w) ∷ put k v d

  -- `d.pop(k, None)`
  unfoldable pub remove : K → Dict K V → Dict K V
  remove k [] = []
  remove k ((j, v) ∷ d) = let rest = remove k d in if j == k then rest else (j, v) ∷ rest

  pub lookup-put :
      (k j : K) (v : V) (d : Dict K V)
      → lookup j (put k v d) ≡ (if k == j then some v else lookup j d)
  unfolding lookup put
  lookup-put k j v [] = refl
  lookup-put k j v ((i, w) ∷ d) =
      ground (arith, e.same_iff i k, e.same_iff i j, e.same_iff k j, lookup-put k j v d)

  pub lookup-remove :
      (k j : K) (d : Dict K V) → lookup j (remove k d) ≡ (if k == j then none else lookup j d)
  unfolding lookup remove
  lookup-remove k j [] = ground arith
  lookup-remove k j ((i, v) ∷ d) =
      ground (arith, e.same_iff i k, e.same_iff i j, e.same_iff k j, lookup-remove k j d)

  pub lookup-put_self : (k : K) (v : V) (d : Dict K V) → lookup k (put k v d) ≡ some v
  lookup-put_self k v d = ground (arith, lookup-put k k v d, e.same_iff k k)

  pub lookup-remove_self : (k : K) (d : Dict K V) → lookup k (remove k d) ≡ none
  lookup-remove_self k d = ground (arith, lookup-remove k k d, e.same_iff k k)

  -- Where an entry of a written dict comes from.
  pub put-cases :
      (k j : K) (v x : V) (d : Dict K V)
      → lookup j (put k v d) ≡ some x
      → ((k ≡ j) × (v ≡ x)) ⊎ ((k ≢ j) × (lookup j d ≡ some x))
  put-cases k j v x d h = elim (Bool-cases (k == j)) [
    | inl same ↦ inl ((e.same_iff k j).0 same, ground (arith, same, lookup-put k j v d, h))
    | inr apart ↦ inr (
      λ q. ground (arith, apart, (e.same_iff k j).1 q),
      ground (arith, apart, lookup-put k j v d, h),
    )
  ]

  pub remove-some :
      (k j : K) (x : V) (d : Dict K V)
      → lookup j (remove k d) ≡ some x
      → (k ≢ j) × (lookup j d ≡ some x)
  remove-some k j x d h = elim (Bool-cases (k == j)) [
    | inl same ↦ ground (arith, same, lookup-remove k j d, h)
    | inr apart ↦ (
      λ q. ground (arith, apart, (e.same_iff k j).1 q),
      ground (arith, apart, lookup-remove k j d, h),
    )
  ]

-- `k in d`
abbrev pub has_key {ℓ κ} : {K : Type ℓ} {V : Type κ} ⦃e : Eq K⦄ → K → Dict K V → Bool
has_key k d = elim (lookup k d) [ none ↦ false | some _ ↦ true ]

pub ruleset dict_laws = (lookup-put, lookup-remove)
