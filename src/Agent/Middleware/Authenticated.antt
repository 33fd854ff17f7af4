-- ===== src/Agent/Middleware/Authenticated.antt =====
-- Which requests get past the check of the API key.
use mathlib.Core.Option.{some-injective}
use llauncher.Base.{
  ==-eq, ==-self, Bool, Bool-cases, true, false, Option, none, some, contains, ◌≡◌, ◌↔◌, ◌⊎◌, inl,
  inr, refl, ap, arith,
}
use llauncher.Base.Text.{Text, text_eq}
use llauncher.Agent.Middleware.{
  auth_exempt_paths, is_ascii, compare_digest, passed, authenticate, dispatch, of_digest,
}

compare_digest-true :
    (a b : Text) → (compare_digest a b ≡ some true) ↔ ((a ≡ b) × (is_ascii b ≡ true))
unfolding compare_digest
compare_digest-true a b = (
  λ h. (==-eq a b (ground (arith, h)), ground (arith, h)),
  λ h. let (same, ascii) = h in rw (same, ascii) (ap some (==-self b)),
)

of_digest-passed : (o : Option Bool) → of_digest o ≡ passed → o ≡ some true
unfolding of_digest
of_digest-passed none h = ground (arith, h)
of_digest-passed (some true) h = refl
of_digest-passed (some false) h = ground (arith, h)

authenticate-passed :
    (expected : Text) (api_key : Option Text)
    → (authenticate expected api_key ≡ passed)
      ↔ ((api_key ≡ some expected) × (is_ascii expected ≡ true))
unfolding authenticate of_digest
authenticate-passed expected none = (λ h. ground (arith, h), λ h. ground (arith, h))
authenticate-passed expected (some key) = (
  λ h.
      let found =
        (compare_digest-true key expected).0 (of_digest-passed (compare_digest key expected) h) in
      (ap some found.0, found.1),
  λ h.
      let same = some-injective key expected h.0 in
      ap of_digest ((compare_digest-true key expected).1 (same, h.1)),
)

-- A request reaches the next handler exactly if its path is one of the four that are open to all, or
-- its `X-Api-Key` is the token that is expected, which then is ASCII.
pub dispatch-passed :
    (expected path : Text) (api_key : Option Text)
    → (dispatch expected path api_key ≡ passed) ↔ (
        (contains path auth_exempt_paths ≡ true)
        ⊎ ((api_key ≡ some expected) × (is_ascii expected ≡ true)))
unfolding dispatch
dispatch-passed expected path api_key = elim (Bool-cases (contains path auth_exempt_paths)) [
  | inl b ↦ rw b (λ h. inl refl, λ h. refl)
  | inr b ↦ rw b (
    λ h. inr ((authenticate-passed expected api_key).0 h),
    λ h. elim h [ inl x ↦ ground (arith, x) | inr x ↦ (authenticate-passed expected api_key).1 x ],
  )
]
