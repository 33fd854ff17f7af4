-- ===== src/Base/Equality.antt =====
-- Equality tests by instances: one `==` for the numbers and the texts that the program compares.
use Prim.Native.Nat.{ℕ}
use Prim.Native.String.{String}
use mathlib.Core.Path.{◌≡◌, refl}
use mathlib.Core.Logic.{◌↔◌}
use mathlib.Core.Bool.{Bool, true}
use text.Mathlib.Text.{◌==◌ as text_same}
use text.Mathlib.TextEquality.{eq_iff as text_same_iff}
use llauncher.Base.Tests.{nat_beq, nat_beq_iff}

-- A test, and that it decides the paths.
pub record Eq {ℓ} (K : Type ℓ) : Type ℓ where
  pub same : K → K → Bool
  pub same_iff : (j k : K) → (same j k ≡ true) ↔ (j ≡ k)

instance abbrev pub string_eq : Eq String
string_eq = record { same_iff = text_same_iff; same = text_same }

module _ {ℓ} {K : Type ℓ} ⦃e : Eq K⦄ where
  infix 50 ◌==◌
  abbrev pub ◌==◌ : K → K → Bool
  j == k = e.same j k

  pub ==-self : (k : K) → (k == k) ≡ true
  ==-self k = (e.same_iff k k).1 refl

  pub ==-eq : (j k : K) → (j == k) ≡ true → j ≡ k
  ==-eq j k h = (e.same_iff j k).0 h

instance abbrev pub nat_eq : Eq ℕ
nat_eq = record { same_iff = nat_beq_iff; same = nat_beq }
