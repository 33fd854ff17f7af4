-- ===== src/Base/Lines/Strip.antt =====
-- What is before a mark, with the whitespace around it taken off in one order or another.
use Prim.Native.Nat.{ℕ}
use mathlib.Core.Path.{◌≡◌, refl, sym, ap, ◌∙◌}
use mathlib.Core.Logic.{inl, inr}
use mathlib.Core.Bool.{Bool, true, false, not, ◌&&◌}
use mathlib.Core.List.{[], ◌∷◌, ◌++◌}
use native.Mathlib.Omega.{arith}
use llauncher.Base.Tests.{Bool-cases, nat_beq, nat_beq_iff}
use llauncher.Base.Text.{Text, before}
use llauncher.Base.Lines.Split.{Ended}
use llauncher.Base.Lines.{is_break, is_space, lstrip, rstrip, strip, without_break, unless_blank}

is_space-break : (c : ℕ) → is_break c ≡ true → is_space c ≡ true
unfolding is_space is_break
is_space-break c h = ground (arith, h)

unless_blank-space : (c : ℕ) → is_space c ≡ true → unless_blank c [] ≡ []
unless_blank-space c h = rw h

unless_blank-visible : (c : ℕ) (s : Text) → is_space c ≡ false → unless_blank c s ≡ c ∷ s
unless_blank-visible c [] h = rw h
unless_blank-visible c (d ∷ s) h = refl

before-stop : (mark c : ℕ) (s : Text) → nat_beq mark c ≡ true → before mark (c ∷ s) ≡ []
unfolding before
before-stop mark c s h = rw h

before-go :
    (mark c : ℕ) (s : Text) → nat_beq mark c ≡ false → before mark (c ∷ s) ≡ c ∷ before mark s
unfolding before
before-go mark c s h = rw h

module _ (mark : ℕ) (visible : is_space mark ≡ false) where
  rstrip-before_go :
      (c : ℕ) (s t : Text)
      → rstrip (before mark t) ≡ rstrip (before mark s)
      → rstrip (before mark (c ∷ t)) ≡ rstrip (before mark (c ∷ s))
  unfolding rstrip
  rstrip-before_go c s t h = elim (Bool-cases (nat_beq mark c)) [
    | inl b ↦ rw (before-stop mark c t b, before-stop mark c s b)
    | inr b ↦ rw (before-go mark c t b, before-go mark c s b) (ap (unless_blank c) h)
  ]

  before-space : (c : ℕ) (s : Text) → is_space c ≡ true → before mark (c ∷ s) ≡ c ∷ before mark s
  before-space c s h = elim (Bool-cases (nat_beq mark c)) [
    | inl b ↦ ground (arith, sym (ap is_space ((nat_beq_iff mark c).0 b)) ∙ visible)
    | inr b ↦ before-go mark c s b
  ]

  rstrip-before-unless_blank :
      (c : ℕ) (s t : Text)
      → rstrip (before mark t) ≡ rstrip (before mark s)
      → rstrip (before mark (unless_blank c t)) ≡ rstrip (before mark (c ∷ s))
  unfolding rstrip before
  rstrip-before-unless_blank c s (d ∷ t) h = rstrip-before_go c s (d ∷ t) h
  rstrip-before-unless_blank c s [] h = elim (Bool-cases (is_space c)) [
    | inl b ↦ rw b (
        sym (ap rstrip (before-space c s b) ∙ ap (unless_blank c) (sym h) ∙ unless_blank-space c b))
    | inr b ↦ rw b (rstrip-before_go c s [] h)
  ]

  rstrip-before-rstrip : (s : Text) → rstrip (before mark (rstrip s)) ≡ rstrip (before mark s)
  unfolding rstrip
  rstrip-before-rstrip [] = refl
  rstrip-before-rstrip (c ∷ s) = rstrip-before-unless_blank c s (rstrip s) (rstrip-before-rstrip s)

  pub rstrip-before-without_break :
      (s : Text) → rstrip (before mark (without_break s)) ≡ rstrip (before mark s)
  unfolding without_break
  rstrip-before-without_break [] = refl
  rstrip-before-without_break (c ∷ []) = elim (Bool-cases (is_break c)) [
    | inl b ↦ rw b (
        ap (λ t. rstrip (before mark t)) (sym (unless_blank-space c (is_space-break c b)))
        ∙ rstrip-before-unless_blank c [] [] refl)
    | inr b ↦ rw b
  ]
  rstrip-before-without_break (c ∷ d ∷ s) =
      rstrip-before_go c (d ∷ s) (without_break (d ∷ s)) (rstrip-before-without_break (d ∷ s))

  lstrip-before_visible :
      (c : ℕ) (s : Text) → is_space c ≡ false → lstrip (before mark (c ∷ s)) ≡ before mark (c ∷ s)
  unfolding lstrip
  lstrip-before_visible c s h = elim (Bool-cases (nat_beq mark c)) [
    | inl b ↦ rw (before-stop mark c s b)
    | inr b ↦ rw (before-go mark c s b, h)
  ]

  lstrip-before-strip : (s : Text) → lstrip (before mark (strip s)) ≡ before mark (strip s)
  unfolding strip lstrip rstrip before
  lstrip-before-strip [] = refl
  lstrip-before-strip (c ∷ s) = elim (Bool-cases (is_space c)) [
    | inl b ↦ rw b (lstrip-before-strip s)
    | inr b ↦ rw (b, unless_blank-visible c (rstrip s) b) (lstrip-before_visible c (rstrip s) b)
  ]

  pub strip-before-strip :
      (s : Text) → strip (before mark (strip s)) ≡ rstrip (before mark (lstrip s))
  unfolding strip
  strip-before-strip s = ap rstrip (lstrip-before-strip s) ∙ rstrip-before-rstrip (lstrip s)

pub lstrip-without_break : (s : Text) → lstrip (without_break s) ≡ without_break (lstrip s)
unfolding lstrip without_break
lstrip-without_break [] = refl
lstrip-without_break (c ∷ []) = ground (arith, is_space-break c)
lstrip-without_break (c ∷ d ∷ s) = elim (Bool-cases (is_space c)) [
  | inl b ↦ rw b (lstrip-without_break (d ∷ s))
  | inr b ↦ rw b
]

pub without_break-newline : (s : Text) → without_break (s ++ b'\n' ∷ []) ≡ s
unfolding without_break is_break
without_break-newline [] = refl
without_break-newline (c ∷ []) = refl
without_break-newline (c ∷ d ∷ s) = ap (λ t. c ∷ t) (without_break-newline (d ∷ s))

abbrev pub no_space : Text → Bool
no_space [] = true
no_space (c ∷ s) = not (is_space c) && no_space s

and-true : (a b : Bool) → (not a && b) ≡ true → (a ≡ false) × (b ≡ true)
and-true a b h = (ground (arith, h), ground (arith, h))

rstrip-no_space : (s : Text) → no_space s ≡ true → rstrip s ≡ s
unfolding rstrip
rstrip-no_space [] h = refl
rstrip-no_space (c ∷ s) h =
    let (visible, rest) = and-true (is_space c) (no_space s) h in
    ap (unless_blank c) (rstrip-no_space s rest) ∙ unless_blank-visible c s visible

pub strip-no_space : (s : Text) → no_space s ≡ true → strip s ≡ s
unfolding strip lstrip rstrip
strip-no_space [] h = refl
strip-no_space (c ∷ s) h =
    let (visible, rest) = and-true (is_space c) (no_space s) h in
    rw visible (rstrip-no_space (c ∷ s) h)

pub no_space-append :
    (s t : Text) → no_space s ≡ true → no_space t ≡ true → no_space (s ++ t) ≡ true
no_space-append [] t h k = k
no_space-append (c ∷ s) t h k =
    let (visible, rest) = and-true (is_space c) (no_space s) h in
    rw visible (no_space-append s t rest k)

unbroken : (c : ℕ) → is_space c ≡ false → is_break c ≡ false
unbroken c h = ground (arith, h, is_space-break c)

-- A line without whitespace, with its newline.
pub newline-Ended : (s : Text) → no_space s ≡ true → Ended (s ++ b'\n' ∷ [])
unfolding is_break
newline-Ended [] h = refl
newline-Ended (c ∷ []) h = (unbroken c (and-true (is_space c) true h).0, refl)
newline-Ended (c ∷ d ∷ s) h =
    let (visible, rest) = and-true (is_space c) (no_space (d ∷ s)) h in
    (unbroken c visible, newline-Ended (d ∷ s) rest)
