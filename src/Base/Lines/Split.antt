-- ===== src/Base/Lines/Split.antt =====
-- Lines that were joined split into the same lines.
use Prim.Native.Nat.{ℕ}
use mathlib.Core.Path.{sym, ◌≡◌, refl, ap, ◌∙◌}
use mathlib.Core.Logic.{◌⊎◌, inl, inr}
use mathlib.Core.Bool.{true, false}
use mathlib.Core.List.{append-nil, cons-ne-nil, append-nil, List, [], ◌∷◌, ◌++◌, map}
use native.Mathlib.Omega.{arith}
use llauncher.Base.Tests.{Bool-cases}
use llauncher.Base.Text.{Text}
use llauncher.Base.Lines.{
  nat_beq, joined, splitlines, without_break, end_line, is_break, split_keepends, onto_first,
}

-- Nothing of the text ends a line.
abbrev pub Unbroken : Text → Type 0
Unbroken [] = Unit
Unbroken (c ∷ s) = (is_break c ≡ false) × Unbroken s

-- A line with its end.
abbrev pub Ended : Text → Type 0
Ended [] = ⊥
Ended (c ∷ []) = is_break c ≡ true
Ended (c ∷ d ∷ s) = (is_break c ≡ false) × Ended (d ∷ s)

-- A line that is not empty, the last of a text that does not end it.
abbrev pub Open : Text → Type 0
Open [] = ⊥
Open (c ∷ s) = Unbroken (c ∷ s)

-- The lines of a text: all but the last have their ends.
abbrev pub Proper : List Text → Type 0
Proper [] = Unit
Proper (line ∷ lines) = (Ended line ⊎ (Open line × (lines ≡ []))) × Proper lines

pub split_keepends-Ended :
    (line rest : Text) → Ended line → split_keepends (line ++ rest) ≡ line ∷ split_keepends rest
unfolding split_keepends
split_keepends-Ended [] rest h = ground (arith, h)
split_keepends-Ended (c ∷ []) rest h = ground (arith, h)
split_keepends-Ended (c ∷ d ∷ s) rest h = ground (arith, h.0, split_keepends-Ended (d ∷ s) rest h.1)

split_keepends-Open : (line : Text) → Open line → split_keepends line ≡ line ∷ []
unfolding split_keepends
split_keepends-Open [] h = ground (arith, h)
split_keepends-Open (c ∷ []) h = ground (arith, h.0)
split_keepends-Open (c ∷ d ∷ s) h = ground (arith, h.0, split_keepends-Open (d ∷ s) h.1)

onto_first-Proper :
    (c : ℕ) (lines : List Text) → is_break c ≡ false → Proper lines → Proper (onto_first c lines)
onto_first-Proper c [] h p = (inr ((h, tt), refl), tt)
onto_first-Proper c ([] ∷ lines) h p = elim p.0 [ inl x ↦ elim x [ ] | inr x ↦ elim x.0 [ ] ]
onto_first-Proper c ((d ∷ s) ∷ lines) h p =
    (elim p.0 [ inl x ↦ inl (h, x) | inr x ↦ inr ((h, x.0), x.1) ], p.1)

pub split_keepends-Proper : (s : Text) → Proper (split_keepends s)
unfolding split_keepends
split_keepends-Proper [] = tt
split_keepends-Proper (c ∷ s) = elim (Bool-cases (is_break c)) [
  | inl b ↦ rw b (inl b, split_keepends-Proper s)
  | inr b ↦ rw b (onto_first-Proper c (split_keepends s) b (split_keepends-Proper s))
]

pub split_keepends-joined :
    (lines : List Text) → Proper lines → split_keepends (joined lines) ≡ lines
unfolding split_keepends joined
split_keepends-joined [] p = refl
split_keepends-joined (line ∷ []) p = elim p.0 [
  | inl x ↦ split_keepends-Ended line [] x
  | inr x ↦ ap split_keepends (append-nil line) ∙ split_keepends-Open line x.0
]
split_keepends-joined (line ∷ next ∷ lines) p = elim p.0 [
  | inl x ↦
      split_keepends-Ended line (joined (next ∷ lines)) x
      ∙ ap (λ rest. line ∷ rest) (split_keepends-joined (next ∷ lines) p.1)
  | inr x ↦ elim (cons-ne-nil next lines x.1) [ ]
]

without_break-cons :
    (c : ℕ) (s : Text) → is_break c ≡ false → without_break (c ∷ s) ≡ c ∷ without_break s
unfolding without_break
without_break-cons c [] h = rw h
without_break-cons c (d ∷ s) h = refl

pub splitlines-break :
    (c : ℕ) (s : Text) → is_break c ≡ true → splitlines (c ∷ s) ≡ [] ∷ splitlines s
unfolding splitlines split_keepends without_break
splitlines-break c s h = rw h (ap (λ line. line ∷ map without_break (split_keepends s)) (rw h))

map-onto_first :
    (c : ℕ) (lines : List Text)
    → is_break c ≡ false
    → map without_break (onto_first c lines) ≡ onto_first c (map without_break lines)
unfolding without_break
map-onto_first c [] h = rw h
map-onto_first c (line ∷ lines) h =
    ap (λ first. first ∷ map without_break lines) (without_break-cons c line h)

pub splitlines-open :
    (c : ℕ) (s : Text) → is_break c ≡ false → splitlines (c ∷ s) ≡ onto_first c (splitlines s)
unfolding splitlines split_keepends
splitlines-open c s h = rw h (map-onto_first c (split_keepends s) h)

-- A text that is given a newline at its end splits into its own lines, and an empty one at most.
abbrev pub Continued : Text → Text → Text → Type 0
Continued s ended rest =
    (splitlines (ended ++ rest) ≡ splitlines s ++ splitlines rest)
    ⊎ (splitlines (ended ++ rest) ≡ splitlines s ++ [] ∷ splitlines rest)

onto_first-some :
    {lines : List Text} (c : ℕ) (tail : List Text)
    → lines ≡ onto_first c tail
    → (first : Text) × (more : List Text) × (lines ≡ first ∷ more)
onto_first-some c [] h = (c ∷ [], [], h)
onto_first-some c (line ∷ more) h = (c ∷ line, more, h)

splitlines-some :
    (c : ℕ) (s : Text) → (first : Text) × (more : List Text) × (splitlines (c ∷ s) ≡ first ∷ more)
splitlines-some c s = elim (Bool-cases (is_break c)) [
  | inl b ↦ ([], splitlines s, splitlines-break c s b)
  | inr b ↦ onto_first-some c (splitlines s) (splitlines-open c s b)
]

onto_first-append :
    (c : ℕ) (lines : List Text) (first : Text) (more rest : List Text)
    → lines ≡ first ∷ more
    → onto_first c (lines ++ rest) ≡ onto_first c lines ++ rest
onto_first-append c lines first more rest h = rw h

break-Continued :
    (c : ℕ) (s ended rest : Text)
    → is_break c ≡ true
    → Continued s ended rest
    → Continued (c ∷ s) (c ∷ ended) rest
break-Continued c s ended rest b (inl x) =
    inl (rw (splitlines-break c (ended ++ rest) b, splitlines-break c s b) (ap (λ l. [] ∷ l) x))
break-Continued c s ended rest b (inr x) =
    inr (rw (splitlines-break c (ended ++ rest) b, splitlines-break c s b) (ap (λ l. [] ∷ l) x))

open-Continued :
    (c d : ℕ) (s ended rest : Text)
    → is_break c ≡ false
    → Continued (d ∷ s) ended rest
    → Continued (c ∷ d ∷ s) (c ∷ ended) rest
open-Continued c d s ended rest b (inl x) =
    let (first, more, e) = splitlines-some d s in
    inl (
      splitlines-open c (ended ++ rest) b
      ∙ ap (onto_first c) x
      ∙ onto_first-append c (splitlines (d ∷ s)) first more (splitlines rest) e
      ∙ ap (λ l. l ++ splitlines rest) (sym (splitlines-open c (d ∷ s) b)))
open-Continued c d s ended rest b (inr x) =
    let (first, more, e) = splitlines-some d s in
    inr (
      splitlines-open c (ended ++ rest) b
      ∙ ap (onto_first c) x
      ∙ onto_first-append c (splitlines (d ∷ s)) first more ([] ∷ splitlines rest) e
      ∙ ap (λ l. l ++ [] ∷ splitlines rest) (sym (splitlines-open c (d ∷ s) b)))

newline-break : (c : ℕ) → nat_beq c b'\n' ≡ true → is_break c ≡ true
unfolding is_break
newline-break c h = ground (arith, h)

empty-Continued : (rest : Text) → Continued [] [] rest
unfolding splitlines split_keepends
empty-Continued rest = inl refl

pub end_line-Continued : (s rest : Text) → Continued s (end_line s) rest
unfolding end_line splitlines
end_line-Continued [] rest = empty-Continued rest
end_line-Continued (c ∷ []) rest = elim (Bool-cases (nat_beq c b'\n')) [
  | inl b ↦ rw b (break-Continued c [] [] rest (newline-break c b) (empty-Continued rest))
  | inr b ↦ elim (Bool-cases (is_break c)) [
    | inl h ↦ rw b (
        break-Continued c [] (b'\n' ∷ []) rest h
          (inr (splitlines-break b'\n' rest (newline-break b'\n' refl))))
    | inr h ↦ rw b (
        inl (
          splitlines-open c (b'\n' ∷ rest) h
          ∙ ap (onto_first c) (splitlines-break b'\n' rest (newline-break b'\n' refl))
          ∙ sym (ap (λ l. l ++ splitlines rest) (splitlines-open c [] h))))
  ]
]
end_line-Continued (c ∷ d ∷ s) rest = elim (Bool-cases (is_break c)) [
  | inl b ↦ break-Continued c (d ∷ s) (end_line (d ∷ s)) rest b (end_line-Continued (d ∷ s) rest)
  | inr b ↦ open-Continued c d s (end_line (d ∷ s)) rest b (end_line-Continued (d ∷ s) rest)
]
