-- ===== src/Base/Text.antt =====
-- Texts that the program takes apart, as lists of code points, and what it does to them. `lower`
-- is Python's on ASCII.
use Prim.Native.Nat.{ℕ, zero, suc, ◌+◌, ◌/◌, ◌%◌}
use Prim.Native.Char.{code}
use Prim.Native.String.{String}
use mathlib.Core.Path.{◌≡◌}
use mathlib.Core.Logic.{◌↔◌}
use mathlib.Core.Bool.{Bool, true, false, ◌&&◌, ◌||◌}
use mathlib.Core.List.{List, [], ◌∷◌, ◌++◌, map}
use native.Mathlib.Omega.{arith}
use llauncher.Base.Equality.{Eq, nat_eq}
use llauncher.Base.Tests.{ltb, leb, nat_beq, nat_beq_iff, if◌then◌else◌}

abbrev pub Text : Type 0
Text = List ℕ

abbrev pub codes : String → Text
codes String.[] = []
codes (String.◌∷◌ c s) = code c ∷ codes s

abbrev pub text_beq : Text → Text → Bool
text_beq [] [] = true
text_beq [] (d ∷ ds) = false
text_beq (c ∷ cs) [] = false
text_beq (c ∷ cs) (d ∷ ds) = nat_beq c d && text_beq cs ds

pub text_beq_iff : (s t : Text) → (text_beq s t ≡ true) ↔ (s ≡ t)
text_beq_iff [] [] = ground arith
text_beq_iff [] (d ∷ ds) = ground arith
text_beq_iff (c ∷ cs) [] = ground arith
text_beq_iff (c ∷ cs) (d ∷ ds) = ground (arith, nat_beq_iff c d, text_beq_iff cs ds)

instance abbrev pub text_eq : Eq Text
text_eq = record { same = text_beq; same_iff = text_beq_iff }

-- Python's order on texts.
unfoldable pub text_lt : Text → Text → Bool
text_lt [] [] = false
text_lt [] (d ∷ ds) = true
text_lt (c ∷ cs) [] = false
text_lt (c ∷ cs) (d ∷ ds) = if ltb c d then true else if ltb d c then false else text_lt cs ds

-- `s.startswith(p)`
unfoldable pub starts_with : Text → Text → Bool
starts_with s [] = true
starts_with [] (d ∷ ds) = false
starts_with (c ∷ cs) (d ∷ ds) = nat_beq c d && starts_with cs ds

-- `t in s`
unfoldable pub has_infix : Text → Text → Bool
unfolding starts_with
has_infix t [] = starts_with [] t
has_infix t (c ∷ s) = starts_with (c ∷ s) t || has_infix t s

abbrev lower_code : ℕ → ℕ
lower_code c = if leb b'A' c && leb c b'Z' then c + 32 else c

-- `s.lower()`
unfoldable pub lower : Text → Text
lower = map lower_code

-- `s.split(c, 1)[0]`
unfoldable pub before : ℕ → Text → Text
before c [] = []
before c (d ∷ s) = if nat_beq c d then [] else d ∷ before c s

-- `s.rsplit(c, 1)[-1]`, with what was read since the last `c`
unfoldable pub after_last : ℕ → Text → Text → Text
after_last c acc [] = acc
after_last c acc (d ∷ s) = after_last c (if nat_beq c d then [] else acc ++ d ∷ []) s

-- `s[:-len(t)] if s.endswith(t) else s`
unfoldable pub strip_suffix : Text → Text → Text
strip_suffix t [] = []
strip_suffix t (c ∷ s) = if text_beq t (c ∷ s) then [] else c ∷ strip_suffix t s

-- `str(n)`: the digits, on fuel. A number below n + 1 has at most n + 1 digits.
decimal_from : ℕ → ℕ → Text → Text
decimal_from zero n acc = acc
decimal_from (suc fuel) n acc =
    let here = (b'0' + n % 10) ∷ acc in
    let rest = decimal_from fuel (n / 10) here in if ltb n 10 then here else rest

unfoldable pub decimal : ℕ → Text
unfolding decimal_from
decimal n = decimal_from (suc n) n []
