-- ===== src/Base/Lines.antt =====
-- Python's whitespace, and its `strip` and `splitlines`, on texts that were read with universal
-- newlines, which turn a carriage return and a newline into one newline.
pub mod Split
pub mod Strip
use Prim.Native.Nat.{ℕ}
use mathlib.Core.Bool.{Bool, ◌&&◌, ◌||◌}
use mathlib.Core.List.{◌++◌, List, [], ◌∷◌, map}
use llauncher.Base.Tests.{leb, nat_beq, if◌then◌else◌}
use llauncher.Base.Text.{Text}

-- `c.isspace()`
unfoldable pub is_space : ℕ → Bool
is_space c =
    (leb 9 c && leb c 13)
    || (leb 28 c && leb c 32)
    || nat_beq c 133
    || nat_beq c 160
    || nat_beq c 5760
    || (leb 8192 c && leb c 8202)
    || nat_beq c 8232
    || nat_beq c 8233
    || nat_beq c 8239
    || nat_beq c 8287
    || nat_beq c 12288

-- Where `splitlines` ends a line.
unfoldable pub is_break : ℕ → Bool
is_break c =
    (leb 10 c && leb c 13)
    || (leb 28 c && leb c 30)
    || nat_beq c 133
    || nat_beq c 8232
    || nat_beq c 8233

-- `s.lstrip()`
unfoldable pub lstrip : Text → Text
lstrip [] = []
lstrip (c ∷ s) = let rest = lstrip s in if is_space c then rest else c ∷ s

abbrev unless_blank : ℕ → Text → Text
unless_blank c [] = if is_space c then [] else c ∷ []
unless_blank c (d ∷ s) = c ∷ d ∷ s

-- `s.rstrip()`
unfoldable pub rstrip : Text → Text
rstrip [] = []
rstrip (c ∷ s) = unless_blank c (rstrip s)

-- `s.strip()`
unfoldable pub strip : Text → Text
unfolding lstrip rstrip
strip s = rstrip (lstrip s)

abbrev onto_first : ℕ → List Text → List Text
onto_first c [] = (c ∷ []) ∷ []
onto_first c (line ∷ lines) = (c ∷ line) ∷ lines

-- `s.splitlines(keepends=True)`
unfoldable pub split_keepends : Text → List Text
split_keepends [] = []
split_keepends (c ∷ s) =
    let rest = split_keepends s in if is_break c then (c ∷ []) ∷ rest else onto_first c rest

unfoldable pub without_break : Text → Text
without_break [] = []
without_break (c ∷ []) = if is_break c then [] else c ∷ []
without_break (c ∷ d ∷ s) = c ∷ without_break (d ∷ s)

-- `s.splitlines()`
unfoldable pub splitlines : Text → List Text
unfolding split_keepends without_break
splitlines s = map without_break (split_keepends s)

-- `"".join(lines)`
unfoldable pub joined : List Text → Text
joined [] = []
joined (line ∷ lines) = line ++ joined lines

-- `if preserved and not preserved.endswith("\n"): preserved += "\n"`
unfoldable pub end_line : Text → Text
end_line [] = []
end_line (c ∷ []) = if nat_beq c b'\n' then c ∷ [] else c ∷ b'\n' ∷ []
end_line (c ∷ d ∷ s) = c ∷ end_line (d ∷ s)
