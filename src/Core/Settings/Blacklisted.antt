-- ===== src/Core/Settings/Blacklisted.antt =====
-- No entry of the blacklist is dropped, and no port is out of range.
use llauncher.Base.{
  ℕ, ◌≡◌, refl, ap, ◌∙◌, Bool, true, false, ◌&&◌, ◌||◌, List, [], ◌∷◌, all, leb, inl, inr,
  Bool-cases, arith, if◌then◌else◌,
}
use llauncher.Base.Text.{Text, text_eq}
use llauncher.Base.Lines.{strip}
use llauncher.Core.Settings.{
  Blacklist, ports, value_error, number_from, is_number, split, parse_entries, parse_token,
  onto_ports, parse_blacklisted_ports,
}

abbrev pub is_blank : Text → Bool
is_blank [] = true
is_blank (c ∷ token) = false

-- A decimal number of the TCP range.
abbrev pub is_port : Text → Bool
is_port token = is_number token && (leb 1 (number_from 0 token) && leb (number_from 0 token) 65535)

-- The numbers of the tokens that are not blank.
unfoldable pub numbers_of : List Text → List ℕ
numbers_of [] = []
numbers_of (entry ∷ entries) =
    let rest = numbers_of entries in
    if is_blank (strip entry) then rest else number_from 0 (strip entry) ∷ rest

abbrev pub is_good : Text → Bool
is_good entry = is_blank (strip entry) || is_port (strip entry)

-- The first entry that is neither blank nor a port.
unfoldable pub first_bad : List Text → Blacklist → Blacklist
first_bad [] good = good
first_bad (entry ∷ entries) good =
    let rest = first_bad entries good in if is_good entry then rest else value_error entry

onto_ports-first_bad :
    (port : ℕ) (numbers : List ℕ) (entries : List Text)
    → onto_ports port (first_bad entries (ports numbers))
      ≡ first_bad entries (ports (port ∷ numbers))
unfolding onto_ports first_bad
onto_ports-first_bad port numbers [] = refl
onto_ports-first_bad port numbers (entry ∷ entries) = elim (Bool-cases (is_good entry)) [
  | inl b ↦ rw b (onto_ports-first_bad port numbers entries)
  | inr b ↦ rw b refl
]

-- What an entry with a token adds to what the entries behind it give.
parse_token-first_bad :
    (entry token : Text) (numbers : List ℕ) (entries : List Text)
    → parse_token entry token (first_bad entries (ports numbers)) ≡ (
        if is_blank token || is_port token
        then first_bad entries
            (ports (if is_blank token then numbers else number_from 0 token ∷ numbers))
        else value_error entry)
unfolding parse_token
parse_token-first_bad entry [] numbers entries = refl
parse_token-first_bad entry (c ∷ token) numbers entries = elim (Bool-cases (is_port (c ∷ token))) [
  | inl b ↦ rw b (onto_ports-first_bad (number_from 0 (c ∷ token)) numbers entries)
  | inr b ↦ rw b refl
]

parse_entries-first_bad :
    (entries : List Text) → parse_entries entries ≡ first_bad entries (ports (numbers_of entries))
unfolding parse_entries first_bad numbers_of
parse_entries-first_bad [] = refl
parse_entries-first_bad (entry ∷ entries) =
    ap (parse_token entry (strip entry)) (parse_entries-first_bad entries)
    ∙ parse_token-first_bad entry (strip entry) (numbers_of entries) entries

abbrev in_range : ℕ → Bool
in_range port = leb 1 port && leb port 65535

abbrev pub all_in_range : Blacklist → Bool
all_in_range (ports numbers) = all in_range numbers
all_in_range (value_error entry) = true

and-right : (a b : Bool) → (a && b) ≡ true → b ≡ true
and-right true b h = h
and-right false true h = refl
and-right false false h = h

onto_ports-in_range :
    (port : ℕ) (b : Blacklist)
    → in_range port ≡ true
    → all_in_range b ≡ true
    → all_in_range (onto_ports port b) ≡ true
unfolding onto_ports
onto_ports-in_range port (ports numbers) h rest = ground (arith, h, rest)
onto_ports-in_range port (value_error entry) h rest = refl

parse_token-in_range :
    (entry token : Text) (b : Blacklist)
    → all_in_range b ≡ true
    → all_in_range (parse_token entry token b) ≡ true
unfolding parse_token
parse_token-in_range entry [] b rest = rest
parse_token-in_range entry (c ∷ token) b rest = elim (Bool-cases (is_port (c ∷ token))) [
  | inl h ↦
      let good : in_range (number_from 0 (c ∷ token)) ≡ true =
        and-right (is_number (c ∷ token)) _ h in
      rw h (onto_ports-in_range (number_from 0 (c ∷ token)) b good rest)
  | inr h ↦ rw h refl
]

parse_entries-in_range : (entries : List Text) → all_in_range (parse_entries entries) ≡ true
unfolding parse_entries
parse_entries-in_range [] = refl
parse_entries-in_range (entry ∷ entries) =
    parse_token-in_range entry (strip entry) (parse_entries entries)
      (parse_entries-in_range entries)

-- The blacklist has the number of every entry that is not blank, in their order, none dropped, or it
-- is refused with the first entry that is neither blank nor a decimal number from 1 to 65535. Every
-- port of it is in that range.
pub parse_blacklisted_ports-first_bad :
    (raw : Text)
    → (parse_blacklisted_ports raw
        ≡ first_bad (split b',' raw) (ports (numbers_of (split b',' raw))))
      × (all_in_range (parse_blacklisted_ports raw) ≡ true)
unfolding parse_blacklisted_ports
parse_blacklisted_ports-first_bad raw =
    (parse_entries-first_bad (split b',' raw), parse_entries-in_range (split b',' raw))
