-- ===== src/Core/Settings.antt =====
-- llauncher/core/settings.py: the blacklisted ports, and where the server's binary is looked for.
pub mod Blacklisted
use llauncher.Base.{
  ℕ, ◌+◌, ◌*◌, ◌-◌, Bool, true, false, ◌&&◌, Option, none, some, List, [], ◌∷◌, ◌++◌, all, leb,
  nat_eq, ◌==◌, if◌then◌else◌,
}
use llauncher.Base.Text.{Text, codes}
use llauncher.Base.Lines.{strip}

-- `raw.split(c)`
abbrev onto_piece : ℕ → List Text → List Text
onto_piece c [] = (c ∷ []) ∷ []
onto_piece c (piece ∷ pieces) = (c ∷ piece) ∷ pieces

unfoldable pub split : ℕ → Text → List Text
split c [] = [] ∷ []
split c (d ∷ s) = let rest = split c s in if d == c then [] ∷ rest else onto_piece d rest

-- `int(token)` of digits
abbrev pub number_from : ℕ → Text → ℕ
number_from n [] = n
number_from n (c ∷ s) = number_from (n * 10 + (c - b'0')) s

-- `token.isascii() and token.isdigit()`, of a token that is not empty
abbrev pub is_number : Text → Bool
is_number = all (λ d. leb b'0' d && leb d b'9')

-- `ValueError` names the entry.
pub data Blacklist : Type 0 where
  ports : List ℕ → Blacklist
  value_error : Text → Blacklist

onto_ports : ℕ → Blacklist → Blacklist
onto_ports port (ports rest) = ports (port ∷ rest)
onto_ports port (value_error entry) = value_error entry

-- One entry, with its token.
parse_token : Text → Text → Blacklist → Blacklist
unfolding onto_ports
parse_token entry [] rest = rest
parse_token entry (c ∷ token) rest =
    if is_number (c ∷ token)
      && (leb 1 (number_from 0 (c ∷ token)) && leb (number_from 0 (c ∷ token)) 65535)
    then onto_ports (number_from 0 (c ∷ token)) rest
    else value_error entry

unfoldable pub parse_entries : List Text → Blacklist
unfolding parse_token strip
parse_entries [] = ports []
parse_entries (entry ∷ entries) = parse_token entry (strip entry) (parse_entries entries)

unfoldable pub parse_blacklisted_ports : Text → Blacklist
unfolding split parse_entries
parse_blacklisted_ports raw = parse_entries (split b',' raw)

-- `none` is OSError, which is taken for no directory and for no file.
pub record Probe : Type 0 where
  pub is_dir : Text → Option Bool
  pub exists : Text → Option Bool

abbrev holds : Option Bool → Bool
holds none = false
holds (some b) = b

unfoldable pub resolve_llama_server_path : Probe → Text → Text
resolve_llama_server_path probe configured =
    if holds (probe.is_dir configured)
    then if holds (probe.exists (configured ++ codes "/llama-server"))
      then configured ++ codes "/llama-server"
      else if holds (probe.exists (configured ++ codes "/llama-server.exe"))
      then configured ++ codes "/llama-server.exe"
      else configured
    else configured
