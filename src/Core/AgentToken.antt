-- ===== src/Core/AgentToken.antt =====
-- llauncher/core/agent_token.py: the agent's token, in the environment or in agent.env. A file is
-- its text, with its permissions left out; the generated token and the line on stdin are given.
pub mod Stripped
pub mod Parsed
pub mod Rewritten
pub mod Settled
use llauncher.Base.{
  ◌+◌, Bool, true, false, not, ◌&&◌, ℕ, Option, none, some, List, [], ◌∷◌, ◌++◌, ◌==◌, nat_eq,
  if◌then◌else◌,
}
use llauncher.Base.Dict.{Dict, lookup, put}
use llauncher.Base.Text.{Text, codes, before, text_eq, starts_with}
use llauncher.Base.Lines.{joined, end_line, strip, lstrip, rstrip, splitlines, split_keepends}

abbrev pub token_key : Text
token_key = codes "LLAUNCHER_AGENT_TOKEN"

-- `value.lstrip("\ufeff")`
unfoldable pub strip_bom : Text → Text
strip_bom [] = []
strip_bom (c ∷ s) = let rest = strip_bom s in if c == 65279 then rest else c ∷ s

-- `line.partition("=")[2]`
unfoldable pub after : ℕ → Text → Text
after c [] = []
after c (d ∷ s) = let rest = after c s in if d == c then s else rest

abbrev has_code : ℕ → Text → Bool
has_code c [] = false
has_code c (d ∷ s) = let rest = has_code c s in if d == c then true else rest

-- `if not line or line.startswith("#"): continue`
abbrev is_skipped : Text → Bool
is_skipped [] = true
is_skipped (c ∷ s) = c == b'#'

abbrev pub is_empty : Text → Bool
is_empty [] = true
is_empty (c ∷ s) = false

-- One round of the loop of `parse_env_file`, on a line that has been stripped.
unfoldable pub parse_stripped : Text → Dict Text Text → Dict Text Text
unfolding strip_bom after
parse_stripped line result =
    let key = strip_bom (strip (before b'=' line)) in
    if is_skipped line
    then result
    else if not (has_code b'=' line)
    then result
    else if is_empty key
    then result
    else put key (strip (after b'=' line)) result

unfoldable pub parse_line : Text → Dict Text Text → Dict Text Text
unfolding parse_stripped
parse_line raw_line = parse_stripped (strip raw_line)

unfoldable pub parse_lines : List Text → Dict Text Text → Dict Text Text
unfolding parse_line
parse_lines [] result = result
parse_lines (line ∷ lines) result = parse_lines lines (parse_line line result)

-- `text` is `none` for a file that is not there.
unfoldable pub parse_env_file : Option Text → Dict Text Text
unfolding parse_lines
parse_env_file none = []
parse_env_file (some text) = parse_lines (splitlines text) []

abbrev usable : Option Text → Option Text
usable none = none
usable (some []) = none
usable (some (c ∷ value)) = some (c ∷ value)

unfoldable pub read_env_file_token : Option Text → Option Text
unfolding parse_env_file
read_env_file_token file = usable (lookup token_key (parse_env_file file))

unfoldable pub is_token_line : Text → Bool
unfolding strip_bom
is_token_line raw_line = strip_bom (rstrip (before b'=' (lstrip raw_line))) == token_key

unfoldable pub count_lines : List Text → ℕ
unfolding is_token_line
count_lines [] = 0
count_lines (line ∷ lines) =
    let rest = count_lines lines in if is_token_line line then rest + 1 else rest

unfoldable pub count_env_file_token_lines : Option Text → ℕ
unfolding count_lines
count_env_file_token_lines none = 0
count_env_file_token_lines (some text) = count_lines (splitlines text)

unfoldable pub kept_lines : List Text → List Text
unfolding is_token_line
kept_lines [] = []
kept_lines (line ∷ lines) =
    let rest = kept_lines lines in if is_token_line line then rest else line ∷ rest

unfoldable pub strip_token_lines : Text → Text
unfolding kept_lines joined
strip_token_lines text = joined (kept_lines (split_keepends text))

abbrev pub token_line : Text → Text
token_line token = token_key ++ b'=' ∷ token ++ b'\n' ∷ []

-- The file that `_generate_and_persist_token` leaves.
unfoldable pub persist_token : Text → Option Text → Text
unfolding strip_token_lines end_line
persist_token token none = token_line token
persist_token token (some text) = end_line (strip_token_lines text) ++ token_line token

-- The outcome of a resolution: `RuntimeError` for an empty line on stdin, else a token or `None`.
pub data Resolution : Type 0 where
  no_stdin_token unresolved : Resolution
  token : Text → Resolution

unfoldable pub read_stdin_token : Text → Resolution
unfolding strip_bom
read_stdin_token line =
    let read = strip_bom (strip line) in if is_empty read then no_stdin_token else token read

module _ (stdin generated : Text) (allow_generate : Bool) where
  pub resolve_in_file : Option Text → Option Text → Resolution × Option Text
  unfolding persist_token
  resolve_in_file file (some existing) = (token existing, file)
  resolve_in_file file none =
      if not allow_generate
      then (unresolved, file)
      else (token generated, some (persist_token generated file))

  resolve_env : Text → Option Text → Resolution × Option Text
  unfolding resolve_in_file read_env_file_token read_stdin_token
  resolve_env env_value file =
      if env_value == codes "-"
      then (read_stdin_token stdin, file)
      else if not (is_empty env_value)
      then (token env_value, file)
      else resolve_in_file file (read_env_file_token file)

  -- The token, and the file after.
  unfoldable pub resolve_agent_token : Option Text → Option Text → Resolution × Option Text
  unfolding resolve_env
  resolve_agent_token none file = resolve_in_file file (read_env_file_token file)
  resolve_agent_token (some env_value) file = resolve_env (strip_bom env_value) file

-- An environment variable is set and not empty.
abbrev is_set : Option Text → Bool
is_set none = false
is_set (some value) = not (is_empty value)

-- `legacy_token_env_misconfigured`
unfoldable pub legacy_token_env_misconfigured : (legacy current : Option Text) → Bool
legacy_token_env_misconfigured legacy current = is_set legacy && not (is_set current)
