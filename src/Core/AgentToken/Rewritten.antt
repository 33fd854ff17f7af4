-- ===== src/Core/AgentToken/Rewritten.antt =====
-- What a rewrite of agent.env with a generated token leaves to be read.
use llauncher.Base.{
  ◌⊎◌, inl, inr, ◌⊎◌, ==-eq, all, all, Bool, Bool-cases, true, false, ◌+◌, Option, none, some, List,
  [], ◌∷◌, ◌++◌, map, ◌==◌, nat_eq, if◌then◌else◌, ◌≡◌, ◌≢◌, refl, sym, ap, ◌∙◌, inl, inr, arith,
}
use llauncher.Base.Dict.{Dict, lookup, put, lookup-put, lookup-put_self}
use llauncher.Base.Text.{Text, before, text_eq}
use llauncher.Base.Lines.{strip, lstrip, rstrip, splitlines, split_keepends, without_break}
use llauncher.Base.Lines.Split.{end_line-Continued}
use llauncher.Core.AgentToken.{
  Resolution, resolve_in_file, parse_stripped, token_key, strip_bom, is_empty, parse_line,
  parse_lines, parse_env_file, usable, read_env_file_token, is_token_line, count_lines,
  count_env_file_token_lines, kept_lines, strip_token_lines, token_line, persist_token,
}
use llauncher.Core.AgentToken.Stripped.{
  url_safe, splitlines-strip_token_lines, parse_line-token, is_token_line-token, UrlSafe,
}
use llauncher.Core.AgentToken.Parsed.{
  splitlines-token_line, parse_lines-append, count_lines-append, parse_lines-kept, count_lines-kept,
}

-- The lines that a rewritten file is read as, its own line last.
abbrev Rewrite : List Text → Text → List Text → Type 0
Rewrite kept token lines =
    (lines ≡ kept ++ (token_key ++ b'=' ∷ token) ∷ [])
    ⊎ (lines ≡ kept ++ [] ∷ (token_key ++ b'=' ∷ token) ∷ [])

splitlines-Rewrite :
    (token text : Text)
    → all url_safe token ≡ true
    → Rewrite
        (map without_break (kept_lines (split_keepends text)))
        token
        (splitlines (persist_token token (some text)))
unfolding persist_token
splitlines-Rewrite token text safe =
    elim (end_line-Continued (strip_token_lines text) (token_line token)) [
      | inl x ↦ inl (
          x
          ∙ ap (λ l. l ++ splitlines (token_line token)) (splitlines-strip_token_lines text)
          ∙ ap (λ l. map without_break (kept_lines (split_keepends text)) ++ l)
              (splitlines-token_line token safe))
      | inr x ↦ inr (
          x
          ∙ ap (λ l. l ++ [] ∷ splitlines (token_line token)) (splitlines-strip_token_lines text)
          ∙ ap (λ l. map without_break (kept_lines (split_keepends text)) ++ [] ∷ l)
              (splitlines-token_line token safe))
    ]

parse_line-empty : (result : Dict Text Text) → parse_line [] result ≡ result
unfolding parse_line parse_stripped strip lstrip rstrip
parse_line-empty result = refl

Rewrite-parsed :
    (kept lines : List Text) (token : Text)
    → all url_safe token ≡ true
    → Rewrite kept token lines
    → parse_lines lines [] ≡ put token_key token (parse_lines kept [])
unfolding parse_lines
Rewrite-parsed kept lines token safe (inl x) =
    ap (λ l. parse_lines l []) x
    ∙ parse_lines-append kept ((token_key ++ b'=' ∷ token) ∷ []) []
    ∙ parse_line-token token (parse_lines kept []) safe
Rewrite-parsed kept lines token safe (inr x) =
    ap (λ l. parse_lines l []) x
    ∙ parse_lines-append kept ([] ∷ (token_key ++ b'=' ∷ token) ∷ []) []
    ∙ ap (parse_line (token_key ++ b'=' ∷ token)) (parse_line-empty (parse_lines kept []))
    ∙ parse_line-token token (parse_lines kept []) safe

count_lines-token : (token : Text) → count_lines ((token_key ++ b'=' ∷ token) ∷ []) ≡ 1
unfolding count_lines
count_lines-token token = rw (is_token_line-token token)

count_lines-empty : (lines : List Text) → count_lines ([] ∷ lines) ≡ count_lines lines
unfolding count_lines is_token_line lstrip rstrip before strip_bom
count_lines-empty lines = refl

Rewrite-counted :
    (kept lines : List Text) (token : Text)
    → Rewrite kept token lines
    → count_lines lines ≡ count_lines kept + 1
Rewrite-counted kept lines token (inl x) =
    ap count_lines x
    ∙ count_lines-append kept ((token_key ++ b'=' ∷ token) ∷ [])
    ∙ ap (λ n. count_lines kept + n) (count_lines-token token)
Rewrite-counted kept lines token (inr x) =
    ap count_lines x
    ∙ count_lines-append kept ([] ∷ (token_key ++ b'=' ∷ token) ∷ [])
    ∙ ap (λ n. count_lines kept + n)
        (count_lines-empty ((token_key ++ b'=' ∷ token) ∷ []) ∙ count_lines-token token)

-- What the three readings of the lines of a rewritten file give.
Readings : Text → List Text → List Text → Type 0
unfolding parse_lines
Readings token kept lines =
    (usable (lookup token_key (parse_lines lines [])) ≡ some token)
    × (count_lines lines ≡ count_lines kept + 1)
    × ((k : Text)
        → k ≢ token_key
        → lookup k (parse_lines lines []) ≡ lookup k (parse_lines kept []))

lookup-put_apart :
    (j k value : Text) (d : Dict Text Text) → k ≢ j → lookup k (put j value d) ≡ lookup k d
lookup-put_apart j k value d h = elim (Bool-cases (j == k)) [
  | inl b ↦ elim (h (sym (==-eq j k b))) [ ]
  | inr b ↦ lookup-put j k value d ∙ ap (λ x. if x then some value else lookup k d) b
]

usable-some : (token : Text) → is_empty token ≡ false → usable (some token) ≡ some token
usable-some [] h = ground (arith, h)
usable-some (c ∷ token) h = refl

Rewrite-Readings :
    (token : Text) (kept lines : List Text)
    → UrlSafe token
    → Rewrite kept token lines
    → Readings token kept lines
unfolding Readings
Rewrite-Readings token kept lines safe h =
    let parsed = Rewrite-parsed kept lines token safe.1 h in
    (
      ap (λ d. usable (lookup token_key d)) parsed
          ∙ ap usable (lookup-put_self token_key token (parse_lines kept []))
          ∙ usable-some token safe.0,
      Rewrite-counted kept lines token h,
      λ k other.
          ap (lookup k) parsed ∙ lookup-put_apart token_key k token (parse_lines kept []) other,
    )

splitlines-new :
    (token : Text)
    → all url_safe token ≡ true
    → Rewrite [] token (splitlines (persist_token token none))
unfolding persist_token
splitlines-new token safe = inl (splitlines-token_line token safe)

kept-read :
    (text k : Text)
    → k ≢ token_key
    → lookup k (parse_lines (map without_break (kept_lines (split_keepends text))) [])
      ≡ lookup k (parse_lines (splitlines text) [])
unfolding splitlines
kept-read text k other = parse_lines-kept k (split_keepends text) [] [] other refl

-- A token of letters, digits, `-` and `_` that is written to agent.env, whatever the file was and
-- also if it was missing, is the token that the file is then read as, on the one line of its kind
-- that the file then has, and every other key has the value that it had.
pub persist_token-read :
    (token : Text) (file : Option Text)
    → UrlSafe token
    → (read_env_file_token (some (persist_token token file)) ≡ some token)
      × (count_env_file_token_lines (some (persist_token token file)) ≡ 1)
      × ((k : Text)
          → k ≢ token_key
          → lookup k (parse_env_file (some (persist_token token file)))
            ≡ lookup k (parse_env_file file))
unfolding read_env_file_token count_env_file_token_lines parse_env_file Readings parse_lines
    count_lines
persist_token-read token none safe =
    Rewrite-Readings token [] (splitlines (persist_token token none)) safe
      (splitlines-new token safe.1)
persist_token-read token (some text) safe =
    let kept = map without_break (kept_lines (split_keepends text)) in
    let (read, counted, others) =
      Rewrite-Readings token kept (splitlines (persist_token token (some text))) safe
        (splitlines-Rewrite token text safe.1) in
    (
      read,
      counted ∙ ap (λ n. n + 1) (count_lines-kept (split_keepends text)),
      λ k other. others k other ∙ kept-read text k other,
    )

-- The token of a resolution.
abbrev found_token : Resolution → Option Text
found_token (Resolution.token t) = some t
found_token _ = none

pub resolve_in_file-read :
    (stdin generated : Text) (allow : Bool) (file file' : Option Text) (t : Text)
    (found : Option Text)
    → UrlSafe generated
    → read_env_file_token file ≡ found
    → resolve_in_file stdin generated allow file found ≡ (Resolution.token t, file')
    → read_env_file_token file' ≡ some t
unfolding resolve_in_file
resolve_in_file-read stdin generated allow file file' t (some existing) safe at h =
    ap (λ r. read_env_file_token r.1) (sym h) ∙ at ∙ ap (λ r. found_token r.0) h
resolve_in_file-read stdin generated true file file' t none safe at h =
    ap (λ r. read_env_file_token r.1) (sym h)
    ∙ (persist_token-read generated file safe).0
    ∙ ap (λ r. found_token r.0) h
resolve_in_file-read stdin generated false file file' t none safe at h =
    let absurd : none ≡ some t = ap (λ r. found_token r.0) h in ground (arith, absurd)
