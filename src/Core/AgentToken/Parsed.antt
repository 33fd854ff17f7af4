-- ===== src/Core/AgentToken/Parsed.antt =====
-- The lines of agent.env one by one: what they parse to and how many are token lines.
use llauncher.Base.{
  inl, inr, all, all, Bool, Bool-cases, true, false, not, ◌+◌, List, [], ◌∷◌, ◌++◌, map, nat_eq,
  if◌then◌else◌, ◌≡◌, ◌≢◌, refl, sym, ap, ◌∙◌, inl, inr, arith,
}
use llauncher.Base.Dict.{Dict, lookup, put, lookup-put}
use llauncher.Base.Text.{Text, before, text_eq}
use llauncher.Base.Lines.{strip, splitlines, split_keepends, without_break}
use llauncher.Base.Lines.Strip.{newline-Ended, without_break-newline}
use mathlib.Core.List.{append-nil}
use llauncher.Base.Lines.Split.{split_keepends-Ended}
use llauncher.Core.AgentToken.{
  parse_stripped, token_key, strip_bom, after, has_code, is_skipped, is_empty, parse_line,
  parse_lines, is_token_line, count_lines, kept_lines, token_line,
}
use llauncher.Core.AgentToken.Stripped.{
  url_safe, is_token_line-without_break, parse_line-other, no_space-line,
}

pub splitlines-token_line :
    (token : Text)
    → all url_safe token ≡ true
    → splitlines (token_line token) ≡ (token_key ++ b'=' ∷ token) ∷ []
unfolding splitlines split_keepends
splitlines-token_line token safe =
    ap (λ text. map without_break (split_keepends text)) (sym (append-nil (token_line token)))
    ∙ ap (map without_break) (
        split_keepends-Ended (token_line token) []
          (newline-Ended (token_key ++ b'=' ∷ token) (no_space-line token safe)))
    ∙ ap (λ line. line ∷ []) (without_break-newline (token_key ++ b'=' ∷ token))

pub parse_lines-append :
    (lines more : List Text) (result : Dict Text Text)
    → parse_lines (lines ++ more) result ≡ parse_lines more (parse_lines lines result)
unfolding parse_lines
parse_lines-append [] more result = refl
parse_lines-append (line ∷ lines) more result =
    parse_lines-append lines more (parse_line line result)

pub count_lines-append :
    (lines more : List Text) → count_lines (lines ++ more) ≡ count_lines lines + count_lines more
unfolding count_lines
count_lines-append [] more = omega arith
count_lines-append (line ∷ lines) more = ground (arith, count_lines-append lines more)

put_unless_same :
    (a b c : Bool) (k key value : Text) (d e : Dict Text Text)
    → lookup k d ≡ lookup k e
    → lookup k (if a then d else if b then d else if c then d else put key value d)
      ≡ lookup k (if a then e else if b then e else if c then e else put key value e)
put_unless_same true b c k key value d e h = h
put_unless_same false true c k key value d e h = h
put_unless_same false false true k key value d e h = h
put_unless_same false false false k key value d e h =
    ground (arith, lookup-put key k value d, lookup-put key k value e, h)

parse_line-same :
    (k line : Text) (d e : Dict Text Text)
    → lookup k d ≡ lookup k e
    → lookup k (parse_line line d) ≡ lookup k (parse_line line e)
unfolding parse_line parse_stripped
parse_line-same k raw_line d e h =
    let line = strip raw_line in
    put_unless_same (is_skipped line) (not (has_code b'=' line))
      (is_empty (strip_bom (strip (before b'=' line)))) k (strip_bom (strip (before b'=' line)))
      (strip (after b'=' line)) d e h

pub parse_lines-kept :
    (k : Text) (lines : List Text) (d e : Dict Text Text)
    → k ≢ token_key
    → lookup k d ≡ lookup k e
    → lookup k (parse_lines (map without_break (kept_lines lines)) d)
      ≡ lookup k (parse_lines (map without_break lines) e)
unfolding parse_lines kept_lines
parse_lines-kept k [] d e other h = h
parse_lines-kept k (line ∷ lines) d e other h = elim (Bool-cases (is_token_line line)) [
  | inl b ↦ rw b (
      parse_lines-kept k lines d (parse_line (without_break line) e) other (
        h
        ∙ sym (
            parse_line-other k (without_break line) e other
              (is_token_line-without_break line ∙ b))))
  | inr b ↦ rw b (
      parse_lines-kept k lines (parse_line (without_break line) d)
        (parse_line (without_break line) e) other (parse_line-same k (without_break line) d e h))
]

pub count_lines-kept : (lines : List Text) → count_lines (map without_break (kept_lines lines)) ≡ 0
unfolding count_lines kept_lines
count_lines-kept [] = refl
count_lines-kept (line ∷ lines) = elim (Bool-cases (is_token_line line)) [
  | inl b ↦ rw b (count_lines-kept lines)
  | inr b ↦ rw (b, is_token_line-without_break line, b) (count_lines-kept lines)
]
