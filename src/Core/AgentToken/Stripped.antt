-- ===== src/Core/AgentToken/Stripped.antt =====
-- What stripping the token lines of agent.env leaves to be read, and how the token's line reads.
use llauncher.Base.{
  inl, inr, ==-eq, all, all, leb, Bool, Bool-cases, true, false, not, ◌&&◌, ◌||◌, ℕ, List, [], ◌∷◌,
  ◌++◌, map, ◌==◌, nat_eq, if◌then◌else◌, ◌≡◌, ◌≢◌, refl, ap, ◌∙◌, inl, inr, arith,
}
use llauncher.Base.Dict.{Dict, lookup, put, lookup-put}
use llauncher.Base.Text.{Text, before, text_eq}
use llauncher.Base.Lines.{
  strip, lstrip, rstrip, splitlines, split_keepends, is_space, without_break,
}
use llauncher.Base.Lines.Strip.{
  no_space, strip-no_space, strip-before-strip, lstrip-without_break, rstrip-before-without_break,
}
use llauncher.Base.Lines.Split.{split_keepends-joined, split_keepends-Proper, Proper}
use llauncher.Core.AgentToken.{
  parse_stripped, token_key, strip_bom, after, has_code, is_skipped, is_empty, parse_line,
  is_token_line, kept_lines, strip_token_lines,
}

-- What `secrets.token_urlsafe` returns: letters, digits, `-` and `_`, and at least one of them.
abbrev pub url_safe : ℕ → Bool
url_safe c =
    (leb b'a' c && leb c b'z')
    || (leb b'A' c && leb c b'Z')
    || (leb b'0' c && leb c b'9')
    || c == b'-'
    || c == b'_'

abbrev pub UrlSafe : Text → Type 0
UrlSafe token = (is_empty token ≡ false) × (all url_safe token ≡ true)

and-both : (a b : Bool) → (a && b) ≡ true → (a ≡ true) × (b ≡ true)
and-both a b h = (ground (arith, h), ground (arith, h))

pub no_space-UrlSafe : (token : Text) → all url_safe token ≡ true → no_space token ≡ true
unfolding is_space
no_space-UrlSafe [] h = refl
no_space-UrlSafe (c ∷ s) h =
    let (safe, rest) = and-both (url_safe c) (all url_safe s) h in
    rw (no_space-UrlSafe s rest) (ground (arith, safe))

kept_lines-empty : (lines : List Text) → lines ≡ [] → kept_lines lines ≡ []
unfolding kept_lines
kept_lines-empty lines h = rw h

kept_lines-Proper : (lines : List Text) → Proper lines → Proper (kept_lines lines)
unfolding kept_lines
kept_lines-Proper [] p = tt
kept_lines-Proper (line ∷ lines) p = elim (Bool-cases (is_token_line line)) [
  | inl b ↦ rw b (kept_lines-Proper lines p.1)
  | inr b ↦ rw b (
    elim p.0 [ inl x ↦ inl x | inr x ↦ inr (x.0, kept_lines-empty lines x.1) ],
    kept_lines-Proper lines p.1,
  )
]

pub splitlines-strip_token_lines :
    (text : Text)
    → splitlines (strip_token_lines text) ≡ map without_break (kept_lines (split_keepends text))
unfolding splitlines strip_token_lines
splitlines-strip_token_lines text = ap (map without_break) (
    split_keepends-joined (kept_lines (split_keepends text))
      (kept_lines-Proper (split_keepends text) (split_keepends-Proper text)))

visible_mark : is_space b'=' ≡ false
unfolding is_space
visible_mark = refl

pub is_token_line-without_break :
    (line : Text) → is_token_line (without_break line) ≡ is_token_line line
unfolding is_token_line
is_token_line-without_break line =
    ap (λ key. strip_bom key == token_key)
      (ap (λ s. rstrip (before b'=' s)) (lstrip-without_break line)
        ∙ rstrip-before-without_break b'=' visible_mark (lstrip line))

put_unless :
    (a b c : Bool) (k key value : Text) (result : Dict Text Text)
    → k ≢ key
    → lookup k
        (if a then result else if b then result else if c then result else put key value result)
      ≡ lookup k result
put_unless true b c k key value result h = refl
put_unless false true c k key value result h = refl
put_unless false false true k key value result h = refl
put_unless false false false k key value result h =
    ground (arith, lookup-put key k value result, text_eq.same_iff key k)

-- A line that `strip_token_lines` takes out gives the parser no other key than the token's.
pub parse_line-other :
    (k line : Text) (result : Dict Text Text)
    → k ≢ token_key
    → is_token_line line ≡ true
    → lookup k (parse_line line result) ≡ lookup k result
unfolding parse_line parse_stripped is_token_line
parse_line-other k raw_line result other h =
    let line = strip raw_line in
    let key : strip_bom (strip (before b'=' line)) ≡ token_key =
      ap strip_bom (strip-before-strip b'=' visible_mark raw_line)
      ∙ ==-eq (strip_bom (rstrip (before b'=' (lstrip raw_line)))) token_key h in
    put_unless (is_skipped line) (not (has_code b'=' line))
      (is_empty (strip_bom (strip (before b'=' line)))) k (strip_bom (strip (before b'=' line)))
      (strip (after b'=' line)) result (λ q. other (q ∙ key))

pub no_space-line :
    (token : Text) → all url_safe token ≡ true → no_space (token_key ++ b'=' ∷ token) ≡ true
unfolding is_space
no_space-line token safe = no_space-UrlSafe token safe

parse_stripped-token :
    (token : Text) (result : Dict Text Text)
    → all url_safe token ≡ true
    → parse_stripped (token_key ++ b'=' ∷ token) result ≡ put token_key token result
unfolding parse_stripped before after strip_bom strip lstrip rstrip is_space
parse_stripped-token token result safe =
    ap (λ value. put token_key value result) (strip-no_space token (no_space-UrlSafe token safe))

pub parse_line-token :
    (token : Text) (result : Dict Text Text)
    → all url_safe token ≡ true
    → parse_line (token_key ++ b'=' ∷ token) result ≡ put token_key token result
unfolding parse_line
parse_line-token token result safe =
    ap (λ line. parse_stripped line result)
      (strip-no_space (token_key ++ b'=' ∷ token) (no_space-line token safe))
    ∙ parse_stripped-token token result safe

pub is_token_line-token : (token : Text) → is_token_line (token_key ++ b'=' ∷ token) ≡ true
unfolding is_token_line lstrip rstrip before strip_bom is_space
is_token_line-token token = refl
