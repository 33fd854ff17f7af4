-- ===== src/Agent/FooterCache/Recent.antt =====
-- How old an answer of the footer cache can be.
use llauncher.Base.{
  ℕ, ◌+◌, ◌≤◌, ◌≡◌, refl, ap, ◌∙◌, sym, Option, none, some, [], inl, inr, Bool-cases, ltb, nat_eq,
  zero, suc, arith,
}
use llauncher.Base.Dict.{lookup, put-cases, remove-some}
use llauncher.Agent.FooterCache.{
  FooterContext, Store, read_through, Cache, get_footer_context, if_cached, keep, clear_cache,
}

module _ (disk : ℕ → Store) (ttl : ℕ) where
  -- The caches that calls and clearings lead to, with the time when the last one ended.
  pub data Reached : ℕ → Cache → Type 0 where
    start : Reached 0 []
    called :
        (t now read later port : ℕ) (cache : Cache)
        → Reached t cache
        → t ≤ now
        → now ≤ read
        → read ≤ later
        → Reached later (get_footer_context disk ttl now read later port cache).1
    cleared : (t : ℕ) (cache : Cache) → Reached t cache → Reached t (clear_cache cache)

  -- The context was on the disk at `read`, in a call that ended at `later`.
  pub record Read (port : ℕ) (context : FooterContext) (later : ℕ) : Type 0 where
    pub read : ℕ
    pub in_call : read ≤ later
    pub on_disk : read_through (disk read) port ≡ some context

  -- Every entry was read in a call that ended before `time`, and expires `ttl` after that.
  abbrev IsRead : ℕ → Cache → Type 0
  IsRead time cache =
      (port : ℕ) (context : FooterContext) (until : ℕ)
      → lookup port cache ≡ some (context, until)
      → (ended : ℕ) × (until ≡ ended + ttl) × (ended ≤ time) × Read port context ended

  IsRead-later : (t later : ℕ) (cache : Cache) → t ≤ later → IsRead t cache → IsRead later cache
  IsRead-later t later cache h ok = λ p c u l.
      let entry = ok p c u l in
      let before : entry.0 ≤ later = omega (arith, h, entry.2) in
      (entry.0, entry.1, before, entry.3)

  keep-IsRead :
      (read later port : ℕ) (fresh : Option FooterContext) (cache : Cache)
      → read ≤ later
      → read_through (disk read) port ≡ fresh
      → IsRead later cache
      → IsRead later (keep (later + ttl) port fresh cache).1
  unfolding keep
  keep-IsRead read later port none cache h e ok =
      λ p c u l. ok p c u (remove-some port p (c, u) cache l).1
  keep-IsRead read later port (some fresh) cache h e ok = λ p c u l.
      elim (put-cases port p (fresh, later + ttl) (c, u) cache l) [
        | inl (same, entry) ↦ (
          later,
          sym (ap (λ x. x.1) entry),
          omega arith,
          record {
            read = read;
            in_call = h;
            on_disk = ap (read_through (disk read)) (sym same) ∙ e ∙ ap (λ x. some x.0) entry;
          },
        )
        | inr (apart, old) ↦ ok p c u old
      ]

  if_cached-IsRead :
      (now read later port : ℕ) (o : Option (FooterContext × ℕ)) (cache : Cache)
      → read ≤ later
      → IsRead later cache
      → IsRead later (if_cached now (later + ttl) port (read_through (disk read) port) o cache).1
  unfolding if_cached
  if_cached-IsRead now read later port none cache h ok =
      keep-IsRead read later port (read_through (disk read) port) cache h refl ok
  if_cached-IsRead now read later port (some (context, until)) cache h ok =
      elim (Bool-cases (ltb now until)) [
        | inl b ↦ rw b ok
        | inr b ↦ rw b (keep-IsRead read later port (read_through (disk read) port) cache h refl ok)
      ]

  -- What an answer says of the disk.
  abbrev pub IsRecent : ℕ → ℕ → ℕ → ℕ → Option FooterContext → Type 0
  IsRecent now read later port none = read_through (disk read) port ≡ none
  IsRecent now read later port (some context) =
      (ended : ℕ) × (now ≤ ended + ttl) × (ended ≤ later) × Read port context ended

  keep-IsRecent :
      (now read later port : ℕ) (fresh : Option FooterContext) (cache : Cache)
      → now ≤ read
      → read ≤ later
      → read_through (disk read) port ≡ fresh
      → IsRecent now read later port (keep (later + ttl) port fresh cache).0
  unfolding keep
  keep-IsRecent now read later port none cache h k e = e
  keep-IsRecent now read later port (some fresh) cache h k e =
      (later, omega (arith, h, k), omega arith, record { read = read; in_call = k; on_disk = e })

  if_cached-IsRecent :
      (now read later port : ℕ) (o : Option (FooterContext × ℕ)) (cache : Cache)
      → now ≤ read
      → read ≤ later
      → IsRead later cache
      → lookup port cache ≡ o
      → IsRecent now read later port
          (if_cached now (later + ttl) port (read_through (disk read) port) o cache).0
  unfolding if_cached
  if_cached-IsRecent now read later port none cache h k ok e =
      keep-IsRecent now read later port (read_through (disk read) port) cache h k refl
  if_cached-IsRecent now read later port (some (context, until)) cache h k ok e =
      elim (Bool-cases (ltb now until)) [
        | inl b ↦ rw b (
            let entry = ok port context until e in
            let young : now ≤ entry.0 + ttl = ground (arith, b, entry.1) in
            (entry.0, young, entry.2, entry.3))
        | inr b ↦
            rw b (keep-IsRecent now read later port (read_through (disk read) port) cache h k refl)
      ]

module _ (disk : ℕ → Store) where
  get-IsRead :
      (ttl now read later port : ℕ) (cache : Cache)
      → read ≤ later
      → IsRead disk ttl later cache
      → IsRead disk ttl later (get_footer_context disk ttl now read later port cache).1
  unfolding get_footer_context
  get-IsRead zero now read later port cache h ok = ok
  get-IsRead (suc n) now read later port cache h ok =
      if_cached-IsRead disk (suc n) now read later port (lookup port cache) cache h ok

  uncached :
      (now read later port : ℕ) (fresh : Option FooterContext)
      → now ≤ read
      → read ≤ later
      → read_through (disk read) port ≡ fresh
      → IsRecent disk zero now read later port fresh
  uncached now read later port none h k e = e
  uncached now read later port (some fresh) h k e =
      (later, omega (arith, h, k), omega arith, record { read = read; in_call = k; on_disk = e })

  get-IsRecent :
      (ttl now read later port : ℕ) (cache : Cache)
      → now ≤ read
      → read ≤ later
      → IsRead disk ttl later cache
      → IsRecent disk ttl now read later port
          (get_footer_context disk ttl now read later port cache).0
  unfolding get_footer_context
  get-IsRecent zero now read later port cache h k ok =
      uncached now read later port (read_through (disk read) port) h k refl
  get-IsRecent (suc n) now read later port cache h k ok =
      if_cached-IsRecent disk (suc n) now read later port (lookup port cache) cache h k ok refl

  lookup-empty : (p : ℕ) (entry : FooterContext × ℕ) → lookup p [] ≡ some entry → ⊥
  unfolding lookup
  lookup-empty p entry l = ground (arith, l)

  Reached-IsRead : (ttl t : ℕ) (cache : Cache) → Reached disk ttl t cache → IsRead disk ttl t cache
  Reached-IsRead ttl t cache start = λ p c u l. absurd (lookup-empty p (c, u) l)
  Reached-IsRead ttl t cache (called s now read later port before r h k m) =
      let late : s ≤ later = omega (arith, h, k, m) in
      get-IsRead ttl now read later port before m
        (IsRead-later disk ttl s later before late (Reached-IsRead ttl s before r))
  Reached-IsRead ttl t cache (cleared s before r) = λ p c u l. absurd (lookup-empty p (c, u) l)

  -- After any calls and clearings, an answer that names a model was on the disk during a call, this
  -- one or one that ended at most the time to live ago, and an answer that there is none is true at
  -- the time of this call's own reading: an absence is never remembered.
  pub get_footer_context-IsRecent :
      (ttl t now read later port : ℕ) (cache : Cache)
      → Reached disk ttl t cache
      → t ≤ now
      → now ≤ read
      → read ≤ later
      → IsRecent disk ttl now read later port
          (get_footer_context disk ttl now read later port cache).0
  get_footer_context-IsRecent ttl t now read later port cache r h k m =
      let late : t ≤ later = omega (arith, h, k, m) in
      get-IsRecent ttl now read later port cache k m
        (IsRead-later disk ttl t later cache late (Reached-IsRead ttl t cache r))
