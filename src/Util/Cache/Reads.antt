-- ===== src/Util/Cache/Reads.antt =====
-- What a cache answers, against a store that forgets nothing until it is told to.
use llauncher.Base.{
  ℕ, ◌+◌, ◌≤◌, ltb, Option, none, some, List, [], ◌∷◌, All, Eq, ◌==◌, ◌≡◌, refl, arith,
  if◌then◌else◌, ◌∙◌,
}
use llauncher.Base.Dict.{lookup, lookup-put, lookup-remove}
use llauncher.Util.Cache.{TtlCache, get, get_entry, set, invalidate, invalidate_all}

-- An entry, if it has not expired.
abbrev pub live_at : {V : Type 0} → ℕ → Option (V × ℕ) → Option V
live_at now none = none
live_at now (some (value, expiry)) = if ltb expiry now then none else some value

-- A call of a method, with the time that the call reads.
pub data Call (K V : Type 0) : Type 0 where
  got : ℕ → K → Call K V
  stored : ℕ → K → V → Option ℕ → Call K V
  invalidated : K → Call K V
  cleared : Call K V

module _ {K V : Type 0} where
  -- A call that read the clock no later than this.
  abbrev pub Early : ℕ → Call K V → Type 0
  Early later (Call.got now key) = now ≤ later
  Early later _ = Unit

module _ {K V : Type 0} ⦃e : Eq K⦄ where
  abbrev pub perform : Call K V → TtlCache K V → TtlCache K V
  perform (Call.got now key) c = (get now key c).1
  perform (Call.stored now key value ttl_seconds) c = set now key value ttl_seconds c
  perform (Call.invalidated key) c = invalidate key c
  perform Call.cleared c = invalidate_all c

  -- The calls, the last one first.
  abbrev pub performed : List (Call K V) → TtlCache K V → TtlCache K V
  performed [] c = c
  performed (call ∷ before) c = perform call (performed before c)

  -- What the calls last stored under a key, with the time it stays good until. No read changes it.
  abbrev pub last_stored : ℕ → K → List (Call K V) → Option (V × ℕ)
  last_stored ttl key [] = none
  last_stored ttl key (Call.got now k ∷ before) = last_stored ttl key before
  last_stored ttl key (Call.stored now k value none ∷ before) =
      if k == key then some (value, now + ttl) else last_stored ttl key before
  last_stored ttl key (Call.stored now k value (some seconds) ∷ before) =
      if k == key then some (value, now + seconds) else last_stored ttl key before
  last_stored ttl key (Call.invalidated k ∷ before) =
      if k == key then none else last_stored ttl key before
  last_stored ttl key (Call.cleared ∷ before) = none

  abbrev pub empty_cache : ℕ → TtlCache K V
  empty_cache ttl_seconds = record { ttl = ttl_seconds; store = [] }

  get_entry-ttl :
      (now : ℕ) (key : K) (c : TtlCache K V) (o : Option (V × ℕ))
      → (get_entry now key c o).1.ttl ≡ c.ttl
  unfolding get_entry
  get_entry-ttl now key c none = refl
  get_entry-ttl now key c (some (value, expiry)) = ground arith

  perform-ttl : (call : Call K V) (c : TtlCache K V) → (perform call c).ttl ≡ c.ttl
  unfolding get set invalidate invalidate_all
  perform-ttl (Call.got now key) c = get_entry-ttl now key c (lookup key c.store)
  perform-ttl (Call.stored now key value ttl_seconds) c = refl
  perform-ttl (Call.invalidated key) c = refl
  perform-ttl Call.cleared c = refl

  performed-ttl :
      (ttl : ℕ) (calls : List (Call K V)) → (performed calls (empty_cache ttl)).ttl ≡ ttl
  performed-ttl ttl [] = refl
  performed-ttl ttl (call ∷ before) =
      perform-ttl call (performed before (empty_cache ttl)) ∙ performed-ttl ttl before

  live_at-get_entry :
      (now later : ℕ) (key k : K) (c : TtlCache K V) (o : Option (V × ℕ))
      → lookup key c.store ≡ o
      → now ≤ later
      → live_at later (lookup k (get_entry now key c o).1.store) ≡ live_at later (lookup k c.store)
  unfolding get_entry
  live_at-get_entry now later key k c none found h = refl
  live_at-get_entry now later key k c (some (value, expiry)) found h =
      ground (arith, lookup-remove key k c.store, e.same_iff key k)

  live_at-get :
      (now later : ℕ) (key k : K) (c : TtlCache K V)
      → now ≤ later
      → live_at later (lookup k (get now key c).1.store) ≡ live_at later (lookup k c.store)
  unfolding get
  live_at-get now later key k c = live_at-get_entry now later key k c (lookup key c.store) refl

  get_entry-value :
      (now : ℕ) (k : K) (c : TtlCache K V) (o : Option (V × ℕ))
      → (get_entry now k c o).0 ≡ live_at now o
  unfolding get_entry
  get_entry-value now k c none = refl
  get_entry-value now k c (some (value, expiry)) = ground arith

  get-value :
      (now : ℕ) (k : K) (c : TtlCache K V) → (get now k c).0 ≡ live_at now (lookup k c.store)
  unfolding get
  get-value now k c = get_entry-value now k c (lookup k c.store)

  live_at-performed :
      (ttl later : ℕ) (k : K) (calls : List (Call K V))
      → All (Early later) calls
      → live_at later (lookup k (performed calls (empty_cache ttl)).store)
        ≡ live_at later (last_stored ttl k calls)
  unfolding lookup set invalidate invalidate_all
  live_at-performed ttl later k [] early = refl
  live_at-performed ttl later k (Call.got now key ∷ before) early =
      live_at-get now later key k (performed before (empty_cache ttl)) early.0
      ∙ live_at-performed ttl later k before early.1
  live_at-performed ttl later k (Call.stored now key value none ∷ before) early = ground (
    arith,
    performed-ttl ttl before,
    live_at-performed ttl later k before early.1,
    lookup-put key k (value, now + (performed before (empty_cache ttl)).ttl)
        (performed before (empty_cache ttl)).store,
  )
  live_at-performed ttl later k (Call.stored now key value (some seconds) ∷ before) early = ground (
    arith,
    live_at-performed ttl later k before early.1,
    lookup-put key k (value, now + seconds) (performed before (empty_cache ttl)).store,
  )
  live_at-performed ttl later k (Call.invalidated key ∷ before) early = ground (
    arith,
    live_at-performed ttl later k before early.1,
    lookup-remove key k (performed before (empty_cache ttl)).store,
  )
  live_at-performed ttl later k (Call.cleared ∷ before) early = refl

  -- After any calls to a fresh cache, a `get` that reads the clock no earlier than their `get`s did
  -- answers what the last `set` of its key stored, unless that has expired or an `invalidate` or
  -- `invalidate_all` came after it: that a `get` deletes what has expired is never observed.
  pub get-performed :
      (ttl later : ℕ) (k : K) (calls : List (Call K V))
      → All (Early later) calls
      → (get later k (performed calls (empty_cache ttl))).0
        ≡ live_at later (last_stored ttl k calls)
  get-performed ttl later k calls early =
      get-value later k (performed calls (empty_cache ttl))
      ∙ live_at-performed ttl later k calls early
