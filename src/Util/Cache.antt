-- ===== src/Util/Cache.antt =====
-- llauncher/util/cache.py, `_TTLCache`. The lock is not modelled: a method is one step. A key is
-- any type with a test, and time is the monotonic clock's, an argument of the methods that read it.
pub mod Reads
use llauncher.Base.{ℕ, ◌+◌, ltb, Bool, Option, none, some, List, Eq, ◌==◌, if◌then◌else◌}
use llauncher.Base.Dict.{Dict, lookup, put, remove}

pub record TtlCache (K V : Type 0) : Type 0 where
  pub ttl : ℕ
  pub store : Dict K (V × ℕ)

module _ {K V : Type 0} ⦃e : Eq K⦄ where
  unfoldable pub get_entry : ℕ → K → TtlCache K V → Option (V × ℕ) → Option V × TtlCache K V
  get_entry now key c none = (none, c)
  get_entry now key c (some (value, expiry)) =
      if ltb expiry now then (none, record c { store = remove key c.store }) else (some value, c)

  -- `get`: the value, and the cache without the entry if it has expired.
  unfoldable pub get : ℕ → K → TtlCache K V → Option V × TtlCache K V
  unfolding get_entry
  get now key c = get_entry now key c (lookup key c.store)

  abbrev pub effective_ttl : Option ℕ → TtlCache K V → ℕ
  effective_ttl none c = c.ttl
  effective_ttl (some ttl_seconds) c = ttl_seconds

  unfoldable pub set : ℕ → K → V → Option ℕ → TtlCache K V → TtlCache K V
  set now key value ttl_seconds c = record c {
    store = put key (value, now + effective_ttl ttl_seconds c) c.store;
  }

  unfoldable pub invalidate : K → TtlCache K V → TtlCache K V
  invalidate key c = record c { store = remove key c.store }

  unfoldable pub invalidate_all : TtlCache K V → TtlCache K V
  invalidate_all c = record c { store = List.[] }
