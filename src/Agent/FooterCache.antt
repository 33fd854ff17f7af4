-- ===== src/Agent/FooterCache.antt =====
-- llauncher/agent/footer_cache.py: what a port serves, remembered for some seconds. The disk is a
-- function of the time. The lock makes each half of a call one step; a call is one step here.
pub mod Recent
use llauncher.Base.{
  ℕ, zero, suc, ◌+◌, Bool, Option, none, some, List, [], String, nat_eq, ltb, if◌then◌else◌,
}
use llauncher.Base.Dict.{Dict, lookup, put, remove}
use llauncher.Records.{Lockfile, ModelConfig}

pub record FooterContext : Type 0 where
  pub port : ℕ
  pub model : String
  pub ctx_size : Option ℕ
  pub parallel : Option ℕ

-- What `read_lockfile` and `ConfigStore.get_model` give.
pub record Store : Type 0 where
  pub read_lockfile : ℕ → Option Lockfile
  pub get_model : String → Option ModelConfig

of_config : ℕ → String → Option ModelConfig → FooterContext
of_config port model none = record { port = port; model = model; ctx_size = none; parallel = none }
of_config port model (some config) = record {
  port = port;
  model = model;
  ctx_size = some config.ctx_size;
  parallel = some config.parallel;
}

of_lockfile : ℕ → Option Lockfile → Store → Option FooterContext
unfolding of_config
of_lockfile port none store = none
of_lockfile port (some lf) store = some (of_config port lf.model (store.get_model lf.model))

unfoldable pub read_through : Store → ℕ → Option FooterContext
unfolding of_lockfile
read_through store port = of_lockfile port (store.read_lockfile port) store

-- The contexts, each with the time when it expires.
abbrev pub Cache : Type 0
Cache = Dict ℕ (FooterContext × ℕ)

keep : ℕ → ℕ → Option FooterContext → Cache → Option FooterContext × Cache
keep expiry port none cache = (none, remove port cache)
keep expiry port (some fresh) cache = (some fresh, put port (fresh, expiry) cache)

-- `expiry` is the time of the second reading of the clock, and `ttl`.
if_cached :
    ℕ
    → ℕ
    → ℕ
    → Option FooterContext
    → Option (FooterContext × ℕ)
    → Cache
    → Option FooterContext × Cache
unfolding keep
if_cached now expiry port fresh none cache = keep expiry port fresh cache
if_cached now expiry port fresh (some (context, until)) cache =
    if ltb now until then (some context, cache) else keep expiry port fresh cache

-- A call that looks into the cache at `now`, reads the disk at `read`, and keeps what it read at
-- `later`: its answer, and the cache after.
unfoldable pub get_footer_context :
    (ℕ → Store) → ℕ → ℕ → ℕ → ℕ → ℕ → Cache → Option FooterContext × Cache
unfolding read_through if_cached
get_footer_context disk zero now read later port cache = (read_through (disk read) port, cache)
get_footer_context disk (suc n) now read later port cache =
    if_cached now (later + suc n) port (read_through (disk read) port) (lookup port cache) cache

abbrev pub clear_cache : Cache → Cache
clear_cache cache = []
