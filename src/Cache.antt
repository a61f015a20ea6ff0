-- ===== src/Cache.antt =====
-- smolrouter/caching.py: `InMemoryModelCache` and `NoOpModelCache`. Every method runs under the lock,
-- so it is one function on the entries. `time.time()` is an argument, in natural numbers of a unit
-- as fine as needed; a clock that runs backwards gives an age below every lifetime, as here.
pub mod Keys
pub mod Aggregator
pub mod History
mod Tests
use Prim.Native.String
use smol_router.Prelude.{
  ℕ, ◌+◌, ◌-◌, String, Bool, true, false, not, Option, none, some, List, [], ◌∷◌, map, ltb,
  if◌then◌else◌, filter, length, sum_of, Dict, get, put, delete, or_else, has,
}
use smol_router.ModelInfo.{ModelInfo}

pub record CacheEntry : Type 0 where
  pub data_models : List ModelInfo
  pub cached_at : ℕ
  pub ttl_seconds : ℕ
  pub access_count : ℕ
  pub last_accessed : ℕ

unfoldable pub age_seconds : ℕ → CacheEntry → ℕ
age_seconds now e = now - e.cached_at

unfoldable pub is_expired : ℕ → CacheEntry → Bool
unfolding age_seconds
is_expired now e = ltb e.ttl_seconds (age_seconds now e)

unfoldable pub touch : ℕ → CacheEntry → CacheEntry
touch now e = record e { access_count = e.access_count + 1; last_accessed = now }

pub record InMemoryModelCache : Type 0 where
  pub default_ttl : ℕ
  pub entries : Dict CacheEntry

unfoldable pub cache_key : String → String
cache_key provider_id = String.◌++◌ "models:" provider_id

abbrev pub found :
    ℕ → String → Option CacheEntry → Dict CacheEntry → Option (List ModelInfo) × Dict CacheEntry
found now key none entries = (none, entries)
found now key (some e) entries =
    if is_expired now e
    then (none, delete key entries)
    else (some e.data_models, put key (touch now e) entries)

unfoldable pub get_cached_models :
    ℕ → String → InMemoryModelCache → Option (List ModelInfo) × InMemoryModelCache
get_cached_models now provider_id c =
    let key = cache_key provider_id in
    let (models, entries) = found now key (get key c.entries) c.entries in
    (models, record c { entries = entries })

unfoldable pub cache_models :
    ℕ → String → List ModelInfo → Option ℕ → InMemoryModelCache → InMemoryModelCache
cache_models now provider_id models ttl_seconds c = record c {
  entries =
      put (cache_key provider_id)
        (record {
          data_models = models;
          cached_at = now;
          ttl_seconds = or_else ttl_seconds c.default_ttl;
          access_count = 0;
          last_accessed = now;
        })
        c.entries;
}

unfoldable pub invalidate_cache : Option String → InMemoryModelCache → InMemoryModelCache
invalidate_cache none c = record c { entries = [] }
invalidate_cache (some provider_id) c = record c {
  entries = delete (cache_key provider_id) c.entries;
}

unfoldable pub expired_keys : ℕ → Dict CacheEntry → List String
expired_keys now entries = map (λ e. e.0) (filter (λ e. is_expired now e.1) entries)

-- `for key in keys: del entries[key]`
unfoldable pub delete_all : List String → Dict CacheEntry → Dict CacheEntry
delete_all [] entries = entries
delete_all (key ∷ keys) entries = delete_all keys (delete key entries)

unfoldable pub cleanup_expired : ℕ → InMemoryModelCache → InMemoryModelCache
cleanup_expired now c = record c { entries = delete_all (expired_keys now c.entries) c.entries }

abbrev pub is_live : ℕ → Option CacheEntry → Bool
is_live now none = false
is_live now (some e) = not (is_expired now e)

unfoldable pub is_cache_valid : ℕ → String → InMemoryModelCache → Bool
is_cache_valid now provider_id c = is_live now (get (cache_key provider_id) c.entries)

-- The totals of `get_cache_stats`: the entries, the expired ones, and the accesses.
unfoldable pub get_cache_stats : ℕ → InMemoryModelCache → ℕ × (ℕ × ℕ)
get_cache_stats now c = (
  length c.entries,
  (length (filter (λ e. is_expired now e.1) c.entries), sum_of (λ e. e.1.access_count) c.entries),
)
