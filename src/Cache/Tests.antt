-- ===== src/Cache/Tests.antt =====
-- A run of the cache on concrete inputs.
use smol_router.Prelude.{String, ◌≡◌, refl, inl, true, none, some, [], ◌∷◌, arith, get, put, delete}
use smol_router.ModelInfo.{ModelInfo}
use smol_router.Cache.{
  InMemoryModelCache, age_seconds, is_expired, touch, cache_key, get_cached_models, cache_models,
  invalidate_cache, expired_keys, delete_all, cleanup_expired, get_cache_stats,
}
use smol_router.Cache.Aggregator.{
  RefreshTask, ModelAggregator, new_aggregator, discover_models_from_provider, get_or_start_refresh,
}
use smol_router.Cache.Aggregator.Flights.{ask, initial, next, single_flight}
use smol_router.Cache.History.{
  store, invalidate, lookup, cleanup, History, InOrder, run, step_call, last_write, fresh,
  get_cached_models-run,
}

abbrev served : ModelInfo
served = record {
  id = "m-1";
  name = "m";
  provider_id = "a";
  provider_type = "openai";
  endpoint = "http://a";
  aliases = [];
}

abbrev provider : String
provider = "a"

abbrev other_provider : String
other_provider = "b"

-- The newest call first.
abbrev calls : History
calls =
    (40, cleanup)
    ∷ (30, lookup provider)
    ∷ (25, invalidate (some other_provider))
    ∷ (20, store other_provider [] (some 5))
    ∷ (10, store provider (served ∷ []) none)
    ∷ []

calls-InOrder : InOrder 100 calls
calls-InOrder = (omega arith, (omega arith, (omega arith, (omega arith, (omega arith, tt)))))

get_cached_models-run_example :
    (get_cached_models 100 provider (run 300 calls)).0 ≡ fresh 100 (last_write 300 provider calls)
get_cached_models-run_example = get_cached_models-run 300 100 provider calls calls-InOrder

served-last : fresh 100 (last_write 300 provider calls) ≡ some (served ∷ [])
unfolding last_write
served-last = refl

stats-count : get_cache_stats 100 (run 300 calls) ≡ (1, (0, 1))
unfolding get_cache_stats run step_call cache_models invalidate_cache get_cached_models
    cleanup_expired expired_keys delete_all is_expired age_seconds touch cache_key get put delete
stats-count = refl

abbrev empty : InMemoryModelCache
empty = record { default_ttl = 300; entries = [] }

abbrev asked : ModelAggregator
asked = (discover_models_from_provider 5 true provider (new_aggregator (provider ∷ []) empty 300)).1

-- Two readers that insist on fresh models.
abbrev asked_twice : ModelAggregator
asked_twice = (discover_models_from_provider 6 true provider asked).1

abbrev flight : RefreshTask
flight = record { id = 0; provider_id = provider }

flight-runs : asked_twice.running ≡ flight ∷ []
unfolding discover_models_from_provider get_or_start_refresh get put
flight-runs = refl

single_flight_example : flight ≡ flight
single_flight_example =
    single_flight (provider ∷ []) empty 300 asked_twice flight flight
      (next (next initial (ask (new_aggregator (provider ∷ []) empty 300) 5 true provider))
        (ask asked 6 true provider))
      (rw flight-runs (inl refl)) (rw flight-runs (inl refl)) refl
