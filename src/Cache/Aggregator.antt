-- ===== src/Cache/Aggregator.antt =====
-- smolrouter/caching.py: `ModelAggregator`, as the stretches of its coroutines between two waits.
-- `time.monotonic()` and `datetime.now()` are one argument, in whole seconds.
pub mod Flights
use smol_router.Prelude.{
  ℕ, zero, suc, ◌+◌, ◌-◌, String, Bool, true, false, not, ◌||◌, ◌==◌, Option, none, some, List, [],
  ◌∷◌, ltb, min, str_eq, if◌then◌else◌, filter, any, find?, Dict, get, put, delete, has, or_else,
}
use smol_router.ModelInfo.{ModelInfo}
use smol_router.Cache.{InMemoryModelCache, get_cached_models, cache_models, invalidate_cache}

-- `healthy` is `none` before the first check.
pub record ProviderHealthInfo : Type 0 where
  pub healthy : Option Bool
  pub last_checked : Option ℕ
  pub last_healthy : Option ℕ

-- A refresh that is not done.
pub record RefreshTask : Type 0 where
  pub id : ℕ
  pub provider_id : String

pub record ModelAggregator : Type 0 where
  pub cache : InMemoryModelCache
  pub default_cache_ttl : ℕ
  pub refresh_min_interval : ℕ
  pub provider_health : Dict ProviderHealthInfo
  pub last_known_models : Dict (List ModelInfo)
  pub refresh_tasks : Dict ℕ
  pub last_refresh_attempt : Dict ℕ
  -- the tasks of the event loop that are not done, and the next one's number
  pub running : List RefreshTask
  pub next_task : ℕ

-- What `provider.discover_models()` comes to within its time: `failed` stands for an error and
-- for a timeout.
pub data Discovery : Type 0 where
  discovered : List ModelInfo → Discovery
  failed : Discovery

-- What a reader gets at once, or the task that it waits for.
pub data Answer : Type 0 where
  answer : List ModelInfo → Answer
  wait_for : (task : ℕ) → Answer

abbrev pub no_health : ProviderHealthInfo
no_health = record { healthy = none; last_checked = none; last_healthy = none }

abbrev pub unknown_health : List String → Dict ProviderHealthInfo
unknown_health [] = []
unknown_health (provider_id ∷ providers) = put provider_id no_health (unknown_health providers)

-- `__init__`, on the ids of the providers
abbrev pub new_aggregator : List String → InMemoryModelCache → ℕ → ModelAggregator
new_aggregator providers cache default_cache_ttl = record {
  cache = cache;
  default_cache_ttl = default_cache_ttl;
  refresh_min_interval = min default_cache_ttl 30;
  provider_health = unknown_health providers;
  last_known_models = [];
  refresh_tasks = [];
  last_refresh_attempt = [];
  running = [];
  next_task = 0;
}

unfoldable pub mark_provider_healthy : ℕ → String → ModelAggregator → ModelAggregator
mark_provider_healthy now provider_id s = record s {
  provider_health =
      put provider_id
        (record { healthy = some true; last_checked = some now; last_healthy = some now })
        s.provider_health;
}

unfoldable pub mark_provider_unhealthy : ℕ → String → ModelAggregator → ModelAggregator
mark_provider_unhealthy now provider_id s = record s {
  provider_health =
      put provider_id
        (record (or_else (get provider_id s.provider_health) no_health) {
          healthy = some false;
          last_checked = some now;
        })
        s.provider_health;
}

-- `_check_single_provider_health`, `none` for an exception of the check
unfoldable pub check_single_provider_health :
    ℕ → String → Option Bool → ModelAggregator → ModelAggregator
check_single_provider_health now provider_id none s = mark_provider_unhealthy now provider_id s
check_single_provider_health now provider_id (some true) s = mark_provider_healthy now provider_id s
check_single_provider_health now provider_id (some false) s =
    mark_provider_unhealthy now provider_id s

abbrev pub is_not_false : Option Bool → Bool
is_not_false none = true
is_not_false (some b) = b

abbrev pub health_of : Option ProviderHealthInfo → Option Bool
health_of none = some true
health_of (some info) = info.healthy

unfoldable pub is_provider_queryable : ModelAggregator → String → Bool
is_provider_queryable s provider_id =
    is_not_false (health_of (get provider_id s.provider_health))
    || has provider_id s.last_known_models

-- The providers that `get_all_models` asks.
unfoldable pub providers_to_query : ModelAggregator → Bool → List String → List String
providers_to_query s include_unhealthy providers =
    if include_unhealthy then providers else filter (is_provider_queryable s) providers

abbrev pub is_running : ℕ → List RefreshTask → Bool
is_running task running = any (λ t. t.id == task) running

abbrev pub start_refresh : ℕ → String → ModelAggregator → ℕ × ModelAggregator
start_refresh now provider_id s = (
  s.next_task,
  record s {
    running = record { id = s.next_task; provider_id = provider_id } ∷ s.running;
    refresh_tasks = put provider_id s.next_task s.refresh_tasks;
    last_refresh_attempt = put provider_id now s.last_refresh_attempt;
    next_task = s.next_task + 1;
  },
)

abbrev pub join_or_start : ℕ → String → Option ℕ → ModelAggregator → ℕ × ModelAggregator
join_or_start now provider_id none s = start_refresh now provider_id s
join_or_start now provider_id (some task) s =
    if is_running task s.running then (task, s) else start_refresh now provider_id s

unfoldable pub get_or_start_refresh : ℕ → String → ModelAggregator → ℕ × ModelAggregator
get_or_start_refresh now provider_id s =
    join_or_start now provider_id (get provider_id s.refresh_tasks) s

unfoldable pub maybe_start_background_refresh : ℕ → String → ModelAggregator → ModelAggregator
maybe_start_background_refresh now provider_id s =
    let elapsed = now - or_else (get provider_id s.last_refresh_attempt) 0 in
    let refreshed = get_or_start_refresh now provider_id s in
    if ltb elapsed s.refresh_min_interval then s else refreshed.1

-- `_last_known_models.get(provider_id, []).copy()`
abbrev pub last_known : String → ModelAggregator → List ModelInfo
last_known provider_id s = or_else (get provider_id s.last_known_models) []

abbrev pub wait_on : ℕ × ModelAggregator → Answer × ModelAggregator
wait_on (task, s) = (wait_for task, s)

abbrev pub on_miss :
    ℕ → String → Option (List ModelInfo) → ModelAggregator → Answer × ModelAggregator
on_miss now provider_id (some stale_models) s =
    (answer stale_models, maybe_start_background_refresh now provider_id s)
on_miss now provider_id none s = wait_on (get_or_start_refresh now provider_id s)

abbrev pub on_lookup :
    ℕ → String → Option (List ModelInfo) → ModelAggregator → Answer × ModelAggregator
on_lookup now provider_id (some cached_models) s = (
  answer cached_models,
  record s { last_known_models = put provider_id cached_models s.last_known_models },
)
on_lookup now provider_id none s = on_miss now provider_id (get provider_id s.last_known_models) s

-- `_discover_models_from_provider`, up to its wait for a task
unfoldable pub discover_models_from_provider :
    ℕ → Bool → String → ModelAggregator → Answer × ModelAggregator
discover_models_from_provider now force_refresh provider_id s =
    let (cached_models, cache) = get_cached_models now provider_id s.cache in
    if force_refresh
    then wait_on (get_or_start_refresh now provider_id s)
    else on_lookup now provider_id cached_models (record s { cache = cache })

-- `_await_bounded`: the result of the task, if it is done in time without an exception
unfoldable pub await_bounded : Option (List ModelInfo) → String → ModelAggregator → List ModelInfo
await_bounded result provider_id s = or_else result (last_known provider_id s)

-- `_run_refresh`, from the end of the discovery on
unfoldable pub run_refresh :
    ℕ → String → Discovery → ModelAggregator → List ModelInfo × ModelAggregator
run_refresh now provider_id (discovered models) s = (
  models,
  mark_provider_healthy now provider_id (record s {
    cache = cache_models now provider_id models (some s.default_cache_ttl) s.cache;
    last_known_models = put provider_id models s.last_known_models;
  }),
)
run_refresh now provider_id failed s =
    (last_known provider_id s, mark_provider_unhealthy now provider_id s)

-- The task is done.
abbrev pub end_task : ℕ → ModelAggregator → ModelAggregator
end_task task s = record s { running = filter (λ t. not (t.id == task)) s.running }

abbrev pub forget_task : Option ℕ → String → ℕ → ModelAggregator → ModelAggregator
forget_task none provider_id task s = s
forget_task (some current) provider_id task s =
    if current == task then record s { refresh_tasks = delete provider_id s.refresh_tasks } else s

-- `_on_refresh_done`
unfoldable pub on_refresh_done : String → ℕ → ModelAggregator → ModelAggregator
on_refresh_done provider_id task s =
    forget_task (get provider_id s.refresh_tasks) provider_id task s

abbrev pub clear_all : ModelAggregator → ModelAggregator
clear_all s = record s {
  cache = invalidate_cache none s.cache;
  last_known_models = [];
  last_refresh_attempt = [];
}

unfoldable pub refresh_provider_cache : Option String → ModelAggregator → ModelAggregator
refresh_provider_cache none s = clear_all s
refresh_provider_cache (some provider_id) s =
    if str_eq provider_id "" then clear_all s else record s {
      cache = invalidate_cache (some provider_id) s.cache;
      last_known_models = delete provider_id s.last_known_models;
      last_refresh_attempt = delete provider_id s.last_refresh_attempt;
    }

-- `get_models_by_provider`, which knows its providers
unfoldable pub get_models_by_provider_of :
    ℕ → Bool → List String → String → ModelAggregator → Answer × ModelAggregator
get_models_by_provider_of now force_refresh providers provider_id s =
    let asked = discover_models_from_provider now force_refresh provider_id s in
    if any (str_eq provider_id) providers then asked else (answer [], s)
