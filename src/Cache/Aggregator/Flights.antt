-- ===== src/Cache/Aggregator/Flights.antt =====
-- The refreshes of `ModelAggregator` that run at the same time, over any interleaving.
use smol_router.Prelude.{
  ℕ, ◌-◌, or_else, String, ◌≡◌, refl, sym, ap, ◌∙◌, inl, inr, Bool, true, false, not, ◌==◌, Option,
  none, some, List, arith, ltb, str_eq, eq_iff, In, In-filter, any-of_In, Bool-cases, Option-cases,
  get, get-put, get-delete,
}
use smol_router.ModelInfo.{ModelInfo}
use smol_router.Cache.{InMemoryModelCache, get_cached_models}
use smol_router.Cache.Aggregator.{
  RefreshTask, ModelAggregator, new_aggregator, Discovery, discovered, failed,
  mark_provider_healthy, mark_provider_unhealthy, check_single_provider_health, is_running,
  start_refresh, get_or_start_refresh, maybe_start_background_refresh, on_miss, on_lookup,
  discover_models_from_provider, run_refresh, end_task, forget_task, on_refresh_done,
  refresh_provider_cache,
}

-- One stretch of a coroutine, of a task or of a callback. A task ends with its own provider's
-- discovery or is cancelled; its callback runs at any time after.
pub data AggregatorStep : ModelAggregator → ModelAggregator → Type 0 where
  ask :
      (s : ModelAggregator) (now : ℕ) (force_refresh : Bool) (provider_id : String)
      → AggregatorStep s (discover_models_from_provider now force_refresh provider_id s).1
  finish :
      (s : ModelAggregator) (now : ℕ) (t : RefreshTask) (outcome : Discovery)
      → In t s.running
      → AggregatorStep s (run_refresh now t.provider_id outcome (end_task t.id s)).1
  cancel : (s : ModelAggregator) (task : ℕ) → AggregatorStep s (end_task task s)
  called_back :
      (s : ModelAggregator) (provider_id : String) (task : ℕ)
      → is_running task s.running ≡ false
      → AggregatorStep s (on_refresh_done provider_id task s)
  clear :
      (s : ModelAggregator) (provider_id : Option String)
      → AggregatorStep s (refresh_provider_cache provider_id s)
  check :
      (s : ModelAggregator) (now : ℕ) (provider_id : String) (healthy : Option Bool)
      → AggregatorStep s (check_single_provider_health now provider_id healthy s)

pub data AggregatorReach (providers : List String) (cache : InMemoryModelCache) (ttl : ℕ)
    : ModelAggregator → Type 0 where
  initial : AggregatorReach providers cache ttl (new_aggregator providers cache ttl)
  next :
      {s t : ModelAggregator}
      → AggregatorReach providers cache ttl s
      → AggregatorStep s t
      → AggregatorReach providers cache ttl t

-- A task that runs is the one that its provider's readers would join.
abbrev IsTracked : ModelAggregator → Type 0
IsTracked s = (t : RefreshTask) → In t s.running → get t.provider_id s.refresh_tasks ≡ some t.id

is_running-of_In :
    (t : RefreshTask) (running : List RefreshTask) → In t running → is_running t.id running ≡ true
is_running-of_In t running m = any-of_In (λ u. u.id == t.id) t running m (ground arith)

start_refresh-IsTracked :
    (now : ℕ) (provider_id : String) (s : ModelAggregator)
    → ((t : RefreshTask) → In t s.running → str_eq provider_id t.provider_id ≡ false)
    → IsTracked s
    → IsTracked (start_refresh now provider_id s).1
start_refresh-IsTracked now provider_id s alone a t (inl e) =
    let is_id : t.id ≡ s.next_task = ap (λ u. u.id) e in
    let is_provider : t.provider_id ≡ provider_id = ap (λ u. u.provider_id) e in
    rw (is_id, is_provider)
      (ground (
        arith,
        get-put provider_id provider_id s.next_task s.refresh_tasks,
        eq_iff provider_id provider_id,
      ))
start_refresh-IsTracked now provider_id s alone a t (inr m) =
    let other = alone t m in
    let kept = a t m in
    ground (arith, get-put provider_id t.provider_id s.next_task s.refresh_tasks)

-- No task runs for a provider whose entry names none that does.
alone_without :
    (provider_id : String) (s : ModelAggregator)
    → IsTracked s
    → ((task : ℕ) → get provider_id s.refresh_tasks ≡ some task → is_running task s.running ≡ false)
    → (t : RefreshTask) → In t s.running
    → str_eq provider_id t.provider_id ≡ false
alone_without provider_id s a idle t m = elim (Bool-cases (str_eq provider_id t.provider_id)) [
  | inr other ↦ other
  | inl same ↦
      let is_provider : provider_id ≡ t.provider_id = (eq_iff provider_id t.provider_id).0 same in
      let named : get provider_id s.refresh_tasks ≡ some t.id = rw is_provider (a t m) in
      absurd
        (let clash = idle t.id named in let runs = is_running-of_In t s.running m in ground arith)
]

get_or_start-IsTracked :
    (now : ℕ) (provider_id : String) (s : ModelAggregator)
    → IsTracked s
    → IsTracked (get_or_start_refresh now provider_id s).1
unfolding get_or_start_refresh
get_or_start-IsTracked now provider_id s a = elim (Option-cases (get provider_id s.refresh_tasks)) [
  | inl nothing ↦ rw nothing (
      start_refresh-IsTracked now provider_id s
        (alone_without provider_id s a (λ task e. absurd (let clash = sym nothing ∙ e in cc))) a)
  | inr (task, named) ↦ elim (Bool-cases (is_running task s.running)) [
    | inl runs ↦ rw (named, runs) a
    | inr idle ↦
        rw (named, idle)
          (start_refresh-IsTracked now provider_id s
            (alone_without provider_id s a (λ other e.
              let same : task ≡ other = (let both = sym named ∙ e in ground arith) in
              rw (← same) idle))
            a)
  ]
]

maybe_start-IsTracked :
    (now : ℕ) (provider_id : String) (s : ModelAggregator)
    → IsTracked s
    → IsTracked (maybe_start_background_refresh now provider_id s)
unfolding maybe_start_background_refresh
maybe_start-IsTracked now provider_id s a =
    let elapsed = now - or_else (get provider_id s.last_refresh_attempt) 0 in
    elim (Bool-cases (ltb elapsed s.refresh_min_interval)) [
      | inl early ↦ rw early a
      | inr late ↦ rw late (get_or_start-IsTracked now provider_id s a)
    ]

on_miss-IsTracked :
    (now : ℕ) (provider_id : String) (stale : Option (List ModelInfo)) (s : ModelAggregator)
    → IsTracked s
    → IsTracked (on_miss now provider_id stale s).1
on_miss-IsTracked now provider_id none s a = get_or_start-IsTracked now provider_id s a
on_miss-IsTracked now provider_id (some models) s a = maybe_start-IsTracked now provider_id s a

on_lookup-IsTracked :
    (now : ℕ) (provider_id : String) (found : Option (List ModelInfo)) (s : ModelAggregator)
    → IsTracked s
    → IsTracked (on_lookup now provider_id found s).1
on_lookup-IsTracked now provider_id none s a =
    on_miss-IsTracked now provider_id (get provider_id s.last_known_models) s a
on_lookup-IsTracked now provider_id (some models) s a = a

discover-IsTracked :
    (now : ℕ) (force_refresh : Bool) (provider_id : String) (s : ModelAggregator)
    → IsTracked s
    → IsTracked (discover_models_from_provider now force_refresh provider_id s).1
unfolding discover_models_from_provider
discover-IsTracked now true provider_id s a = get_or_start-IsTracked now provider_id s a
discover-IsTracked now false provider_id s a =
    let looked_up = get_cached_models now provider_id s.cache in
    on_lookup-IsTracked now provider_id looked_up.0 (record s { cache = looked_up.1 }) a

end_task-IsTracked : (task : ℕ) (s : ModelAggregator) → IsTracked s → IsTracked (end_task task s)
end_task-IsTracked task s a t m = a t ((In-filter (λ u. not (u.id == task)) t s.running).0 m).0

run_refresh-IsTracked :
    (now : ℕ) (provider_id : String) (outcome : Discovery) (s : ModelAggregator)
    → IsTracked s
    → IsTracked (run_refresh now provider_id outcome s).1
unfolding run_refresh mark_provider_healthy mark_provider_unhealthy
run_refresh-IsTracked now provider_id (discovered models) s a = a
run_refresh-IsTracked now provider_id failed s a = a

forget_task-IsTracked :
    (current : Option ℕ) (provider_id : String) (task : ℕ) (s : ModelAggregator)
    → get provider_id s.refresh_tasks ≡ current
    → is_running task s.running ≡ false
    → IsTracked s
    → IsTracked (forget_task current provider_id task s)
forget_task-IsTracked none provider_id task s e idle a = a
forget_task-IsTracked (some current) provider_id task s e idle a =
    elim (Bool-cases (current == task)) [
      | inr other ↦ rw other a
      | inl same ↦ rw same (λ t m.
          let elsewhere =
            alone_without provider_id s a
              (λ named h.
                let is_task : task ≡ named = (let both = sym e ∙ h in ground arith) in
                rw (← is_task) idle)
              t m in
          let kept = a t m in ground (arith, get-delete provider_id t.provider_id s.refresh_tasks))
    ]

check-IsTracked :
    (now : ℕ) (provider_id : String) (healthy : Option Bool) (s : ModelAggregator)
    → IsTracked s
    → IsTracked (check_single_provider_health now provider_id healthy s)
unfolding check_single_provider_health mark_provider_healthy mark_provider_unhealthy
check-IsTracked now provider_id none s a = a
check-IsTracked now provider_id (some true) s a = a
check-IsTracked now provider_id (some false) s a = a

clear-IsTracked :
    (provider_id : Option String) (s : ModelAggregator)
    → IsTracked s
    → IsTracked (refresh_provider_cache provider_id s)
unfolding refresh_provider_cache
clear-IsTracked none s a = a
clear-IsTracked (some provider_id) s a = elim (Bool-cases (str_eq provider_id "")) [
  | inl blank ↦ rw blank a
  | inr named ↦ rw named a
]

AggregatorStep-IsTracked : {s t : ModelAggregator} → AggregatorStep s t → IsTracked s → IsTracked t
unfolding on_refresh_done
AggregatorStep-IsTracked (ask s now force_refresh provider_id) a =
    discover-IsTracked now force_refresh provider_id s a
AggregatorStep-IsTracked (finish s now t outcome m) a =
    run_refresh-IsTracked now t.provider_id outcome (end_task t.id s) (end_task-IsTracked t.id s a)
AggregatorStep-IsTracked (cancel s task) a = end_task-IsTracked task s a
AggregatorStep-IsTracked (called_back s provider_id task idle) a =
    forget_task-IsTracked (get provider_id s.refresh_tasks) provider_id task s refl idle a
AggregatorStep-IsTracked (clear s provider_id) a = clear-IsTracked provider_id s a
AggregatorStep-IsTracked (check s now provider_id healthy) a =
    check-IsTracked now provider_id healthy s a

module _ (providers : List String) (cache : InMemoryModelCache) (ttl : ℕ) where
  AggregatorReach-IsTracked :
      {s : ModelAggregator} → AggregatorReach providers cache ttl s → IsTracked s
  AggregatorReach-IsTracked initial = λ t m. absurd m
  AggregatorReach-IsTracked (next r st) = AggregatorStep-IsTracked st (AggregatorReach-IsTracked r)

  -- However readers, refreshes, their callbacks, health checks and clearings of the cache
  -- interleave, a provider never has two refreshes under way: two tasks that run for the same
  -- provider are one.
  pub single_flight :
      (s : ModelAggregator) (t u : RefreshTask)
      → AggregatorReach providers cache ttl s
      → In t s.running
      → In u s.running
      → t.provider_id ≡ u.provider_id
      → t ≡ u
  single_flight s t u r m n same =
      let tracked = AggregatorReach-IsTracked r in
      let first = tracked t m in
      let second = tracked u n in
      let named : get t.provider_id s.refresh_tasks ≡ some u.id = rw same second in
      let same_id : t.id ≡ u.id = ground arith in cc
