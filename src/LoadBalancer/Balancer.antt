-- ===== src/LoadBalancer/Balancer.antt =====
-- smolrouter/load_balancer.py: the methods of `ModelLoadBalancer`. Each runs under the lock or with
-- no `await`, so it is one function on the state. An instance object is named by its `model_id` and
-- `provider_url`, which registration keeps unique; a write to the object is a write to every
-- reference.
pub mod Ranked
pub mod Select
pub mod Loads
pub mod Health
pub mod Marked
pub mod Marks
pub mod Registered
pub mod Step
use Prim.Native.String
use smol_router.Prelude.{
  ℕ, zero, suc, ◌+◌, ◌-◌, ◌*◌, ◌≤◌, ◌<◌, String, ◌≡◌, Bool, true, false, not, ◌&&◌, ◌||◌, Option,
  none, some, List, [], ◌∷◌, ◌++◌, map, ltb, leb, ◌==◌, str_eq, if◌then◌else◌, filter, any, find?,
  is_empty, Dict, get, put, or_else, has, sort_by,
}
use smol_router.LoadBalancer.Names.{parse_model_name}
use smol_router.LoadBalancer.Runtime.{Runtime, before}
use smol_router.LoadBalancer.Types.{
  DistributionStrategy, spread_all_hosts, HostMetrics, ModelInstance, LoadBalancerStats,
  ModelLoadBalancer,
}
use smol_router.LoadBalancer.Registry.{
  get_host_id, is_named, in_group, new_host, new_instance, register_host, add_instance,
}
use smol_router.LoadBalancer.Metrics.{
  running_mean, update_instance_metrics, judge_host, update_host_metrics, count_result,
  count_globally,
}
use smol_router.LoadBalancer.Ranking.{
  apply_distribution_strategy, sort_by_smart_strategy, sort_by_fastest_host,
}

module _ (R : Runtime) where
  open R use {Float, from_ℕ, add, sub, mul, div, lt, hostname, port}

  unfoldable pub register_model_instance :
      String → String → String → Float → ModelLoadBalancer R → ModelLoadBalancer R
  register_model_instance model_id provider_id provider_url now s = record s {
    hosts = register_host R provider_url now s.hosts;
    instances = add_instance R model_id provider_id provider_url s.instances;
  }

  abbrev pub host_is_healthy : Option (HostMetrics R) → Bool
  host_is_healthy none = true
  host_is_healthy (some host) = host.is_healthy

  -- The instance and its host are healthy; an unknown host counts as healthy.
  unfoldable pub is_available : Dict (HostMetrics R) → ModelInstance R → Bool
  is_available hosts i = i.is_healthy && host_is_healthy (get i.host_id hosts)

  unfoldable pub healthy_group : ModelLoadBalancer R → String → List (ModelInstance R)
  healthy_group s requested_model =
      filter (is_available s.hosts)
        (filter (in_group R (parse_model_name requested_model).0) s.instances)

  -- `get_available_instances` with the strategy "smart", the one that requests use. The counters
  -- come back changed.
  unfoldable pub get_available_instances :
      ModelLoadBalancer R → String → DistributionStrategy → Float → List (ModelInstance R) × Dict ℕ
  get_available_instances s requested_model distribution now =
      sort_by_smart_strategy R s.hosts s.round_robin_counter now
        (apply_distribution_strategy R s.hosts distribution (healthy_group s requested_model))

  -- A write to the instance object of that name.
  unfoldable pub update_instance :
      (ModelInstance R → ModelInstance R)
      → String
      → String
      → List (ModelInstance R)
      → List (ModelInstance R)
  update_instance f model_id provider_url =
      map (λ i. if is_named R model_id provider_url i then f i else i)

  unfoldable pub update_host :
      (HostMetrics R → HostMetrics R) → String → Dict (HostMetrics R) → Dict (HostMetrics R)
  update_host f host_id hosts = elim (get host_id hosts) [
    | none ↦ hosts
    | some host ↦ put host_id (f host) hosts
  ]

  unfoldable pub start : Float → ModelInstance R → ModelInstance R
  start now i = record i {
    last_used = now;
    active_requests = i.active_requests + 1;
    total_requests = i.total_requests + 1;
  }

  unfoldable pub start_on_host : HostMetrics R → HostMetrics R
  start_on_host host = record host { active_requests = host.active_requests + 1 }

  abbrev pub offered_by : Option String → ModelInstance R → Bool
  offered_by none i = true
  offered_by (some provider_id) i = str_eq i.provider_id provider_id

  unfoldable pub begin_request : Float → ModelInstance R → ModelLoadBalancer R → ModelLoadBalancer R
  begin_request now selected s = record s {
    instances = update_instance (start now) selected.model_id selected.provider_url s.instances;
    active_requests = put selected.model_id (selected.active_requests + 1) s.active_requests;
    hosts = update_host start_on_host selected.host_id s.hosts;
  }

  unfoldable pub take_first :
      Float
      → List (ModelInstance R)
      → ModelLoadBalancer R
      → Option (ModelInstance R) × ModelLoadBalancer R
  take_first now [] s = (none, s)
  take_first now (selected ∷ _) s = (some (start now selected), begin_request now selected s)

  unfoldable pub select_instance :
      ModelLoadBalancer R
      → String
      → DistributionStrategy
      → Option String
      → Float
      → Option (ModelInstance R) × ModelLoadBalancer R
  select_instance s requested_model distribution provider_id now =
      let (ranked, counters) = get_available_instances s requested_model distribution now in
      take_first now (filter (offered_by provider_id) ranked)
        (record s { round_robin_counter = counters })

  unfoldable pub select_instance_with_default_strategy :
      ModelLoadBalancer R → String → Float → Option (ModelInstance R) × ModelLoadBalancer R
  select_instance_with_default_strategy s requested_model now =
      select_instance s requested_model s.default_distribution_strategy none now

  unfoldable pub finish : Float → Bool → Float → ModelInstance R → ModelInstance R
  finish response_time success ttft i = count_result R success (
      update_instance_metrics R response_time ttft
        (record i { active_requests = i.active_requests - 1 }))

  unfoldable pub end_on :
      Option (ModelInstance R)
      → Float
      → Bool
      → Float
      → Float
      → ModelLoadBalancer R
      → ModelLoadBalancer R
  end_on none response_time success ttft now s = s
  end_on (some i) response_time success ttft now s = record s {
    instances =
        update_instance (finish response_time success ttft) i.model_id i.provider_url s.instances;
    active_requests = put i.model_id (i.active_requests - 1) s.active_requests;
    hosts = update_host (update_host_metrics R response_time success ttft now) i.host_id s.hosts;
    stats = count_globally R success s.stats;
  }

  -- `end_request`, on the object of that name; a name that was never registered has no object.
  unfoldable pub end_request :
      String → String → Float → Bool → Float → Float → ModelLoadBalancer R → ModelLoadBalancer R
  end_request model_id provider_url response_time success ttft now s =
      end_on (find? (is_named R model_id provider_url) s.instances) response_time success ttft now s

  unfoldable pub set_health : Bool → ModelInstance R → ModelInstance R
  set_health healthy i = record i { is_healthy = healthy }

  unfoldable pub mark_instance_unhealthy :
      String → String → ModelLoadBalancer R → ModelLoadBalancer R
  mark_instance_unhealthy model_id provider_url s = record s {
    instances = update_instance (set_health false) model_id provider_url s.instances;
  }

  unfoldable pub mark_instance_healthy : String → String → ModelLoadBalancer R → ModelLoadBalancer R
  mark_instance_healthy model_id provider_url s = record s {
    instances = update_instance (set_health true) model_id provider_url s.instances;
  }

  unfoldable pub mark_host_unhealthy : String → ModelLoadBalancer R → ModelLoadBalancer R
  mark_host_unhealthy host_id s =
      if has host_id s.hosts
      then record s {
        hosts = update_host (λ host. record host { is_healthy = false }) host_id s.hosts;
        instances =
            map (λ i. if str_eq i.host_id host_id then set_health false i else i) s.instances;
      }
      else s

  unfoldable pub mark_host_healthy : String → ModelLoadBalancer R → ModelLoadBalancer R
  mark_host_healthy host_id s = record s {
    hosts = update_host (λ host. record host { is_healthy = true }) host_id s.hosts;
  }

  unfoldable pub set_distribution_strategy :
      DistributionStrategy → ModelLoadBalancer R → ModelLoadBalancer R
  set_distribution_strategy strategy s = record s { default_distribution_strategy = strategy }
