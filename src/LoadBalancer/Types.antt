-- ===== src/LoadBalancer/Types.antt =====
-- smolrouter/load_balancer.py: the data classes.
use smol_router.Prelude.{ℕ, String, Bool, true, false, ◌&&◌, List, ◌==◌, str_eq, Dict}
use smol_router.LoadBalancer.Runtime.{Runtime}

pub data DistributionStrategy : Type 0 where
  spread_all_hosts spread_best_host spread_first_host tba_spread_equal_best_hosts :
      DistributionStrategy

module _ (R : Runtime) where
  open R use {Float, same}

  pub record HostMetrics : Type 0 where
    pub host_id : String
    pub url : String
    pub active_requests : ℕ
    pub total_requests : ℕ
    pub avg_response_time : Float
    pub avg_ttft : Float
    pub last_seen : Float
    pub is_healthy : Bool
    pub failure_count : ℕ
    pub success_count : ℕ
    pub network_latency : Float

  pub record ModelInstance : Type 0 where
    pub model_id : String
    pub base_name : String
    pub instance_num : ℕ
    pub provider_id : String
    pub provider_url : String
    pub host_id : String
    pub active_requests : ℕ
    pub last_used : Float
    pub is_healthy : Bool
    pub total_requests : ℕ
    pub success_count : ℕ
    pub failure_count : ℕ
    pub avg_response_time : Float
    pub avg_ttft : Float

  abbrev pub same_bool : Bool → Bool → Bool
  same_bool true b = b
  same_bool false true = false
  same_bool false false = true

  -- `==` of the data class: all fields, in order.
  unfoldable pub equal : ModelInstance → ModelInstance → Bool
  equal i j =
      str_eq i.model_id j.model_id
      && str_eq i.base_name j.base_name
      && i.instance_num == j.instance_num
      && str_eq i.provider_id j.provider_id
      && str_eq i.provider_url j.provider_url
      && str_eq i.host_id j.host_id
      && i.active_requests == j.active_requests
      && same i.last_used j.last_used
      && same_bool i.is_healthy j.is_healthy
      && i.total_requests == j.total_requests
      && i.success_count == j.success_count
      && i.failure_count == j.failure_count
      && same i.avg_response_time j.avg_response_time
      && same i.avg_ttft j.avg_ttft

  pub record LoadBalancerStats : Type 0 where
    pub total_requests : ℕ
    pub successful_requests : ℕ
    pub failed_requests : ℕ
    pub avg_response_time : Float

  -- `self`. `instances` lists the instances of all groups in the order of registration: the group
  -- `self.instances[base_name]` is the part with that `base_name`.
  pub record ModelLoadBalancer : Type 0 where
    pub instances : List ModelInstance
    pub hosts : Dict HostMetrics
    pub active_requests : Dict ℕ
    pub stats : LoadBalancerStats
    pub default_distribution_strategy : DistributionStrategy
    pub round_robin_counter : Dict ℕ
