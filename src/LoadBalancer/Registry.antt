-- ===== src/LoadBalancer/Registry.antt =====
-- smolrouter/load_balancer.py: `_get_host_id`, and what `register_model_instance` adds.
use Prim.Native.String
use smol_router.Prelude.{
  String, Bool, true, ◌&&◌, none, some, List, [], ◌∷◌, ◌++◌, str_eq, if◌then◌else◌, filter,
  is_empty, Dict, put, or_else, has,
}
use smol_router.LoadBalancer.Names.{parse_model_name}
use smol_router.LoadBalancer.Runtime.{Runtime}
use smol_router.LoadBalancer.Types.{HostMetrics, ModelInstance}

module _ (R : Runtime) where
  open R use {Float, from_ℕ, add, sub, mul, div, lt, hostname, port}

  -- `_get_host_id`
  unfoldable pub get_host_id : String → String
  get_host_id provider_url = elim (port provider_url) [
    | some p ↦ String.◌++◌ (or_else (hostname provider_url) "None") (String.◌++◌ ":" p)
    | none ↦ or_else (hostname provider_url) provider_url
  ]

  abbrev pub is_named : String → String → ModelInstance R → Bool
  is_named model_id provider_url i =
      str_eq i.model_id model_id && str_eq i.provider_url provider_url

  abbrev pub in_group : String → ModelInstance R → Bool
  in_group base_name i = str_eq i.base_name base_name

  abbrev pub new_host : String → String → Float → HostMetrics R
  new_host host_id url now = record {
    host_id = host_id;
    url = url;
    active_requests = 0;
    total_requests = 0;
    avg_response_time = from_ℕ 0;
    avg_ttft = from_ℕ 0;
    last_seen = now;
    is_healthy = true;
    failure_count = 0;
    success_count = 0;
    network_latency = from_ℕ 0;
  }

  abbrev pub new_instance : String → String → String → ModelInstance R
  new_instance model_id provider_id provider_url = record {
    model_id = model_id;
    base_name = (parse_model_name model_id).0;
    instance_num = (parse_model_name model_id).1;
    provider_id = provider_id;
    provider_url = provider_url;
    host_id = get_host_id provider_url;
    active_requests = 0;
    last_used = from_ℕ 0;
    is_healthy = true;
    total_requests = 0;
    success_count = 0;
    failure_count = 0;
    avg_response_time = from_ℕ 0;
    avg_ttft = from_ℕ 0;
  }

  unfoldable pub register_host : String → Float → Dict (HostMetrics R) → Dict (HostMetrics R)
  register_host provider_url now hosts =
      let host_id = get_host_id provider_url in
      if has host_id hosts then hosts else put host_id (new_host host_id provider_url now) hosts

  unfoldable pub add_instance :
      String → String → String → List (ModelInstance R) → List (ModelInstance R)
  add_instance model_id provider_id provider_url instances =
      let group = filter (in_group (parse_model_name model_id).0) instances in
      if is_empty (filter (is_named model_id provider_url) group)
      then instances ++ new_instance model_id provider_id provider_url ∷ []
      else instances
