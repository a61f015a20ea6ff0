-- ===== src/Mediator/Tests.antt =====
-- Runs of the mediator on concrete inputs.
use smol_router.Prelude.{
  ◌≤◌, ◌+◌, ◌≡◌, refl, ap, ◌∙◌, ◌⊎◌, true, false, Option, none, some, [], ◌∷◌, In, get, ok, put,
  sort_by, insert_by,
}
use smol_router.ModelInfo.{ModelInfo, display_name, matches_request}
use smol_router.Access.Control.{Client, no_control, can_access_model, filter_models}
use smol_router.Strategy.Names.{
  is_space, lstrip, rstrip, strip, ends_with_bracket, split_name, parse_fully_qualified_name,
}
use smol_router.Strategy.Rules.{apply_alias_transformations}
use smol_router.Strategy.Resolve.{
  find_qualified, priority_of, sort_by_provider_priority, resolve_name, resolve_model_request,
}
use smol_router.Strategy.Tests.{texts}
use smol_router.LoadBalancer.Names.{
  is_digit, parse_model_name, parse_colon, parse_dash, match_suffix, chop, split_last,
}
use smol_router.LoadBalancer.Ranking.{
  apply_distribution_strategy, sort_by_smart_strategy, rank_by_load, put_first, choose,
}
use smol_router.LoadBalancer.Registry.{get_host_id, register_host, add_instance}
use smol_router.LoadBalancer.Balancer.{
  register_model_instance, is_available, healthy_group, get_available_instances, start,
  start_on_host, update_instance, update_host, begin_request, take_first, select_instance,
}
use smol_router.LoadBalancer.Types.{HostMetrics, ModelInstance}
use smol_router.LoadBalancer.Tests.{naturals}
use smol_router.LoadBalancer.Balancer.Loads.Update.{Distinct, host_load}
use smol_router.LoadBalancer.Balancer.Step.{init, initial, next, register, Calls}
use smol_router.Mediator.{
  ModelMediator, get_available_models, register_all, register_models_in_load_balancer,
  resolve_model_via_load_balancer, resolve_model_for_request,
}
use smol_router.Mediator.Laws.{resolve_model_for_request_allowed}
use smol_router.Mediator.Released.{IsIdle, IsBegun, resolve_model_via_load_balancer_lem}
use smol_router.Mediator.Balanced.{resolve_model_for_request_loads}

abbrev llama : ModelInfo
llama = record {
  id = "m-1";
  name = "llama";
  provider_id = "p";
  provider_type = "openai";
  endpoint = "h";
  aliases = [];
}

abbrev anyone : Client
anyone = record { ip = "10.0.0.1"; auth_payload = none }

abbrev mediator : ModelMediator texts.patterns texts naturals
mediator = record {
  strategy = record { aliases = []; provider_priorities = [] };
  access_control = no_control;
  models_registered_in_lb = false;
  balancer = init naturals;
  attached = [];
}

abbrev host : HostMetrics naturals
host = record {
  host_id = "h";
  url = "h";
  active_requests = 1;
  total_requests = 0;
  avg_response_time = 0;
  avg_ttft = 0;
  last_seen = 5;
  is_healthy = true;
  failure_count = 0;
  success_count = 0;
  network_latency = 0;
}

-- The mediator with a request under way.
abbrev served : ModelMediator texts.patterns texts naturals
served = record mediator {
  models_registered_in_lb = true;
  attached = "m-1" ∷ [];
  balancer = record (init naturals) {
    instances =
        record {
          model_id = "llama";
          base_name = "llama";
          instance_num = 0;
          provider_id = "p";
          provider_url = "h";
          host_id = "h";
          active_requests = 1;
          last_used = 5;
          is_healthy = true;
          total_requests = 1;
          success_count = 0;
          failure_count = 0;
          avg_response_time = 0;
          avg_ttft = 0;
        }
        ∷ [];
    hosts = ("h", host) ∷ [];
    active_requests = ("llama", 1) ∷ [];
  };
}

llama-resolved :
    resolve_model_for_request texts.patterns texts naturals 5 "llama" anyone (llama ∷ []) mediator
    ≡ (ok (some llama), served)
unfolding resolve_model_for_request get_available_models filter_models register_all
    register_models_in_load_balancer resolve_model_via_load_balancer resolve_model_request
    find_qualified parse_fully_qualified_name ends_with_bracket strip rstrip lstrip is_space
    split_name apply_alias_transformations resolve_name matches_request sort_by_provider_priority
    priority_of sort_by insert_by display_name select_instance take_first get_available_instances
    sort_by_smart_strategy apply_distribution_strategy healthy_group register_model_instance
    add_instance register_host get_host_id parse_model_name parse_colon parse_dash match_suffix chop
    split_last is_digit is_available rank_by_load put_first choose start begin_request
    update_instance update_host start_on_host get put
llama-resolved = refl

resolve_model_for_request_allowed_example :
    In llama (llama ∷ []) × (can_access_model texts.patterns anyone no_control llama ≡ true)
resolve_model_for_request_allowed_example =
    resolve_model_for_request_allowed texts.patterns texts naturals 5 "llama" anyone (llama ∷ [])
      mediator llama (tt, tt) (ap (λ r. r.0) llama-resolved)

host-known : get "h" served.balancer.hosts ≡ some host
unfolding get
host-known = refl

resolve_model_for_request_loads_example :
    Calls naturals 0
      (resolve_model_for_request texts.patterns texts naturals 5 "llama" anyone
        (llama ∷ [])
        mediator).1.balancer
    × (1
        ≤ host_load naturals "h"
            (resolve_model_for_request texts.patterns texts naturals 5 "llama" anyone
              (llama ∷ [])
              mediator).1.balancer.instances)
    × (host_load naturals "h"
          (resolve_model_for_request texts.patterns texts naturals 5 "llama" anyone
            (llama ∷ [])
            mediator).1.balancer.instances
        ≤ 1 + 0)
    × Distinct naturals
        (resolve_model_for_request texts.patterns texts naturals 5 "llama" anyone
          (llama ∷ [])
          mediator).1.balancer.instances
resolve_model_for_request_loads_example =
    resolve_model_for_request_loads texts.patterns texts naturals 5 "llama" anyone (llama ∷ [])
      mediator "h" host initial (ap (λ r. get "h" r.1.balancer.hosts) llama-resolved ∙ host-known)

-- The mediator once the model is registered.
abbrev ready : ModelMediator texts.patterns texts naturals
ready = record mediator {
  balancer = register_model_instance naturals "llama" "p" "h" 5 (init naturals);
}

abbrev attempt : Option ModelInfo × ModelMediator texts.patterns texts naturals
attempt =
    resolve_model_via_load_balancer texts.patterns texts naturals 6 "llama" (llama ∷ []) none ready

resolve_model_via_load_balancer_lem_example :
    ((attempt.0 ≡ none) × IsIdle texts.patterns texts naturals ready attempt.1)
    ⊎ ((m : ModelInfo) × (j : ModelInstance naturals) × (attempt.0 ≡ some m)
        × IsBegun texts.patterns texts naturals "llama" (llama ∷ []) none ready attempt.1 m j)
resolve_model_via_load_balancer_lem_example =
    resolve_model_via_load_balancer_lem texts.patterns texts naturals 6 "llama" (llama ∷ []) none
      ready (next initial (register (init naturals) "llama" "p" "h" 5))
