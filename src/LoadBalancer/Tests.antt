-- ===== src/LoadBalancer/Tests.antt =====
-- Runs of the load balancer on concrete inputs, with natural numbers for floats and sets in the
-- order of their making.
use Prim.Native.Char.{code}
use Prim.Native.String
use smol_router.Prelude.{
  [], find?, ℕ, ◌+◌, ◌-◌, ◌*◌, ◌/◌, ◌≤◌, ◌<◌, false, String, ◌≡◌, refl, ◌≢◌, ◌⊎◌, ◌↔◌, true, Option,
  none, some, arith, ltb, ◌==◌, get, put, has, Dict, sort_by, insert_by,
}
use smol_router.LoadBalancer.Names.{
  is_digit, is_number, value, has_code, is_blank, chop, parse_model_name, parse_colon, parse_dash,
  match_suffix, split_last,
}
use smol_router.LoadBalancer.Names.Laws.{parse_model_name-colon, parse_model_name-dash}
use smol_router.LoadBalancer.Runtime.{Runtime}
use smol_router.LoadBalancer.Metrics.{
  update_instance_metrics, count_result, update_host_metrics, judge_host,
}
use smol_router.LoadBalancer.Types.{
  spread_all_hosts, HostMetrics, ModelInstance, ModelLoadBalancer, equal,
}
use smol_router.LoadBalancer.Ranking.{
  apply_distribution_strategy, sort_by_smart_strategy, rank_by_load, choose, put_first,
  choose_similar, break_tie, score_all, similar_to_best, tiebreak_score, host_speed, recency,
}
use smol_router.LoadBalancer.Registry.{get_host_id, register_host, add_instance, new_host, is_named}
use smol_router.LoadBalancer.Balancer.{
  register_model_instance, is_available, healthy_group, get_available_instances, start,
  start_on_host, update_instance, update_host, begin_request, take_first, select_instance,
  mark_host_unhealthy, mark_host_healthy, set_health, end_request, end_on, finish,
}
use smol_router.LoadBalancer.Balancer.Ranked.{IsLeastLoaded}
use smol_router.LoadBalancer.Balancer.Select.{
  offers, select_instance-none, select_instance-IsLeastLoaded,
}
use smol_router.LoadBalancer.Balancer.Health.{MayServe, select_instance-MayServe}
use smol_router.LoadBalancer.Balancer.Marked.{marked, then_heal_host, mark_host-select}
use smol_router.LoadBalancer.Balancer.Loads.Update.{Distinct, host_load}
use smol_router.LoadBalancer.Balancer.Step.{
  surplus, init, register, select, Calls, initial, next, reachable_loads,
}

pub ==-refl : (n : ℕ) → (n == n) ≡ true
==-refl n = ground arith

abbrev pub naturals : Runtime
naturals = record {
  Float = ℕ;
  from_ℕ = λ n. n;
  one_half = 0;
  one_fifth = 0;
  infinity = 1000000;
  add = λ a b. a + b;
  sub = λ a b. a - b;
  mul = λ a b. a * b;
  div = λ a b. a / b;
  lt = ltb;
  same = λ a b. a == b;
  hostname = λ url. some url;
  port = λ url. none;
  set_order = λ xs. xs;
  same_refl = ==-refl;
  set_order-All = λ P xs h. h;
}

abbrev left : String
left = "l"

abbrev right : String
right = "r"

abbrev model : String
model = "m"

-- One model on two hosts.
abbrev two_hosts : ModelLoadBalancer naturals
two_hosts =
    register_model_instance naturals model "b" right 1
      (register_model_instance naturals model "a" left 1 (init naturals))

abbrev idle_on : String → String → ModelInstance naturals
idle_on provider_id url = record {
  model_id = model;
  base_name = model;
  instance_num = 0;
  provider_id = provider_id;
  provider_url = url;
  host_id = url;
  active_requests = 0;
  last_used = 0;
  is_healthy = true;
  total_requests = 0;
  success_count = 0;
  failure_count = 0;
  avg_response_time = 0;
  avg_ttft = 0;
}

abbrev on_left : ModelInstance naturals
on_left = start naturals 7 (idle_on "a" left)

abbrev on_right : ModelInstance naturals
on_right = start naturals 7 (idle_on "b" right)

-- A request that is pinned to the provider of the left host.
abbrev pinned : Option (ModelInstance naturals) × ModelLoadBalancer naturals
pinned = select_instance naturals two_hosts model spread_all_hosts (some "a") 7

selects_left : pinned.0 ≡ some on_left
unfolding register_model_instance register_host add_instance get_host_id parse_model_name
    parse_colon parse_dash match_suffix chop split_last get put insert_by sort_by
    apply_distribution_strategy sort_by_smart_strategy rank_by_load choose choose_similar break_tie
    score_all similar_to_best tiebreak_score host_speed recency put_first equal is_available
    healthy_group get_available_instances start start_on_host update_instance update_host
    begin_request take_first select_instance mark_host_unhealthy mark_host_healthy set_health
selects_left = refl

select_instance-IsLeastLoaded_example :
    (j : ModelInstance naturals) × (counters : Dict ℕ) × (on_left ≡ start naturals 7 j)
    × IsLeastLoaded naturals j (offers naturals two_hosts model spread_all_hosts (some "a"))
    × (pinned.1 ≡ begin_request naturals 7 j (record two_hosts { round_robin_counter = counters }))
select_instance-IsLeastLoaded_example =
    select_instance-IsLeastLoaded naturals two_hosts model spread_all_hosts (some "a") 7 on_left
      selects_left

select_instance-MayServe_example :
    (j : ModelInstance naturals) × (counters : Dict ℕ) × (on_left ≡ start naturals 7 j)
    × MayServe naturals two_hosts model (some "a") j
    × (pinned.1 ≡ begin_request naturals 7 j (record two_hosts { round_robin_counter = counters }))
select_instance-MayServe_example =
    select_instance-MayServe naturals two_hosts model spread_all_hosts (some "a") 7 on_left
      selects_left

abbrev unknown_provider : Option (ModelInstance naturals) × ModelLoadBalancer naturals
unknown_provider = select_instance naturals two_hosts model spread_all_hosts (some "c") 7

refuses : unknown_provider.0 ≡ none
unfolding register_model_instance register_host add_instance get_host_id parse_model_name
    parse_colon parse_dash match_suffix chop split_last get put insert_by sort_by
    apply_distribution_strategy sort_by_smart_strategy rank_by_load choose choose_similar break_tie
    score_all similar_to_best tiebreak_score host_speed recency put_first equal is_available
    healthy_group get_available_instances start start_on_host update_instance update_host
    begin_request take_first select_instance mark_host_unhealthy mark_host_healthy set_health
refuses = refl

select_instance-none_example :
    (unknown_provider.0 ≡ none) ↔ (offers naturals two_hosts model spread_all_hosts (some "c") ≡ [])
select_instance-none_example =
    select_instance-none naturals two_hosts model spread_all_hosts (some "c") 7

abbrev left_down : ModelLoadBalancer naturals
left_down = mark_host_unhealthy naturals left two_hosts

left_known : has left two_hosts.hosts ≡ true
unfolding register_model_instance register_host add_instance get_host_id parse_model_name
    parse_colon parse_dash match_suffix chop split_last get put insert_by sort_by
    apply_distribution_strategy sort_by_smart_strategy rank_by_load choose choose_similar break_tie
    score_all similar_to_best tiebreak_score host_speed recency put_first equal is_available
    healthy_group get_available_instances start start_on_host update_instance update_host
    begin_request take_first select_instance mark_host_unhealthy mark_host_healthy set_health
left_known = refl

avoids_left : (select_instance naturals left_down model spread_all_hosts none 7).0 ≡ some on_right
unfolding register_model_instance register_host add_instance get_host_id parse_model_name
    parse_colon parse_dash match_suffix chop split_last get put insert_by sort_by
    apply_distribution_strategy sort_by_smart_strategy rank_by_load choose choose_similar break_tie
    score_all similar_to_best tiebreak_score host_speed recency put_first equal is_available
    healthy_group get_available_instances start start_on_host update_instance update_host
    begin_request take_first select_instance mark_host_unhealthy mark_host_healthy set_health
avoids_left = refl

still_avoids_left :
    (select_instance naturals
      (mark_host_healthy naturals left left_down)
      model
      spread_all_hosts
      none
      7).0
    ≡ some on_right
unfolding register_model_instance register_host add_instance get_host_id parse_model_name
    parse_colon parse_dash match_suffix chop split_last get put insert_by sort_by
    apply_distribution_strategy sort_by_smart_strategy rank_by_load choose choose_similar break_tie
    score_all similar_to_best tiebreak_score host_speed recency put_first equal is_available
    healthy_group get_available_instances start start_on_host update_instance update_host
    begin_request take_first select_instance mark_host_unhealthy mark_host_healthy set_health
still_avoids_left = refl

mark_host-select_example : on_right.host_id ≢ left
mark_host-select_example =
    mark_host-select naturals left (mark_host_healthy naturals left left_down) model
      spread_all_hosts none 7 on_right (then_heal_host left (marked two_hosts left_known))
      still_avoids_left

-- Two models on one host, and a request to the first.
abbrev shared : ModelLoadBalancer naturals
shared =
    register_model_instance naturals "k" "a" left 1
      (register_model_instance naturals model "a" left 1 (init naturals))

abbrev busy : ModelLoadBalancer naturals
busy = (select_instance naturals shared model spread_all_hosts none 7).1

-- An end of a request to the other, which has none under way.
abbrev confused : ModelLoadBalancer naturals
confused = end_request naturals "k" left 2 true 0 8 busy

abbrev left_host : HostMetrics naturals
left_host =
    update_host_metrics naturals 2 true 0 8 (start_on_host naturals (new_host naturals left left 1))

idle-named :
    find? (is_named naturals "k" left) busy.instances
    ≡ some (record (idle_on "a" left) { model_id = "k"; base_name = "k" })
unfolding register_model_instance register_host add_instance get_host_id parse_model_name
    parse_colon parse_dash match_suffix chop split_last get put insert_by sort_by
    apply_distribution_strategy sort_by_smart_strategy rank_by_load choose choose_similar break_tie
    score_all similar_to_best tiebreak_score host_speed recency put_first equal is_available
    healthy_group get_available_instances start start_on_host update_instance update_host
    begin_request take_first select_instance
idle-named = refl

left_host-found : get left confused.hosts ≡ some left_host
unfolding register_model_instance register_host add_instance get_host_id parse_model_name
    parse_colon parse_dash match_suffix chop split_last get put insert_by sort_by
    apply_distribution_strategy sort_by_smart_strategy rank_by_load choose choose_similar break_tie
    score_all similar_to_best tiebreak_score host_speed recency put_first equal is_available
    healthy_group get_available_instances start start_on_host update_instance update_host
    begin_request take_first select_instance end_request end_on
left_host-found = refl

confused-Calls : Calls naturals 1 confused
confused-Calls =
    surplus "k" left 2 0 8 true (record (idle_on "a" left) { model_id = "k"; base_name = "k" })
      (next
        (next (next initial (register (init naturals) model "a" left 1)) (
          register (register_model_instance naturals model "a" left 1 (init naturals)) "k" "a" left
            1))
        (select shared model spread_all_hosts none 7))
      idle-named refl

reachable_loads_example :
    (left_host.active_requests ≤ host_load naturals left confused.instances)
    × (host_load naturals left confused.instances ≤ left_host.active_requests + 1)
    × Distinct naturals confused.instances
reachable_loads_example =
    reachable_loads naturals 1 confused left left_host confused-Calls left_host-found

-- The host counts none, and its instances one.
undercounted : (left_host.active_requests ≡ 0) × (host_load naturals left confused.instances ≡ 1)
unfolding register_model_instance register_host add_instance get_host_id parse_model_name
    parse_colon parse_dash match_suffix chop split_last get put insert_by sort_by
    apply_distribution_strategy sort_by_smart_strategy rank_by_load choose choose_similar break_tie
    score_all similar_to_best tiebreak_score host_speed recency put_first equal is_available
    healthy_group get_available_instances start start_on_host update_instance update_host
    begin_request take_first select_instance end_request end_on finish update_instance_metrics
    count_result update_host_metrics judge_host
undercounted = (refl, refl)

abbrev base : String
base = "a-m"

abbrev digits : String
digits = "12"

digits-IsNumber : is_number digits ≡ true
unfolding is_digit
digits-IsNumber = refl

-- The end of a line is no part of a name, and a name on two lines has no suffix.
lines :
    (parse_model_name "m:1\n" ≡ ("m", 1))
    × (parse_model_name "a\nb:1" ≡ ("a\nb:1", 0))
    × (parse_model_name "a-m-2\n" ≡ ("a-m", 2))
unfolding parse_model_name parse_colon parse_dash match_suffix chop split_last is_digit
lines = (refl, refl, refl)

parse_model_name-colon_example :
    parse_model_name (String.◌++◌ base (String.◌∷◌ ":" digits)) ≡ (base, value digits)
parse_model_name-colon_example = parse_model_name-colon base digits refl refl digits-IsNumber

parse_model_name-dash_example :
    (((code "1" ≡ b'0') → is_blank "2" ≡ true) × (value digits ≤ 99) × (has_code b'-' base ≡ true)
      → parse_model_name (String.◌++◌ base (String.◌∷◌ "-" digits)) ≡ (base, value digits))
    × (((code "1" ≡ b'0') × (is_blank "2" ≡ false))
          ⊎ (99 < value digits)
          ⊎ (has_code b'-' base ≡ false)
        → parse_model_name (String.◌++◌ base (String.◌∷◌ "-" digits))
          ≡ (String.◌++◌ base (String.◌∷◌ "-" digits), 0))
parse_model_name-dash_example = parse_model_name-dash base "1" "2" refl refl refl digits-IsNumber
