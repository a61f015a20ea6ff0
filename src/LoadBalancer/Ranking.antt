-- ===== src/LoadBalancer/Ranking.antt =====
-- smolrouter/load_balancer.py: the distribution strategies and the orders of preference.
use smol_router.Prelude.{
  ℕ, ◌+◌, ◌*◌, ◌%◌, String, Bool, not, Option, none, some, List, [], ◌∷◌, map, ltb, ◌==◌, str_eq,
  if◌then◌else◌, length, get_elem?, filter, Dict, get, put, or_else, sort_by, sort_on,
}
use smol_router.LoadBalancer.Runtime.{Runtime, max_float, before}
use smol_router.LoadBalancer.Types.{
  DistributionStrategy, spread_all_hosts, spread_best_host, spread_first_host,
  tba_spread_equal_best_hosts, HostMetrics, ModelInstance, equal,
}

module _ (R : Runtime) where
  open R use {Float, from_ℕ, one_half, one_fifth, infinity, add, sub, mul, div, lt, set_order}

  -- `score` of a host in `_find_best_host`
  unfoldable pub host_score : HostMetrics R → Float
  host_score host =
      let score =
        add (add (mul host.avg_ttft (from_ℕ 2)) host.avg_response_time)
          (from_ℕ (host.active_requests * 5)) in
      if ltb 0 host.total_requests
      then mul score (sub (from_ℕ 2) (div (from_ℕ host.success_count) (from_ℕ host.total_requests)))
      else score

  -- The host, if it is known and healthy.
  unfoldable pub healthy_host : Dict (HostMetrics R) → String → Option (HostMetrics R)
  healthy_host hosts host_id = elim (get host_id hosts) [
    | none ↦ none
    | some host ↦ if host.is_healthy then some host else none
  ]

  unfoldable pub better_host :
      Option (HostMetrics R) → String → Option String × Float → Option String × Float
  better_host none host_id best = best
  better_host (some host) host_id best =
      if lt (host_score host) best.1 then (some host_id, host_score host) else best

  unfoldable pub best_host_from :
      Dict (HostMetrics R) → List String → Option String × Float → Option String
  best_host_from hosts [] best = best.0
  best_host_from hosts (host_id ∷ ids) best =
      best_host_from hosts ids (better_host (healthy_host hosts host_id) host_id best)

  unfoldable pub find_best_host : Dict (HostMetrics R) → List String → Option String
  find_best_host hosts host_ids = best_host_from hosts (set_order host_ids) (none, infinity)

  abbrev pub on_host : String → ModelInstance R → Bool
  on_host host_id i = str_eq i.host_id host_id

  abbrev pub on_best_host : Option String → List (ModelInstance R) → List (ModelInstance R)
  on_best_host none instances = instances
  on_best_host (some host_id) instances =
      if str_eq host_id "" then instances else filter (on_host host_id) instances

  unfoldable pub apply_distribution_strategy :
      Dict (HostMetrics R) → DistributionStrategy → List (ModelInstance R) → List (ModelInstance R)
  apply_distribution_strategy hosts spread_all_hosts instances = instances
  apply_distribution_strategy hosts spread_best_host instances =
      on_best_host (find_best_host hosts (map (λ i. i.host_id) instances)) instances
  apply_distribution_strategy hosts spread_first_host [] = []
  apply_distribution_strategy hosts spread_first_host (i ∷ instances) =
      filter (on_host i.host_id) (i ∷ instances)
  apply_distribution_strategy hosts tba_spread_equal_best_hosts instances = instances

  unfoldable pub host_speed : Option (HostMetrics R) → Float
  host_speed none = from_ℕ 0
  host_speed (some host) = add host.avg_ttft host.avg_response_time

  unfoldable pub recency : Float → ModelInstance R → Float
  recency now i =
      if lt (from_ℕ 0) i.last_used
      then max_float R (from_ℕ 0) (sub (from_ℕ 1) (div (sub now i.last_used) (from_ℕ 10)))
      else from_ℕ 0

  unfoldable pub tiebreak_score : Dict (HostMetrics R) → Float → ModelInstance R → Float
  tiebreak_score hosts now i = add (host_speed (get i.host_id hosts)) (recency now i)

  -- `[selected] + [i for i in instances_by_load if i != selected]`
  unfoldable pub put_first : ModelInstance R → List (ModelInstance R) → List (ModelInstance R)
  put_first selected by_load = selected ∷ filter (λ i. not (equal R i selected)) by_load

  abbrev pub Scored : Type 0
  Scored = Float × ModelInstance R

  -- `[(tiebreak_score(c), c) for c in candidates]`, sorted by the score
  unfoldable pub score_all : Dict (HostMetrics R) → Float → List (ModelInstance R) → List Scored
  score_all hosts now candidates =
      sort_by (λ a b. before R a.0 b.0) (map (λ c. (tiebreak_score hosts now c, c)) candidates)

  -- `score <= min_tiebreak + similar_threshold`
  abbrev pub is_similar : Float → Scored → Bool
  is_similar min_tiebreak s =
      not (lt (add min_tiebreak (max_float R one_half (mul min_tiebreak one_fifth))) s.0)

  unfoldable pub similar_to_best : Float → List Scored → List (ModelInstance R)
  similar_to_best min_tiebreak scored = map (λ s. s.1) (filter (is_similar min_tiebreak) scored)

  -- Round-robin among the similar candidates, or the best one. The counters come back changed.
  unfoldable pub choose_similar :
      Dict ℕ → String → ModelInstance R → List (ModelInstance R) → ModelInstance R × Dict ℕ
  choose_similar counters base_name best similar =
      if ltb 1 (length similar)
      then (let counter = or_else (get base_name counters) 0 in
          (
            or_else (get_elem? similar (counter % length similar)) best,
            put base_name ((counter + 1) % length similar) counters,
          ))
      else (best, counters)

  unfoldable pub break_tie :
      Dict ℕ → String → List Scored → ModelInstance R → ModelInstance R × Dict ℕ
  break_tie counters base_name [] first = (first, counters)
  break_tie counters base_name ((score, best) ∷ scored) first =
      choose_similar counters base_name best (similar_to_best score ((score, best) ∷ scored))

  -- The choice among the least loaded: `first` is the head of the candidates.
  unfoldable pub choose :
      Dict (HostMetrics R)
      → Dict ℕ
      → Float
      → String
      → ModelInstance R
      → List (ModelInstance R)
      → ModelInstance R × Dict ℕ
  choose hosts counters now base_name first candidates =
      if length candidates == 1
      then (first, counters)
      else break_tie counters base_name (score_all hosts now candidates) first

  abbrev pub load : ModelInstance R → ℕ
  load i = i.active_requests

  unfoldable pub rank_by_load :
      Dict (HostMetrics R)
      → Dict ℕ
      → Float
      → String
      → List (ModelInstance R)
      → List (ModelInstance R) × Dict ℕ
  rank_by_load hosts counters now base_name [] = ([], counters)
  rank_by_load hosts counters now base_name (first ∷ rest) =
      let candidates = filter (λ i. load i == load first) (first ∷ rest) in
      let (selected, counters') = choose hosts counters now base_name first candidates in
      (put_first selected (first ∷ rest), counters')

  unfoldable pub sort_by_smart_strategy :
      Dict (HostMetrics R)
      → Dict ℕ
      → Float
      → List (ModelInstance R)
      → List (ModelInstance R) × Dict ℕ
  sort_by_smart_strategy hosts counters now [] = ([], counters)
  sort_by_smart_strategy hosts counters now (i ∷ instances) =
      rank_by_load hosts counters now i.base_name (sort_on load (i ∷ instances))

  unfoldable pub host_speed_score : Dict (HostMetrics R) → ModelInstance R → Float
  host_speed_score hosts i = elim (get i.host_id hosts) [
    | none ↦ infinity
    | some host ↦ add (add host.avg_ttft host.avg_response_time) (from_ℕ (i.active_requests * 2))
  ]

  unfoldable pub sort_by_fastest_host :
      Dict (HostMetrics R) → List (ModelInstance R) → List (ModelInstance R)
  sort_by_fastest_host hosts =
      sort_by (λ i j. before R (host_speed_score hosts i) (host_speed_score hosts j))
