-- ===== src/LoadBalancer/Balancer/Health.antt =====
-- Health: what a request can be sent to, and what marking a host does to its instances.
use smol_router.Prelude.{
  String, ◌≡◌, inl, inr, true, false, Option, none, some, List, [], ◌∷◌, map, Dict, ℕ, arith,
  str_eq, eq_iff, if◌then◌else◌, filter, All, In, All-filter, All-of_In, In-All, In-filter,
  Bool-cases, get, has,
}
use smol_router.LoadBalancer.Names.{parse_model_name}
use smol_router.LoadBalancer.Runtime.{Runtime}
use smol_router.LoadBalancer.Types.{
  DistributionStrategy, spread_all_hosts, spread_best_host, spread_first_host,
  tba_spread_equal_best_hosts, HostMetrics, ModelInstance, ModelLoadBalancer,
}
use smol_router.LoadBalancer.Ranking.{
  on_host, on_best_host, find_best_host, apply_distribution_strategy,
}
use smol_router.LoadBalancer.Registry.{in_group}
use smol_router.LoadBalancer.Balancer.{
  host_is_healthy, is_available, healthy_group, start, offered_by, begin_request, select_instance,
  set_health, mark_host_unhealthy,
}
use smol_router.LoadBalancer.Balancer.Select.{offers, select_instance-IsLeastLoaded}

module _ (R : Runtime) where
  module _ (P : ModelInstance R → Type 0) where
    on_best_host-All :
        (best : Option String) (l : List (ModelInstance R))
        → All P l
        → All P (on_best_host R best l)
    on_best_host-All none l a = a
    on_best_host-All (some h) l a = elim (Bool-cases (str_eq h "")) [
      | inl blank ↦ rw blank a
      | inr named ↦ rw named (All-filter P (on_host R h) l a)
    ]

    -- A distribution strategy only leaves instances out.
    distribution-All :
        (hosts : List (String × HostMetrics R)) (d : DistributionStrategy)
        (l : List (ModelInstance R))
        → All P l
        → All P (apply_distribution_strategy R hosts d l)
    unfolding apply_distribution_strategy
    distribution-All hosts spread_all_hosts l a = a
    distribution-All hosts spread_best_host l a =
        on_best_host-All (find_best_host R hosts (map (λ i. i.host_id) l)) l a
    distribution-All hosts spread_first_host [] a = tt
    distribution-All hosts spread_first_host (i ∷ l) a =
        All-filter P (on_host R i.host_id) (i ∷ l) a
    distribution-All hosts tba_spread_equal_best_hosts l a = a

  -- The instance may serve the model: it is of the model's group, it is healthy and its host is
  -- known to be healthy or not known, and it is of the pinned provider.
  pub record MayServe (s : ModelLoadBalancer R) (model : String) (pin : Option String)
      (i : ModelInstance R) : Type 0 where
    pub registered : In i s.instances
    pub group : i.base_name ≡ (parse_model_name model).0
    pub healthy : i.is_healthy ≡ true
    pub host_healthy : host_is_healthy R (get i.host_id s.hosts) ≡ true
    pub pinned : offered_by R pin i ≡ true

  group-MayServe :
      (s : ModelLoadBalancer R) (model : String) (pin : Option String) (i : ModelInstance R)
      → In i (healthy_group R s model)
      → offered_by R pin i ≡ true
      → MayServe s model pin i
  unfolding healthy_group is_available
  group-MayServe s model pin i m offer =
      let base = (parse_model_name model).0 in
      let (inner, available) =
        (In-filter (is_available R s.hosts) i (filter (in_group R base) s.instances)).0 m in
      let (listed, grouped) = (In-filter (in_group R base) i s.instances).0 inner in
      record {
        registered = listed;
        group = (eq_iff i.base_name base).0 grouped;
        healthy = ground arith;
        host_healthy = ground arith;
        pinned = offer;
      }

  offers-MayServe :
      (s : ModelLoadBalancer R) (model : String) (d : DistributionStrategy) (pin : Option String)
      (i : ModelInstance R)
      → In i (offers R s model d pin)
      → MayServe s model pin i
  offers-MayServe s model d pin i m =
      let group = apply_distribution_strategy R s.hosts d (healthy_group R s model) in
      let (there, offer) = (In-filter (offered_by R pin) i group).0 m in
      group-MayServe s model pin i
        (In-All (λ k. In k (healthy_group R s model)) group
          (distribution-All (λ k. In k (healthy_group R s model)) s.hosts d
            (healthy_group R s model) (All-of_In _ (healthy_group R s model) (λ k n. n)))
          there)
        offer

  -- Whatever the distribution strategy, a selected instance is a registered one of the model's
  -- group, healthy, on a host that is not marked unhealthy, and of the pinned provider; it is this
  -- instance whose request the new state has begun.
  pub select_instance-MayServe :
      (s : ModelLoadBalancer R) (model : String) (d : DistributionStrategy) (pin : Option String)
      (now : R.Float) (i : ModelInstance R)
      → (select_instance R s model d pin now).0 ≡ some i
      → (j : ModelInstance R) × (counters : Dict ℕ) × (i ≡ start R now j)
        × MayServe s model pin j
        × ((select_instance R s model d pin now).1
            ≡ begin_request R now j (record s { round_robin_counter = counters }))
  select_instance-MayServe s model d pin now i e =
      let (j, counters, started, least, after) =
        select_instance-IsLeastLoaded R s model d pin now i e in
      (j, counters, started, offers-MayServe s model d pin j least.0, after)

  abbrev pub NotServing : String → ModelInstance R → Type 0
  NotServing h i = i.host_id ≡ h → i.is_healthy ≡ false

  unhealthy_map :
      (h : String) (l : List (ModelInstance R))
      → All (NotServing h) (map (λ i. if str_eq i.host_id h then set_health R false i else i) l)
  unfolding set_health
  unhealthy_map h [] = tt
  unhealthy_map h (i ∷ l) = (λ on. ground (arith, eq_iff i.host_id h), unhealthy_map h l)

  pub mark_host-NotServing :
      (h : String) (s : ModelLoadBalancer R)
      → has h s.hosts ≡ true
      → All (NotServing h) (mark_host_unhealthy R h s).instances
  unfolding mark_host_unhealthy
  mark_host-NotServing h s known = rw known (unhealthy_map h s.instances)
