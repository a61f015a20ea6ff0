-- ===== src/LoadBalancer/Balancer/Select.antt =====
-- What a selection promises: the least loaded of the instances that may be used, or none if there
-- is none.
use smol_router.Prelude.{
  ℕ, String, ◌≡◌, refl, ◌↔◌, inl, inr, Option, none, some, List, [], ◌∷◌, arith, filter, In,
  Option-cases, Dict,
}
use mathlib.Core.Path.{subst}
use smol_router.LoadBalancer.Runtime.{Runtime}
use smol_router.LoadBalancer.Types.{DistributionStrategy, ModelInstance, ModelLoadBalancer}
use smol_router.LoadBalancer.Ranking.{apply_distribution_strategy, sort_by_smart_strategy}
use smol_router.LoadBalancer.Balancer.{
  healthy_group, get_available_instances, start, offered_by, begin_request, take_first,
  select_instance,
}
use smol_router.LoadBalancer.Balancer.Ranked.{IsLeastLoaded, smart-IsLeastLoaded, smart-empty}

module _ (R : Runtime) where
  open R use {Float}

  -- The instances that a request may use: those of the model's group that are healthy on a healthy
  -- host, under the distribution strategy, of the pinned provider if one is pinned.
  abbrev pub offers :
      ModelLoadBalancer R → String → DistributionStrategy → Option String → List (ModelInstance R)
  offers s model distribution pin =
      filter (offered_by R pin)
        (apply_distribution_strategy R s.hosts distribution (healthy_group R s model))

  pub take_first-some :
      (now : Float) (l : List (ModelInstance R)) (s : ModelLoadBalancer R) (i : ModelInstance R)
      → (take_first R now l s).0 ≡ some i
      → (j : ModelInstance R) × (rest : List (ModelInstance R)) × (l ≡ j ∷ rest)
        × (i ≡ start R now j)
        × ((take_first R now l s).1 ≡ begin_request R now j s)
  unfolding take_first
  take_first-some now [] s i e = cc
  take_first-some now (j ∷ rest) s i e = (j, rest, refl, ground arith, refl)

  -- `select_instance` returns one of the instances that the request may use, started, and none of
  -- them had fewer active requests: neither the speed of a host nor the round-robin ever sends a
  -- request to a busier instance, and a pinned provider is honoured. Beside the round-robin
  -- counters, the new state differs by that instance's request having begun.
  pub select_instance-IsLeastLoaded :
      (s : ModelLoadBalancer R) (model : String) (distribution : DistributionStrategy)
      (pin : Option String) (now : Float) (i : ModelInstance R)
      → (select_instance R s model distribution pin now).0 ≡ some i
      → (j : ModelInstance R) × (counters : Dict ℕ) × (i ≡ start R now j)
        × IsLeastLoaded R j (offers s model distribution pin)
        × ((select_instance R s model distribution pin now).1
            ≡ begin_request R now j (record s { round_robin_counter = counters }))
  unfolding select_instance get_available_instances
  select_instance-IsLeastLoaded s model distribution pin now i e =
      let group = apply_distribution_strategy R s.hosts distribution (healthy_group R s model) in
      let ranked = sort_by_smart_strategy R s.hosts s.round_robin_counter now group in
      let (j, rest, found, started, after) =
        take_first-some now (filter (offered_by R pin) ranked.0)
          (record s { round_robin_counter = ranked.1 }) i e in
      (
        j,
        ranked.1,
        started,
        smart-IsLeastLoaded R s.hosts s.round_robin_counter now pin j rest group found,
        after,
      )

  take_first-empty :
      (now : Float) (l : List (ModelInstance R)) (s : ModelLoadBalancer R)
      → (take_first R now l s).0 ≡ none
      → l ≡ []
  unfolding take_first
  take_first-empty now [] s e = refl
  take_first-empty now (j ∷ rest) s e = cc

  take_first-none :
      (now : Float) (l : List (ModelInstance R)) (s : ModelLoadBalancer R)
      → (take_first R now l s).0 ≡ none
      → (take_first R now l s).1 ≡ s
  unfolding take_first
  take_first-none now [] s e = refl
  take_first-none now (j ∷ rest) s e = cc

  -- A refused request changes nothing but the round-robin counters.
  pub select_instance_refused :
      (s : ModelLoadBalancer R) (model : String) (distribution : DistributionStrategy)
      (pin : Option String) (now : Float)
      → (select_instance R s model distribution pin now).0 ≡ none
      → (counters : Dict ℕ) × ((select_instance R s model distribution pin now).1
          ≡ record s { round_robin_counter = counters })
  unfolding select_instance get_available_instances
  select_instance_refused s model distribution pin now e =
      let group = apply_distribution_strategy R s.hosts distribution (healthy_group R s model) in
      let ranked = sort_by_smart_strategy R s.hosts s.round_robin_counter now group in
      (ranked.1, take_first-none now _ (record s { round_robin_counter = ranked.1 }) e)

  -- A request is refused exactly when no instance may be used for it: selection never fails while
  -- there is an offer.
  pub select_instance-none :
      (s : ModelLoadBalancer R) (model : String) (distribution : DistributionStrategy)
      (pin : Option String) (now : Float)
      → ((select_instance R s model distribution pin now).0 ≡ none)
        ↔ (offers s model distribution pin ≡ [])
  unfolding select_instance get_available_instances take_first
  select_instance-none s model distribution pin now =
      let group = apply_distribution_strategy R s.hosts distribution (healthy_group R s model) in
      let ranked = sort_by_smart_strategy R s.hosts s.round_robin_counter now group in
      (
        λ e.
            smart-empty R s.hosts s.round_robin_counter now pin group
              (take_first-empty now (filter (offered_by R pin) ranked.0) _ e),
        λ e. elim (Option-cases (select_instance R s model distribution pin now).0) [
          | inl refused ↦ refused
          | inr (i, selected) ↦
              let (j, counters, started, least, after) =
                select_instance-IsLeastLoaded s model distribution pin now i selected in
              absurd (subst (In j) e least.0)
        ],
      )
