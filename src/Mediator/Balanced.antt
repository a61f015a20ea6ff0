-- ===== src/Mediator/Balanced.antt =====
-- The mediator's calls of the load balancer keep to the order that the load balancer relies on.
use smol_router.Prelude.{
  ℕ, ◌≤◌, ◌+◌, String, ◌≡◌, sym, ap, inl, inr, true, false, Option, some, List, [], ◌∷◌, arith,
  eq_iff, find?, is_empty, In, In-All, Bool-cases, Option-cases, Result-cases, get,
}
use smol_router.ModelInfo.{ModelInfo}
use smol_router.Access.Patterns.{PatternEngine}
use smol_router.Access.Control.{Client}
use smol_router.Strategy.Rules.{TextEngine}
use smol_router.Strategy.Resolve.{resolve_model_request}
use smol_router.LoadBalancer.Runtime.{Runtime}
use smol_router.LoadBalancer.Types.{HostMetrics, ModelInstance, ModelLoadBalancer, spread_all_hosts}
use smol_router.LoadBalancer.Registry.{is_named}
use smol_router.LoadBalancer.Balancer.{
  update_instance, start, begin_request, select_instance, end_request,
}
use smol_router.LoadBalancer.Balancer.Health.{select_instance-MayServe}
use smol_router.LoadBalancer.Balancer.Loads.Update.{Distinct, host_load, is_named_comm}
use smol_router.LoadBalancer.Balancer.Step.{
  Calls, next, register, select, finish, Calls-IsConsistent, reachable_loads,
}
use smol_router.Mediator.{
  candidate_name, pinned_provider, ModelMediator, get_available_models, register_all,
  register_models_in_load_balancer, serves, resolve_model_via_load_balancer,
  resolve_model_for_request,
}

module _ (R : Runtime) where
  open R use {Float, from_ℕ}

  -- A registered instance that was started is found under its name.
  pub find?-started :
      (now : Float) (j : ModelInstance R) (l : List (ModelInstance R))
      → Distinct R l
      → In j l
      → find?
          (is_named R j.model_id j.provider_url)
          (update_instance R (start R now) j.model_id j.provider_url l)
        ≡ some (start R now j)
  unfolding update_instance start
  find?-started now j [] d m = absurd m
  find?-started now j (x ∷ l) d (inl e) =
      let same_id : x.model_id ≡ j.model_id = sym (ap (λ i. i.model_id) e) in
      let same_url : x.provider_url ≡ j.provider_url = sym (ap (λ i. i.provider_url) e) in
      let hit : is_named R j.model_id j.provider_url x ≡ true =
        ground (arith, eq_iff x.model_id j.model_id, eq_iff x.provider_url j.provider_url) in
      rw (hit, hit) (ap (λ i. some (start R now i)) (sym e))
  find?-started now j (x ∷ l) d (inr there) =
      let other = is_named_comm R x j (In-All _ l d.0 there) in
      rw (other, other) (find?-started now j l d.1 there)

  -- A request that was just begun may be ended.
  end_selected-Calls :
      {n : ℕ} (b : ModelLoadBalancer R) (model : String) (pin : Option String) (now now' : Float)
      (i : ModelInstance R)
      → Calls R n b
      → (select_instance R b model spread_all_hosts pin now).0 ≡ some i
      → Calls R n (
          end_request R i.model_id i.provider_url
            (from_ℕ 0)
            false
            (from_ℕ 0)
            now'
            (select_instance R b model spread_all_hosts pin now).1)
  unfolding begin_request start
  end_selected-Calls b model pin now now' i r h =
      let (j, counters, started, may, after) =
        select_instance-MayServe R b model spread_all_hosts pin now i h in
      let c = Calls-IsConsistent R r in
      let found = find?-started now j b.instances c.distinct may.registered in
      let same_id : i.model_id ≡ j.model_id = ap (λ x. x.model_id) started in
      let same_url : i.provider_url ≡ j.provider_url = ap (λ x. x.provider_url) started in
      next (next r (select b model spread_all_hosts pin now)) (
        finish _ i.model_id i.provider_url (from_ℕ 0) (from_ℕ 0) now' false (start R now j)
          (rw (same_id, same_url, after) found) (omega arith))

module _ (E : PatternEngine) (T : TextEngine) (R : Runtime) where
  register_all-Calls :
      {n : ℕ} (now : R.Float) (models : List ModelInfo) (b : ModelLoadBalancer R)
      → Calls R n b
      → Calls R n (register_all E T R now models b)
  unfolding register_all
  register_all-Calls now [] b r = r
  register_all-Calls now (m ∷ models) b r =
      register_all-Calls now models _ (next r (register b m.name m.provider_id m.endpoint now))

  register_models-Calls :
      {n : ℕ} (now : R.Float) (models : List ModelInfo) (s : ModelMediator E T R)
      → Calls R n s.balancer
      → Calls R n (register_models_in_load_balancer E T R now models s).balancer
  unfolding register_models_in_load_balancer
  register_models-Calls now models s r = elim (Bool-cases s.models_registered_in_lb) [
    | inl done ↦ rw done r
    | inr first ↦ rw first (register_all-Calls now models s.balancer r)
  ]

  via_load_balancer-Calls :
      {n : ℕ} (now : R.Float) (name : String) (available : List ModelInfo) (pin : Option String)
      (s : ModelMediator E T R)
      → Calls R n s.balancer
      → Calls R n (resolve_model_via_load_balancer E T R now name available pin s).1.balancer
  unfolding resolve_model_via_load_balancer
  via_load_balancer-Calls now name available pin s r =
      elim (Option-cases (select_instance R s.balancer name spread_all_hosts pin now).0) [
        | inl refused ↦ rw refused (next r (select s.balancer name spread_all_hosts pin now))
        | inr (i, selected) ↦ elim (Option-cases (find? (serves E T R i) available)) [
          | inl missing ↦
              rw (selected, missing) (end_selected-Calls R s.balancer name pin now now i r selected)
          | inr (m, found) ↦
              rw (selected, found) (next r (select s.balancer name spread_all_hosts pin now))
        ]
      ]

  resolve_model_for_request-Calls :
      {n : ℕ} (now : R.Float) (requested_model : String) (client : Client)
      (all_models : List ModelInfo) (s : ModelMediator E T R)
      → Calls R n s.balancer
      → Calls R n
          (resolve_model_for_request E T R now requested_model client all_models s).1.balancer
  unfolding resolve_model_for_request
  resolve_model_for_request-Calls now requested_model client all_models s r =
      let available = get_available_models E T R s client all_models in
      let registered = register_models-Calls now available s r in
      elim (Bool-cases (is_empty available)) [
        | inl empty ↦ rw empty r
        | inr some_left ↦
            elim (Result-cases (resolve_model_request T s.strategy requested_model available)) [
              | inl (e, failed) ↦ rw (some_left, failed) registered
              | inr (resolved, is_ok) ↦
                  rw (some_left, is_ok)
                    (via_load_balancer-Calls now (candidate_name resolved requested_model) available
                      (pinned_provider resolved requested_model) _ registered)
            ]
      ]

  -- Resolving a request, after any calls of the load balancer, of which n were surplus ends, leaves
  -- it in a state that calls with n surplus ends reach: also where the selected instance serves no
  -- available model and its request is released, or the request fails. So each host afterwards
  -- counts no more active requests than its instances do together, and less by n at most, which is
  -- none where there was no surplus end; and no two instances have the same model and provider URL.
  pub resolve_model_for_request_loads :
      {n : ℕ} (now : R.Float) (requested_model : String) (client : Client)
      (all_models : List ModelInfo) (s : ModelMediator E T R) (h : String) (host : HostMetrics R)
      → Calls R n s.balancer
      → get h
          (resolve_model_for_request E T R now requested_model client all_models s).1.balancer.hosts
        ≡ some host
      → Calls R n
          (resolve_model_for_request E T R now requested_model client all_models s).1.balancer
        × (host.active_requests
            ≤ host_load R h
                (resolve_model_for_request E T R now requested_model client all_models
                  s).1.balancer.instances)
        × (host_load R h
              (resolve_model_for_request E T R now requested_model client all_models
                s).1.balancer.instances
            ≤ host.active_requests + n)
        × Distinct R
            (resolve_model_for_request E T R now requested_model client all_models
              s).1.balancer.instances
  resolve_model_for_request_loads {n} now requested_model client all_models s h host r e =
      let r' = resolve_model_for_request-Calls now requested_model client all_models s r in
      let (above, below, distinct) = reachable_loads R n _ h host r' e in
      (r', above, below, distinct)
