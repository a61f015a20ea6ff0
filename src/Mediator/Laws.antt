-- ===== src/Mediator/Laws.antt =====
-- What a request is resolved to, and what that does to the load balancer.
use smol_router.Prelude.{
  String, ◌≡◌, ap, ◌∙◌, inl, inr, true, Option, none, some, List, arith, find?, is_empty, In,
  In-filter, find?-eq-some, Bool-cases, Option-cases, Result-cases, ok,
}
use smol_router.ModelInfo.{ModelInfo, DistinctIds}
use smol_router.Access.Patterns.{PatternEngine}
use smol_router.Access.Control.{Client, AccessControl, can_access_model}
use smol_router.Access.Control.Laws.{filter_models_lem}
use smol_router.Strategy.Names.{parse_fully_qualified_name}
use smol_router.Strategy.Rules.{TextEngine}
use smol_router.Strategy.Resolve.{
  SmartModelStrategy, is_qualified, find_qualified, resolve_model_request,
}
use smol_router.Strategy.Resolve.Laws.{resolve_model_request_best}
use smol_router.LoadBalancer.Runtime.{Runtime}
use smol_router.LoadBalancer.Types.{ModelInstance}
use smol_router.Mediator.{
  candidate_name, pinned_provider, ModelMediator, get_available_models, serves, on_selected,
  resolve_model_via_load_balancer, choose_model, balance, resolve_model_for_request,
}

find_qualified-In :
    (parsed : Option (String × String)) (l : List ModelInfo) (k : ModelInfo)
    → find_qualified parsed l ≡ some k
    → In k l
unfolding find_qualified
find_qualified-In none l k h = cc
find_qualified-In (some (name, provider_id)) l k h =
    (find?-eq-some (is_qualified name provider_id) l k h).0

module _ (E : PatternEngine) (T : TextEngine) (R : Runtime) where
  resolve_model_request-In :
      (s : SmartModelStrategy) (request : String) (l : List ModelInfo) (k : ModelInfo)
      → resolve_model_request T s request l ≡ ok (some k)
      → In k l
  resolve_model_request-In s request l k h = elim (resolve_model_request_best T s request l k h) [
    | inl qualified ↦ find_qualified-In (parse_fully_qualified_name request) l k qualified
    | inr (_, _, _, named) ↦ elim named [
      | inl exact ↦ exact.listed
      | inr partial ↦ partial.1.listed
    ]
  ]

  -- A balanced model is an available one.
  on_selected-In :
      (now : R.Float) (available : List ModelInfo) (i : Option (ModelInstance R))
      (s : ModelMediator E T R) (m : ModelInfo)
      → (on_selected E T R now available i s).0 ≡ some m
      → In m available
  on_selected-In now available none s m h = cc
  on_selected-In now available (some i) s m h =
      elim (Option-cases (find? (serves E T R i) available)) [
        | inl missing ↦ absurd (let clash = rw missing at h in cc)
        | inr (k, found) ↦
            let is_k : k ≡ m = (let e = rw found at h in ground arith) in
            rw (← is_k) (find?-eq-some (serves E T R i) available k found).0
      ]

  choose_model-In :
      (client : Client) (balanced resolved : Option ModelInfo) (c : AccessControl)
      (available : List ModelInfo) (m : ModelInfo)
      → ((k : ModelInfo) → balanced ≡ some k → In k available)
      → ((k : ModelInfo) → resolved ≡ some k → In k available)
      → choose_model E T R client balanced resolved c ≡ some m
      → In m available
  choose_model-In client (some k) resolved c available m b r h = b m h
  choose_model-In client none none c available m b r h = cc
  choose_model-In client none (some k) c available m b r h =
      elim (Bool-cases (can_access_model E client c k)) [
        | inl allowed ↦ r m (rw allowed at h)
        | inr denied ↦ absurd (let clash = rw denied at h in cc)
      ]

  balance-In :
      (now : R.Float) (client : Client) (requested_model : String) (available : List ModelInfo)
      (resolved : Option ModelInfo) (s : ModelMediator E T R) (m : ModelInfo)
      → ((k : ModelInfo) → resolved ≡ some k → In k available)
      → (balance E T R now client requested_model available (ok resolved) s).0 ≡ ok (some m)
      → In m available
  unfolding resolve_model_via_load_balancer
  balance-In now client requested_model available resolved s m r h =
      let name = candidate_name resolved requested_model in
      let pin = pinned_provider resolved requested_model in
      let balanced = resolve_model_via_load_balancer E T R now name available pin s in
      let chosen : choose_model E T R client balanced.0 resolved s.access_control ≡ some m =
        ground arith in
      choose_model-In client balanced.0 resolved s.access_control available m
        (λ k e. on_selected-In now available _ _ k e) r chosen

  resolve_model_for_request-In :
      (now : R.Float) (requested_model : String) (client : Client) (all_models : List ModelInfo)
      (s : ModelMediator E T R) (m : ModelInfo)
      → (resolve_model_for_request E T R now requested_model client all_models s).0 ≡ ok (some m)
      → In m (get_available_models E T R s client all_models)
  unfolding resolve_model_for_request
  resolve_model_for_request-In now requested_model client all_models s m h =
      let available = get_available_models E T R s client all_models in
      elim (Bool-cases (is_empty available)) [
        | inl empty ↦ absurd (let clash = rw empty at h in cc)
        | inr some_left ↦
            elim (Result-cases (resolve_model_request T s.strategy requested_model available)) [
              | inl (e, failed) ↦ absurd (let clash = rw (some_left, failed) at h in cc)
              | inr (resolved, is_ok) ↦
                  balance-In now client requested_model available resolved _ m
                    (λ k e.
                      resolve_model_request-In s.strategy requested_model available k
                        (is_ok ∙ ap ok e))
                    (rw (some_left, is_ok) at h)
            ]
      ]

  -- Whatever a client asks for, and whether the load balancer has a say or not, a request is only
  -- ever resolved to a model that the aggregator has and that the access control lets the client
  -- access. The ids of the models are distinct.
  pub resolve_model_for_request_allowed :
      (now : R.Float) (requested_model : String) (client : Client) (all_models : List ModelInfo)
      (s : ModelMediator E T R) (m : ModelInfo)
      → DistinctIds all_models
      → (resolve_model_for_request E T R now requested_model client all_models s).0 ≡ ok (some m)
      → In m all_models × (can_access_model E client s.access_control m ≡ true)
  unfolding get_available_models
  resolve_model_for_request_allowed now requested_model client all_models s m distinct h =
      let there = resolve_model_for_request-In now requested_model client all_models s m h in
      let kept = filter_models_lem E client s.access_control all_models distinct in
      (In-filter (can_access_model E client s.access_control) m all_models).0 (rw kept at there)
