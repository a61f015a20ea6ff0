-- ===== src/Mediator.antt =====
-- smolrouter/mediator.py: `ModelMediator`, which puts access control, strategy and load balancer
-- together. The models that the aggregator returns are an argument.
pub mod Laws
pub mod Balanced
pub mod Released
mod Tests
use smol_router.Prelude.{
  ℕ, String, Bool, true, false, not, ◌&&◌, ◌||◌, Option, none, some, List, [], ◌∷◌, str_eq,
  if◌then◌else◌, any, filter, find?, is_empty, length, Result, ok, err,
}
use smol_router.ModelInfo.{ModelInfo, display_name}
use smol_router.Access.Patterns.{PatternEngine}
use smol_router.Access.Control.{Client, AccessControl, filter_models, can_access_model}
use smol_router.Strategy.Rules.{TextEngine, AliasError}
use smol_router.Strategy.Resolve.{SmartModelStrategy, resolve_model_request}
use smol_router.LoadBalancer.Runtime.{Runtime}
use smol_router.LoadBalancer.Types.{spread_all_hosts, ModelInstance, ModelLoadBalancer}
use smol_router.LoadBalancer.Balancer.{register_model_instance, select_instance, end_request}

-- `SmartModelStrategy.apply_aliases`
abbrev pub apply_aliases : List ModelInfo → List ModelInfo
apply_aliases models = models

abbrev pub candidate_name : Option ModelInfo → String → String
candidate_name none requested_model = requested_model
candidate_name (some m) requested_model = m.name

-- `requested_model in (resolved_model.display_name, resolved_model.id)`
abbrev pub is_explicit : String → ModelInfo → Bool
is_explicit requested_model m =
    str_eq requested_model (display_name m) || str_eq requested_model m.id

abbrev pub pinned_provider : Option ModelInfo → String → Option String
pinned_provider none requested_model = none
pinned_provider (some m) requested_model =
    if is_explicit requested_model m then some m.provider_id else none

-- What `validate_model_request` reports.
pub data Validation : Type 0 where
  no_models unresolved : Validation
  denied granted : ModelInfo → Validation
  validation_error : AliasError → Validation

module _ (E : PatternEngine) (T : TextEngine) (R : Runtime) where
  open R use {Float, from_ℕ}

  -- The attributes of the mediator, the load balancer that it shares, and the models that carry
  -- an `_lb_instance`, by id: it is the instance with the model's name and endpoint.
  pub record ModelMediator : Type 0 where
    pub strategy : SmartModelStrategy
    pub access_control : AccessControl
    pub models_registered_in_lb : Bool
    pub balancer : ModelLoadBalancer R
    pub attached : List String

  unfoldable pub get_available_models : ModelMediator → Client → List ModelInfo → List ModelInfo
  get_available_models s client all_models =
      filter_models E client s.access_control (apply_aliases all_models)

  unfoldable pub register_all : Float → List ModelInfo → ModelLoadBalancer R → ModelLoadBalancer R
  register_all now [] b = b
  register_all now (m ∷ models) b =
      register_all now models (register_model_instance R m.name m.provider_id m.endpoint now b)

  unfoldable pub register_models_in_load_balancer :
      Float → List ModelInfo → ModelMediator → ModelMediator
  register_models_in_load_balancer now models s =
      if s.models_registered_in_lb then s else record s {
        models_registered_in_lb = true;
        balancer = register_all now models s.balancer;
      }

  -- The model that the instance serves.
  abbrev pub serves : ModelInstance R → ModelInfo → Bool
  serves i m = str_eq m.name i.model_id && str_eq m.endpoint i.provider_url

  abbrev pub attach_or_release :
      Float → ModelInstance R → Option ModelInfo → ModelMediator → Option ModelInfo × ModelMediator
  attach_or_release now i none s = (
    none,
    record s {
      balancer = end_request R i.model_id i.provider_url (from_ℕ 0) false (from_ℕ 0) now s.balancer;
    },
  )
  attach_or_release now i (some m) s = (some m, record s { attached = m.id ∷ s.attached })

  abbrev pub on_selected :
      Float
      → List ModelInfo
      → Option (ModelInstance R)
      → ModelMediator
      → Option ModelInfo × ModelMediator
  on_selected now available none s = (none, s)
  on_selected now available (some i) s = attach_or_release now i (find? (serves i) available) s

  unfoldable pub resolve_model_via_load_balancer :
      Float
      → String
      → List ModelInfo
      → Option String
      → ModelMediator
      → Option ModelInfo × ModelMediator
  resolve_model_via_load_balancer now requested_model available pinned s =
      let (instance, balancer) =
        select_instance R s.balancer requested_model spread_all_hosts pinned now in
      on_selected now available instance (record s { balancer = balancer })

  -- The balanced model, or else the resolved one after a last look at its access.
  abbrev pub choose_model :
      Client → Option ModelInfo → Option ModelInfo → AccessControl → Option ModelInfo
  choose_model client (some m) resolved c = some m
  choose_model client none none c = none
  choose_model client none (some m) c = if can_access_model E client c m then some m else none

  abbrev pub balance :
      Float
      → Client
      → String
      → List ModelInfo
      → Result AliasError (Option ModelInfo)
      → ModelMediator
      → Result AliasError (Option ModelInfo) × ModelMediator
  balance now client requested_model available (err e) s = (err e, s)
  balance now client requested_model available (ok resolved) s =
      let (balanced, s') =
        resolve_model_via_load_balancer now (candidate_name resolved requested_model) available
          (pinned_provider resolved requested_model) s in
      (ok (choose_model client balanced resolved s.access_control), s')

  unfoldable pub resolve_model_for_request :
      Float
      → String
      → Client
      → List ModelInfo
      → ModelMediator
      → Result AliasError (Option ModelInfo) × ModelMediator
  resolve_model_for_request now requested_model client all_models s =
      let available = get_available_models s client all_models in
      let registered = register_models_in_load_balancer now available s in
      let resolved = resolve_model_request T s.strategy requested_model available in
      if is_empty available
      then (ok none, s)
      else balance now client requested_model available resolved registered

  unfoldable pub get_model_by_id :
      ModelMediator → String → Client → List ModelInfo → Option ModelInfo
  get_model_by_id s model_id client all_models =
      find? (λ m. str_eq m.id model_id) (get_available_models s client all_models)

  -- `get_models_by_provider`, on the models of the provider
  unfoldable pub get_models_by_provider : ModelMediator → Client → List ModelInfo → List ModelInfo
  get_models_by_provider s client provider_models =
      filter_models E client s.access_control (apply_aliases provider_models)

  abbrev pub validation_of :
      Client → AccessControl → Result AliasError (Option ModelInfo) → Validation
  validation_of client c (err e) = validation_error e
  validation_of client c (ok none) = unresolved
  validation_of client c (ok (some m)) =
      if can_access_model E client c m then granted m else denied m

  -- `validate_model_request`
  unfoldable pub validate_model_request :
      ModelMediator → String → Client → List ModelInfo → Validation
  validate_model_request s requested_model client all_models =
      let available = get_available_models s client all_models in
      if is_empty available
      then no_models
      else validation_of client s.access_control
          (resolve_model_request T s.strategy requested_model available)
