-- ===== src/Access/Control.antt =====
-- smolrouter/access_control.py: `NoAccessControl`, `CompositeAccessControl`, and how the kinds of
-- access control nest.
pub mod Laws
use smol_router.Prelude.{
  String, Bool, true, false, ◌&&◌, ◌||◌, Option, List, [], ◌∷◌, ◌++◌, map, str_eq, filter, any,
}
use smol_router.ModelInfo.{ModelInfo}
use smol_router.Access.Patterns.{PatternEngine}
use smol_router.Access.Ip.{
  Rule, filter_models as ip_filter_models, can_access_model as ip_can_access_model,
}
use smol_router.Access.Auth.{
  Payload, AuthConfig, filter_models as auth_filter_models,
  can_access_model as auth_can_access_model,
}

-- The part of `ClientContext` that decides access.
pub record Client : Type 0 where
  pub ip : String
  pub auth_payload : Option Payload

pub data Mode : Type 0 where
  all_of any_of : Mode

mutual
  pub data AccessControl : Type 0 where
    no_control : AccessControl
    by_ip : List Rule → AccessControl
    by_auth : AuthConfig → AccessControl
    composite : Controls → Mode → AccessControl

  pub data Controls : Type 0 where
    nil : Controls
    cons : AccessControl → Controls → Controls

-- `model_id in ids`
abbrev pub has_id : List String → String → Bool
has_id ids i = any (str_eq i) ids

module _ (E : PatternEngine) (client : Client) where
  unfoldable mutual
    -- `filter_models` of each kind. In mode `any_of` the allowed ids of all controls are collected
    -- first.
    pub filter_models : AccessControl → List ModelInfo → List ModelInfo
    filter_models no_control models = models
    filter_models (by_ip rules) models = ip_filter_models E rules client.ip models
    filter_models (by_auth c) models = auth_filter_models E c client.auth_payload models
    filter_models (composite nil mode) models = models
    filter_models (composite (cons c cs) all_of) models = filter_in_turn (cons c cs) models
    filter_models (composite (cons c cs) any_of) models =
        filter (λ m. has_id (allowed_ids (cons c cs) models) m.id) models

    pub filter_in_turn : Controls → List ModelInfo → List ModelInfo
    filter_in_turn nil models = models
    filter_in_turn (cons c cs) models = filter_in_turn cs (filter_models c models)

    pub allowed_ids : Controls → List ModelInfo → List String
    allowed_ids nil models = []
    allowed_ids (cons c cs) models =
        map (λ m. m.id) (filter_models c models) ++ allowed_ids cs models

  unfoldable mutual
    -- `can_access_model` of each kind.
    pub can_access_model : AccessControl → ModelInfo → Bool
    can_access_model no_control m = true
    can_access_model (by_ip rules) m = ip_can_access_model E rules client.ip m
    can_access_model (by_auth c) m = auth_can_access_model E c client.auth_payload m
    can_access_model (composite nil mode) m = true
    can_access_model (composite (cons c cs) all_of) m = all_allow (cons c cs) m
    can_access_model (composite (cons c cs) any_of) m = some_allows (cons c cs) m

    pub all_allow : Controls → ModelInfo → Bool
    all_allow nil m = true
    all_allow (cons c cs) m = can_access_model c m && all_allow cs m

    pub some_allows : Controls → ModelInfo → Bool
    some_allows nil m = false
    some_allows (cons c cs) m = can_access_model c m || some_allows cs m
