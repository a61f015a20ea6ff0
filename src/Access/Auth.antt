-- ===== src/Access/Auth.antt =====
-- smolrouter/access_control.py: `AuthBasedAccessControl`, with `ClientContext.user_id` of
-- smolrouter/interfaces.py. An empty payload is falsy, so it is `none` here like a missing one.
pub mod Laws
use smol_router.Prelude.{
  String, Bool, true, false, not, ◌&&◌, ◌||◌, Option, none, some, List, [], ◌∷◌, ◌++◌, str_eq,
  if◌then◌else◌, filter, any, is_empty, Dict, get, or_else, is_some,
}
use smol_router.ModelInfo.{ModelInfo, identifiers}
use smol_router.Access.Patterns.{PatternEngine, is_regex, inner}

-- A claim that may be one text or a list.
pub data RoleClaim : Type 0 where
  one : String → RoleClaim
  many : List String → RoleClaim

pub record Payload : Type 0 where
  pub roles : Option RoleClaim
  pub role : Option RoleClaim
  pub sub : Option String
  pub user : Option String
  pub username : Option String

-- A mapping of rules: the three keys that are read, and whether it has any other key.
pub record AuthRules : Type 0 where
  pub allowed_models : Option (List String)
  pub denied_models : Option (List String)
  pub allow_all : Option Bool
  pub others : Bool

pub record AuthConfig : Type 0 where
  pub default_rules : AuthRules
  pub user_rules : Dict AuthRules
  pub role_rules : Dict AuthRules

abbrev pub or_next : Option String → Option String → Option String
or_next none next = next
or_next (some s) next = if str_eq s "" then next else some s

-- `payload.get("sub") or payload.get("user") or payload.get("username")`
unfoldable pub user_id : Payload → Option String
user_id p = or_next p.sub (or_next p.user p.username)

abbrev pub claimed : Option RoleClaim → List String
claimed none = []
claimed (some (one r)) = r ∷ []
claimed (some (many rs)) = rs

-- The roles. Where the payload's own `roles` is a list, the roles of the claim `role` are appended
-- to that list, so the payload comes back changed.
unfoldable pub stored_roles : Option RoleClaim → List String → Option RoleClaim
stored_roles (some (many rs)) roles = some (many roles)
stored_roles (some (one r)) roles = some (one r)
stored_roles none roles = none

unfoldable pub get_user_roles : Payload → List String × Payload
get_user_roles p =
    let roles = claimed p.roles ++ claimed p.role in
    (roles, record p { roles = stored_roles p.roles roles })

abbrev pub override {ℓ} : {A : Type ℓ} → Option A → Option A → Option A
override old none = old
override old (some a) = some a

-- `rules.update(more)`
unfoldable pub update : AuthRules → AuthRules → AuthRules
update rules more = record {
  allowed_models = override rules.allowed_models more.allowed_models;
  denied_models = override rules.denied_models more.denied_models;
  allow_all = override rules.allow_all more.allow_all;
  others = rules.others || more.others;
}

abbrev pub update_by : AuthRules → Option AuthRules → AuthRules
update_by rules none = rules
update_by rules (some more) = update rules more

unfoldable pub apply_roles : Dict AuthRules → AuthRules → List String → AuthRules
apply_roles role_rules rules [] = rules
apply_roles role_rules rules (r ∷ roles) =
    apply_roles role_rules (update_by rules (get r role_rules)) roles

unfoldable pub rules_of_user : AuthConfig → Option String → Option AuthRules
rules_of_user c none = none
rules_of_user c (some user) = if str_eq user "" then none else get user c.user_rules

-- `_find_applicable_rules`
unfoldable pub find_applicable_rules : AuthConfig → Payload → AuthRules
find_applicable_rules c p =
    update_by (apply_roles c.role_rules c.default_rules (get_user_roles p).0)
      (rules_of_user c (user_id p))

module _ (E : PatternEngine) where
  open E use {compiles, regex_match, fnmatch}

  -- An invalid regex matches nothing here.
  unfoldable pub matches_pattern : String → List String → Bool
  matches_pattern pattern names =
      if is_regex pattern
      then compiles (inner pattern) && any (regex_match (inner pattern)) names
      else any (λ s. fnmatch s pattern) names

  unfoldable pub matches_any_pattern : ModelInfo → List String → Bool
  matches_any_pattern m patterns = any (λ p. matches_pattern p (identifiers m)) patterns

  -- `not rules`
  abbrev pub no_rules : AuthRules → Bool
  no_rules r =
      not (is_some r.allowed_models || is_some r.denied_models || is_some r.allow_all || r.others)

  unfoldable pub filter_by_rules : AuthRules → List ModelInfo → List ModelInfo
  filter_by_rules r models =
      let denied = or_else r.denied_models [] in
      let everything = or_else r.allow_all false in
      if no_rules r
      then models
      else if everything && is_empty denied
      then models
      else filter
          (λ m.
            (everything || matches_any_pattern m (or_else r.allowed_models []))
            && not (matches_any_pattern m denied))
          models

  unfoldable pub rules_for : AuthConfig → Option Payload → AuthRules
  rules_for c none = c.default_rules
  rules_for c (some p) = find_applicable_rules c p

  -- `filter_models` and `can_access_model`
  unfoldable pub filter_models : AuthConfig → Option Payload → List ModelInfo → List ModelInfo
  filter_models c payload models = filter_by_rules (rules_for c payload) models

  unfoldable pub can_access_model : AuthConfig → Option Payload → ModelInfo → Bool
  can_access_model c payload m = not (is_empty (filter_models c payload (m ∷ [])))
