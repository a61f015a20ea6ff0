-- ===== src/FacadeKeys/Registry.antt =====
-- smolrouter/facade_keys.py: `FacadeKeyRegistry`, from its sources to the caller of a secret.
mod Claims
pub mod Laws
pub mod Sources
pub mod Origins
use Prim.Native.String
use smol_router.Prelude.{
  ℕ, String, Bool, true, false, not, ◌&&◌, ◌||◌, Option, none, some, List, [], ◌∷◌, ◌++◌, str_eq,
  if◌then◌else◌, any, is_empty, length, map, Dict, get, put, has, or_else, Result, ok, err, ◌>>=◌,
  ◌>>◌, guard, is_some,
}
use smol_router.Value.{Value}
use smol_router.Strategy.Names.{strip}
use smol_router.LoadBalancer.Names.{is_blank}
use smol_router.RateLimit.Policy.{RequestRateLimitPolicy}
use smol_router.FacadeKeys.Values.{
  Conversions, FacadeKeyError, empty_key, duplicate_id, duplicate_secret_id, unknown_secret_ids,
  disabled_ids_with_secrets, secrets_not_unique,
}
use smol_router.FacadeKeys.Config.{FacadeQuotaPolicy, FacadeKeyConfig, normalize_facade_key_config}

unfoldable pub normalize_registry_key : String → String → Result FacadeKeyError String
normalize_registry_key raw_key field_name =
    if is_blank (strip raw_key) then err (empty_key field_name) else ok (strip raw_key)

-- The secrets of one key, stripped, without the blank ones.
unfoldable pub clean_secrets : List String → List String
clean_secrets [] = []
clean_secrets (s ∷ raw_secrets) =
    let candidate = strip s in
    let cleaned = clean_secrets raw_secrets in
    if is_blank candidate then cleaned else candidate ∷ cleaned

abbrev pub put_cleaned : String → List String → Dict (List String) → Dict (List String)
put_cleaned key_id [] secrets = secrets
put_cleaned key_id (s ∷ cleaned) secrets = put key_id (s ∷ cleaned) secrets

unfoldable pub normalize_registry_secrets :
    Dict (List String) → Dict (List String) → Result FacadeKeyError (Dict (List String))
normalize_registry_secrets [] normalized = ok normalized
normalize_registry_secrets ((raw_key, raw_secrets) ∷ more) normalized = do
  key_id ← normalize_registry_key raw_key "secret ids"
  guard (not (has key_id normalized)) (duplicate_secret_id key_id)
  normalize_registry_secrets more (put_cleaned key_id (clean_secrets raw_secrets) normalized)

abbrev pub claims_of : String → List String → List (String × String)
claims_of key_id [] = []
claims_of key_id (s ∷ secrets) = (s, key_id) ∷ claims_of key_id secrets

-- Every secret with its key, in order.
unfoldable pub claims : Dict (List String) → List (String × String)
claims [] = []
claims ((key_id, secrets) ∷ more) = claims_of key_id secrets ++ claims more

-- `seen.setdefault(secret, key_id)`, its value and what it leaves
abbrev pub claimed_by : String → String → Dict String → String
claimed_by secret key_id seen = or_else (get secret seen) key_id

abbrev pub setdefault : String → String → Dict String → Dict String
setdefault secret key_id seen = if has secret seen then seen else put secret key_id seen

-- A secret is claimed by two keys.
unfoldable pub has_duplicate_claim : Dict String → List (String × String) → Bool
has_duplicate_claim seen [] = false
has_duplicate_claim seen ((secret, key_id) ∷ more) =
    not (str_eq (claimed_by secret key_id seen) key_id)
    || has_duplicate_claim (setdefault secret key_id seen) more

unfoldable pub build_index : Dict String → List (String × String) → Dict String
build_index index [] = index
build_index index ((secret, key_id) ∷ more) = build_index (put secret key_id index) more

abbrev pub secrets_of : String → Dict (List String) → List String
secrets_of key_id secrets = or_else (get key_id secrets) []

module _ (P : Conversions) where
  pub record RequestIdentity : Type 0 where
    pub kind : String
    pub subject_id : String
    pub display_name : Option String
    pub tags : List String
    pub default_class : Option String
    pub quota_policy : FacadeQuotaPolicy P
    pub rate_limit_policy : Option RequestRateLimitPolicy
    pub token_accounting_state : String

  pub record ResolvedCaller : Type 0 where
    pub authentication_principal : String
    pub identity : RequestIdentity

  pub record FacadeKeyRegistry : Type 0 where
    pub configs : Dict (FacadeKeyConfig P)
    pub secrets : Dict (List String)
    pub secret_index : Dict String

  unfoldable pub normalize_registry_configs :
      Dict Value → Dict (FacadeKeyConfig P) → Result FacadeKeyError (Dict (FacadeKeyConfig P))
  normalize_registry_configs [] normalized = ok normalized
  normalize_registry_configs ((raw_key, raw_config) ∷ more) normalized = do
    key_id ← normalize_registry_key raw_key "ids"
    guard (not (has key_id normalized)) (duplicate_id key_id)
    config ← normalize_facade_key_config P key_id raw_config
    normalize_registry_configs more (put key_id config normalized)

  abbrev pub has_unknown_secrets : Dict (FacadeKeyConfig P) → Dict (List String) → Bool
  has_unknown_secrets configs secrets = any (λ e. not (has e.0 configs)) secrets

  abbrev pub has_disabled_with_secrets : Dict (FacadeKeyConfig P) → Dict (List String) → Bool
  has_disabled_with_secrets configs secrets =
      any (λ e. not e.1.enabled && not (is_empty (secrets_of e.0 secrets))) configs

  -- `_validate`, then the index
  unfoldable pub new_registry :
      Dict (FacadeKeyConfig P) → Dict (List String) → Result FacadeKeyError FacadeKeyRegistry
  new_registry configs secrets = do
    guard (not (has_unknown_secrets configs secrets)) unknown_secret_ids
    guard (not (has_disabled_with_secrets configs secrets)) disabled_ids_with_secrets
    guard (not (has_duplicate_claim [] (claims secrets))) secrets_not_unique
    ok (record {
      configs = configs;
      secrets = secrets;
      secret_index = build_index [] (claims secrets);
    })

  unfoldable pub from_sources :
      Dict Value → Dict (List String) → Result FacadeKeyError FacadeKeyRegistry
  from_sources facade_key_configs facade_key_secrets = do
    configs ← normalize_registry_configs facade_key_configs []
    secrets ← normalize_registry_secrets facade_key_secrets []
    new_registry configs secrets

  abbrev pub get_secrets : FacadeKeyRegistry → String → List String
  get_secrets r key_id = secrets_of key_id r.secrets

  -- The caller of a key.
  abbrev pub caller_of : String → FacadeKeyConfig P → ResolvedCaller
  caller_of key_id config = record {
    authentication_principal = String.◌++◌ "facade_key:" key_id;
    identity = record {
      kind = "facade_key";
      subject_id = key_id;
      display_name = config.display_name;
      tags = config.tags;
      default_class = config.default_class;
      quota_policy = config.quota;
      rate_limit_policy = config.rate_limit;
      token_accounting_state = "untracked";
    };
  }

  abbrev pub caller_if_enabled : String → Option (FacadeKeyConfig P) → Option ResolvedCaller
  caller_if_enabled key_id none = none
  caller_if_enabled key_id (some config) =
      if config.enabled then some (caller_of key_id config) else none

  abbrev pub caller_by_key : FacadeKeyRegistry → Option String → Option ResolvedCaller
  caller_by_key r none = none
  caller_by_key r (some key_id) = caller_if_enabled key_id (get key_id r.configs)

  unfoldable pub resolve_secret : FacadeKeyRegistry → String → Option ResolvedCaller
  resolve_secret r presented_secret =
      let normalized = strip presented_secret in
      if is_blank normalized then none else caller_by_key r (get normalized r.secret_index)
