-- ===== src/FacadeKeys/Tests.antt =====
-- Runs of the facade keys on a small configuration, with tenths for floats.
use smol_router.Prelude.{
  ℕ, String, ◌≡◌, refl, inl, ◌↔◌, true, Option, none, some, List, [], ◌∷◌, leb, Dict, get, put, In,
  ok, err,
}
use smol_router.Value.{
  Value, null, bool, int, negative, text, array, mapping, other, nil, cons, end, field,
}
use smol_router.Strategy.Names.{strip, rstrip, lstrip, is_space}
use smol_router.FacadeKeys.Values.{
  Conversions, Integer, natural, below_zero, secrets_not_unique, enabled_not_a_boolean,
}
use smol_router.FacadeKeys.Config.{
  FacadeKeyConfig, coerce_positive_int, coerce_warn_threshold, clean_tags, normalize_tags,
  normalize_quota_policy, coerce_enabled, normalize_rate_limit, normalize_facade_key_config,
}
use smol_router.FacadeKeys.Registry.{
  normalize_registry_key, clean_secrets, normalize_registry_secrets, claims, has_duplicate_claim,
  build_index, FacadeKeyRegistry, normalize_registry_configs, new_registry, from_sources,
  get_secrets, caller_of, resolve_secret,
}
use smol_router.FacadeKeys.Registry.Laws.{resolve_secret_lem}
use smol_router.FacadeKeys.Registry.Sources.{resolve_secret-from_sources}

abbrev to_int : Value → Option Integer
to_int null = none
to_int (bool b) = none
to_int (int n) = some (natural n)
to_int (negative n) = some below_zero
to_int (text s) = none
to_int (array vs) = none
to_int (mapping fs) = none
to_int other = none

abbrev pub tenths : Conversions
tenths = record {
  Float = ℕ;
  four_fifths = 8;
  in_unit_interval = λ n. leb n 10;
  str = λ v. "?";
  to_int = to_int;
  to_float = λ v. none;
  lower = λ s. s;
}

abbrev configs : Dict Value
configs =
    (" a", mapping (field "tags" (array (cons (text " x ") (cons null nil))) end))
    ∷ ("b", null)
    ∷ []

abbrev secrets : Dict (List String)
secrets = ("a", " s1 " ∷ " " ∷ "s2" ∷ []) ∷ []

abbrev config_of : String → List String → FacadeKeyConfig tenths
config_of key_id tags = record {
  key_id = key_id;
  enabled = true;
  display_name = none;
  tags = tags;
  default_class = none;
  quota = record {
    daily_requests_soft = none;
    daily_tokens_soft = none;
    action = "observe";
    warn_threshold = 8;
  };
  rate_limit = none;
}

abbrev registry : FacadeKeyRegistry tenths
registry = record {
  configs = ("a", config_of "a" ("x" ∷ [])) ∷ ("b", config_of "b" []) ∷ [];
  secrets = ("a", "s1" ∷ "s2" ∷ []) ∷ [];
  secret_index = ("s1", "a") ∷ ("s2", "a") ∷ [];
}

registry-loads : from_sources tenths configs secrets ≡ ok registry
unfolding from_sources normalize_registry_configs normalize_registry_key normalize_facade_key_config
    coerce_enabled normalize_tags clean_tags normalize_quota_policy coerce_positive_int
    coerce_warn_threshold normalize_rate_limit normalize_registry_secrets clean_secrets new_registry
    has_duplicate_claim claims build_index get put strip rstrip lstrip is_space
registry-loads = refl

resolve_secret_lem_example : In (strip "s2 ") (get_secrets tenths registry "a") ↔ (
    (config : FacadeKeyConfig tenths) × (get "a" registry.configs ≡ some config)
    × (config.enabled ≡ true)
    × (resolve_secret tenths registry "s2 " ≡ some (caller_of tenths "a" config)))
resolve_secret_lem_example =
    resolve_secret_lem tenths configs secrets registry "a" "s2 " registry-loads

resolve_secret-from_sources_example :
    (config : FacadeKeyConfig tenths) × (get (strip "a") registry.configs ≡ some config)
    × (resolve_secret tenths registry "s1" ≡ some (caller_of tenths (strip "a") config))
unfolding strip rstrip lstrip is_space
resolve_secret-from_sources_example =
    resolve_secret-from_sources tenths configs secrets registry "a" " s1 " "s1"
      (" s1 " ∷ " " ∷ "s2" ∷ []) registry-loads (inl refl) (inl refl) refl refl

shared-secret :
    new_registry tenths registry.configs (("a", "s1" ∷ []) ∷ ("b", "s1" ∷ []) ∷ [])
    ≡ err secrets_not_unique
unfolding new_registry has_duplicate_claim claims get put
shared-secret = refl

-- A text of white space is no Boolean, while an empty one is the default.
blank-enabled :
    (coerce_enabled tenths (text "") "a" ≡ ok true)
    × (coerce_enabled tenths (text " ") "a" ≡ err (enabled_not_a_boolean "a"))
unfolding coerce_enabled strip rstrip lstrip is_space
blank-enabled = (refl, refl)
