-- ===== src/FacadeKeys/Config.antt =====
-- smolrouter/facade_keys.py: the configuration of one facade key, coerced from raw values.
use smol_router.Prelude.{
  ℕ, String, Bool, true, false, ◌==◌, Option, none, some, List, [], ◌∷◌, str_eq, if◌then◌else◌, any,
  get, or_else, Result, ok, err, ◌>>=◌, ◌>>◌, guard,
}
use Prim.Native.String
use smol_router.Value.{Value, null, bool, int, negative, text, array, mapping, other, end}
use smol_router.Strategy.Names.{strip}
use smol_router.LoadBalancer.Names.{is_blank}
use smol_router.RateLimit.Policy.{
  RequestRateLimitPolicy, ConfigError, parse_request_rate_limit_policy,
}
use smol_router.FacadeKeys.Values.{
  Conversions, FacadeKeyError, bad_rate_limit, config_not_a_mapping, enabled_not_a_boolean,
  is_absent, is_negative, list_of, mapping_of, non_negative, not_an_integer, or_raise,
  quota_not_a_mapping, tags_not_a_list, threshold_not_numeric, threshold_out_of_range,
  unsupported_action, value_of,
}

module _ (P : Conversions) where
  open P use {Float, four_fifths, in_unit_interval, str, to_int, to_float, lower}

  pub record FacadeQuotaPolicy : Type 0 where
    pub daily_requests_soft : Option ℕ
    pub daily_tokens_soft : Option ℕ
    pub action : String
    pub warn_threshold : Float

  pub record FacadeKeyConfig : Type 0 where
    pub key_id : String
    pub enabled : Bool
    pub display_name : Option String
    pub tags : List String
    pub default_class : Option String
    pub quota : FacadeQuotaPolicy
    pub rate_limit : Option RequestRateLimitPolicy

  abbrev pub str_of : Value → String
  str_of (text s) = s
  str_of null = str null
  str_of (bool b) = str (bool b)
  str_of (int n) = str (int n)
  str_of (negative n) = str (negative n)
  str_of (array vs) = str (array vs)
  str_of (mapping fs) = str (mapping fs)
  str_of other = str other

  unfoldable pub coerce_positive_int : Value → String → String → Result FacadeKeyError (Option ℕ)
  coerce_positive_int value field_name key_id = if is_absent value then ok none else (do
    normalized ← or_raise (to_int value) (not_an_integer key_id field_name)
    non_negative normalized (is_negative key_id field_name))

  unfoldable pub coerce_warn_threshold : Value → String → Result FacadeKeyError Float
  coerce_warn_threshold value key_id = if is_absent value then ok four_fifths else (do
    normalized ← or_raise (to_float value) (threshold_not_numeric key_id)
    guard (in_unit_interval normalized) (threshold_out_of_range key_id)
    ok normalized)

  abbrev pub add_tag : Value → List String → List String
  add_tag null tags = tags
  add_tag tag tags =
      let candidate = strip (str_of tag) in if is_blank candidate then tags else candidate ∷ tags

  unfoldable pub clean_tags : List Value → List String
  clean_tags [] = []
  clean_tags (tag ∷ tags) = add_tag tag (clean_tags tags)

  unfoldable pub normalize_tags : Value → String → Result FacadeKeyError (List String)
  normalize_tags value key_id =
      if is_absent value
      then ok []
      else (do tags ← or_raise (list_of value) (tags_not_a_list key_id); ok (clean_tags tags))

  abbrev pub default_quota : FacadeQuotaPolicy
  default_quota = record {
    daily_requests_soft = none;
    daily_tokens_soft = none;
    action = "observe";
    warn_threshold = four_fifths;
  }

  abbrev pub or_observe : String → String
  or_observe action = if str_eq action "" then "observe" else action

  abbrev pub supported_actions : List String
  supported_actions = "observe" ∷ "warn" ∷ "reject" ∷ []

  unfoldable pub normalize_quota_policy : Value → String → Result FacadeKeyError FacadeQuotaPolicy
  normalize_quota_policy value key_id = if is_absent value then ok default_quota else (do
    quota ← or_raise (mapping_of value) (quota_not_a_mapping key_id)
    let action = or_observe (lower (strip (str_of (or_else (get "action" quota) (text "observe")))))
    guard (any (str_eq action) supported_actions) (unsupported_action key_id)
    requests ←
        coerce_positive_int (value_of "daily_requests_soft" quota) "daily_requests_soft" key_id
    tokens ← coerce_positive_int (value_of "daily_tokens_soft" quota) "daily_tokens_soft" key_id
    warn_threshold ← coerce_warn_threshold (value_of "warn_threshold" quota) key_id
    ok (record {
      daily_requests_soft = requests;
      daily_tokens_soft = tokens;
      action = action;
      warn_threshold = warn_threshold;
    }))

  abbrev pub true_words : List String
  true_words = "true" ∷ "1" ∷ "yes" ∷ "on" ∷ []

  abbrev pub false_words : List String
  false_words = "false" ∷ "0" ∷ "no" ∷ "off" ∷ []

  -- A blank text counts as absent, and is enabled; a text of white space only is no Boolean.
  unfoldable pub coerce_enabled : Value → String → Result FacadeKeyError Bool
  coerce_enabled null key_id = ok true
  coerce_enabled (bool b) key_id = ok b
  coerce_enabled (int n) key_id =
      if n == 0 then ok false else if n == 1 then ok true else err (enabled_not_a_boolean key_id)
  coerce_enabled (text s) key_id =
      let normalized = lower (strip s) in
      if str_eq s ""
      then ok true
      else if any (str_eq normalized) true_words
      then ok true
      else if any (str_eq normalized) false_words
      then ok false
      else err (enabled_not_a_boolean key_id)
  coerce_enabled (negative _) key_id = err (enabled_not_a_boolean key_id)
  coerce_enabled (array _) key_id = err (enabled_not_a_boolean key_id)
  coerce_enabled (mapping _) key_id = err (enabled_not_a_boolean key_id)
  coerce_enabled other key_id = err (enabled_not_a_boolean key_id)

  abbrev pub stripped_text : Value → Option String
  stripped_text value = if is_absent value then none else some (strip (str_of value))

  abbrev pub parsed_limit :
      String
      → Result ConfigError RequestRateLimitPolicy
      → Result FacadeKeyError (Option RequestRateLimitPolicy)
  parsed_limit key_id (err e) = err (bad_rate_limit key_id e)
  parsed_limit key_id (ok policy) = ok (some policy)

  unfoldable pub normalize_rate_limit :
      Value → String → Result FacadeKeyError (Option RequestRateLimitPolicy)
  normalize_rate_limit value key_id =
      if is_absent value
      then ok none
      else parsed_limit key_id (
          parse_request_rate_limit_policy value
            (String.◌++◌ "facade_keys." (String.◌++◌ key_id ".rate_limit")) none)

  abbrev pub or_empty : Value → Value
  or_empty value = if is_absent value then mapping end else value

  unfoldable pub normalize_facade_key_config :
      String → Value → Result FacadeKeyError FacadeKeyConfig
  normalize_facade_key_config key_id raw_config = do
    config ← or_raise (mapping_of (or_empty raw_config)) (config_not_a_mapping key_id)
    enabled ← coerce_enabled (or_else (get "enabled" config) (bool true)) key_id
    tags ← normalize_tags (value_of "tags" config) key_id
    quota ← normalize_quota_policy (value_of "quota" config) key_id
    rate_limit ← normalize_rate_limit (value_of "rate_limit" config) key_id
    ok (record {
      key_id = key_id;
      enabled = enabled;
      display_name = stripped_text (value_of "display_name" config);
      tags = tags;
      default_class = stripped_text (value_of "default_class" config);
      quota = quota;
      rate_limit = rate_limit;
    })
