-- ===== src/RateLimit/Policy.antt =====
-- smolrouter/request_rate_limits.py: windows, policies, and the strict parser of both.
pub mod Laws
use smol_router.Prelude.{
  ℕ, zero, suc, ◌+◌, ◌≤◌, ◌<◌, String, ◌≡◌, refl, Bool, true, false, not, ◌&&◌, ◌||◌, Option, none,
  some, List, [], ◌∷◌, map, arith, ltb, leb, str_eq, if◌then◌else◌, any, all, Dict, get, has,
  Result, ok, err, ◌>>=◌, ◌>>◌, guard,
}
use Prim.Native.String
use smol_router.Value.{
  Value, null, bool, int, negative, text, array, mapping, other, Values, nil, cons, Fields, end,
  field, items, fields,
}

-- `RequestRateLimitConfigError`, one constructor for each message, with the field it names
pub data ConfigError : Type 0 where
  not_a_mapping unknown_keys missing_keys : String → ConfigError
  requests_not_positive seconds_not_positive : String → ConfigError
  windows_required windows_not_a_list not_two_windows : String → ConfigError
  durations_not_ascending capacities_not_monotonic enabled_not_boolean : String → ConfigError

pub record RateLimitWindow : Type 0 where
  pub requests : ℕ
  pub seconds : ℕ

pub record RequestRateLimitPolicy : Type 0 where
  pub short : RateLimitWindow
  pub long : RateLimitWindow

pub record RequestRateLimitConfig : Type 0 where
  pub enabled : Bool
  pub anonymous : RequestRateLimitPolicy
  pub project_default : RequestRateLimitPolicy

abbrev pub default_request_rate_limit_policy : RequestRateLimitPolicy
default_request_rate_limit_policy = record {
  short = record { requests = 1; seconds = 1 };
  long = record { requests = 3; seconds = 10 };
}

unfoldable pub require_mapping : Value → String → Result ConfigError (Dict Value)
require_mapping (mapping fs) field_name = ok (fields fs)
require_mapping null field_name = err (not_a_mapping field_name)
require_mapping (bool _) field_name = err (not_a_mapping field_name)
require_mapping (int _) field_name = err (not_a_mapping field_name)
require_mapping (negative _) field_name = err (not_a_mapping field_name)
require_mapping (text _) field_name = err (not_a_mapping field_name)
require_mapping (array _) field_name = err (not_a_mapping field_name)
require_mapping other field_name = err (not_a_mapping field_name)

abbrev pub is_one_of : List String → String → Bool
is_one_of allowed key = any (λ a. str_eq key a) allowed

unfoldable pub reject_unknown_keys :
    Dict Value → List String → String → Result ConfigError (Unit {0})
reject_unknown_keys raw allowed field_name =
    guard (all (λ e. is_one_of allowed e.0) raw) (unknown_keys field_name)

abbrev pub config_keys : List String
config_keys = "enabled" ∷ "anonymous" ∷ "project_default" ∷ []

abbrev pub policy_keys : List String
policy_keys = "windows" ∷ []

abbrev pub window_keys : List String
window_keys = "requests" ∷ "seconds" ∷ []

-- `type(v) is int and v > 0`: a `bool` is no `int` here
unfoldable pub positive_int : Option Value → Option ℕ
positive_int none = none
positive_int (some (int zero)) = none
positive_int (some (int (suc n))) = some (suc n)
positive_int (some _) = none

abbrev pub require_some {ℓ} : {A : Type ℓ} → Option A → ConfigError → Result ConfigError A
require_some none e = err e
require_some (some a) e = ok a

unfoldable pub parse_request_rate_limit_window : Value → String → Result ConfigError RateLimitWindow
parse_request_rate_limit_window raw field_name = do
  window ← require_mapping raw field_name
  reject_unknown_keys window window_keys field_name
  guard (has "requests" window && has "seconds" window) (missing_keys field_name)
  requests ← require_some (positive_int (get "requests" window)) (requests_not_positive field_name)
  seconds ← require_some (positive_int (get "seconds" window)) (seconds_not_positive field_name)
  ok (record { requests = requests; seconds = seconds })

unfoldable pub as_list : Value → Option (List Value)
as_list (array vs) = some (items vs)
as_list null = none
as_list (bool _) = none
as_list (int _) = none
as_list (negative _) = none
as_list (text _) = none
as_list (mapping _) = none
as_list other = none

unfoldable pub two_items : List Value → Option (Value × Value)
two_items (a ∷ b ∷ []) = some (a, b)
two_items _ = none

-- The windows of a policy, parsed in order and compared.
unfoldable pub parse_windows : Value → Value → String → Result ConfigError RequestRateLimitPolicy
parse_windows first second field_name = do
  short ← parse_request_rate_limit_window first (String.◌++◌ field_name ".windows[0]")
  long ← parse_request_rate_limit_window second (String.◌++◌ field_name ".windows[1]")
  guard (ltb short.seconds long.seconds) (durations_not_ascending field_name)
  guard (leb short.requests long.requests) (capacities_not_monotonic field_name)
  ok (record { short = short; long = long })

-- The body of `parse_request_rate_limit_policy` behind its test for `None`.
unfoldable pub parse_present_policy : Value → String → Result ConfigError RequestRateLimitPolicy
parse_present_policy raw field_name = do
  policy ← require_mapping raw field_name
  reject_unknown_keys policy policy_keys field_name
  windows_raw ← require_some (get "windows" policy) (windows_required field_name)
  windows ← require_some (as_list windows_raw) (windows_not_a_list field_name)
  (first, second) ← require_some (two_items windows) (not_two_windows field_name)
  parse_windows first second field_name

unfoldable pub parse_request_rate_limit_policy :
    Value → String → Option RequestRateLimitPolicy → Result ConfigError RequestRateLimitPolicy
parse_request_rate_limit_policy null field_name (some default) = ok default
parse_request_rate_limit_policy null field_name none = err (not_a_mapping field_name)
parse_request_rate_limit_policy raw field_name default = parse_present_policy raw field_name

-- `config[key] if key in config else None`, with the default only for a key that is absent
unfoldable pub parse_section : Option Value → String → Result ConfigError RequestRateLimitPolicy
parse_section none field_name =
    parse_request_rate_limit_policy null field_name (some default_request_rate_limit_policy)
parse_section (some raw) field_name = parse_request_rate_limit_policy raw field_name none

abbrev pub or_empty_mapping : Value → Value
or_empty_mapping null = mapping end
or_empty_mapping raw = raw

unfoldable pub parse_enabled : Option Value → Option Bool
parse_enabled none = some true
parse_enabled (some (bool b)) = some b
parse_enabled (some _) = none

unfoldable pub parse_request_rate_limit_config : Value → Result ConfigError RequestRateLimitConfig
parse_request_rate_limit_config raw = do
  config ← require_mapping (or_empty_mapping raw) "request_rate_limits"
  reject_unknown_keys config config_keys "request_rate_limits"
  enabled ←
      require_some (parse_enabled (get "enabled" config))
        (enabled_not_boolean "request_rate_limits.enabled")
  anonymous ← parse_section (get "anonymous" config) "request_rate_limits.anonymous"
  project_default ←
      parse_section (get "project_default" config) "request_rate_limits.project_default"
  ok (record { enabled = enabled; anonymous = anonymous; project_default = project_default })

-- `to_dict`
unfoldable pub window_to_dict : RateLimitWindow → Value
window_to_dict w = mapping (field "requests" (int w.requests) (field "seconds" (int w.seconds) end))

unfoldable pub policy_to_dict : RequestRateLimitPolicy → Value
unfolding window_to_dict
policy_to_dict p =
    mapping (
      field "windows" (array (cons (window_to_dict p.short) (cons (window_to_dict p.long) nil)))
        end)
