-- ===== src/RateLimit/Policy/Laws.antt =====
-- What the parser of rate-limit policies accepts, and its round trip with `to_dict`.
use smol_router.Prelude.{
  ℕ, zero, suc, ◌≤◌, ◌<◌, String, ◌≡◌, refl, Option, none, some, arith, lt→ltb, le→leb, get, ok,
  >>=-eq-ok,
}
use smol_router.Value.{Value}
use Prim.Native.String
use smol_router.RateLimit.Policy.{
  RateLimitWindow, RequestRateLimitPolicy, RequestRateLimitConfig,
  default_request_rate_limit_policy, require_mapping, reject_unknown_keys, positive_int,
  parse_request_rate_limit_window, as_list, two_items, parse_windows, parse_present_policy,
  parse_request_rate_limit_policy, parse_section, parse_request_rate_limit_config, window_to_dict,
  policy_to_dict,
}

pub record IsValid (p : RequestRateLimitPolicy) : Type 0 where
  pub short_requests : 0 < p.short.requests
  pub short_seconds : 0 < p.short.seconds
  pub ascending : p.short.seconds < p.long.seconds
  pub monotonic : p.short.requests ≤ p.long.requests

positive_int_round : (n : ℕ) → 0 < n → positive_int (some (Value.int n)) ≡ some n
unfolding positive_int
positive_int_round zero h = absurd (omega arith)
positive_int_round (suc n) h = refl

positive_int_pos : (v : Option Value) (n : ℕ) → positive_int v ≡ some n → 0 < n
unfolding positive_int
positive_int_pos (some (Value.int (suc m))) n h = ground arith
positive_int_pos (some (Value.int zero)) n h = cc
positive_int_pos v n h = cc

parse_window-to_dict :
    (w : RateLimitWindow) (name : String)
    → 0 < w.requests
    → 0 < w.seconds
    → parse_request_rate_limit_window (window_to_dict w) name ≡ ok w
unfolding parse_request_rate_limit_window window_to_dict get require_mapping reject_unknown_keys
parse_window-to_dict w name h k =
    ground (arith, positive_int_round w.requests h, positive_int_round w.seconds k)

parse_window_pos :
    (raw : Value) (name : String) (w : RateLimitWindow)
    → parse_request_rate_limit_window raw name ≡ ok w
    → (0 < w.requests) × (0 < w.seconds)
unfolding parse_request_rate_limit_window
parse_window_pos raw name w e =
    let (window, read, rest) = >>=-eq-ok (require_mapping raw name) _ e in
    ground (
      arith,
      positive_int_pos (get "requests" window) w.requests,
      positive_int_pos (get "seconds" window) w.seconds,
    )

parse_windows-to_dict :
    (p : RequestRateLimitPolicy) (name : String)
    → IsValid p
    → parse_windows (window_to_dict p.short) (window_to_dict p.long) name ≡ ok p
unfolding parse_windows
parse_windows-to_dict p name v = rw (
  parse_window-to_dict p.short (String.◌++◌ name ".windows[0]") v.short_requests v.short_seconds,
  parse_window-to_dict p.long (String.◌++◌ name ".windows[1]") (omega arith) (omega arith),
  lt→ltb p.short.seconds p.long.seconds v.ascending,
  le→leb p.short.requests p.long.requests v.monotonic,
)

parse_windows-IsValid :
    (first second : Value) (name : String) (p : RequestRateLimitPolicy)
    → parse_windows first second name ≡ ok p
    → IsValid p
unfolding parse_windows
parse_windows-IsValid first second name p e = ground (
  arith,
  parse_window_pos first (String.◌++◌ name ".windows[0]") p.short,
  parse_window_pos second (String.◌++◌ name ".windows[1]") p.long,
)

parse_present_policy-IsValid :
    (raw : Value) (name : String) (p : RequestRateLimitPolicy)
    → parse_present_policy raw name ≡ ok p
    → IsValid p
unfolding parse_present_policy
parse_present_policy-IsValid raw name p e = grind (arith, parse_windows-IsValid)

default-IsValid : IsValid default_request_rate_limit_policy
default-IsValid = omega arith

-- A parsed policy is valid: both windows are positive, the durations ascend strictly and the
-- capacities do not descend, whatever the raw value and whatever valid default stands in.
pub parse_policy-IsValid :
    (raw : Value) (name : String) (default : Option RequestRateLimitPolicy)
    (p : RequestRateLimitPolicy)
    → ((d : RequestRateLimitPolicy) → default ≡ some d → IsValid d)
    → parse_request_rate_limit_policy raw name default ≡ ok p
    → IsValid p
unfolding parse_request_rate_limit_policy
parse_policy-IsValid Value.null name none p v e = cc
parse_policy-IsValid Value.null name (some d) p v e = v p (ground arith)
parse_policy-IsValid raw name default p v e = parse_present_policy-IsValid raw name p e

-- Every valid policy survives `to_dict` and the parser, under every field name and default.
pub parse_policy-to_dict :
    (p : RequestRateLimitPolicy) (name : String) (default : Option RequestRateLimitPolicy)
    → IsValid p
    → parse_request_rate_limit_policy (policy_to_dict p) name default ≡ ok p
unfolding parse_request_rate_limit_policy parse_present_policy policy_to_dict get require_mapping
    reject_unknown_keys as_list two_items
parse_policy-to_dict p name default v = parse_windows-to_dict p name v

parse_section-IsValid :
    (raw : Option Value) (name : String) (p : RequestRateLimitPolicy)
    → parse_section raw name ≡ ok p
    → IsValid p
unfolding parse_section
parse_section-IsValid none name p e =
    parse_policy-IsValid Value.null name (some default_request_rate_limit_policy) p
      (λ d h. ground (arith, default-IsValid)) e
parse_section-IsValid (some raw) name p e = parse_policy-IsValid raw name none p (λ d h. cc) e

-- Whatever the raw configuration, what the parser returns holds two valid policies.
pub parse_config-IsValid :
    (raw : Value) (c : RequestRateLimitConfig)
    → parse_request_rate_limit_config raw ≡ ok c
    → IsValid c.anonymous × IsValid c.project_default
unfolding parse_request_rate_limit_config
parse_config-IsValid raw c e = grind (arith, parse_section-IsValid)
