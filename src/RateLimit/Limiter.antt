-- ===== src/RateLimit/Limiter.antt =====
-- smolrouter/request_rate_limits.py: `RedisRequestRateLimiter`, its bucket keys and its decisions.
pub mod Laws
pub mod Keys
use Prim.Native.String
use smol_router.Prelude.{
  ℕ, zero, suc, ◌+◌, ◌*◌, ◌/◌, String, ◌≡◌, Bool, true, false, not, ◌&&◌, ◌||◌, Option, none, some,
  List, [], ◌∷◌, ◌++◌, str_eq, max, if◌then◌else◌, is_some, Dict, get, or_else, put, Result, ok,
  err,
}
use smol_router.RateLimit.Policy.{RateLimitWindow, RequestRateLimitPolicy}
use smol_router.RateLimit.Script.{SortedSets, Limits, Reply, check_script}

pub record RateLimitDecision : Type 0 where
  pub allowed : Bool
  pub retry_after_ms : ℕ
  pub violated_windows : List RateLimitWindow
  pub counts : ℕ × ℕ
  pub bucket_class : String
  pub policy : RequestRateLimitPolicy

-- `math.ceil(ms / 1000)`
abbrev pub ceil_seconds : ℕ → ℕ
ceil_seconds ms = (ms + 999) / 1000

unfoldable pub retry_after_seconds : RateLimitDecision → ℕ
retry_after_seconds d = if d.allowed then 0 else max 1 (ceil_seconds d.retry_after_ms)

pub data CheckError : Type 0 where
  bad_bucket_class anonymous_with_identity no_identity_kind no_identity_subject : CheckError
  backend_failed : CheckError

abbrev pub is_blank : Option String → Bool
is_blank none = true
is_blank (some s) = str_eq s ""

abbrev pub text_of : Option String → String
text_of none = ""
text_of (some s) = s

unfoldable pub canonical : String → String → String
canonical kind subject = String.◌++◌ kind (String.◌++◌ ":" subject)

unfoldable pub key_text : String → String → String
key_text bucket_class digest =
    String.◌++◌ "smolrouter:request-rate-limit:bucket:"
      (String.◌++◌ bucket_class (String.◌++◌ ":" digest))

-- `hashlib.sha256(...).hexdigest()` is the parameter `sha256`.
unfoldable pub request_rate_limit_bucket_key :
    (String → String) → String → Option String → Option String → Result CheckError String
request_rate_limit_bucket_key sha256 bucket_class identity_kind identity_subject_id =
    if str_eq bucket_class "anonymous"
    then (if is_some identity_kind || is_some identity_subject_id
        then err anonymous_with_identity
        else ok (key_text bucket_class (sha256 "anonymous:global")))
    else if str_eq bucket_class "project"
    then (if is_blank identity_kind
        then err no_identity_kind
        else if is_blank identity_subject_id
        then err no_identity_subject
        else ok (
            key_text bucket_class
              (sha256 (canonical (text_of identity_kind) (text_of identity_subject_id)))))
    else err bad_bucket_class

-- The arguments of the script for a policy.
unfoldable pub limits_of : RequestRateLimitPolicy → Limits
limits_of p = record {
  short_limit = p.short.requests;
  short_window_ms = p.short.seconds * 1000;
  long_limit = p.long.requests;
  long_window_ms = p.long.seconds * 1000;
}

-- `zip(policy.windows, result[4:6])`, the windows with a mark
unfoldable pub violations : RequestRateLimitPolicy → Reply → List RateLimitWindow
violations p r =
    (if r.short_violated then p.short ∷ [] else []) ++ (if r.long_violated then p.long ∷ [] else [])

unfoldable pub decision_of : String → RequestRateLimitPolicy → Reply → RateLimitDecision
decision_of bucket_class p r = record {
  allowed = r.admitted;
  retry_after_ms = r.retry_after_ms;
  violated_windows = violations p r;
  counts = (r.short_count, r.long_count);
  bucket_class = bucket_class;
  policy = p;
}

abbrev pub stats_field : Bool → String → String
stats_field true bucket_class = String.◌++◌ "admitted:" bucket_class
stats_field false bucket_class = String.◌++◌ "rejected:" bucket_class

-- `HINCRBY key field 1`
unfoldable pub increment : String → Dict ℕ → Dict ℕ
increment name stats = put name (or_else (get name stats) 0 + 1) stats

-- How the call of the script ends: with its reply, or with an error, of which the client cannot
-- tell whether Redis has run the script.
pub data Eval : Type 0 where
  replied not_run reply_lost : Eval

module _ (Z : SortedSets) where
  open Z use {Bucket}

  -- What Redis holds for the limiter, and the limiter's own counter.
  pub record Limiter : Type 0 where
    pub buckets : String → Bucket
    pub stats : Dict ℕ
    pub backend_error_count : ℕ

  abbrev pub store_bucket : String → Bucket → (String → Bucket) → String → Bucket
  store_bucket key b buckets k = if str_eq k key then b else buckets k

  -- What the environment does to one check: Redis' time, the member that `uuid4` gives, how the call
  -- of the script ends, and whether the statistics fail.
  pub record Environment : Type 0 where
    pub now_ms : ℕ
    pub member : String
    pub eval : Eval
    pub stats_fail : Bool

  -- The statistics are best effort: a failure there changes nothing else.
  unfoldable pub count_outcome : Environment → RateLimitDecision → Limiter → Limiter
  count_outcome env d s =
      if env.stats_fail
      then s
      else record s { stats = increment (stats_field d.allowed d.bucket_class) s.stats }

  -- `except Exception: self._backend_error_count += 1`
  abbrev pub count_error : Limiter → Limiter
  count_error s = record s { backend_error_count = s.backend_error_count + 1 }

  abbrev pub conclude :
      Eval
      → Environment
      → RateLimitDecision
      → Limiter
      → Limiter
      → Result CheckError RateLimitDecision × Limiter
  conclude replied env d before after = (ok d, count_outcome env d after)
  conclude not_run env d before after = (err backend_failed, count_error before)
  conclude reply_lost env d before after = (err backend_failed, count_error after)

  -- `_check` behind the bucket key
  unfoldable pub check_key :
      Environment
      → String
      → RequestRateLimitPolicy
      → String
      → Limiter
      → Result CheckError RateLimitDecision × Limiter
  check_key env bucket_class policy key s =
      let (b, reply) = check_script Z (limits_of policy) env.now_ms env.member (s.buckets key) in
      conclude env.eval env (decision_of bucket_class policy reply) s
        (record s { buckets = store_bucket key b s.buckets })

  abbrev pub with_key :
      Result CheckError String
      → (String → Limiter → Result CheckError RateLimitDecision × Limiter)
      → Limiter
      → Result CheckError RateLimitDecision × Limiter
  with_key (err e) f s = (err e, s)
  with_key (ok key) f s = f key s

  unfoldable pub check :
      (String → String)
      → Environment
      → String
      → RequestRateLimitPolicy
      → Option String
      → Option String
      → Limiter
      → Result CheckError RateLimitDecision × Limiter
  check sha256 env bucket_class policy identity_kind identity_subject_id s =
      with_key (request_rate_limit_bucket_key sha256 bucket_class identity_kind identity_subject_id)
        (check_key env bucket_class policy) s
