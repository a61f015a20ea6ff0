-- ===== src/RateLimit/Tests.antt =====
-- Runs of the request rate limiter on concrete inputs, over sorted sets kept as lists of scores.
use smol_router.Prelude.{
  ℕ, ◌⊎◌, In, ◌*◌, ◌+◌, ◌≤◌, ◌<◌, String, ◌≡◌, refl, ◌≢◌, ◌↔◌, true, false, none, some, List, [],
  ◌∷◌, arith, leb, filter, count, get_elem?, get, All, All-map_imp, Bool-cases, inl, inr, ok, err,
}
use smol_router.Value.{Value, mapping, end, field}
use smol_router.RateLimit.Policy.{
  RateLimitWindow, RequestRateLimitPolicy, RequestRateLimitConfig,
  default_request_rate_limit_policy, parse_request_rate_limit_policy,
  parse_request_rate_limit_config, policy_to_dict, window_to_dict, parse_present_policy,
  parse_windows, parse_request_rate_limit_window, require_mapping, reject_unknown_keys,
  positive_int, as_list, two_items, parse_section, parse_enabled,
}
use smol_router.RateLimit.Policy.Laws.{IsValid, parse_policy-IsValid, parse_policy-to_dict}
use smol_router.RateLimit.Window.{cutoff, after_cutoff, inside, IsAscending, insert_score}
use smol_router.RateLimit.Script.{SortedSets, Limits, check_script, retry_step, raise_retry}
use smol_router.RateLimit.Retry.{filter-IsAscending, retry_after_exact}
use smol_router.RateLimit.Admission.{Run, start, check, within, run_window_bound, check-history}
use smol_router.RateLimit.Limiter.{
  RateLimitDecision, retry_after_seconds, backend_failed, canonical, key_text,
  request_rate_limit_bucket_key, Limiter, replied, reply_lost, Environment, check_key,
}
use smol_router.RateLimit.Limiter.Laws.{
  Full, retry_after_seconds_least, check_key_decides, check_key_backend_error,
}
use smol_router.RateLimit.Limiter.Keys.{bucket_key_inj, bucket_key_classes}

All-insert_score :
    (u s : ℕ) (l : List ℕ) → u ≤ s → All (λ t. u ≤ t) l → All (λ t. u ≤ t) (insert_score s l)
unfolding insert_score
All-insert_score u s [] h a = (h, tt)
All-insert_score u s (t ∷ l) h a = elim (Bool-cases (leb t s)) [
  | inl before ↦ rw before (a.0, All-insert_score u s l h a.1)
  | inr behind ↦ rw behind (h, a)
]

insert_score-IsAscending : (s : ℕ) (l : List ℕ) → IsAscending l → IsAscending (insert_score s l)
unfolding insert_score
insert_score-IsAscending s [] a = (tt, tt)
insert_score-IsAscending s (t ∷ l) a = elim (Bool-cases (leb t s)) [
  | inl before ↦
      rw before (All-insert_score t s l (ground arith) a.0, insert_score-IsAscending s l a.1)
  | inr behind ↦
      let less : s ≤ t = ground arith in
      rw behind ((less, All-map_imp (λ u. t ≤ u) (λ u. s ≤ u) l (λ u h. omega arith) a.0), a)
]

-- A sorted set as its ascending scores.
abbrev lists : SortedSets
lists = record {
  Bucket = (l : List ℕ) × IsAscending l;
  empty = ([], tt);
  scores = λ b. b.0;
  Holds = λ b member. ⊥;
  zcount = λ b c. count (after_cutoff c) b.0;
  zrange = λ b c rank. get_elem? (filter (after_cutoff c) b.0) rank;
  zremrange = λ b c. (filter (after_cutoff c) b.0, filter-IsAscending (after_cutoff c) b.0 b.1);
  zadd = λ b score member. (insert_score score b.0, insert_score-IsAscending score b.0 b.1);
  pexpire = λ b ttl. b;
  scores-empty = refl;
  scores_ascend = λ b. b.1;
  zcount_lem = λ b c. refl;
  zrange_lem = λ b c rank. refl;
  scores-zremrange = λ b c. refl;
  holds-zremrange = λ b c member h. h;
  scores-zadd = λ b score member h. refl;
  scores-pexpire = λ b ttl positive. refl;
}

abbrev one_a_second : Limits
one_a_second = record {
  short_limit = 1;
  short_window_ms = 1000;
  long_limit = 3;
  long_window_ms = 10000;
}

abbrev used : (l : List ℕ) × IsAscending l
used = (5000 ∷ [], (tt, tt))

used-refused : (check_script lists one_a_second 5400 "b" used).1.admitted ≡ false
unfolding check_script retry_step raise_retry cutoff after_cutoff
used-refused = refl

retry_after_exact_example :
    ((check_script lists one_a_second 6000 "c"
        (check_script lists one_a_second 5400 "b" used).0).1.admitted
      ≡ true)
    ↔ (5400 + (check_script lists one_a_second 5400 "b" used).1.retry_after_ms ≤ 6000)
retry_after_exact_example =
    retry_after_exact lists one_a_second 5400 6000 "b" "c" used (omega arith) (omega arith)
      (omega arith) used-refused

used-delay : (check_script lists one_a_second 5400 "b" used).1.retry_after_ms ≡ 600
unfolding check_script retry_step raise_retry cutoff after_cutoff
used-delay = refl

abbrev one_admitted : List ℕ
one_admitted = 100 ∷ []

abbrev after_one : (l : List ℕ) × IsAscending l
after_one = (check_script lists one_a_second 100 "a" ([], tt)).0

run_of_one : Run lists one_a_second 100 one_admitted after_one
unfolding check_script cutoff after_cutoff
run_of_one = check {t = 0} {h = []} {b = ([], tt)} 100 "a" start (omega arith) (λ held. held)

run_window_bound_example :
    (count (within 900 1000) one_admitted ≤ 1) × (count (within 900 10000) one_admitted ≤ 3)
run_window_bound_example =
    run_window_bound lists one_a_second (omega arith) {h = one_admitted} 100 900 after_one
      run_of_one

check-history_example :
    ((check_script lists one_a_second 900 "b" after_one).1.admitted ≡ true)
    ↔ ((count (inside 900 1000) one_admitted < 1) × (count (inside 900 10000) one_admitted < 3))
check-history_example =
    check-history lists one_a_second (omega arith) {h = one_admitted} 100 900 "b" after_one
      run_of_one (omega arith)

abbrev p : RequestRateLimitPolicy
p = record {
  short = record { requests = 2; seconds = 1 };
  long = record { requests = 9; seconds = 60 };
}

p-IsValid : IsValid p
p-IsValid = record {
  short_requests = omega arith;
  short_seconds = omega arith;
  ascending = omega arith;
  monotonic = omega arith;
}

p-parses : parse_request_rate_limit_policy (policy_to_dict p) "limits" none ≡ ok p
unfolding parse_request_rate_limit_policy policy_to_dict window_to_dict parse_present_policy
    parse_windows parse_request_rate_limit_window require_mapping reject_unknown_keys positive_int
    as_list two_items get
p-parses = refl

parse_policy-IsValid_example : IsValid p
parse_policy-IsValid_example =
    parse_policy-IsValid (policy_to_dict p) "limits" none p (λ d h. cc) p-parses

parse_policy-to_dict_example :
    parse_request_rate_limit_policy (policy_to_dict p) "limits" none ≡ ok p
parse_policy-to_dict_example = parse_policy-to_dict p "limits" none p-IsValid

abbrev configured : RequestRateLimitConfig
configured = record {
  enabled = true;
  anonymous = p;
  project_default = default_request_rate_limit_policy;
}

abbrev raw_config : Value
unfolding policy_to_dict window_to_dict
raw_config = mapping (field "anonymous" (policy_to_dict p) end)

config-parses : parse_request_rate_limit_config raw_config ≡ ok configured
unfolding parse_request_rate_limit_config parse_enabled parse_section
    parse_request_rate_limit_policy policy_to_dict window_to_dict parse_present_policy parse_windows
    parse_request_rate_limit_window require_mapping reject_unknown_keys positive_int as_list
    two_items get
config-parses = refl

abbrev refusal : RateLimitDecision
refusal = record {
  allowed = false;
  retry_after_ms = 1400;
  violated_windows = p.short ∷ [];
  counts = (2, 2);
  bucket_class = "project";
  policy = p;
}

retry_after_seconds_least_example : (retry_after_seconds refusal ≤ 2) ↔ ((0 < 2) × (1400 ≤ 2000))
retry_after_seconds_least_example = retry_after_seconds_least refusal 2 refl

abbrev fresh : Limiter lists
fresh = record { buckets = λ key. ([], tt); stats = []; backend_error_count = 0 }

abbrev up : Environment lists
up = record { now_ms = 100; member = "a"; eval = replied; stats_fail = false }

abbrev lost : Environment lists
lost = record { now_ms = 100; member = "a"; eval = reply_lost; stats_fail = false }

check_key_decides_example :
    (d : RateLimitDecision) × ((check_key lists up "project" p "k" fresh).0 ≡ ok d)
    × ((d.allowed ≡ true)
        ↔ ((¬ Full lists 100 p.short ([], tt)) × (¬ Full lists 100 p.long ([], tt))))
    × ((w : RateLimitWindow)
        → In w d.violated_windows ↔ (
            ((w ≡ p.short) × Full lists 100 p.short ([], tt))
            ⊎ ((w ≡ p.long) × Full lists 100 p.long ([], tt))))
    × (d.allowed ≡ false → (check_key lists up "project" p "k" fresh).1.buckets "k" ≡ ([], tt))
    × ((k : String) → k ≢ "k" → (check_key lists up "project" p "k" fresh).1.buckets k ≡ ([], tt))
check_key_decides_example = check_key_decides lists up "project" p "k" fresh refl

lost-NotReplied : reply_lost ≢ replied
lost-NotReplied e = cc

check_key_backend_error_example :
    ((check_key lists lost "project" p "k" fresh).0 ≡ err backend_failed)
    × ((check_key lists lost "project" p "k" fresh).1.backend_error_count ≡ 1)
    × ((check_key lists lost "project" p "k" fresh).1.stats ≡ [])
    × ((k : String) → k ≢ "k" → (check_key lists lost "project" p "k" fresh).1.buckets k ≡ ([], tt))
    × ((u window : ℕ)
        → 100 ≤ u
        → window ≤ p.long.seconds * 1000
        → count
            (inside u window)
            (lists.scores ((check_key lists lost "project" p "k" fresh).1.buckets "k"))
          ≤ count (inside u window) [] + 1)
check_key_backend_error_example =
    check_key_backend_error lists lost "project" p "k" fresh lost-NotReplied (λ held. held)

abbrev project_key : String
unfolding key_text canonical
project_key = key_text "project" (canonical "key" "a")

key_of_a : request_rate_limit_bucket_key (λ s. s) "project" (some "key") (some "a") ≡ ok project_key
unfolding request_rate_limit_bucket_key key_text canonical
key_of_a = refl

abbrev kind : String
kind = "key"

abbrev subject : String
subject = "a"

bucket_key_inj_example : (kind ≡ kind) × (subject ≡ subject)
bucket_key_inj_example =
    bucket_key_inj (λ s. s) (λ a b e. e) kind kind subject subject project_key
      (omega arith, (omega arith, (omega arith, tt)))
      (omega arith, (omega arith, (omega arith, tt))) key_of_a key_of_a

abbrev anonymous_key : String
unfolding key_text
anonymous_key = key_text "anonymous" "anonymous:global"

key_of_nobody : request_rate_limit_bucket_key (λ s. s) "anonymous" none none ≡ ok anonymous_key
unfolding request_rate_limit_bucket_key key_text
key_of_nobody = refl

bucket_key_classes_example :
    request_rate_limit_bucket_key (λ s. s) "project" (some "key") (some "a") ≢ ok anonymous_key
bucket_key_classes_example =
    bucket_key_classes (λ s. s) none none "key" "a" anonymous_key key_of_nobody
