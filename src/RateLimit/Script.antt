-- ===== src/RateLimit/Script.antt =====
-- smolrouter/request_rate_limits.py: the Lua script `_CHECK_RATE_LIMIT_LUA`. Redis runs it
-- atomically, so one check is one function on the bucket's sorted set.
use smol_router.Prelude.{
  ℕ, ◌+◌, ◌-◌, ◌<◌, String, ◌≡◌, Bool, true, false, ◌||◌, Option, none, some, List, [], leb, max,
  if◌then◌else◌, get_elem?, filter, count,
}
use smol_router.RateLimit.Window.{Cutoff, cutoff, after_cutoff, IsAscending, insert_score}

-- Redis' sorted sets, as far as the script uses them: a set lists its scores in ascending order,
-- and each command reads or changes that list as the Redis reference documents it.
pub record SortedSets : Type 1 where
  pub Bucket : Type 0
  pub empty : Bucket
  pub scores : Bucket → List ℕ
  -- the member is in the set
  pub Holds : Bucket → String → Type 0
  -- `ZCOUNT key (cutoff +inf`
  pub zcount : Bucket → Cutoff → ℕ
  -- `ZRANGEBYSCORE key (cutoff +inf WITHSCORES LIMIT rank 1`, the score of the event
  pub zrange : Bucket → Cutoff → ℕ → Option ℕ
  -- `ZREMRANGEBYSCORE key -inf cutoff`
  pub zremrange : Bucket → Cutoff → Bucket
  -- `ZADD key score member`
  pub zadd : Bucket → ℕ → String → Bucket
  -- `PEXPIRE key milliseconds`
  pub pexpire : Bucket → ℕ → Bucket
  pub scores-empty : scores empty ≡ []
  pub scores_ascend : (b : Bucket) → IsAscending (scores b)
  pub zcount_lem : (b : Bucket) (c : Cutoff) → zcount b c ≡ count (after_cutoff c) (scores b)
  pub zrange_lem :
      (b : Bucket) (c : Cutoff) (rank : ℕ)
      → zrange b c rank ≡ get_elem? (filter (after_cutoff c) (scores b)) rank
  pub scores-zremrange :
      (b : Bucket) (c : Cutoff) → scores (zremrange b c) ≡ filter (after_cutoff c) (scores b)
  pub holds-zremrange :
      (b : Bucket) (c : Cutoff) (member : String)
      → ¬ Holds b member
      → ¬ Holds (zremrange b c) member
  pub scores-zadd :
      (b : Bucket) (score : ℕ) (member : String)
      → ¬ Holds b member
      → scores (zadd b score member) ≡ insert_score score (scores b)
  -- a time of 0 would delete the key
  pub scores-pexpire : (b : Bucket) (ttl : ℕ) → 0 < ttl → scores (pexpire b ttl) ≡ scores b

-- `ARGV[2]` to `ARGV[5]`
pub record Limits : Type 0 where
  pub short_limit : ℕ
  pub short_window_ms : ℕ
  pub long_limit : ℕ
  pub long_window_ms : ℕ

-- The array that the script returns.
pub record Reply : Type 0 where
  pub admitted : Bool
  pub retry_after_ms : ℕ
  pub short_count : ℕ
  pub long_count : ℕ
  pub short_violated : Bool
  pub long_violated : Bool

-- `if score then retry_after_ms = math.max(retry_after_ms, score + window_ms - now_ms)`. The score
-- is behind the cutoff `now_ms - window_ms`, so the difference is positive.
unfoldable pub raise_retry : ℕ → Option ℕ → ℕ → ℕ → ℕ
raise_retry retry none window now = retry
raise_retry retry (some score) window now = max retry (score + window - now)

module _ (Z : SortedSets) where
  open Z use {Bucket, zcount, zrange, zremrange, zadd, pexpire}

  -- One of the two blocks `if short_violated then ... end`, `if long_violated then ... end`.
  unfoldable pub retry_step : Bucket → ℕ → ℕ → ℕ → ℕ → ℕ
  retry_step bucket now window limit retry =
      let n = zcount bucket (cutoff now window) in
      if leb limit n
      then raise_retry retry (zrange bucket (cutoff now window) (n - limit)) window now
      else retry

  unfoldable pub check_script : Limits → ℕ → String → Bucket → Bucket × Reply
  check_script l now_ms member bucket =
      let short_count = zcount bucket (cutoff now_ms l.short_window_ms) in
      let long_count = zcount bucket (cutoff now_ms l.long_window_ms) in
      let short_violated = leb l.short_limit short_count in
      let long_violated = leb l.long_limit long_count in
      let retry_after_ms =
        retry_step bucket now_ms l.long_window_ms l.long_limit
          (retry_step bucket now_ms l.short_window_ms l.short_limit 0) in
      if short_violated || long_violated
      then (
        bucket,
        record {
          admitted = false;
          retry_after_ms = retry_after_ms;
          short_count = short_count;
          long_count = long_count;
          short_violated = short_violated;
          long_violated = long_violated;
        },
      )
      else (
        pexpire (zadd (zremrange bucket (cutoff now_ms l.long_window_ms)) now_ms member)
            (l.long_window_ms + 1000),
        record {
          admitted = true;
          retry_after_ms = 0;
          short_count = short_count + 1;
          long_count = long_count + 1;
          short_violated = false;
          long_violated = false;
        },
      )
