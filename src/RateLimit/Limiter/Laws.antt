-- ===== src/RateLimit/Limiter/Laws.antt =====
-- The limiter's decisions and its handling of failures.
use smol_router.Prelude.{
  ℕ, Bool-cases, eq_iff, refl, ◌+◌, ◌*◌, ◌≤◌, ◌<◌, String, ◌≡◌, ◌↔◌, ◌⊎◌, ◌≢◌, inl, inr, count, In,
  true, false, arith, ok, err,
}
use smol_router.RateLimit.Policy.{RateLimitWindow, RequestRateLimitPolicy}
use smol_router.RateLimit.Window.{inside}
use smol_router.RateLimit.Retry.{zcount-inside}
use smol_router.RateLimit.Admission.{stored}
use smol_router.RateLimit.Script.{SortedSets, Reply, check_script}
use smol_router.RateLimit.Limiter.{
  RateLimitDecision, retry_after_seconds, backend_failed, limits_of, violations, decision_of,
  Limiter, store_bucket, Eval, replied, not_run, reply_lost, Environment, count_outcome, check_key,
}

-- The `Retry-After` value of a refused request is the least positive number of whole seconds that
-- covers the delay in milliseconds.
pub retry_after_seconds_least :
    (d : RateLimitDecision) (n : ℕ)
    → d.allowed ≡ false
    → (retry_after_seconds d ≤ n) ↔ ((0 < n) × (d.retry_after_ms ≤ n * 1000))
unfolding retry_after_seconds
retry_after_seconds_least d n refused = ground arith

Eval-cases : (e : Eval) → (e ≡ replied) ⊎ (e ≡ not_run) ⊎ (e ≡ reply_lost)
Eval-cases replied = inl refl
Eval-cases not_run = inr (inl refl)
Eval-cases reply_lost = inr (inr refl)

buckets-count_outcome :
    (Z : SortedSets) (env : Environment Z) (d : RateLimitDecision) (s : Limiter Z)
    → (count_outcome Z env d s).buckets ≡ s.buckets
unfolding count_outcome
buckets-count_outcome Z env d s = ground arith

-- The window that ends at `now` holds as many requests as it allows.
abbrev pub Full : (Z : SortedSets) → ℕ → RateLimitWindow → Z.Bucket → Type 0
Full Z now w b = w.requests ≤ count (inside now (w.seconds * 1000)) (Z.scores b)

module _ (Z : SortedSets) (p : RequestRateLimitPolicy) (now : ℕ) (member : String)
    (b : Z.Bucket) where
  -- What the script answers, by what the bucket holds.
  script-answer :
      (((check_script Z (limits_of p) now member b).1.short_violated ≡ true) ↔ Full Z now p.short b)
      × (((check_script Z (limits_of p) now member b).1.long_violated ≡ true) ↔ Full Z now p.long b)
      × (((check_script Z (limits_of p) now member b).1.admitted ≡ true)
          ↔ ((¬ Full Z now p.short b) × (¬ Full Z now p.long b)))
      × ((check_script Z (limits_of p) now member b).1.admitted ≡ false
          → (check_script Z (limits_of p) now member b).0 ≡ b)
  unfolding check_script limits_of
  script-answer =
      let short = zcount-inside Z b now (p.short.seconds * 1000) in
      let long = zcount-inside Z b now (p.long.seconds * 1000) in ground arith

  -- The script adds one event at most, to a window that ends now or later.
  script-charge :
      (u window : ℕ)
      → ¬ Z.Holds b member
      → now ≤ u
      → window ≤ p.long.seconds * 1000
      → count (inside u window) (Z.scores (check_script Z (limits_of p) now member b).0)
        ≤ count (inside u window) (Z.scores b) + 1
  unfolding check_script limits_of
  script-charge u window fresh later inner = ground (
    arith,
    stored Z (limits_of p) now (p.long.seconds * 1000 + 1000) u window member b (omega arith) fresh
        later inner,
  )

In-violations :
    (p : RequestRateLimitPolicy) (r : Reply) (w : RateLimitWindow)
    → In w (violations p r)
      ↔ (((w ≡ p.short) × (r.short_violated ≡ true)) ⊎ ((w ≡ p.long) × (r.long_violated ≡ true)))
unfolding violations
In-violations p r w = elim (Bool-cases r.short_violated) [
  | inl short ↦ elim (Bool-cases r.long_violated) [
    | inl long ↦ rw (short, long) (ground arith)
    | inr no_long ↦ rw (short, no_long) (ground arith)
  ]
  | inr no_short ↦ elim (Bool-cases r.long_violated) [
    | inl long ↦ rw (no_short, long) (ground arith)
    | inr no_long ↦ rw (no_short, no_long) (ground arith)
  ]
]

store_other :
    (Z : SortedSets) (key k : String) (b : Z.Bucket) (buckets : String → Z.Bucket)
    → k ≢ key
    → store_bucket Z key b buckets k ≡ buckets k
store_other Z key k b buckets other = ground (arith, eq_iff k key)

store_here :
    (Z : SortedSets) (key : String) (b : Z.Bucket) (buckets : String → Z.Bucket)
    → store_bucket Z key b buckets key ≡ b
store_here Z key b buckets = ground (arith, eq_iff key key)

module _ (Z : SortedSets) (env : Environment Z) (name : String) (p : RequestRateLimitPolicy) where
  -- A check whose reply arrives returns a decision that allows the request exactly when neither
  -- window that ends now is full by the events in the caller's bucket, and that lists exactly the
  -- full windows as violated. A refused request leaves the caller's bucket as it was, and no request
  -- changes the bucket of another key.
  pub check_key_decides :
      (key : String) (s : Limiter Z)
      → env.eval ≡ replied
      → (d : RateLimitDecision) × ((check_key Z env name p key s).0 ≡ ok d)
        × ((d.allowed ≡ true) ↔ (
            (¬ Full Z env.now_ms p.short (s.buckets key))
            × (¬ Full Z env.now_ms p.long (s.buckets key))))
        × ((w : RateLimitWindow)
            → In w d.violated_windows ↔ (
                ((w ≡ p.short) × Full Z env.now_ms p.short (s.buckets key))
                ⊎ ((w ≡ p.long) × Full Z env.now_ms p.long (s.buckets key))))
        × (d.allowed ≡ false → (check_key Z env name p key s).1.buckets key ≡ s.buckets key)
        × ((k : String) → k ≢ key → (check_key Z env name p key s).1.buckets k ≡ s.buckets k)
  unfolding check_key decision_of
  check_key_decides key s arrives =
      let (b, reply) = check_script Z (limits_of p) env.now_ms env.member (s.buckets key) in
      let (short, long, admits, keeps) = script-answer Z p env.now_ms env.member (s.buckets key) in
      (
        decision_of name p reply,
        rw arrives refl,
        admits,
        λ w. (let listed = In-violations p reply w in ground arith),
        λ refused. rw (arrives, buckets-count_outcome, store_here) (keeps refused),
        λ k other. rw (arrives, buckets-count_outcome, store_other Z key k b s.buckets other) refl,
      )

  -- A check that fails at the backend, whether or not Redis has run the script, reports the failure,
  -- counts it, and changes neither the statistics nor the bucket of another key; and with a fresh
  -- member it charges the caller for one request at most, in any part of the long window that ends
  -- now or later.
  pub check_key_backend_error :
      (key : String) (s : Limiter Z)
      → env.eval ≢ replied
      → ¬ Z.Holds (s.buckets key) env.member
      → ((check_key Z env name p key s).0 ≡ err backend_failed)
        × ((check_key Z env name p key s).1.backend_error_count ≡ s.backend_error_count + 1)
        × ((check_key Z env name p key s).1.stats ≡ s.stats)
        × ((k : String) → k ≢ key → (check_key Z env name p key s).1.buckets k ≡ s.buckets k)
        × ((u window : ℕ)
            → env.now_ms ≤ u
            → window ≤ p.long.seconds * 1000
            → count (inside u window) (Z.scores ((check_key Z env name p key s).1.buckets key))
              ≤ count (inside u window) (Z.scores (s.buckets key)) + 1)
  unfolding check_key
  check_key_backend_error key s fails fresh =
      let (b, reply) = check_script Z (limits_of p) env.now_ms env.member (s.buckets key) in
      elim (Eval-cases env.eval) [
        | inl arrives ↦ absurd (fails arrives)
        | inr (inl skipped) ↦
            rw skipped (refl, refl, refl, λ k other. refl, λ u window later inner. omega arith)
        | inr (inr lost) ↦ rw lost (
          refl,
          refl,
          refl,
          λ k other. store_other Z key k b s.buckets other,
          λ u window later inner.
              rw store_here (
                script-charge Z p env.now_ms env.member (s.buckets key) u window fresh later inner),
        )
      ]
