-- ===== src/RateLimit/Admission.antt =====
-- What the limiter promises over a whole run: no rolling window, wherever it ends, ever holds more
-- admitted requests than its limit, although the bucket forgets old events and is all that the
-- script reads.
use smol_router.Prelude.{
  ℕ, ◌+◌, ◌≤◌, ◌<◌, String, ◌≡◌, refl, ◌↔◌, Bool, true, false, ◌&&◌, List, [], ◌∷◌, arith, leb,
  if◌then◌else◌, count, All,
}
use mathlib.Core.Path.{fun_ext}
use smol_router.RateLimit.Window.{
  cutoff, inside, after_cutoff-inside, count-insert_score, count-inside-filter,
}
use smol_router.RateLimit.Script.{SortedSets, Limits, check_script}
use smol_router.RateLimit.Retry.{zcount-inside}

-- The admitted requests of a window ending at `t`, both ends as the script takes them.
abbrev pub within : ℕ → ℕ → ℕ → Bool
within t window score = leb score t && inside t window score

-- Newest first, each admission found fewer than `limit` others in its window.
abbrev pub Admissible : ℕ → ℕ → List ℕ → Type 0
Admissible window limit [] = Unit
Admissible window limit (s ∷ h) = (count (inside s window) h < limit) × Admissible window limit h

count-within-le :
    (t v window : ℕ) (h : List ℕ) → v ≤ t → count (within t window) h ≤ count (inside v window) h
count-within-le t v window [] le = omega arith
count-within-le t v window (s ∷ h) le = ground (arith, count-within-le t v window h le)

pub Admissible-bound :
    (window limit t : ℕ) (h : List ℕ)
    → Admissible window limit h
    → count (within t window) h ≤ limit
Admissible-bound window limit t [] a = omega arith
Admissible-bound window limit t (s ∷ h) a =
    ground (arith, count-within-le t s window h, Admissible-bound window limit t h a.1)

module _ (Z : SortedSets) (l : Limits) where
  open Z use {
    Bucket, empty, scores, Holds, zcount, zremrange, zadd, pexpire, scores-empty, scores-zremrange,
    holds-zremrange, scores-zadd, scores-pexpire,
  }

  abbrev record_admission : Bool → ℕ → List ℕ → List ℕ
  record_admission true now h = now ∷ h
  record_admission false now h = h

  -- Checks of one bucket in the order that Redis runs them: its clock does not run backwards and
  -- the members are fresh. The list holds the times of the admitted ones, newest first.
  pub data Run : ℕ → List ℕ → Bucket → Type 0 where
    start : Run 0 [] empty
    check :
        {t : ℕ} {h : List ℕ} {b : Bucket} (now : ℕ) (member : String)
        → Run t h b
        → t ≤ now
        → ¬ Holds b member
        → Run now
            (record_admission (check_script Z l now member b).1.admitted now h)
            (check_script Z l now member b).0
    -- Redis drops the key when the time that `PEXPIRE` gave it is over.
    expire :
        {t : ℕ} {h : List ℕ} {b : Bucket} (now : ℕ)
        → Run t h b
        → t ≤ now
        → All (λ s. s + (l.long_window_ms + 1000) ≤ now) h
        → Run now h empty

  record Tracks (t : ℕ) (h : List ℕ) (b : Bucket) : Type 0 where
    agrees :
        (u window : ℕ)
        → t ≤ u
        → window ≤ l.long_window_ms
        → count (inside u window) (scores b) ≡ count (inside u window) h
    short : Admissible l.short_window_ms l.short_limit h
    long : Admissible l.long_window_ms l.long_limit h

  pub stored :
      (now member_ttl u window : ℕ) (member : String) (b : Bucket)
      → 0 < member_ttl
      → ¬ Holds b member
      → now ≤ u
      → window ≤ l.long_window_ms
      → count (inside u window) (
          scores (pexpire (zadd (zremrange b (cutoff now l.long_window_ms)) now member) member_ttl))
        ≡ (if inside u window now then 1 else 0) + count (inside u window) (scores b)
  stored now ttl u window member b positive fresh le narrow = rw (
    scores-pexpire _ ttl positive,
    scores-zadd _ now member (holds-zremrange b (cutoff now l.long_window_ms) member fresh),
    count-insert_score,
    scores-zremrange,
    fun_ext (λ s. after_cutoff-inside now l.long_window_ms s),
    count-inside-filter window l.long_window_ms now u (scores b) narrow le,
  )

  Tracks-start : Tracks 0 [] empty
  Tracks-start = record { agrees = λ u window le narrow. rw scores-empty; short = tt; long = tt }

  Tracks-check :
      {t : ℕ} {h : List ℕ} {b : Bucket} (now : ℕ) (member : String)
      → l.short_window_ms ≤ l.long_window_ms
      → Tracks t h b
      → t ≤ now
      → ¬ Holds b member
      → Tracks now
          (record_admission (check_script Z l now member b).1.admitted now h)
          (check_script Z l now member b).0
  unfolding check_script
  Tracks-check {h} {b} now member narrow k le fresh = record {
    agrees = λ u window later inner.
        let before = k.agrees u window (omega arith) inner in
        ground (
          arith,
          stored now (l.long_window_ms + 1000) u window member b (omega arith) fresh later inner,
        );
    short =
        let here = k.agrees now l.short_window_ms le narrow in
        ground (arith, zcount-inside Z b now l.short_window_ms);
    long =
        let here = k.agrees now l.long_window_ms le (omega arith) in
        ground (arith, zcount-inside Z b now l.long_window_ms);
  }

  count-inside_old :
      (u window now : ℕ) (h : List ℕ)
      → window ≤ l.long_window_ms
      → now ≤ u
      → All (λ s. s + (l.long_window_ms + 1000) ≤ now) h
      → count (inside u window) h ≡ 0
  count-inside_old u window now [] narrow le old = refl
  count-inside_old u window now (s ∷ h) narrow le old =
      ground (arith, count-inside_old u window now h narrow le old.1)

  Tracks-expire :
      {t : ℕ} {h : List ℕ} {b : Bucket} (now : ℕ)
      → Tracks t h b
      → All (λ s. s + (l.long_window_ms + 1000) ≤ now) h
      → Tracks now h empty
  Tracks-expire {h} now k old = record {
    agrees =
        λ u window later inner. rw (scores-empty, count-inside_old u window now h inner later old);
    short = k.short;
    long = k.long;
  }

  module _ (narrow : l.short_window_ms ≤ l.long_window_ms) where
    Run-Tracks : {t : ℕ} {h : List ℕ} {b : Bucket} → Run t h b → Tracks t h b
    Run-Tracks start = Tracks-start
    Run-Tracks (check now member r le fresh) =
        Tracks-check now member narrow (Run-Tracks r) le fresh
    Run-Tracks (expire now r le old) = Tracks-expire now (Run-Tracks r) old

    -- After any run of checks and expiries, the admitted requests of either window, wherever it
    -- ends, are at most as many as its limit. The short window is no longer than the long one.
    pub run_window_bound :
        {h : List ℕ} (t u : ℕ) (b : Bucket)
        → Run t h b
        → (count (within u l.short_window_ms) h ≤ l.short_limit)
          × (count (within u l.long_window_ms) h ≤ l.long_limit)
    run_window_bound {h} t u b r =
        let k = Run-Tracks r in
        (
          Admissible-bound l.short_window_ms l.short_limit u h k.short,
          Admissible-bound l.long_window_ms l.long_limit u h k.long,
        )

    -- The script decides by the bucket, which forgets; its answer is the one that the whole history
    -- of admitted requests gives: a request is admitted exactly when both windows ending now hold
    -- fewer of them than their limits. The short window is no longer than the long one.
    pub check-history :
        {h : List ℕ} (t now : ℕ) (member : String) (b : Bucket)
        → Run t h b
        → t ≤ now
        → ((check_script Z l now member b).1.admitted ≡ true) ↔ (
            (count (inside now l.short_window_ms) h < l.short_limit)
            × (count (inside now l.long_window_ms) h < l.long_limit))
    unfolding check_script
    check-history t now member b r le =
        let k = Run-Tracks r in
        let short = k.agrees now l.short_window_ms le narrow in
        let long = k.agrees now l.long_window_ms le (omega arith) in
        ground
          (arith, zcount-inside Z b now l.short_window_ms, zcount-inside Z b now l.long_window_ms)
