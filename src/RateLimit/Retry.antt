-- ===== src/RateLimit/Retry.antt =====
-- The delay that a rejection announces is exact: it is the time after which the same request is
-- admitted, and not a millisecond earlier.
use smol_router.Prelude.{
  ℕ, zero, suc, ◌+◌, ◌-◌, ◌≤◌, ◌<◌, String, ◌≡◌, refl, ◌↔◌, inl, inr, Bool, true, false, some, List,
  [], ◌∷◌, arith, max, length, get_elem?, filter, count, All, All-filter, Bool-cases, length-filter,
  count-le-length,
}
use mathlib.Core.Path.{fun_ext, subst}
use native.Mathlib.Decide.{dec_le, dec_lt}
use smol_router.RateLimit.Window.{
  cutoff, inside, IsAscending, after_cutoff-inside, count-inside_mono, count-inside-filter,
}
use smol_router.RateLimit.Script.{SortedSets, Limits, raise_retry, retry_step, check_script}

All-get_elem? : (P : ℕ → Type 0) (l : List ℕ) (k e : ℕ) → All P l → get_elem? l k ≡ some e → P e
All-get_elem? P [] k e a h = cc
All-get_elem? P (y ∷ l) zero e a h = let same : y ≡ e = ground arith in subst P same a.0
All-get_elem? P (y ∷ l) (suc k) e a h = All-get_elem? P l k e a.1 h

filter-All : (p : ℕ → Bool) (l : List ℕ) → All (λ s. p s ≡ true) (filter p l)
filter-All p [] = tt
filter-All p (x ∷ l) = ground (arith, filter-All p l)

pub filter-IsAscending : (p : ℕ → Bool) (l : List ℕ) → IsAscending l → IsAscending (filter p l)
filter-IsAscending p [] a = tt
filter-IsAscending p (x ∷ l) a = elim (Bool-cases (p x)) [
  | inl kept ↦ rw kept (All-filter (λ t. x ≤ t) p l a.0, filter-IsAscending p l a.1)
  | inr dropped ↦ rw dropped (filter-IsAscending p l a.1)
]

count-All-inside :
    (t w e : ℕ) (l : List ℕ) → All (λ s. e ≤ s) l → t < e + w → count (inside t w) l ≡ length l
count-All-inside t w e [] a h = refl
count-All-inside t w e (s ∷ l) a h = ground (arith, count-All-inside t w e l a.1 h)

-- While the event at `k` is inside, so are all behind it.
length-le-count :
    (t w e : ℕ) (l : List ℕ) (k : ℕ)
    → IsAscending l
    → get_elem? l k ≡ some e
    → t < e + w
    → length l ≤ count (inside t w) l + k
length-le-count t w e [] k a g h = cc
length-le-count t w e (x ∷ l) zero a g h = ground (arith, count-All-inside t w x l a.0)
length-le-count t w e (x ∷ l) (suc k) a g h =
    let ih = length-le-count t w e l k a.1 g h in ground arith

-- Once the event at `k` is outside, so are all before it.
count-lt-length :
    (t w e : ℕ) (l : List ℕ) (k : ℕ)
    → IsAscending l
    → get_elem? l k ≡ some e
    → e + w ≤ t
    → count (inside t w) l + k < length l
count-lt-length t w e [] k a g h = cc
count-lt-length t w e (x ∷ l) zero a g h = ground (arith, count-le-length (inside t w) l)
count-lt-length t w e (x ∷ l) (suc k) a g h =
    let ih = count-lt-length t w e l k a.1 g h in
    let le = All-get_elem? (λ s. x ≤ s) l k e a.0 g in ground arith

get_elem?-total : (l : List ℕ) (k : ℕ) → k < length l → (e : ℕ) × (get_elem? l k ≡ some e)
get_elem?-total [] k h = absurd (omega arith)
get_elem?-total (x ∷ l) zero h = (x, refl)
get_elem?-total (x ∷ l) (suc k) h = get_elem?-total l k (omega arith)

module _ (Z : SortedSets) where
  open Z use {Bucket, scores, zcount, zrange, scores_ascend, zcount_lem, zrange_lem}

  pub zcount-inside :
      (b : Bucket) (now w : ℕ) → zcount b (cutoff now w) ≡ count (inside now w) (scores b)
  zcount-inside b now w = rw (zcount_lem, fun_ext (λ s. after_cutoff-inside now w s))

  zrange-inside :
      (b : Bucket) (now w k : ℕ)
      → zrange b (cutoff now w) k ≡ get_elem? (filter (inside now w) (scores b)) k
  zrange-inside b now w k = rw (zrange_lem, fun_ext (λ s. after_cutoff-inside now w s))

  -- The window is full at `t`.
  abbrev Full : Bucket → ℕ → ℕ → ℕ → Type 0
  Full b w limit t = limit ≤ count (inside t w) (scores b)

  retry_step-max :
      (b : Bucket) (now w limit retry : ℕ)
      → retry_step Z b now w limit retry ≡ max retry (retry_step Z b now w limit 0)
  unfolding retry_step raise_retry
  retry_step-max b now w limit retry = ground arith

  -- The event that a full window waits for.
  awaited :
      (b : Bucket) (now w limit : ℕ)
      → 0 < limit
      → Full b w limit now
      → (e : ℕ) × (now < e + w)
        × (get_elem? (filter (inside now w) (scores b)) (count (inside now w) (scores b) - limit)
            ≡ some e)
  awaited b now w limit pos full =
      let l = filter (inside now w) (scores b) in
      let n = count (inside now w) (scores b) in
      let (e, found) =
        get_elem?-total l (n - limit) (omega (arith, length-filter (inside now w) (scores b))) in
      let there =
        All-get_elem? (λ s. inside now w s ≡ true) l (n - limit) e
          (filter-All (inside now w) (scores b)) found in
      (e, ground arith, found)

  retry_step-Full :
      (b : Bucket) (now w limit e : ℕ)
      → Full b w limit now
      → now < e + w
      → get_elem? (filter (inside now w) (scores b)) (count (inside now w) (scores b) - limit)
        ≡ some e
      → now + retry_step Z b now w limit 0 ≡ e + w
  unfolding retry_step raise_retry
  retry_step-Full b now w limit e full late found = ground (
    arith,
    zcount-inside b now w,
    zrange-inside b now w (count (inside now w) (scores b) - limit),
  )

  retry_step_idle :
      (b : Bucket) (now w limit : ℕ)
      → count (inside now w) (scores b) < limit
      → retry_step Z b now w limit 0 ≡ 0
  unfolding retry_step
  retry_step_idle b now w limit idle = ground (arith, zcount-inside b now w)

  Full-until :
      (b : Bucket) (now w limit t e : ℕ)
      → Full b w limit now
      → now ≤ t
      → get_elem? (filter (inside now w) (scores b)) (count (inside now w) (scores b) - limit)
        ≡ some e
      → Full b w limit t ↔ (t < e + w)
  Full-until b now w limit t e full le found =
      let l = filter (inside now w) (scores b) in
      let k = count (inside now w) (scores b) - limit in
      let asc = filter-IsAscending (inside now w) (scores b) (scores_ascend b) in
      let same = count-inside-filter w w now t (scores b) (omega arith) le in
      let len = length-filter (inside now w) (scores b) in
      (
        λ f. elim (dec_lt t (e + w)) [
          | yes in_time ↦ in_time
          | no late ↦
              absurd (omega (arith, count-lt-length t w e l k asc found (omega arith), same, len))
        ],
        λ in_time. omega (arith, length-le-count t w e l k asc found in_time, same, len),
      )

  -- A window is full, now or later, exactly until its delay is over.
  retry_step_exact :
      (b : Bucket) (now w limit t : ℕ)
      → 0 < limit
      → now ≤ t
      → Full b w limit t ↔ (t < now + retry_step Z b now w limit 0)
  retry_step_exact b now w limit t pos le = elim (dec_le limit (count (inside now w) (scores b))) [
    | yes full ↦
        let (e, late, found) = awaited b now w limit pos full in
        rw (retry_step-Full b now w limit e full late found)
          (Full-until b now w limit t e full le found)
    | no idle ↦ (
      λ f. absurd (omega (arith, count-inside_mono w now t (scores b) le)),
      λ h. absurd (omega (arith, retry_step_idle b now w limit (omega arith))),
    )
  ]

  module _ (l : Limits) (now t : ℕ) (member later : String) (b : Bucket) where
    check-retry :
        (check_script Z l now member b).1.admitted ≡ false
        → now + (check_script Z l now member b).1.retry_after_ms
          ≡ now
            + max
                (retry_step Z b now l.short_window_ms l.short_limit 0)
                (retry_step Z b now l.long_window_ms l.long_limit 0)
    unfolding check_script
    check-retry rejected = ground (
      arith,
      retry_step-max b now l.long_window_ms l.long_limit
          (retry_step Z b now l.short_window_ms l.short_limit 0),
    )

    check-admitted : ((check_script Z l t later b).1.admitted ≡ true) ↔ (
        (¬ Full b l.short_window_ms l.short_limit t) × (¬ Full b l.long_window_ms l.long_limit t))
    unfolding check_script
    check-admitted =
        ground (arith, zcount-inside b t l.short_window_ms, zcount-inside b t l.long_window_ms)

    check-rejected :
        (check_script Z l now member b).1.admitted ≡ false → (check_script Z l now member b).0 ≡ b
    unfolding check_script
    check-rejected rejected = ground arith

    -- A request of the same caller at a time `t` from a rejection on, with no admission in
    -- between, is admitted exactly when the announced delay is over: waiting for it is enough, and
    -- nothing shorter is. Both limits are positive.
    pub retry_after_exact :
        0 < l.short_limit
        → 0 < l.long_limit
        → now ≤ t
        → (check_script Z l now member b).1.admitted ≡ false
        → ((check_script Z l t later (check_script Z l now member b).0).1.admitted ≡ true)
          ↔ (now + (check_script Z l now member b).1.retry_after_ms ≤ t)
    retry_after_exact short_pos long_pos le rejected =
        let (short_to, short_from) =
          retry_step_exact b now l.short_window_ms l.short_limit t short_pos le in
        let (long_to, long_from) =
          retry_step_exact b now l.long_window_ms l.long_limit t long_pos le in
        let delay = check-retry rejected in
        rw (check-rejected rejected) (
          λ e.
              let (s, g) = check-admitted.0 e in
              elim (dec_le (now + (check_script Z l now member b).1.retry_after_ms) t) [
                | yes over ↦ over
                | no early ↦ absurd (ground arith)
              ],
          λ over. check-admitted.1 (λ f. omega (arith, short_to f), λ f. omega (arith, long_to f)),
        )
