-- ===== src/Funnel/Runs.antt =====
-- What the funnel promises over any interleaving of requests.
use smol_router.Prelude.{
  ℕ, suc, ◌+◌, ◌-◌, ◌≤◌, ◌<◌, ◌≡◌, refl, ap, ◌∙◌, Bool, true, false, not, some, List, [], ◌∷◌,
  arith, ltb, if◌then◌else◌, or_else, length, length-append, count, All, Bool-cases, inl, inr,
}
use smol_router.RateLimit.Window.{inside, IsAscending}
use smol_router.RateLimit.Admission.{within, Admissible, Admissible-bound}
use smol_router.Funnel.Meanwhile.{Meanwhile, pass_with_room, waiting_room, Meanwhile-HasRoom}
use smol_router.Funnel.{
  Funnel, new_funnel, drop_old, Pass, recorded, wait, no_oldest, full, pass_window, take_permit,
  count_active, release_slot,
}
use smol_router.Funnel.Window.{
  length-drop_old, count-drop_old, count-append_one, length_kept, drop_old-All,
  drop_old-IsAscending, All-le_mono, All-append_one, append_one-IsAscending,
}

abbrev pub record_pass : Pass → ℕ → List ℕ → List ℕ
record_pass recorded now h = now ∷ h
record_pass (wait d) now h = h
record_pass no_oldest now h = h

-- The states of a funnel under any interleaving of requests, with a clock that does not run
-- backwards, the times of the recorded requests, newest first, and the number of requests that
-- hold a permit and are not counted yet. Slots may be released at any time, by anyone.
pub data Run (max_concurrent max_requests window : ℕ) : ℕ → List ℕ → ℕ → Funnel → Type 0 where
  start :
      Run max_concurrent max_requests window 0 [] 0 (new_funnel max_concurrent max_requests window)
  pass :
      {t n : ℕ} {h : List ℕ} {s : Funnel} (now : ℕ)
      → Run max_concurrent max_requests window t h n s
      → t ≤ now
      → Run max_concurrent max_requests window now
          (record_pass (pass_window now s).0 now h)
          n
          (pass_window now s).1
  enter :
      {t n : ℕ} {h : List ℕ} {s : Funnel} (s' : Funnel)
      → Run max_concurrent max_requests window t h n s
      → take_permit s ≡ some s'
      → Run max_concurrent max_requests window t h (suc n) s'
  begin :
      {t n : ℕ} {h : List ℕ} {s : Funnel}
      → Run max_concurrent max_requests window t h (suc n) s
      → Run max_concurrent max_requests window t h n (count_active s)
  release :
      {t n : ℕ} {h : List ℕ} {s : Funnel}
      → Run max_concurrent max_requests window t h n s
      → Run max_concurrent max_requests window t h n (release_slot s)

record_full : (now w : ℕ) (ts h : List ℕ) → record_pass (full now w ts) now h ≡ h
record_full now w [] h = refl
record_full now w (t ∷ ts) h = refl

either_way :
    (P : Funnel → Type 0) (on busy : Bool) {released same : Funnel}
    → P same
    → (busy ≡ true → P released)
    → P (if not on then same else if busy then released else same)
either_way P true true h k = k refl
either_way P true false h k = h
either_way P false busy h k = h

module _ (max_concurrent max_requests window : ℕ) where
  record Keeps (t : ℕ) (h : List ℕ) (n : ℕ) (s : Funnel) : Type 0 where
    slots : s.permits + s.active_count + n ≡ max_concurrent
    limit : s.max_requests_per_window ≡ max_requests
    span : s.window_seconds ≡ window
    agrees :
        (u : ℕ)
        → t ≤ u
        → count (inside u (s.window_seconds + 1)) s.request_timestamps
          ≡ count (inside u (s.window_seconds + 1)) h
    ascending : IsAscending s.request_timestamps
    bounded : All (λ u. u ≤ t) s.request_timestamps
    short : length s.request_timestamps ≤ s.max_requests_per_window
    admissible : Admissible (s.window_seconds + 1) s.max_requests_per_window h

  pass-Keeps :
      {t n : ℕ} {h : List ℕ} {s : Funnel} (now : ℕ)
      → Keeps t h n s
      → t ≤ now
      → Keeps now (record_pass (pass_window now s).0 now h) n (pass_window now s).1
  unfolding pass_window
  pass-Keeps {t} {n} {h} {s} now k le =
      let kept = drop_old now s.window_seconds s.request_timestamps in
      let bounded =
        drop_old-All (λ u. u ≤ now) now s.window_seconds s.request_timestamps
          (All-le_mono t now s.request_timestamps le k.bounded) in
      let ascending = drop_old-IsAscending now s.window_seconds s.request_timestamps k.ascending in
      let shorter = length-drop_old now s.window_seconds s.request_timestamps in
      let here = k.agrees now le in
      let left = length_kept now s.window_seconds s.request_timestamps k.ascending in
      elim (Bool-cases (ltb (length kept) s.max_requests_per_window)) [
        | inl room ↦ rw room (record {
          slots = k.slots;
          limit = k.limit;
          span = k.span;
          agrees = λ u later.
              let old = k.agrees u (omega arith) in
              let same = count-drop_old now u s.window_seconds s.request_timestamps later in
              count-append_one (inside u (s.window_seconds + 1)) kept now
              ∙ ap (λ c. (if inside u (s.window_seconds + 1) now then 1 else 0) + c) (same ∙ old);
          ascending = append_one-IsAscending kept now ascending bounded;
          bounded = All-append_one (λ u. u ≤ now) kept now bounded (omega arith);
          short = ground (arith, length-append kept (now ∷ []));
          admissible = (ground arith, k.admissible);
        })
        | inr busy ↦
            rw (busy, record_full now s.window_seconds kept h)
              (record {
                slots = k.slots;
                limit = k.limit;
                span = k.span;
                agrees = λ u later.
                    count-drop_old now u s.window_seconds s.request_timestamps later
                    ∙ k.agrees u (omega arith);
                ascending = ascending;
                bounded = bounded;
                short = (let before = k.short in omega arith);
                admissible = k.admissible;
              })
      ]

  slots-Keeps :
      {t n : ℕ} {h : List ℕ} {s : Funnel} (p a m total : ℕ)
      → Keeps t h n s
      → p + a + m ≡ max_concurrent
      → Keeps t h m (record s { permits = p; active_count = a; total_requests = total })
  slots-Keeps p a m total k e = record {
    slots = e;
    limit = k.limit;
    span = k.span;
    agrees = k.agrees;
    ascending = k.ascending;
    bounded = k.bounded;
    short = k.short;
    admissible = k.admissible;
  }

  Run-Keeps :
      {t n : ℕ} {h : List ℕ} {s : Funnel}
      → Run max_concurrent max_requests window t h n s
      → Keeps t h n s
  unfolding new_funnel take_permit count_active release_slot
  Run-Keeps start = record {
    slots = omega arith;
    limit = refl;
    span = refl;
    agrees = λ u le. refl;
    ascending = tt;
    bounded = tt;
    short = omega arith;
    admissible = tt;
  }
  Run-Keeps (pass now r le) = pass-Keeps now (Run-Keeps r) le
  Run-Keeps (enter {s} s' r e) =
      let k = Run-Keeps r in
      let before = k.slots in
      elim (Bool-cases (ltb 0 s.permits)) [
        | inl free ↦
            let is = ap (λ o. or_else o s) (rw free at e) in
            rw (← is)
              (slots-Keeps (s.permits - 1) s.active_count _ s.total_requests k (ground arith))
        | inr none_free ↦ absurd (let clash = rw none_free at e in cc)
      ]
  Run-Keeps (begin {s} r) =
      let k = Run-Keeps r in
      let before = k.slots in
      slots-Keeps s.permits (s.active_count + 1) _ (s.total_requests + 1) k (omega arith)
  Run-Keeps (release {s} r) =
      let k = Run-Keeps r in
      let before = k.slots in
      either_way (Keeps _ _ _) s.enabled (ltb 0 s.active_count) k (λ busy.
        slots-Keeps (s.permits + 1) (s.active_count - 1) _ s.total_requests k (ground arith))

  module _ {t n : ℕ} {h : List ℕ} {s : Funnel}
      (r : Run max_concurrent max_requests window t h n s) where
    -- The free permits, the active requests and those that hold a permit but are not counted yet are
    -- together as many as the concurrency limit, however slots are released.
    pub funnel_slots : s.permits + s.active_count + n ≡ max_concurrent
    funnel_slots = let k = Run-Keeps r in k.slots

    -- No window of the funnel's length, wherever it ends and both ends included, holds more recorded
    -- requests than the limit.
    pub funnel_window : (u : ℕ) → count (within u (window + 1)) h ≤ max_requests
    funnel_window u =
        let k = Run-Keeps r in
        Admissible-bound (window + 1) max_requests u h (rw (← k.span, ← k.limit) k.admissible)

    -- A request that must wait at a pass is recorded by its first pass that comes later than the wait
    -- time, if no request was recorded in between: however often it or others have passed and waited
    -- again meanwhile, and whatever slots were taken or released.
    pub wait_suffices :
        (now later d t' : ℕ) (s' : Funnel)
        → t ≤ now
        → (pass_window now s).0 ≡ wait d
        → Meanwhile now (pass_window now s).1 t' s'
        → now + d < later
        → (pass_window later s').0 ≡ recorded
    wait_suffices now later d t' s' le waiting between after =
        let k = Run-Keeps r in
        let (room, same, limit) = Meanwhile-HasRoom later between in
        pass_with_room later s' (omega (arith, waiting_room now later d s waiting after k.short))
