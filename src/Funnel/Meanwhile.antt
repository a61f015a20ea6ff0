-- ===== src/Funnel/Meanwhile.antt =====
-- smolrouter/rate_limiter.py: between two passes of the same waiting request, as long as no request
-- is recorded.
use smol_router.Prelude.{
  ℕ, ◌+◌, ◌≤◌, ◌<◌, ◌≡◌, refl, ◌∙◌, false, some, arith, ltb, length, Bool-cases, inl, inr,
}
use smol_router.Funnel.{
  Funnel, drop_old, recorded, wait, full, pass_window, take_permit, count_active, release_slot,
}
use smol_router.Funnel.Window.{length-drop_old, length-drop_old_again, room_later}

-- What happens between two passes of a request when nothing is recorded: passes that wait, with a
-- clock that does not run backwards, and slots that are taken, counted and released.
pub data Meanwhile (since : ℕ) (first : Funnel) : ℕ → Funnel → Type 0 where
  at_once : Meanwhile since first since first
  waits_again :
      {t : ℕ} {s : Funnel} (now d : ℕ)
      → Meanwhile since first t s
      → t ≤ now
      → (pass_window now s).0 ≡ wait d
      → Meanwhile since first now (pass_window now s).1
  takes :
      {t : ℕ} {s : Funnel} (s' : Funnel)
      → Meanwhile since first t s
      → take_permit s ≡ some s'
      → Meanwhile since first t s'
  counts :
      {t : ℕ} {s : Funnel} → Meanwhile since first t s → Meanwhile since first t (count_active s)
  releases :
      {t : ℕ} {s : Funnel} → Meanwhile since first t s → Meanwhile since first t (release_slot s)

-- How many timestamps a pass would keep.
abbrev pub kept_at : ℕ → Funnel → ℕ
kept_at later s = length (drop_old later s.window_seconds s.request_timestamps)

pub pass_with_room :
    (later : ℕ) (s : Funnel)
    → kept_at later s < s.max_requests_per_window
    → (pass_window later s).0 ≡ recorded
unfolding pass_window
pass_with_room later s room = ground arith

record SameWindow (s s' : Funnel) : Type 0 where
  stamps : s'.request_timestamps ≡ s.request_timestamps
  span : s'.window_seconds ≡ s.window_seconds
  limit : s'.max_requests_per_window ≡ s.max_requests_per_window

take_permit-SameWindow : (s s' : Funnel) → take_permit s ≡ some s' → SameWindow s s'
unfolding take_permit
take_permit-SameWindow s s' e = record {
  stamps = ground arith;
  span = ground arith;
  limit = ground arith;
}

release_slot-SameWindow : (s : Funnel) → SameWindow s (release_slot s)
unfolding release_slot
release_slot-SameWindow s = record {
  stamps = ground arith;
  span = ground arith;
  limit = ground arith;
}

-- A pass that waits keeps only what is in its window.
wait-window :
    (now d : ℕ) (s : Funnel)
    → (pass_window now s).0 ≡ wait d
    → (ltb (kept_at now s) s.max_requests_per_window ≡ false)
      × (full now s.window_seconds (drop_old now s.window_seconds s.request_timestamps) ≡ wait d)
      × ((pass_window now s).1.request_timestamps
          ≡ drop_old now s.window_seconds s.request_timestamps)
      × ((pass_window now s).1.window_seconds ≡ s.window_seconds)
      × ((pass_window now s).1.max_requests_per_window ≡ s.max_requests_per_window)
unfolding pass_window
wait-window now d s e = elim (Bool-cases (ltb (kept_at now s) s.max_requests_per_window)) [
  | inl room ↦ absurd (let clash = rw room at e in cc)
  | inr busy ↦ rw busy (refl, rw busy at e, refl, refl, refl)
]

-- Nothing that happens meanwhile makes a later pass keep more.
pub Meanwhile-HasRoom :
    {since : ℕ} {first : Funnel} {t : ℕ} {s : Funnel} (later : ℕ)
    → Meanwhile since first t s
    → (kept_at later s ≤ kept_at later first)
      × (s.window_seconds ≡ first.window_seconds)
      × (s.max_requests_per_window ≡ first.max_requests_per_window)
unfolding count_active
Meanwhile-HasRoom later at_once = (omega arith, refl, refl)
Meanwhile-HasRoom later (waits_again {s} now d m le e) =
    let (fewer, span, limit) = Meanwhile-HasRoom later m in
    let (_, _, stamps, span', limit') = wait-window now d s e in
    let again = length-drop_old_again now later s.window_seconds s.request_timestamps in
    (rw (stamps, span') (omega arith), span' ∙ span, limit' ∙ limit)
Meanwhile-HasRoom later (takes {s} s' m e) =
    let (fewer, span, limit) = Meanwhile-HasRoom later m in
    let same = take_permit-SameWindow s s' e in
    (rw (same.stamps, same.span) fewer, same.span ∙ span, same.limit ∙ limit)
Meanwhile-HasRoom later (counts m) = Meanwhile-HasRoom later m
Meanwhile-HasRoom later (releases {s} m) =
    let (fewer, span, limit) = Meanwhile-HasRoom later m in
    let same = release_slot-SameWindow s in
    (rw (same.stamps, same.span) fewer, same.span ∙ span, same.limit ∙ limit)

-- After the wait time of a pass there is room.
pub waiting_room :
    (now later d : ℕ) (s : Funnel)
    → (pass_window now s).0 ≡ wait d
    → now + d < later
    → length s.request_timestamps ≤ s.max_requests_per_window
    → kept_at later (pass_window now s).1 < (pass_window now s).1.max_requests_per_window
waiting_room now later d s e after short =
    let (_, waiting, stamps, span, limit) = wait-window now d s e in
    let shorter = length-drop_old now s.window_seconds s.request_timestamps in
    let room =
      room_later now later d s.window_seconds s.max_requests_per_window
        (drop_old now s.window_seconds s.request_timestamps) waiting after (omega arith) in
    rw (stamps, span, limit) (ground arith)
