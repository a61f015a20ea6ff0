-- ===== src/Funnel.antt =====
-- smolrouter/rate_limiter.py: `GoogleGenAIRequestFunnel`, the slots of requests to one service. Each
-- stretch of code between two `await`s is one function on the state; times are natural numbers.
pub mod Window
pub mod Meanwhile
pub mod Runs
mod Tests
use smol_router.Prelude.{
  ℕ, zero, suc, ◌+◌, ◌-◌, Bool, true, false, not, Option, none, some, List, [], ◌∷◌, ◌++◌, ltb, leb,
  if◌then◌else◌, length,
}

pub record Funnel : Type 0 where
  pub enabled : Bool
  -- the value of the semaphore
  pub permits : ℕ
  pub active_count : ℕ
  pub window_seconds : ℕ
  pub max_requests_per_window : ℕ
  -- oldest first
  pub request_timestamps : List ℕ
  pub total_requests : ℕ
  pub total_waits : ℕ

unfoldable pub new_funnel : ℕ → ℕ → ℕ → Funnel
new_funnel max_concurrent max_requests window_seconds = record {
  enabled = true;
  permits = max_concurrent;
  active_count = 0;
  window_seconds = window_seconds;
  max_requests_per_window = max_requests;
  request_timestamps = [];
  total_requests = 0;
  total_waits = 0;
}

-- `while timestamps and now - timestamps[0] > window: timestamps.popleft()`
unfoldable pub drop_old : ℕ → ℕ → List ℕ → List ℕ
drop_old now window [] = []
drop_old now window (t ∷ ts) =
    let rest = drop_old now window ts in if ltb window (now - t) then rest else t ∷ ts

-- How one pass of the waiting loop ends: the request is recorded, or it waits, or there is no oldest
-- timestamp, an `IndexError`.
pub data Pass : Type 0 where
  recorded : Pass
  wait : (wait_time : ℕ) → Pass
  no_oldest : Pass

abbrev pub full : ℕ → ℕ → List ℕ → Pass
full now window [] = no_oldest
full now window (oldest ∷ ts) = wait (window + oldest - now)

abbrev pub waits : Pass → ℕ
waits recorded = 0
waits (wait d) = 1
waits no_oldest = 0

unfoldable pub pass_window : ℕ → Funnel → Pass × Funnel
pass_window now s =
    let kept = drop_old now s.window_seconds s.request_timestamps in
    let result = full now s.window_seconds kept in
    if ltb (length kept) s.max_requests_per_window
    then (recorded, record s { request_timestamps = kept ++ now ∷ [] })
    else (
      result,
      record s { request_timestamps = kept; total_waits = s.total_waits + waits result },
    )

-- `await self._semaphore.acquire()` goes on.
unfoldable pub take_permit : Funnel → Option Funnel
take_permit s = if ltb 0 s.permits then some (record s { permits = s.permits - 1 }) else none

unfoldable pub count_active : Funnel → Funnel
count_active s = record s {
  active_count = s.active_count + 1;
  total_requests = s.total_requests + 1;
}

unfoldable pub release_slot : Funnel → Funnel
release_slot s =
    if not s.enabled
    then s
    else if ltb 0 s.active_count
    then record s { active_count = s.active_count - 1; permits = s.permits + 1 }
    else s
