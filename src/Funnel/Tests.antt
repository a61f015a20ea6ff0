-- ===== src/Funnel/Tests.antt =====
-- A run of the funnel on concrete inputs: one slot and one request in each window of ten.
use smol_router.Prelude.{ℕ, ◌+◌, ◌≤◌, ◌≡◌, refl, some, List, [], ◌∷◌, arith, count}
use smol_router.RateLimit.Admission.{within}
use smol_router.Funnel.{
  Funnel, new_funnel, drop_old, recorded, wait, pass_window, take_permit, count_active,
}
use smol_router.Funnel.Meanwhile.{at_once, waits_again}
use smol_router.Funnel.Runs.{
  Run, start, pass, enter, begin, funnel_slots, funnel_window, wait_suffices,
}

abbrev recorded_once : List ℕ
recorded_once = 5 ∷ []

abbrev passed : Funnel
passed = (pass_window 5 (new_funnel 1 1 10)).1

abbrev entered : Funnel
entered = record passed { permits = 0 }

run-passed : Run 1 1 10 5 recorded_once 0 passed
unfolding pass_window drop_old new_funnel
run-passed = pass {t = 0} {h = []} 5 start (omega arith)

takes : take_permit passed ≡ some entered
unfolding take_permit pass_window drop_old new_funnel
takes = refl

run-entered : Run 1 1 10 5 recorded_once 1 entered
run-entered = enter entered run-passed takes

funnel_slots_example : (count_active entered).permits + (count_active entered).active_count + 0 ≡ 1
funnel_slots_example = funnel_slots 1 1 10 (begin run-entered)

funnel_window_example : count (within 12 11) recorded_once ≤ 1
funnel_window_example = funnel_window 1 1 10 run-passed 12

must-wait : (pass_window 7 passed).0 ≡ wait 8
unfolding pass_window drop_old new_funnel
must-wait = refl

-- It passes again after five, as the code has it, and still waits.
waits-again : (pass_window 12 (pass_window 7 passed).1).0 ≡ wait 3
unfolding pass_window drop_old new_funnel
waits-again = refl

wait_suffices_example : (pass_window 16 (pass_window 12 (pass_window 7 passed).1).1).0 ≡ recorded
wait_suffices_example =
    wait_suffices 1 1 10 run-passed 7 16 8 12 (pass_window 12 (pass_window 7 passed).1).1
      (omega arith) must-wait (waits_again 12 3 at_once (omega arith) waits-again) (omega arith)
