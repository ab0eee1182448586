-- ===== src/WaitGroup/Tests.antt =====
-- A run of the wait group (jsockd_server/src/wait_group.c), and the theorem at it.
use jsockd.Prelude.{◌<◌, ◌≡◌, refl, List, [], ◌∷◌, false, total}
use jsockd.Prelude.Int.{pos, is_pos}
use jsockd.WaitGroup.{waiting, Turn, inc, wait, act_inc, act_wait, step, run, started}
use jsockd.WaitGroup.Shares.{pending}
use jsockd.WaitGroup.Valid.{run_wakes}

-- The waiter waits, and then the one call that it waits for has changed the counter.
abbrev turns : List Turn
turns = wait ∷ wait ∷ wait ∷ wait ∷ inc 0 ∷ []

waits_run : (run turns (started (pos 1) (1 ∷ []))).waiter ≡ waiting
unfolding run step act_inc act_wait
waits_run = refl

counted_run : is_pos (run turns (started (pos 1) (1 ∷ []))).n_remaining ≡ false
unfolding run step act_inc act_wait
counted_run = refl

run_wakes_example : 0 < total pending (run turns (started (pos 1) (1 ∷ []))).incs
run_wakes_example = run_wakes (pos 1) (1 ∷ []) turns waits_run counted_run
