-- ===== src/WaitGroup.antt =====
-- The wait group of jsockd_server/src/wait_group.c, on Linux: any number of calls of `wait_group_inc`, and
-- one of `wait_group_timed_wait`, each in front of an operation on the counter, the mutex or the condition
-- variable; a schedule says who goes on. The calls of `pthread` succeed, but a wait may time out.
pub mod Shares
pub mod Valid
mod Tests
use jsockd.Prelude.{
  ℕ, zero, suc, ◌+◌, ◌-◌, List, [], ◌∷◌, Bool, true, false, not, ◌&&◌, ◌==◌, if◌then◌else◌, get_or,
  set, map,
}
use jsockd.Prelude.Int.{ℤ, pos, negsuc, sub_ℕ, is_pos, lt_ℤ, eq_ℤ}

-- `n_remaining - n`, the addition of `-n` to the counter.
abbrev pub sub_ℤ : ℤ → ℕ → ℤ
sub_ℤ (pos m) n = sub_ℕ m n
sub_ℤ (negsuc m) n = negsuc (m + n)

-- A call of `wait_group_inc`: about to change the counter by its argument, to lock the mutex, to signal,
-- to unlock; or at its end.
pub data Inc : Type 0 where
  inc_start : ℕ → Inc
  inc_lock inc_signal inc_unlock inc_end : Inc

-- The call of `wait_group_timed_wait`: about to lock the mutex, to look whether the counter is 0, to look
-- whether it is positive, or to wait; waiting; woken or timed out, and about to lock the mutex again;
-- about to unlock, with the result of the call; or at its end.
pub data Waiter : Type 0 where
  wait_lock check_zero check_positive cond_wait waiting woken timed_out : Waiter
  wait_unlock wait_end : Bool → Waiter

pub record WaitGroup : Type 0 where
  pub n_remaining : ℤ
  pub locked : Bool
  pub waiter : Waiter
  pub incs : List Inc

-- Who goes on: a call of `wait_group_inc`, the waiter, or the clock or a spurious wake-up for a waiter.
pub data Turn : Type 0 where
  inc : ℕ → Turn
  wait time_out wake : Turn

-- `pthread_cond_signal`, for the one waiter.
abbrev pub signal : Waiter → Waiter
signal wait_lock = wait_lock
signal check_zero = check_zero
signal check_positive = check_positive
signal cond_wait = cond_wait
signal waiting = woken
signal woken = woken
signal timed_out = timed_out
signal (wait_unlock ok) = wait_unlock ok
signal (wait_end ok) = wait_end ok

-- An operation of the call `i` of `wait_group_inc`.
unfoldable pub act_inc : ℕ → Inc → WaitGroup → WaitGroup
act_inc i (inc_start n) w =
    let next =
      if is_pos w.n_remaining && not (lt_ℤ (pos n) w.n_remaining) then inc_lock else inc_end in
    record w { n_remaining = sub_ℤ w.n_remaining n; incs = set w.incs i next }
act_inc i inc_lock w =
    if w.locked then w else record w { locked = true; incs = set w.incs i inc_signal }
act_inc i inc_signal w = record w { waiter = signal w.waiter; incs = set w.incs i inc_unlock }
act_inc i inc_unlock w = record w { locked = false; incs = set w.incs i inc_end }
act_inc i inc_end w = w

-- An operation of `wait_group_timed_wait`.
unfoldable pub act_wait : Waiter → WaitGroup → WaitGroup
act_wait wait_lock w = if w.locked then w else record w { locked = true; waiter = check_zero }
act_wait check_zero w = record w {
  waiter = if eq_ℤ w.n_remaining (pos 0) then wait_unlock true else check_positive;
}
act_wait check_positive w = record w {
  waiter = if is_pos w.n_remaining then cond_wait else wait_unlock true;
}
act_wait cond_wait w = record w { locked = false; waiter = waiting }
act_wait waiting w = w
act_wait woken w = if w.locked then w else record w { locked = true; waiter = check_positive }
act_wait timed_out w =
    if w.locked then w else record w { locked = true; waiter = wait_unlock false }
act_wait (wait_unlock ok) w = record w { locked = false; waiter = wait_end ok }
act_wait (wait_end ok) w = w

-- A waiter that waits is woken, or runs out of time.
abbrev pub rouse : Waiter → Waiter → Waiter
rouse to wait_lock = wait_lock
rouse to check_zero = check_zero
rouse to check_positive = check_positive
rouse to cond_wait = cond_wait
rouse to waiting = to
rouse to woken = woken
rouse to timed_out = timed_out
rouse to (wait_unlock ok) = wait_unlock ok
rouse to (wait_end ok) = wait_end ok

unfoldable pub step : Turn → WaitGroup → WaitGroup
step (inc i) w = act_inc i (get_or w.incs i inc_end) w
step wait w = act_wait w.waiter w
step time_out w = record w { waiter = rouse timed_out w.waiter }
step wake w = record w { waiter = rouse woken w.waiter }

unfoldable pub run : List Turn → WaitGroup → WaitGroup
run [] w = w
run (t ∷ turns) w = run turns (step t w)

-- `wait_group_init`, and the calls that are to be made, with their arguments.
abbrev pub started : ℤ → List ℕ → WaitGroup
started n_waiting_for counts = record {
  n_remaining = n_waiting_for;
  locked = false;
  waiter = wait_lock;
  incs = map inc_start counts;
}
