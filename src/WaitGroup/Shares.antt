-- ===== src/WaitGroup/Shares.antt =====
-- What each call has of the mutex and of the wake-ups (jsockd_server/src/wait_group.c).
use jsockd.Prelude.{ℕ, ◌+◌, ◌≤◌, ◌≡◌, refl, Bool, true, false, not, ◌&&◌, if◌then◌else◌, arith}
use jsockd.Prelude.Int.{ℤ, pos, negsuc, is_pos, lt_ℤ}
use jsockd.WaitGroup.{
  sub_ℤ, Inc, inc_start, inc_lock, inc_signal, inc_unlock, inc_end, Waiter, wait_lock, check_zero,
  check_positive, cond_wait, waiting, woken, timed_out, wait_unlock, wait_end, signal, rouse,
}

-- The call is about to wake the waiter.
abbrev pub pending : Inc → ℕ
pending (inc_start n) = 0
pending inc_lock = 1
pending inc_signal = 1
pending inc_unlock = 0
pending inc_end = 0

-- The call has the mutex.
abbrev pub has_mutex : Inc → ℕ
has_mutex (inc_start n) = 0
has_mutex inc_lock = 0
has_mutex inc_signal = 1
has_mutex inc_unlock = 1
has_mutex inc_end = 0

abbrev pub waiter_has_mutex : Waiter → ℕ
waiter_has_mutex wait_lock = 0
waiter_has_mutex check_zero = 1
waiter_has_mutex check_positive = 1
waiter_has_mutex cond_wait = 1
waiter_has_mutex waiting = 0
waiter_has_mutex woken = 0
waiter_has_mutex timed_out = 0
waiter_has_mutex (wait_unlock ok) = 1
waiter_has_mutex (wait_end ok) = 0

-- The waiter waits, or is about to.
abbrev pub waits : Waiter → ℕ
waits wait_lock = 0
waits check_zero = 0
waits check_positive = 0
waits cond_wait = 1
waits waiting = 1
waits woken = 0
waits timed_out = 0
waits (wait_unlock ok) = 0
waits (wait_end ok) = 0

abbrev pub one_if : Bool → ℕ
one_if true = 1
one_if false = 0

pub rouse-waits : (to : Waiter) → waits to ≡ 0 → (p : Waiter) → waits (rouse to p) ≤ waits p
rouse-waits to z wait_lock = omega arith
rouse-waits to z check_zero = omega arith
rouse-waits to z check_positive = omega arith
rouse-waits to z cond_wait = omega arith
rouse-waits to z waiting = omega arith
rouse-waits to z woken = omega arith
rouse-waits to z timed_out = omega arith
rouse-waits to z (wait_unlock ok) = omega arith
rouse-waits to z (wait_end ok) = omega arith

pub rouse-waiter_has_mutex :
    (to : Waiter)
    → waiter_has_mutex to ≡ 0
    → (p : Waiter) → waiter_has_mutex (rouse to p) ≡ waiter_has_mutex p
rouse-waiter_has_mutex to m wait_lock = refl
rouse-waiter_has_mutex to m check_zero = refl
rouse-waiter_has_mutex to m check_positive = refl
rouse-waiter_has_mutex to m cond_wait = refl
rouse-waiter_has_mutex to m waiting = m
rouse-waiter_has_mutex to m woken = refl
rouse-waiter_has_mutex to m timed_out = refl
rouse-waiter_has_mutex to m (wait_unlock ok) = refl
rouse-waiter_has_mutex to m (wait_end ok) = refl

-- The signal, while the waiter has not the mutex, and so is not between its look at the counter and the
-- wait.
pub signal-waits : (p : Waiter) → waiter_has_mutex p ≡ 0 → waits (signal p) ≡ 0
signal-waits wait_lock h = refl
signal-waits check_zero h = absurd (omega arith)
signal-waits check_positive h = absurd (omega arith)
signal-waits cond_wait h = absurd (omega arith)
signal-waits waiting h = refl
signal-waits woken h = refl
signal-waits timed_out h = refl
signal-waits (wait_unlock ok) h = absurd (omega arith)
signal-waits (wait_end ok) h = refl

pub signal-waiter_has_mutex : (p : Waiter) → waiter_has_mutex (signal p) ≡ waiter_has_mutex p
signal-waiter_has_mutex wait_lock = refl
signal-waiter_has_mutex check_zero = refl
signal-waiter_has_mutex check_positive = refl
signal-waiter_has_mutex cond_wait = refl
signal-waiter_has_mutex waiting = refl
signal-waiter_has_mutex woken = refl
signal-waiter_has_mutex timed_out = refl
signal-waiter_has_mutex (wait_unlock ok) = refl
signal-waiter_has_mutex (wait_end ok) = refl

-- The counter and the call that makes it 0 or less.
pub crossing :
    (m : ℤ) (n : ℕ)
    → one_if (is_pos m)
      ≤ one_if (is_pos (sub_ℤ m n))
        + pending (if is_pos m && not (lt_ℤ (pos n) m) then inc_lock else inc_end)
crossing (pos m) n = ground arith
crossing (negsuc m) n = ground arith

pub next-has_mutex : (c : Bool) → has_mutex (if c then inc_lock else inc_end) ≡ 0
next-has_mutex true = refl
next-has_mutex false = refl

pub one_if_bound : (b : Bool) → one_if b ≤ 1
one_if_bound true = omega arith
one_if_bound false = omega arith
