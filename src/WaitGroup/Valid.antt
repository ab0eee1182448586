-- ===== src/WaitGroup/Valid.antt =====
-- The mutex and the wake-ups of the waiter (jsockd_server/src/wait_group.c).
use jsockd.Prelude.{
  ℕ, ◌+◌, ◌≤◌, ◌<◌, ◌≡◌, refl, ap, List, [], ◌∷◌, Bool, true, false, not, ◌&&◌, if◌then◌else◌,
  length, get_or, get_or_absent, set, map, total, total-set, total-get_or, lt_or_le, inl, inr,
  arith,
}
use jsockd.Prelude.Int.{ℤ, pos, is_pos, lt_ℤ}
use jsockd.WaitGroup.{
  Inc, inc_start, inc_lock, inc_signal, inc_unlock, inc_end, Waiter, wait_lock, check_zero,
  check_positive, cond_wait, waiting, woken, timed_out, wait_unlock, wait_end, WaitGroup, Turn, inc,
  wait, time_out, wake, signal, act_inc, act_wait, rouse, step, run, started,
}
use jsockd.WaitGroup.Shares.{
  pending, has_mutex, waiter_has_mutex, waits, one_if, rouse-waits, rouse-waiter_has_mutex,
  signal-waits, signal-waiter_has_mutex, crossing, next-has_mutex, one_if_bound,
}

-- The mutex is held by one call at most, by one if it is locked; and when the counter is not positive
-- while the waiter waits, a call is about to wake it.
pub record IsValid (w : WaitGroup) : Type 0 where
  pub one_holder : waiter_has_mutex w.waiter + total has_mutex w.incs ≡ one_if w.locked
  pub wakes : waits w.waiter ≤ one_if (is_pos w.n_remaining) + total pending w.incs

act_wait-IsValid :
    (w : WaitGroup) → IsValid w → (p : Waiter) → w.waiter ≡ p → IsValid (act_wait p w)
unfolding act_wait
act_wait-IsValid w v wait_lock e = record {
  one_holder = ground (arith, v, e);
  wakes = ground (arith, v, e);
}
act_wait-IsValid w v check_zero e = record {
  one_holder = ground (arith, v, e);
  wakes = ground (arith, v, e);
}
act_wait-IsValid w v check_positive e = record {
  one_holder = ground (arith, v, e);
  wakes = ground (arith, v, e);
}
act_wait-IsValid w v cond_wait e = record {
  one_holder = ground (arith, v, e);
  wakes = ground (arith, v, e);
}
act_wait-IsValid w v waiting e = record {
  one_holder = ground (arith, v, e);
  wakes = ground (arith, v, e);
}
act_wait-IsValid w v woken e = record {
  one_holder = ground (arith, v, e);
  wakes = ground (arith, v, e);
}
act_wait-IsValid w v timed_out e = record {
  one_holder = ground (arith, v, e);
  wakes = ground (arith, v, e);
}
act_wait-IsValid w v (wait_unlock ok) e = record {
  one_holder = ground (arith, v, e);
  wakes = ground (arith, v, e);
}
act_wait-IsValid w v (wait_end ok) e = record {
  one_holder = ground (arith, v, e);
  wakes = ground (arith, v, e);
}

rouse-IsValid :
    (to : Waiter)
    → waits to ≡ 0
    → waiter_has_mutex to ≡ 0
    → (w : WaitGroup) → IsValid w
    → IsValid (record w { waiter = rouse to w.waiter })
rouse-IsValid to z m w v = record {
  one_holder = omega (arith, v.one_holder, rouse-waiter_has_mutex to m w.waiter);
  wakes = omega (arith, v.wakes, rouse-waits to z w.waiter);
}

act_inc-IsValid :
    (i : ℕ) (w : WaitGroup)
    → i < length w.incs
    → IsValid w
    → (t : Inc) → get_or w.incs i inc_end ≡ t
    → IsValid (act_inc i t w)
unfolding act_inc
act_inc-IsValid i w h v (inc_start n) e =
    let c = is_pos w.n_remaining && not (lt_ℤ (pos n) w.n_remaining) in
    let t' : Inc = if c then inc_lock else inc_end in
    let p = total-set pending w.incs i t' inc_end h in
    let m = total-set has_mutex w.incs i t' inc_end h in
    let p' : pending (get_or w.incs i inc_end) ≡ 0 = ap pending e in
    let m' : has_mutex (get_or w.incs i inc_end) ≡ 0 = ap has_mutex e in
    record {
      one_holder = omega (arith, v.one_holder, m, m', next-has_mutex c);
      wakes = omega (arith, v.wakes, p, p', crossing w.n_remaining n);
    }
act_inc-IsValid i w h v inc_lock e = locking w.locked refl
  where
    p :
        total pending (set w.incs i inc_signal) + pending (get_or w.incs i inc_end)
        ≡ total pending w.incs + 1
    p = total-set pending w.incs i inc_signal inc_end h

    m :
        total has_mutex (set w.incs i inc_signal) + has_mutex (get_or w.incs i inc_end)
        ≡ total has_mutex w.incs + 1
    m = total-set has_mutex w.incs i inc_signal inc_end h

    p' : pending (get_or w.incs i inc_end) ≡ 1
    p' = ap pending e

    m' : has_mutex (get_or w.incs i inc_end) ≡ 0
    m' = ap has_mutex e

    locking :
        (b : Bool)
        → w.locked ≡ b
        → IsValid (if b then w else record w { locked = true; incs = set w.incs i inc_signal })
    locking true l = v
    locking false l =
        let free : one_if w.locked ≡ 0 = ap one_if l in
        record {
          one_holder = omega (arith, v.one_holder, free, m, m');
          wakes = omega (arith, v.wakes, p, p');
        }
act_inc-IsValid i w h v inc_signal e =
    let p = total-set pending w.incs i inc_unlock inc_end h in
    let m = total-set has_mutex w.incs i inc_unlock inc_end h in
    let p' : pending (get_or w.incs i inc_end) ≡ 1 = ap pending e in
    let m' : has_mutex (get_or w.incs i inc_end) ≡ 1 = ap has_mutex e in
    let mine = total-get_or has_mutex w.incs i inc_end h in
    let at_most_one = one_if_bound w.locked in
    let none : waiter_has_mutex w.waiter ≡ 0 = omega (arith, v.one_holder, m', mine, at_most_one) in
    let woken : waits (signal w.waiter) ≡ 0 = signal-waits w.waiter none in
    record {
      one_holder = omega (arith, v.one_holder, m, m', signal-waiter_has_mutex w.waiter);
      wakes = omega (arith, woken);
    }
act_inc-IsValid i w h v inc_unlock e =
    let p = total-set pending w.incs i inc_end inc_end h in
    let m = total-set has_mutex w.incs i inc_end inc_end h in
    let p' : pending (get_or w.incs i inc_end) ≡ 0 = ap pending e in
    let m' : has_mutex (get_or w.incs i inc_end) ≡ 1 = ap has_mutex e in
    let mine = total-get_or has_mutex w.incs i inc_end h in
    let at_most_one = one_if_bound w.locked in
    record {
      one_holder = omega (arith, v.one_holder, m, m', mine, at_most_one);
      wakes = omega (arith, v.wakes, p, p');
    }
act_inc-IsValid i w h v inc_end e = v

step-IsValid : (t : Turn) (w : WaitGroup) → IsValid w → IsValid (step t w)
unfolding step act_inc
step-IsValid (inc i) w v = elim (lt_or_le i (length w.incs)) [
  | inl h ↦ act_inc-IsValid i w h v (get_or w.incs i inc_end) refl
  | inr h ↦ rw (get_or_absent w.incs i inc_end h) v
]
step-IsValid wait w v = act_wait-IsValid w v w.waiter refl
step-IsValid time_out w v = rouse-IsValid timed_out refl refl w v
step-IsValid wake w v = rouse-IsValid woken refl refl w v

run-IsValid : (turns : List Turn) (w : WaitGroup) → IsValid w → IsValid (run turns w)
unfolding run
run-IsValid [] w v = v
run-IsValid (t ∷ turns) w v = run-IsValid turns (step t w) (step-IsValid t w v)

none_has_mutex : (counts : List ℕ) → total has_mutex (map inc_start counts) ≡ 0
none_has_mutex [] = refl
none_has_mutex (n ∷ counts) = omega (arith, none_has_mutex counts)

started-IsValid : (n_waiting_for : ℤ) (counts : List ℕ) → IsValid (started n_waiting_for counts)
started-IsValid n counts = record {
  one_holder = omega (arith, none_has_mutex counts);
  wakes = omega arith;
}

-- No wake-up is lost: in every interleaving of any calls of `wait_group_inc` and one of
-- `wait_group_timed_wait` on a new wait group, whenever the counter is not positive and the waiter waits on
-- the condition variable, some call of `wait_group_inc` has not ended and is about to signal it.
pub run_wakes :
    (n_waiting_for : ℤ) (counts : List ℕ) (turns : List Turn)
    → (run turns (started n_waiting_for counts)).waiter ≡ waiting
    → is_pos (run turns (started n_waiting_for counts)).n_remaining ≡ false
    → 0 < total pending (run turns (started n_waiting_for counts)).incs
run_wakes n counts turns h z =
    let w : WaitGroup = run turns (started n counts) in
    let k = (run-IsValid turns (started n counts) (started-IsValid n counts)).wakes in
    let one : waits w.waiter ≡ 1 = ap waits h in
    let none : one_if (is_pos w.n_remaining) ≡ 0 = ap one_if z in omega (arith, k, one, none)
