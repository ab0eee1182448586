-- ===== src/CommandLoop/End.antt =====
-- `command_loop` (jsockd_server/src/main.c) at its end: what it leaves to the other threads.
use jsockd.Prelude.{
  ℕ, ◌+◌, ◌≡◌, refl, List, Bool, true, false, not, ◌&&◌, Option, some, none, replicate,
  length-replicate, All, arith,
}
use jsockd.Prelude.Int.{pos, eq_ℤ}
use jsockd.CmdArgs.CString.{Str}
use jsockd.HashCache.{Bucket}
use jsockd.LineBuf.{LineBuf, Read, read_eof, line_buf_read}
use jsockd.LineBuf.Refine
use jsockd.Server.State.{exit_on_quit_command}
use jsockd.Server.Invariant.{choose}
use jsockd.CommandLoop.{
  Accept, Round, Left, interrupted, set_up_failed, exited, stuck, Ended, with_failure, error_no_inc,
  wait_group_inc, leave, command_loop,
}
use jsockd.CommandLoop.Moments.{World, at, null_pointer, unanswered}
use jsockd.CommandLoop.Once.{Ok, Valid}
use jsockd.CommandLoop.Loop.{OffersAll, Starts, Leaves, Ok-Valid, accept_loop-Leaves}

-- The other threads are told to end.
abbrev pub Told : {V B : Type 0} → World V B → Type 0
Told (at s moments) = s.interrupted_or_error ≡ true
Told null_pointer = ⊥
Told unanswered = Unit

-- The thread has not ended, or has ended as it should, with one more call of `wait_group_inc`.
abbrev pub EndsWell : {V B : Type 0} → Bucket B → ℕ → Option (Ended V B) → Type 0
EndsWell empty n_incs none = Unit
EndsWell empty n_incs (some e) = Valid empty e.world × Told e.world × (e.n_incs ≡ n_incs + 1)

module _ {V B : Type 0} (empty : Bucket B) where
  told : (w : World V B) → Valid empty w → Valid empty (error_no_inc w) × Told (error_no_inc w)
  told (at s ms) v =
      (record { thread = v.thread; replacement = v.replacement; down = v.down }, refl)
  told null_pointer v = (v, v)
  told unanswered v = (tt, tt)

  failure-Valid : (w : World V B) → Valid empty w → Valid empty (with_failure w)
  failure-Valid (at s ms) v = record {
    thread = record {
      line_bound = v.thread.line_bound;
      uuid_bound = v.thread.uuid_bound;
      checks_bound = v.thread.checks_bound;
    };
    replacement = v.replacement;
    down = v.down;
  }
  failure-Valid null_pointer v = v
  failure-Valid unanswered v = v

  leave-Told : (l : Left V B) → Leaves empty (some l) → Valid empty (leave l) × Told (leave l)
  unfolding leave
  leave-Told (interrupted w) v = told w v
  leave-Told (set_up_failed w) v = told (with_failure w) (failure-Valid w v)
  leave-Told (exited r w) v = told _ (
      choose (λ (x : World V B). Valid empty x)
        (not (eq_ℤ r read_eof) && not (eq_ℤ r exit_on_quit_command)) (failure-Valid w v.0) v.0)
  leave-Told stuck v = absurd v

  module _ (n_bits : ℕ) (get_hash_cache_uid : Str → ℕ) (sep thread_index max_idle_time_us : ℕ) where
    -- A thread ends well: when `command_loop`, called for a running thread in a valid state, returns, the
    -- thread is in a valid state or waits for the answers to a line, the other threads were told to end,
    -- and it has called `wait_group_inc` once. It has followed no null pointer, and no loop around the
    -- replays has run longer than the buffer has bytes. That holds whatever the clients and the other
    -- threads do, for any outcome of the set-up, the polls and the clocks of the loops, when each start
    -- of a thread state that was shut down succeeds, and each read brings no more bytes than it is
    -- offered and returns -1 when it fails.
    pub command_loop-EndsWell :
        (listens counts : Bool) (n_incs size : ℕ) (accepts : List Accept)
        (rounds : List (Round V B)) (w : World V B)
        → All OffersAll rounds
        → All Starts rounds
        → Ok empty w
        → EndsWell empty n_incs (
            command_loop empty n_bits get_hash_cache_uid sep thread_index max_idle_time_us listens
              counts n_incs size accepts rounds w)
    unfolding command_loop
    command_loop-EndsWell false counts n_incs size accepts rounds w o i v =
        let p =
          told (with_failure w) (failure-Valid w (Ok-Valid empty n_bits get_hash_cache_uid w v)) in
        (p.0, p.1, omega arith)
    command_loop-EndsWell true false n_incs size accepts rounds w o i v =
        let p =
          told (with_failure w) (failure-Valid w (Ok-Valid empty n_bits get_hash_cache_uid w v)) in
        (p.0, p.1, omega arith)
    command_loop-EndsWell true true n_incs size accepts rounds w o i v = after _ (
        accept_loop-Leaves empty n_bits get_hash_cache_uid sep thread_index max_idle_time_us accepts
          rounds _ w o i empty_buffer v)
      where
        empty_buffer : jsockd.LineBuf.Refine.IsValid (record {
          buf = replicate size 0;
          size = size;
          start = 0;
          afsep = 0;
          truncated = false;
          n = pos 0;
        })
        empty_buffer = record {
          whole = length-replicate size 0;
          fits = omega arith;
          at_front = refl;
        }

        after :
            (l : Option (Left V B))
            → Leaves empty l
            → EndsWell empty n_incs (elim l [
              | none ↦ none
              | some l' ↦ some (record { world = leave l'; n_incs = wait_group_inc n_incs })
            ])
        after none v' = tt
        after (some l') v' = let p = leave-Told l' v' in (p.0, p.1, omega arith)
