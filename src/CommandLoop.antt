-- ===== src/CommandLoop.antt =====
-- `command_loop` of jsockd_server/src/main.c: a thread waits for a client, and hands what it reads to the
-- line buffer, whose lines go to `line_handler`. What the system and the other threads do is in lists: a
-- moment for each line, a round for each turn of a loop.
pub mod Moments
pub mod Replays
pub mod Once
pub mod Loop
pub mod End
mod Tests
use jsockd.Prelude.{
  ℕ, zero, suc, ◌+◌, List, [], ◌∷◌, Bool, true, false, not, ◌&&◌, ◌==◌, Option, some, none,
  replicate, if◌then◌else◌,
}
use jsockd.Prelude.Int.{ℤ, pos, negsuc, is_neg, eq_ℤ}
use jsockd.LineBuf.{LineBuf, LineHandler, Read, read_eof, line_buf_read, line_buf_replay}
use jsockd.Time.{Timespec}
use jsockd.HashCache.{Bucket}
use jsockd.Server.State.{Server, trampoline, exit_on_quit_command}
use jsockd.Server.{tick_handler, Init, reinitialize}
use jsockd.CmdArgs.CString.{Str}
use jsockd.CommandLoop.Moments.{
  Event, happen, World, unanswered, on_server, update_stack_top, world_handler,
}

module _ {H : Type 0} (sep : ℕ) (handler : LineHandler H) where
  -- `while (exit_value == TRAMPOLINE)`, with the number of rounds that are left; none if they run out.
  unfoldable pub replays : ℕ → ℤ × LineBuf × H → Option (ℤ × LineBuf × H)
  replays zero (r, b, h) = if eq_ℤ r trampoline then none else some (r, b, h)
  replays (suc k) (r, b, h) =
      let rest = replays k (line_buf_replay sep handler b h) in
      if eq_ℤ r trampoline then rest else some (r, b, h)

-- What `poll_fd` says.
pub data Polled : Type 0 where
  ready go_around sig_interrupt_or_error : Polled

-- One turn of the loop that waits for a client: `accept` and `clock_gettime` come behind `ready`.
pub record Accept : Type 0 where
  pub polled : Polled
  pub accepted : Bool
  pub clock : Option Timespec

-- One turn of the loop that reads: what the other threads do before it, the clock of the tick, the poll,
-- how `init_thread_state` comes out, and the read.
pub record Round (V B : Type 0) : Type 0 where
  pub before : List (Event B)
  pub tick_clock : Option Timespec
  pub polled : Polled
  pub init : Init
  pub read : ℕ → Read

-- How the loops end: by a signal or an error of another thread, with the value of `exit_value`, or by a
-- failure of the set-up that sets the exit status; or not, when the rounds of a `while` loop run out.
pub data Left (V B : Type 0) : Type 0 where
  interrupted : World V B → Left V B
  set_up_failed : World V B → Left V B
  exited : ℤ → World V B → Left V B
  stuck : Left V B

module _ {V B : Type 0} (empty : Bucket B) (n_bits : ℕ) (get_hash_cache_uid : Str → ℕ) where
  module _ (sep thread_index max_idle_time_us : ℕ) where
    -- The loop that reads; none while it has not ended.
    unfoldable pub read_loop : List (Round V B) → LineBuf → World V B → Option (Left V B)
    read_loop [] b w = none
    read_loop (r ∷ rounds) b w =
        let w₁ =
          on_server (tick_handler thread_index max_idle_time_us r.tick_clock empty)
            (on_server (happen empty r.before) w) in
        elim r.polled [
          | go_around ↦ read_loop rounds b w₁
          | sig_interrupt_or_error ↦ some (interrupted w₁)
          | ready ↦
              (let handler = world_handler empty n_bits get_hash_cache_uid in
                let read =
                  line_buf_read sep handler b r.read (on_server (reinitialize r.init) w₁) in
                elim (replays sep handler b.size read) [
                  | none ↦ some stuck
                  | some out ↦
                      (let rest = read_loop rounds out.1 out.2 in
                        if is_neg out.0 then some (exited out.0 out.2) else rest)
                ])
        ]

    -- The loop that waits for a client, and then the loop that reads, with an empty line buffer.
    unfoldable pub accept_loop :
        List Accept → List (Round V B) → LineBuf → World V B → Option (Left V B)
    accept_loop [] rounds b w = none
    accept_loop (a ∷ accepts) rounds b w =
        let rest = accept_loop accepts rounds b w in
        elim a.polled [
          | go_around ↦ rest
          | sig_interrupt_or_error ↦ some (interrupted w)
          | ready ↦
              (if not a.accepted then some (set_up_failed w) else (elim a.clock [
                | none ↦ some (set_up_failed w)
                | some now ↦ read_loop rounds b (
                    update_stack_top
                      (on_server (λ s. record s { ts = record s.ts { last_active_time = now } }) w))
              ]))
        ]

-- A call of `wait_group_inc`, which takes one from `n_remaining` before anything in it can fail.
abbrev pub wait_group_inc : ℕ → ℕ
wait_group_inc n_incs = suc n_incs

-- What a thread leaves at its end: its state, and how often the threads have called `wait_group_inc`.
pub record Ended (V B : Type 0) : Type 0 where
  pub world : World V B
  pub n_incs : ℕ

module _ {V B : Type 0} where
  -- `ts->exit_status = -1`
  abbrev pub with_failure : World V B → World V B
  with_failure w = on_server (λ s. record s { ts = record s.ts { exit_status = negsuc 0 } }) w

  -- The end of `command_loop`, at `error_no_inc`.
  abbrev pub error_no_inc : World V B → World V B
  error_no_inc w = on_server (λ s. record s { interrupted_or_error = true }) w

  -- The end of `command_loop`, at `error`.
  abbrev pub error : ℕ → World V B → Ended V B
  error n_incs w = record { world = error_no_inc w; n_incs = wait_group_inc n_incs }

  -- Behind the loops: which values of `exit_value` are failures.
  unfoldable pub leave : Left V B → World V B
  leave (interrupted w) = error_no_inc w
  leave (set_up_failed w) = error_no_inc (with_failure w)
  leave (exited r w) =
      error_no_inc
        (if not (eq_ℤ r read_eof) && not (eq_ℤ r exit_on_quit_command) then with_failure w else w)
  leave stuck = unanswered

  module _ (empty : Bucket B) (n_bits : ℕ) (get_hash_cache_uid : Str → ℕ) where
    -- `command_loop`, with the results of `initialize_and_listen_on_unix_socket` and of the first call of
    -- `wait_group_inc`, the calls of it so far, and the size of the input buffer; none while it has not
    -- ended.
    unfoldable pub command_loop :
        ℕ
        → ℕ
        → ℕ
        → Bool
        → Bool
        → ℕ
        → ℕ
        → List Accept
        → List (Round V B)
        → World V B
        → Option (Ended V B)
    command_loop sep thread_index max_idle_time_us listens counts n_incs size accepts rounds w =
        if not listens
        then some (error n_incs (with_failure w))
        else (if not counts
            then some
                (record { world = error_no_inc (with_failure w); n_incs = wait_group_inc n_incs })
            else (let b : LineBuf = record {
              buf = replicate size 0;
              size = size;
              start = 0;
              afsep = 0;
              truncated = false;
              n = pos 0;
            } in
                elim (accept_loop empty n_bits get_hash_cache_uid sep thread_index max_idle_time_us
                  accepts rounds b w) [
                    | none ↦ none
                    | some l ↦ some (record { world = leave l; n_incs = wait_group_inc n_incs })
                  ]))
