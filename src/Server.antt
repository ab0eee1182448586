-- ===== src/Server.antt =====
-- The dispatch of the lines of a client, and the other steps of a thread (jsockd_server/src/main.c).
-- It is the release build: the `?truncated` and `?tsreset` commands of the debug build do not exist,
-- and `assert` checks nothing. A query that sends messages while it runs is not modelled.
pub mod State
pub mod Lines
pub mod Invariant
pub mod FirstLines
pub mod Dispatch
pub mod Steps
pub mod Running
pub mod Trampoline
mod Command
mod Reply
mod References
mod Tests
use jsockd.Prelude.{
  ℕ, zero, suc, ◌+◌, ◌*◌, ◌/◌, ◌++◌, List, [], ◌∷◌, Bool, true, false, not, ◌&&◌, ◌||◌, ◌==◌, leb,
  Option, some, none, if◌then◌else◌,
}
use jsockd.Prelude.Int.{ℤ, pos, negsuc, to_uint64}
use jsockd.CmdArgs.CString.{Str, lit, same}
use jsockd.HashCache.{Bucket}
use jsockd.Time.{Timespec, ns_time_diff}
use jsockd.Server.State.{
  Replacement, init_complete, cleanup_complete, undefined, exception, ThreadState, Server, Answers,
  Handled, exit_on_quit_command, init_thread_state, init_failed, cleanup_command_state,
  cleanup_thread_state, write_to_stream, is_idle,
}
use jsockd.Server.Lines.{
  c_str, reply, handle_line_1_message_uid, handle_line_2_query, handle_line_3_parameter,
}

-- How `init_thread_state` comes out: with the reading of the clock, or without it, or without a runtime of
-- the engine.
pub data Init : Type 0 where
  engine_up : Timespec → Init
  no_clock : Init
  no_runtime : Timespec → Init

-- `line[0] == '?'`
abbrev pub starts_with_question : Str → Bool
starts_with_question [] = false
starts_with_question (c ∷ cs) = c == b'?'

module _ {V B : Type 0} (a : Answers V B) where
  -- The truncated lines of `line_handler`.
  unfoldable pub truncated_line : Server V B → ℤ × Server V B
  truncated_line s =
      if s.ts.line_n == 2
      then (
        pos 0,
        reply a (lit " exception \"jsockd command was too long\"\n") (record s {
          ts = record s.ts { truncated = false; line_n = 0; compiled_query = undefined };
        }),
      )
      else (pos 0, record s { ts = record s.ts { truncated = true; line_n = s.ts.line_n + 1 } })

  -- `?quit`
  unfoldable pub quit : Server V B → ℤ × Server V B
  quit s =
      let s' = record s {
        ts = record s.ts { compiled_query = undefined };
        interrupted_or_error = true;
      } in
      (exit_on_quit_command, write_to_stream a (lit "quit\n") s')

  -- `?reset`
  unfoldable pub reset : Bucket B → Server V B → ℤ × Server V B
  reset empty s =
      let s' = cleanup_command_state empty s in
      (
        pos 0,
        write_to_stream a (lit "reset\n")
            (record s' { ts = record s'.ts { line_n = 0; truncated = false } }),
      )

  -- `?exectime`
  unfoldable pub exectime : Server V B → ℤ × Server V B
  exectime s =
      (pos 0, write_to_stream a (a.format_int s.ts.last_command_exec_time_ns ++ lit "\n") s)

  -- `?memusage`
  unfoldable pub memusage : Server V B → ℤ × Server V B
  memusage s = elim a.format_memusage [
    | none ↦ (pos 0, write_to_stream a (lit "error: failed to format memusage\n") s)
    | some text ↦ (pos 0, write_to_stream a (text ++ lit "\n") s)
  ]

  module _ (empty : Bucket B) (n_bits : ℕ) (get_hash_cache_uid : Str → ℕ) where
    -- The end of `line_handler`: a line of a command.
    unfoldable pub command_line : Server V B → Str → Handled V B
    command_line s line =
        if s.ts.line_n == 0
        then handle_line_1_message_uid a s line
        else (if s.ts.line_n == 1
            then some (handle_line_2_query a empty n_bits get_hash_cache_uid s line)
            else (if s.ts.line_n == 2
                then some (handle_line_3_parameter a empty s line)
                else some (negsuc 0, s)))

    -- The lines of `line_handler` that are not truncated.
    unfoldable pub whole_line : Server V B → Str → Handled V B
    whole_line s line =
        if same (lit "?quit") (c_str line)
        then some (quit s)
        else (if same (lit "?reset") (c_str line)
            then some (reset empty s)
            else (if same (lit "?exectime") (c_str line)
                then some (exectime s)
                else (if same (lit "?memusage") (c_str line)
                    then some (memusage s)
                    else (if starts_with_question line
                        then some (pos 0, write_to_stream a (lit "bad command\n") s)
                        else command_line s line))))

    -- `line_handler`
    unfoldable pub line_handler : Server V B → Str → Bool → Handled V B
    line_handler s line truncated = elim a.clock [
      | none ↦ some (negsuc 0, s)
      | some now ↦
          (let s' = record s { ts = record s.ts { last_active_time = now } } in
            if truncated then some (truncated_line s') else whole_line s' line)
    ]

module _ {V B : Type 0} where
  -- `tick_handler`, with the index of the thread, the setting, and the reading of the clock.
  unfoldable pub tick_handler : ℕ → ℕ → Option Timespec → Bucket B → Server V B → Server V B
  tick_handler thread_index max_idle_time_us reading empty s =
      if thread_index == 0
        || (max_idle_time_us == 0 || (not (s.ts.line_n == 0) || not s.ts.running))
      then s
      else (elim reading [
        | none ↦ s
        | some now ↦
            (if leb max_idle_time_us (to_uint64 (ns_time_diff now s.ts.last_active_time) / 1000)
                && is_idle s.replacement_thread_state
              then cleanup_thread_state empty s
              else s)
      ])

  -- The thread state of `init_thread_state`, with the one before it: a clock that fails does not set
  -- `last_active_time`.
  unfoldable pub started_state : Init → ThreadState V B → ThreadState V B
  started_state (engine_up now) ts = init_thread_state now
  started_state no_clock ts = init_failed ts.last_active_time
  started_state (no_runtime now) ts = init_failed now

  -- The part of `command_loop` that starts a thread state that was shut down, and ignores a failure.
  unfoldable pub reinitialize : Init → Server V B → Server V B
  reinitialize i s = if s.ts.running then s else record s {
    ts = started_state i s.ts;
    my_replacement = none;
    replacement_thread_state = Replacement.idle;
  }

  -- `reset_thread_state_thread` in the background, where `init_thread_state` reads the clock or
  -- fails; nothing reads a replacement that has failed.
  unfoldable pub reset_thread_state_thread : Option Timespec → Server V B → Server V B
  reset_thread_state_thread none s = record s {
    interrupted_or_error = true;
    ts = record s.ts { exit_status = pos 1 };
  }
  reset_thread_state_thread (some now) s = record s {
    my_replacement = some (init_thread_state now);
    replacement_thread_state = init_complete;
  }

  -- `cleanup_old_runtime` in the background: the old thread state gives its reference to the cache
  -- back.
  unfoldable pub cleanup_old_runtime : Bucket B → Server V B → Server V B
  cleanup_old_runtime empty s = elim s.my_replacement [
    | none ↦ s
    | some old ↦ record s {
      table = (cleanup_thread_state empty (record s { ts = old })).table;
      my_replacement = none;
      replacement_thread_state = cleanup_complete;
    }
  ]
