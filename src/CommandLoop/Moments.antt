-- ===== src/CommandLoop/Moments.antt =====
-- The thread of `command_loop` (jsockd_server/src/main.c) among the others: its state, and what happens
-- between and during its lines.
use jsockd.Prelude.{
  ℕ, Bool, true, false, not, ◌&&◌, ◌||◌, ◌==◌, if◌then◌else◌, List, [], ◌∷◌, Option, some, none,
}
use jsockd.Prelude.Int.{negsuc}
use jsockd.LineBuf.{LineHandler}
use jsockd.Time.{Timespec}
use jsockd.HashCache.{Bucket}
use jsockd.CmdArgs.CString.{Str, lit, same}
use jsockd.Server.State.{
  idle, init, init_complete, cleanup, cleanup_complete, Query, undefined, exception, loaded, Server,
  Answers,
}
use jsockd.Server.Lines.{c_str}
use jsockd.Server.{
  starts_with_question, line_handler, reset_thread_state_thread, cleanup_old_runtime,
}

-- What other threads do: the background threads of this thread end, or another thread changes the cache.
pub data Event (B : Type 0) : Type 0 where
  made_replacement : Option Timespec → Event B
  cleaned_replacement : Event B
  changed_table : List (Bucket B) → Event B

-- A background thread runs only in the state of the replacement that it was created in.
unfoldable pub happens : {V B : Type 0} → Bucket B → Event B → Server V B → Server V B
happens empty (made_replacement reading) s = elim s.replacement_thread_state [
  | init ↦ reset_thread_state_thread reading s
  | idle ↦ s
  | init_complete ↦ s
  | cleanup ↦ s
  | cleanup_complete ↦ s
]
happens empty cleaned_replacement s = elim s.replacement_thread_state [
  | cleanup ↦ cleanup_old_runtime empty s
  | idle ↦ s
  | init ↦ s
  | init_complete ↦ s
  | cleanup_complete ↦ s
]
happens empty (changed_table table) s = record s { table = table }

unfoldable pub happen : {V B : Type 0} → Bucket B → List (Event B) → Server V B → Server V B
happen empty [] s = s
happen empty (e ∷ es) s = happen empty es (happens empty e s)

-- What happens before a line, and the answers while it is handled.
pub record Moment (V B : Type 0) : Type 0 where
  pub before : List (Event B)
  pub answers : Answers V B

-- The thread with the moments of the lines to come; or it has followed a null pointer, or one to an engine
-- that is freed; or it waits for the answers to a line.
pub data World (V B : Type 0) : Type 0 where
  at : Server V B → List (Moment V B) → World V B
  null_pointer unanswered : World V B

abbrev pub on_server : {V B : Type 0} → (Server V B → Server V B) → World V B → World V B
on_server f (at s moments) = at (f s) moments
on_server f null_pointer = null_pointer
on_server f unanswered = unanswered

abbrev is_some : {A : Type 0} → Option A → Bool
is_some none = false
is_some (some x) = true

abbrev is_exception : {V : Type 0} → Query V → Bool
is_exception undefined = false
is_exception exception = true
is_exception (loaded v) = false

-- `JS_UpdateStackTop(ts->rt)`, which writes to the runtime.
abbrev pub update_stack_top : {V B : Type 0} → World V B → World V B
update_stack_top (at s moments) = if s.ts.running then at s moments else null_pointer
update_stack_top null_pointer = null_pointer
update_stack_top unanswered = unanswered

-- The lines for which `line_handler` calls the engine, with `ts->rt` or `ts->ctx`.
unfoldable pub uses_engine : {V B : Type 0} → Answers V B → Server V B → Str → Bool → Bool
uses_engine a s line truncated =
    is_some a.clock
    && (not truncated
        && (same (lit "?memusage") (c_str line)
            || (not (starts_with_question line)
                && (s.ts.line_n == 1
                    || (s.ts.line_n == 2
                        && (not (is_exception s.ts.compiled_query) && is_some a.clock_start))))))

module _ {V B : Type 0} (empty : Bucket B) (n_bits : ℕ) (get_hash_cache_uid : Str → ℕ) where
  -- `command_loop_line_handler_wrapper`. A thread without an engine, whose start has failed, has no
  -- `ts->rt`, and `ts->ctx` is that of the engine which was shut down.
  unfoldable pub world_handler : LineHandler (World V B)
  world_handler line truncated (at s (m ∷ moments)) =
      let s' = happen empty m.before s in
      if not s'.ts.running && uses_engine m.answers s' line truncated
      then (negsuc 0, null_pointer)
      else (elim (line_handler m.answers empty n_bits get_hash_cache_uid s' line truncated) [
        | none ↦ (negsuc 0, null_pointer)
        | some out ↦ (out.0, at out.1 moments)
      ])
  world_handler line truncated (at s []) = (negsuc 0, unanswered)
  world_handler line truncated null_pointer = (negsuc 0, null_pointer)
  world_handler line truncated unanswered = (negsuc 0, unanswered)
