-- ===== src/Server/State.antt =====
-- The state of a thread (`ThreadState` of jsockd_server/src/threadstate.h), with the globals that its
-- lines change, and what the engine, the clock and the system answer while a line is handled.
use jsockd.Prelude.{ℕ, List, [], ◌∷◌, ◌++◌, Bool, true, false, Option, some, none, if◌then◌else◌}
use jsockd.Prelude.Int.{ℤ, pos, negsuc}
use jsockd.CmdArgs.CString.{Str}
use jsockd.HashCache.{Bucket, decrement_refcount}
use jsockd.Time.{Timespec}

-- The values of `replacement_thread_state`.
pub data Replacement : Type 0 where
  idle init init_complete cleanup cleanup_complete : Replacement

abbrev pub is_idle : Replacement → Bool
is_idle idle = true
is_idle init = false
is_idle init_complete = false
is_idle cleanup = false
is_idle cleanup_complete = false

-- The value in `compiled_query`, with the functions `V` of the engine.
pub data Query (V : Type 0) : Type 0 where
  undefined exception : Query V
  loaded : V → Query V

-- What becomes of a call of the query: an exception with its backtrace, if there is one; a result
-- that JSON can not take, or takes as undefined; or a result as text.
pub data Called : Type 0 where
  threw : Option Str → Called
  not_serializable unserializable : Called
  returned : Str → Called

module _ (V B : Type 0) where
  -- `ThreadState` without the fields of the replacement; `running` is `rt != NULL`, `B` are the
  -- bytecodes, and `cached_function_in_use` is the index of a bucket.
  pub record ThreadState : Type 0 where
    pub exit_status : ℤ
    pub line_n : ℕ
    pub compiled_query : Query V
    pub last_js_execution_start : Timespec
    pub current_uuid : Str
    pub memory_check_count : ℕ
    pub memory_increase_count : ℕ
    pub last_memory_usage : ℤ
    pub last_n_cached_functions : ℕ
    pub truncated : Bool
    pub last_command_exec_time_ns : ℤ
    pub last_active_time : Timespec
    pub dangling_bytecode : Option B
    pub cached_function_in_use : Option ℕ
    pub running : Bool

  -- The thread and its replacement, the cache, the stream (`written` are the writes that succeeded),
  -- and `g_interrupted_or_error`. `joinable`: `replacement_thread` was created and not joined.
  pub record Server : Type 0 where
    pub ts : ThreadState
    pub my_replacement : Option ThreadState
    pub replacement_thread_state : Replacement
    pub joinable : Bool
    pub table : List (Bucket B)
    pub written : List Str
    pub stream_io_err : Bool
    pub interrupted_or_error : Bool

  -- The answers while one line is handled. `clock` is the reading in `line_handler`, `clock_start`
  -- and `clock_end` are those of the third line.
  pub record Answers : Type 0 where
    pub clock : Option Timespec
    pub clock_start : Option Timespec
    pub clock_end : Option Timespec
    pub join_succeeds : Bool
    pub create_succeeds : Bool
    pub write_succeeds : Bool
    pub compile_buf : Str → Option B
    pub func_from_bytecode : B → Query V
    pub parses : Str → Bool
    pub call : Query V → Str → Called
    pub memusage : ℤ
    pub format_memusage : Option Str
    pub format_int : ℤ → Str
    pub n_cached_functions : ℕ

-- The result of a handler: what it returns and the state, or `none` if it follows a null pointer.
abbrev pub Handled : Type 0 → Type 0 → Type 0
Handled V B = Option (ℤ × Server V B)

-- `TRAMPOLINE`
abbrev pub trampoline : ℤ
trampoline = negsuc 9998

-- `EXIT_ON_QUIT_COMMAND`
abbrev pub exit_on_quit_command : ℤ
exit_on_quit_command = negsuc 998

-- The part of `cleanup_command_state` that gives the reference to the cache back.
unfoldable pub release : {B : Type 0} → Bucket B → Option ℕ → List (Bucket B) → List (Bucket B)
release empty none table = table
release empty (some j) table = decrement_refcount empty j table

module _ {V B : Type 0} where
  -- `init_thread_state` where it succeeds, with the reading of the clock.
  unfoldable pub init_thread_state : Timespec → ThreadState V B
  init_thread_state now = record {
    exit_status = pos 0;
    line_n = 0;
    compiled_query = undefined;
    last_js_execution_start = record { tv_sec = 0; tv_nsec = 0 };
    current_uuid = [];
    memory_check_count = 0;
    memory_increase_count = 0;
    last_memory_usage = pos 0;
    last_n_cached_functions = 1;
    truncated = false;
    last_command_exec_time_ns = pos 0;
    last_active_time = now;
    dangling_bytecode = none;
    cached_function_in_use = none;
    running = true;
  }

  -- `init_thread_state` where it fails, which leaves the thread without an engine.
  unfoldable pub init_failed : Timespec → ThreadState V B
  init_failed last_active_time =
      let ts = init_thread_state last_active_time in record ts { running = false }

  -- `cleanup_command_state`
  unfoldable pub cleanup_command_state : Bucket B → Server V B → Server V B
  cleanup_command_state empty s = record s {
    ts = record s.ts {
      compiled_query = undefined;
      dangling_bytecode = none;
      cached_function_in_use = none;
    };
    table = release empty s.ts.cached_function_in_use s.table;
  }

  -- `cleanup_thread_state`
  unfoldable pub cleanup_thread_state : Bucket B → Server V B → Server V B
  cleanup_thread_state empty s =
      let s' = cleanup_command_state empty s in
      if s.ts.running then record s' { ts = record s'.ts { running = false } } else s

  -- `write_to_stream` and `writev_to_stream`
  unfoldable pub write_to_stream : Answers V B → Str → Server V B → Server V B
  write_to_stream a text s =
      if a.write_succeeds
      then record s { written = s.written ++ (text ∷ []) }
      else record s { stream_io_err = true }

  -- The value of `stream_io_err` that a handler returns.
  abbrev pub io_result : Server V B → ℤ
  io_result s = if s.stream_io_err then negsuc 0 else pos 0
