-- ===== src/Server/Lines.antt =====
-- The handlers of the three lines of a command (jsockd_server/src/main.c).
use jsockd.Prelude.{
  ℕ, ◌+◌, ◌%◌, ◌++◌, Bool, true, false, ◌&&◌, ◌==◌, leb, ltb, Option, some, none, take, replicate,
  length, get_or, ◌-◌, if◌then◌else◌,
}
use jsockd.Prelude.Int.{ℤ, pos, negsuc, lt_ℤ}
use jsockd.CmdArgs.CString.{Str, lit}
pub use jsockd.CmdArgs.CString.{c_str}
use jsockd.HashCache.{Bucket, get_hash_cache_entry, add_to_hash_cache}
use jsockd.Time.{Timespec, ns_time_diff}
use jsockd.Server.State.{
  idle, init, init_complete, cleanup, cleanup_complete, Query, undefined, exception, loaded, Called,
  threw, not_serializable, unserializable, returned, ThreadState, Server, Answers, Handled,
  trampoline, write_to_stream, cleanup_command_state, io_result, is_idle,
}

-- `MESSAGE_UUID_MAX_BYTES`, `MEMORY_CHECK_INTERVAL` and `MEMORY_INCREASE_MAX_COUNT`
abbrev pub message_uuid_max_bytes : ℕ
message_uuid_max_bytes = 32

abbrev pub memory_check_interval : ℕ
memory_check_interval = 100

abbrev pub memory_increase_max_count : ℕ
memory_increase_max_count = 3

-- `strncpy(dst, line, len)`: the `len` bytes of `dst`.
unfoldable pub strncpy : Str → ℕ → Str
strncpy line len = let s = take len (c_str line) in s ++ replicate (len - length s) 0

module _ {V B : Type 0} (a : Answers V B) where
  -- The end of `handle_line_1_message_uid`. A longer identifier is cut.
  unfoldable pub store_uuid : Str → Server V B → ℤ × Server V B
  store_uuid line s =
      let len =
        if ltb message_uuid_max_bytes (length line) then message_uuid_max_bytes else length line in
      (
        pos 0,
        record s { ts = record s.ts { current_uuid = strncpy line len; line_n = s.ts.line_n + 1 } },
      )

  -- The swap of the two thread states, and the start of the thread that cleans the old one up.
  unfoldable pub swap_thread_states : ThreadState V B → Server V B → ℤ × Server V B
  swap_thread_states r s =
      let s' = record s { ts = r; my_replacement = some s.ts } in
      if a.create_succeeds
      then (trampoline, record s' { replacement_thread_state = cleanup; joinable = true })
      else (negsuc 0, record s' { replacement_thread_state = idle; joinable = false })

  -- `handle_line_1_message_uid`
  unfoldable pub handle_line_1_message_uid : Server V B → Str → Handled V B
  handle_line_1_message_uid s line = elim s.replacement_thread_state [
    | init_complete ↦
        (if a.join_succeeds
          then (elim s.my_replacement [ none ↦ none | some r ↦ some (swap_thread_states r s) ])
          else some (negsuc 0, s))
    | cleanup_complete ↦
        (let s' = record s { replacement_thread_state = idle } in
          if a.join_succeeds
          then some (store_uuid line (record s' { joinable = false }))
          else some (negsuc 0, s'))
    | idle ↦ some (store_uuid line s)
    | init ↦ some (store_uuid line s)
    | cleanup ↦ some (store_uuid line s)
  ]

  -- What `handle_line_2_query` leaves in the thread state.
  abbrev pub set_query : Query V → Option B → Option ℕ → Server V B → Server V B
  set_query q dangling in_use s = record s {
    ts = record s.ts {
      compiled_query = q;
      dangling_bytecode = dangling;
      cached_function_in_use = in_use;
      line_n = s.ts.line_n + 1;
    };
  }

  module _ (empty : Bucket B) (n_bits : ℕ) (get_hash_cache_uid : Str → ℕ) where
    -- The end of `handle_line_2_query`, with new bytecode.
    unfoldable pub use_bytecode : B → Str → Server V B → Server V B
    use_bytecode bytecode line s =
        let q = a.func_from_bytecode bytecode in
        elim (add_to_hash_cache empty n_bits (get_hash_cache_uid line) bytecode s.table) [
          | none ↦ set_query q (some bytecode) none s
          | some added ↦
              set_query q s.ts.dangling_bytecode (some added.index)
                (record s { table = added.table })
        ]

    -- `handle_line_2_query`
    unfoldable pub handle_line_2_query : Server V B → Str → ℤ × Server V B
    handle_line_2_query s line =
        elim (get_hash_cache_entry empty n_bits (get_hash_cache_uid line) s.table) [
          | some (j, table) ↦ (
            pos 0,
            set_query (a.func_from_bytecode (get_or table j empty).payload) s.ts.dangling_bytecode
                s.ts.cached_function_in_use (record s { table = table }),
          )
          | none ↦ (elim (a.compile_buf line) [
            | none ↦
                (pos 0, set_query exception s.ts.dangling_bytecode s.ts.cached_function_in_use s)
            | some bytecode ↦ (pos 0, use_bytecode bytecode line s)
          ])
        ]

  -- The start of the thread that makes a new thread state.
  unfoldable pub start_reset : Server V B → ℤ × Server V B
  start_reset s =
      if a.create_succeeds
      then (
        io_result s,
        record s {
          replacement_thread_state = init;
          joinable = true;
          ts = record s.ts { memory_increase_count = 0 };
        },
      )
      else (negsuc 0, record s { replacement_thread_state = idle; joinable = false })

  -- The check of the memory usage in `handle_line_3_parameter_helper`.
  unfoldable pub check_memory : Server V B → ℤ × Server V B
  check_memory s =
      if leb a.n_cached_functions s.ts.last_n_cached_functions
        && lt_ℤ s.ts.last_memory_usage a.memusage
      then (let s' = record s {
        ts = record s.ts {
          last_memory_usage = a.memusage;
          last_n_cached_functions = a.n_cached_functions;
          memory_increase_count = s.ts.memory_increase_count + 1;
        };
      } in
          if ltb memory_increase_max_count s'.ts.memory_increase_count
          then start_reset s'
          else (io_result s', s'))
      else (io_result s, record s { ts = record s.ts { memory_increase_count = 0 } })

  -- The end of `handle_line_3_parameter_helper`, behind the answer.
  unfoldable pub after_answer : Server V B → ℤ × Server V B
  after_answer s =
      let count = (s.ts.memory_check_count + 1) % memory_check_interval in
      let s' = record s { ts = record s.ts { memory_check_count = count } } in
      if count == 0 && is_idle s.replacement_thread_state
      then check_memory s'
      else (io_result s', s')

  -- A reply: the identifier of the command, and the text behind it.
  abbrev pub reply : Str → Server V B → Server V B
  reply text s = write_to_stream a (s.ts.current_uuid ++ text) s

  -- The reply, and the result of a handler that ends with it.
  abbrev pub reply_and_end : Str → Server V B → ℤ × Server V B
  reply_and_end text s = let s' = reply text s in (io_result s', s')

  abbrev pub or_empty_object : Option Str → Str
  or_empty_object none = lit "{}"
  or_empty_object (some bt) = bt

  -- The end of `handle_line_3_parameter_helper` for a result.
  unfoldable pub answer : Timespec → Str → Server V B → ℤ × Server V B
  answer start text s = elim a.clock_end [
    | none ↦ (negsuc 0, s)
    | some now ↦ after_answer (
        reply (lit " ok " ++ (text ++ lit "\n"))
          (record s { ts = record s.ts { last_command_exec_time_ns = ns_time_diff now start } }))
  ]

  -- `handle_line_3_parameter_helper` behind the parsing of the argument.
  unfoldable pub run_query : Timespec → Called → Server V B → ℤ × Server V B
  run_query start (threw bt) s =
      reply_and_end (lit " exception " ++ (or_empty_object bt ++ lit "\n")) s
  run_query start not_serializable s =
      reply_and_end (lit " exception \"error attempting to JSON serialize return value\"\n") s
  run_query start unserializable s =
      reply_and_end (lit " exception \"unserializable return value\"\n") s
  run_query start (returned text) s = answer start text s

  abbrev pub is_exception : Query V → Bool
  is_exception undefined = false
  is_exception exception = true
  is_exception (loaded f) = false

  -- `handle_line_3_parameter_helper`
  unfoldable pub handle_line_3_parameter_helper : Server V B → Str → ℤ × Server V B
  handle_line_3_parameter_helper s line =
      if is_exception s.ts.compiled_query
      then reply_and_end (lit " exception \"error compiling command\"\n") s
      else (elim a.clock_start [
        | none ↦ (negsuc 0, s)
        | some start ↦
            (let s' = record s { ts = record s.ts { last_js_execution_start = start } } in
              if a.parses line
              then run_query start (a.call s.ts.compiled_query line) s'
              else reply_and_end (lit " exception \"JSON input parse error\"\n") s')
      ])

  -- `handle_line_3_parameter`
  unfoldable pub handle_line_3_parameter : Bucket B → Server V B → Str → ℤ × Server V B
  handle_line_3_parameter empty s line =
      let (r, s') = handle_line_3_parameter_helper s line in
      (r, cleanup_command_state empty (record s' { ts = record s'.ts { line_n = 0 } }))
