-- ===== src/Server/References.antt =====
-- The reference to the hash cache that a command takes and gives back (jsockd_server/src/main.c).
use jsockd.Prelude.{
  ℕ, ◌+◌, ◌%◌, ◌≡◌, refl, ap, ap₂, ◌∙◌, List, [], ◌∷◌, ◌++◌, Bool, true, false, ◌&&◌, ◌==◌, ltb,
  leb, Option, some, none, get_or, if◌then◌else◌,
}
use jsockd.Prelude.Int.{ℤ, pos, negsuc, lt_ℤ}
use jsockd.CmdArgs.CString.{Str, lit}
use jsockd.HashCache.{Bucket, get_hash_cache_entry}
use jsockd.Time.{Timespec, ns_time_diff}
use jsockd.Server.State.{
  idle, init, is_idle, Called, threw, not_serializable, unserializable, returned, Server, Answers,
  cleanup_command_state, write_to_stream, io_result, release,
}
use jsockd.Server.Lines.{
  is_exception, or_empty_object, reply, reply_and_end, set_query, handle_line_2_query,
  memory_increase_max_count, start_reset, check_memory, after_answer, answer, run_query,
  handle_line_3_parameter_helper, handle_line_3_parameter,
}

module _ {V B : Type 0} where
  -- The handler has left the cache, and the bucket in use, as they were.
  pub record Untouched (table : List (Bucket B)) (bucket : Option ℕ) (p : ℤ × Server V B)
      : Type 0 where
    pub same_table : p.1.table ≡ table
    pub same_bucket : p.1.ts.cached_function_in_use ≡ bucket

  -- `p` leaves both as they are in `s`.
  abbrev Keeps : Server V B → ℤ × Server V B → Type 0
  Keeps s p = Untouched s.table s.ts.cached_function_in_use p

  if-Untouched :
      (b : Bool) {t : List (Bucket B)} {u : Option ℕ} (p q : ℤ × Server V B)
      → Untouched t u p
      → Untouched t u q
      → Untouched t u (if b then p else q)
  if-Untouched true p q h k = h
  if-Untouched false p q h k = k

  module _ (a : Answers V B) where
    reply_and_end-Keeps : (text : Str) (s : Server V B) → Keeps s (reply_and_end a text s)
    unfolding write_to_stream
    reply_and_end-Keeps text s = branches a.write_succeeds
      where
        branches :
            (b : Bool)
            → Keeps s (
                let s' : Server V B =
                  if b
                  then record s { written = s.written ++ ((s.ts.current_uuid ++ text) ∷ []) }
                  else record s { stream_io_err = true } in
                (io_result s', s'))
        branches true = record { same_table = refl; same_bucket = refl }
        branches false = record { same_table = refl; same_bucket = refl }

    start_reset-Keeps : (s : Server V B) → Keeps s (start_reset a s)
    unfolding start_reset
    start_reset-Keeps s =
        if-Untouched a.create_succeeds
          (
            io_result s,
            record s {
              replacement_thread_state = init;
              joinable = true;
              ts = record s.ts { memory_increase_count = 0 };
            },
          )
          (negsuc 0, record s { replacement_thread_state = idle; joinable = false })
          (record { same_table = refl; same_bucket = refl })
          (record { same_table = refl; same_bucket = refl })

    check_memory-Keeps : (s : Server V B) → Keeps s (check_memory a s)
    unfolding check_memory
    check_memory-Keeps s =
        let t : Server V B = record s {
          ts = record s.ts {
            last_memory_usage = a.memusage;
            last_n_cached_functions = a.n_cached_functions;
            memory_increase_count = s.ts.memory_increase_count + 1;
          };
        } in
        let u : Server V B = record s { ts = record s.ts { memory_increase_count = 0 } } in
        let c = ltb memory_increase_max_count (s.ts.memory_increase_count + 1) in
        if-Untouched
          (leb a.n_cached_functions s.ts.last_n_cached_functions
            && lt_ℤ s.ts.last_memory_usage a.memusage)
          (if c then start_reset a t else (io_result t, t)) (io_result s, u)
          (if-Untouched c (start_reset a t) (io_result t, t) (start_reset-Keeps t)
            (record { same_table = refl; same_bucket = refl }))
          (record { same_table = refl; same_bucket = refl })

    after_answer-Keeps : (s : Server V B) → Keeps s (after_answer a s)
    unfolding after_answer
    after_answer-Keeps s =
        let t : Server V B = record s {
          ts = record s.ts { memory_check_count = (s.ts.memory_check_count + 1) % 100 };
        } in
        if-Untouched
          ((s.ts.memory_check_count + 1) % 100 == 0 && is_idle s.replacement_thread_state)
          (check_memory a t) (io_result t, t) (check_memory-Keeps t)
          (record { same_table = refl; same_bucket = refl })

    run_query-Keeps :
        (start : Timespec) (c : Called) (s : Server V B) → Keeps s (run_query a start c s)
    unfolding run_query answer
    run_query-Keeps start (threw bt) s =
        reply_and_end-Keeps (lit " exception " ++ (or_empty_object a bt ++ lit "\n")) s
    run_query-Keeps start not_serializable s =
        reply_and_end-Keeps (lit " exception \"error attempting to JSON serialize return value\"\n")
          s
    run_query-Keeps start unserializable s =
        reply_and_end-Keeps (lit " exception \"unserializable return value\"\n") s
    run_query-Keeps start (returned text) s = after a.clock_end
      where
        stamped : Timespec → Server V B
        stamped now = record s {
          ts = record s.ts { last_command_exec_time_ns = ns_time_diff now start };
        }

        after :
            (o : Option Timespec)
            → Keeps s (elim o [
              | none ↦ (negsuc 0, s)
              | some now ↦ after_answer a (reply a (lit " ok " ++ (text ++ lit "\n")) (stamped now))
            ])
        after none = record { same_table = refl; same_bucket = refl }
        after (some now) =
            let k = after_answer-Keeps (reply a (lit " ok " ++ (text ++ lit "\n")) (stamped now)) in
            let w = reply_and_end-Keeps (lit " ok " ++ (text ++ lit "\n")) (stamped now) in
            record {
              same_table = k.same_table ∙ w.same_table;
              same_bucket = k.same_bucket ∙ w.same_bucket;
            }

    handle_line_3_parameter_helper-Keeps :
        (s : Server V B) (line : Str) → Keeps s (handle_line_3_parameter_helper a s line)
    unfolding handle_line_3_parameter_helper
    handle_line_3_parameter_helper-Keeps s line =
        if-Untouched (is_exception a s.ts.compiled_query)
          (reply_and_end a (lit " exception \"error compiling command\"\n") s) (begin a.clock_start)
          (reply_and_end-Keeps (lit " exception \"error compiling command\"\n") s)
          (begin-Keeps a.clock_start)
      where
        begun : Timespec → Server V B
        begun now = record s { ts = record s.ts { last_js_execution_start = now } }

        begin : Option Timespec → ℤ × Server V B
        begin o = elim o [
          | none ↦ (negsuc 0, s)
          | some now ↦
              (if a.parses line
                then run_query a now (a.call s.ts.compiled_query line) (begun now)
                else reply_and_end a (lit " exception \"JSON input parse error\"\n") (begun now))
        ]

        begin-Keeps : (o : Option Timespec) → Keeps s (begin o)
        begin-Keeps none = record { same_table = refl; same_bucket = refl }
        begin-Keeps (some now) =
            if-Untouched (a.parses line)
              (run_query a now (a.call s.ts.compiled_query line) (begun now))
              (reply_and_end a (lit " exception \"JSON input parse error\"\n") (begun now))
              (run_query-Keeps now (a.call s.ts.compiled_query line) (begun now))
              (reply_and_end-Keeps (lit " exception \"JSON input parse error\"\n") (begun now))

    handle_line_3_parameter-table :
        (empty : Bucket B) (s : Server V B) (line : Str)
        → (handle_line_3_parameter a empty s line).1.table
          ≡ release empty s.ts.cached_function_in_use s.table
    unfolding handle_line_3_parameter cleanup_command_state
    handle_line_3_parameter-table empty s line =
        let k = handle_line_3_parameter_helper-Keeps s line in
        ap₂ (λ u t. release empty u t) k.same_bucket k.same_table

  module _ (a a' : Answers V B) (empty : Bucket B) (n_bits : ℕ) (get_hash_cache_uid : Str → ℕ) where
    -- The cache after the second and the third line of a command.
    abbrev pub table_after : Server V B → Str → Str → List (Bucket B)
    table_after s query parameter =
        (handle_line_3_parameter a' empty
          (handle_line_2_query a empty n_bits get_hash_cache_uid s query).1 parameter).1.table

    -- A command whose query is in the cache keeps the reference of the lookup: behind the third line,
    -- the cache is as the lookup left it, if no bucket was in use before the command.
    pub table_after_hit :
        (s : Server V B) (query parameter : Str) (j : ℕ) (table : List (Bucket B))
        → s.ts.cached_function_in_use ≡ none
        → get_hash_cache_entry empty n_bits (get_hash_cache_uid query) s.table ≡ some (j, table)
        → table_after s query parameter ≡ table
    unfolding release handle_line_2_query
    table_after_hit s query parameter j table h g =
        handle_line_3_parameter-table a' empty
          (handle_line_2_query a empty n_bits get_hash_cache_uid s query).1 parameter
        ∙ ap (λ (p : ℤ × Server V B). release empty p.1.ts.cached_function_in_use p.1.table) second
        ∙ ap (λ u. release empty u table) h
      where
        second : handle_line_2_query a empty n_bits get_hash_cache_uid s query ≡ (
          pos 0,
          set_query a
              (a.func_from_bytecode (get_or table j empty).payload)
              s.ts.dangling_bytecode
              s.ts.cached_function_in_use
              (record s { table = table }),
        )
        second = rw (g, handle_line_2_query) refl
