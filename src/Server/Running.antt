-- ===== src/Server/Running.antt =====
-- The lines, and whether the thread state runs (jsockd_server/src/main.c).
use jsockd.Prelude.{ℕ, ◌++◌, ◌≡◌, Bool, true, false, ◌==◌, Option, some, none, if◌then◌else◌, arith}
use jsockd.Prelude.Int.{ℤ, pos, negsuc}
use jsockd.CmdArgs.CString.{Str, lit, same, c_str}
use jsockd.HashCache.{Bucket}
use jsockd.Time.{Timespec, ns_time_diff}
use jsockd.Server.State.{
  Replacement, idle, init, init_complete, cleanup, cleanup_complete, Handled, ThreadState, Called,
  threw, not_serializable, unserializable, returned, Server, Answers, write_to_stream,
  cleanup_command_state,
}
use jsockd.Server.Lines.{
  store_uuid, swap_thread_states, handle_line_1_message_uid, use_bytecode, handle_line_2_query,
  start_reset, check_memory, after_answer, answer, run_query, handle_line_3_parameter_helper,
  handle_line_3_parameter, is_exception, reply, reply_and_end,
}
use jsockd.Server.{
  starts_with_question, truncated_line, quit, reset, exectime, memusage, command_line, whole_line,
  line_handler,
}
use jsockd.Server.Invariant.{IsValid, Replaced, choose}

module _ {V B : Type 0} where
  abbrev pub Up : ℤ × Server V B → Type 0
  Up p = p.1.ts.running ≡ true

  abbrev pub Ups : Handled V B → Type 0
  Ups none = Unit
  Ups (some p) = Up p

  module _ (a : Answers V B) where
    write-Up :
        (r : ℤ) (text : Str) (s : Server V B)
        → s.ts.running ≡ true
        → Up (r, write_to_stream a text s)
    unfolding write_to_stream
    write-Up r text s h = choose (λ (x : Server V B). x.ts.running ≡ true) a.write_succeeds h h

    after_answer-Up : (s : Server V B) → s.ts.running ≡ true → Up (after_answer a s)
    unfolding after_answer check_memory start_reset
    after_answer-Up s h = ground (arith, h)

    answer-Up :
        (start : Timespec) (text : Str) (s : Server V B)
        → s.ts.running ≡ true
        → Up (answer a start text s)
    unfolding answer
    answer-Up start text s h = after a.clock_end
      where
        after :
            (o : Option Timespec)
            → Up (elim o [
              | none ↦ (negsuc 0, s)
              | some now ↦ after_answer a (
                  reply a (lit " ok " ++ (text ++ lit "\n")) (record s {
                    ts = record s.ts { last_command_exec_time_ns = ns_time_diff now start };
                  }))
            ])
        after none = h
        after (some now) = after_answer-Up _ (write-Up (pos 0) _ _ h)

    run_query-Up :
        (start : Timespec) (c : Called) (s : Server V B)
        → s.ts.running ≡ true
        → Up (run_query a start c s)
    unfolding run_query
    run_query-Up start (threw bt) s h = write-Up (pos 0) _ _ h
    run_query-Up start not_serializable s h = write-Up (pos 0) _ _ h
    run_query-Up start unserializable s h = write-Up (pos 0) _ _ h
    run_query-Up start (returned text) s h = answer-Up start text s h

    helper-Up :
        (s : Server V B) (line : Str)
        → s.ts.running ≡ true
        → Up (handle_line_3_parameter_helper a s line)
    unfolding handle_line_3_parameter_helper
    helper-Up s line h =
        choose Up (is_exception a s.ts.compiled_query) (write-Up (pos 0) _ s h)
          (after a.clock_start)
      where
        after :
            (o : Option Timespec)
            → Up (elim o [
              | none ↦ (negsuc 0, s)
              | some start ↦
                  (let s' = record s { ts = record s.ts { last_js_execution_start = start } } in
                    if a.parses line
                    then run_query a start (a.call s.ts.compiled_query line) s'
                    else reply_and_end a (lit " exception \"JSON input parse error\"\n") s')
            ])
        after none = h
        after (some start) =
            choose Up (a.parses line) (run_query-Up start _ _ h) (write-Up (pos 0) _ _ h)

    line_1-Up :
        (s : Server V B) (line : Str)
        → IsValid s
        → s.ts.running ≡ true
        → Ups (handle_line_1_message_uid a s line)
    unfolding handle_line_1_message_uid store_uuid swap_thread_states
    line_1-Up s line v h = after s.replacement_thread_state s.my_replacement v.replacement
      where
        after :
            (p : Replacement) (m : Option (ThreadState V B))
            → Replaced p m s.joinable
            → Ups (elim p [
              | init_complete ↦
                  (if a.join_succeeds
                    then (elim m [ none ↦ none | some r ↦ some (swap_thread_states a r s) ])
                    else some (negsuc 0, s))
              | cleanup_complete ↦
                  (let s' = record s { replacement_thread_state = idle } in
                    if a.join_succeeds
                    then some (store_uuid a line (record s' { joinable = false }))
                    else some (negsuc 0, s'))
              | idle ↦ some (store_uuid a line s)
              | init ↦ some (store_uuid a line s)
              | cleanup ↦ some (store_uuid a line s)
            ])
        after idle m q = h
        after init m q = h
        after cleanup m q = h
        after cleanup_complete m q = choose Ups a.join_succeeds h h
        after init_complete none q = choose Ups a.join_succeeds tt h
        after init_complete (some r) q =
            choose Ups a.join_succeeds (choose (λ p. Ups (some p)) a.create_succeeds q.1 q.1) h

    module _ (empty : Bucket B) (n_bits : ℕ) (get_hash_cache_uid : Str → ℕ) where
      line_2-Up :
          (s : Server V B) (line : Str)
          → s.ts.running ≡ true
          → Up (handle_line_2_query a empty n_bits get_hash_cache_uid s line)
      unfolding handle_line_2_query use_bytecode
      line_2-Up s line h = ground (arith, h)

      line_3-Up :
          (s : Server V B) (line : Str)
          → s.ts.running ≡ true
          → Up (handle_line_3_parameter a empty s line)
      unfolding handle_line_3_parameter cleanup_command_state
      line_3-Up s line h = helper-Up s line h

      truncated_line-Up : (s : Server V B) → s.ts.running ≡ true → Up (truncated_line a s)
      unfolding truncated_line
      truncated_line-Up s h = choose Up (s.ts.line_n == 2) (write-Up (pos 0) _ _ h) h

      active :
          (s : Server V B) (now : Timespec)
          → IsValid s
          → IsValid (record s { ts = record s.ts { last_active_time = now } })
      active s now v = record {
        thread = record {
          line_bound = v.thread.line_bound;
          uuid_bound = v.thread.uuid_bound;
          checks_bound = v.thread.checks_bound;
        };
        replacement = v.replacement;
        down = v.down;
      }

      command_line-Ups :
          (s : Server V B) (line : Str)
          → IsValid s
          → s.ts.running ≡ true
          → Ups (command_line a empty n_bits get_hash_cache_uid s line)
      unfolding command_line
      command_line-Ups s line v h = choose Ups (s.ts.line_n == 0) (line_1-Up s line v h) (
          choose Ups (s.ts.line_n == 1) (line_2-Up s line h)
            (choose Ups (s.ts.line_n == 2) (line_3-Up s line h) h))

      whole_line-Ups :
          (s : Server V B) (line : Str)
          → IsValid s
          → s.ts.running ≡ true
          → Ups (whole_line a empty n_bits get_hash_cache_uid s line)
      unfolding whole_line quit reset exectime memusage cleanup_command_state
      whole_line-Ups s line v h =
          choose Ups (same (lit "?quit") (c_str line)) (write-Up (pos 0) _ _ h) (
            choose Ups (same (lit "?reset") (c_str line)) (write-Up (pos 0) _ _ h) (
              choose Ups (same (lit "?exectime") (c_str line)) (write-Up (pos 0) _ _ h) (
                choose Ups (same (lit "?memusage") (c_str line)) (usage a.format_memusage) (
                  choose Ups (starts_with_question line) (write-Up (pos 0) _ _ h)
                    (command_line-Ups s line v h)))))
        where
          usage :
              (o : Option Str)
              → Up (elim o [
                | none ↦ (pos 0, write_to_stream a (lit "error: failed to format memusage\n") s)
                | some text ↦ (pos 0, write_to_stream a (text ++ lit "\n") s)
              ])
          usage none = write-Up (pos 0) _ _ h
          usage (some text) = write-Up (pos 0) _ _ h

      pub line_handler-Ups :
          (s : Server V B) (line : Str) (t : Bool)
          → IsValid s
          → s.ts.running ≡ true
          → Ups (line_handler a empty n_bits get_hash_cache_uid s line t)
      unfolding line_handler
      line_handler-Ups s line t v h = after a.clock
        where
          after :
              (o : Option Timespec)
              → Ups (elim o [
                | none ↦ some (negsuc 0, s)
                | some now ↦
                    (let s' = record s { ts = record s.ts { last_active_time = now } } in
                      if t
                      then some (truncated_line a s')
                      else whole_line a empty n_bits get_hash_cache_uid s' line)
              ])
          after none = h
          after (some now) =
              let s' : Server V B = record s { ts = record s.ts { last_active_time = now } } in
              choose Ups t (truncated_line-Up s' h) (whole_line-Ups s' line (active s now v) h)
