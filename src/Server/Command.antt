-- ===== src/Server/Command.antt =====
-- The three lines of a command, one after another (jsockd_server/src/main.c).
use jsockd.Prelude.{
  ℕ, ◌+◌, ◌%◌, ◌≡◌, refl, ◌∙◌, List, [], ◌∷◌, ◌++◌, Bool, true, false, ◌&&◌, ◌==◌, ltb, leb, Option,
  some, none, if◌then◌else◌, arith,
}
use jsockd.Prelude.Int.{ℤ, negsuc, lt_ℤ}
use jsockd.CmdArgs.CString.{Str, lit, same}
use jsockd.HashCache.{Bucket}
use jsockd.Time.{Timespec, ns_time_diff}
use jsockd.Server.State.{
  idle, init, is_idle, Called, threw, not_serializable, unserializable, returned, Server, Answers,
  write_to_stream, io_result,
}
use jsockd.Server.Lines.{
  is_exception, c_str, reply, reply_and_end, memory_increase_max_count, start_reset, check_memory,
  after_answer, answer, run_query, handle_line_3_parameter_helper,
}
use jsockd.Server.{command_line, whole_line, line_handler, starts_with_question}

-- A line that is not a command of the server.
same-c_str :
    (rest line : Str) → starts_with_question line ≡ false → same (b'?' ∷ rest) (c_str line) ≡ false
unfolding same
same-c_str rest [] h = refl
same-c_str rest (c ∷ cs) h = ground (arith, h)

none-some : {A : Type 0} {x : A} → none ≡ some x → ⊥
none-some e = cc

module _ {V B : Type 0} where
  -- The state behind the reading of the clock.
  abbrev pub active : Timespec → Server V B → Server V B
  active now s = record s { ts = record s.ts { last_active_time = now } }

  -- What has been written.
  pub record Wrote (texts : List Str) (p : ℤ × Server V B) : Type 0 where
    pub all : p.1.written ≡ texts

  -- The handler has written one reply to the command.
  pub record Replied (uuid : Str) (before : List Str) (p : ℤ × Server V B) : Type 0 where
    pub text : Str
    pub one : p.1.written ≡ before ++ ((uuid ++ text) ∷ [])

  module _ (a : Answers V B) where
    pub line_handler-command_line :
        (empty : Bucket B) (n_bits : ℕ) (uid : Str → ℕ) (s : Server V B) (line : Str)
        (now : Timespec)
        → a.clock ≡ some now
        → starts_with_question line ≡ false
        → line_handler a empty n_bits uid s line false
          ≡ command_line a empty n_bits uid (active now s) line
    unfolding line_handler whole_line
    line_handler-command_line empty n_bits uid s line now e h =
        rw
          (
            e,
            same-c_str (lit "quit") line h,
            same-c_str (lit "reset") line h,
            same-c_str (lit "exectime") line h,
            same-c_str (lit "memusage") line h,
            h,
          )
          refl

    start_reset-Wrote : (s : Server V B) → Wrote s.written (start_reset a s)
    unfolding start_reset
    start_reset-Wrote s = branches a.create_succeeds
      where
        branches :
            (b : Bool)
            → Wrote s.written (
                if b
                then (
                  io_result s,
                  record s {
                    replacement_thread_state = init;
                    joinable = true;
                    ts = record s.ts { memory_increase_count = 0 };
                  },
                )
                else (negsuc 0, record s { replacement_thread_state = idle; joinable = false }))
        branches true = record { all = refl }
        branches false = record { all = refl }

    check_memory-Wrote : (s : Server V B) → Wrote s.written (check_memory a s)
    unfolding check_memory
    check_memory-Wrote s =
        branches
          (leb a.n_cached_functions s.ts.last_n_cached_functions
            && lt_ℤ s.ts.last_memory_usage a.memusage)
          (ltb memory_increase_max_count (s.ts.memory_increase_count + 1))
          (record s {
            ts = record s.ts {
              last_memory_usage = a.memusage;
              last_n_cached_functions = a.n_cached_functions;
              memory_increase_count = s.ts.memory_increase_count + 1;
            };
          })
          (record s { ts = record s.ts { memory_increase_count = 0 } }) refl refl
      where
        branches :
            (b c : Bool) (t u : Server V B)
            → t.written ≡ s.written
            → u.written ≡ s.written
            → Wrote s.written
                (if b then (if c then start_reset a t else (io_result t, t)) else (io_result s, u))
        branches true true t u e e' = record { all = (start_reset-Wrote t).all ∙ e }
        branches true false t u e e' = record { all = e }
        branches false c t u e e' = record { all = e' }

    -- The end of the third line writes nothing.
    after_answer-Wrote : (s : Server V B) → Wrote s.written (after_answer a s)
    unfolding after_answer
    after_answer-Wrote s =
        branches ((s.ts.memory_check_count + 1) % 100 == 0 && is_idle s.replacement_thread_state)
          (record s {
            ts = record s.ts { memory_check_count = (s.ts.memory_check_count + 1) % 100 };
          })
          refl
      where
        branches :
            (b : Bool) (t : Server V B)
            → t.written ≡ s.written
            → Wrote s.written (if b then check_memory a t else (io_result t, t))
        branches true t e = record { all = (check_memory-Wrote t).all ∙ e }
        branches false t e = record { all = e }

    write-written :
        (text : Str) (s : Server V B)
        → a.write_succeeds ≡ true
        → (write_to_stream a text s).written ≡ s.written ++ (text ∷ [])
    unfolding write_to_stream
    write-written text s h = rw h refl

    reply_and_end-Replied :
        (text : Str) (s : Server V B)
        → a.write_succeeds ≡ true
        → Replied s.ts.current_uuid s.written (reply_and_end a text s)
    reply_and_end-Replied text s h = record {
      text = text;
      one = write-written (s.ts.current_uuid ++ text) s h;
    }

    run_query-Replied :
        (start end : Timespec) (c : Called) (s : Server V B)
        → a.write_succeeds ≡ true
        → a.clock_end ≡ some end
        → Replied s.ts.current_uuid s.written (run_query a start c s)
    unfolding run_query answer
    run_query-Replied start end (threw bt) s h e = reply_and_end-Replied _ s h
    run_query-Replied start end not_serializable s h e = reply_and_end-Replied _ s h
    run_query-Replied start end unserializable s h e = reply_and_end-Replied _ s h
    run_query-Replied start end (returned text) s h e = after a.clock_end e
      where
        stamped : Timespec → Server V B
        stamped now = record s {
          ts = record s.ts { last_command_exec_time_ns = ns_time_diff now start };
        }

        after :
            (o : Option Timespec)
            → o ≡ some end
            → Replied s.ts.current_uuid s.written (elim o [
              | none ↦ (negsuc 0, s)
              | some now ↦ after_answer a (reply a (lit " ok " ++ (text ++ lit "\n")) (stamped now))
            ])
        after none e = absurd (none-some e)
        after (some now) e = record {
          text = lit " ok " ++ (text ++ lit "\n");
          one =
              (after_answer-Wrote (reply a (lit " ok " ++ (text ++ lit "\n")) (stamped now))).all
              ∙ write-written (s.ts.current_uuid ++ (lit " ok " ++ (text ++ lit "\n")))
                  (stamped now) h;
        }

    pub handle_line_3_parameter_helper-Replied :
        (s : Server V B) (line : Str) (start end : Timespec)
        → a.write_succeeds ≡ true
        → a.clock_start ≡ some start
        → a.clock_end ≡ some end
        → Replied s.ts.current_uuid s.written (handle_line_3_parameter_helper a s line)
    unfolding handle_line_3_parameter_helper
    handle_line_3_parameter_helper-Replied s line start end h e e' =
        branches (is_exception a s.ts.compiled_query) a.clock_start e
      where
        begun : Timespec → Server V B
        begun now = record s { ts = record s.ts { last_js_execution_start = now } }

        parsed_or :
            (now : Timespec) (b : Bool)
            → Replied s.ts.current_uuid s.written (
                if b
                then run_query a now (a.call s.ts.compiled_query line) (begun now)
                else reply_and_end a (lit " exception \"JSON input parse error\"\n") (begun now))
        parsed_or now true =
            run_query-Replied now end (a.call s.ts.compiled_query line) (begun now) h e'
        parsed_or now false =
            reply_and_end-Replied (lit " exception \"JSON input parse error\"\n") (begun now) h

        branches :
            (b : Bool) (o : Option Timespec)
            → o ≡ some start
            → Replied s.ts.current_uuid s.written (
                if b
                then reply_and_end a (lit " exception \"error compiling command\"\n") s
                else (elim o [
                  | none ↦ (negsuc 0, s)
                  | some now ↦
                      (if a.parses line
                        then run_query a now (a.call s.ts.compiled_query line) (begun now)
                        else reply_and_end a
                            (lit " exception \"JSON input parse error\"\n")
                            (begun now))
                ]))
        branches true o e =
            reply_and_end-Replied (lit " exception \"error compiling command\"\n") s h
        branches false none e = absurd (none-some e)
        branches false (some now) e = parsed_or now (a.parses line)
