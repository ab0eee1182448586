-- ===== src/Server/Invariant.antt =====
-- An invariant of the state of a thread (jsockd_server/src/main.c): the handlers of its lines keep it.
use jsockd.Prelude.{
  ℕ, ◌+◌, ◌%◌, ◌≤◌, ◌<◌, ◌≡◌, ◌≢◌, refl, ◌++◌, Bool, true, false, Option, some, none, length,
  if◌then◌else◌, arith,
}
use jsockd.Prelude.Int.{ℤ, negsuc}
use jsockd.CmdArgs.CString.{Str, lit}
use jsockd.HashCache.{Bucket}
use jsockd.Time.{Timespec, ns_time_diff}
use jsockd.Server.State.{
  Replacement, idle, init, init_complete, cleanup, cleanup_complete, is_idle, Called, threw,
  not_serializable, unserializable, returned, ThreadState, Server, Answers, trampoline,
  cleanup_command_state, write_to_stream, io_result,
}
use jsockd.Server.Lines.{
  reply, reply_and_end, start_reset, check_memory, after_answer, answer, run_query,
  handle_line_3_parameter_helper, handle_line_3_parameter,
}

pub choose : {A : Type 0} (P : A → Type 0) (b : Bool) {x y : A} → P x → P y → P (if b then x else y)
choose P true p q = p
choose P false p q = q

pub false-true : {b : Bool} → b ≡ false → b ≡ true → ⊥
false-true p q = cc

module _ {V B : Type 0} where
  -- The counters of a thread state are within their bounds.
  pub record IsThread (ts : ThreadState V B) : Type 0 where
    pub line_bound : ts.line_n ≤ 2
    pub uuid_bound : length ts.current_uuid ≤ 32
    pub checks_bound : ts.memory_check_count < 100

  -- What is known of the replacement in each of its states: a thread that can be joined exists outside
  -- of the first state, and a replacement exists from its initialization to its clean-up.
  abbrev pub Replaced : Replacement → Option (ThreadState V B) → Bool → Type 0
  Replaced idle m joinable = Unit
  Replaced init m joinable = joinable ≡ true
  Replaced init_complete none joinable = ⊥
  Replaced init_complete (some r) joinable =
      (joinable ≡ true) × (r.running ≡ true) × (r.line_n ≡ 0) × IsThread r
  Replaced cleanup none joinable = ⊥
  Replaced cleanup (some r) joinable = joinable ≡ true
  Replaced cleanup_complete m joinable = joinable ≡ true

  pub record IsValid (s : Server V B) : Type 0 where
    pub thread : IsThread s.ts
    pub replacement : Replaced s.replacement_thread_state s.my_replacement s.joinable
    pub down : s.ts.running ≡ false → is_idle s.replacement_thread_state ≡ true

  -- The result of a handler that does not swap the thread states.
  abbrev pub Good : ℤ × Server V B → Type 0
  Good p = IsValid p.1 × (p.0 ≢ trampoline)

  pub io_result-trampoline : (s : Server V B) → io_result s ≢ trampoline
  io_result-trampoline s = ground arith

  module _ (a : Answers V B) where
    pub write_to_stream-IsValid :
        (text : Str) (s : Server V B) → IsValid s → IsValid (write_to_stream a text s)
    unfolding write_to_stream
    write_to_stream-IsValid text s v =
        choose IsValid a.write_succeeds
          (record { thread = v.thread; replacement = v.replacement; down = v.down })
          (record { thread = v.thread; replacement = v.replacement; down = v.down })

    write-running :
        (text : Str) (s : Server V B)
        → s.ts.running ≡ true
        → (write_to_stream a text s).ts.running ≡ true
    unfolding write_to_stream
    write-running text s h = choose (λ (x : Server V B). x.ts.running ≡ true) a.write_succeeds h h

    pub reply_and_end-Good :
        (text : Str) (s : Server V B) → IsValid s → Good (reply_and_end a text s)
    reply_and_end-Good text s v = (
      write_to_stream-IsValid (s.ts.current_uuid ++ text) s v,
      io_result-trampoline (reply a text s),
    )

    start_reset-Good : (s : Server V B) → IsValid s → s.ts.running ≡ true → Good (start_reset a s)
    unfolding start_reset
    start_reset-Good s v h =
        choose Good a.create_succeeds
          (
            record {
              thread = record {
                line_bound = v.thread.line_bound;
                uuid_bound = v.thread.uuid_bound;
                checks_bound = v.thread.checks_bound;
              };
              replacement = refl;
              down = λ e. absurd (false-true e h);
            },
            io_result-trampoline s,
          )
          (record { thread = v.thread; replacement = tt; down = λ e. refl }, ground arith)

    counters :
        (s : Server V B) (usage : ℤ) (n m : ℕ)
        → IsValid s
        → IsValid (record s {
          ts = record s.ts {
            last_memory_usage = usage;
            last_n_cached_functions = n;
            memory_increase_count = m;
          };
        })
    counters s usage n m v = record {
      thread = record {
        line_bound = v.thread.line_bound;
        uuid_bound = v.thread.uuid_bound;
        checks_bound = v.thread.checks_bound;
      };
      replacement = v.replacement;
      down = v.down;
    }

    check_memory-Good : (s : Server V B) → IsValid s → s.ts.running ≡ true → Good (check_memory a s)
    unfolding check_memory
    check_memory-Good s v h =
        choose Good _
          (choose Good _ (start_reset-Good _ (counters s _ _ _ v) h)
            (counters s _ _ _ v, io_result-trampoline s))
          (counters s _ _ _ v, io_result-trampoline s)

    after_answer-Good : (s : Server V B) → IsValid s → s.ts.running ≡ true → Good (after_answer a s)
    unfolding after_answer
    after_answer-Good s v h =
        choose Good _ (check_memory-Good _ counted h) (counted, io_result-trampoline s)
      where
        counted : IsValid (record s {
          ts = record s.ts { memory_check_count = (s.ts.memory_check_count + 1) % 100 };
        })
        counted = record {
          thread = record {
            line_bound = v.thread.line_bound;
            uuid_bound = v.thread.uuid_bound;
            checks_bound = omega arith;
          };
          replacement = v.replacement;
          down = v.down;
        }

    run_query-Good :
        (start : Timespec) (c : Called) (s : Server V B)
        → IsValid s
        → s.ts.running ≡ true
        → Good (run_query a start c s)
    unfolding run_query answer
    run_query-Good start (threw bt) s v h = reply_and_end-Good _ s v
    run_query-Good start not_serializable s v h = reply_and_end-Good _ s v
    run_query-Good start unserializable s v h = reply_and_end-Good _ s v
    run_query-Good start (returned text) s v h = after a.clock_end
      where
        after :
            (o : Option Timespec)
            → Good (elim o [
              | none ↦ (negsuc 0, s)
              | some now ↦ after_answer a (
                  reply a (lit " ok " ++ (text ++ lit "\n")) (record s {
                    ts = record s.ts { last_command_exec_time_ns = ns_time_diff now start };
                  }))
            ])
        after none = (v, ground arith)
        after (some now) =
            after_answer-Good _
              (write_to_stream-IsValid _ _ (record {
                thread = record {
                  line_bound = v.thread.line_bound;
                  uuid_bound = v.thread.uuid_bound;
                  checks_bound = v.thread.checks_bound;
                };
                replacement = v.replacement;
                down = v.down;
              }))
              (write-running _ _ h)

    handle_line_3_parameter_helper-Good :
        (s : Server V B) (line : Str)
        → IsValid s
        → s.ts.running ≡ true
        → Good (handle_line_3_parameter_helper a s line)
    unfolding handle_line_3_parameter_helper
    handle_line_3_parameter_helper-Good s line v h =
        choose Good _ (reply_and_end-Good _ s v) (after a.clock_start)
      where
        started :
            (start : Timespec)
            → IsValid (record s { ts = record s.ts { last_js_execution_start = start } })
        started start = record {
          thread = record {
            line_bound = v.thread.line_bound;
            uuid_bound = v.thread.uuid_bound;
            checks_bound = v.thread.checks_bound;
          };
          replacement = v.replacement;
          down = v.down;
        }

        after :
            (o : Option Timespec)
            → Good (elim o [
              | none ↦ (negsuc 0, s)
              | some start ↦
                  (let s' = record s { ts = record s.ts { last_js_execution_start = start } } in
                    if a.parses line
                    then run_query a start (a.call s.ts.compiled_query line) s'
                    else reply_and_end a (lit " exception \"JSON input parse error\"\n") s')
            ])
        after none = (v, ground arith)
        after (some start) =
            choose Good _ (run_query-Good start _ _ (started start) h)
              (reply_and_end-Good _ _ (started start))

    pub handle_line_3_parameter-Good :
        (empty : Bucket B) (s : Server V B) (line : Str)
        → IsValid s
        → s.ts.running ≡ true
        → Good (handle_line_3_parameter a empty s line)
    unfolding handle_line_3_parameter cleanup_command_state
    handle_line_3_parameter-Good empty s line v h =
        let g = handle_line_3_parameter_helper-Good s line v h in
        (
          record {
            thread = record {
              line_bound = omega arith;
              uuid_bound = g.0.thread.uuid_bound;
              checks_bound = g.0.thread.checks_bound;
            };
            replacement = g.0.replacement;
            down = g.0.down;
          },
          g.1,
        )
