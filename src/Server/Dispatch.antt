-- ===== src/Server/Dispatch.antt =====
-- `line_handler` (jsockd_server/src/main.c) keeps the invariant, on every line.
use jsockd.Prelude.{
  ℕ, ◌+◌, ◌≤◌, ◌≡◌, ◌++◌, Bool, true, false, ◌==◌, Option, some, none, if◌then◌else◌, Bool-cases,
  inl, inr, arith,
}
use jsockd.Prelude.Int.{pos, negsuc}
use jsockd.CmdArgs.CString.{Str, lit, same}
use jsockd.HashCache.{Bucket}
use jsockd.Time.{Timespec}
use jsockd.Server.State.{Query, Server, Answers, cleanup_command_state, write_to_stream}
use jsockd.Server.Lines.{c_str}
use jsockd.Server.{
  truncated_line, quit, reset, exectime, memusage, command_line, whole_line, line_handler,
  starts_with_question,
}
use jsockd.Server.Invariant.{IsValid, choose, write_to_stream-IsValid, handle_line_3_parameter-Good}
use jsockd.Server.FirstLines.{
  Kept, Good-Kept, handle_line_1_message_uid-Kept, handle_line_2_query-Good,
}

module _ {V B : Type 0} where
  module _ (a : Answers V B) where
    write-Kept :
        (text : Str) (s : Server V B)
        → IsValid s
        → Kept s.replacement_thread_state (some (pos 0, write_to_stream a text s))
    write-Kept text s v = (write_to_stream-IsValid a text s v, λ e. absurd (ground (arith, e)))

    truncated_line-Kept :
        (s : Server V B) → IsValid s → Kept s.replacement_thread_state (some (truncated_line a s))
    unfolding truncated_line
    truncated_line-Kept s v = elim (Bool-cases (s.ts.line_n == 2)) [
      | inl e ↦
          rw e (
            write_to_stream-IsValid a _ _ (at_line 0 (omega arith)),
            λ e. absurd (ground (arith, e)),
          )
      | inr e ↦ rw e (
        at_line (s.ts.line_n + 1) (ground (arith, e, v.thread.line_bound)),
        λ e. absurd (ground (arith, e)),
      )
    ]
      where
        at_line :
            (n : ℕ)
            → {t : Bool} → {q : Query V} → n ≤ 2
            → IsValid
                (record s { ts = record s.ts { truncated = t; line_n = n; compiled_query = q } })
        at_line n h = record {
          thread = record {
            line_bound = h;
            uuid_bound = v.thread.uuid_bound;
            checks_bound = v.thread.checks_bound;
          };
          replacement = v.replacement;
          down = v.down;
        }

    quit-Kept : (s : Server V B) → IsValid s → Kept s.replacement_thread_state (some (quit a s))
    unfolding quit
    quit-Kept s v = (
      write_to_stream-IsValid a _ _ (record {
        thread = record {
          line_bound = v.thread.line_bound;
          uuid_bound = v.thread.uuid_bound;
          checks_bound = v.thread.checks_bound;
        };
        replacement = v.replacement;
        down = v.down;
      }),
      λ e. absurd (ground (arith, e)),
    )

    reset-Kept :
        (empty : Bucket B) (s : Server V B)
        → IsValid s
        → Kept s.replacement_thread_state (some (reset a empty s))
    unfolding reset cleanup_command_state
    reset-Kept empty s v = write-Kept _ _ (record {
      thread = record {
        line_bound = omega arith;
        uuid_bound = v.thread.uuid_bound;
        checks_bound = v.thread.checks_bound;
      };
      replacement = v.replacement;
      down = v.down;
    })

    memusage-Kept :
        (s : Server V B)
        → IsValid s
        → Kept {V = V} {B = B} s.replacement_thread_state (some (memusage a s))
    unfolding memusage
    memusage-Kept s v = after a.format_memusage
      where
        after :
            (o : Option Str)
            → Kept {V = V} {B = B} s.replacement_thread_state (
                some (elim o [
                  | none ↦ (pos 0, write_to_stream a (lit "error: failed to format memusage\n") s)
                  | some text ↦ (pos 0, write_to_stream a (text ++ lit "\n") s)
                ]))
        after none = write-Kept _ s v
        after (some text) = write-Kept _ s v

    module _ (empty : Bucket B) (n_bits : ℕ) (get_hash_cache_uid : Str → ℕ) where
      command_line-Kept :
          (s : Server V B) (line : Str)
          → IsValid s
          → s.ts.running ≡ true
          → Kept s.replacement_thread_state (command_line a empty n_bits get_hash_cache_uid s line)
      unfolding command_line
      command_line-Kept s line v h = elim (Bool-cases (s.ts.line_n == 0)) [
        | inl e ↦ rw e (handle_line_1_message_uid-Kept a s line v (ground (arith, e)))
        | inr e ↦ rw e (elim (Bool-cases (s.ts.line_n == 1)) [
          | inl e' ↦ rw e' (
              Good-Kept _ _ (
                handle_line_2_query-Good a empty n_bits get_hash_cache_uid s line v
                  (ground (arith, e'))))
          | inr e' ↦ rw e' (
              choose (Kept s.replacement_thread_state) (s.ts.line_n == 2)
                (Good-Kept _ _ (handle_line_3_parameter-Good a empty s line v h))
                (v, λ x. absurd (ground (arith, x))))
        ])
      ]

      whole_line-Kept :
          (s : Server V B) (line : Str)
          → IsValid s
          → s.ts.running ≡ true
          → Kept s.replacement_thread_state (whole_line a empty n_bits get_hash_cache_uid s line)
      unfolding whole_line exectime
      whole_line-Kept s line v h =
          ladder (same (lit "?quit") (c_str line)) (same (lit "?reset") (c_str line))
            (same (lit "?exectime") (c_str line)) (same (lit "?memusage") (c_str line))
            (starts_with_question line)
        where
          ladder :
              (b1 b2 b3 b4 b5 : Bool)
              → Kept s.replacement_thread_state (
                  if b1
                  then some (quit a s)
                  else (if b2
                      then some (reset a empty s)
                      else (if b3
                          then some (exectime a s)
                          else (if b4
                              then some (memusage a s)
                              else (if b5
                                  then some (pos 0, write_to_stream a (lit "bad command\n") s)
                                  else command_line a empty n_bits get_hash_cache_uid s line)))))
          ladder true b2 b3 b4 b5 = quit-Kept s v
          ladder false true b3 b4 b5 = reset-Kept empty s v
          ladder false false true b4 b5 =
              write-Kept (a.format_int s.ts.last_command_exec_time_ns ++ lit "\n") s v
          ladder false false false true b5 = memusage-Kept s v
          ladder false false false false true = write-Kept (lit "bad command\n") s v
          ladder false false false false false = command_line-Kept s line v h

      -- On any line, and whatever the engine, the clock and the system answer, `line_handler` follows
      -- no null pointer and keeps the invariant of a running thread; it asks for the trampoline only
      -- where it has swapped the thread states, and has the old one cleaned up.
      pub line_handler-Kept :
          (s : Server V B) (line : Str) (truncated : Bool)
          → IsValid s
          → s.ts.running ≡ true
          → Kept s.replacement_thread_state
              (line_handler a empty n_bits get_hash_cache_uid s line truncated)
      unfolding line_handler
      line_handler-Kept s line truncated v h = after a.clock
        where
          after :
              (o : Option Timespec)
              → Kept s.replacement_thread_state (elim o [
                | none ↦ some (negsuc 0, s)
                | some now ↦
                    (let s' = record s { ts = record s.ts { last_active_time = now } } in
                      if truncated
                      then some (truncated_line a s')
                      else whole_line a empty n_bits get_hash_cache_uid s' line)
              ])
          after none = (v, λ e. absurd (ground (arith, e)))
          after (some now) =
              let v' : IsValid (record s { ts = record s.ts { last_active_time = now } }) = record {
                thread = record {
                  line_bound = v.thread.line_bound;
                  uuid_bound = v.thread.uuid_bound;
                  checks_bound = v.thread.checks_bound;
                };
                replacement = v.replacement;
                down = v.down;
              } in
              choose (Kept s.replacement_thread_state) truncated (truncated_line-Kept _ v')
                (whole_line-Kept _ line v' h)
