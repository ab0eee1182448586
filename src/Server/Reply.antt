-- ===== src/Server/Reply.antt =====
-- A command is answered once (jsockd_server/src/main.c).
use jsockd.Prelude.{
  ℕ, ◌+◌, ◌≡◌, refl, ap, ap₂, ◌∙◌, List, [], ◌∷◌, ◌++◌, true, false, ◌==◌, ltb, Option, some, none,
  length, get_or, if◌then◌else◌, arith,
}
use jsockd.Prelude.Int.{ℤ, pos}
use jsockd.CmdArgs.CString.{Str}
use jsockd.HashCache.{Bucket, Added, add_to_hash_cache, get_hash_cache_entry}
use jsockd.Time.{Timespec}
use jsockd.Server.State.{idle, undefined, exception, Server, Answers, cleanup_command_state}
use jsockd.Server.Lines.{
  strncpy, store_uuid, handle_line_1_message_uid, set_query, use_bytecode, handle_line_2_query,
  handle_line_3_parameter,
}
use jsockd.Server.{command_line, line_handler, starts_with_question}
use jsockd.Server.Command.{
  active, line_handler-command_line, Replied, handle_line_3_parameter_helper-Replied,
}

-- The identifier of the command: the first line, cut.
abbrev pub uuid_of : Str → Str
uuid_of line = strncpy line (if ltb 32 (length line) then 32 else length line)

module _ {V B : Type 0} where
  -- After the second line of a command: nothing is written.
  pub record Compiled (s : Server V B) (p : ℤ × Server V B) : Type 0 where
    pub succeeds : p.0 ≡ pos 0
    pub next_line : p.1.ts.line_n ≡ s.ts.line_n + 1
    pub same_uuid : p.1.ts.current_uuid ≡ s.ts.current_uuid
    pub same_written : p.1.written ≡ s.written

  module _ (a : Answers V B) (empty : Bucket B) (n_bits : ℕ) (get_hash_cache_uid : Str → ℕ) where
    use_bytecode-Compiled :
        (s : Server V B) (bytecode : B) (line : Str)
        → Compiled s (pos 0, use_bytecode a empty n_bits get_hash_cache_uid bytecode line s)
    unfolding use_bytecode
    use_bytecode-Compiled s bytecode line =
        after (add_to_hash_cache empty n_bits (get_hash_cache_uid line) bytecode s.table)
      where
        after :
            (o : Option (Added B))
            → Compiled s (
              pos 0,
              elim o [
                | none ↦ set_query a (a.func_from_bytecode bytecode) (some bytecode) none s
                | some added ↦
                    set_query a
                      (a.func_from_bytecode bytecode)
                      s.ts.dangling_bytecode
                      (some added.index)
                      (record s { table = added.table })
              ],
            )
        after none = record {
          succeeds = refl;
          next_line = refl;
          same_uuid = refl;
          same_written = refl;
        }
        after (some added) = record {
          succeeds = refl;
          next_line = refl;
          same_uuid = refl;
          same_written = refl;
        }

    handle_line_2_query-Compiled :
        (s : Server V B) (line : Str)
        → Compiled s (handle_line_2_query a empty n_bits get_hash_cache_uid s line)
    unfolding handle_line_2_query
    handle_line_2_query-Compiled s line =
        after (get_hash_cache_entry empty n_bits (get_hash_cache_uid line) s.table)
      where
        compiled :
            (o : Option B)
            → Compiled s (elim o [
              | none ↦ (
                pos 0,
                set_query a exception s.ts.dangling_bytecode s.ts.cached_function_in_use s,
              )
              | some bytecode ↦
                  (pos 0, use_bytecode a empty n_bits get_hash_cache_uid bytecode line s)
            ])
        compiled none = record {
          succeeds = refl;
          next_line = refl;
          same_uuid = refl;
          same_written = refl;
        }
        compiled (some bytecode) = use_bytecode-Compiled s bytecode line

        after :
            (o : Option (ℕ × List (Bucket B)))
            → Compiled s (elim o [
              | some (j, table) ↦ (
                pos 0,
                set_query a
                    (a.func_from_bytecode (get_or table j empty).payload)
                    s.ts.dangling_bytecode
                    s.ts.cached_function_in_use
                    (record s { table = table }),
              )
              | none ↦ (elim (a.compile_buf line) [
                | none ↦ (
                  pos 0,
                  set_query a exception s.ts.dangling_bytecode s.ts.cached_function_in_use s,
                )
                | some bytecode ↦
                    (pos 0, use_bytecode a empty n_bits get_hash_cache_uid bytecode line s)
              ])
            ])
        after none = compiled (a.compile_buf line)
        after (some (j, table)) = record {
          succeeds = refl;
          next_line = refl;
          same_uuid = refl;
          same_written = refl;
        }

    -- Which handler a line of a command goes to.
    to_line_1 :
        (s : Server V B) (line : Str)
        → s.ts.line_n ≡ 0
        → command_line a empty n_bits get_hash_cache_uid s line ≡ handle_line_1_message_uid a s line
    unfolding command_line
    to_line_1 s line h = let e : (s.ts.line_n == 0) ≡ true = ground (arith, h) in rw e refl

    to_line_2 :
        (s : Server V B) (line : Str)
        → s.ts.line_n ≡ 1
        → command_line a empty n_bits get_hash_cache_uid s line
          ≡ some (handle_line_2_query a empty n_bits get_hash_cache_uid s line)
    unfolding command_line
    to_line_2 s line h =
        let e : (s.ts.line_n == 0) ≡ false = ground (arith, h) in
        let e' : (s.ts.line_n == 1) ≡ true = ground (arith, h) in rw (e, e') refl

    to_line_3 :
        (s : Server V B) (line : Str)
        → s.ts.line_n ≡ 2
        → command_line a empty n_bits get_hash_cache_uid s line
          ≡ some (handle_line_3_parameter a empty s line)
    unfolding command_line
    to_line_3 s line h =
        let e : (s.ts.line_n == 0) ≡ false = ground (arith, h) in
        let e' : (s.ts.line_n == 1) ≡ false = ground (arith, h) in
        let e'' : (s.ts.line_n == 2) ≡ true = ground (arith, h) in rw (e, e', e'') refl

    line_1-idle :
        (s : Server V B) (line : Str)
        → s.replacement_thread_state ≡ idle
        → handle_line_1_message_uid a s line ≡ some (store_uuid a line s)
    unfolding handle_line_1_message_uid
    line_1-idle s line h = rw h refl

  -- Nothing is left of the command.
  pub record IsClear (s : Server V B) : Type 0 where
    pub first_line : s.ts.line_n ≡ 0
    pub no_query : s.ts.compiled_query ≡ undefined
    pub no_bytecode : s.ts.dangling_bytecode ≡ none
    pub no_bucket : s.ts.cached_function_in_use ≡ none

  handle_line_3_parameter-IsClear :
      (a : Answers V B) (empty : Bucket B) (s : Server V B) (line : Str)
      → IsClear (handle_line_3_parameter a empty s line).1
  unfolding handle_line_3_parameter cleanup_command_state
  handle_line_3_parameter-IsClear a empty s line = record {
    first_line = refl;
    no_query = refl;
    no_bytecode = refl;
    no_bucket = refl;
  }

  handle_line_3_parameter-Replied :
      (a : Answers V B) (empty : Bucket B) (s : Server V B) (line : Str) (start end : Timespec)
      → a.write_succeeds ≡ true
      → a.clock_start ≡ some start
      → a.clock_end ≡ some end
      → Replied s.ts.current_uuid s.written (handle_line_3_parameter a empty s line)
  unfolding handle_line_3_parameter cleanup_command_state
  handle_line_3_parameter-Replied a empty s line start end h e e' =
      let p = handle_line_3_parameter_helper-Replied a s line start end h e e' in
      record { text = p.text; one = p.one }

  module _ (empty : Bucket B) (n_bits : ℕ) (get_hash_cache_uid : Str → ℕ) where
    -- The three lines of a command, with the answers to each, and what they leave.
    pub record Answered (a1 a2 a3 : Answers V B) (s : Server V B) (l1 l2 l3 : Str) : Type 0 where
      pub s1 : Server V B
      pub s2 : Server V B
      pub s3 : Server V B
      pub r : ℤ
      pub line_1 : line_handler a1 empty n_bits get_hash_cache_uid s l1 false ≡ some (pos 0, s1)
      pub line_2 : line_handler a2 empty n_bits get_hash_cache_uid s1 l2 false ≡ some (pos 0, s2)
      pub line_3 : line_handler a3 empty n_bits get_hash_cache_uid s2 l3 false ≡ some (r, s3)
      pub replied : Replied (uuid_of l1) s.written (r, s3)
      pub clear : IsClear s3

    -- Each command gets one reply, that begins with its identifier: three lines that are no commands of
    -- the server, sent from the first line on while no replacement is made, are all handled, and
    -- together write one text, whether the query compiles, the argument parses, and the call succeeds,
    -- or not; then nothing is left of the command. The readings of the clock and the write have to
    -- succeed.
    pub line_handler-Answered :
        (a1 a2 a3 : Answers V B) (s : Server V B) (l1 l2 l3 : Str) (t1 t2 t3 start end : Timespec)
        → s.ts.line_n ≡ 0
        → s.replacement_thread_state ≡ idle
        → a1.clock ≡ some t1
        → a2.clock ≡ some t2
        → a3.clock ≡ some t3
        → a3.clock_start ≡ some start
        → a3.clock_end ≡ some end
        → a3.write_succeeds ≡ true
        → starts_with_question l1 ≡ false
        → starts_with_question l2 ≡ false
        → starts_with_question l3 ≡ false
        → Answered a1 a2 a3 s l1 l2 l3
    unfolding store_uuid
    line_handler-Answered a1 a2 a3 s l1 l2 l3 t1 t2 t3 start end h0 hi c1 c2 c3 cs ce hw q1 q2 q3 =
        record {
          s1 = s1;
          s2 = s2;
          s3 = (handle_line_3_parameter a3 empty (active t3 s2) l3).1;
          r = (handle_line_3_parameter a3 empty (active t3 s2) l3).0;
          line_1 =
              line_handler-command_line a1 empty n_bits get_hash_cache_uid s l1 t1 c1 q1
              ∙ to_line_1 a1 empty n_bits get_hash_cache_uid (active t1 s) l1 h0
              ∙ line_1-idle a1 empty n_bits get_hash_cache_uid (active t1 s) l1 hi
              ∙ stored;
          line_2 =
              line_handler-command_line a2 empty n_bits get_hash_cache_uid s1 l2 t2 c2 q2
              ∙ to_line_2 a2 empty n_bits get_hash_cache_uid (active t2 s1) l2 n1
              ∙ ap (λ r. some (r, s2)) second.succeeds;
          line_3 =
              line_handler-command_line a3 empty n_bits get_hash_cache_uid s2 l3 t3 c3 q3
              ∙ to_line_3 a3 empty n_bits get_hash_cache_uid (active t3 s2) l3
                  (omega (arith, second.next_line, n1));
          replied = record {
            text = third.text;
            one =
                third.one
                ∙ ap₂ (λ (w : List Str) (u : Str). w ++ ((u ++ third.text) ∷ []))
                    second.same_written second.same_uuid;
          };
          clear = handle_line_3_parameter-IsClear a3 empty (active t3 s2) l3;
        }
      where
        s1 : Server V B
        s1 = (store_uuid a1 l1 (active t1 s)).1

        stored : some (store_uuid a1 l1 (active t1 s)) ≡ some (pos 0, s1)
        stored = refl

        n1 : s1.ts.line_n ≡ 1
        n1 = omega (arith, h0)

        s2 : Server V B
        s2 = (handle_line_2_query a2 empty n_bits get_hash_cache_uid (active t2 s1) l2).1

        second :
            Compiled
              (active t2 s1)
              (handle_line_2_query a2 empty n_bits get_hash_cache_uid (active t2 s1) l2)
        second = handle_line_2_query-Compiled a2 empty n_bits get_hash_cache_uid (active t2 s1) l2

        third :
            Replied s2.ts.current_uuid s2.written
              (handle_line_3_parameter a3 empty (active t3 s2) l3)
        third = handle_line_3_parameter-Replied a3 empty (active t3 s2) l3 start end hw cs ce
