-- ===== src/Server/FirstLines.antt =====
-- The first two lines of a command keep the invariant (jsockd_server/src/main.c).
use jsockd.Prelude.{
  ℕ, ◌-◌, ◌≤◌, ◌≡◌, refl, sym, subst, List, true, false, ltb, Option, some, none, length, take,
  get_or, replicate, length-append, length-take, length-replicate, if◌then◌else◌, arith,
}
use jsockd.Prelude.Int.{ℤ, pos, negsuc}
use jsockd.CmdArgs.CString.{Str}
use jsockd.HashCache.{Bucket, Added, add_to_hash_cache, get_hash_cache_entry}
use jsockd.Server.State.{
  Replacement, idle, init, init_complete, cleanup, cleanup_complete, Query, exception, ThreadState,
  Server, Answers, Handled, trampoline,
}
use jsockd.Server.Lines.{
  c_str, strncpy, store_uuid, swap_thread_states, handle_line_1_message_uid, set_query,
  use_bytecode, handle_line_2_query,
}
use jsockd.Server.Invariant.{IsThread, Replaced, IsValid, Good, choose, false-true}

length-strncpy : (line : Str) (n : ℕ) → length (strncpy line n) ≡ n
unfolding strncpy
length-strncpy line n =
    let rest : Str = replicate (n - length (take n (c_str line))) 0 in
    omega (
      arith,
      length-append (take n (c_str line)) rest,
      length-take n (c_str line),
      length-replicate {A = ℕ} (n - length (take n (c_str line))) 0,
    )

cut_bound : (n : ℕ) → (if ltb 32 n then 32 else n) ≤ 32
cut_bound n = ground arith

module _ {V B : Type 0} where
  -- A handler follows no null pointer and keeps the invariant; if it asks for the trampoline, the
  -- thread states have been swapped: `before` is the state of the replacement before the line.
  abbrev pub Kept : Replacement → Handled V B → Type 0
  Kept before none = ⊥
  Kept before (some (r, s)) =
      IsValid s
      × (r ≡ trampoline → (before ≡ init_complete) × (s.replacement_thread_state ≡ cleanup))

  pub Good-Kept : (before : Replacement) (p : ℤ × Server V B) → Good p → Kept before (some p)
  Good-Kept before p g = (g.0, λ e. absurd (g.1 e))

  module _ (a : Answers V B) where
    store_uuid-Good :
        (s : Server V B) (line : Str) → IsValid s → s.ts.line_n ≤ 1 → Good (store_uuid a line s)
    unfolding store_uuid
    store_uuid-Good s line v h = (
      record {
        thread = record {
          line_bound = omega (arith, h);
          uuid_bound =
              subst (λ n. n ≤ 32)
                (sym (length-strncpy line (if ltb 32 (length line) then 32 else length line)))
                (cut_bound (length line));
          checks_bound = v.thread.checks_bound;
        };
        replacement = v.replacement;
        down = v.down;
      },
      ground arith,
    )

    set_query-IsValid :
        (s : Server V B) (q : Query V) (d : Option B) (u : Option ℕ)
        → IsValid s
        → s.ts.line_n ≤ 1
        → IsValid (set_query a q d u s)
    set_query-IsValid s q d u v h = record {
      thread = record {
        line_bound = omega (arith, h);
        uuid_bound = v.thread.uuid_bound;
        checks_bound = v.thread.checks_bound;
      };
      replacement = v.replacement;
      down = v.down;
    }

    with_table :
        (s : Server V B) (t : List (Bucket B)) → IsValid s → IsValid (record s { table = t })
    with_table s t v = record { thread = v.thread; replacement = v.replacement; down = v.down }

    module _ (empty : Bucket B) (n_bits : ℕ) (get_hash_cache_uid : Str → ℕ) where
      use_bytecode-IsValid :
          (s : Server V B) (bytecode : B) (line : Str)
          → IsValid s
          → s.ts.line_n ≤ 1
          → IsValid (use_bytecode a empty n_bits get_hash_cache_uid bytecode line s)
      unfolding use_bytecode
      use_bytecode-IsValid s bytecode line v h =
          after (add_to_hash_cache empty n_bits (get_hash_cache_uid line) bytecode s.table)
        where
          after :
              (o : Option (Added B))
              → IsValid (elim o [
                | none ↦ set_query a (a.func_from_bytecode bytecode) (some bytecode) none s
                | some added ↦
                    set_query a
                      (a.func_from_bytecode bytecode)
                      s.ts.dangling_bytecode
                      (some added.index)
                      (record s { table = added.table })
              ])
          after none = set_query-IsValid s _ _ _ v h
          after (some added) = set_query-IsValid _ _ _ _ (with_table s added.table v) h

      pub handle_line_2_query-Good :
          (s : Server V B) (line : Str)
          → IsValid s
          → s.ts.line_n ≤ 1
          → Good (handle_line_2_query a empty n_bits get_hash_cache_uid s line)
      unfolding handle_line_2_query
      handle_line_2_query-Good s line v h =
          after (get_hash_cache_entry empty n_bits (get_hash_cache_uid line) s.table)
        where
          compiled :
              (o : Option B)
              → Good {V = V} {B = B} (elim o [
                | none ↦ (
                  pos 0,
                  set_query a exception s.ts.dangling_bytecode s.ts.cached_function_in_use s,
                )
                | some bytecode ↦
                    (pos 0, use_bytecode a empty n_bits get_hash_cache_uid bytecode line s)
              ])
          compiled none = (set_query-IsValid s _ _ _ v h, ground arith)
          compiled (some bytecode) = (use_bytecode-IsValid s bytecode line v h, ground arith)

          after :
              (o : Option (ℕ × List (Bucket B)))
              → Good {V = V} {B = B} (elim o [
                | some (j, table) ↦ (
                  pos 0,
                  set_query a
                      (a.func_from_bytecode (get_or table j empty).payload)
                      s.ts.dangling_bytecode
                      s.ts.cached_function_in_use
                      (record s { table = table }),
                )
                | none ↦ (elim (a.compile_buf line) [
                  | none ↦ (
                    pos 0,
                    set_query a exception s.ts.dangling_bytecode s.ts.cached_function_in_use s,
                  )
                  | some bytecode ↦
                      (pos 0, use_bytecode a empty n_bits get_hash_cache_uid bytecode line s)
                ])
              ])
          after none = compiled (a.compile_buf line)
          after (some (j, table)) =
              (set_query-IsValid _ _ _ _ (with_table s table v) h, ground arith)

    swap_thread_states-Kept :
        (s : Server V B) (r : ThreadState V B)
        → IsThread r
        → r.running ≡ true
        → Kept init_complete (some (swap_thread_states a r s))
    unfolding swap_thread_states
    swap_thread_states-Kept s r t h =
        choose (λ p. Kept init_complete (some p)) a.create_succeeds
          (
            record { thread = t; replacement = refl; down = λ e. absurd (false-true e h) },
            λ e. (refl, refl),
          )
          (
            record { thread = t; replacement = tt; down = λ e. refl },
            λ e. absurd (ground (arith, e)),
          )

    pub handle_line_1_message_uid-Kept :
        (s : Server V B) (line : Str)
        → IsValid s
        → s.ts.line_n ≤ 1
        → Kept s.replacement_thread_state (handle_line_1_message_uid a s line)
    unfolding handle_line_1_message_uid
    handle_line_1_message_uid-Kept s line v h =
        after s.replacement_thread_state s.my_replacement v.replacement
      where
        stored :
            (p : Replacement) (s' : Server V B)
            → IsValid s'
            → s'.ts.line_n ≤ 1
            → Kept p (some (store_uuid a line s'))
        stored p s' v' h' = Good-Kept _ _ (store_uuid-Good s' line v' h')

        after :
            (p : Replacement) (m : Option (ThreadState V B))
            → Replaced p m s.joinable
            → Kept p (elim p [
              | init_complete ↦
                  (if a.join_succeeds
                    then (elim m [ none ↦ none | some r ↦ some (swap_thread_states a r s) ])
                    else some (negsuc 0, s))
              | cleanup_complete ↦
                  (let s' = record s { replacement_thread_state = idle } in
                    if a.join_succeeds
                    then some (store_uuid a line (record s' { joinable = false }))
                    else some (negsuc 0, s'))
              | idle ↦ some (store_uuid a line s)
              | init ↦ some (store_uuid a line s)
              | cleanup ↦ some (store_uuid a line s)
            ])
        after idle m r = stored _ s v h
        after init m r = stored _ s v h
        after init_complete none r = elim r [ ]
        after init_complete (some t) r =
            choose (Kept _) a.join_succeeds (swap_thread_states-Kept s t r.3 r.1)
              (v, λ e. absurd (ground (arith, e)))
        after cleanup m r = stored _ s v h
        after cleanup_complete m r =
            choose (Kept _) a.join_succeeds
              (stored _ _ (record { thread = v.thread; replacement = tt; down = λ e. refl }) h)
              (
                record { thread = v.thread; replacement = tt; down = λ e. refl },
                λ e. absurd (ground (arith, e)),
              )
