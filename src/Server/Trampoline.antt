-- ===== src/Server/Trampoline.antt =====
-- The loop `while (exit_value == TRAMPOLINE)` of `command_loop` (jsockd_server/src/main.c).
use jsockd.Prelude.{
  ℕ, ◌≡◌, ◌≢◌, refl, sym, subst, ◌∙◌, Bool, true, false, Bool-cases, inl, inr, Option, some, none,
}
use jsockd.Prelude.Int.{ℤ}
use jsockd.CmdArgs.CString.{Str}
use jsockd.HashCache.{Bucket}
use jsockd.Server.State.{
  Replacement, idle, init, init_complete, cleanup, cleanup_complete, is_idle, Handled, ThreadState,
  Server, Answers, trampoline, cleanup_thread_state,
}
use jsockd.Server.{line_handler, reset_thread_state_thread, cleanup_old_runtime}
use jsockd.Server.Invariant.{IsValid}
use jsockd.Server.FirstLines.{Kept}
use jsockd.Server.Dispatch.{line_handler-Kept}
use jsockd.Server.Steps.{
  Background, initialized, cleaned, Backgrounds, none_yet, then_one, Background-IsValid,
}

-- The replacement is in use, or its clean-up has begun or ended.
abbrev pub taken_over : Replacement → Bool
taken_over idle = false
taken_over init = false
taken_over init_complete = false
taken_over cleanup = true
taken_over cleanup_complete = true

false-true : false ≡ true → ⊥
false-true e = cc

module _ {V B : Type 0} (empty : Bucket B) where
  pub Background-taken_over :
      {s s' : Server V B}
      → taken_over s.replacement_thread_state ≡ true
      → Background empty s s'
      → taken_over s'.replacement_thread_state ≡ true
  unfolding cleanup_old_runtime
  Background-taken_over {s} h (initialized reading e) =
      absurd (false-true (subst (λ p. taken_over p ≡ true) e h))
  Background-taken_over {s} h (cleaned e) = after s.my_replacement
    where
      after :
          (m : Option (ThreadState V B))
          → taken_over
              (let s' : Server V B = elim m [
                | none ↦ s
                | some old ↦ record s {
                  table = (cleanup_thread_state empty (record s { ts = old })).table;
                  my_replacement = none;
                  replacement_thread_state = cleanup_complete;
                }
              ] in
                s').replacement_thread_state
            ≡ true
      after none = h
      after (some old) = refl

  pub Background-running :
      {s s' : Server V B} → Background empty s s' → s'.ts.running ≡ s.ts.running
  unfolding cleanup_old_runtime reset_thread_state_thread
  Background-running (initialized none e) = refl
  Background-running (initialized (some now) e) = refl
  Background-running {s} (cleaned e) = after s.my_replacement
    where
      after :
          (m : Option (ThreadState V B))
          → (let s' : Server V B = elim m [
            | none ↦ s
            | some old ↦ record s {
              table = (cleanup_thread_state empty (record s { ts = old })).table;
              my_replacement = none;
              replacement_thread_state = cleanup_complete;
            }
          ] in
              s').ts.running
            ≡ s.ts.running
      after none = refl
      after (some old) = refl

  Backgrounds-ready :
      {s s' : Server V B}
      → IsValid s
      → s.ts.running ≡ true
      → taken_over s.replacement_thread_state ≡ true
      → Backgrounds empty s s'
      → IsValid s' × (s'.ts.running ≡ true) × (taken_over s'.replacement_thread_state ≡ true)
  Backgrounds-ready v up h none_yet = (v, up, h)
  Backgrounds-ready v up h (then_one bs b) =
      let ih = Backgrounds-ready v up h bs in
      (Background-IsValid empty ih.0 b, Background-running b ∙ ih.1, Background-taken_over ih.2 b)

  pub up_in_cleanup :
      (s : Server V B) → IsValid s → s.replacement_thread_state ≡ cleanup → s.ts.running ≡ true
  up_in_cleanup s v e = elim (Bool-cases s.ts.running) [
    | inl h ↦ h
    | inr h ↦ absurd (false-true (subst (λ p. is_idle p ≡ true) e (v.down h)))
  ]

  module _ (n_bits : ℕ) (get_hash_cache_uid : Str → ℕ) where
    -- A line is handled without asking for the trampoline.
    abbrev pub Handles : Answers V B → Server V B → Str → Bool → Type 0
    Handles a s text truncated =
        (r : ℤ) × (s' : Server V B) × (line_handler a empty n_bits get_hash_cache_uid s text
            truncated
          ≡ some (r, s'))
        × (r ≢ trampoline)

    pub taken_over-Handles :
        (a : Answers V B) (s : Server V B) (text : Str) (truncated : Bool)
        → IsValid s
        → s.ts.running ≡ true
        → taken_over s.replacement_thread_state ≡ true
        → Handles a s text truncated
    taken_over-Handles a s text truncated v up h =
        after (line_handler a empty n_bits get_hash_cache_uid s text truncated) refl
          (line_handler-Kept a empty n_bits get_hash_cache_uid s text truncated v up)
      where
        after :
            (o : Handled V B)
            → line_handler a empty n_bits get_hash_cache_uid s text truncated ≡ o
            → Kept s.replacement_thread_state o
            → Handles a s text truncated
        after none e k = elim k [ ]
        after (some (r, s')) e k =
            (r, s', e, λ t. false-true (subst (λ p. taken_over p ≡ true) (k.1 t).0 h))

    -- The trampoline is taken at most once in a row: when a line of a running thread is answered by
    -- `TRAMPOLINE`, then after any steps of the background threads the next line, which is the same
    -- one again, is handled and not answered by `TRAMPOLINE`.
    pub line_handler-trampoline :
        (a a' : Answers V B) (s t u : Server V B) (text text' : Str) (truncated truncated' : Bool)
        → IsValid s
        → s.ts.running ≡ true
        → line_handler a empty n_bits get_hash_cache_uid s text truncated ≡ some (trampoline, t)
        → Backgrounds empty t u
        → Handles a' u text' truncated'
    line_handler-trampoline a a' s t u text text' truncated truncated' v up e bs =
        let k : Kept s.replacement_thread_state (some (trampoline, t)) =
          subst (Kept s.replacement_thread_state) e
            (line_handler-Kept a empty n_bits get_hash_cache_uid s text truncated v up) in
        let c = (k.1 refl).1 in
        let ready =
          Backgrounds-ready k.0 (up_in_cleanup t k.0 c)
            (subst (λ p. taken_over p ≡ true) (sym c) refl) bs in
        taken_over-Handles a' u text' truncated' ready.0 ready.1 ready.2
