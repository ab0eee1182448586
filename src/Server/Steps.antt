-- ===== src/Server/Steps.antt =====
-- The steps of a thread and of its background threads (jsockd_server/src/main.c), in any order.
use jsockd.Prelude.{
  ℕ, ◌/◌, ◌⊎◌, ◌≡◌, refl, subst, List, [], Bool, true, false, not, ◌&&◌, ◌||◌, ◌==◌, Option, some,
  none, leb, if◌then◌else◌, inl, inr, Bool-cases, arith,
}
use jsockd.Prelude.Int.{ℤ, to_uint64}
use jsockd.CmdArgs.CString.{Str}
use jsockd.HashCache.{Bucket}
use jsockd.Time.{Timespec, ns_time_diff}
use jsockd.Server.State.{
  init_failed, idle, init, cleanup, cleanup_complete, is_idle, ThreadState, Server, Answers,
  Handled, init_thread_state, cleanup_command_state, cleanup_thread_state,
}
use jsockd.Server.{
  line_handler, tick_handler, Init, engine_up, no_clock, no_runtime, started_state, reinitialize,
  reset_thread_state_thread, cleanup_old_runtime,
}
use jsockd.Server.Invariant.{IsThread, Replaced, IsValid, choose}
use jsockd.Server.FirstLines.{Kept}
use jsockd.Server.Dispatch.{line_handler-Kept}

module _ {V B : Type 0} (empty : Bucket B) where
  -- A step of `replacement_thread`, which runs in two states of the replacement only.
  pub data Background (s : Server V B) : Server V B → Type 0 where
    initialized :
        (reading : Option Timespec)
        → s.replacement_thread_state ≡ init
        → Background s (reset_thread_state_thread reading s)
    cleaned : s.replacement_thread_state ≡ cleanup → Background s (cleanup_old_runtime empty s)

  -- Background steps, one after another.
  pub data Backgrounds (s : Server V B) : Server V B → Type 0 where
    none_yet : Backgrounds s s
    then_one : {t u : Server V B} → Backgrounds s t → Background t u → Backgrounds s u

  module _ (n_bits : ℕ) (get_hash_cache_uid : Str → ℕ) where
    -- A step: a line, a tick, the start of a thread state that was shut down, a background step, or a
    -- change of the cache by another thread.
    pub data Step (s : Server V B) : Server V B → Type 0 where
      line :
          (a : Answers V B) (text : Str) (truncated : Bool) (r : ℤ) {s' : Server V B}
          → s.ts.running ≡ true
          → line_handler a empty n_bits get_hash_cache_uid s text truncated ≡ some (r, s')
          → Step s s'
      tick :
          (thread_index max_idle_time_us : ℕ) (reading : Option Timespec)
          → Step s (tick_handler thread_index max_idle_time_us reading empty s)
      reinitialized : (i : Init) → Step s (reinitialize i s)
      background : {s' : Server V B} → Background s s' → Step s s'
      shared : (table : List (Bucket B)) → Step s (record s { table = table })

    -- The state after the start, with a cache and a stream as they are then.
    abbrev pub started : Timespec → List (Bucket B) → Server V B
    started now table = record {
      ts = init_thread_state now;
      my_replacement = none;
      replacement_thread_state = idle;
      joinable = false;
      table = table;
      written = [];
      stream_io_err = false;
      interrupted_or_error = false;
    }

    pub data Reachable : Server V B → Type 0 where
      at_start : (now : Timespec) (table : List (Bucket B)) → Reachable (started now table)
      step : {s s' : Server V B} → Reachable s → Step s s' → Reachable s'

  init_thread_state-IsThread : (now : Timespec) → IsThread {V = V} {B = B} (init_thread_state now)
  unfolding init_thread_state
  init_thread_state-IsThread now = record {
    line_bound = omega arith;
    uuid_bound = omega arith;
    checks_bound = omega arith;
  }

  pub Background-IsValid : {s s' : Server V B} → IsValid s → Background s s' → IsValid s'
  unfolding reset_thread_state_thread cleanup_old_runtime init_thread_state
  Background-IsValid {s} v (initialized none e) = record {
    thread = record {
      line_bound = v.thread.line_bound;
      uuid_bound = v.thread.uuid_bound;
      checks_bound = v.thread.checks_bound;
    };
    replacement = v.replacement;
    down = v.down;
  }
  Background-IsValid {s} v (initialized (some now) e) = record {
    thread = v.thread;
    replacement = (
      subst (λ p. Replaced p s.my_replacement s.joinable) e v.replacement,
      refl,
      refl,
      init_thread_state-IsThread now,
    );
    down = λ d. absurd (clash (subst (λ p. is_idle p ≡ true) e (v.down d)));
  }
    where
      clash : false ≡ true → ⊥
      clash p = cc
  Background-IsValid {s} v (cleaned e) =
      after s.my_replacement (subst (λ p. Replaced p s.my_replacement s.joinable) e v.replacement)
    where
      clash : false ≡ true → ⊥
      clash p = cc

      after :
          (m : Option (ThreadState V B))
          → Replaced cleanup m s.joinable
          → IsValid (elim m [
            | none ↦ s
            | some old ↦ record s {
              table = (cleanup_thread_state empty (record s { ts = old })).table;
              my_replacement = none;
              replacement_thread_state = cleanup_complete;
            }
          ])
      after none r = elim r [ ]
      after (some old) r = record {
        thread = v.thread;
        replacement = r;
        down = λ d. absurd (clash (subst (λ p. is_idle p ≡ true) e (v.down d)));
      }

  cleanup_thread_state-IsValid :
      (s : Server V B)
      → IsValid s
      → is_idle s.replacement_thread_state ≡ true
      → IsValid (cleanup_thread_state empty s)
  unfolding cleanup_thread_state cleanup_command_state
  cleanup_thread_state-IsValid s v h =
      choose IsValid s.ts.running
        (record {
          thread = record {
            line_bound = v.thread.line_bound;
            uuid_bound = v.thread.uuid_bound;
            checks_bound = v.thread.checks_bound;
          };
          replacement = v.replacement;
          down = λ d. h;
        })
        v

  pub tick_handler-IsValid :
      (i m : ℕ) (reading : Option Timespec) (s : Server V B)
      → IsValid s
      → IsValid (tick_handler i m reading empty s)
  unfolding tick_handler
  tick_handler-IsValid i m reading s v =
      choose IsValid (i == 0 || (m == 0 || (not (s.ts.line_n == 0) || not s.ts.running))) v
        (after reading)
    where
      idle_or :
          (b : Bool)
          → (is_idle s.replacement_thread_state ≡ true)
            ⊎ (is_idle s.replacement_thread_state ≡ false)
          → IsValid
              (if b && is_idle s.replacement_thread_state then cleanup_thread_state empty s else s)
      idle_or false c = v
      idle_or true (inl h) = rw h (cleanup_thread_state-IsValid s v h)
      idle_or true (inr h) = rw h v

      after :
          (o : Option Timespec)
          → IsValid (elim o [
            | none ↦ s
            | some now ↦
                (if leb m (to_uint64 (ns_time_diff now s.ts.last_active_time) / 1000)
                    && is_idle s.replacement_thread_state
                  then cleanup_thread_state empty s
                  else s)
          ])
      after none = v
      after (some now) =
          idle_or (leb m (to_uint64 (ns_time_diff now s.ts.last_active_time) / 1000))
            (Bool-cases (is_idle s.replacement_thread_state))

  started_state-IsThread : (i : Init) (ts : ThreadState V B) → IsThread (started_state i ts)
  unfolding started_state init_failed
  started_state-IsThread (engine_up now) ts = init_thread_state-IsThread now
  started_state-IsThread no_clock ts =
      let v = init_thread_state-IsThread ts.last_active_time in
      record { line_bound = v.line_bound; uuid_bound = v.uuid_bound; checks_bound = v.checks_bound }
  started_state-IsThread (no_runtime now) ts =
      let v = init_thread_state-IsThread now in
      record { line_bound = v.line_bound; uuid_bound = v.uuid_bound; checks_bound = v.checks_bound }

  pub reinitialize-IsValid : (i : Init) (s : Server V B) → IsValid s → IsValid (reinitialize i s)
  unfolding reinitialize
  reinitialize-IsValid i s v =
      choose IsValid s.ts.running v
        (record { thread = started_state-IsThread i s.ts; replacement = tt; down = λ d. refl })

  module _ (n_bits : ℕ) (get_hash_cache_uid : Str → ℕ) where
    Step-IsValid :
        {s s' : Server V B} → IsValid s → Step n_bits get_hash_cache_uid s s' → IsValid s'
    Step-IsValid {s} v (line a text truncated r {s'} up e) =
        (subst (Kept s.replacement_thread_state) e
          (line_handler-Kept a empty n_bits get_hash_cache_uid s text truncated v up)).0
    Step-IsValid v (tick i m reading) = tick_handler-IsValid i m reading _ v
    Step-IsValid v (reinitialized i) = reinitialize-IsValid i _ v
    Step-IsValid v (background b) = Background-IsValid v b
    Step-IsValid v (shared table) = record {
      thread = v.thread;
      replacement = v.replacement;
      down = v.down;
    }

    -- In every state that a thread reaches, whatever the order of its steps, of those of its
    -- background threads and of the changes of the cache by other threads: the position in a command,
    -- the length of its identifier and the counter are within their bounds, a replacement exists
    -- whenever its state says so, there is a thread to join whenever one is joined, and a thread state
    -- is shut down only while no replacement is made.
    pub Reachable-IsValid : {s : Server V B} → Reachable n_bits get_hash_cache_uid s → IsValid s
    unfolding init_thread_state
    Reachable-IsValid (at_start now table) = record {
      thread = init_thread_state-IsThread now;
      replacement = tt;
      down = λ d. refl;
    }
    Reachable-IsValid (step reached one) = Step-IsValid (Reachable-IsValid reached) one

    -- In every reachable state of a running thread, each line is handled: no handler follows a null
    -- pointer, and the state that it leaves is reachable.
    pub Reachable-line_handler :
        (a : Answers V B) (s : Server V B) (text : Str) (truncated : Bool)
        → Reachable n_bits get_hash_cache_uid s
        → s.ts.running ≡ true
        → (r : ℤ) × (s' : Server V B) × (line_handler a empty n_bits get_hash_cache_uid s text
              truncated
            ≡ some (r, s'))
          × Reachable n_bits get_hash_cache_uid s'
    Reachable-line_handler a s text truncated reached up =
        after (line_handler a empty n_bits get_hash_cache_uid s text truncated) refl (
          line_handler-Kept a empty n_bits get_hash_cache_uid s text truncated
            (Reachable-IsValid reached) up)
      where
        after :
            (o : Handled V B)
            → line_handler a empty n_bits get_hash_cache_uid s text truncated ≡ o
            → Kept s.replacement_thread_state o
            → (r : ℤ) × (s' : Server V B) × (line_handler a empty n_bits get_hash_cache_uid s text
                  truncated
                ≡ some (r, s'))
              × Reachable n_bits get_hash_cache_uid s'
        after none e k = elim k [ ]
        after (some (r, s')) e k = (r, s', e, step reached (line a text truncated r up e))
