-- ===== src/CommandLoop/Once.antt =====
-- `line_handler` in the loop around the replays of `command_loop` (jsockd_server/src/main.c), with what
-- the other threads do before each line.
use jsockd.Prelude.{
  ℕ, ◌≡◌, ◌≢◌, refl, sym, ap, subst, ◌∙◌, not, ◌&&◌, if◌then◌else◌, List, [], ◌∷◌, Bool, true,
  Option, some, none, arith,
}
use jsockd.Prelude.Int.{ℤ, negsuc}
use jsockd.CmdArgs.CString.{Str}
use jsockd.HashCache.{Bucket}
use jsockd.LineBuf.{LineBuf, Read, line_buf_read}
use jsockd.LineBuf.Reads.{room}
use jsockd.Server.State.{
  Replacement, idle, init, init_complete, cleanup, cleanup_complete, Handled, Server, trampoline,
}
use jsockd.Server.{line_handler, reset_thread_state_thread, cleanup_old_runtime}
use jsockd.Server.Invariant.{IsValid}
use jsockd.Server.FirstLines.{Kept}
use jsockd.Server.Dispatch.{line_handler-Kept}
use jsockd.Server.Steps.{Background, initialized, cleaned, Background-IsValid}
use jsockd.Server.Trampoline.{
  taken_over, Background-taken_over, Background-running, taken_over-Handles,
}
use jsockd.Server.Running.{Ups, line_handler-Ups}
use jsockd.CommandLoop.{replays}
use jsockd.CommandLoop.Moments.{
  Event, made_replacement, cleaned_replacement, changed_table, happens, happen, Moment, World, at,
  null_pointer, unanswered, uses_engine, world_handler,
}
use jsockd.CommandLoop.Replays.{IsOnce, Offers, Ends, replays-Ends}

module _ {V B : Type 0} (empty : Bucket B) where
  -- A state of a running thread.
  abbrev pub Ready : Server V B → Type 0
  Ready s = IsValid s × (s.ts.running ≡ true)

  -- What an event keeps.
  abbrev pub Stays : Server V B → Server V B → Type 0
  Stays s s' =
      (IsValid s → IsValid s')
      × (s'.ts.running ≡ s.ts.running)
      × (taken_over s.replacement_thread_state ≡ true
          → taken_over s'.replacement_thread_state ≡ true)

  Stays-same : (s : Server V B) → Stays s s
  Stays-same s = (λ v. v, refl, λ h. h)

  Background-Stays : {s s' : Server V B} → Background empty s s' → Stays s s'
  Background-Stays b = (
    λ v. Background-IsValid empty v b,
    Background-running empty b,
    λ h. Background-taken_over empty h b,
  )

  happens-Stays : (e : Event B) (s : Server V B) → Stays s (happens empty e s)
  unfolding happens
  happens-Stays (made_replacement reading) s = after s.replacement_thread_state refl
    where
      after :
          (p : Replacement)
          → s.replacement_thread_state ≡ p
          → Stays s (elim p [
            | init ↦ reset_thread_state_thread reading s
            | idle ↦ s
            | init_complete ↦ s
            | cleanup ↦ s
            | cleanup_complete ↦ s
          ])
      after idle e = Stays-same s
      after init e = Background-Stays (initialized reading e)
      after init_complete e = Stays-same s
      after cleanup e = Stays-same s
      after cleanup_complete e = Stays-same s
  happens-Stays cleaned_replacement s = after s.replacement_thread_state refl
    where
      after :
          (p : Replacement)
          → s.replacement_thread_state ≡ p
          → Stays s (elim p [
            | cleanup ↦ cleanup_old_runtime empty s
            | idle ↦ s
            | init ↦ s
            | init_complete ↦ s
            | cleanup_complete ↦ s
          ])
      after idle e = Stays-same s
      after init e = Stays-same s
      after init_complete e = Stays-same s
      after cleanup e = Background-Stays (cleaned e)
      after cleanup_complete e = Stays-same s
  happens-Stays (changed_table table) s =
      (λ v. record { thread = v.thread; replacement = v.replacement; down = v.down }, refl, λ h. h)

  pub happen-Stays : (es : List (Event B)) (s : Server V B) → Stays s (happen empty es s)
  unfolding happen
  happen-Stays [] s = Stays-same s
  happen-Stays (e ∷ es) s =
      let one = happens-Stays e s in
      let more = happen-Stays es (happens empty e s) in
      (λ v. more.0 (one.0 v), more.1 ∙ one.1, λ h. more.2 (one.2 h))

  happen-Ready : (es : List (Event B)) (s : Server V B) → Ready s → Ready (happen empty es s)
  happen-Ready es s k = let p = happen-Stays es s in (p.0 k.0, p.1 ∙ k.1)

  -- The valid states of a thread.
  abbrev pub Valid : World V B → Type 0
  Valid (at s moments) = IsValid s
  Valid null_pointer = ⊥
  Valid unanswered = Unit

  -- The states of a thread that runs, and those behind a swap of the thread states.
  abbrev pub Ok : World V B → Type 0
  Ok (at s moments) = Ready s
  Ok null_pointer = ⊥
  Ok unanswered = Unit

  abbrev pub Fresh : World V B → Type 0
  Fresh (at s moments) = Ready s × (taken_over s.replacement_thread_state ≡ true)
  Fresh null_pointer = ⊥
  Fresh unanswered = ⊥

  module _ (n_bits : ℕ) (get_hash_cache_uid : Str → ℕ) where
    -- A line of a running thread: it follows no null pointer, and what it leaves.
    abbrev Lines : Option (ℤ × Server V B) → Type 0
    Lines none = ⊥
    Lines (some (r, s)) = Ready s × (r ≡ trampoline → s.replacement_thread_state ≡ cleanup)

    line_handler-Lines :
        (m : Moment V B) (s : Server V B) (line : Str) (t : Bool)
        → Ready s
        → Lines (line_handler m.answers empty n_bits get_hash_cache_uid s line t)
    line_handler-Lines m s line t k =
        both (line_handler m.answers empty n_bits get_hash_cache_uid s line t)
          (line_handler-Kept m.answers empty n_bits get_hash_cache_uid s line t k.0 k.1)
          (line_handler-Ups m.answers empty n_bits get_hash_cache_uid s line t k.0 k.1)
      where
        both : (o : Handled V B) → Kept s.replacement_thread_state o → Ups o → Lines o
        both none p q = p
        both (some (r, s')) p q = ((p.0, q), λ e. (p.1 e).1)

    -- The result of the handler on what `line_handler` returns.
    abbrev handled : List (Moment V B) → Option (ℤ × Server V B) → ℤ × World V B
    handled moments o = elim o [
      | none ↦ (negsuc 0, null_pointer)
      | some out ↦ (out.0, at out.1 moments)
    ]

    Lines-Ok :
        (ms : List (Moment V B)) (o : Option (ℤ × Server V B)) → Lines o → Ok (handled ms o).1
    Lines-Ok ms none l = l
    Lines-Ok ms (some (r, s)) l = l.0

    Lines-Fresh :
        (ms : List (Moment V B)) (o : Option (ℤ × Server V B))
        → Lines o
        → (handled ms o).0 ≡ trampoline
        → Fresh (handled ms o).1
    Lines-Fresh ms none l e = l
    Lines-Fresh ms (some (r, s)) l e = (l.0, rw (l.1 e) refl)

    world_handler-up :
        (line : List ℕ) (t : Bool) (m : Moment V B) (ms : List (Moment V B)) (s : Server V B)
        → (happen empty m.before s).ts.running ≡ true
        → world_handler empty n_bits get_hash_cache_uid line t (at s (m ∷ ms))
          ≡ handled ms (
              line_handler m.answers empty n_bits get_hash_cache_uid
                (happen empty m.before s)
                line
                t)
    unfolding world_handler
    world_handler-up line t m ms s up =
        let s' = happen empty m.before s in
        ap
          (λ b.
            if not b && uses_engine m.answers s' line t
            then (negsuc 0, null_pointer)
            else handled ms (line_handler m.answers empty n_bits get_hash_cache_uid s' line t))
          up

    world_handler-Ok :
        (line : List ℕ) (t : Bool) (w : World V B)
        → Ok w
        → Ok (world_handler empty n_bits get_hash_cache_uid line t w).1
    unfolding world_handler
    world_handler-Ok line t (at s []) k = tt
    world_handler-Ok line t (at s (m ∷ ms)) k =
        subst (λ (out : ℤ × World V B). Ok out.1)
          (sym (world_handler-up line t m ms s (happen-Ready m.before s k).1))
          (Lines-Ok ms
            (line_handler m.answers empty n_bits get_hash_cache_uid (happen empty m.before s) line
              t)
            (line_handler-Lines m (happen empty m.before s) line t (happen-Ready m.before s k)))
    world_handler-Ok line t null_pointer k = k
    world_handler-Ok line t unanswered k = tt

    world_handler-Fresh :
        (line : List ℕ) (t : Bool) (w : World V B)
        → Ok w
        → (world_handler empty n_bits get_hash_cache_uid line t w).0 ≡ trampoline
        → Fresh (world_handler empty n_bits get_hash_cache_uid line t w).1
    unfolding world_handler
    world_handler-Fresh line t (at s []) k = λ e. absurd (ground (arith, e))
    world_handler-Fresh line t (at s (m ∷ ms)) k =
        subst (λ (out : ℤ × World V B). out.0 ≡ trampoline → Fresh out.1)
          (sym (world_handler-up line t m ms s (happen-Ready m.before s k).1))
          (Lines-Fresh ms
            (line_handler m.answers empty n_bits get_hash_cache_uid (happen empty m.before s) line
              t)
            (line_handler-Lines m (happen empty m.before s) line t (happen-Ready m.before s k)))
    world_handler-Fresh line t null_pointer k = λ e. k
    world_handler-Fresh line t unanswered k = λ e. absurd (ground (arith, e))

    world_handler-trampoline :
        (line : List ℕ) (t : Bool) (w : World V B)
        → Fresh w
        → (world_handler empty n_bits get_hash_cache_uid line t w).0 ≢ trampoline
    unfolding world_handler
    world_handler-trampoline line t (at s []) k e = absurd (ground (arith, e))
    world_handler-trampoline line t (at s (m ∷ ms)) k e =
        let p = happen-Ready m.before s k.0 in
        let q = (happen-Stays m.before s).2 k.1 in
        let h =
          taken_over-Handles empty n_bits get_hash_cache_uid m.answers (happen empty m.before s)
            line t p.0 p.1 q in
        h.3 (
          sym (ap (λ o. (handled ms o).0) h.2)
          ∙ sym (ap (λ (out : ℤ × World V B). out.0) (world_handler-up line t m ms s p.1))
          ∙ e)
    world_handler-trampoline line t null_pointer k e = k
    world_handler-trampoline line t unanswered k e = k

    world_handler-IsOnce :
        (sep : ℕ) → IsOnce sep (world_handler empty n_bits get_hash_cache_uid) Ok Fresh
    world_handler-IsOnce sep = record {
      keeps = world_handler-Ok;
      asks = world_handler-Fresh;
      fresh = Fresh-Ok;
      once = world_handler-trampoline;
    }
      where
        Fresh-Ok : (w : World V B) → Fresh w → Ok w
        Fresh-Ok (at s ms) k = k.0
        Fresh-Ok null_pointer k = k
        Fresh-Ok unanswered k = tt

    -- The loop `while (exit_value == TRAMPOLINE)` ends: whatever a read brings to a running thread in a
    -- valid state, and whatever other threads do before each line, `exit_value` is another value than
    -- `TRAMPOLINE` after no more replays than the buffer has bytes, and no line has followed a null pointer:
    -- the thread still runs in a valid state, or waits for the answers to a line. The read brings no more
    -- bytes than it is offered, and returns -1 when it fails.
    pub replays-line_handler :
        (sep : ℕ) (b : LineBuf) (readf : ℕ → Read) (w : World V B)
        → jsockd.LineBuf.Refine.IsValid b
        → Ok w
        → Offers (readf (room b)) (room b)
        → Ends Ok (
            replays sep
              (world_handler empty n_bits get_hash_cache_uid)
              b.size
              (line_buf_read sep (world_handler empty n_bits get_hash_cache_uid) b readf w))
    replays-line_handler sep b readf w v k f =
        replays-Ends sep (world_handler empty n_bits get_hash_cache_uid) Ok Fresh
          (world_handler-IsOnce sep) b readf w v k f
