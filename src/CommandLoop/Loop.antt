-- ===== src/CommandLoop/Loop.antt =====
-- `command_loop` (jsockd_server/src/main.c) from its start to its end.
use jsockd.Prelude.{
  ℕ, ◌≡◌, ◌≢◌, refl, sym, subst, List, [], ◌∷◌, Bool, true, false, not, Option, some, none,
  if◌then◌else◌, All, arith,
}
use jsockd.Prelude.Int.{ℤ, is_neg}
use jsockd.CmdArgs.CString.{Str}
use jsockd.HashCache.{Bucket}
use jsockd.Time.{Timespec}
use jsockd.LineBuf.{LineBuf, Read, read_eof, line_buf_read}
use jsockd.LineBuf.Refine
use jsockd.LineBuf.Reads.{room}
use jsockd.Server.State.{Server, trampoline, init_thread_state}
use jsockd.Server.{tick_handler, Init, engine_up, started_state, reinitialize}
use jsockd.Server.Steps.{tick_handler-IsValid, reinitialize-IsValid}
use jsockd.CommandLoop.{
  replays, Polled, ready, go_around, sig_interrupt_or_error, Accept, Round, Left, interrupted,
  set_up_failed, exited, stuck, read_loop, accept_loop,
}
use jsockd.CommandLoop.Moments.{
  Event, happen, World, at, null_pointer, unanswered, on_server, update_stack_top, world_handler,
}
use jsockd.CommandLoop.Replays.{Offers, Ends}
use jsockd.CommandLoop.Once.{Ok, Valid, happen-Stays, replays-line_handler}

-- Every read of the round brings no more than it is offered, and returns -1 when it fails.
abbrev pub OffersAll : {V B : Type 0} → Round V B → Type 0
OffersAll r = (n : ℕ) → Offers (r.read n) n

-- A thread that was shut down starts again in the round.
abbrev pub Starts : {V B : Type 0} → Round V B → Type 0
Starts r = (now : Timespec) × (r.init ≡ engine_up now)

-- The loops have not ended, or have ended with a thread in a valid state.
abbrev pub Leaves : {V B : Type 0} → Bucket B → Option (Left V B) → Type 0
Leaves empty none = Unit
Leaves empty (some (interrupted w)) = Valid empty w
Leaves empty (some (set_up_failed w)) = Valid empty w
Leaves empty (some (exited r w)) = Valid empty w × (is_neg r ≡ true) × (r ≢ trampoline)
Leaves empty (some stuck) = ⊥

module _ {V B : Type 0} (empty : Bucket B) (n_bits : ℕ) (get_hash_cache_uid : Str → ℕ) where
  tick-Valid :
      (thread_index max_idle : ℕ) (reading : Option Timespec) (w : World V B)
      → Valid empty w
      → Valid empty (on_server (tick_handler thread_index max_idle reading empty) w)
  tick-Valid i m reading (at s ms) v = tick_handler-IsValid empty i m reading s v
  tick-Valid i m reading null_pointer v = v
  tick-Valid i m reading unanswered v = v

  happen-Valid :
      (es : List (Event B)) (w : World V B)
      → Valid empty w
      → Valid empty (on_server (happen empty es) w)
  happen-Valid es (at s ms) v = (happen-Stays empty es s).0 v
  happen-Valid es null_pointer v = v
  happen-Valid es unanswered v = v

  reinitialize-runs :
      (i : Init) (now : Timespec) (s : Server V B)
      → i ≡ engine_up now
      → (reinitialize i s).ts.running ≡ true
  unfolding reinitialize started_state init_thread_state
  reinitialize-runs i now s e = rw e (ground arith)

  reinitialize-Ok :
      (r : Round V B) (w : World V B)
      → Starts r
      → Valid empty w
      → Ok empty (on_server (reinitialize r.init) w)
  reinitialize-Ok r (at s ms) i v =
      (reinitialize-IsValid empty r.init s v, reinitialize-runs r.init i.0 s i.1)
  reinitialize-Ok r null_pointer i v = v
  reinitialize-Ok r unanswered i v = v

  pub Ok-Valid : (w : World V B) → Ok empty w → Valid empty w
  Ok-Valid (at s ms) k = k.0
  Ok-Valid null_pointer k = k
  Ok-Valid unanswered k = k

  module _ (sep thread_index max_idle_time_us : ℕ) where
    -- A round, and a rest of which it is known.
    module _ (r : Round V B) (rest : LineBuf → World V B → Option (Left V B)) (b : LineBuf)
        (w : World V B) (offers : OffersAll r) (starts : Starts r)
        (valid_buf : jsockd.LineBuf.Refine.IsValid b)
        (ih : (b' : LineBuf) (w' : World V B)
          → jsockd.LineBuf.Refine.IsValid b'
          → Valid empty w'
          → Leaves empty (rest b' w')) where
      by_sign :
          (n : Bool) (out : ℤ × LineBuf × World V B)
          → is_neg out.0 ≡ n
          → Ends (Ok empty) (some out)
          → Leaves empty
              (let later = rest out.1 out.2 in if n then some (exited out.0 out.2) else later)
      by_sign true out n e = (Ok-Valid out.2 e.1, n, e.0)
      by_sign false out n e = ih out.1 out.2 (e.2 n) (Ok-Valid out.2 e.1)

      replayed :
          (o : Option (ℤ × LineBuf × World V B))
          → Ends (Ok empty) o
          → Leaves empty (elim o [
            | none ↦ some stuck
            | some out ↦
                (let later = rest out.1 out.2 in
                  if is_neg out.0 then some (exited out.0 out.2) else later)
          ])
      replayed none e = e
      replayed (some out) e = by_sign (is_neg out.0) out refl e

      round-Leaves :
          (p : Polled)
          → Valid empty w
          → Leaves empty (elim p [
            | go_around ↦ rest b w
            | sig_interrupt_or_error ↦ some (interrupted w)
            | ready ↦
                (let handler = world_handler empty n_bits get_hash_cache_uid in
                  let read =
                    line_buf_read sep handler b r.read (on_server (reinitialize r.init) w) in
                  elim (replays sep handler b.size read) [
                    | none ↦ some stuck
                    | some out ↦
                        (let later = rest out.1 out.2 in
                          if is_neg out.0 then some (exited out.0 out.2) else later)
                  ])
          ])
      round-Leaves go_around v = ih b w valid_buf v
      round-Leaves sig_interrupt_or_error v = v
      round-Leaves ready v = replayed _ (
          replays-line_handler empty n_bits get_hash_cache_uid sep b r.read
            (on_server (reinitialize r.init) w) valid_buf (reinitialize-Ok r w starts v)
            (offers (room b)))

    read_loop-Leaves :
        (rounds : List (Round V B)) (b : LineBuf) (w : World V B)
        → All OffersAll rounds
        → All Starts rounds
        → jsockd.LineBuf.Refine.IsValid b
        → Valid empty w
        → Leaves empty
            (read_loop empty n_bits get_hash_cache_uid sep thread_index max_idle_time_us rounds b w)
    unfolding read_loop
    read_loop-Leaves [] b w o i vb v = tt
    read_loop-Leaves (r ∷ rounds) b w o i vb v =
        round-Leaves r
          (read_loop empty n_bits get_hash_cache_uid sep thread_index max_idle_time_us rounds) b _
          o.0 i.0 vb (λ b' w' vb' v'. read_loop-Leaves rounds b' w' o.1 i.1 vb' v') r.polled
          (tick-Valid thread_index max_idle_time_us r.tick_clock _ (happen-Valid r.before w v))

    -- The world behind `accept`.
    abbrev active : Timespec → World V B → World V B
    active now w =
        update_stack_top
          (on_server (λ s. record s { ts = record s.ts { last_active_time = now } }) w)

    active-Valid : (now : Timespec) (w : World V B) → Ok empty w → Valid empty (active now w)
    active-Valid now (at s ms) k =
        let v = k.0 in
        let s' = record s { ts = record s.ts { last_active_time = now } } in
        let valid : Valid empty (at s' ms) = record {
          thread = record {
            line_bound = v.thread.line_bound;
            uuid_bound = v.thread.uuid_bound;
            checks_bound = v.thread.checks_bound;
          };
          replacement = v.replacement;
          down = v.down;
        } in
        subst (λ b. Valid empty (if b then at s' ms else null_pointer)) (sym k.1) valid
    active-Valid now null_pointer k = k
    active-Valid now unanswered k = tt

    module _ (read : World V B → Option (Left V B)) (rest : Option (Left V B)) (w : World V B)
        (k : Ok empty w) (read-Leaves : (w' : World V B) → Valid empty w' → Leaves empty (read w'))
        (rest-Leaves : Leaves empty rest) where
      accept-Leaves :
          (p : Polled) (accepted : Bool) (clock : Option Timespec)
          → Leaves empty (elim p [
            | go_around ↦ rest
            | sig_interrupt_or_error ↦ some (interrupted w)
            | ready ↦
                (if not accepted then some (set_up_failed w) else (elim clock [
                  | none ↦ some (set_up_failed w)
                  | some now ↦ read (active now w)
                ]))
          ])
      accept-Leaves go_around accepted clock = rest-Leaves
      accept-Leaves sig_interrupt_or_error accepted clock = Ok-Valid w k
      accept-Leaves ready false clock = Ok-Valid w k
      accept-Leaves ready true none = Ok-Valid w k
      accept-Leaves ready true (some now) = read-Leaves _ (active-Valid now w k)

    pub accept_loop-Leaves :
        (accepts : List Accept) (rounds : List (Round V B)) (b : LineBuf) (w : World V B)
        → All OffersAll rounds
        → All Starts rounds
        → jsockd.LineBuf.Refine.IsValid b
        → Ok empty w
        → Leaves empty (
            accept_loop empty n_bits get_hash_cache_uid sep thread_index max_idle_time_us accepts
              rounds b w)
    unfolding accept_loop
    accept_loop-Leaves [] rounds b w o i vb v = tt
    accept_loop-Leaves (a ∷ accepts) rounds b w o i vb v =
        accept-Leaves
          (read_loop empty n_bits get_hash_cache_uid sep thread_index max_idle_time_us rounds b) _ w
          v (λ w' v'. read_loop-Leaves rounds b w' o i vb v')
          (accept_loop-Leaves accepts rounds b w o i vb v) a.polled a.accepted a.clock
