-- ===== src/HashCache/Seqlock/Valid.antt =====
-- What holds of a bucket and of the threads at it in every interleaving (hash_cache.c).
use jsockd.Prelude.{
  total, total-set, total-get_or, lt_or_le, ℕ, ◌+◌, ◌%◌, ◌≤◌, ◌<◌, ◌≡◌, inl, inr, ◌∙◌, sym, ap, ap₂,
  subst, refl, List, [], ◌∷◌, length, get_or_absent, set_absent, get_or, arith,
}
use jsockd.HashCache.{Bucket}
use jsockd.HashCache.Seqlock.{Thread, outside, Turn, get, add, go, State, act, step, run}
use jsockd.HashCache.Seqlock.Counts.{odd, won, refs, act-Balanced}

module _ {P : Type 0} where
  -- The reference count is the number of the references that threads have; one thread at most is between
  -- the exchange and the end of its update; and the counter is odd while a thread updates the bucket.
  pub record IsValid (s : State P) : Type 0 where
    pub counted :
        s.bucket.refcount ≡ total odd s.threads + total won s.threads + total refs s.threads
    pub one_writer : total odd s.threads + total won s.threads ≤ 1
    pub parity : s.bucket.update_count % 2 ≡ total odd s.threads

  module _ (cleanup : P → P) where
    act-outside : (u : Turn P) (b : Bucket P) → (act cleanup u outside b).1 ≡ b
    unfolding act
    act-outside (get uid) b = ground arith
    act-outside (add uid object) b = ground arith
    act-outside go b = refl

    -- A thread that is not there does nothing.
    pub step-absent :
        (i : ℕ) (u : Turn P) (s : State P) → length s.threads ≤ i → step cleanup i u s ≡ s
    unfolding step
    step-absent i u s h =
        let thread = ap (λ t. (act cleanup u t s.bucket).1) (get_or_absent s.threads i outside h) in
        ap₂ State_of (thread ∙ act-outside u s.bucket) (set_absent s.threads i _ h)
      where
        State_of : Bucket P → List (Thread P) → State P
        State_of b ts = record { bucket = b; threads = ts }

    step_present :
        (i : ℕ) (u : Turn P) (s : State P)
        → i < length s.threads
        → IsValid s
        → IsValid (step cleanup i u s)
    unfolding step
    step_present i u s h v =
        let t = get_or s.threads i outside in
        let t' = (act cleanup u t s.bucket).0 in
        let o = total-get_or odd s.threads i outside h in
        let w = total-get_or won s.threads i outside h in
        let r = total-get_or refs s.threads i outside h in
        let o' = total-set odd s.threads i t' outside h in
        let w' = total-set won s.threads i t' outside h in
        let r' = total-set refs s.threads i t' outside h in
        let p = act-Balanced cleanup s.bucket u t (omega arith) (omega arith) in
        record {
          counted = omega (arith, p.counted);
          one_writer = omega (arith, p.begun);
          parity = omega (arith, p.flipped);
        }

    pub step-IsValid : (i : ℕ) (u : Turn P) (s : State P) → IsValid s → IsValid (step cleanup i u s)
    step-IsValid i u s v = elim (lt_or_le i (length s.threads)) [
      | inl h ↦ step_present i u s h v
      | inr h ↦ subst IsValid (sym (step-absent i u s h)) v
    ]

    -- In every interleaving of any number of calls of `get_hash_cache_entry_`, `add_to_hash_cache_` and
    -- `decrement_hash_cache_bucket_refcount` at a bucket: the reference count is the number of the
    -- references that threads have, one thread at most is between the exchange and the end of an insertion,
    -- and the counter is odd just while a thread is between the two increments of it.
    pub run-IsValid :
        (schedule : List (ℕ × Turn P)) (s : State P) → IsValid s → IsValid (run cleanup schedule s)
    unfolding run
    run-IsValid [] s v = v
    run-IsValid ((i, u) ∷ schedule) s v =
        run-IsValid schedule (step cleanup i u s) (step-IsValid i u s v)
