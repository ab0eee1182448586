-- ===== src/HashCache/Seqlock/Held.antt =====
-- A reference that was taken, and the entry of the bucket (jsockd_server/src/hash_cache.c).
use jsockd.Prelude.{
  total, total-set, total-get_or, lt_or_le, ℕ, ◌+◌, ◌≤◌, ◌<◌, ◌≡◌, ◌≢◌, inl, inr, ◌∙◌, sym, ap,
  subst, refl, List, [], ◌∷◌, length, get_or_absent, get_or, get_or-set_ne, All, arith,
}
use jsockd.HashCache.{Bucket}
use jsockd.HashCache.Seqlock.{
  Thread, outside, holding, load_count, load_uid, take_ref, check_count, undo_ref, exchange,
  make_odd, clean, copy, store_uid, make_even, Turn, get, add, go, State, act, step, run,
}
use jsockd.HashCache.Seqlock.Counts.{odd, won, refs, act-Balanced}
use jsockd.HashCache.Seqlock.Valid.{IsValid, step-absent, step-IsValid}

module _ {P : Type 0} where
  -- The thread has a reference, and no thread is in an update.
  record IsHeld (i : ℕ) (s : State P) : Type 0 where
    pub held : get_or s.threads i outside ≡ holding
    pub quiet : total odd s.threads + total won s.threads ≡ 0

  module _ (cleanup : P → P) where
    -- An operation of a thread that has not won the exchange, at a bucket with references.
    act-Quiet :
        (u : Turn P) (t : Thread P) (b : Bucket P)
        → odd t + won t ≡ 0
        → 0 < b.refcount
        → ((act cleanup u t b).1.uid ≡ b.uid) × ((act cleanup u t b).1.payload ≡ b.payload)
    unfolding act
    act-Quiet (get uid) outside b h k = (ground arith, ground arith)
    act-Quiet (add uid object) outside b h k = (ground arith, ground arith)
    act-Quiet go outside b h k = (refl, refl)
    act-Quiet u holding b h k = (refl, refl)
    act-Quiet u (load_count uid n) b h k = (ground (arith, k), ground (arith, k))
    act-Quiet u (load_uid uid n before) b h k = (ground (arith, k), ground (arith, k))
    act-Quiet u (take_ref uid n before) b h k = (ground (arith, k), ground (arith, k))
    act-Quiet u (check_count uid n before) b h k = (ground (arith, k), ground (arith, k))
    act-Quiet u (undo_ref uid n) b h k = (ground (arith, k), ground (arith, k))
    act-Quiet u (exchange uid object) b h k = (ground (arith, k), ground (arith, k))
    act-Quiet u (make_odd uid object) b h k = absurd (omega arith)
    act-Quiet u (clean uid object) b h k = absurd (omega arith)
    act-Quiet u (copy uid object) b h k = absurd (omega arith)
    act-Quiet u (store_uid uid object) b h k = absurd (omega arith)
    act-Quiet u (make_even uid object) b h k = absurd (omega arith)

    total-refs : (i : ℕ) (s : State P) → IsHeld i s → 1 ≤ total refs s.threads
    total-refs i s h = elim (lt_or_le i (length s.threads)) [
      | inl l ↦
          (let one : refs (get_or s.threads i outside) ≡ 1 = ap refs h.held in
            omega (arith, total-get_or refs s.threads i outside l, one))
      | inr l ↦
          (let e : outside ≡ holding = sym (get_or_absent s.threads i outside l) ∙ h.held in
            absurd (ground (arith, e)))
    ]

    step_present :
        (i j : ℕ) (u : Turn P) (s : State P)
        → j < length s.threads
        → j ≢ i
        → IsValid s
        → IsHeld i s
        → IsHeld i (step cleanup j u s)
          × ((step cleanup j u s).bucket.uid ≡ s.bucket.uid)
          × ((step cleanup j u s).bucket.payload ≡ s.bucket.payload)
    unfolding step
    step_present i j u s l n v h =
        let t = get_or s.threads j outside in
        let t' = (act cleanup u t s.bucket).0 in
        let some_ref = total-refs i s h in
        let o = total-get_or odd s.threads j outside l in
        let w = total-get_or won s.threads j outside l in
        let r = total-get_or refs s.threads j outside l in
        let o' = total-set odd s.threads j t' outside l in
        let w' = total-set won s.threads j t' outside l in
        let p =
          act-Balanced cleanup s.bucket u t (omega (arith, v.counted))
            (omega (arith, h.quiet, v.parity)) in
        let same = act-Quiet u t s.bucket (omega (arith, h.quiet)) (omega (arith, v.counted)) in
        let kept : IsHeld i (step cleanup j u s) = record {
          held = get_or-set_ne s.threads j i t' outside n ∙ h.held;
          quiet = omega (arith, h.quiet, p.begun, v.counted);
        } in
        (kept, same.0, same.1)

    step-IsHeld :
        (i j : ℕ) (u : Turn P) (s : State P)
        → j ≢ i
        → IsValid s
        → IsHeld i s
        → IsHeld i (step cleanup j u s)
          × ((step cleanup j u s).bucket.uid ≡ s.bucket.uid)
          × ((step cleanup j u s).bucket.payload ≡ s.bucket.payload)
    step-IsHeld i j u s n v h = elim (lt_or_le j (length s.threads)) [
      | inl l ↦ step_present i j u s l n v h
      | inr l ↦
          (let e = step-absent cleanup j u s l in
            (subst (IsHeld i) (sym e) h, ap (λ r. r.bucket.uid) e, ap (λ r. r.bucket.payload) e))
    ]

    run_held :
        (i : ℕ) (schedule : List (ℕ × Turn P)) (s : State P)
        → IsValid s
        → IsHeld i s
        → All (λ turn. turn.0 ≢ i) schedule
        → ((run cleanup schedule s).bucket.uid ≡ s.bucket.uid)
          × ((run cleanup schedule s).bucket.payload ≡ s.bucket.payload)
    unfolding run
    run_held i [] s v h n = (refl, refl)
    run_held i ((j, u) ∷ schedule) s v h n =
        let p = step-IsHeld i j u s n.0 v h in
        let r = run_held i schedule (step cleanup j u s) (step-IsValid cleanup j u s v) p.0 n.1 in
        (r.0 ∙ p.1, r.1 ∙ p.2)

    -- A reference keeps the entry: once a thread has one while no thread is in an update of the bucket,
    -- the uid and the object of the bucket stay as they are in every interleaving, until the thread goes on.
    pub run_entry_stays :
        (i : ℕ) (schedule : List (ℕ × Turn P)) (s : State P)
        → IsValid s
        → get_or s.threads i outside ≡ holding
        → total odd s.threads + total won s.threads ≡ 0
        → All (λ turn. turn.0 ≢ i) schedule
        → ((run cleanup schedule s).bucket.uid ≡ s.bucket.uid)
          × ((run cleanup schedule s).bucket.payload ≡ s.bucket.payload)
    run_entry_stays i schedule s v h q n = run_held i schedule s v record { held = h; quiet = q } n
