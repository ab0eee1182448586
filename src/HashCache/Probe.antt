-- ===== src/HashCache/Probe.antt =====
-- The window of buckets that the loops of jsockd_server/src/hash_cache.c go through, and the bucket
-- they stop at.
use jsockd.Prelude.{
  ℕ, zero, suc, ◌+◌, ◌%◌, ◌<◌, ◌≡◌, refl, sym, ap, ◌∙◌, List, Bool, true, false, ◌==◌, Bool-cases,
  inl, inr, ◌⊎◌, if◌then◌else◌, some, none, get_or, set, arith,
}
use jsockd.HashCache.{Bucket, fill, add_loop, holds, get_loop}

-- A reference count of 0.
abbrev pub free : {P : Type 0} → Bucket P → Bool
free b = b.refcount == 0

module _ {P : Type 0} (empty : Bucket P) where
  -- The bucket at step `s` of a window that starts at `i`.
  abbrev pub probed : ℕ → ℕ → List (Bucket P) → ℕ → Bucket P
  probed i n table s = get_or table ((i + s) % n) empty

  -- The test holds at step `s` of `k`, for the first time.
  pub record First (test : Bucket P → Bool) (k i n : ℕ) (table : List (Bucket P)) (s : ℕ)
      : Type 0 where
    pub in_window : s < k
    pub passes : test (probed i n table s) ≡ true
    pub earlier : (r : ℕ) → r < s → test (probed i n table r) ≡ false

  -- The test holds nowhere in the window.
  abbrev pub Nowhere : (Bucket P → Bool) → ℕ → ℕ → ℕ → List (Bucket P) → Type 0
  Nowhere test k i n table = (r : ℕ) → r < k → test (probed i n table r) ≡ false

  module _ (test : Bucket P → Bool) (n : ℕ) (table : List (Bucket P)) where
    start : (i : ℕ) → probed i n table 0 ≡ get_or table (i % n) empty
    start i = ap (λ m. get_or table (m % n) empty) (omega arith)

    next : (i s : ℕ) → probed (i + 1) n table s ≡ probed i n table (suc s)
    next i s = ap (λ m. get_or table (m % n) empty) (omega arith)

    extend :
        (i m : ℕ)
        → test (get_or table (i % n) empty) ≡ false
        → ((r : ℕ) → r < m → test (probed (i + 1) n table r) ≡ false)
        → (r : ℕ) → r < suc m
        → test (probed i n table r) ≡ false
    extend i m h f zero l = ap test (start i) ∙ h
    extend i m h f (suc r) l = rw (next i r) at (f r (omega arith))

    First-suc :
        (k i s : ℕ)
        → test (get_or table (i % n) empty) ≡ false
        → First test k (i + 1) n table s
        → First test (suc k) i n table (suc s)
    First-suc k i s h f = record {
      in_window = omega (arith, f.in_window);
      passes = rw (next i s) at f.passes;
      earlier = extend i s h f.earlier;
    }

    -- The test holds somewhere for the first time, or nowhere.
    pub probe : (k i : ℕ) → ((s : ℕ) × First test k i n table s) ⊎ Nowhere test k i n table
    probe zero i = inr (λ r l. absurd (omega arith))
    probe (suc k) i = elim (Bool-cases (test (get_or table (i % n) empty))) [
      | inl h ↦ inl (
        0,
        record {
          in_window = omega arith;
          passes = ap test (start i) ∙ h;
          earlier = λ r l. absurd (omega arith);
        },
      )
      | inr h ↦ elim (probe k (i + 1)) [
        | inl w ↦ inl (suc w.0, First-suc k i w.0 h w.1)
        | inr f ↦ inr (extend i k h f)
      ]
    ]

  module _ (n uid : ℕ) (table : List (Bucket P)) where
    First-step :
        (test : Bucket P → Bool) (k i s : ℕ)
        → First test (suc k) i n table (suc s)
        → (test (get_or table (i % n) empty) ≡ false) × First test k (i + 1) n table s
    First-step test k i s f = (
      sym (ap test (start test n table i)) ∙ f.earlier 0 (omega arith),
      record {
        in_window = omega (arith, f.in_window);
        passes = rw (sym (next test n table i s)) at f.passes;
        earlier = λ r l. rw (sym (next test n table i r)) at (f.earlier (suc r) (omega arith));
      },
    )

    -- `add_loop` writes to the first bucket without references.
    pub add_loop-First :
        (object : P) (k i s : ℕ)
        → First free k i n table s
        → add_loop empty k i n uid object table
          ≡ some (record {
            index = (i + s) % n;
            evicted = if (probed i n table s).uid == 0 then none else some (probed i n table s);
            table = set table ((i + s) % n) (fill empty (probed i n table s) uid object);
          })
    unfolding add_loop
    add_loop-First object zero i s f = absurd (omega (arith, f.in_window))
    add_loop-First object (suc k) i zero f =
        let e : i + 0 ≡ i = omega arith in rw e (rw (rw e at f.passes) refl)
    add_loop-First object (suc k) i (suc s) f =
        let g = First-step free k i s f in
        let e : i + suc s ≡ i + 1 + s = omega arith in
        rw (g.0, e) (add_loop-First object k (i + 1) s g.1)

    pub add_loop-Nowhere :
        (object : P) (k i : ℕ)
        → Nowhere free k i n table
        → add_loop empty k i n uid object table ≡ none
    unfolding add_loop
    add_loop-Nowhere object zero i f = refl
    add_loop-Nowhere object (suc k) i f =
        rw (sym (ap free (start free n table i)) ∙ f 0 (omega arith)) (
          add_loop-Nowhere object k (i + 1)
            (λ r l. rw (sym (next free n table i r)) at (f (suc r) (omega arith))))

    -- `get_loop` stops at the first bucket that holds the identifier.
    pub get_loop-First :
        (k i s : ℕ)
        → First (holds empty uid) k i n table s
        → get_loop empty k i n uid table
          ≡ some (
            (i + s) % n,
            set table
                ((i + s) % n)
                (record (probed i n table s) { refcount = (probed i n table s).refcount + 1 }),
          )
    unfolding get_loop
    get_loop-First zero i s f = absurd (omega (arith, f.in_window))
    get_loop-First (suc k) i zero f =
        let e : i + 0 ≡ i = omega arith in rw e (rw (rw e at f.passes) refl)
    get_loop-First (suc k) i (suc s) f =
        let g = First-step (holds empty uid) k i s f in
        let e : i + suc s ≡ i + 1 + s = omega arith in rw (g.0, e) (get_loop-First k (i + 1) s g.1)

    pub get_loop-Nowhere :
        (k i : ℕ) → Nowhere (holds empty uid) k i n table → get_loop empty k i n uid table ≡ none
    unfolding get_loop
    get_loop-Nowhere zero i f = refl
    get_loop-Nowhere (suc k) i f =
        rw (sym (ap (holds empty uid) (start (holds empty uid) n table i)) ∙ f 0 (omega arith)) (
          get_loop-Nowhere k (i + 1)
            (λ r l. rw (sym (next (holds empty uid) n table i r)) at (f (suc r) (omega arith))))
