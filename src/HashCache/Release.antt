-- ===== src/HashCache/Release.antt =====
-- `decrement_hash_cache_bucket_refcount` behind `get_hash_cache_entry_` (jsockd_server/src/hash_cache.c).
use jsockd.Prelude.{
  get_or-set_self, set-set-set, set-get_or, ℕ, ◌+◌, ◌-◌, ◌<◌, ◌≡◌, ◌≢◌, sym, ap, ◌∙◌, subst, List,
  inl, inr, some, length, get_or, set, arith,
}
use jsockd.HashCache.{Bucket, n_buckets, get_hash_cache_entry, decrement_refcount}
use jsockd.HashCache.Lookup.{
  index_at, index_at-lt, hit_at, get_hash_cache_entry-holds, same-some, none-some,
}

module _ {P : Type 0} (empty : Bucket P) (n_bits uid : ℕ) where
  hit_at-decrement :
      (table : List (Bucket P))
      → length table ≡ n_buckets n_bits
      → (s : ℕ)
      → decrement_refcount empty
          (hit_at empty n_bits uid table s).0
          (hit_at empty n_bits uid table s).1
        ≡ table
  unfolding decrement_refcount
  hit_at-decrement table v s =
      let b = get_or table (index_at empty n_bits uid s) empty in
      let here : index_at empty n_bits uid s < length table =
        omega (arith, v, index_at-lt empty n_bits uid s) in
      let c : Bucket P = record b { refcount = b.refcount + 1 } in
      let self : get_or (set table (index_at empty n_bits uid s) c) (index_at empty n_bits uid s)
            empty
          ≡ c =
        get_or-set_self table (index_at empty n_bits uid s) c empty here in
      let k : b.refcount + 1 - 1 ≡ b.refcount = omega arith in
      ap
        (λ (x : Bucket P).
          set (set table (index_at empty n_bits uid s) c) (index_at empty n_bits uid s)
            (record x { refcount = x.refcount - 1 }))
        self
      ∙ set-set-set table (index_at empty n_bits uid s) c
          (record b { refcount = b.refcount + 1 - 1 })
      ∙ ap (λ m. set table (index_at empty n_bits uid s) (record b { refcount = m })) k
      ∙ set-get_or table (index_at empty n_bits uid s) empty

  -- Giving a reference back undoes the lookup that took it: the table is as it was.
  pub decrement_refcount-get :
      (table t : List (Bucket P)) (j : ℕ)
      → uid ≢ 0
      → length table ≡ n_buckets n_bits
      → get_hash_cache_entry empty n_bits uid table ≡ some (j, t)
      → decrement_refcount empty j t ≡ table
  decrement_refcount-get table t j h v e =
      elim (get_hash_cache_entry-holds empty n_bits uid table h) [
        | inl w ↦
            let p = same-some _ (j, t) (sym w.2 ∙ e) in
            subst (λ (x : ℕ × List (Bucket P)). decrement_refcount empty x.0 x.1 ≡ table) p
              (hit_at-decrement table v w.0)
        | inr w ↦ absurd (none-some (j, t) (sym w.1 ∙ e))
      ]
