-- ===== src/HashCache/Entry.antt =====
-- What `get_hash_cache_entry_` (jsockd_server/src/hash_cache.c) finds, described without its own test.
use jsockd.Prelude.{
  ℕ, ◌%◌, ◌<◌, ◌≡◌, ◌≢◌, List, true, false, inl, inr, ◌⊎◌, some, none, get_or, arith,
}
use jsockd.HashCache.{Bucket, get_bucket_look_forward, holds, get_hash_cache_entry}
use jsockd.HashCache.Lookup.{index_at, hit_at, get_hash_cache_entry-holds}

module _ {P : Type 0} (empty : Bucket P) (n_bits uid : ℕ) where
  -- The bucket has an entry with the identifier and is not being updated.
  abbrev pub HasEntry : Bucket P → Type 0
  HasEntry b = (b.uid ≡ uid) × (b.update_count % 2 ≡ 0)

  -- Step `s` is the first one of the window whose bucket has the entry.
  pub record Finds (table : List (Bucket P)) (s : ℕ) : Type 0 where
    pub in_window : s < get_bucket_look_forward n_bits
    pub found : HasEntry (get_or table (index_at empty n_bits uid s) empty)
    pub earlier : (r : ℕ) → r < s → ¬ HasEntry (get_or table (index_at empty n_bits uid r) empty)

  -- No bucket of the window has the entry.
  abbrev pub Misses : List (Bucket P) → Type 0
  Misses table =
      (r : ℕ)
      → r < get_bucket_look_forward n_bits
      → ¬ HasEntry (get_or table (index_at empty n_bits uid r) empty)

  holds-HasEntry : (b : Bucket P) → holds empty uid b ≡ true → HasEntry b
  unfolding holds
  holds-HasEntry b h = (ground (arith, h), ground (arith, h))

  holds-false : (b : Bucket P) → holds empty uid b ≡ false → ¬ HasEntry b
  unfolding holds
  holds-false b h e = ground (arith, h, e.0, e.1)

  -- Looking an entry up finds the first bucket of the window that has the identifier and whose update
  -- count is even, that is, which is not being updated, takes a reference to it and changes no other
  -- bucket; it fails if no bucket of the window is such. The identifier is not 0.
  pub get_hash_cache_entry-Outcome :
      (table : List (Bucket P))
      → uid ≢ 0
      → ((s : ℕ) × Finds table s
          × (get_hash_cache_entry empty n_bits uid table ≡ some (hit_at empty n_bits uid table s)))
        ⊎ (Misses table × (get_hash_cache_entry empty n_bits uid table ≡ none))
  get_hash_cache_entry-Outcome table h =
      elim (get_hash_cache_entry-holds empty n_bits uid table h) [
        | inl w ↦ inl (
          w.0,
          record {
            in_window = w.1.in_window;
            found = holds-HasEntry _ w.1.passes;
            earlier = λ r l. holds-false _ (w.1.earlier r l);
          },
          w.2,
        )
        | inr f ↦ inr ((λ r l. holds-false _ (f.0 r l)), f.1)
      ]
