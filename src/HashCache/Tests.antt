-- ===== src/HashCache/Tests.antt =====
-- Runs of the cache on four buckets, of which the second has a reference.
use jsockd.Prelude.{
  ℕ, zero, suc, ◌%◌, ◌<◌, ◌≡◌, ◌≢◌, refl, List, [], ◌∷◌, ◌⊎◌, some, none, get_or, arith,
}
use jsockd.HashCache.{
  Bucket, n_buckets, get_cache_bucket, get_bucket_look_forward, Added, fill, add_loop,
  add_to_hash_cache, holds, get_loop, get_hash_cache_entry,
}
use jsockd.HashCache.Probe.{free}
use jsockd.HashCache.Entry.{Finds, Misses, get_hash_cache_entry-Outcome}
use jsockd.HashCache.Lookup.{
  IsSettled, FirstAt, NowhereIn, added_at, hit_at, FoundNew, add_to_hash_cache-Outcome,
  get_hash_cache_entry-add,
}

abbrev bucket : ℕ → ℕ → ℕ → ℕ → Bucket ℕ
bucket uid refcount update_count payload = record {
  uid = uid;
  refcount = refcount;
  update_count = update_count;
  payload = payload;
}

abbrev empty : Bucket ℕ
empty = bucket 0 0 0 0

abbrev before : List (Bucket ℕ)
before = empty ∷ bucket 9 1 2 70 ∷ bucket 6 0 4 71 ∷ empty ∷ []

-- The entry 5 belongs to the second bucket, and goes to the third, which has an old entry.
abbrev added : Added ℕ
added = record {
  index = 2;
  evicted = some (bucket 6 0 4 71);
  table = empty ∷ bucket 9 1 2 70 ∷ bucket 5 1 6 72 ∷ empty ∷ [];
}

add_run : add_to_hash_cache empty 2 5 72 before ≡ some added
unfolding add_to_hash_cache add_loop fill n_buckets get_cache_bucket get_bucket_look_forward
add_run = refl

abbrev after_get : List (Bucket ℕ)
after_get = empty ∷ bucket 9 2 2 70 ∷ bucket 6 0 4 71 ∷ empty ∷ []

get_run : get_hash_cache_entry empty 2 9 before ≡ some (1, after_get)
unfolding get_hash_cache_entry get_loop holds n_buckets get_cache_bucket get_bucket_look_forward
get_run = refl

before-IsSettled : IsSettled empty 2 before
unfolding n_buckets
before-IsSettled = record { sized = refl; even = even }
  where
    even : (j : ℕ) → j < 4 → (get_or before j empty).update_count % 2 ≡ 0
    even zero l = refl
    even (suc zero) l = refl
    even (suc (suc zero)) l = refl
    even (suc (suc (suc zero))) l = refl
    even (suc (suc (suc (suc j)))) l = absurd (omega arith)

five_absent : NowhereIn empty 2 5 (holds empty 5) before
unfolding holds n_buckets get_cache_bucket get_bucket_look_forward
five_absent zero l = refl
five_absent (suc zero) l = refl
five_absent (suc (suc zero)) l = refl
five_absent (suc (suc (suc r))) l = absurd (omega arith)

five : ◌≢◌ {A = ℕ} 5 0
five = omega arith

nine : ◌≢◌ {A = ℕ} 9 0
nine = omega arith

add_to_hash_cache-Outcome_example :
    ((s : ℕ) × FirstAt empty 2 5 free before s
      × (add_to_hash_cache empty 2 5 72 before ≡ some (added_at empty 2 5 72 before s)))
    ⊎ (NowhereIn empty 2 5 free before × (add_to_hash_cache empty 2 5 72 before ≡ none))
add_to_hash_cache-Outcome_example = add_to_hash_cache-Outcome empty 2 5 72 before five

get_hash_cache_entry-Outcome_example :
    ((s : ℕ) × Finds empty 2 9 before s
      × (get_hash_cache_entry empty 2 9 before ≡ some (hit_at empty 2 9 before s)))
    ⊎ (Misses empty 2 9 before × (get_hash_cache_entry empty 2 9 before ≡ none))
get_hash_cache_entry-Outcome_example = get_hash_cache_entry-Outcome empty 2 9 before nine

get_hash_cache_entry-add_example : FoundNew empty 2 5 72 added
get_hash_cache_entry-add_example =
    get_hash_cache_entry-add empty 2 5 72 before added five before-IsSettled five_absent add_run
