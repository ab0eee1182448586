-- ===== src/HashCache.antt =====
-- The hash cache of jsockd_server/src/hash_cache.c, as one thread's calls see it while no other thread
-- is inside one: each atomic operation is a read or a write of the bucket.
pub mod Probe
pub mod Lookup
pub mod Entry
pub mod Release
pub mod Seqlock
mod Tests
use jsockd.Prelude.{
  ℕ, zero, suc, ◌+◌, ◌-◌, ◌*◌, ◌/◌, ◌%◌, ◌^◌, ◌<◌, List, Bool, true, false, not, ◌&&◌, ◌==◌,
  if◌then◌else◌, Option, some, none, length, get_or, set,
}
use jsockd.Prelude.Int.{ℤ, pos, negsuc}

-- `HashCacheBucket` with its payload. The counters are 32-bit numbers, and a reference count is not
-- negative, since each decrement belongs to an increment.
pub record Bucket (P : Type 0) : Type 0 where
  pub uid : ℕ
  pub refcount : ℕ
  pub update_count : ℕ
  pub payload : P

-- `HASH_CACHE_BUCKET_ARRAY_SIZE_FROM_HASH_BITS`
unfoldable pub n_buckets : ℕ → ℕ
n_buckets n_bits = 2 ^ n_bits

-- `get_cache_bucket`
unfoldable pub get_cache_bucket : ℕ → ℕ → ℕ
get_cache_bucket uid n_bits = uid % 2 ^ n_bits

-- `get_bucket_look_forward`
unfoldable pub get_bucket_look_forward : ℕ → ℕ
get_bucket_look_forward n_bits = n_bits * 3 / 2

-- `fetch_add(&update_count, 1)`: on an `int32_t`, as the bit pattern.
abbrev pub bump : ℕ → ℕ
bump count = (count + 1) % 2 ^ 32

-- What `add_to_hash_cache_` leaves: the index of the bucket, the old bucket if the cleanup function
-- was called on it, and the table.
pub record Added (P : Type 0) : Type 0 where
  pub index : ℕ
  pub evicted : Option (Bucket P)
  pub table : List (Bucket P)

module _ {P : Type 0} (empty : Bucket P) where
  -- The body of the loop of `add_to_hash_cache_` on a bucket with no references.
  unfoldable pub fill : Bucket P → ℕ → P → Bucket P
  fill b uid object = record {
    uid = uid;
    refcount = 1;
    update_count = bump (bump b.update_count);
    payload = object;
  }

  -- The loop of `add_to_hash_cache_`, with the number of rounds left and the index `i`.
  unfoldable pub add_loop : ℕ → ℕ → ℕ → ℕ → P → List (Bucket P) → Option (Added P)
  add_loop zero i n uid object table = none
  add_loop (suc k) i n uid object table =
      let j = i % n in
      let b = get_or table j empty in
      let rest = add_loop k (i + 1) n uid object table in
      if b.refcount == 0
      then some (record {
        index = j;
        evicted = if b.uid == 0 then none else some b;
        table = set table j (fill b uid object);
      })
      else rest

  -- `add_to_hash_cache_`
  unfoldable pub add_to_hash_cache : ℕ → ℕ → P → List (Bucket P) → Option (Added P)
  add_to_hash_cache n_bits uid object table =
      if uid == 0
      then none
      else add_loop (get_bucket_look_forward n_bits) (get_cache_bucket uid n_bits)
          (n_buckets n_bits) uid object table

  -- The spin loop of `get_hash_cache_entry_`: a bucket that is being updated stays so, and is passed
  -- over after `LOW_CONTENTION_SPIN_LOCK_MAX_TRIES` rounds.
  unfoldable pub holds : ℕ → Bucket P → Bool
  holds uid b = b.update_count % 2 == 0 && uid == b.uid

  -- The loop of `get_hash_cache_entry_`.
  unfoldable pub get_loop : ℕ → ℕ → ℕ → ℕ → List (Bucket P) → Option (ℕ × List (Bucket P))
  get_loop zero i n uid table = none
  get_loop (suc k) i n uid table =
      let j = i % n in
      let b = get_or table j empty in
      let rest = get_loop k (i + 1) n uid table in
      if holds uid b then some (j, set table j (record b { refcount = b.refcount + 1 })) else rest

  -- `get_hash_cache_entry_`: the index of the bucket, and the table with one more reference.
  unfoldable pub get_hash_cache_entry : ℕ → ℕ → List (Bucket P) → Option (ℕ × List (Bucket P))
  get_hash_cache_entry n_bits uid table =
      if uid == 0
      then none
      else get_loop (get_bucket_look_forward n_bits) (get_cache_bucket uid n_bits)
          (n_buckets n_bits) uid table

  -- `decrement_hash_cache_bucket_refcount`
  unfoldable pub decrement_refcount : ℕ → List (Bucket P) → List (Bucket P)
  decrement_refcount j table =
      let b = get_or table j empty in set table j (record b { refcount = b.refcount - 1 })
