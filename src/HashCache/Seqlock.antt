-- ===== src/HashCache/Seqlock.antt =====
-- The seqlock of one bucket (jsockd_server/src/hash_cache.c), with any number of threads inside
-- `get_hash_cache_entry_` and `add_to_hash_cache_`: each thread stands in front of one of the atomic
-- operations, or of the copy of the object, and a schedule says who goes on. Each operation is seen by
-- all threads at once; the reorderings that the relaxed ones allow are not modelled.
pub mod Counts
pub mod Valid
pub mod Held
pub mod Ends
pub mod Races
mod Tests
use jsockd.Prelude.{
  ℕ, zero, suc, ◌+◌, ◌-◌, ◌%◌, ◌^◌, List, [], ◌∷◌, Bool, true, false, not, ◌==◌, if◌then◌else◌,
  get_or, set,
}
use jsockd.HashCache.{Bucket, bump}

-- `LOW_CONTENTION_SPIN_LOCK_MAX_TRIES`
abbrev pub max_tries : ℕ
max_tries = 200

-- Where a thread stands with the bucket: outside, that is in no call, or in a call that is at another
-- bucket of its window; with a reference that was returned to it; in a lookup of a uid, with the tries that are left and `update_count_before`; or in an insertion of a uid
-- and an object. What it does next is: load the counter, load the uid, take a reference, check the
-- counter, or give the reference back; exchange the reference count, make the counter odd, clean up,
-- copy the object, store the uid, or make the counter even.
pub data Thread (P : Type 0) : Type 0 where
  outside holding : Thread P
  load_count : ℕ → ℕ → Thread P
  load_uid take_ref check_count : ℕ → ℕ → ℕ → Thread P
  undo_ref : ℕ → ℕ → Thread P
  exchange make_odd clean copy store_uid make_even : ℕ → P → Thread P

-- What the next turn of a thread is: the loop of a call, which reaches the bucket from outside, or to go
-- on; at the bucket every turn goes on. A thread with a reference goes on by giving it back,
-- `decrement_hash_cache_bucket_refcount`.
pub data Turn (P : Type 0) : Type 0 where
  get : ℕ → Turn P
  add : ℕ → P → Turn P
  go : Turn P

pub record State (P : Type 0) : Type 0 where
  pub bucket : Bucket P
  pub threads : List (Thread P)

-- The next try of a lookup at this bucket, or the next bucket of the window, which is outside this one.
abbrev pub retry : {P : Type 0} → ℕ → ℕ → Thread P
retry uid zero = outside
retry uid (suc n) = load_count uid n

module _ {P : Type 0} (cleanup : P → P) where
  -- One operation of a thread on the bucket.
  unfoldable pub act : Turn P → Thread P → Bucket P → Thread P × Bucket P
  act (get uid) outside b = if uid == 0 then (outside, b) else (retry uid max_tries, b)
  act (add uid object) outside b = if uid == 0 then (outside, b) else (exchange uid object, b)
  act go outside b = (outside, b)
  act t holding b = (outside, record b { refcount = b.refcount - 1 })
  act t (load_count uid n) b =
      if b.update_count % 2 == 0 then (load_uid uid n b.update_count, b) else (retry uid n, b)
  act t (load_uid uid n before) b =
      if b.uid == uid then (take_ref uid n before, b) else (outside, b)
  act t (take_ref uid n before) b =
      (check_count uid n before, record b { refcount = b.refcount + 1 })
  act t (check_count uid n before) b =
      if b.update_count == before then (holding, b) else (undo_ref uid n, b)
  act t (undo_ref uid n) b = (retry uid n, record b { refcount = b.refcount - 1 })
  act t (exchange uid object) b =
      if b.refcount == 0 then (make_odd uid object, record b { refcount = 1 }) else (outside, b)
  act t (make_odd uid object) b =
      (clean uid object, record b { update_count = bump b.update_count })
  act t (clean uid object) b =
      (copy uid object, (if b.uid == 0 then b else record b { payload = cleanup b.payload }))
  act t (copy uid object) b = (store_uid uid object, record b { payload = object })
  act t (store_uid uid object) b = (make_even uid object, record b { uid = uid })
  act t (make_even uid object) b = (holding, record b { update_count = bump b.update_count })

  -- A turn of the thread `i`.
  unfoldable pub step : ℕ → Turn P → State P → State P
  step i t s =
      let (thread, bucket) = act t (get_or s.threads i outside) s.bucket in
      record { bucket = bucket; threads = set s.threads i thread }

  -- The turns of a schedule, one after the other.
  unfoldable pub run : List (ℕ × Turn P) → State P → State P
  run [] s = s
  run ((i, t) ∷ schedule) s = run schedule (step i t s)
