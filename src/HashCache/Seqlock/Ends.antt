-- ===== src/HashCache/Seqlock/Ends.antt =====
-- The loops of `get_hash_cache_entry_` and `add_to_hash_cache_` (jsockd_server/src/hash_cache.c) over the
-- window of buckets, and how many operations a call takes, whatever the other threads do.
use jsockd.Prelude.{
  ℕ, zero, suc, ◌+◌, ◌-◌, ◌*◌, ◌≤◌, ◌<◌, List, [], ◌∷◌, Bool, true, false, ◌==◌, if◌then◌else◌,
  length, Bool-cases, inl, inr, arith,
}
use jsockd.HashCache.{Bucket, get_bucket_look_forward}
use jsockd.HashCache.Seqlock.{
  Thread, outside, holding, load_count, load_uid, take_ref, check_count, undo_ref, exchange,
  make_odd, clean, copy, store_uid, make_even, max_tries, Turn, get, add, go, retry, act,
}

-- A call stands at a bucket of its window, with the number of buckets behind it; or it has returned, a
-- bucket or NULL.
pub data Call (P : Type 0) : Type 0 where
  at_bucket : ℕ → Thread P → Call P
  returned : Bool → Call P

module _ {P : Type 0} where
  -- The head of the `for` loop over the window, with the number of buckets that are left, and where the
  -- body of the loop starts.
  abbrev pub next_bucket : Thread P → ℕ → Call P
  next_bucket start zero = returned false
  next_bucket start (suc k) = at_bucket k start

  -- Where a call stands behind an operation: a thread that is done with a bucket without a reference
  -- goes on with the next one.
  unfoldable pub arrive : Thread P → ℕ → Thread P → Call P
  arrive start k outside = next_bucket start k
  arrive start k holding = returned true
  arrive start k (load_count uid n) = at_bucket k (load_count uid n)
  arrive start k (load_uid uid n before) = at_bucket k (load_uid uid n before)
  arrive start k (take_ref uid n before) = at_bucket k (take_ref uid n before)
  arrive start k (check_count uid n before) = at_bucket k (check_count uid n before)
  arrive start k (undo_ref uid n) = at_bucket k (undo_ref uid n)
  arrive start k (exchange uid object) = at_bucket k (exchange uid object)
  arrive start k (make_odd uid object) = at_bucket k (make_odd uid object)
  arrive start k (clean uid object) = at_bucket k (clean uid object)
  arrive start k (copy uid object) = at_bucket k (copy uid object)
  arrive start k (store_uid uid object) = at_bucket k (store_uid uid object)
  arrive start k (make_even uid object) = at_bucket k (make_even uid object)

  -- Where the body of the loop starts.
  abbrev pub body : Turn P → Thread P
  body (get uid) = retry uid max_tries
  body (add uid object) = exchange uid object
  body go = outside

  -- A call at its start; an identifier 0 has no window.
  unfoldable pub begin : ℕ → Turn P → Call P
  begin n_bits (get uid) =
      if uid == 0
      then returned false
      else next_bucket (body (get uid)) (get_bucket_look_forward n_bits)
  begin n_bits (add uid object) =
      if uid == 0
      then returned false
      else next_bucket (body (add uid object)) (get_bucket_look_forward n_bits)
  begin n_bits go = returned false

  module _ (cleanup : P → P) where
    -- The operations of a call, one after the other. The other threads decide what each of them finds in
    -- the bucket.
    unfoldable pub call : Thread P → List (Bucket P) → Call P → Call P
    call start [] c = c
    call start (b ∷ found) (at_bucket k t) =
        call start found (arrive start k (act cleanup go t b).0)
    call start (b ∷ found) (returned r) = returned r

  -- The call has returned.
  abbrev pub Returned : Call P → Type 0
  Returned (at_bucket k t) = ⊥
  Returned (returned r) = Unit

  -- The operations on one bucket of the window: 5 for each of 200 tries, or those of an insertion.
  abbrev pub ops : Turn P → ℕ
  ops (get uid) = 1000
  ops (add uid object) = 6
  ops go = 0

  -- The operations that a call has left at most at the bucket where it stands.
  abbrev rank : Thread P → ℕ
  rank outside = 0
  rank holding = 0
  rank (load_count uid n) = 5 * n + 5
  rank (load_uid uid n before) = 5 * n + 4
  rank (take_ref uid n before) = 5 * n + 3
  rank (check_count uid n before) = 5 * n + 2
  rank (undo_ref uid n) = 5 * n + 1
  rank (exchange uid object) = 6
  rank (make_odd uid object) = 5
  rank (clean uid object) = 4
  rank (copy uid object) = 3
  rank (store_uid uid object) = 2
  rank (make_even uid object) = 1

  -- The operations that a call has left at most, with `m` for each bucket; none are left only behind it.
  abbrev left : ℕ → Call P → ℕ
  left m (at_bucket k t) = k * m + rank t
  left m (returned r) = 0

  next-left : (start : Thread P) (k : ℕ) → left (rank start) (next_bucket start k) ≤ k * rank start
  next-left start zero = omega arith
  next-left start (suc k) = omega arith

  arrive-left :
      (start : Thread P) (k : ℕ) (t : Thread P)
      → left (rank start) (arrive start k t) ≤ k * rank start + rank t
  unfolding arrive
  arrive-left start k outside = omega (arith, next-left start k)
  arrive-left start k holding = omega arith
  arrive-left start k (load_count uid n) = omega arith
  arrive-left start k (load_uid uid n before) = omega arith
  arrive-left start k (take_ref uid n before) = omega arith
  arrive-left start k (check_count uid n before) = omega arith
  arrive-left start k (undo_ref uid n) = omega arith
  arrive-left start k (exchange uid object) = omega arith
  arrive-left start k (make_odd uid object) = omega arith
  arrive-left start k (clean uid object) = omega arith
  arrive-left start k (copy uid object) = omega arith
  arrive-left start k (store_uid uid object) = omega arith
  arrive-left start k (make_even uid object) = omega arith

  -- The thread stands in front of an operation.
  abbrev IsBusy : Thread P → Type 0
  IsBusy t = 0 < rank t

  abbrev Goes : Call P → Type 0
  Goes (at_bucket k t) = IsBusy t
  Goes (returned r) = Unit

  next-Goes : (start : Thread P) (k : ℕ) → IsBusy start → Goes (next_bucket start k)
  next-Goes start zero h = tt
  next-Goes start (suc k) h = h

  arrive-Goes : (start : Thread P) (k : ℕ) (t : Thread P) → IsBusy start → Goes (arrive start k t)
  unfolding arrive
  arrive-Goes start k outside h = next-Goes start k h
  arrive-Goes start k holding h = tt
  arrive-Goes start k (load_count uid n) h = omega arith
  arrive-Goes start k (load_uid uid n before) h = omega arith
  arrive-Goes start k (take_ref uid n before) h = omega arith
  arrive-Goes start k (check_count uid n before) h = omega arith
  arrive-Goes start k (undo_ref uid n) h = omega arith
  arrive-Goes start k (exchange uid object) h = omega arith
  arrive-Goes start k (make_odd uid object) h = omega arith
  arrive-Goes start k (clean uid object) h = omega arith
  arrive-Goes start k (copy uid object) h = omega arith
  arrive-Goes start k (store_uid uid object) h = omega arith
  arrive-Goes start k (make_even uid object) h = omega arith

  module _ (cleanup : P → P) where
    rank-act : (t : Thread P) (b : Bucket P) → rank (act cleanup go t b).0 ≤ rank t - 1
    unfolding act
    rank-act outside b = ground arith
    rank-act holding b = ground arith
    rank-act (load_count uid zero) b = ground arith
    rank-act (load_count uid (suc n)) b = ground arith
    rank-act (load_uid uid n before) b = ground arith
    rank-act (take_ref uid n before) b = ground arith
    rank-act (check_count uid n before) b = ground arith
    rank-act (undo_ref uid zero) b = ground arith
    rank-act (undo_ref uid (suc n)) b = ground arith
    rank-act (exchange uid object) b = ground arith
    rank-act (make_odd uid object) b = ground arith
    rank-act (clean uid object) b = ground arith
    rank-act (copy uid object) b = ground arith
    rank-act (store_uid uid object) b = ground arith
    rank-act (make_even uid object) b = ground arith

    call-Returned :
        (start : Thread P) (found : List (Bucket P)) (c : Call P)
        → IsBusy start
        → Goes c
        → left (rank start) c ≤ length found
        → Returned (call cleanup start found c)
    unfolding call
    call-Returned start [] (at_bucket k t) h g l = absurd (omega (arith, g, l))
    call-Returned start [] (returned r) h g l = tt
    call-Returned start (b ∷ found) (returned r) h g l = tt
    call-Returned start (b ∷ found) (at_bucket k t) h g l =
        let t' = (act cleanup go t b).0 in
        call-Returned start found (arrive start k t') h (arrive-Goes start k t' h)
          (omega (arith, arrive-left start k t', rank-act t b, g, l))

    -- A call of `get_hash_cache_entry_` or `add_to_hash_cache_` ends, whatever the other threads do to
    -- the buckets between its operations: it has returned after 1,000 operations for each bucket of its
    -- window in a lookup, and 6 in an insertion.
    pub call_ends :
        (n_bits : ℕ) (request : Turn P) (found : List (Bucket P))
        → get_bucket_look_forward n_bits * ops request ≤ length found
        → Returned (call cleanup (body request) found (begin n_bits request))
    unfolding begin call
    call_ends n_bits (get uid) found h = elim (Bool-cases (uid == 0)) [
      | inl e ↦
          rw e
            (call-Returned (body (get uid)) found (returned false) (omega arith) tt (omega arith))
      | inr e ↦ rw e (
          call-Returned (body (get uid)) found _ (omega arith)
            (next-Goes (body (get uid)) (get_bucket_look_forward n_bits) (omega arith))
            (omega (arith, next-left (body (get uid)) (get_bucket_look_forward n_bits), h)))
    ]
    call_ends n_bits (add uid object) found h = elim (Bool-cases (uid == 0)) [
      | inl e ↦ rw e (
          call-Returned (exchange uid object) found (returned false) (omega arith) tt (omega arith))
      | inr e ↦ rw e (
          call-Returned (exchange uid object) found _ (omega arith)
            (next-Goes (exchange uid object) (get_bucket_look_forward n_bits) (omega arith))
            (omega (arith, next-left (exchange uid object) (get_bucket_look_forward n_bits), h)))
    ]
    call_ends n_bits go [] h = tt
    call_ends n_bits go (b ∷ found) h = tt
