-- ===== src/HashCache/Seqlock/Counts.antt =====
-- The references and the updates that the threads at one bucket account for (hash_cache.c).
use jsockd.Prelude.{ℕ, zero, suc, ◌+◌, ◌-◌, ◌%◌, ◌≤◌, ◌≡◌, arith}
use jsockd.HashCache.{Bucket}
use jsockd.HashCache.Seqlock.{
  Thread, outside, holding, load_count, load_uid, take_ref, check_count, undo_ref, exchange,
  make_odd, clean, copy, store_uid, make_even, Turn, get, add, go, act,
}

module _ {P : Type 0} where
  -- The thread has made the counter odd.
  abbrev pub odd : Thread P → ℕ
  odd (clean uid object) = 1
  odd (copy uid object) = 1
  odd (store_uid uid object) = 1
  odd (make_even uid object) = 1
  odd t = 0

  -- The thread has won the exchange, and not made the counter odd yet.
  abbrev pub won : Thread P → ℕ
  won (make_odd uid object) = 1
  won t = 0

  -- The thread has taken a reference in a lookup, or was given one.
  abbrev pub refs : Thread P → ℕ
  refs holding = 1
  refs (check_count uid n before) = 1
  refs (undo_ref uid n) = 1
  refs t = 0

  -- What one operation does to the counters is what it does to the thread's share.
  pub record Balanced (t : Thread P) (b : Bucket P) (t' : Thread P) (b' : Bucket P) : Type 0 where
    pub counted : b'.refcount + (odd t + won t + refs t) ≡ b.refcount + (odd t' + won t' + refs t')
    pub flipped : b'.update_count % 2 + odd t ≡ b.update_count % 2 + odd t'
    pub begun : odd t' + won t' ≤ odd t + won t + (1 - b.refcount)

  module _ (cleanup : P → P) (b : Bucket P) where
    pub act-Balanced :
        (u : Turn P) (t : Thread P)
        → odd t + won t + refs t ≤ b.refcount
        → (1 ≤ odd t + won t → b.update_count % 2 ≡ odd t)
        → Balanced t b (act cleanup u t b).0 (act cleanup u t b).1
    unfolding act
    act-Balanced u holding h k = record {
      counted = ground arith;
      flipped = ground arith;
      begun = ground arith;
    }
    act-Balanced (get zero) outside h k = record {
      counted = ground (arith, h, k);
      flipped = ground (arith, h, k);
      begun = ground (arith, h, k);
    }
    act-Balanced (get (suc uid)) outside h k = record {
      counted = ground (arith, h, k);
      flipped = ground (arith, h, k);
      begun = ground (arith, h, k);
    }
    act-Balanced (add uid object) outside h k = record {
      counted = ground (arith, h, k);
      flipped = ground (arith, h, k);
      begun = ground (arith, h, k);
    }
    act-Balanced go outside h k = record {
      counted = ground (arith, h, k);
      flipped = ground (arith, h, k);
      begun = ground (arith, h, k);
    }
    act-Balanced u (load_count uid zero) h k = record {
      counted = ground (arith, h, k);
      flipped = ground (arith, h, k);
      begun = ground (arith, h, k);
    }
    act-Balanced u (load_count uid (suc n)) h k = record {
      counted = ground (arith, h, k);
      flipped = ground (arith, h, k);
      begun = ground (arith, h, k);
    }
    act-Balanced u (load_uid uid n before) h k = record {
      counted = ground (arith, h, k);
      flipped = ground (arith, h, k);
      begun = ground (arith, h, k);
    }
    act-Balanced u (take_ref uid n before) h k = record {
      counted = ground (arith, h, k);
      flipped = ground (arith, h, k);
      begun = ground (arith, h, k);
    }
    act-Balanced u (check_count uid n before) h k = record {
      counted = ground (arith, h, k);
      flipped = ground (arith, h, k);
      begun = ground (arith, h, k);
    }
    act-Balanced u (undo_ref uid zero) h k = record {
      counted = ground (arith, h, k);
      flipped = ground (arith, h, k);
      begun = ground (arith, h, k);
    }
    act-Balanced u (undo_ref uid (suc n)) h k = record {
      counted = ground (arith, h, k);
      flipped = ground (arith, h, k);
      begun = ground (arith, h, k);
    }
    act-Balanced u (exchange uid object) h k = record {
      counted = ground (arith, h, k);
      flipped = ground (arith, h, k);
      begun = ground (arith, h, k);
    }
    act-Balanced u (make_odd uid object) h k = record {
      counted = ground (arith, h, k);
      flipped = ground (arith, h, k);
      begun = ground (arith, h, k);
    }
    act-Balanced u (clean uid object) h k = record {
      counted = ground (arith, h, k);
      flipped = ground (arith, h, k);
      begun = ground (arith, h, k);
    }
    act-Balanced u (copy uid object) h k = record {
      counted = ground (arith, h, k);
      flipped = ground (arith, h, k);
      begun = ground (arith, h, k);
    }
    act-Balanced u (store_uid uid object) h k = record {
      counted = ground (arith, h, k);
      flipped = ground (arith, h, k);
      begun = ground (arith, h, k);
    }
    act-Balanced u (make_even uid object) h k = record {
      counted = ground (arith, h, k);
      flipped = ground (arith, h, k);
      begun = ground (arith, h, k);
    }
