-- ===== src/HashCache/Seqlock/Races.antt =====
-- The window of the seqlock (hash_cache.c): behind the exchange, and in front of the first increment.
use jsockd.Prelude.{
  ℕ, ◌%◌, ◌≡◌, ◌≢◌, ◌∙◌, ap, refl, List, [], ◌∷◌, true, false, ◌==◌, get_or, arith,
}
use jsockd.HashCache.{Bucket, bump}
use jsockd.HashCache.Seqlock.{outside, holding, make_odd, Turn, get, add, go, State, act, step, run}

module _ {P : Type 0} (uid : ℕ) (uid' : ℕ) (object : P) where
  -- Thread 0 looks a uid up, and thread 1 wins the exchange before thread 0 takes its reference.
  abbrev pub lookup_in_window : List (ℕ × Turn P)
  lookup_in_window =
      (0, get uid) ∷ (0, go) ∷ (0, go) ∷ (1, add uid' object) ∷ (1, go) ∷ (0, go) ∷ (0, go) ∷ []

  -- Thread 1 makes its update.
  abbrev pub update : List (ℕ × Turn P)
  update = (1, go) ∷ (1, go) ∷ (1, go) ∷ (1, go) ∷ (1, go) ∷ []

  abbrev start : Bucket P → State P
  start b = record { bucket = b; threads = outside ∷ outside ∷ [] }

  abbrev in_window : Bucket P → State P
  in_window b = record {
    bucket = record b { refcount = 2 };
    threads = holding ∷ make_odd uid' object ∷ [];
  }

  abbrev replaced : Bucket P → State P
  replaced b = record {
    bucket = record {
      uid = uid';
      refcount = 2;
      update_count = bump (bump b.update_count);
      payload = object;
    };
    threads = holding ∷ holding ∷ [];
  }

  module _ (cleanup : P → P) (b : Bucket P) (found : b.uid ≡ uid) (some_uid : uid ≢ 0) where
    run-lookup_in_window :
        b.refcount ≡ 0
        → b.update_count % 2 ≡ 0
        → uid' ≢ 0
        → run cleanup lookup_in_window (start b) ≡ in_window b
    unfolding run step act
    run-lookup_in_window h e n' =
        let z : (uid == 0) ≡ false = ground (arith, some_uid) in
        let z' : (uid' == 0) ≡ false = ground (arith, n') in
        let r : (b.refcount == 0) ≡ true = ground (arith, h) in
        let c : (b.update_count % 2 == 0) ≡ true = ground (arith, e) in
        let f : (b.uid == uid) ≡ true = ground (arith, found) in
        let g : (b.update_count == b.update_count) ≡ true = ground arith in
        rw (z, c, f, z', r, g) refl

    run-update : run cleanup update (in_window b) ≡ replaced b
    unfolding run step act
    run-update = let z : (b.uid == 0) ≡ false = ground (arith, found, some_uid) in rw z refl

  -- A reference that does not keep the entry: at every bucket without references whose counter is even,
  -- a lookup of its uid and an insertion of any other can interleave so that the lookup returns the
  -- bucket while it has the old entry, and the insertion then replaces uid and object, while the lookup's
  -- thread still has its reference.
  pub run_race :
      (cleanup : P → P) (b : Bucket P)
      → b.refcount ≡ 0
      → b.update_count % 2 ≡ 0
      → b.uid ≡ uid
      → uid ≢ 0
      → uid' ≢ 0
      → let found =
          run cleanup lookup_in_window (record { bucket = b; threads = outside ∷ outside ∷ [] }) in
        let updated = run cleanup update found in
        (get_or found.threads 0 outside ≡ holding)
        × (found.bucket.uid ≡ uid)
        × (found.bucket.payload ≡ b.payload)
        × (get_or updated.threads 0 outside ≡ holding)
        × (updated.bucket.uid ≡ uid')
        × (updated.bucket.payload ≡ object)
  run_race cleanup b h e k n n' =
      let found = run-lookup_in_window cleanup b k n h e n' in
      let updated = ap (run cleanup update) found ∙ run-update cleanup b k n in
      (
        ap (λ s. get_or s.threads 0 outside) found,
        ap (λ s. s.bucket.uid) found ∙ k,
        ap (λ s. s.bucket.payload) found,
        ap (λ s. get_or s.threads 0 outside) updated,
        ap (λ s. s.bucket.uid) updated,
        ap (λ s. s.bucket.payload) updated,
      )
