-- ===== src/HashCache/Seqlock/Tests.antt =====
-- Interleavings at one bucket (hash_cache.c), and the theorems at concrete ones.
use jsockd.Prelude.{ℕ, ◌≡◌, ◌≢◌, refl, List, [], ◌∷◌, get_or, arith, ◌*◌, ◌≤◌, replicate, true}
use jsockd.HashCache.{Bucket, get_bucket_look_forward}
use jsockd.HashCache.Seqlock.{outside, holding, exchange, Turn, get, add, go, State, run, act}
use jsockd.HashCache.Seqlock.Valid.{IsValid, run-IsValid}
use jsockd.HashCache.Seqlock.Held.{run_entry_stays}
use jsockd.HashCache.Seqlock.Ends.{returned, arrive, body, begin, call, Returned, ops, call_ends}
use jsockd.HashCache.Seqlock.Races.{lookup_in_window, update, run_race}

abbrev cleanup : ℕ → ℕ
cleanup payload = 0

abbrev entry : Bucket ℕ
entry = record { uid = 5; refcount = 0; update_count = 4; payload = 9 }

abbrev two_threads : State ℕ
two_threads = record { bucket = entry; threads = outside ∷ outside ∷ [] }

two_threads-IsValid : IsValid two_threads
two_threads-IsValid = record { counted = refl; one_writer = omega arith; parity = refl }

run-IsValid_example : IsValid (run cleanup (lookup_in_window 5 6 1) two_threads)
run-IsValid_example = run-IsValid cleanup (lookup_in_window 5 6 1) two_threads two_threads-IsValid

-- A thread has a reference, and another tries to insert.
abbrev one_holds : State ℕ
one_holds = record { bucket = record entry { refcount = 1 }; threads = holding ∷ outside ∷ [] }

abbrev tries_to_add : List (ℕ × Turn ℕ)
tries_to_add = (1, add 6 1) ∷ (1, go) ∷ (1, get 5) ∷ (1, go) ∷ []

run_entry_stays_example :
    ((run cleanup tries_to_add one_holds).bucket.uid ≡ 5)
    × ((run cleanup tries_to_add one_holds).bucket.payload ≡ 9)
run_entry_stays_example =
    run_entry_stays cleanup 0 tries_to_add one_holds
      (record { counted = refl; one_writer = omega arith; parity = refl }) refl refl
      (one_zero, (one_zero, (one_zero, (one_zero, tt))))
  where
    one_zero : ◌≢◌ {A = ℕ} 1 0
    one_zero = λ e. absurd (ground (arith, e))

abbrev add_six : Turn ℕ
add_six = add 6 1

-- The window has three buckets, and every one is taken.
call_ends_example :
    Returned
      (call cleanup (exchange 6 1) (replicate 18 (record entry { refcount = 1 })) (begin 2 add_six))
call_ends_example = call_ends cleanup 2 add_six (replicate 18 (record entry { refcount = 1 })) three
  where
    three : get_bucket_look_forward 2 * ops add_six ≤ 18
    three = unfold get_bucket_look_forward in omega arith

-- A lookup passes over a bucket of another identifier, and takes a reference to the next one.
call_run :
    call cleanup
      (body (get 5))
      (record entry { uid = 9 } ∷ record entry { uid = 9 } ∷ entry ∷ entry ∷ entry ∷ entry ∷ [])
      (begin 2 (get 5))
    ≡ returned true
unfolding call begin arrive act get_bucket_look_forward
call_run = refl

run_race_example :
    let found = run cleanup (lookup_in_window 5 6 1) two_threads in
    let updated = run cleanup (update 5 6 1) found in
    (get_or found.threads 0 outside ≡ holding)
    × (found.bucket.uid ≡ 5)
    × (found.bucket.payload ≡ 9)
    × (get_or updated.threads 0 outside ≡ holding)
    × (updated.bucket.uid ≡ 6)
    × (updated.bucket.payload ≡ 1)
run_race_example =
    run_race 5 6 1 cleanup entry refl refl refl (λ e. absurd (ground (arith, e)))
      (λ e. absurd (ground (arith, e)))
