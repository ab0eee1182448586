-- ===== src/HashCache/Lookup.antt =====
-- What `add_to_hash_cache_` and `get_hash_cache_entry_` (jsockd_server/src/hash_cache.c) do to the table,
-- together.
use native.Mathlib.Nat.{mod-lt}
use jsockd.Prelude.{
  get_or-set_self, get_or-set_ne, ℕ, zero, suc, ◌+◌, ◌%◌, ◌^◌, ◌<◌, ◌≡◌, ◌≢◌, sym, ap, ◌∙◌, subst,
  List, Bool, true, false, Bool-cases, ◌==◌, inl, inr, ◌⊎◌, if◌then◌else◌, some, none, length,
  get_or, set, length-set, arith,
}
use jsockd.HashCache.{
  Bucket, n_buckets, get_cache_bucket, get_bucket_look_forward, bump, Added, fill,
  add_to_hash_cache, holds, get_hash_cache_entry,
}
use jsockd.HashCache.Probe.{
  free, First, Nowhere, probe, add_loop-First, add_loop-Nowhere, get_loop-First, get_loop-Nowhere,
}

pow-pos : (n : ℕ) → 0 < 2 ^ n
pow-pos zero = omega arith
pow-pos (suc n) = omega (arith, pow-pos n)

eq_cases : (i j : ℕ) → (i ≡ j) ⊎ (i ≢ j)
eq_cases i j = elim (Bool-cases (i == j)) [
  | inl h ↦ inl (ground (arith, h))
  | inr h ↦ inr (ground (arith, h))
]

pub same-some : {A : Type 0} (x y : A) → some x ≡ some y → x ≡ y
same-some x y e = cc

pub none-some : {A : Type 0} (x : A) → none ≡ some x → ⊥
none-some x e = cc

stays_even : (n : ℕ) → n % 2 ≡ 0 → (n + 2) % 2 ^ 32 % 2 ≡ 0
stays_even n h = omega arith

-- The table has a bucket for every index, and none is being updated.
pub record IsSettled {P : Type 0} (empty : Bucket P) (n_bits : ℕ) (table : List (Bucket P))
    : Type 0 where
  pub sized : length table ≡ n_buckets n_bits
  pub even : (j : ℕ) → j < length table → (get_or table j empty).update_count % 2 ≡ 0

module _ {P : Type 0} (empty : Bucket P) (n_bits uid : ℕ) where
  -- The index of the bucket at step `s` of the window of the identifier.
  abbrev pub index_at : ℕ → ℕ
  index_at s = (get_cache_bucket uid n_bits + s) % n_buckets n_bits

  pub index_at-lt : (s : ℕ) → index_at s < n_buckets n_bits
  unfolding n_buckets
  index_at-lt s = mod-lt (get_cache_bucket uid n_bits + s) (pow-pos n_bits)

  -- The test holds in the window of the identifier for the first time at step `s`.
  abbrev pub FirstAt : (Bucket P → Bool) → List (Bucket P) → ℕ → Type 0
  FirstAt test table s =
      First empty test (get_bucket_look_forward n_bits) (get_cache_bucket uid n_bits)
        (n_buckets n_bits) table s

  -- The test holds nowhere in the window of the identifier.
  abbrev pub NowhereIn : (Bucket P → Bool) → List (Bucket P) → Type 0
  NowhereIn test table =
      Nowhere empty test (get_bucket_look_forward n_bits) (get_cache_bucket uid n_bits)
        (n_buckets n_bits) table

  -- The entry that an insertion leaves in a bucket: the identifier, the object and one reference, after
  -- two more updates.
  abbrev pub entry : Bucket P → P → Bucket P
  entry b object = record {
    uid = uid;
    refcount = 1;
    update_count = (b.update_count + 2) % 2 ^ 32;
    payload = object;
  }

  fill-entry : (b : Bucket P) (object : P) → fill empty b uid object ≡ entry b object
  unfolding fill
  fill-entry b object =
      ap (λ n. record { uid = uid; refcount = 1; update_count = n; payload = object })
        (bump_twice b.update_count)
    where
      bump_twice : (n : ℕ) → bump (bump n) ≡ (n + 2) % 2 ^ 32
      bump_twice n = omega arith

  -- What an insertion at step `s` of the window returns: the bucket there is overwritten, with one
  -- reference, and was cleaned up if it had an entry.
  abbrev pub added_at : P → List (Bucket P) → ℕ → Added P
  added_at object table s =
      let b = get_or table (index_at s) empty in
      record {
        index = index_at s;
        evicted = if b.uid == 0 then none else some b;
        table = set table (index_at s) (entry b object);
      }

  -- Adding an entry writes the identifier, the object and one reference to the first bucket of the window
  -- without references, whose update count grows by 2 and whose old entry is cleaned up, and changes no
  -- other bucket; it fails if every bucket of the window has references. The identifier is not 0.
  pub add_to_hash_cache-Outcome :
      (object : P) (table : List (Bucket P))
      → uid ≢ 0
      → ((s : ℕ) × FirstAt free table s
          × (add_to_hash_cache empty n_bits uid object table ≡ some (added_at object table s)))
        ⊎ (NowhereIn free table × (add_to_hash_cache empty n_bits uid object table ≡ none))
  unfolding add_to_hash_cache
  add_to_hash_cache-Outcome object table h =
      let e : (uid == 0) ≡ false = ground (arith, h) in
      elim (probe empty free (n_buckets n_bits) table (get_bucket_look_forward n_bits)
        (get_cache_bucket uid n_bits)) [
          | inl w ↦ inl (
            w.0,
            w.1,
            rw (e, ← fill-entry (get_or table (index_at w.0) empty) object)
                (add_loop-First empty _ uid table object _ _ w.0 w.1),
          )
          | inr f ↦ inr (f, rw e (add_loop-Nowhere empty _ uid table object _ _ f))
        ]

  -- What a hit at step `s` of the window returns: the bucket there gets one more reference.
  abbrev pub hit_at : List (Bucket P) → ℕ → ℕ × List (Bucket P)
  hit_at table s =
      let b = get_or table (index_at s) empty in
      (index_at s, set table (index_at s) (record b { refcount = b.refcount + 1 }))

  -- Looking an entry up, in terms of the test of the code.
  pub get_hash_cache_entry-holds :
      (table : List (Bucket P))
      → uid ≢ 0
      → ((s : ℕ) × FirstAt (holds empty uid) table s
          × (get_hash_cache_entry empty n_bits uid table ≡ some (hit_at table s)))
        ⊎ (NowhereIn (holds empty uid) table × (get_hash_cache_entry empty n_bits uid table ≡ none))
  unfolding get_hash_cache_entry
  get_hash_cache_entry-holds table h =
      let e : (uid == 0) ≡ false = ground (arith, h) in
      elim (probe empty (holds empty uid) (n_buckets n_bits) table (get_bucket_look_forward n_bits)
        (get_cache_bucket uid n_bits)) [
          | inl w ↦ inl (w.0, w.1, rw e (get_loop-First empty _ uid table _ _ w.0 w.1))
          | inr f ↦ inr (f, rw e (get_loop-Nowhere empty _ uid table _ _ f))
        ]

  -- An entry that was added at step `s` is the first one that a lookup finds.
  added-FirstAt :
      (object : P) (table : List (Bucket P)) (s : ℕ)
      → IsSettled empty n_bits table
      → NowhereIn (holds empty uid) table
      → FirstAt free table s
      → FirstAt
          (holds empty uid)
          (set table (index_at s) (entry (get_or table (index_at s) empty) object))
          s
  unfolding holds
  added-FirstAt object table s v absent f =
      let b = get_or table (index_at s) empty in
      let here : index_at s < length table = omega (arith, v.sized, index_at-lt s) in
      let self = get_or-set_self table (index_at s) (entry b object) empty here in
      record {
        in_window = f.in_window;
        passes = rw self (ground (arith, v.even (index_at s) here));
        earlier = λ r l.
            rw
              (get_or-set_ne table (index_at s) (index_at r) (entry b object) empty (λ e.
                clash (f.earlier r l) (sym (ap (λ j. free (get_or table j empty)) e) ∙ f.passes)))
              (absent r (omega (arith, l, f.in_window)));
      }
    where
      clash : {b : Bool} → b ≡ false → b ≡ true → ⊥
      clash p q = cc

  FirstAt-get :
      (table : List (Bucket P)) (s : ℕ)
      → uid ≢ 0
      → FirstAt (holds empty uid) table s
      → get_hash_cache_entry empty n_bits uid table ≡ some (hit_at table s)
  unfolding get_hash_cache_entry
  FirstAt-get table s h f =
      let e : (uid == 0) ≡ false = ground (arith, h) in
      rw e (get_loop-First empty _ uid table _ _ s f)

  -- What a lookup of an added object leaves.
  abbrev pub FoundNew : P → Added P → Type 0
  FoundNew object a =
      (t : List (Bucket P)) × (get_hash_cache_entry empty n_bits uid a.table ≡ some (a.index, t))
      × ((get_or t a.index empty).payload ≡ object)
      × ((get_or t a.index empty).uid ≡ uid)
      × ((get_or t a.index empty).refcount ≡ 2)

  added_at-FoundNew :
      (object : P) (table : List (Bucket P)) (s : ℕ)
      → uid ≢ 0
      → IsSettled empty n_bits table
      → NowhereIn (holds empty uid) table
      → FirstAt free table s
      → FoundNew object (added_at object table s)
  added_at-FoundNew object table s h v absent f =
      let a = added_at object table s in
      let b = entry (get_or table (index_at s) empty) object in
      let here : index_at s < length table = omega (arith, v.sized, index_at-lt s) in
      let here' : index_at s < length a.table =
        omega (arith, here, length-set table (index_at s) b) in
      let self : get_or a.table (index_at s) empty ≡ b =
        get_or-set_self table (index_at s) b empty here in
      let c = get_or a.table (index_at s) empty in
      let d =
        get_or-set_self a.table (index_at s) (record c { refcount = c.refcount + 1 }) empty here' in
      (
        set a.table (index_at s) (record c { refcount = c.refcount + 1 }),
        FirstAt-get a.table s h (added-FirstAt object table s v absent f),
        ap (λ x. x.payload) d ∙ ap (λ x. x.payload) self,
        ap (λ x. x.uid) d ∙ ap (λ x. x.uid) self,
        ap (λ x. x.refcount) d ∙ ap (λ x. x.refcount + 1) self,
      )

  -- A lookup after an insertion finds the new entry: when the identifier was not in its window and an
  -- insertion succeeds, `get_hash_cache_entry` returns the bucket of the insertion, which has the
  -- identifier, the object and two references, the inserter's and the reader's.
  pub get_hash_cache_entry-add :
      (object : P) (table : List (Bucket P)) (a : Added P)
      → uid ≢ 0
      → IsSettled empty n_bits table
      → NowhereIn (holds empty uid) table
      → add_to_hash_cache empty n_bits uid object table ≡ some a
      → FoundNew object a
  get_hash_cache_entry-add object table a h v absent e =
      elim (add_to_hash_cache-Outcome object table h) [
        | inl w ↦
            subst (FoundNew object) (same-some _ a (sym w.2 ∙ e))
              (added_at-FoundNew object table w.0 h v absent w.1)
        | inr w ↦ absurd (none-some a (sym w.1 ∙ e))
      ]

  added_at-IsSettled :
      (object : P) (table : List (Bucket P))
      → IsSettled empty n_bits table
      → (s : ℕ) → IsSettled empty n_bits (added_at object table s).table
  added_at-IsSettled object table v s =
      let b = get_or table (index_at s) empty in
      let c = entry b object in
      let here : index_at s < length table = omega (arith, v.sized, index_at-lt s) in
      record {
        sized = length-set table (index_at s) c ∙ v.sized;
        even = λ j l. elim (eq_cases (index_at s) j) [
          | inl p ↦
              subst (λ m. (get_or (set table (index_at s) c) m empty).update_count % 2 ≡ 0) p
                (ap (λ (x : Bucket P). x.update_count % 2)
                    (get_or-set_self table (index_at s) c empty here)
                  ∙ stays_even b.update_count (v.even (index_at s) here))
          | inr p ↦
              ap (λ (x : Bucket P). x.update_count % 2)
                (get_or-set_ne table (index_at s) j c empty p)
              ∙ v.even j (omega (arith, l, length-set table (index_at s) c))
        ];
      }

  -- An insertion leaves a table of the same size in which no bucket is being updated.
  pub add_to_hash_cache-IsSettled :
      (object : P) (table : List (Bucket P)) (a : Added P)
      → uid ≢ 0
      → IsSettled empty n_bits table
      → add_to_hash_cache empty n_bits uid object table ≡ some a
      → IsSettled empty n_bits a.table
  add_to_hash_cache-IsSettled object table a h v e =
      elim (add_to_hash_cache-Outcome object table h) [
        | inl w ↦
            subst (λ (x : Added P). IsSettled empty n_bits x.table) (same-some _ a (sym w.2 ∙ e))
              (added_at-IsSettled object table v w.0)
        | inr w ↦ absurd (none-some a (sym w.1 ∙ e))
      ]
