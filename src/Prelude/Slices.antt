-- ===== src/Prelude/Slices.antt =====
-- The part of an array between two indices, and how writes act on it.
use Prim.Native.Nat.{ℕ, zero, suc, ◌+◌, ◌-◌, ◌≤◌, ◌<◌}
use mathlib.Core.Path.{◌≡◌, refl, ap, ◌∙◌}
use mathlib.Core.List.{List, [], ◌∷◌, ◌++◌, append_assoc}
use native.Mathlib.Omega.{arith}
use native.Mathlib.Numerals.{add-one}
use native.Mathlib.Nat.{zero-add, add-zero, suc-add, add-suc}
use jsockd.Prelude.Lists.{length, get_or, set, take, drop, length-append, length-take, length-drop}

module _ {ℓ} {A : Type ℓ} where
  -- The `n` elements from index `a` on.
  abbrev pub slice : List A → ℕ → ℕ → List A
  slice xs a n = take n (drop a xs)

  pub drop-eq-cons :
      (xs : List A) (i : ℕ) (d : A) → i < length xs → drop i xs ≡ get_or xs i d ∷ drop (suc i) xs
  drop-eq-cons [] i d h = absurd (omega arith)
  drop-eq-cons (x ∷ xs) zero d h = refl
  drop-eq-cons (x ∷ xs) (suc i) d h = drop-eq-cons xs i d (omega arith)

  pub drop-set : (xs : List A) (i j : ℕ) (v : A) → i < j → drop j (set xs i v) ≡ drop j xs
  drop-set [] i j v h = refl
  drop-set (x ∷ xs) i zero v h = absurd (omega arith)
  drop-set (x ∷ xs) zero (suc j) v h = refl
  drop-set (x ∷ xs) (suc i) (suc j) v h = drop-set xs i j v (omega arith)

  pub take-set : (xs : List A) (i k : ℕ) (v : A) → k ≤ i → take k (set xs i v) ≡ take k xs
  take-set [] i k v h = refl
  take-set (x ∷ xs) i zero v h = refl
  take-set (x ∷ xs) zero (suc k) v h = absurd (omega arith)
  take-set (x ∷ xs) (suc i) (suc k) v h = ap (λ l. x ∷ l) (take-set xs i k v (omega arith))

  pub slice-set :
      (xs : List A) (i a n : ℕ) (v : A) → a + n ≤ i → slice (set xs i v) a n ≡ slice xs a n
  slice-set [] i a n v h = refl
  slice-set (x ∷ xs) i zero n v h = take-set (x ∷ xs) i n v (omega arith)
  slice-set (x ∷ xs) zero (suc a) zero v h = refl
  slice-set (x ∷ xs) zero (suc a) (suc n) v h = absurd (omega arith)
  slice-set (x ∷ xs) (suc i) (suc a) n v h = slice-set xs i a n v (omega arith)

  pub set-set_back :
      (xs : List A) (i : ℕ) (v d : A) → i < length xs → set (set xs i v) i (get_or xs i d) ≡ xs
  set-set_back [] i v d h = refl
  set-set_back (x ∷ xs) zero v d h = refl
  set-set_back (x ∷ xs) (suc i) v d h = ap (λ l. x ∷ l) (set-set_back xs i v d (omega arith))

  -- A slice grows by the element behind it.
  pub slice-suc :
      (xs : List A) (a n : ℕ) (d : A)
      → a + n < length xs
      → slice xs a (suc n) ≡ slice xs a n ++ (get_or xs (a + n) d ∷ [])
  slice-suc [] a n d h = absurd (omega arith)
  slice-suc (x ∷ xs) zero zero d h = refl
  slice-suc (x ∷ xs) zero (suc n) d h =
      rw add-suc (ap (λ l. x ∷ l) (slice-suc xs zero n d (omega arith)))
  slice-suc (x ∷ xs) (suc a) n d h = rw suc-add (slice-suc xs a n d (omega arith))

  pub length-slice : (xs : List A) (a n : ℕ) → a + n ≤ length xs → length (slice xs a n) ≡ n
  length-slice xs a n h = omega (arith, length-take n (drop a xs), length-drop a xs)

  pub take-all : (xs : List A) (n : ℕ) → length xs ≤ n → take n xs ≡ xs
  take-all [] zero h = refl
  take-all [] (suc n) h = refl
  take-all (x ∷ xs) zero h = absurd (omega arith)
  take-all (x ∷ xs) (suc n) h = ap (λ l. x ∷ l) (take-all xs n (omega arith))

  pub take-append : (xs ys : List A) → take (length xs) (xs ++ ys) ≡ xs
  take-append [] ys = refl
  take-append (x ∷ xs) ys = ap (λ l. x ∷ l) (take-append xs ys)

  pub drop-append : (xs ys : List A) → drop (length xs) (xs ++ ys) ≡ ys
  drop-append [] ys = refl
  drop-append (x ∷ xs) ys = drop-append xs ys

  pub drop-drop : (a b : ℕ) (xs : List A) → drop a (drop b xs) ≡ drop (b + a) xs
  drop-drop a zero xs = rw zero-add
  drop-drop zero (suc b) [] = rw add-zero
  drop-drop (suc a) (suc b) [] = rw suc-add
  drop-drop a (suc b) (x ∷ xs) = rw suc-add (drop-drop a b xs)

  -- The bytes `ys` written over `xs` from index `i` on.
  abbrev pub splice : List A → ℕ → List A → List A
  splice xs i ys = take i xs ++ (ys ++ drop (i + length ys) xs)

  pub length-splice :
      (xs : List A) (i : ℕ) (ys : List A)
      → i + length ys ≤ length xs
      → length (splice xs i ys) ≡ length xs
  length-splice xs i ys h = omega (
    arith,
    length-append (take i xs) (ys ++ drop (i + length ys) xs),
    length-append ys (drop (i + length ys) xs),
    length-take i xs,
    length-drop (i + length ys) xs,
  )

  pub take-splice :
      (xs : List A) (i : ℕ) (ys : List A) → i ≤ length xs → take i (splice xs i ys) ≡ take i xs
  take-splice xs zero ys h = refl
  take-splice [] (suc i) ys h = absurd (omega arith)
  take-splice (x ∷ xs) (suc i) ys h =
      rw suc-add (ap (λ l. x ∷ l) (take-splice xs i ys (omega arith)))

  pub slice-splice :
      (xs : List A) (i : ℕ) (ys : List A)
      → i ≤ length xs
      → slice (splice xs i ys) i (length ys) ≡ ys
  slice-splice xs zero ys h = take-append ys (drop (0 + length ys) xs)
  slice-splice [] (suc i) ys h = absurd (omega arith)
  slice-splice (x ∷ xs) (suc i) ys h = rw suc-add (slice-splice xs i ys (omega arith))

  -- A slice is cut in two.
  pub slice-add :
      (xs : List A) (a m n : ℕ)
      → a + (m + n) ≤ length xs
      → slice xs a (m + n) ≡ slice xs a m ++ slice xs (a + m) n
  slice-add xs a zero n h = rw (zero-add, add-zero)
  slice-add [] a (suc m) n h = absurd (omega arith)
  slice-add (x ∷ xs) zero (suc m) n h =
      rw (suc-add, zero-add)
        (ap (λ l. x ∷ l) (rw zero-add at (slice-add xs zero m n (omega arith))))
  slice-add (x ∷ xs) (suc a) (suc m) n h =
      rw (suc-add a (suc m)) (slice-add xs a (suc m) n (omega arith))

  pub slice-cons :
      (xs : List A) (i n : ℕ) (d : A)
      → i < length xs
      → slice xs i (suc n) ≡ get_or xs i d ∷ slice xs (i + 1) n
  slice-cons xs i n d h = rw (drop-eq-cons xs i d h, add-one)

  pub slice-snoc :
      (xs : List A) (a i : ℕ) (d : A)
      → a ≤ i
      → i < length xs
      → slice xs a (i + 1 - a) ≡ slice xs a (i - a) ++ (get_or xs i d ∷ [])
  slice-snoc xs a i d h hi =
      let e : i + 1 - a ≡ suc (i - a) = omega arith in
      let e' : a + (i - a) ≡ i = omega arith in
      rw e (slice-suc xs a (i - a) d (omega arith) ∙ rw e' refl)

  get_or-append :
      (xs ys : List A) (j : ℕ) (d : A) → j < length xs → get_or (xs ++ ys) j d ≡ get_or xs j d
  get_or-append [] ys j d h = absurd (omega arith)
  get_or-append (x ∷ xs) ys zero d h = refl
  get_or-append (x ∷ xs) ys (suc j) d h = get_or-append xs ys j d (omega arith)

  pub get_or-splice :
      (xs : List A) (i j : ℕ) (ys : List A) (d : A)
      → i ≤ length xs
      → j < length ys
      → get_or (splice xs i ys) (i + j) d ≡ get_or ys j d
  get_or-splice xs zero j ys d h k =
      rw (zero-add, zero-add) (get_or-append ys (drop (length ys) xs) j d k)
  get_or-splice [] (suc i) j ys d h k = absurd (omega arith)
  get_or-splice (x ∷ xs) (suc i) j ys d h k =
      rw (suc-add, suc-add) (get_or-splice xs i j ys d (omega arith) k)

  pub splice-splice :
      (xs : List A) (i : ℕ) (ys zs : List A)
      → i ≤ length xs
      → splice (splice xs i ys) (i + length ys) zs ≡ splice xs i (ys ++ zs)
  splice-splice xs zero ys zs h = rw (
    zero-add,
    take-append ys (drop (length ys) xs),
    length-append ys zs,
    zero-add,
    append_assoc ys zs (drop (length ys + length zs) xs),
    ← drop-drop (length zs) (length ys) (ys ++ drop (length ys) xs),
    drop-append ys (drop (length ys) xs),
    drop-drop (length zs) (length ys) xs,
  )
  splice-splice [] (suc i) ys zs h = absurd (omega arith)
  splice-splice (x ∷ xs) (suc i) ys zs h =
      rw (suc-add, suc-add, suc-add) (ap (λ l. x ∷ l) (splice-splice xs i ys zs (omega arith)))
