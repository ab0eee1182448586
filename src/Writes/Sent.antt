-- ===== src/Writes/Sent.antt =====
-- What `writev_all` (jsockd_server/src/utils.c) has sent when it returns.
use jsockd.Prelude.{
  ℕ, zero, suc, ◌-◌, ◌≤◌, ◌<◌, ◌≡◌, refl, sym, ap, subst, ◌∙◌, List, [], ◌∷◌, ◌++◌, Bool, false,
  true, false, Bool, Bool-cases, ◌==◌, leb, ◌⊎◌, inl, inr, length, take, drop, append_assoc,
  take-append-drop, length-append, length-drop, All, arith,
}
use jsockd.Prelude.Int.{pos, negsuc}
use jsockd.CmdArgs.CString.{Str}
use jsockd.Writes.{
  Answer, sent, interrupted, failed, Sending, ended, waiting, after_bytes, concat, advance,
  writev_loop, writev_all,
}

drop-append_ge : (xs ys : Str) (n : ℕ) → length xs ≤ n → drop n (xs ++ ys) ≡ drop (n - length xs) ys
drop-append_ge [] ys n h = ap (λ m. drop m ys) (omega arith)
drop-append_ge (x ∷ xs) ys zero h = absurd (omega arith)
drop-append_ge (x ∷ xs) ys (suc n) h =
    drop-append_ge xs ys n (omega arith) ∙ ap (λ m. drop m ys) (omega arith)

drop-append_lt : (xs ys : Str) (n : ℕ) → n < length xs → drop n (xs ++ ys) ≡ drop n xs ++ ys
drop-append_lt [] ys n h = absurd (omega arith)
drop-append_lt (x ∷ xs) ys zero h = refl
drop-append_lt (x ∷ xs) ys (suc n) h = drop-append_lt xs ys n (omega arith)

drop-nil : (n : ℕ) → drop {A = ℕ} n [] ≡ []
drop-nil zero = refl
drop-nil (suc n) = refl

-- `advance` drops the bytes from the vectors.
concat-advance : (n : ℕ) (iov : List Str) → concat (advance n iov) ≡ drop n (concat iov)
unfolding advance
concat-advance n [] = sym (drop-nil n)
concat-advance n (v ∷ iov) = elim (Bool-cases (leb (length v) n)) [
  | inl e ↦ rw e (
      concat-advance (n - length v) iov ∙ sym (drop-append_ge v (concat iov) n (ground (arith, e))))
  | inr e ↦ rw e (sym (drop-append_lt v (concat iov) n (ground (arith, e))))
]

-- The result is 0 and all was sent, or it is -1 and a part was sent.
abbrev pub Sends : Str → Sending → Type 0
Sends text waiting = Unit
Sends text (ended r bytes) =
    ((r ≡ pos 0) × (bytes ≡ text)) ⊎ ((r ≡ negsuc 0) × ((rest : Str) × (bytes ++ rest ≡ text)))

after_bytes-Sends :
    (bytes more : Str) (s : Sending) → Sends more s → Sends (bytes ++ more) (after_bytes bytes s)
unfolding after_bytes
after_bytes-Sends bytes more waiting h = tt
after_bytes-Sends bytes more (ended r b) (inl h) = inl (h.0, ap (λ l. bytes ++ l) h.1)
after_bytes-Sends bytes more (ended r b) (inr h) =
    inr (h.0, (h.1.0, append_assoc bytes b h.1.0 ∙ ap (λ l. bytes ++ l) h.1.1))

writev_loop-Sends :
    (answers : List Answer) (eintr : Bool) (iov : List Str)
    → Sends (concat iov) (writev_loop answers eintr iov)
unfolding writev_loop
writev_loop-Sends answers eintr [] = inl (refl, refl)
writev_loop-Sends [] eintr (v ∷ iov) = tt
writev_loop-Sends (sent zero ∷ answers) true (v ∷ iov) = writev_loop-Sends answers true (v ∷ iov)
writev_loop-Sends (sent zero ∷ answers) false (v ∷ iov) = inr (refl, (concat (v ∷ iov), refl))
writev_loop-Sends (sent (suc n) ∷ answers) eintr (v ∷ iov) =
    let text = concat (v ∷ iov) in
    subst (λ t. Sends t (writev_loop (sent (suc n) ∷ answers) eintr (v ∷ iov)))
      (take-append-drop (suc n) text)
      (after_bytes-Sends (take (suc n) text) (drop (suc n) text)
        (writev_loop answers eintr (advance (suc n) (v ∷ iov)))
        (subst (λ t. Sends t (writev_loop answers eintr (advance (suc n) (v ∷ iov))))
          (concat-advance (suc n) (v ∷ iov))
          (writev_loop-Sends answers eintr (advance (suc n) (v ∷ iov)))))
writev_loop-Sends (interrupted ∷ answers) eintr (v ∷ iov) = writev_loop-Sends answers true (v ∷ iov)
writev_loop-Sends (failed ∷ answers) eintr (v ∷ iov) = inr (refl, (concat (v ∷ iov), refl))

nothing : (text : Str) → length text ≡ 0 → text ≡ []
nothing [] h = refl
nothing (c ∷ cs) h = absurd (omega (arith, h))

-- When `writev_all` returns, whatever the system has answered and whatever `errno` was before, its result
-- is 0 and all the bytes of the vectors were sent, in order, or it is -1 and the first part of them was.
pub writev_all-Sends :
    (answers : List Answer) (eintr : Bool) (iov : List Str)
    → Sends (concat iov) (writev_all answers eintr iov)
unfolding writev_all
writev_all-Sends answers eintr iov = elim (Bool-cases (length (concat iov) == 0)) [
  | inl e ↦ rw e (inl (refl, sym (nothing (concat iov) (ground (arith, e)))))
  | inr e ↦ rw e (writev_loop-Sends answers eintr iov)
]

-- When all bytes are taken, no vector is left.
advance-all : (n : ℕ) (iov : List Str) → length (concat iov) ≤ n → advance n iov ≡ []
unfolding advance
advance-all n [] h = refl
advance-all n (v ∷ iov) h =
    let l = length-append v (concat iov) in
    let e : leb (length v) n ≡ true = ground (arith, h, l) in
    rw e (advance-all (n - length v) iov (omega (arith, h, l)))

leb-false : (a b : ℕ) → leb a b ≡ false → b < a
leb-false a b h = ground (arith, h)

-- The call takes some bytes.
abbrev pub Progresses : Answer → Type 0
Progresses (sent n) = 0 < n
Progresses interrupted = ⊥
Progresses failed = ⊥

after_bytes-ended :
    (bytes more : Str) (s : Sending)
    → s ≡ ended (pos 0) more
    → after_bytes bytes s ≡ ended (pos 0) (bytes ++ more)
unfolding after_bytes
after_bytes-ended bytes more s h = rw h refl

writev_loop-Progresses :
    (answers : List Answer) (eintr : Bool) (iov : List Str)
    → All Progresses answers
    → length (concat iov) < length answers
    → writev_loop answers eintr iov ≡ ended (pos 0) (concat iov)
unfolding writev_loop
writev_loop-Progresses answers eintr [] p h = refl
writev_loop-Progresses [] eintr (v ∷ iov) p h = absurd (omega (arith, h))
writev_loop-Progresses (sent zero ∷ answers) eintr (v ∷ iov) p h = absurd (omega (arith, p.0))
writev_loop-Progresses (sent (suc n) ∷ answers) eintr (v ∷ iov) p h =
    let text = concat (v ∷ iov) in
    let e = concat-advance (suc n) (v ∷ iov) in
    after_bytes-ended (take (suc n) text) (concat (advance (suc n) (v ∷ iov)))
      (writev_loop answers eintr (advance (suc n) (v ∷ iov)))
      (rest (λ l. writev_loop-Progresses answers eintr (advance (suc n) (v ∷ iov)) p.1 l)
        (Bool-cases (leb (length text) (suc n))))
    ∙ ap (λ t. ended (pos 0) (take (suc n) text ++ t)) e
    ∙ ap (λ t. ended (pos 0) t) (take-append-drop (suc n) text)
  where
    rest :
        (length (concat (advance (suc n) (v ∷ iov))) < length answers
          → writev_loop answers eintr (advance (suc n) (v ∷ iov))
            ≡ ended (pos 0) (concat (advance (suc n) (v ∷ iov))))
        → (leb (length (v ++ concat iov)) (suc n) ≡ true)
          ⊎ (leb (length (v ++ concat iov)) (suc n) ≡ false)
        → writev_loop answers eintr (advance (suc n) (v ∷ iov))
          ≡ ended (pos 0) (concat (advance (suc n) (v ∷ iov)))
    rest ih (inl e) = rw (advance-all (suc n) (v ∷ iov) (ground (arith, e))) refl
    rest ih (inr e) = ih (
        omega (
          arith,
          h,
          ap length (concat-advance (suc n) (v ∷ iov)),
          length-drop (suc n) (v ++ concat iov),
          leb-false (length (v ++ concat iov)) (suc n) e,
        ))
writev_loop-Progresses (interrupted ∷ answers) eintr (v ∷ iov) p h = elim p.0 [ ]
writev_loop-Progresses (failed ∷ answers) eintr (v ∷ iov) p h = elim p.0 [ ]

-- `writev_all` ends, and has sent everything, when each call takes some bytes and there are more calls
-- than bytes.
pub writev_all-Progresses :
    (answers : List Answer) (eintr : Bool) (iov : List Str)
    → All Progresses answers
    → length (concat iov) < length answers
    → writev_all answers eintr iov ≡ ended (pos 0) (concat iov)
unfolding writev_all
writev_all-Progresses answers eintr iov p h = elim (Bool-cases (length (concat iov) == 0)) [
  | inl e ↦ rw e (ap (λ t. ended (pos 0) t) (sym (nothing (concat iov) (ground (arith, e)))))
  | inr e ↦ rw e (writev_loop-Progresses answers eintr iov p h)
]
