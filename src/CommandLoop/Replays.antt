-- ===== src/CommandLoop/Replays.antt =====
-- The loop `while (exit_value == TRAMPOLINE)` of `command_loop` (jsockd_server/src/main.c), for any
-- handler.
use jsockd.Prelude.{
  ℕ, zero, suc, ◌+◌, ◌≤◌, ◌<◌, ◌≡◌, ◌≢◌, refl, sym, ap, subst, ◌∙◌, List, [], ◌∷◌, ◌++◌, Bool, true,
  false, ◌==◌, ◌||◌, Option, some, none, length, length-append, length-slice, length-take, drop,
  if◌then◌else◌, Bool-cases, inl, inr, arith,
}
use jsockd.Prelude.Int.{ℤ, pos, negsuc, is_neg, pos_part, eq_ℤ}
use jsockd.LineBuf.{LineBuf, LineHandler, Read, got, fail, line_buf_read, line_buf_replay}
use jsockd.LineBuf.Reads.{is_full, room, room_bound, read-Refines, read_nothing, read_failed}
use jsockd.LineBuf.Spec.{Fed, stopped, fed, feed, feed_line, feed_stop, feed_other}
use jsockd.LineBuf.Refine.{IsReady, IsValid, contents, begun, unread, Refines, replay-Refines}
use jsockd.Server.State.{trampoline}
use jsockd.CommandLoop.{replays}

false-true : false ≡ true → ⊥
false-true e = cc

is_trampoline : (r : ℤ) → eq_ℤ r trampoline ≡ true → r ≡ trampoline
is_trampoline (pos n) e = absurd (ground (arith, e))
is_trampoline (negsuc n) e = ap negsuc (ground (arith, e))

not_trampoline : (r : ℤ) → r ≢ trampoline → eq_ℤ r trampoline ≡ false
not_trampoline r n = elim (Bool-cases (eq_ℤ r trampoline)) [
  | inl e ↦ absurd (n (is_trampoline r e))
  | inr e ↦ e
]

positive : (n : ℤ) → 0 < pos_part n → n ≢ trampoline
positive (pos n) h e = absurd (ground (arith, e))
positive (negsuc n) h e = absurd (omega arith)

-- What `read` does: it brings no more bytes than it is offered, and returns -1 when it fails.
abbrev pub Offers : Read → ℕ → Type 0
Offers (got cs) n = length cs ≤ n
Offers (fail k) n = k ≡ 0

-- A loop has ended, with another result than `TRAMPOLINE` and a state of this kind; and when it goes on,
-- the buffer is ready for the next read.
abbrev pub Ends : {H : Type 0} → (H → Type 0) → Option (ℤ × LineBuf × H) → Type 0
Ends Ok none = ⊥
Ends Ok (some (r, b, h)) = (r ≢ trampoline) × Ok h × (is_neg r ≡ false → IsValid b)

module _ {H : Type 0} (sep : ℕ) (handler : LineHandler H) where
  -- A handler that asks for the trampoline once in a row at most: `Ok` are the states that it keeps to, and
  -- `Fresh` those that it leaves when it asks.
  pub record IsOnce (Ok Fresh : H → Type 0) : Type 0 where
    pub keeps : (line : List ℕ) (t : Bool) (h : H) → Ok h → Ok (handler line t h).1
    pub asks :
        (line : List ℕ) (t : Bool) (h : H)
        → Ok h
        → (handler line t h).0 ≡ trampoline
        → Fresh (handler line t h).1
    pub fresh : (h : H) → Fresh h → Ok h
    pub once : (line : List ℕ) (t : Bool) (h : H) → Fresh h → (handler line t h).0 ≢ trampoline

  -- The refused line, its separator and the rest are no longer than `n`.
  abbrev Shrinks : ℕ → Fed H → Type 0
  Shrinks n (fed line t h) = Unit
  Shrinks n (stopped r line rest h) = length line + suc (length rest) ≤ n

  Shrinks-le : (m n : ℕ) (f : Fed H) → m ≤ n → Shrinks m f → Shrinks n f
  Shrinks-le m n (fed line t h) l k = tt
  Shrinks-le m n (stopped r line rest h) l k = omega arith

  feed-Shrinks :
      (xs line : List ℕ) (t : Bool) (h : H)
      → Shrinks (length line + length xs) (feed sep handler xs line t h)
  feed-Shrinks [] line t h = unfold feed in tt
  feed-Shrinks (c ∷ cs) line t h = elim (Bool-cases (c == sep)) [
    | inl e ↦ (elim (Bool-cases (is_neg (handler line t h).0)) [
      | inl n ↦ rw (feed_stop sep handler c cs line t h e n) (omega arith)
      | inr n ↦ rw (feed_line sep handler c cs line t h e n) (
          Shrinks-le (0 + length cs) _ _ (omega arith)
            (feed-Shrinks cs [] false (handler line t h).1))
    ])
    | inr e ↦ rw (feed_other sep handler c cs line t h e) (
        Shrinks-le (length (line ++ (c ∷ [])) + length cs) _ _
          (omega (arith, length-append line (c ∷ []))) (feed-Shrinks cs (line ++ (c ∷ [])) t h))
  ]

  module _ (Ok Fresh : H → Type 0) (o : IsOnce Ok Fresh) where
    -- The state that `feed` leaves.
    abbrev After : Fed H → Type 0
    After (fed line t h) = Ok h
    After (stopped r line rest h) = Ok h × (r ≡ trampoline → Fresh h) × (is_neg r ≡ true)

    feed-After : (xs line : List ℕ) (t : Bool) (h : H) → Ok h → After (feed sep handler xs line t h)
    feed-After [] line t h k = unfold feed in k
    feed-After (c ∷ cs) line t h k = elim (Bool-cases (c == sep)) [
      | inl e ↦ (elim (Bool-cases (is_neg (handler line t h).0)) [
        | inl n ↦
            rw (feed_stop sep handler c cs line t h e n) (o.keeps line t h k, o.asks line t h k, n)
        | inr n ↦
            rw (feed_line sep handler c cs line t h e n)
              (feed-After cs [] false (handler line t h).1 (o.keeps line t h k))
      ])
      | inr e ↦ rw (feed_other sep handler c cs line t h e) (feed-After cs (line ++ (c ∷ [])) t h k)
    ]

    -- Behind a line for which the trampoline was asked, one line at least is handled before it is asked
    -- for again.
    abbrev Advances : ℕ → Fed H → Type 0
    Advances n (fed line t h) = Unit
    Advances n (stopped r line rest h) = r ≡ trampoline → length line + suc (length rest) < n

    Advances-le : (m n : ℕ) (f : Fed H) → m ≤ n → Advances m f → Advances n f
    Advances-le m n (fed line t h) l k = tt
    Advances-le m n (stopped r line rest h) l k = λ e. omega (arith, k e)

    Shrinks-Advances : (m n : ℕ) (f : Fed H) → m < n → Shrinks m f → Advances n f
    Shrinks-Advances m n (fed line t h) l k = tt
    Shrinks-Advances m n (stopped r line rest h) l k = λ e. omega arith

    feed-Advances :
        (xs line : List ℕ) (t : Bool) (h : H)
        → Fresh h
        → Advances (length line + length xs) (feed sep handler xs line t h)
    feed-Advances [] line t h k = unfold feed in tt
    feed-Advances (c ∷ cs) line t h k = elim (Bool-cases (c == sep)) [
      | inl e ↦ (elim (Bool-cases (is_neg (handler line t h).0)) [
        | inl n ↦ rw (feed_stop sep handler c cs line t h e n) (λ q. absurd (o.once line t h k q))
        | inr n ↦ rw (feed_line sep handler c cs line t h e n) (
            Shrinks-Advances (0 + length cs) _ _ (omega arith)
              (feed-Shrinks cs [] false (handler line t h).1))
      ])
      | inr e ↦ rw (feed_other sep handler c cs line t h e) (
          Advances-le (length (line ++ (c ∷ [])) + length cs) _ _
            (omega (arith, length-append line (c ∷ [])))
            (feed-Advances cs (line ++ (c ∷ [])) t h k))
    ]

    ends_now :
        (k : ℕ) (r : ℤ) (b : LineBuf) (h : H)
        → eq_ℤ r trampoline ≡ false
        → Ok h
        → (is_neg r ≡ false → IsValid b)
        → Ends Ok (replays sep handler k (r, b, h))
    unfolding replays
    ends_now zero r b h e k v = rw e ((λ q. ground (arith, e, q)), k, v)
    ends_now (suc n) r b h e k v = rw e ((λ q. ground (arith, e, q)), k, v)

    -- A buffer at whose front stands a line that was refused.
    record IsRefused (n : ℕ) (b : LineBuf) : Type 0 where
      pub ready : IsReady b
      pub none_begun : begun b ≡ []
      pub some_unread : 0 < pos_part b.n
      pub unread_bound : length (unread b) ≤ n

    settle :
        (k n : ℕ) (count : ℤ) (out : ℤ × LineBuf × H) (f : Fed H)
        → Refines sep count out f
        → After f
        → (count ≢ trampoline)
        → Advances (suc n) f
        → ((b : LineBuf) (h : H)
            → IsRefused n b
            → Fresh h
            → Ends Ok (replays sep handler k (trampoline, b, h)))
        → Ends Ok (replays sep handler k out)
    settle k n count (r, b, h) (fed line t h') q a c l ih =
        ends_now k r b h (not_trampoline r (λ e. c (sym q.0 ∙ e))) (subst Ok (sym q.4) a) (λ n. q.1)
    settle k n count (r, b, h) (stopped r' line rest h') q a c l ih =
        elim (Bool-cases (eq_ℤ r trampoline)) [
          | inl e ↦
              (let w : r ≡ trampoline = is_trampoline r e in
                let w' : r' ≡ trampoline = sym q.0 ∙ w in
                let m : length (unread b) ≡ length line + suc (length rest) =
                  ap length q.3 ∙ length-append line (sep ∷ rest) in
                let bound = l w' in
                let taken = length-take (pos_part b.n) (drop b.start b.buf) in
                let refused : IsRefused n b = record {
                  ready = q.1;
                  none_begun = q.2;
                  some_unread = omega (arith, m, taken);
                  unread_bound = omega (arith, m, bound);
                } in
                subst (λ x. Ends Ok (replays sep handler k (x, b, h))) (sym w)
                  (ih b h refused (subst Fresh (sym q.5) (a.1 w'))))
          | inr e ↦
              ends_now k r b h e (subst Ok (sym q.5) a.0)
                (λ n. absurd (false-true (sym n ∙ ap is_neg q.0 ∙ a.2)))
        ]

    -- Replays of a refused line end, when as many are allowed as there are unread bytes.
    replays_end :
        (k : ℕ) (b : LineBuf) (h : H)
        → IsRefused k b
        → Fresh h
        → Ends Ok (replays sep handler k (trampoline, b, h))
    unfolding replays
    replays_end zero b h v g =
        let n : length (unread b) ≡ pos_part b.n =
          length-slice b.buf b.start (pos_part b.n) (omega (arith, v.ready.whole, v.ready.fits)) in
        absurd (omega (arith, n, v.some_unread, v.unread_bound))
    replays_end (suc k) b h v g =
        let q =
          subst
            (λ x.
              Refines sep b.n (line_buf_replay sep handler b h)
                (feed sep handler (unread b) x b.truncated h))
            v.none_begun (replay-Refines sep handler b h v.ready) in
        settle k k b.n (line_buf_replay sep handler b h)
          (feed sep handler (unread b) [] b.truncated h) q
          (feed-After (unread b) [] b.truncated h (o.fresh h g)) (positive b.n v.some_unread)
          (Advances-le (0 + length (unread b)) (suc k) _ (omega (arith, v.unread_bound))
            (feed-Advances (unread b) [] b.truncated h g))
          (λ b' h' v' g'. replays_end k b' h' v' g')

    -- The loop around the replays ends: after a read that brings bytes, no more than it was offered, or
    -- none, or fails, for a handler that asks for the trampoline once in a row at most, `exit_value` is
    -- another value than `TRAMPOLINE` after no more replays than the buffer has bytes.
    pub replays-Ends :
        (b : LineBuf) (readf : ℕ → Read) (h : H)
        → IsValid b
        → Ok h
        → Offers (readf (room b)) (room b)
        → Ends Ok (replays sep handler b.size (line_buf_read sep handler b readf h))
    replays-Ends b readf h v k f = by_read (readf (room b)) refl f
      where
        line : List ℕ
        line = if is_full b then [] else contents b

        by_read :
            (x : Read)
            → readf (room b) ≡ x
            → Offers x (room b)
            → Ends Ok (replays sep handler b.size (line_buf_read sep handler b readf h))
        by_read (got []) e l =
            rw (read_nothing sep handler b readf h e)
              (ends_now b.size _ _ _ refl k (λ n. absurd (false-true (sym n))))
        by_read (fail n) e l =
            rw (read_failed sep handler b readf h n e)
              (ends_now b.size _ _ _ (rw l refl) k (λ n. absurd (false-true (sym n))))
        by_read (got (c ∷ cs)) e l =
            let f : Fed H = feed sep handler (c ∷ cs) line (is_full b || b.truncated) h in
            settle b.size b.size (pos (length (c ∷ cs))) (line_buf_read sep handler b readf h) f
              (read-Refines sep handler b readf h c cs v e l)
              (feed-After (c ∷ cs) line (is_full b || b.truncated) h k)
              (positive (pos (length (c ∷ cs))) (omega arith))
              (Shrinks-Advances (length line + length (c ∷ cs)) (suc b.size) f
                (omega (arith, room_bound b v))
                (feed-Shrinks (c ∷ cs) line (is_full b || b.truncated) h))
              (λ b' h' v' g'. replays_end b.size b' h' v' g')
