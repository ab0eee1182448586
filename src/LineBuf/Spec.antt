-- ===== src/LineBuf/Spec.antt =====
-- What the line buffer promises: the stream is cut at the separators, and each line goes to the
-- handler, in order, until the handler returns a negative number.
use jsockd.Prelude.{ℕ, List, [], ◌∷◌, ◌++◌, Bool, true, false, ◌==◌, ◌≡◌, refl, arith}
use jsockd.Prelude.Int.{ℤ, is_neg}

-- `fed`: all bytes are read, with the unfinished line, its `truncated` flag and the client's state.
-- `stopped`: the handler returned the number, on the line, with the bytes that follow its separator.
pub data Fed (H : Type 0) : Type 0 where
  stopped : ℤ → List ℕ → List ℕ → H → Fed H
  fed : List ℕ → Bool → H → Fed H

module _ {H : Type 0} (sep : ℕ) (handler : List ℕ → Bool → H → ℤ × H) where
  -- `feed bytes line flag h`, with the part `line` of the current line that has been read.
  unfoldable pub feed : List ℕ → List ℕ → Bool → H → Fed H
  feed [] line t h = fed line t h
  feed (c ∷ cs) line t h = elim (c == sep) [
    | true ↦ (elim (is_neg (handler line t h).0) [
      | true ↦ stopped (handler line t h).0 line cs (handler line t h).1
      | false ↦ feed cs [] false (handler line t h).1
    ])
    | false ↦ feed cs (line ++ (c ∷ [])) t h
  ]

  module _ (c : ℕ) (cs line : List ℕ) (t : Bool) (h : H) where
    pub feed_other : (c == sep) ≡ false → feed (c ∷ cs) line t h ≡ feed cs (line ++ (c ∷ [])) t h
    unfolding feed
    feed_other e = ground arith

    pub feed_line :
        (c == sep) ≡ true
        → is_neg (handler line t h).0 ≡ false
        → feed (c ∷ cs) line t h ≡ feed cs [] false (handler line t h).1
    unfolding feed
    feed_line e g = ground arith

    pub feed_stop :
        (c == sep) ≡ true
        → is_neg (handler line t h).0 ≡ true
        → feed (c ∷ cs) line t h ≡ stopped (handler line t h).0 line cs (handler line t h).1
    unfolding feed
    feed_stop e g = ground arith

  -- What follows what has been fed.
  abbrev pub continue : Fed H → List ℕ → Fed H
  continue (fed line t h) ys = feed ys line t h
  continue (stopped r line rest h) ys = stopped r line (rest ++ ys) h

  -- Feeding in two parts is feeding at once.
  pub feed-append :
      (xs ys line : List ℕ) (t : Bool) (h : H)
      → feed (xs ++ ys) line t h ≡ continue (feed xs line t h) ys
  unfolding feed
  feed-append [] ys line t h = refl
  feed-append (c ∷ cs) ys line t h = ground (
    arith,
    feed-append cs ys (line ++ (c ∷ [])) t h,
    feed-append cs ys [] false (handler line t h).1,
  )
