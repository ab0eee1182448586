-- ===== src/LineBuf/Refine.antt =====
-- `line_buf_replay` (jsockd_server/src/line_buf.c) against `feed`: on both ways out, the state that
-- it leaves stands for what the specification leaves.
use jsockd.Prelude.{
  ℕ, ◌+◌, ◌-◌, ◌≤◌, ◌≡◌, refl, sym, ◌∙◌, List, [], ◌∷◌, ◌++◌, false, length, take, drop, slice,
  splice, length-splice, length-slice, take-append, arith,
}
use jsockd.Prelude.Int.{ℤ, pos_part}
use jsockd.LineBuf.{LineBuf, LineHandler, Pass, halt, next, compact, line_buf_replay}
use jsockd.LineBuf.Spec.{Fed, stopped, fed, feed}
use jsockd.LineBuf.Scan.{Keeps, Matches, loop-Matches}

-- Between two reads: the unfinished line stands at the front of the buffer.
pub record IsValid (b : LineBuf) : Type 0 where
  pub whole : length b.buf ≡ b.size
  pub fits : b.start ≤ b.size
  pub at_front : b.afsep ≡ 0

-- Before a replay: `n` bytes are to be read from index `start` on.
pub record IsReady (b : LineBuf) : Type 0 where
  pub whole : length b.buf ≡ b.size
  pub fits : b.start + pos_part b.n ≤ b.size
  pub begun_before : b.afsep ≤ b.start

-- The unfinished line of a valid buffer.
abbrev pub contents : LineBuf → List ℕ
contents b = take b.start b.buf

-- The part of the current line that has been read, and the bytes that have not.
abbrev pub begun : LineBuf → List ℕ
begun b = slice b.buf b.afsep (b.start - b.afsep)

abbrev pub unread : LineBuf → List ℕ
unread b = slice b.buf b.start (pos_part b.n)

take-front : (n : ℕ) (xs ys : List ℕ) → length ys ≡ n → take n (splice xs 0 ys) ≡ ys
take-front n xs ys e = rw (← e) (take-append ys (drop (0 + length ys) xs))

moved :
    (b : LineBuf) (n : ℕ)
    → length (slice b.buf b.afsep n) ≡ n
    → n ≤ length b.buf
    → length (splice b.buf 0 (slice b.buf b.afsep n)) ≡ length b.buf
moved b n e h = length-splice b.buf 0 (slice b.buf b.afsep n) (omega arith)

module _ {H : Type 0} (sep : ℕ) (count : ℤ) where
  -- What a call returns, the buffer and the client's state that it leaves, against the specification.
  abbrev pub Refines : ℤ × LineBuf × H → Fed H → Type 0
  Refines (r, b, h) (fed line t h') =
      (r ≡ count) × IsValid b × (contents b ≡ line) × (b.truncated ≡ t) × (h ≡ h')
  Refines (r, b, h) (stopped r' line rest h') =
      (r ≡ r')
      × IsReady b
      × (begun b ≡ [])
      × (unread b ≡ line ++ (sep ∷ rest))
      × (b.truncated ≡ false)
      × (h ≡ h')

  Refines-of_Matches :
      (b : LineBuf) (stop : ℕ) (p : Pass H) (f : Fed H)
      → length b.buf ≡ b.size
      → stop ≤ b.size
      → b.n ≡ count
      → Matches sep stop b p f
      → Refines (elim p [ halt r b' h' ↦ (r, b', h') | next b' h' ↦ (b'.n, compact b' stop, h') ]) f
  unfolding compact
  Refines-of_Matches b stop (next b' h') (fed line t h) w s c m =
      let k : Keeps b b' = m.5 in
      let len : length (slice b'.buf b'.afsep (stop - b'.afsep)) ≡ stop - b'.afsep =
        length-slice b'.buf b'.afsep (stop - b'.afsep) (omega arith) in
      (
        m.4 ∙ c,
        record {
          whole =
              moved b' (stop - b'.afsep) len (omega (arith, k.capacity))
              ∙ k.capacity
              ∙ w
              ∙ sym k.same_size;
          fits = omega arith;
          at_front = refl;
        },
        take-front (stop - b'.afsep) b'.buf _ len ∙ m.1,
        m.2,
        m.3,
      )
  Refines-of_Matches b stop (halt r b' h') (stopped r' line rest h) w s c m =
      let k : Keeps b b' = m.6 in
      (
        m.0,
        record {
          whole = omega (arith, k.capacity, k.same_size);
          fits = omega arith;
          begun_before = omega arith;
        },
        let z : b'.start - b'.afsep ≡ 0 = omega arith in rw z,
        m.3,
        m.4,
        m.5,
      )
  Refines-of_Matches b stop (next b' h') (stopped r line rest h) w s c m = absurd m
  Refines-of_Matches b stop (halt r b' h') (fed line t h) w s c m = absurd m

module _ {H : Type 0} (sep : ℕ) (handler : LineHandler H) where
  -- `line_buf_replay` on a buffer that holds `n` unread bytes: the handler gets the lines that `feed`
  -- cuts. If it never stops, the call returns `n` and leaves the unfinished line at the front of the
  -- buffer; if it stops, the call returns its result, and the refused line, its separator and the
  -- rest are unread, so that the next replay starts with that line again.
  pub replay-Refines :
      (b : LineBuf) (h : H)
      → IsReady b
      → Refines sep b.n
          (line_buf_replay sep handler b h)
          (feed sep handler (unread b) (begun b) b.truncated h)
  unfolding line_buf_replay
  replay-Refines b h v =
      Refines-of_Matches sep b.n b (b.start + pos_part b.n) _ _ v.whole v.fits refl (
        loop-Matches sep handler (b.start + pos_part b.n) b (pos_part b.n) b.start b h refl
          (record {
            keeps = record { capacity = refl; same_size = refl };
            line_begun = v.begun_before;
            same_start = refl;
            same_n = refl;
            ends = refl;
            in_buffer = omega arith;
          }))
