-- ===== src/LineBuf/Scan.antt =====
-- One round of the loop of `line_buf_replay` (jsockd_server/src/line_buf.c), and then the loop,
-- against `feed`.
use jsockd.Prelude.{
  ℕ, zero, suc, ◌+◌, ◌-◌, ◌≤◌, ◌<◌, ◌≡◌, refl, sym, ap, ◌∙◌, inl, inr, List, [], ◌∷◌, ◌++◌, true,
  false, ◌==◌, ==_iff, Bool-cases, get_or, set, length, slice, length-set, take, slice-set,
  drop-set, set-set_back, slice-cons, slice-snoc, slice-add, arith,
}
use jsockd.Prelude.Int.{pos, is_neg, pos_part}
use jsockd.LineBuf.{LineBuf, LineHandler, Pass, halt, next, replay_byte, replay_loop}
use jsockd.LineBuf.Spec.{Fed, stopped, fed, feed, feed_other, feed_line, feed_stop}

-- What the loop leaves alone.
pub record Keeps (b b' : LineBuf) : Type 0 where
  pub capacity : length b'.buf ≡ length b.buf
  pub same_size : b'.size ≡ b.size

-- Before the byte at index `i` is read, in a loop that began in `b` and ends at `stop`.
pub record InLoop (b : LineBuf) (stop i : ℕ) (b' : LineBuf) : Type 0 where
  pub keeps : Keeps b b'
  pub line_begun : b'.afsep ≤ i
  pub same_start : b'.start ≡ b.start
  pub same_n : b'.n ≡ b.n
  pub ends : b.start + pos_part b.n ≡ stop
  pub in_buffer : stop ≤ length b.buf

module _ {H : Type 0} (sep stop : ℕ) (b : LineBuf) where
  -- The loop's result stands for the result of `feed`, with the bytes up to index `stop`.
  abbrev pub Matches : Pass H → Fed H → Type 0
  Matches (next b' h') (fed line t h) =
      (b'.afsep ≤ stop)
      × (slice b'.buf b'.afsep (stop - b'.afsep) ≡ line)
      × (b'.truncated ≡ t)
      × (h' ≡ h)
      × (b'.n ≡ b.n)
      × Keeps b b'
  Matches (halt r b' h') (stopped r' line rest h) =
      (r ≡ r')
      × (b'.start + pos_part b'.n ≡ stop)
      × (b'.afsep ≡ b'.start)
      × (slice b'.buf b'.start (pos_part b'.n) ≡ line ++ (sep ∷ rest))
      × (b'.truncated ≡ false)
      × (h' ≡ h)
      × Keeps b b'
  Matches (next b' h') (stopped r line rest h) = ⊥
  Matches (halt r b' h') (fed line t h) = ⊥

-- The states that a separator at index `i` leaves, if the handler goes on and if it stops.
abbrev line_done : ℕ → LineBuf → LineBuf
line_done i b = record b { buf = set b.buf i 0; afsep = i + 1; truncated = false }

abbrev line_refused : ℕ → ℕ → LineBuf → LineBuf
line_refused sep i b = record b {
  buf = set (set b.buf i 0) i sep;
  start = b.afsep;
  truncated = false;
  n = pos (pos_part b.n + b.start - b.afsep);
}

-- The current line, before the byte at index `i`.
abbrev line_of : ℕ → LineBuf → List ℕ
line_of i b = slice b.buf b.afsep (i - b.afsep)

module _ {H : Type 0} (sep : ℕ) (handler : LineHandler H) (k i : ℕ) (b : LineBuf) (h : H) where
  loop_other :
      (get_or b.buf i 0 == sep) ≡ false
      → replay_loop sep handler (suc k) i b h ≡ replay_loop sep handler k (i + 1) b h
  unfolding replay_loop replay_byte
  loop_other e = ground arith

  loop_line :
      b.afsep ≤ i
      → (get_or b.buf i 0 == sep) ≡ true
      → is_neg (handler (line_of i b) b.truncated h).0 ≡ false
      → replay_loop sep handler (suc k) i b h
        ≡ replay_loop sep handler k (i + 1) (line_done i b) (handler (line_of i b) b.truncated h).1
  unfolding replay_loop replay_byte
  loop_line a e g = ground (arith, slice-set b.buf i b.afsep (i - b.afsep) 0)

  loop_halt :
      b.afsep ≤ i
      → (get_or b.buf i 0 == sep) ≡ true
      → is_neg (handler (line_of i b) b.truncated h).0 ≡ true
      → replay_loop sep handler (suc k) i b h
        ≡ halt
            (handler (line_of i b) b.truncated h).0
            (line_refused sep i b)
            (handler (line_of i b) b.truncated h).1
  unfolding replay_loop replay_byte
  loop_halt a e g = ground (arith, slice-set b.buf i b.afsep (i - b.afsep) 0)

module _ {H : Type 0} (sep : ℕ) (handler : LineHandler H) (stop : ℕ) (b₀ : LineBuf) where
  -- The statement of the loop's lemma.
  abbrev Good : ℕ → ℕ → LineBuf → H → Type 0
  Good k i b h =
      Matches sep stop b₀ (replay_loop sep handler k i b h)
        (feed sep handler (slice b.buf i k) (line_of i b) b.truncated h)

  Good-other :
      (k i : ℕ) (b : LineBuf) (h : H)
      → i < length b.buf
      → b.afsep ≤ i
      → (get_or b.buf i 0 == sep) ≡ false
      → Good k (i + 1) b h
      → Good (suc k) i b h
  Good-other k i b h hi a e ih =
      rw (loop_other sep handler k i b h e, slice-cons b.buf i k 0 hi)
        (rw (feed_other sep handler _ _ _ b.truncated h e, ← slice-snoc b.buf b.afsep i 0 a hi) ih)

  Good-line :
      (k i : ℕ) (b : LineBuf) (h : H)
      → i < length b.buf
      → b.afsep ≤ i
      → (get_or b.buf i 0 == sep) ≡ true
      → is_neg (handler (line_of i b) b.truncated h).0 ≡ false
      → Good k (i + 1) (line_done i b) (handler (line_of i b) b.truncated h).1
      → Good (suc k) i b h
  Good-line k i b h hi a e g ih =
      rw (loop_line sep handler k i b h a e g, slice-cons b.buf i k 0 hi)
        (rw (feed_line sep handler _ _ _ b.truncated h e g) (rw (rest, nothing) at ih))
    where
      rest : slice (set b.buf i 0) (i + 1) k ≡ slice b.buf (i + 1) k
      rest = ap (take k) (drop-set b.buf i (i + 1) 0 (omega arith))

      nothing : line_of (i + 1) (line_done i b) ≡ []
      nothing = let z : i + 1 - (i + 1) ≡ 0 = omega arith in rw z

  Good-halt :
      (k i : ℕ) (b : LineBuf) (h : H)
      → i + suc k ≡ stop
      → InLoop b₀ stop i b
      → (get_or b.buf i 0 == sep) ≡ true
      → is_neg (handler (line_of i b) b.truncated h).0 ≡ true
      → Good (suc k) i b h
  Good-halt k i b h hk inv e g =
      rw
        (
          loop_halt sep handler k i b h inv.line_begun e g,
          slice-cons b.buf i k 0 hi,
          feed_stop sep handler _ _ _ b.truncated h e g,
        )
        (
          refl,
          omega (arith, total),
          refl,
          again,
          refl,
          refl,
          record {
            capacity = ap length restored ∙ inv.keeps.capacity;
            same_size = inv.keeps.same_size;
          },
        )
    where
      total : b.start + pos_part b.n ≡ stop
      total = omega (arith, ap pos_part inv.same_n)

      hi : i < length b.buf
      hi = omega arith

      restored : set (set b.buf i 0) i sep ≡ b.buf
      restored = rw (← (==_iff (get_or b.buf i 0) sep).0 e) (set-set_back b.buf i 0 0 hi)

      again :
          slice (set (set b.buf i 0) i sep) b.afsep (pos_part b.n + b.start - b.afsep)
          ≡ line_of i b ++ (sep ∷ slice b.buf (i + 1) k)
      again =
          let count : pos_part b.n + b.start - b.afsep ≡ i - b.afsep + suc k =
            omega (arith, total) in
          let back : b.afsep + (i - b.afsep) ≡ i = omega arith in
          rw (restored, count)
            (slice-add b.buf b.afsep (i - b.afsep) (suc k) (omega arith)
              ∙ rw (back, slice-cons b.buf i k 0 hi, (==_iff (get_or b.buf i 0) sep).0 e) refl)

  -- The loop hands the handler the lines that `feed` hands it.
  pub loop-Matches :
      (k i : ℕ) (b : LineBuf) (h : H) → i + k ≡ stop → InLoop b₀ stop i b → Good k i b h
  loop-Matches zero i b h e inv =
      let e' : i ≡ stop = omega arith in
      unfold replay_loop feed in
      (omega arith, ap (λ j. line_of j b) (sym e'), refl, refl, inv.same_n, inv.keeps)
  loop-Matches (suc k) i b h e inv = elim (Bool-cases (get_or b.buf i 0 == sep)) [
    | inr o ↦ Good-other k i b h (omega arith) inv.line_begun o (
        loop-Matches k (i + 1) b h (omega arith) (record {
          keeps = inv.keeps;
          line_begun = omega arith;
          same_start = inv.same_start;
          same_n = inv.same_n;
          ends = inv.ends;
          in_buffer = inv.in_buffer;
        }))
    | inl s ↦ elim (Bool-cases (is_neg (handler (line_of i b) b.truncated h).0)) [
      | inl g ↦ Good-halt k i b h e inv s g
      | inr g ↦ Good-line k i b h (omega arith) inv.line_begun s g (
          loop-Matches k (i + 1) (line_done i b) (handler (line_of i b) b.truncated h).1
            (omega arith)
            (record {
              keeps = record {
                capacity = length-set b.buf i 0 ∙ inv.keeps.capacity;
                same_size = inv.keeps.same_size;
              };
              line_begun = omega arith;
              same_start = inv.same_start;
              same_n = inv.same_n;
              ends = inv.ends;
              in_buffer = inv.in_buffer;
            }))
    ]
  ]
