-- ===== src/LineBuf/Chunks.antt =====
-- Many reads in a row, as in the loop of `command_loop` (jsockd_server/src/main.c): how the stream is
-- cut into reads does not matter.
use jsockd.Prelude.{
  ℕ, ◌≤◌, ◌≡◌, ◌≢◌, refl, sym, ap, ◌∙◌, List, [], ◌∷◌, ◌++◌, Bool, false, ◌||◌, if◌then◌else◌,
  length, inl, inr, ◌==◌, subst, Bool-cases,
}
use jsockd.Prelude.Int.{ℤ, pos, is_neg}
use jsockd.LineBuf.{LineBuf, LineHandler, got, line_buf_read}
use jsockd.LineBuf.Spec.{Fed, stopped, fed, feed, continue, feed-append, feed_line, feed_other}
use jsockd.LineBuf.Refine.{IsValid, contents, Refines}
use jsockd.LineBuf.Reads.{is_full, room, read-Refines}
use mathlib.Core.List.{flatten}

module _ {H : Type 0} (sep : ℕ) (handler : LineHandler H) where
  -- Successive reads that bring the chunks.
  unfoldable pub read_all : LineBuf → H → List (List ℕ) → LineBuf × H
  read_all b h [] = (b, h)
  read_all b h (c ∷ cs) =
      let (r, b', h') = line_buf_read sep handler b (λ _. got c) h in read_all b' h' cs

  -- The handler never stops the loop.
  abbrev pub Goes : Type 0
  Goes = (line : List ℕ) (t : Bool) (h : H) → is_neg (handler line t h).0 ≡ false

  -- Each read brings some bytes, no more than it was offered, and no line fills the buffer.
  abbrev pub Fits : LineBuf → H → List (List ℕ) → Type 0
  Fits b h [] = Unit
  Fits b h (c ∷ cs) =
      (c ≢ [])
      × (is_full b ≡ false)
      × (length c ≤ room b)
      × Fits (line_buf_read sep handler b (λ _. got c) h).1
          (line_buf_read sep handler b (λ _. got c) h).2 cs

  -- The buffer and the client's state stand for a result of `feed`.
  abbrev pub Stands : LineBuf × H → Fed H → Type 0
  Stands (b, h) (fed line t h') = IsValid b × (contents b ≡ line) × (b.truncated ≡ t) × (h ≡ h')
  Stands (b, h) (stopped r line rest h') = ⊥

  feed_goes :
      Goes
      → (xs line : List ℕ) (t : Bool) (h : H)
      → (l : List ℕ) × (u : Bool) × (h' : H) × (feed sep handler xs line t h ≡ fed l u h')
  feed_goes g [] line t h = (line, t, h, unfold feed in refl)
  feed_goes g (c ∷ cs) line t h = elim (Bool-cases (c == sep)) [
    | inl s ↦
        rw (feed_line sep handler c cs line t h s (g line t h))
          (feed_goes g cs [] false (handler line t h).1)
    | inr o ↦ rw (feed_other sep handler c cs line t h o) (feed_goes g cs (line ++ (c ∷ [])) t h)
  ]

  one_read :
      (b : LineBuf) (h : H) (x : ℕ) (xs : List ℕ)
      → IsValid b
      → is_full b ≡ false
      → length (x ∷ xs) ≤ room b
      → Refines sep
          (pos (length (x ∷ xs)))
          (line_buf_read sep handler b (λ _. got (x ∷ xs)) h)
          (feed sep handler (x ∷ xs) (contents b) b.truncated h)
  one_read b h x xs v e le =
      subst
        (λ q.
          Refines sep (pos (length (x ∷ xs))) (line_buf_read sep handler b (λ _. got (x ∷ xs)) h)
            (feed sep handler (x ∷ xs) (if q then [] else contents b) (q || b.truncated) h))
        e (read-Refines sep handler b (λ _. got (x ∷ xs)) h x xs v refl le)

  Stands_step :
      (c : List ℕ) (out : ℤ × LineBuf × H) (f : Fed H)
      → Refines sep (pos (length c)) out f
      → ((l : List ℕ) × (u : Bool) × (h' : H) × (f ≡ fed l u h'))
      → IsValid out.1 × (f ≡ fed (contents out.1) out.1.truncated out.2)
  Stands_step c out f r (l, u, h', e) =
      let r' : Refines sep (pos (length c)) out (fed l u h') =
        subst (Refines sep (pos (length c)) out) e r in
      (r'.1, e ∙ (λ i. fed (sym r'.2 i) (sym r'.3 i) (sym r'.4 i)))

  same_fed :
      (p q : LineBuf × H) (f : Fed H)
      → ((l : List ℕ) × (u : Bool) × (h' : H) × (f ≡ fed l u h'))
      → Stands p f
      → Stands q f
      → (p.1 ≡ q.1) × (contents p.0 ≡ contents q.0) × (p.0.truncated ≡ q.0.truncated)
  same_fed p q f (l, u, h', e) sp sq =
      let sp' : Stands p (fed l u h') = subst (Stands p) e sp in
      let sq' : Stands q (fed l u h') = subst (Stands q) e sq in
      (sp'.3 ∙ sym sq'.3, sp'.1 ∙ sym sq'.1, sp'.2 ∙ sym sq'.2)

  -- The buffer after all the reads stands for what `feed` leaves of the whole stream.
  pub read_all-feed :
      Goes
      → (chunks : List (List ℕ)) (b : LineBuf) (h : H) → IsValid b
      → Fits b h chunks
      → Stands (read_all b h chunks) (feed sep handler (flatten chunks) (contents b) b.truncated h)
  unfolding read_all flatten
  read_all-feed g [] b h v fits = unfold feed in (v, refl, refl, refl)
  read_all-feed g ([] ∷ cs) b h v fits = absurd (fits.0 refl)
  read_all-feed g ((x ∷ xs) ∷ cs) b h v fits =
      let out : ℤ × LineBuf × H = line_buf_read sep handler b (λ _. got (x ∷ xs)) h in
      let st : IsValid out.1
          × (feed sep handler (x ∷ xs) (contents b) b.truncated h
              ≡ fed (contents out.1) out.1.truncated out.2) =
        Stands_step (x ∷ xs) out _ (one_read b h x xs v fits.1 fits.2)
          (feed_goes g (x ∷ xs) (contents b) b.truncated h) in
      subst (Stands (read_all out.1 out.2 cs))
        (sym (
          feed-append sep handler (x ∷ xs) (flatten cs) (contents b) b.truncated h
          ∙ ap (λ f. continue sep handler f (flatten cs)) st.1))
        (read_all-feed g cs out.1 out.2 st.0 fits.3)

  -- Two ways to cut one stream into reads leave the client in the same state, and the same unfinished
  -- line.
  pub read_all-same :
      Goes
      → (xs ys : List (List ℕ)) (b : LineBuf) (h : H) → IsValid b
      → Fits b h xs
      → Fits b h ys
      → flatten xs ≡ flatten ys
      → ((read_all b h xs).1 ≡ (read_all b h ys).1)
        × (contents (read_all b h xs).0 ≡ contents (read_all b h ys).0)
        × ((read_all b h xs).0.truncated ≡ (read_all b h ys).0.truncated)
  read_all-same g xs ys b h v fx fy e =
      same_fed (read_all b h xs) (read_all b h ys) _
        (feed_goes g (flatten ys) (contents b) b.truncated h)
        (rw e at (read_all-feed g xs b h v fx)) (read_all-feed g ys b h v fy)
