-- ===== src/TextDecoder/Buffer.antt =====
-- The two passes of `qjs_text_decoder_decode` (jsockd_server/src/textencodedecode.c) agree: the size
-- that the first computes is what the second writes.
use jsockd.Prelude.{
  ℕ, zero, suc, ◌+◌, ◌*◌, ◌≤◌, ◌<◌, ◌≡◌, ◌≢◌, refl, ap, ◌∙◌, inl, inr, List, [], ◌∷◌, ◌++◌, Bool,
  true, false, ◌==◌, ltb, Bool-cases, ◌&&◌, if◌then◌else◌, not, length, length-append, arith,
}
use jsockd.Utf8.{
  UnicodeDecode, unicode_max_codepoint, unicode_replacement, unicode_continue, utf8_decode,
  utf8_size, utf8_decode_init,
}
use jsockd.Utf8.Progress.{pending, utf8_decode-left}
use jsockd.Utf8.RoundTrip.{length-utf8_encode}
use jsockd.TextDecoder.{
  Streamed, finished, invalid, stuck, length_end, length_loop, utf8_stream_length, append_encoded,
  encode_end, encode_loop, utf8_stream_encode, TextDecoder, skip_bom, text_decoder_decode, rounds,
}

-- The code point that a round counts or writes.
abbrev pub shown : ℕ → ℕ
shown codepoint = if ltb unicode_max_codepoint codepoint then unicode_replacement else codepoint

shown-le : (codepoint : ℕ) → shown codepoint ≤ unicode_max_codepoint
shown-le codepoint = ground arith

-- The second pass ends as the first does, having written what the first has counted.
abbrev Agrees :
    Streamed (ℕ × ℕ × UnicodeDecode) → ℕ → Streamed (List ℕ × UnicodeDecode) → ℕ → Type 0
Agrees (finished (size', n, ctx)) size (finished (dst', ctx')) k =
    (length dst' + size ≡ k + size') × (ctx ≡ ctx')
Agrees (finished (size', n, ctx)) size invalid k = ⊥
Agrees (finished (size', n, ctx)) size stuck k = ⊥
Agrees invalid size e k = Unit
Agrees stuck size e k = Unit

Agrees-shift :
    (l : Streamed (ℕ × ℕ × UnicodeDecode)) (size d k : ℕ) (e : Streamed (List ℕ × UnicodeDecode))
    → Agrees l (size + d) e (k + d)
    → Agrees l size e k
Agrees-shift (finished (size', n, ctx)) size d k (finished (dst', ctx')) a = (omega arith, a.1)
Agrees-shift (finished (size', n, ctx)) size d k invalid a = a
Agrees-shift (finished (size', n, ctx)) size d k stuck a = a
Agrees-shift invalid size d k e a = tt
Agrees-shift stuck size d k e a = tt

append_encoded-Agrees :
    (l : Streamed (ℕ × ℕ × UnicodeDecode)) (size : ℕ) (dst : List ℕ) (cp : ℕ)
    → (k : List ℕ → Streamed (List ℕ × UnicodeDecode)) → cp ≤ unicode_max_codepoint
    → ((dst' : List ℕ) → Agrees l (size + utf8_size cp) (k dst') (length dst'))
    → Agrees l size (append_encoded dst cp k) (length dst)
append_encoded-Agrees l size dst cp k h ih =
    let (bytes, e, n) = length-utf8_encode cp h in
    let grown : length (dst ++ bytes) ≡ length dst + utf8_size cp =
      length-append dst bytes ∙ ap (λ m. length dst + m) n in
    rw (e, append_encoded)
      (Agrees-shift l size (utf8_size cp) (length dst) (k (dst ++ bytes))
        (rw grown at (ih (dst ++ bytes))))

-- Where the first pass goes on, the second does.
branch-Agrees :
    (b q fatal : Bool) (l l' : Streamed (ℕ × ℕ × UnicodeDecode)) (size k : ℕ)
    → (e e' : Streamed (List ℕ × UnicodeDecode)) → Agrees l size e k
    → Agrees l' size e' k
    → Agrees
        (if b then l else (if q && fatal then invalid else l'))
        size
        (if b then e else (if q && false then invalid else e'))
        k
branch-Agrees true q fatal l l' size k e e' a a' = a
branch-Agrees false false fatal l l' size k e e' a a' = a'
branch-Agrees false true true l l' size k e e' a a' = tt
branch-Agrees false true false l l' size k e e' a a' = a'

end-Agrees :
    (last fatal : Bool) (ctx : UnicodeDecode) (size n : ℕ) (dst : List ℕ)
    → Agrees (length_end last fatal ctx size n) size (encode_end last false ctx dst) (length dst)
unfolding length_end encode_end
end-Agrees false fatal ctx size n dst = (refl, refl)
end-Agrees true fatal ctx size n dst = elim (Bool-cases (not (ctx.need == 0))) [
  | inr e ↦ rw e (refl, refl)
  | inl e ↦ rw e (pending_end fatal)
]
  where
    pending_end :
        (fatal : Bool)
        → Agrees
            (if fatal then invalid else finished (size + utf8_size unicode_replacement, n + 1, ctx))
            size
            (append_encoded dst unicode_replacement (λ dst'. finished (dst', ctx)))
            (length dst)
    pending_end true = tt
    pending_end false =
        append_encoded-Agrees (finished (size + utf8_size unicode_replacement, n + 1, ctx)) size dst
          unicode_replacement (λ dst'. finished (dst', ctx)) (omega arith)
          (λ dst'. (omega arith, refl))

loop-Agrees :
    (f : ℕ) (last fatal : Bool) (ctx : UnicodeDecode) (p : List ℕ) (size n : ℕ) (dst : List ℕ)
    → Agrees
        (length_loop f last fatal ctx p size n)
        size
        (encode_loop f last false ctx p dst)
        (length dst)
unfolding length_loop encode_loop
loop-Agrees zero last fatal ctx p size n dst = tt
loop-Agrees (suc f) last fatal ctx [] size n dst = end-Agrees last fatal ctx size n dst
loop-Agrees (suc f) last fatal ctx (c ∷ cs) size n dst =
    let out : ℕ × UnicodeDecode × List ℕ = utf8_decode ctx c cs in
    let size' : ℕ = size + utf8_size (shown out.0) in
    branch-Agrees (out.0 == unicode_continue) (ltb unicode_max_codepoint out.0) fatal
      (length_end last fatal out.1 size n) (length_loop f last fatal out.1 out.2 size' (n + 1)) size
      (length dst) (encode_end last false out.1 dst)
      (append_encoded dst (shown out.0) (encode_loop f last false out.1 out.2))
      (end-Agrees last fatal out.1 size n dst)
      (append_encoded-Agrees (length_loop f last fatal out.1 out.2 size' (n + 1)) size dst
        (shown out.0) (encode_loop f last false out.1 out.2) (shown-le out.0)
        (λ dst'. loop-Agrees f last fatal out.1 out.2 size' (n + 1) dst'))

-- Two rounds for each byte are enough for the first pass.
length_loop-ne-stuck :
    (f : ℕ) (last fatal : Bool) (ctx : UnicodeDecode) (p : List ℕ) (size n : ℕ)
    → 2 * length p + pending ctx < f
    → length_loop f last fatal ctx p size n ≢ stuck
unfolding length_loop length_end
length_loop-ne-stuck zero last fatal ctx p size n h = absurd (omega arith)
length_loop-ne-stuck (suc f) last fatal ctx [] size n h = ground arith
length_loop-ne-stuck (suc f) last fatal ctx (c ∷ cs) size n h =
    let out : ℕ × UnicodeDecode × List ℕ = utf8_decode ctx c cs in
    ground (
      arith,
      utf8_decode-left ctx c cs,
      length_loop-ne-stuck f last fatal out.1 out.2 (size + utf8_size (shown out.0)) (n + 1),
    )

-- The first pass gives up only in fatal mode.
length_loop-invalid :
    (f : ℕ) (last fatal : Bool) (ctx : UnicodeDecode) (p : List ℕ) (size n : ℕ)
    → length_loop f last fatal ctx p size n ≡ invalid
    → fatal ≡ true
unfolding length_loop length_end
length_loop-invalid zero last fatal ctx p size n e = cc
length_loop-invalid (suc f) last fatal ctx [] size n e = ground arith
length_loop-invalid (suc f) last fatal ctx (c ∷ cs) size n e =
    let out : ℕ × UnicodeDecode × List ℕ = utf8_decode ctx c cs in
    ground
      (arith, length_loop-invalid f last fatal out.1 out.2 (size + utf8_size (shown out.0)) (n + 1))

-- The string has the size that was allocated for it, an error is thrown in fatal mode only, and no
-- loop runs on.
abbrev pub IsSafe : TextDecoder → Streamed (ℕ × List ℕ × TextDecoder) → Type 0
IsSafe td (finished (size, dst, td')) = (length dst ≡ size) × (td'.fatal ≡ td.fatal)
IsSafe td invalid = td.fatal ≡ true
IsSafe td stuck = ⊥

both_passes :
    (td : TextDecoder) (stream : Bool) (l : Streamed (ℕ × ℕ × UnicodeDecode))
    → (e : Streamed (List ℕ × UnicodeDecode)) → l ≢ stuck
    → (l ≡ invalid → td.fatal ≡ true)
    → Agrees l 0 e 0
    → IsSafe td (elim l [
      | stuck ↦ stuck
      | invalid ↦ invalid
      | finished (size, len, ctx) ↦ (elim e [
        | stuck ↦ stuck
        | invalid ↦ invalid
        | finished (dst, ctx') ↦
            finished (size, dst, record td { ctx = if stream then ctx' else utf8_decode_init ctx' })
      ])
    ])
both_passes td stream (finished (size, len, ctx)) (finished (dst, ctx')) ne bad a =
    (omega arith, refl)
both_passes td stream (finished (size, len, ctx)) invalid ne bad a = absurd a
both_passes td stream (finished (size, len, ctx)) stuck ne bad a = absurd a
both_passes td stream invalid e ne bad a = bad refl
both_passes td stream stuck e ne bad a = absurd (ne refl)

-- For every decoder, input and mode, `decode` returns: the bytes that it writes are as many as it
-- allocated, and it throws only if the decoder is fatal.
pub text_decoder_decode-IsSafe :
    (td : TextDecoder) (input : List ℕ) (stream : Bool)
    → IsSafe td (text_decoder_decode td input stream)
unfolding text_decoder_decode utf8_stream_length utf8_stream_encode
text_decoder_decode-IsSafe td input stream =
    let p : List ℕ = skip_bom td input in
    both_passes td stream (length_loop (rounds p) (not stream) td.fatal td.ctx p 0 0)
      (encode_loop (rounds p) (not stream) false td.ctx p [])
      (length_loop-ne-stuck (rounds p) (not stream) td.fatal td.ctx p 0 0 (ground arith))
      (length_loop-invalid (rounds p) (not stream) td.fatal td.ctx p 0 0)
      (loop-Agrees (rounds p) (not stream) td.fatal td.ctx p 0 0 [])
