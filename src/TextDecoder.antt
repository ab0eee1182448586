-- ===== src/TextDecoder.antt =====
-- The loops over an input of jsockd_server/src/textencodedecode.c, and the `decode` method of
-- `TextDecoder` between its calls of the QuickJS API: its argument is the bytes of the buffer, and its
-- result the bytes of the new string.
pub mod Buffer
pub mod Identity
mod Tests
use jsockd.Prelude.{
  ℕ, zero, suc, ◌+◌, ◌*◌, List, [], ◌∷◌, ◌++◌, Bool, false, ◌==◌, ltb, ◌&&◌, if◌then◌else◌, not,
  some, none, length, drop,
}
use jsockd.Utf8.{
  UnicodeDecode, unicode_replacement, unicode_max_codepoint, unicode_continue, utf8_decode_init,
  utf8_bom, utf8_decode, utf8_size, utf8_encode,
}

-- The outcome of a loop over the input: its result, the error (-1 or NULL), or the fuel ran out.
pub data Streamed {ℓ} (A : Type ℓ) : Type ℓ where
  finished : A → Streamed A
  invalid : Streamed A
  stuck : Streamed A

-- The end of `njs_utf8_stream_length`.
unfoldable pub length_end : Bool → Bool → UnicodeDecode → ℕ → ℕ → Streamed (ℕ × ℕ × UnicodeDecode)
length_end last fatal ctx size len =
    if last && not (ctx.need == 0)
    then (if fatal then invalid else finished (size + utf8_size unicode_replacement, len + 1, ctx))
    else finished (size, len, ctx)

-- The loop of `njs_utf8_stream_length`, with the end of that function.
unfoldable pub length_loop :
    ℕ → Bool → Bool → UnicodeDecode → List ℕ → ℕ → ℕ → Streamed (ℕ × ℕ × UnicodeDecode)
length_loop zero last fatal ctx p size len = stuck
length_loop (suc f) last fatal ctx [] size len = length_end last fatal ctx size len
length_loop (suc f) last fatal ctx (c ∷ cs) size len =
    let (codepoint, ctx', p) = utf8_decode ctx c cs in
    let cp = if ltb unicode_max_codepoint codepoint then unicode_replacement else codepoint in
    let rest = length_loop f last fatal ctx' p (size + utf8_size cp) (len + 1) in
    if codepoint == unicode_continue
    then length_end last fatal ctx' size len
    else (if ltb unicode_max_codepoint codepoint && fatal then invalid else rest)

-- A refused byte may be read again, so that a byte takes two rounds at most.
abbrev pub rounds : List ℕ → ℕ
rounds p = 2 * length p + 2

-- `njs_utf8_stream_length`: the size, the number of code points, and the decoder's state.
unfoldable pub utf8_stream_length :
    UnicodeDecode → List ℕ → Bool → Bool → Streamed (ℕ × ℕ × UnicodeDecode)
utf8_stream_length ctx p last fatal = length_loop (rounds p) last fatal ctx p 0 0

-- `dst = njs_utf8_encode(dst, cp)`, where a NULL ends the run.
abbrev pub append_encoded :
    List ℕ → ℕ → (List ℕ → Streamed (List ℕ × UnicodeDecode)) → Streamed (List ℕ × UnicodeDecode)
append_encoded dst cp k = elim (utf8_encode cp) [ none ↦ invalid | some bytes ↦ k (dst ++ bytes) ]

-- The end of `njs_utf8_stream_encode`.
unfoldable pub encode_end : Bool → Bool → UnicodeDecode → List ℕ → Streamed (List ℕ × UnicodeDecode)
encode_end last fatal ctx dst =
    if last && not (ctx.need == 0)
    then (if fatal
        then invalid
        else append_encoded dst unicode_replacement (λ dst'. finished (dst', ctx)))
    else finished (dst, ctx)

-- The loop of `njs_utf8_stream_encode`, with the end of that function.
unfoldable pub encode_loop :
    ℕ → Bool → Bool → UnicodeDecode → List ℕ → List ℕ → Streamed (List ℕ × UnicodeDecode)
encode_loop zero last fatal ctx p dst = stuck
encode_loop (suc f) last fatal ctx [] dst = encode_end last fatal ctx dst
encode_loop (suc f) last fatal ctx (c ∷ cs) dst =
    let (codepoint, ctx', p) = utf8_decode ctx c cs in
    let cp = if ltb unicode_max_codepoint codepoint then unicode_replacement else codepoint in
    let rest = append_encoded dst cp (encode_loop f last fatal ctx' p) in
    if codepoint == unicode_continue
    then encode_end last fatal ctx' dst
    else (if ltb unicode_max_codepoint codepoint && fatal then invalid else rest)

-- `njs_utf8_stream_encode`: the bytes behind `dst`, and the decoder's state.
unfoldable pub utf8_stream_encode :
    UnicodeDecode → List ℕ → Bool → Bool → Streamed (List ℕ × UnicodeDecode)
utf8_stream_encode ctx p last fatal = encode_loop (rounds p) last fatal ctx p []

-- `qjs_text_decoder_t`; UTF-8 is the only encoding.
pub record TextDecoder : Type 0 where
  pub fatal : Bool
  pub ignore_bom : Bool
  pub ctx : UnicodeDecode

-- `data.start`, behind a byte order mark unless that is to be kept.
unfoldable pub skip_bom : TextDecoder → List ℕ → List ℕ
skip_bom td input = if td.ignore_bom then input else drop (utf8_bom input) input

-- `qjs_text_decoder_decode` on the bytes of a buffer: `invalid` is its TypeError, and `finished` has
-- the size of the string that it allocates, the bytes written to it, and the decoder.
unfoldable pub text_decoder_decode :
    TextDecoder → List ℕ → Bool → Streamed (ℕ × List ℕ × TextDecoder)
text_decoder_decode td input stream =
    let p = skip_bom td input in
    elim (utf8_stream_length td.ctx p (not stream) td.fatal) [
      | stuck ↦ stuck
      | invalid ↦ invalid
      | finished (size, len, ctx) ↦ (elim (utf8_stream_encode td.ctx p (not stream) false) [
        | stuck ↦ stuck
        | invalid ↦ invalid
        | finished (dst, ctx') ↦
            finished (size, dst, record td { ctx = if stream then ctx' else utf8_decode_init ctx' })
      ])
    ]
