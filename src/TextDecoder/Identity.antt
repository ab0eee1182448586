-- ===== src/TextDecoder/Identity.antt =====
-- `decode` (jsockd_server/src/textencodedecode.c) on well-formed UTF-8.
use jsockd.Prelude.{
  ℕ, zero, suc, ◌+◌, ◌≤◌, ◌<◌, ◌≡◌, refl, ap, ◌∙◌, List, [], ◌∷◌, ◌++◌, append_assoc, append-nil,
  Bool, true, false, if◌then◌else◌, not, length, length-append, some, inl, inr, arith,
}
use native.Mathlib.Nat.{zero-add}
use jsockd.Utf8.{
  UnicodeDecode, unicode_max_codepoint, utf8_decode, utf8_encode, utf8_size, utf8_decode_init,
}
use jsockd.Utf8.RoundTrip.{IsScalar, Decodes, utf8_decode-encode, length-utf8_encode}
use jsockd.TextDecoder.{
  finished, encode_end, encode_loop, length_loop, length_end, utf8_stream_length,
  utf8_stream_encode, TextDecoder, skip_bom, text_decoder_decode, rounds,
}

-- `WellFormed cps text`: the text is the encoding of the scalar values, one after another.
pub data WellFormed : List ℕ → List ℕ → Type 0 where
  nil : WellFormed [] []
  cons :
      {cps text bytes : List ℕ} (cp : ℕ)
      → IsScalar cp
      → utf8_encode cp ≡ some bytes
      → WellFormed cps text
      → WellFormed (cp ∷ cps) (bytes ++ text)

encode_round :
    (f : ℕ) (last fatal : Bool) (ctx ctx' : UnicodeDecode) (c cp : ℕ) (cs rest dst bytes : List ℕ)
    → utf8_decode ctx c cs ≡ (cp, ctx', rest)
    → cp ≤ unicode_max_codepoint
    → utf8_encode cp ≡ some bytes
    → encode_loop (suc f) last fatal ctx (c ∷ cs) dst
      ≡ encode_loop f last fatal ctx' rest (dst ++ bytes)
unfolding encode_loop
encode_round f last fatal ctx ctx' c cp cs rest dst bytes e h b = ground arith

length_round :
    (f : ℕ) (last fatal : Bool) (ctx ctx' : UnicodeDecode) (c cp : ℕ) (cs rest : List ℕ)
    (size n : ℕ)
    → utf8_decode ctx c cs ≡ (cp, ctx', rest)
    → cp ≤ unicode_max_codepoint
    → length_loop (suc f) last fatal ctx (c ∷ cs) size n
      ≡ length_loop f last fatal ctx' rest (size + utf8_size cp) (n + 1)
unfolding length_loop
length_round f last fatal ctx ctx' c cp cs rest size n e h = ground arith

pub IsScalar-le : (cp : ℕ) → IsScalar cp → cp ≤ unicode_max_codepoint
IsScalar-le cp (inl h) = omega arith
IsScalar-le cp (inr h) = omega arith

-- What both loops do on well-formed input, from a decoder between two sequences.
abbrev Passes : ℕ → Bool → Bool → UnicodeDecode → List ℕ → List ℕ → List ℕ → ℕ → ℕ → Type 0
Passes f last fatal ctx cps text dst size n =
    (ctx' : UnicodeDecode) × (encode_loop f last false ctx text dst ≡ finished (dst ++ text, ctx'))
    × (length_loop f last fatal ctx text size n
        ≡ finished (size + length text, n + length cps, ctx'))
    × (ctx'.need ≡ 0)
    × (ctx'.lower ≡ ctx.lower)

Passes-cons :
    (f : ℕ) (last fatal : Bool) (ctx : UnicodeDecode) (cp : ℕ) (cps bytes text dst : List ℕ)
    (size n : ℕ)
    → IsScalar cp
    → utf8_encode cp ≡ some bytes
    → Decodes ctx cp bytes text
    → ((ctx' : UnicodeDecode)
        → ctx'.need ≡ 0
        → Passes f last fatal ctx' cps text (dst ++ bytes) (size + utf8_size cp) (n + 1))
    → Passes (suc f) last fatal ctx (cp ∷ cps) (bytes ++ text) dst size n
Passes-cons f last fatal ctx cp cps [] text dst size n s e d ih = absurd d
Passes-cons f last fatal ctx cp cps (b ∷ bs) text dst size n s e (ctx', d, need, lower) ih =
    let (ctx'', enc, len, need', lower') = ih ctx' need in
    (
      ctx'',
      encode_round f last false ctx ctx' b cp (bs ++ text) text dst (b ∷ bs) d (IsScalar-le cp s) e
          ∙ enc
          ∙ ap (λ l. finished (l, ctx'')) (append_assoc dst (b ∷ bs) text),
      length_round f last fatal ctx ctx' b cp (bs ++ text) text size n d (IsScalar-le cp s)
          ∙ len
          ∙ (λ i. finished (sizes i, counts i, ctx'')),
      need',
      lower' ∙ lower,
    )
  where
    written : length (b ∷ bs) ≡ utf8_size cp
    written =
        let (bytes', e', l) = length-utf8_encode cp (IsScalar-le cp s) in
        let same : bytes' ≡ b ∷ bs = cc in rw same at l

    sizes : size + utf8_size cp + length text ≡ size + length ((b ∷ bs) ++ text)
    sizes = omega (arith, length-append (b ∷ bs) text, written)

    counts : n + 1 + length cps ≡ n + length (cp ∷ cps)
    counts = omega arith

loops_pass :
    {cps text : List ℕ} (f : ℕ) (last fatal : Bool) (ctx : UnicodeDecode) (dst : List ℕ)
    (size n : ℕ)
    → WellFormed cps text
    → length cps < f
    → ctx.need ≡ 0
    → Passes f last fatal ctx cps text dst size n
loops_pass zero last fatal ctx dst size n w h z = absurd (omega arith)
loops_pass (suc f) last fatal ctx dst size n nil h z = (
  ctx,
  unfold encode_loop encode_end in ground (arith, append-nil dst),
  unfold length_loop length_end in ground arith,
  z,
  refl,
)
loops_pass (suc f) last fatal ctx dst size n
      (cons {cps = cps} {text = text} {bytes = bytes} cp s e w) h z =
    Passes-cons f last fatal ctx cp cps bytes text dst size n s e
      (utf8_decode-encode ctx cp bytes text z s e)
      (λ ctx' z'.
        loops_pass f last fatal ctx' (dst ++ bytes) (size + utf8_size cp) (n + 1) w (omega arith)
          z')

pub length-WellFormed : {cps text : List ℕ} → WellFormed cps text → length cps ≤ length text
length-WellFormed nil = omega arith
length-WellFormed (cons {cps = cps} {text = text} {bytes = bytes} cp s e w) =
    let (bytes', e', l) = length-utf8_encode cp (IsScalar-le cp s) in
    let same : bytes' ≡ bytes = cc in
    let l' : length bytes ≡ utf8_size cp = rw same at l in
    omega (arith, length-append bytes text, length-WellFormed w, size_pos cp, l')
  where
    size_pos : (cp : ℕ) → 0 < utf8_size cp
    size_pos cp = unfold utf8_size in ground arith

-- Well-formed UTF-8 passes through `decode` unchanged, in fatal mode too, and leaves the decoder
-- between two sequences: it has to be so before the call, and no byte order mark to be skipped.
pub text_decoder_decode-WellFormed :
    {cps text : List ℕ} (td : TextDecoder) (stream : Bool)
    → WellFormed cps text
    → td.ctx.need ≡ 0
    → skip_bom td text ≡ text
    → (td' : TextDecoder) × (text_decoder_decode td text stream ≡ finished (length text, text, td'))
      × (td'.ctx.need ≡ 0)
      × (td'.fatal ≡ td.fatal)
      × (td'.ignore_bom ≡ td.ignore_bom)
text_decoder_decode-WellFormed {text = text} td stream w z b =
    let (ctx', enc, len, need, lower) =
      loops_pass (rounds text) (not stream) td.fatal td.ctx [] 0 0 w
        (omega (arith, length-WellFormed w)) z in
    (
      record td { ctx = if stream then ctx' else utf8_decode_init ctx' },
      result ctx' enc len,
      after stream ctx' need,
      refl,
      refl,
    )
  where
    after :
        (stream : Bool) (ctx' : UnicodeDecode)
        → ctx'.need ≡ 0
        → (if stream then ctx' else utf8_decode_init ctx').need ≡ 0
    after true ctx' h = h
    after false ctx' h = unfold utf8_decode_init in refl

    result :
        (ctx' : UnicodeDecode) {m : ℕ}
        → encode_loop (rounds text) (not stream) false td.ctx text [] ≡ finished (text, ctx')
        → length_loop (rounds text) (not stream) td.fatal td.ctx text 0 0
          ≡ finished (0 + length text, m, ctx')
        → text_decoder_decode td text stream
          ≡ finished (
            length text,
            text,
            record td { ctx = if stream then ctx' else utf8_decode_init ctx' },
          )
    result ctx' enc len =
        unfold text_decoder_decode utf8_stream_length utf8_stream_encode in
        rw (b, len, b, enc, zero-add, text_decoder_decode, utf8_stream_length, utf8_stream_encode)
