-- ===== src/TextEncoder/Fits.antt =====
-- `encodeInto` (jsockd_server/src/textencodedecode.c) on any text.
use jsockd.Prelude.{
  ℕ, zero, suc, ◌+◌, ◌-◌, ◌*◌, ◌≤◌, ◌<◌, ◌≡◌, refl, subst, List, [], ◌∷◌, ◌++◌, length-append, true,
  ltb, if◌then◌else◌, some, none, length, splice, length-splice, Bool-cases, inl, inr, arith,
}
use jsockd.Utf8.{
  UnicodeDecode, unicode_replacement, unicode_max_codepoint, utf8_decode, utf8_decode_init,
  utf8_size, utf8_encode,
}
use jsockd.Utf8.Progress.{pending, utf8_decode-left}
use jsockd.Utf8.RoundTrip.{length-utf8_encode}
use jsockd.TextDecoder.{Streamed, finished, invalid, stuck, rounds}
use jsockd.TextEncoder.{units, encode_into_loop, encoded, EncodedInto, text_encoder_encode_into}

-- The loop has ended; what was written is what is counted, and no more than there was room for.
abbrev pub Fits : ℕ → Streamed (ℕ × ℕ × List ℕ) → Type 0
Fits n stuck = ⊥
Fits n invalid = ⊥
Fits n (finished (read, written, dst)) = (length dst ≡ written) × (written ≤ n)

-- A code point that is no error, or the replacement of one.
pub replaced_bound :
    (codepoint : ℕ)
    → (if ltb unicode_max_codepoint codepoint then unicode_replacement else codepoint)
      ≤ unicode_max_codepoint
replaced_bound codepoint = ground arith

Fits-round :
    (n room read written cp : ℕ) (dst : List ℕ) (rest : List ℕ → Streamed (ℕ × ℕ × List ℕ))
    → cp ≤ unicode_max_codepoint
    → length dst ≡ written
    → written ≤ n
    → ((bytes : List ℕ) → length bytes ≡ utf8_size cp → utf8_size cp ≤ room → Fits n (rest bytes))
    → Fits n (
        if ltb room (utf8_size cp)
        then finished (read, written, dst)
        else (elim (utf8_encode cp) [ none ↦ invalid | some bytes ↦ rest bytes ]))
Fits-round n room read written cp dst rest h l k next =
    elim (Bool-cases (ltb room (utf8_size cp))) [
      | inl e ↦ rw e (l, k)
      | inr e ↦
          (let (bytes, e', l') = length-utf8_encode cp h in
            rw (e, e') (next bytes l' (ground (arith, e))))
    ]

pub encode_into_loop-Fits :
    (f : ℕ) (ctx : UnicodeDecode) (p : List ℕ) (room read written : ℕ) (dst : List ℕ)
    → 2 * length p + pending ctx < f
    → length dst ≡ written
    → Fits (written + room) (encode_into_loop f ctx p room read written dst)
unfolding encode_into_loop
encode_into_loop-Fits zero ctx p room read written dst h l = absurd (omega arith)
encode_into_loop-Fits (suc f) ctx [] room read written dst h l = (l, omega arith)
encode_into_loop-Fits (suc f) ctx (c ∷ cs) room read written dst h l =
    let d = utf8_decode ctx c cs in
    let cp = if ltb unicode_max_codepoint d.0 then unicode_replacement else d.0 in
    Fits-round (written + room) room read written cp dst _ (replaced_bound d.0) l (omega arith)
      (λ bytes l' k.
        let n : written + utf8_size cp + (room - utf8_size cp) ≡ written + room = omega arith in
        subst
          (λ n. Fits n (
            encode_into_loop f d.1 d.2 (room - utf8_size cp) (read + units cp)
              (written + utf8_size cp) (dst ++ bytes)))
          n
          (encode_into_loop-Fits f d.1 d.2 (room - utf8_size cp) (read + units cp)
            (written + utf8_size cp) (dst ++ bytes) (omega (arith, utf8_decode-left ctx c cs))
            (omega (arith, length-append dst bytes))))

-- `encodeInto` on any text stays in the array: for a `TextEncoder`, a string and a `Uint8Array` it ends
-- and returns a result, `written` is at most the length of the array, and the array keeps its length.
pub text_encoder_encode_into-Fits :
    (ctx : UnicodeDecode) (dst text : List ℕ)
    → (e : EncodedInto) × (text_encoder_encode_into true true (some dst) true (some text) ctx
        ≡ encoded (finished e))
      × (e.written ≤ length dst)
      × (length e.array ≡ length dst)
unfolding text_encoder_encode_into utf8_decode_init
text_encoder_encode_into-Fits ctx dst text =
    after (encode_into_loop (rounds text) (utf8_decode_init ctx) text (length dst) 0 0 []) (
      encode_into_loop-Fits (rounds text) (utf8_decode_init ctx) text (length dst) 0 0 []
        (ground arith) refl)
  where
    after :
        (r : Streamed (ℕ × ℕ × List ℕ))
        → Fits (0 + length dst) r
        → (e : EncodedInto) × (encoded (elim r as (λ x. Streamed EncodedInto) [
          | stuck ↦ stuck
          | invalid ↦ invalid
          | finished (read, written, bytes) ↦
              finished (record { read = read; written = written; array = splice dst 0 bytes })
        ])
            ≡ encoded (finished e))
          × (e.written ≤ length dst)
          × (length e.array ≡ length dst)
    after stuck f = absurd f
    after invalid f = absurd f
    after (finished (read, written, bytes)) f = (
      record { read = read; written = written; array = splice dst 0 bytes },
      refl,
      omega (arith, f.1),
      length-splice dst 0 bytes (omega (arith, f.0, f.1)),
    )
