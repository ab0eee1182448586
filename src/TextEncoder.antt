-- ===== src/TextEncoder.antt =====
-- `TextEncoder` (jsockd_server/src/textencodedecode.c) between its calls of the QuickJS API: the argument
-- is the text that `JS_ToCStringLen` gives for the string, none for its exception.
mod Fits
mod Prefix
mod Tests
use jsockd.Prelude.{
  ℕ, zero, suc, ◌+◌, ◌-◌, List, [], ◌∷◌, ◌++◌, Bool, true, false, not, ◌==◌, ltb, if◌then◌else◌,
  Option, some, none, length, splice,
}
use jsockd.Utf8.{
  UnicodeDecode, unicode_replacement, unicode_max_codepoint, utf8_decode_init, utf8_decode,
  utf8_size, utf8_encode,
}
use jsockd.TextDecoder.{Streamed, finished, invalid, stuck, rounds}

-- What the methods end with: an exception, or a value.
pub data Encoded (A : Type 0) : Type 0 where
  not_a_text_encoder not_a_string not_a_uint8_array exception : Encoded A
  encoded : A → Encoded A

-- `qjs_text_encoder_encode`: whether `this` and the argument are what they should be, the text, and
-- whether the new array can be made; the result is its bytes.
unfoldable pub text_encoder_encode : Bool → Bool → Option (List ℕ) → Bool → Encoded (List ℕ)
text_encoder_encode is_encoder is_string utf8 array_made =
    if not is_encoder
    then not_a_text_encoder
    else (if not is_string then not_a_string else (elim utf8 [
      | none ↦ exception
      | some text ↦ (if array_made then encoded text else exception)
    ]))

-- `(cp > 0xFFFF) ? 2 : 1`
abbrev pub units : ℕ → ℕ
units cp = if ltb 0xFFFF cp then 2 else 1

-- The loop of `qjs_text_encoder_encode_into`, with the rounds that are left, the room between `to` and
-- `to_end`, `read`, `written` and the bytes that were written. `invalid` is the NULL of
-- `njs_utf8_encode`. The counts are `int`s, and do not overflow for fewer than 2^31 bytes.
unfoldable pub encode_into_loop :
    ℕ → UnicodeDecode → List ℕ → ℕ → ℕ → ℕ → List ℕ → Streamed (ℕ × ℕ × List ℕ)
encode_into_loop zero ctx p room read written dst = stuck
encode_into_loop (suc f) ctx [] room read written dst = finished (read, written, dst)
encode_into_loop (suc f) ctx (c ∷ cs) room read written dst =
    let (codepoint, ctx', p) = utf8_decode ctx c cs in
    let cp = if ltb unicode_max_codepoint codepoint then unicode_replacement else codepoint in
    let size = utf8_size cp in
    let rest : Streamed (ℕ × ℕ × List ℕ) = elim (utf8_encode cp) [
      | none ↦ invalid
      | some bytes ↦
          encode_into_loop f ctx' p (room - size) (read + units cp) (written + size) (dst ++ bytes)
    ] in
    if ltb room size then finished (read, written, dst) else rest

-- What `qjs_text_encoder_encode_into` returns, and the bytes of the array.
pub record EncodedInto : Type 0 where
  pub read : ℕ
  pub written : ℕ
  pub array : List ℕ

-- `qjs_text_encoder_encode_into`: whether `this` and the first argument are what they should be, the bytes
-- of the array or none, whether it is a `Uint8Array`, the text, and the decoder's memory.
unfoldable pub text_encoder_encode_into :
    Bool
    → Bool
    → Option (List ℕ)
    → Bool
    → Option (List ℕ)
    → UnicodeDecode
    → Encoded (Streamed EncodedInto)
text_encoder_encode_into is_encoder is_string array is_uint8_array utf8 ctx =
    if not is_encoder
    then not_a_text_encoder
    else (if not is_string then not_a_string else (elim array [
      | none ↦ exception
      | some dst ↦
          (if not is_uint8_array then not_a_uint8_array else (elim utf8 [
            | none ↦ exception
            | some text ↦
                encoded
                  (elim (encode_into_loop (rounds text) (utf8_decode_init ctx) text (length dst) 0 0
                    []) [
                      | stuck ↦ stuck
                      | invalid ↦ invalid
                      | finished (read, written, bytes) ↦
                          finished
                            (record { read = read; written = written; array = splice dst 0 bytes })
                    ])
          ]))
    ]))
