-- ===== src/TextDecoder/Tests.antt =====
-- Runs of the text decoder, and its theorems at concrete inputs.
use jsockd.Prelude.{ℕ, ◌≡◌, refl, inl, List, [], ◌∷◌, ◌++◌, true, false, arith}
use jsockd.Utf8.{
  utf8_decode_init, utf8_bom, decode_tail, decode_lead, utf8_decode, utf8_encode, utf8_size,
}
use jsockd.TextDecoder.{
  finished, invalid, length_end, length_loop, utf8_stream_length, encode_end, encode_loop,
  utf8_stream_encode, TextDecoder, skip_bom, text_decoder_decode,
}
use jsockd.TextDecoder.Buffer.{IsSafe, text_decoder_decode-IsSafe}
use jsockd.TextDecoder.Identity.{WellFormed, nil, cons, text_decoder_decode-WellFormed}

abbrev decoder : TextDecoder
decoder = record {
  fatal = true;
  ignore_bom = false;
  ctx = record { codepoint = 0; need = 0; lower = 0; upper = 0 };
}

abbrev lenient : TextDecoder
lenient = record decoder { fatal = false }

-- A byte order mark, an `A`, and a broken sequence.
abbrev broken : List ℕ
broken = 0xEF ∷ 0xBB ∷ 0xBF ∷ 65 ∷ 0xE2 ∷ 0x82 ∷ 66 ∷ []

replaces :
    text_decoder_decode lenient broken false
    ≡ finished (5, 65 ∷ 0xEF ∷ 0xBF ∷ 0xBD ∷ 66 ∷ [], lenient)
unfolding text_decoder_decode utf8_stream_length utf8_stream_encode length_loop length_end
    encode_loop encode_end skip_bom utf8_bom utf8_decode decode_lead decode_tail utf8_encode
    utf8_size utf8_decode_init
replaces = refl

refuses : text_decoder_decode decoder broken false ≡ invalid
unfolding text_decoder_decode utf8_stream_length length_loop length_end skip_bom utf8_bom
    utf8_decode decode_lead decode_tail utf8_size
refuses = refl

text_decoder_decode-IsSafe_example : IsSafe lenient (text_decoder_decode lenient broken false)
text_decoder_decode-IsSafe_example = text_decoder_decode-IsSafe lenient broken false

-- "A€"
abbrev text : List ℕ
text = (65 ∷ []) ++ ((0xE2 ∷ 0x82 ∷ 0xAC ∷ []) ++ [])

text-WellFormed : WellFormed (65 ∷ 0x20AC ∷ []) text
unfolding utf8_encode
text-WellFormed = cons 65 (inl (omega arith)) refl (cons 0x20AC (inl (omega arith)) refl nil)

text_decoder_decode-WellFormed_example :
    (td' : TextDecoder) × (text_decoder_decode decoder text true ≡ finished (4, text, td'))
    × (td'.ctx.need ≡ 0)
    × (td'.fatal ≡ true)
    × (td'.ignore_bom ≡ false)
unfolding skip_bom utf8_bom
text_decoder_decode-WellFormed_example =
    text_decoder_decode-WellFormed decoder true text-WellFormed refl refl
