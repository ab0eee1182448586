-- ===== src/TextEncoder/Tests.antt =====
-- Runs of `encodeInto` (jsockd_server/src/textencodedecode.c), and its theorems at concrete strings.
use jsockd.Prelude.{ℕ, ◌≤◌, ◌≡◌, List, [], ◌∷◌, true, some, length}
use jsockd.Utf8.{UnicodeDecode}
use jsockd.TextDecoder.{finished}
use jsockd.TextEncoder.{encoded, EncodedInto, text_encoder_encode_into}
use jsockd.TextEncoder.Fits.{text_encoder_encode_into-Fits}

abbrev start : UnicodeDecode
start = record { codepoint = 0; need = 0; lower = 0; upper = 0 }

-- An array of three bytes, of which a letter and an umlaut take all.
abbrev array : List ℕ
array = 1 ∷ 2 ∷ 3 ∷ []

abbrev text : List ℕ
text = 97 ∷ 0xC3 ∷ 0xA4 ∷ 98 ∷ []

text_encoder_encode_into-Fits_example :
    (e : EncodedInto) × (text_encoder_encode_into true true (some array) true (some text) start
      ≡ encoded (finished e))
    × (e.written ≤ 3)
    × (length e.array ≡ 3)
text_encoder_encode_into-Fits_example = text_encoder_encode_into-Fits start array text
