-- ===== src/Utf8/Tests.antt =====
-- Runs of the UTF-8 decoder and encoder, and their theorems at concrete inputs.
use jsockd.Prelude.{suc, ◌+◌, ◌*◌, ◌<◌, ◌≡◌, refl, inr, [], ◌∷◌, some, arith}
use jsockd.Utf8.{
  UnicodeDecode, unicode_error, unicode_continue, decode_tail, utf8_boundary, utf8_boundary_set,
  lead_boundary, decode_lead, decode_resumed, utf8_decode, utf8_encode,
}
use jsockd.Utf8.Progress.{left, pending, utf8_decode-left}
use jsockd.Utf8.RoundTrip.{Decodes, utf8_decode-encode}

abbrev idle : UnicodeDecode
idle = record { codepoint = 0; need = 0; lower = 0; upper = 0 }

euro :
    utf8_decode idle 0xE2 (0x82 ∷ 0xAC ∷ 7 ∷ [])
    ≡ (0x20AC, record idle { codepoint = 0x20AC }, 7 ∷ [])
unfolding utf8_decode decode_lead decode_tail
euro = refl

-- A surrogate is refused in front of its second byte.
surrogate : (utf8_decode idle 0xED (0xA0 ∷ 0x80 ∷ [])).0 ≡ unicode_error
unfolding utf8_decode decode_lead lead_boundary utf8_boundary
surrogate = refl

-- The euro sign, cut behind its first byte.
abbrev cut : UnicodeDecode
cut = record { codepoint = 2; need = 2; lower = 0; upper = 0 }

cut_short : utf8_decode idle 0xE2 [] ≡ (unicode_continue, cut, [])
unfolding utf8_decode decode_lead utf8_boundary_set
cut_short = refl

resumed : (utf8_decode cut 0x82 (0xAC ∷ 7 ∷ [])).0 ≡ 0x20AC
unfolding utf8_decode decode_resumed decode_tail
resumed = refl

encode_emoji : utf8_encode 0x1F600 ≡ some (0xF0 ∷ 0x9F ∷ 0x98 ∷ 0x80 ∷ [])
unfolding utf8_encode
encode_emoji = refl

utf8_decode-encode_example : Decodes idle 0x1F600 (0xF0 ∷ 0x9F ∷ 0x98 ∷ 0x80 ∷ []) (65 ∷ [])
utf8_decode-encode_example =
    utf8_decode-encode idle 0x1F600 (0xF0 ∷ 0x9F ∷ 0x98 ∷ 0x80 ∷ []) (65 ∷ []) refl
      (inr (omega arith, omega arith)) encode_emoji

utf8_decode-left_example : left (utf8_decode cut 0x82 (0xAC ∷ [])) < 2 * suc 1 + pending cut
utf8_decode-left_example = utf8_decode-left cut 0x82 (0xAC ∷ [])
