-- ===== src/Hex/Tests.antt =====
-- Runs of the hexadecimal functions, and their theorems at concrete inputs.
use jsockd.Prelude.{◌≡◌, refl, [], ◌∷◌, true, arith}
use jsockd.Prelude.Int.{pos}
use jsockd.Hex.{hex_digit, hex_digit_or_zero, hex_decode, upper_digit, hex_encode}
use jsockd.Hex.RoundTrip.{hex_decode-encode}

decode_runs : hex_decode 4 (b'0' ∷ b'a' ∷ b'F' ∷ b'f' ∷ b'7' ∷ []) ≡ (3, 10 ∷ 255 ∷ 0x70 ∷ [])
unfolding hex_decode hex_digit_or_zero hex_digit
decode_runs = refl

encode_runs : hex_encode (λ _. true) (10 ∷ 0xfe ∷ []) [] ≡ (pos 0, b'0' ∷ b'A' ∷ b'F' ∷ b'E' ∷ [])
unfolding hex_encode upper_digit
encode_runs = refl

hex_decode-encode_example :
    hex_decode 2 (hex_encode (λ _. true) (10 ∷ 0xfe ∷ []) []).1 ≡ (2, 10 ∷ 0xfe ∷ [])
hex_decode-encode_example = hex_decode-encode (10 ∷ 0xfe ∷ []) 2 (omega arith) (omega arith)
