-- ===== src/Hex/RoundTrip.antt =====
-- `hex_decode` reads what `hex_encode` prints (jsockd_server/src/hex.c).
use jsockd.Prelude.{
  ℕ, zero, suc, ◌/◌, ◌%◌, ◌≤◌, ◌<◌, ◌≡◌, refl, ap, ◌∙◌, List, [], ◌∷◌, ◌++◌, true, append_assoc,
  append-nil, length, All, arith,
}
use jsockd.Prelude.Int.{pos}
use jsockd.Hex.{hex_digit, hex_digit_or_zero, hex_decode, upper_digit, hex_encode}

-- The two digits of each byte.
unfoldable pub digits_of : List ℕ → List ℕ
digits_of [] = []
digits_of (b ∷ bytes) = upper_digit (b / 16) ∷ upper_digit (b % 16) ∷ digits_of bytes

hex_digit-upper_digit : (n : ℕ) → n < 16 → hex_digit_or_zero (upper_digit n) ≡ n
unfolding hex_digit_or_zero hex_digit upper_digit
hex_digit-upper_digit n h = ground arith

pub hex_encode-digits_of :
    (bytes out : List ℕ) → hex_encode (λ _. true) bytes out ≡ (pos 0, out ++ digits_of bytes)
unfolding hex_encode digits_of
hex_encode-digits_of [] out = rw append-nil
hex_encode-digits_of (b ∷ bytes) out =
    hex_encode-digits_of bytes (out ++ (upper_digit (b / 16) ∷ upper_digit (b % 16) ∷ []))
    ∙ ap (λ l. (pos 0, l))
        (append_assoc out (upper_digit (b / 16) ∷ upper_digit (b % 16) ∷ []) (digits_of bytes))

pub hex_decode-digits_of :
    (bytes : List ℕ) (n : ℕ)
    → All (λ b. b < 256) bytes
    → length bytes ≤ n
    → hex_decode n (digits_of bytes) ≡ (length bytes, bytes)
unfolding hex_decode digits_of
hex_decode-digits_of [] zero h le = refl
hex_decode-digits_of [] (suc n) h le = refl
hex_decode-digits_of (b ∷ bytes) zero h le = absurd (omega arith)
hex_decode-digits_of (b ∷ bytes) (suc n) h le = ground (
  arith,
  hex_digit-upper_digit (b / 16),
  hex_digit-upper_digit (b % 16),
  hex_decode-digits_of bytes n h.1 (omega arith),
)

-- Where the prints succeed, what `hex_encode` prints is decoded to the same bytes, into any buffer
-- that is long enough.
pub hex_decode-encode :
    (bytes : List ℕ) (n : ℕ)
    → All (λ b. b < 256) bytes
    → length bytes ≤ n
    → hex_decode n (hex_encode (λ _. true) bytes []).1 ≡ (length bytes, bytes)
hex_decode-encode bytes n h le =
    rw (hex_encode-digits_of bytes []) (hex_decode-digits_of bytes n h le)

hex_digit_or_zero_bound : (c : ℕ) → hex_digit_or_zero c < 16
unfolding hex_digit_or_zero hex_digit
hex_digit_or_zero_bound c = ground arith

-- `hex_decode` never writes past the buffer, and counts the bytes that it writes.
pub hex_decode_bounds :
    (n : ℕ) (input : List ℕ)
    → ((hex_decode n input).0 ≤ n)
      × (length (hex_decode n input).1 ≡ (hex_decode n input).0)
      × All (λ b. b < 256) (hex_decode n input).1
unfolding hex_decode
hex_decode_bounds zero input = (omega arith, refl, tt)
hex_decode_bounds (suc n) [] = (omega arith, refl, tt)
hex_decode_bounds (suc n) (c ∷ []) = (omega arith, refl, (omega arith, tt))
hex_decode_bounds (suc n) (c ∷ d ∷ input) =
    let ih = hex_decode_bounds n input in
    (
      omega (arith, ih.0),
      ap suc ih.1,
      (omega (arith, hex_digit_or_zero_bound c, hex_digit_or_zero_bound d), ih.2),
    )
