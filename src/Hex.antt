-- ===== src/Hex.antt =====
-- jsockd_server/src/hex.c. A C string is the list of its bytes, without the terminating zero.
pub mod RoundTrip
pub mod Tests
use jsockd.Prelude.{
  ℕ, zero, suc, ◌+◌, ◌-◌, ◌*◌, ◌/◌, ◌%◌, List, [], ◌∷◌, ◌++◌, Bool, ◌&&◌, leb, ltb, length,
  if◌then◌else◌,
}
use jsockd.Prelude.Int.{ℤ, pos, negsuc, is_neg, pos_part}

-- `hex_digit`
unfoldable pub hex_digit : ℕ → ℤ
hex_digit c =
    if leb b'0' c && leb c b'9'
    then pos (c - b'0')
    else (if leb b'A' c && leb c b'F'
        then pos (c - b'A' + 10)
        else (if leb b'a' c && leb c b'f' then pos (c - b'a' + 10) else negsuc 0))

-- `hex_digit_or_zero`
unfoldable pub hex_digit_or_zero : ℕ → ℕ
hex_digit_or_zero c = if is_neg (hex_digit c) then 0 else pos_part (hex_digit c)

-- `hex_decode` into a buffer of the given length: the number that it returns, and the bytes that it
-- writes. `<< 4` wraps at a byte, and leaves room for the `|`.
unfoldable pub hex_decode : ℕ → List ℕ → ℕ × List ℕ
hex_decode zero input = (0, [])
hex_decode (suc n) [] = (0, [])
hex_decode (suc n) (c ∷ []) = (1, hex_digit_or_zero c * 16 % 256 ∷ [])
hex_decode (suc n) (c ∷ d ∷ input) =
    let (k, bytes) = hex_decode n input in
    (suc k, (hex_digit_or_zero c * 16 % 256 + hex_digit_or_zero d) ∷ bytes)

-- One digit of the format `%02X`.
unfoldable pub upper_digit : ℕ → ℕ
upper_digit n = if ltb n 10 then b'0' + n else b'A' + (n - 10)

-- `hex_encode`: its result and the text behind `out`. `prints k` says whether `fprintf` writes the two
-- digits when `k` bytes are left.
unfoldable pub hex_encode : (ℕ → Bool) → List ℕ → List ℕ → ℤ × List ℕ
hex_encode prints [] out = (pos 0, out)
hex_encode prints (b ∷ bytes) out =
    let rest =
      hex_encode prints bytes (out ++ (upper_digit (b / 16) ∷ upper_digit (b % 16) ∷ [])) in
    if prints (length bytes) then rest else (negsuc 0, out)
