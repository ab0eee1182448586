-- ===== src/TextEncoder/Prefix.antt =====
-- `encodeInto` (jsockd_server/src/textencodedecode.c) on well-formed UTF-8.
use jsockd.Prelude.{ℕ, ◌+◌, ◌-◌, ◌≤◌, ◌<◌, ◌≡◌, List, [], ◌∷◌, ◌++◌, some, length}
use jsockd.Utf8.{utf8_size, utf8_encode}
use jsockd.TextDecoder.{Streamed, finished}
use jsockd.TextEncoder.{units}

-- `Cut room cps units bytes`: of the code points, those that fit whole in the room, from the first on up
-- to the first that does not; with the length in UTF-16 and the encoding of those that do.
pub data Cut : ℕ → List ℕ → ℕ → List ℕ → Type 0 where
  all : (room : ℕ) → Cut room [] 0 []
  full : (room cp : ℕ) (cps : List ℕ) → room < utf8_size cp → Cut room (cp ∷ cps) 0 []
  next :
      {room n : ℕ} {cps out bytes : List ℕ} (cp : ℕ)
      → utf8_size cp ≤ room
      → utf8_encode cp ≡ some bytes
      → Cut (room - utf8_size cp) cps n out
      → Cut room (cp ∷ cps) (units cp + n) (bytes ++ out)

-- The loop ends with what was cut behind what it had.
abbrev Cuts : ℕ → List ℕ → ℕ → ℕ → List ℕ → Streamed (ℕ × ℕ × List ℕ) → Type 0
Cuts room cps read written dst r =
    (n : ℕ) × (out : List ℕ) × Cut room cps n out
    × (r ≡ finished (read + n, written + length out, dst ++ out))
