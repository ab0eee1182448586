-- ===== src/CmdArgs/CString.antt =====
-- C strings as lists of bytes, for jsockd_server/src/cmdargs.c.
use Prim.Native.Char.{code}
use Prim.Native.String.{String}
use jsockd.Prelude.{
  ℕ, ◌≡◌, refl, List, [], ◌∷◌, Bool, true, false, ◌&&◌, ◌==◌, if◌then◌else◌, Option, some, none,
  arith,
}

abbrev pub Str : Type 0
Str = List ℕ

-- A literal of the source, all of them ASCII.
abbrev pub lit : String → Str
lit String.[] = []
lit (String.◌∷◌ c s) = code c ∷ lit s

-- `0 == strcmp(a, b)`
unfoldable pub same : Str → Str → Bool
same [] [] = true
same [] (d ∷ ds) = false
same (c ∷ cs) [] = false
same (c ∷ cs) (d ∷ ds) = c == d && same cs ds

-- `a[0] == '-'`
abbrev pub starts_with_dash : Str → Bool
starts_with_dash [] = false
starts_with_dash (c ∷ cs) = c == b'-'

-- `p != NULL`
abbrev pub is_some {ℓ} : {A : Type ℓ} → Option A → Bool
is_some none = false
is_some (some a) = true

-- A condition as a number.
abbrev pub flag : Bool → ℕ
flag true = 1
flag false = 0

-- A C string in memory that holds the bytes: up to the first zero.
abbrev pub c_str : Str → Str
c_str [] = []
c_str (c ∷ cs) = if c == 0 then [] else c ∷ c_str cs

pub same-eq : (a b : Str) → same a b ≡ true → a ≡ b
unfolding same
same-eq [] [] h = refl
same-eq [] (d ∷ ds) h = cc
same-eq (c ∷ cs) [] h = cc
same-eq (c ∷ cs) (d ∷ ds) h = ground (arith, h, same-eq cs ds)

pub same_self : (a : Str) → same a a ≡ true
unfolding same
same_self [] = refl
same_self (c ∷ cs) = ground (arith, same_self cs)
