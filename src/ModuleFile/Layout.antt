-- ===== src/ModuleFile/Layout.antt =====
-- The parts of a module file (jsockd_server/src/modcompiler.c): bytecode, version string, signature.
use jsockd.Prelude.{
  ℕ, zero, suc, ◌+◌, ◌-◌, ◌≤◌, ◌<◌, ◌≡◌, refl, ap, ◌∙◌, [], ◌∷◌, ◌++◌, append_assoc, length, take,
  drop, replicate, length-append, length-replicate, take-append, drop-append, All, arith,
}
use jsockd.CmdArgs.CString.{Str, c_str}
use jsockd.ModuleFile.{version_string}
use jsockd.ModuleFile.Compile.{zero_padded, with_version}

-- A C string has no zero inside.
abbrev pub IsText : Str → Type 0
IsText text = All (λ c. 0 < c) text

c_str-zeros : (text : Str) (k : ℕ) → IsText text → c_str (text ++ replicate k 0) ≡ text
c_str-zeros [] zero t = refl
c_str-zeros [] (suc k) t = refl
c_str-zeros (c ∷ cs) k t = ground (arith, t.0, c_str-zeros cs k t.1)

pub c_str-IsText : (text : Str) → IsText text → c_str text ≡ text
c_str-IsText [] t = refl
c_str-IsText (c ∷ cs) t = ground (arith, t.0, c_str-IsText cs t.1)

take-append_add : (xs ys : Str) (k : ℕ) → take (length xs + k) (xs ++ ys) ≡ xs ++ take k ys
take-append_add [] ys k = ap (λ n. take n ys) (omega arith)
take-append_add (x ∷ xs) ys k =
    let e : length (x ∷ xs) + k ≡ suc (length xs + k) = omega arith in
    rw e (ap (λ l. x ∷ l) (take-append_add xs ys k))

take-zeros : (m k : ℕ) (ys : Str) → k ≤ m → take k (replicate m 0 ++ ys) ≡ replicate k 0
take-zeros m zero ys h = refl
take-zeros zero (suc k) ys h = absurd (omega arith)
take-zeros (suc m) (suc k) ys h = ap (λ l. 0 ∷ l) (take-zeros m k ys (omega arith))

pub length-zero_padded : (n : ℕ) (text : Str) → length text ≤ n → length (zero_padded n text) ≡ n
length-zero_padded n text h = omega (
  arith,
  length-append text (replicate (n - length text) 0),
  length-replicate {A = ℕ} (n - length text) 0,
)

-- A file with a version string and a signature of the right sizes.
module _ (bytecode version signature : Str) (short : length version < 128)
    (sized : length signature ≡ 64) where
  abbrev pub file : Str
  file = with_version bytecode version ++ signature

  abbrev message : Str
  message = with_version bytecode version

  length-message : length message ≡ length bytecode + 128
  unfolding with_version
  length-message = omega (
    arith,
    short,
    length-append bytecode (zero_padded 128 version),
    length-zero_padded 128 version (omega (arith, short)),
  )

  pub length-file : length file ≡ length bytecode + 192
  length-file = omega (arith, sized, length-append message signature, length-message)

  pub message_of : take (length file - 64) file ≡ message
  message_of =
      let e : length file - 64 ≡ length message = omega (arith, length-file, length-message) in
      rw e (take-append message signature)

  pub signature_of : drop (length file - 64) file ≡ signature
  signature_of =
      let e : length file - 64 ≡ length message = omega (arith, length-file, length-message) in
      rw e (drop-append message signature)

  pub bytecode_prefix : take (length bytecode) file ≡ bytecode
  unfolding with_version
  bytecode_prefix =
      ap (take (length bytecode)) (append_assoc bytecode (zero_padded 128 version) signature)
      ∙ take-append bytecode (zero_padded 128 version ++ signature)

  pub version_of : IsText version → version_string file ≡ version
  unfolding version_string with_version
  version_of t =
      let e : length file - 64 - 128 ≡ length bytecode = omega (arith, length-file) in
      let zeros : Str = replicate (128 - length version) 0 in
      let parts : drop (length file - 64 - 128) file ≡ version ++ (zeros ++ signature) =
        ap (λ n. drop n file) e
        ∙ ap (drop (length bytecode)) (append_assoc bytecode (zero_padded 128 version) signature)
        ∙ drop-append bytecode (zero_padded 128 version ++ signature)
        ∙ append_assoc version zeros signature in
      let k : 127 ≡ length version + (127 - length version) = omega (arith, short) in
      ap (λ l. c_str (take 127 l)) parts
      ∙ ap (λ n. c_str (take n (version ++ (zeros ++ signature)))) k
      ∙ ap c_str (take-append_add version (zeros ++ signature) (127 - length version))
      ∙ ap (λ l. c_str (version ++ l))
          (take-zeros (128 - length version) (127 - length version) signature (omega arith))
      ∙ c_str-zeros version (127 - length version) t
