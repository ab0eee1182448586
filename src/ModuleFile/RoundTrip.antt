-- ===== src/ModuleFile/RoundTrip.antt =====
-- From new keys over a compiled module to a loaded one: `output_key_file` and `compile_module_file`
-- (jsockd_server/src/modcompiler.c) against `load_module_bytecode` (jsockd_server/src/main.c).
use jsockd.Prelude.{
  ℕ, ◌-◌, ◌*◌, ◌/◌, ◌%◌, ◌≤◌, ◌<◌, ◌≡◌, refl, sym, ap, ◌∙◌, [], ◌∷◌, ◌++◌, Bool, true, false, ltb,
  Option, some, none, append-nil, append_assoc, length, take, take-all, replicate, All, arith,
}
use jsockd.Prelude.Int.{is_neg}
use jsockd.CmdArgs.CString.{Str, c_str}
use jsockd.Hex.{hex_decode, hex_encode, upper_digit}
use jsockd.Hex.RoundTrip.{digits_of, hex_decode-digits_of}
use jsockd.ModuleFile.{
  regular, mmap_file, loaded, version_differs, verify_bytecode, check_signature, load_mapped,
  load_module_bytecode,
}
use jsockd.ModuleFile.Compile.{
  CompileAnswers, compiled, with_version, zero_padded, extract_public_key, read_private_key,
  write_module, sign_module, compile_text, compile_module_file, write_keys, output_key_file,
}
use jsockd.ModuleFile.Layout.{
  IsText, c_str-IsText, length-file, message_of, signature_of, bytecode_prefix, version_of,
}
use jsockd.CmdArgs.CString.{same_self}

digits_of-IsText : (bytes : Str) → IsText (digits_of bytes)
unfolding digits_of upper_digit
digits_of-IsText [] = tt
digits_of-IsText (b ∷ bytes) = (ground arith, (ground arith, digits_of-IsText bytes))

length-digits_of : (bytes : Str) → length (digits_of bytes) ≡ 2 * length bytes
unfolding digits_of
length-digits_of [] = refl
length-digits_of (b ∷ bytes) = omega (arith, length-digits_of bytes)

-- A private key is read from the digits of its bytes.
read_private_key-digits_of :
    (key : Str)
    → All (λ b. b < 256) key
    → length key ≡ 64
    → read_private_key (digits_of key) ≡ some key
unfolding read_private_key
read_private_key-digits_of key bytes sized =
    let text = digits_of key in
    let l : length text ≡ 128 = omega (arith, sized, length-digits_of key) in
    let long : ltb (length text) 128 ≡ false = ground (arith, l) in
    let whole : c_str (take 128 text) ≡ text =
      ap c_str (take-all text 128 (omega (arith, l))) ∙ c_str-IsText text (digits_of-IsText key) in
    let no_room : 64 - length key ≡ 0 = omega (arith, sized) in
    let fits : length key ≤ 64 = omega (arith, sized) in
    let zeros : Str = replicate (64 - length key) 0 in
    let none_left : zeros ≡ [] = ap (λ n. replicate n 0) no_room in
    rw long (
      ap some (
        ap (λ t. zero_padded 64 (hex_decode 64 t).1) whole
        ∙ ap (λ (p : ℕ × Str). zero_padded 64 p.1) (hex_decode-digits_of key 64 bytes fits)
        ∙ ap (λ (l : Str). key ++ l) none_left
        ∙ append-nil key))

-- What the code relies on in ed25519: a signature has 64 bytes, and one that was made with the keys of a
-- new pair is verified under its public key; the public key of a pair is the point that the scalar in the
-- first 32 bytes of its private key gives, as bytes; and the keys have their sizes.
pub record IsEd25519 {P3 : Type 0} (ge_scalarmult_base : Str → P3) (ge_p3_tobytes : P3 → Str)
    (ed25519_verify : Str → Str → Str → Bool) (ed25519_sign : Str → Str → Str → Str)
    (ed25519_create_keypair : Str → Str × Str) : Type 0 where
  pub signature_sized : (m p k : Str) → length (ed25519_sign m p k) ≡ 64
  pub verifies :
      (m seed : Str)
      → ed25519_verify
          (ed25519_sign m (ed25519_create_keypair seed).0 (ed25519_create_keypair seed).1)
          m
          (ed25519_create_keypair seed).0
        ≡ true
  pub public_point :
      (seed : Str)
      → (ed25519_create_keypair seed).0
        ≡ ge_p3_tobytes (ge_scalarmult_base (take 32 (ed25519_create_keypair seed).1))
  pub public_sized : (seed : Str) → length (ed25519_create_keypair seed).0 ≡ 32
  pub private_sized : (seed : Str) → length (ed25519_create_keypair seed).1 ≡ 64
  pub public_bytes : (seed : Str) → All (λ b. b < 256) (ed25519_create_keypair seed).0
  pub private_bytes : (seed : Str) → All (λ b. b < 256) (ed25519_create_keypair seed).1

-- Nothing fails while a module is compiled: its text, the bytecode, and the contents of the key file.
pub record Works (a : CompileAnswers) (text bytecode key_text : Str) : Type 0 where
  pub runtime : a.has_runtime ≡ true
  pub context : a.has_context ≡ true
  pub found : a.module_file ≡ some text
  pub compiles : a.js_eval text ≡ some bytecode
  pub key : a.key_file ≡ some key_text
  pub opens : a.output_opens ≡ true
  pub writes_bytecode : a.bytecode_written ≡ true
  pub writes_signature : a.signature_written ≡ true

module _ {P3 : Type 0} (ge_scalarmult_base : Str → P3) (ge_p3_tobytes : P3 → Str)
    (ed25519_sign : Str → Str → Str → Str) where
  compile_module_file-Works :
      (a : CompileAnswers) (version text bytecode key_text key : Str)
      → Works a text bytecode key_text
      → length version < 128
      → read_private_key key_text ≡ some key
      → compile_module_file ge_scalarmult_base ge_p3_tobytes ed25519_sign a true version
        ≡ compiled (
            with_version bytecode version
            ++ ed25519_sign
                (with_version bytecode version)
                (extract_public_key ge_scalarmult_base ge_p3_tobytes key)
                key)
  unfolding compile_module_file compile_text sign_module write_module
  compile_module_file-Works a version text bytecode key_text key w short r =
      ground (arith, w, short, r)

-- What `hex_encode` printed, if it did not fail.
hex_encode-texts :
    (prints : ℕ → Bool) (bytes out : Str)
    → is_neg (hex_encode prints bytes out).0 ≡ false
    → (hex_encode prints bytes out).1 ≡ out ++ digits_of bytes
unfolding hex_encode digits_of
hex_encode-texts prints [] out h = sym (append-nil out)
hex_encode-texts prints (b ∷ bytes) out h = ground (
  arith,
  h,
  hex_encode-texts prints bytes (out ++ (upper_digit (b / 16) ∷ upper_digit (b % 16) ∷ [])),
  append_assoc out (upper_digit (b / 16) ∷ upper_digit (b % 16) ∷ []) (digits_of bytes),
)

write_keys-texts :
    (ed25519_create_keypair : Str → Str × Str) (prints prints' : ℕ → Bool)
    (pubkey privkey pub_text priv_text : Str)
    → write_keys ed25519_create_keypair prints prints' pubkey privkey
      ≡ record { success = true; pubkey_file = some pub_text; privkey_file = some priv_text }
    → (pub_text ≡ digits_of pubkey) × (priv_text ≡ digits_of privkey)
unfolding write_keys
write_keys-texts ed25519_create_keypair prints prints' pubkey privkey pub_text priv_text h =
    ground (arith, h, hex_encode-texts prints pubkey [], hex_encode-texts prints' privkey [])

mmap_file-regular : (bytes : Str) → 0 < length bytes → mmap_file (regular bytes) ≡ (some bytes, 0)
unfolding mmap_file
mmap_file-regular [] h = absurd (omega (arith, h))
mmap_file-regular (c ∷ cs) h = refl

module _ {P3 : Type 0} (ge_scalarmult_base : Str → P3) (ge_p3_tobytes : P3 → Str)
    (ed25519_verify : Str → Str → Str → Bool) (ed25519_sign : Str → Str → Str → Str)
    (ed25519_create_keypair : Str → Str × Str)
    (correct : IsEd25519 ge_scalarmult_base ge_p3_tobytes ed25519_verify ed25519_sign
      ed25519_create_keypair) where
  -- A file with the version of the program, signed with the private key of a pair, is loaded under the
  -- digits of the public key.
  signed_is_loaded :
      (debug : Bool) (version bytecode pub_key key : Str)
      → length version < 128
      → IsText version
      → 0 < length bytecode
      → All (λ b. b < 256) pub_key
      → length pub_key ≡ 32
      → ed25519_verify
          (ed25519_sign (with_version bytecode version) pub_key key)
          (with_version bytecode version)
          pub_key
        ≡ true
      → check_signature ed25519_verify
          (with_version bytecode version
            ++ ed25519_sign (with_version bytecode version) pub_key key)
          (digits_of pub_key)
        ≡ loaded
            (with_version bytecode version
              ++ ed25519_sign (with_version bytecode version) pub_key key)
            (length bytecode)
  unfolding check_signature verify_bytecode
  signed_is_loaded debug version bytecode pub_key key short text nonempty bytes sized good =
      let message = with_version bytecode version in
      let signature = ed25519_sign message pub_key key in
      let sig_size = correct.signature_sized message pub_key key in
      let l = length-file bytecode version signature short sig_size in
      let decoded = hex_decode-digits_of pub_key 32 bytes (omega (arith, sized)) in
      ground (
        arith,
        decoded,
        sized,
        good,
        l,
        message_of bytecode version signature short sig_size,
        signature_of bytecode version signature short sig_size,
      )

  load_mapped-signed :
      (debug : Bool) (version bytecode pub_key key : Str)
      → length version < 128
      → IsText version
      → 0 < length bytecode
      → All (λ b. b < 256) pub_key
      → length pub_key ≡ 32
      → ed25519_verify
          (ed25519_sign (with_version bytecode version) pub_key key)
          (with_version bytecode version)
          pub_key
        ≡ true
      → load_mapped ed25519_verify debug version (digits_of pub_key) (
          with_version bytecode version ++ ed25519_sign (with_version bytecode version) pub_key key)
        ≡ loaded
            (with_version bytecode version
              ++ ed25519_sign (with_version bytecode version) pub_key key)
            (length bytecode)
  unfolding load_mapped version_differs
  load_mapped-signed debug version bytecode pub_key key short text nonempty bytes sized good =
      let signature = ed25519_sign (with_version bytecode version) pub_key key in
      let sig_size = correct.signature_sized (with_version bytecode version) pub_key key in
      ground (
        arith,
        length-file bytecode version signature short sig_size,
        version_of bytecode version signature short sig_size text,
        same_self version,
        nonempty,
        signed_is_loaded debug version bytecode pub_key key short text nonempty bytes sized good,
      )

  -- The two files of a new pair of keys, if both were written, have the digits of the keys.
  output_key_file-texts :
      (opens_priv opens_pub : Bool) (seed : Option Str) (prints prints' : ℕ → Bool)
      (pub_text priv_text : Str)
      → output_key_file ed25519_create_keypair opens_priv opens_pub seed prints prints'
        ≡ record { success = true; pubkey_file = some pub_text; privkey_file = some priv_text }
      → (s : Str) × (pub_text ≡ digits_of (ed25519_create_keypair s).0)
        × (priv_text ≡ digits_of (ed25519_create_keypair s).1)
  unfolding output_key_file
  output_key_file-texts opens_priv opens_pub seed prints prints' pub_text priv_text h =
      seeded opens_priv opens_pub seed h
    where
      seeded :
          (o o' : Bool) (q : Option Str)
          → output_key_file ed25519_create_keypair o o' q prints prints'
            ≡ record { success = true; pubkey_file = some pub_text; privkey_file = some priv_text }
          → (s : Str) × (pub_text ≡ digits_of (ed25519_create_keypair s).0)
            × (priv_text ≡ digits_of (ed25519_create_keypair s).1)
      seeded false o' q h = absurd (ground (arith, h))
      seeded true false q h = absurd (ground (arith, h))
      seeded true true none h = absurd (ground (arith, h))
      seeded true true (some s) h =
          let w =
            write_keys-texts ed25519_create_keypair prints prints' (ed25519_create_keypair s).0
              (ed25519_create_keypair s).1 pub_text priv_text h in
          (s, w.0, w.1)

  -- Keys, compiler and loader fit together: a module that is compiled with the private key file that
  -- `output_key_file` wrote is loaded, by a program of the same version, with the contents of the public
  -- key file in the environment, and its bytecode is what the compiler was given by the engine. The
  -- version string fits, the bytecode is not empty, nothing fails on the way, and ed25519 does what it
  -- documents for the keys that it makes.
  pub load_module_bytecode-compile_module_file :
      (debug : Bool) (opens_priv opens_pub : Bool) (seed : Option Str) (prints prints' : ℕ → Bool)
      (pub_text priv_text : Str) (a : CompileAnswers) (version text bytecode : Str)
      → output_key_file ed25519_create_keypair opens_priv opens_pub seed prints prints'
        ≡ record { success = true; pubkey_file = some pub_text; privkey_file = some priv_text }
      → Works a text bytecode priv_text
      → length version < 128
      → IsText version
      → 0 < length bytecode
      → (out : Str) × (compile_module_file ge_scalarmult_base ge_p3_tobytes ed25519_sign a true
            version
          ≡ compiled out)
        × (load_module_bytecode ed25519_verify debug version (some pub_text) (regular out)
            ≡ loaded out (length bytecode))
        × (take (length bytecode) out ≡ bytecode)
  unfolding load_module_bytecode
  load_module_bytecode-compile_module_file debug opens_priv opens_pub seed prints prints' pub_text
        priv_text a version text bytecode keys works short is_text nonempty =
      let (s, e, e') =
        output_key_file-texts opens_priv opens_pub seed prints prints' pub_text priv_text keys in
      let key = (ed25519_create_keypair s).1 in
      let pub_key = (ed25519_create_keypair s).0 in
      let extracted : extract_public_key ge_scalarmult_base ge_p3_tobytes key ≡ pub_key =
        unfold extract_public_key in sym (correct.public_point s) in
      let message = with_version bytecode version in
      let signature = ed25519_sign message pub_key key in
      let read : read_private_key priv_text ≡ some key =
        ap read_private_key e'
        ∙ read_private_key-digits_of key (correct.private_bytes s) (correct.private_sized s) in
      let sig_size = correct.signature_sized message pub_key key in
      let long : 0 < length (message ++ signature) =
        omega (arith, length-file bytecode version signature short sig_size) in
      (
        message ++ signature,
        compile_module_file-Works ge_scalarmult_base ge_p3_tobytes ed25519_sign a version text
              bytecode priv_text key works short read
            ∙ ap (λ p. compiled (message ++ ed25519_sign message p key)) extracted,
        rw (mmap_file-regular (message ++ signature) long, load_module_bytecode)
            (ap (λ t. load_mapped ed25519_verify debug version t (message ++ signature)) e
              ∙ load_mapped-signed debug version bytecode pub_key key short is_text nonempty
                  (correct.public_bytes s) (correct.public_sized s) (correct.verifies message s)),
        bytecode_prefix bytecode version signature short sig_size,
      )
