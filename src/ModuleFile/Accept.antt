-- ===== src/ModuleFile/Accept.antt =====
-- What `load_module_bytecode` (jsockd_server/src/main.c) accepts in a release build.
use jsockd.Prelude.{
  ℕ, ◌+◌, ◌-◌, ◌≤◌, ◌<◌, ◌≡◌, ◌≢◌, refl, sym, ap, subst, ◌∙◌, [], ◌∷◌, Bool, true, false, Option,
  some, none, length, take, drop, map, All, arith,
}
use jsockd.CmdArgs.CString.{Str, same-eq, same_self}
use jsockd.Hex.{hex_decode}
use jsockd.Hex.RoundTrip.{hex_decode_bounds}
use jsockd.ModuleFile.{
  File, mmap_file, LoadError, cannot_map, too_small, wrong_version, bad_public_key, bad_signature,
  Loaded, loaded, refused, version_string, version_differs, printable, or_empty, magic_key,
  verify_bytecode, check_signature, load_mapped, load_module_bytecode,
}

magic_size : (hex_decode 32 magic_key).0 ≡ 18
unfolding hex_decode
magic_size = refl

All-printable : (text : Str) → All (λ c. (32 ≤ c) × (c ≤ 126)) (map printable text)
All-printable [] = tt
All-printable (c ∷ cs) = (ground arith, All-printable cs)

module _ (ed25519_verify : Str → Str → Str → Bool) (version : Str) where
  -- A file whose signature was verified, under a key of the right length, and whose version is the
  -- program's; the bytecode is what is in front of the version string.
  pub record IsSigned (pubkey file : Str) (n : ℕ) : Type 0 where
    pub sized : n + 192 ≡ length file
    pub some_bytecode : 0 < n
    pub same_version : version_string file ≡ version
    pub whole_key : (hex_decode 32 pubkey).0 ≡ 32
    pub verified :
        ed25519_verify
          (drop (length file - 64) file)
          (take (length file - 64) file)
          (hex_decode 32 pubkey).1
        ≡ true

  load_mapped-IsSigned :
      (pubkey file file' : Str) (n : ℕ)
      → load_mapped ed25519_verify false version pubkey file ≡ loaded file' n
      → (file' ≡ file) × IsSigned pubkey file n
  unfolding load_mapped check_signature verify_bytecode version_differs
  load_mapped-IsSigned pubkey file file' n h =
      ground (arith, h, same-eq (version_string file) version)

  -- What a release build loads is signed: whenever `load_module_bytecode` returns bytecode, the mapped
  -- file is as long as it should be, the key has its 32 bytes, the signature at the end of the file is
  -- that of all the bytes in front of it under this key, and the version string is the program's.
  pub load_module_bytecode-IsSigned :
      (pubkey : Option Str) (f : File) (file : Str) (n : ℕ)
      → load_module_bytecode ed25519_verify false version pubkey f ≡ loaded file n
      → ((mmap_file f).0 ≡ some file) × IsSigned (or_empty pubkey) file n
  unfolding load_module_bytecode
  load_module_bytecode-IsSigned pubkey f file n h = mapped (mmap_file f).0 refl h
    where
      mapped :
          (o : Option Str)
          → (mmap_file f).0 ≡ o
          → ◌≡◌ {A = Loaded}
              (elim o [
                | none ↦ refused (cannot_map (mmap_file f).1)
                | some bytes ↦ load_mapped ed25519_verify false version (or_empty pubkey) bytes
              ])
              (loaded file n)
          → ((mmap_file f).0 ≡ some file) × IsSigned (or_empty pubkey) file n
      mapped none e h = cc
      mapped (some bytes) e h =
          let p = load_mapped-IsSigned (or_empty pubkey) bytes file n h in
          (e ∙ ap some (sym p.0), subst (λ b. IsSigned (or_empty pubkey) b n) (sym p.0) p.1)

  -- The key that turns the checks off in a debug build loads nothing in a release build.
  pub load_module_bytecode-magic_key :
      (f : File) (file : Str) (n : ℕ)
      → load_module_bytecode ed25519_verify false version (some magic_key) f ≢ loaded file n
  load_module_bytecode-magic_key f file n h =
      let p = load_module_bytecode-IsSigned (some magic_key) f file n h in
      absurd (omega (arith, magic_size, p.1.whole_key))

-- Why a mapped file is refused: what the file and the key lack, and what the message names.
abbrev pub Refuses : (Str → Str → Str → Bool) → Str → Str → Str → LoadError → Type 0
Refuses ed25519_verify version pubkey file (cannot_map errno) = ⊥
Refuses ed25519_verify version pubkey file (too_small n) = (n ≡ length file) × (length file < 193)
Refuses ed25519_verify version pubkey file (wrong_version text) =
    (version_string file ≢ version) × All (λ c. (32 ≤ c) × (c ≤ 126)) text
Refuses ed25519_verify version pubkey file (bad_public_key n) =
    (n ≡ (hex_decode 32 pubkey).0) × (n < 32)
Refuses ed25519_verify version pubkey file bad_signature =
    ed25519_verify (drop (length file - 64) file) (take (length file - 64) file)
      (hex_decode 32 pubkey).1
    ≡ false

-- A release build names the right reason for refusing a mapped file: it is too small, or its version
-- string is not the program's, and is named with printable characters only, or the key has less than
-- 32 bytes, or the signature is not verified.
pub load_mapped-Refuses :
    (ed25519_verify : Str → Str → Str → Bool) (version pubkey file : Str) (e : LoadError)
    → load_mapped ed25519_verify false version pubkey file ≡ refused e
    → Refuses ed25519_verify version pubkey file e
unfolding load_mapped check_signature verify_bytecode version_differs
load_mapped-Refuses ed25519_verify version pubkey file (cannot_map errno) h = ground (arith, h)
load_mapped-Refuses ed25519_verify version pubkey file (too_small n) h = ground (arith, h)
load_mapped-Refuses ed25519_verify version pubkey file (wrong_version text) h = (
  λ e. ground (arith, h, same_self version, e),
  subst (λ t. All (λ c. (32 ≤ c) × (c ≤ 126)) t) (text_of h) (All-printable (version_string file)),
)
  where
    text_of :
        load_mapped ed25519_verify false version pubkey file ≡ refused (wrong_version text)
        → map printable (version_string file) ≡ text
    text_of h = ground (arith, h)
load_mapped-Refuses ed25519_verify version pubkey file (bad_public_key n) h =
    ground (arith, h, hex_decode_bounds 32 pubkey)
load_mapped-Refuses ed25519_verify version pubkey file bad_signature h =
    ground (arith, h, hex_decode_bounds 32 pubkey)
