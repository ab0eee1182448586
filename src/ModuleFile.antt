-- ===== src/ModuleFile.antt =====
-- Files of compiled modules: `load_module_bytecode` of jsockd_server/src/main.c, with
-- jsockd_server/src/mmap_file.c and jsockd_server/src/verify_bytecode.c. ed25519 is a parameter.
pub mod Compile
mod Layout
mod Accept
mod RoundTrip
mod Tests
use jsockd.Prelude.{
  ℕ, ◌+◌, ◌-◌, List, [], ◌∷◌, map, Bool, true, false, not, ◌&&◌, ◌||◌, ◌==◌, ltb, if◌then◌else◌,
  Option, some, none, length, take, drop,
}
use jsockd.CmdArgs.CString.{Str, lit, same, c_str}
use jsockd.Hex.{hex_decode}

-- `ED25519_SIGNATURE_SIZE`, `ED25519_PUBLIC_KEY_SIZE`, `ED25519_PRIVATE_KEY_SIZE` and
-- `VERSION_STRING_SIZE`
abbrev pub signature_size : ℕ
signature_size = 64

abbrev pub public_key_size : ℕ
public_key_size = 32

abbrev pub private_key_size : ℕ
private_key_size = 64

abbrev pub version_string_size : ℕ
version_string_size = 128

-- What the system answers about a file: it cannot be opened or looked at (with `errno`), it is not a
-- regular file, or it is one with these bytes, which can be mapped or not.
pub data File : Type 0 where
  closed unseen : ℕ → File
  irregular : File
  regular : Str → File
  unmapped : ℕ → Str → File

-- `EINVAL`
abbrev pub einval : ℕ
einval = 22

-- `mmap_file`: the bytes, none if it returns NULL, and `*out_errno`. No size is past `SIZE_MAX`.
unfoldable pub mmap_file : File → Option Str × ℕ
mmap_file (closed errno) = (none, errno)
mmap_file (unseen errno) = (none, errno)
mmap_file irregular = (none, einval)
mmap_file (regular []) = (none, einval)
mmap_file (regular (c ∷ cs)) = (some (c ∷ cs), 0)
mmap_file (unmapped errno []) = (none, einval)
mmap_file (unmapped errno (c ∷ cs)) = (none, errno)

-- The reasons to refuse a file, one for each message.
pub data LoadError : Type 0 where
  cannot_map : ℕ → LoadError
  too_small : ℕ → LoadError
  wrong_version : Str → LoadError
  bad_public_key : ℕ → LoadError
  bad_signature : LoadError

-- The result of `load_module_bytecode`: the mapped bytes and `*out_size`, or NULL.
pub data Loaded : Type 0 where
  loaded : Str → ℕ → Loaded
  refused : LoadError → Loaded

-- The version string of a file, as the C string in the array of that size, which is terminated.
unfoldable pub version_string : Str → Str
version_string file = c_str (
    take (version_string_size - 1) (drop (length file - signature_size - version_string_size) file))

-- A byte of the version string in the message. A `char` of 128 or more is negative, or past 126.
abbrev pub printable : ℕ → ℕ
printable c = if ltb c 32 || ltb 126 c then b'?' else c

-- `MAGIC_KEY_TO_ALLOW_INVALID_SIGNATURES`
abbrev pub magic_key : Str
magic_key = lit "dangerously_allow_invalid_signatures"

abbrev pub unknown_version : Str
unknown_version = lit "unknown_version"

-- `getenv`, and the default.
abbrev pub or_empty : Option Str → Str
or_empty none = []
or_empty (some text) = text

-- The condition under which `load_module_bytecode` refuses a version: the file's, and that of the
-- program. `debug` is `CMAKE_BUILD_TYPE_IS_DEBUG`.
unfoldable pub version_differs : Bool → Str → Str → Str → Bool
version_differs debug found version pubkey =
    not (same found version)
    && (not (same found unknown_version && (same version unknown_version && debug))
        && not (same pubkey magic_key && debug))

module _ (ed25519_verify : Str → Str → Str → Bool) where
  -- `verify_bytecode`; `ed25519_verify signature message public_key`.
  unfoldable pub verify_bytecode : Str → Str → Bool
  verify_bytecode bytecode public_key =
      if ltb (length bytecode) (signature_size + 1)
      then false
      else ed25519_verify (drop (length bytecode - signature_size) bytecode)
          (take (length bytecode - signature_size) bytecode) public_key

  -- The end of `load_module_bytecode`: the key and the signature.
  unfoldable pub check_signature : Str → Str → Loaded
  check_signature file pubkey =
      let (decoded_size, pubkey_bytes) = hex_decode public_key_size pubkey in
      if not (decoded_size == public_key_size)
      then refused (bad_public_key decoded_size)
      else (if not (verify_bytecode file pubkey_bytes)
          then refused bad_signature
          else loaded file (length file - version_string_size - signature_size))

  -- `load_module_bytecode` behind the mapping of the file.
  unfoldable pub load_mapped : Bool → Str → Str → Str → Loaded
  load_mapped debug version pubkey file =
      if ltb (length file) (version_string_size + signature_size + 1)
      then refused (too_small (length file))
      else (if version_differs debug (version_string file) version pubkey
          then refused (wrong_version (map printable (version_string file)))
          else (if debug && same pubkey magic_key
              then loaded file (length file - version_string_size - signature_size)
              else check_signature file pubkey))

  -- `load_module_bytecode`, with the version of the program, and the variable of the environment.
  unfoldable pub load_module_bytecode : Bool → Str → Option Str → File → Loaded
  load_module_bytecode debug version pubkey f =
      let (file, errno) = mmap_file f in
      elim file [
        | none ↦ refused (cannot_map errno)
        | some bytes ↦ load_mapped debug version (or_empty pubkey) bytes
      ]
