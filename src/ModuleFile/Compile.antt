-- ===== src/ModuleFile/Compile.antt =====
-- jsockd_server/src/modcompiler.c: the compilation of a module to a file, and the files of a new pair
-- of keys.
use jsockd.Prelude.{
  ℕ, ◌+◌, ◌-◌, [], ◌++◌, Bool, true, false, not, leb, ltb, if◌then◌else◌, Option, some, none,
  length, take, replicate,
}
use jsockd.Prelude.Int.{is_neg}
use jsockd.CmdArgs.CString.{Str, lit, c_str}
use jsockd.Hex.{hex_decode, hex_encode}
use jsockd.ModuleFile.{signature_size, private_key_size, version_string_size}

-- The failures of `compile_module_file`, one for each message.
pub data CompileError : Type 0 where
  version_too_long no_runtime no_context no_module not_compiled no_key_file short_key_file :
      CompileError
  no_output bytecode_not_written signature_not_written : CompileError

-- EXIT_SUCCESS with the bytes of the output file, or EXIT_FAILURE.
pub data Compiled : Type 0 where
  compiled : Str → Compiled
  failed : CompileError → Compiled

-- What the engine and the system answer. `js_eval` compiles the text of the module to bytecode, and
-- `key_file` is the contents of the file of the private key.
pub record CompileAnswers : Type 0 where
  pub has_runtime : Bool
  pub has_context : Bool
  pub module_file : Option Str
  pub js_eval : Str → Option Str
  pub key_file : Option Str
  pub output_opens : Bool
  pub bytecode_written : Bool
  pub signature_written : Bool

-- An array that begins with the bytes, and is zero behind them.
abbrev pub zero_padded : ℕ → Str → Str
zero_padded n bytes = bytes ++ replicate (n - length bytes) 0

-- The bytecode with the version string behind it.
unfoldable pub with_version : Str → Str → Str
with_version bytecode version = bytecode ++ zero_padded version_string_size version

-- The private key of a key file, whose first bytes are read into an array.
unfoldable pub read_private_key : Str → Option Str
read_private_key text =
    if ltb (length text) (private_key_size + private_key_size)
    then none
    else some (
        zero_padded private_key_size
          (hex_decode private_key_size (c_str (take (private_key_size + private_key_size) text))).1)

module _ {P3 : Type 0} (ge_scalarmult_base : Str → P3) (ge_p3_tobytes : P3 → Str) where
  -- `extract_public_key`. Its scalar is the first 32 bytes of the private key, for which
  -- `ge_scalarmult_base` reads an array of 32 bytes.
  unfoldable pub extract_public_key : Str → Str
  extract_public_key private_key = ge_p3_tobytes (ge_scalarmult_base (take 32 private_key))

module _ {P3 : Type 0} (ge_scalarmult_base : Str → P3) (ge_p3_tobytes : P3 → Str)
    (ed25519_sign : Str → Str → Str → Str) where
  -- The end of `compile_module_file`, with the signature.
  unfoldable pub write_module : CompileAnswers → Str → Str → Compiled
  write_module a out signature =
      if not a.output_opens
      then failed no_output
      else (if not a.bytecode_written
          then failed bytecode_not_written
          else (if not a.signature_written
              then failed signature_not_written
              else compiled (out ++ signature)))

  -- The key, the signature and the rest of `compile_module_file`; `signed` says whether a key file is
  -- given. `ed25519_sign message public_key private_key`.
  unfoldable pub sign_module : CompileAnswers → Bool → Str → Compiled
  sign_module a false out = write_module a out (replicate signature_size 0)
  sign_module a true out = elim a.key_file [
    | none ↦ failed no_key_file
    | some text ↦ (elim (read_private_key text) [
      | none ↦ failed short_key_file
      | some key ↦
          write_module a out
            (ed25519_sign out (extract_public_key ge_scalarmult_base ge_p3_tobytes key) key)
    ])
  ]

  -- The text of the module, and the rest of `compile_module_file`.
  unfoldable pub compile_text : CompileAnswers → Bool → Str → Compiled
  compile_text a signed version = elim a.module_file [
    | none ↦ failed no_module
    | some text ↦ (elim (a.js_eval text) [
      | none ↦ failed not_compiled
      | some bytecode ↦ sign_module a signed (with_version bytecode version)
    ])
  ]

  -- `compile_module_file`
  unfoldable pub compile_module_file : CompileAnswers → Bool → Str → Compiled
  compile_module_file a signed version =
      if leb version_string_size (length version)
      then failed version_too_long
      else (if not a.has_runtime
          then failed no_runtime
          else (if not a.has_context then failed no_context else compile_text a signed version))

-- `get_key_file_filenames`: the names for the public and for the private key.
unfoldable pub get_key_file_filenames : Str → Str × Str
get_key_file_filenames prefix = (prefix ++ lit ".pubkey", prefix ++ lit ".privkey")

-- The exit status of `output_key_file`, and what the two files have, if they were created.
pub record KeyFiles : Type 0 where
  pub success : Bool
  pub pubkey_file : Option Str
  pub privkey_file : Option Str

-- `fopen`, which creates an empty file.
abbrev pub created : Bool → Option Str
created true = some []
created false = none

module _ (ed25519_create_keypair : Str → Str × Str) where
  -- The end of `output_key_file`, with the keys. `prints` are the answers of `fprintf`, as those of
  -- `hex_encode`.
  unfoldable pub write_keys : (ℕ → Bool) → (ℕ → Bool) → Str → Str → KeyFiles
  write_keys prints prints' pubkey privkey =
      let (r, pub_text) = hex_encode prints pubkey [] in
      let (r', priv_text) = hex_encode prints' privkey [] in
      if is_neg r
      then record { success = false; pubkey_file = some pub_text; privkey_file = some [] }
      else record {
        success = not (is_neg r');
        pubkey_file = some pub_text;
        privkey_file = some priv_text;
      }

  -- `output_key_file`: whether each file can be created, the seed, and the answers of `fprintf`. The
  -- result of `ed25519_create_keypair` is the public and the private key.
  unfoldable pub output_key_file : Bool → Bool → Option Str → (ℕ → Bool) → (ℕ → Bool) → KeyFiles
  output_key_file opens_priv opens_pub seed prints prints' =
      let none_written : KeyFiles = record {
        success = false;
        pubkey_file = created opens_pub;
        privkey_file = created opens_priv;
      } in
      if not opens_priv
      then none_written
      else (if not opens_pub then none_written else (elim seed [
        | none ↦ none_written
        | some bytes ↦
            (let (pubkey, privkey) = ed25519_create_keypair bytes in
              write_keys prints prints' pubkey privkey)
      ]))
