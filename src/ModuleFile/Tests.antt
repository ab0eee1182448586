-- ===== src/ModuleFile/Tests.antt =====
-- Runs on module files, and the theorems at a concrete one: its signature is 64 bytes 7, and every key
-- is made of ones.
use jsockd.Prelude.{ℕ, ◌≡◌, ◌≢◌, refl, [], ◌++◌, Bool, true, false, some, take, replicate, arith}
use jsockd.CmdArgs.CString.{Str, lit, same}
use jsockd.Hex.{hex_digit, hex_digit_or_zero, hex_decode, hex_encode}
use jsockd.ModuleFile.{
  regular, mmap_file, wrong_version, loaded, refused, version_string, version_differs, magic_key,
  verify_bytecode, check_signature, load_mapped, load_module_bytecode,
}
use jsockd.ModuleFile.Compile.{
  CompileAnswers, compiled, with_version, compile_module_file, write_keys, output_key_file,
}
use jsockd.ModuleFile.Accept.{
  IsSigned, Refuses, load_module_bytecode-IsSigned, load_module_bytecode-magic_key,
  load_mapped-Refuses,
}
use jsockd.ModuleFile.RoundTrip.{IsEd25519, load_module_bytecode-compile_module_file}

abbrev sevens : Str
sevens = replicate 64 7

abbrev verify : Str → Str → Str → Bool
verify signature message key = same signature sevens

abbrev sign : Str → Str → Str → Str
sign message public_key private_key = sevens

-- Points are the bytes of their scalars.
abbrev scalarmult_base : Str → Str
scalarmult_base scalar = scalar

abbrev tobytes : Str → Str
tobytes point = point

abbrev keypair : Str → Str × Str
keypair seed = (replicate 32 1, replicate 64 1)

abbrev version : Str
version = lit "1.2"

abbrev module_file : Str
module_file = with_version (lit "code") version ++ sevens

-- Digits that are no digits count as zeros, so that any long enough text is a key.
junk_key : (hex_decode 32 (replicate 64 b'z')) ≡ (32, replicate 32 0)
unfolding hex_decode hex_digit_or_zero hex_digit
junk_key = refl

load_run :
    load_module_bytecode verify false version (some (replicate 64 b'0')) (regular module_file)
    ≡ loaded module_file 4
unfolding load_module_bytecode load_mapped check_signature verify_bytecode version_differs
    version_string with_version mmap_file hex_decode same
load_run = refl

load_module_bytecode-IsSigned_example :
    ((mmap_file (regular module_file)).0 ≡ some module_file)
    × IsSigned verify version (replicate 64 b'0') module_file 4
load_module_bytecode-IsSigned_example =
    load_module_bytecode-IsSigned verify version (some (replicate 64 b'0')) (regular module_file)
      module_file 4 load_run

load_module_bytecode-magic_key_example :
    load_module_bytecode verify false version (some magic_key) (regular module_file)
    ≢ loaded module_file 4
load_module_bytecode-magic_key_example =
    load_module_bytecode-magic_key verify version (regular module_file) module_file 4

old_run :
    load_mapped verify false (lit "1.3") (replicate 64 b'0') module_file
    ≡ refused (wrong_version version)
unfolding load_mapped version_differs version_string with_version same
old_run = refl

load_mapped-Refuses_example :
    Refuses verify (lit "1.3") (replicate 64 b'0') module_file (wrong_version version)
load_mapped-Refuses_example =
    load_mapped-Refuses verify (lit "1.3") (replicate 64 b'0') module_file (wrong_version version)
      old_run

keypair-IsEd25519 : IsEd25519 scalarmult_base tobytes verify sign keypair
unfolding same
keypair-IsEd25519 = record {
  signature_sized = λ m p k. refl;
  verifies = λ m seed. refl;
  public_point = λ seed. refl;
  public_sized = λ seed. refl;
  private_sized = λ seed. refl;
  public_bytes = λ seed. ground arith;
  private_bytes = λ seed. ground arith;
}

-- The digits of `n` bytes 1.
abbrev ones : ℕ → Str
ones n = (hex_encode (λ _. true) (replicate n 1) []).1

abbrev answers : CompileAnswers
answers = record {
  has_runtime = true;
  has_context = true;
  module_file = some (lit "export {}");
  js_eval = λ text. some (lit "code");
  key_file = some (ones 64);
  output_opens = true;
  bytecode_written = true;
  signature_written = true;
}

keys_run :
    output_key_file keypair true true (some []) (λ _. true) (λ _. true)
    ≡ record { success = true; pubkey_file = some (ones 32); privkey_file = some (ones 64) }
unfolding output_key_file write_keys hex_encode
keys_run = refl

load_module_bytecode-compile_module_file_example :
    (out : Str) × (compile_module_file scalarmult_base tobytes sign answers true version
      ≡ compiled out)
    × (load_module_bytecode verify false version (some (ones 32)) (regular out) ≡ loaded out 4)
    × (take 4 out ≡ lit "code")
load_module_bytecode-compile_module_file_example =
    load_module_bytecode-compile_module_file scalarmult_base tobytes verify sign keypair
      keypair-IsEd25519 false true true (some []) (λ _. true) (λ _. true) (ones 32) (ones 64)
      answers version (lit "export {}") (lit "code") keys_run
      (record {
        runtime = refl;
        context = refl;
        found = refl;
        compiles = refl;
        key = refl;
        opens = refl;
        writes_bytecode = refl;
        writes_signature = refl;
      })
      (omega arith) (omega arith, (omega arith, (omega arith, tt))) (omega arith)
