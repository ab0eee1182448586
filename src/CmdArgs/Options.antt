-- ===== src/CmdArgs/Options.antt =====
-- The options of the loop of `parse_cmd_args_helper` (jsockd_server/src/cmdargs.c), one function for
-- each branch. Each takes the arguments behind its option, and returns those that it leaves.
use jsockd.Prelude.{
  ℕ, ◌+◌, List, [], ◌∷◌, ◌++◌, Bool, true, false, not, ◌&&◌, ◌||◌, ◌==◌, ltb, if◌then◌else◌, Option,
  some, none,
}
use jsockd.Prelude.Int.{ℤ, is_neg, is_pos, pos_part}
use jsockd.Hex.{hex_digit, hex_decode}
use jsockd.CmdArgs.CString.{Str, lit, same, starts_with_dash, is_some}

-- `CompileOpts`
pub data CompileOpts : Type 0 where
  strip_none strip_source strip_debug : CompileOpts

abbrev pub is_strip_none : CompileOpts → Bool
is_strip_none strip_none = true
is_strip_none strip_source = false
is_strip_none strip_debug = false

-- `eval_input`: the sentinel for the standard input, or an argument.
pub data EvalInput : Type 0 where
  from_stdin : EvalInput
  given : Str → EvalInput

-- `CmdArgs`; `socket_path` has the entries that are set.
pub record CmdArgs : Type 0 where
  pub es6_module_bytecode_file : Option Str
  pub socket_path : List Str
  pub source_map_file : Option Str
  pub n_sockets : ℕ
  pub socket_sep_char : ℕ
  pub socket_sep_char_set : Bool
  pub version : Bool
  pub max_command_runtime_us : ℕ
  pub max_idle_time_us : ℕ
  pub max_idle_time_set : Bool
  pub key_file_prefix : Option Str
  pub private_key_file : Option Str
  pub mod_to_compile : Option Str
  pub mod_output_file : Option Str
  pub compile_opts : CompileOpts
  pub eval : Bool
  pub eval_input : Option EvalInput

-- `memset`, and the default separator.
abbrev pub no_args : CmdArgs
no_args = record {
  es6_module_bytecode_file = none;
  socket_path = [];
  source_map_file = none;
  n_sockets = 0;
  socket_sep_char = b'\n';
  socket_sep_char_set = false;
  version = false;
  max_command_runtime_us = 0;
  max_idle_time_us = 0;
  max_idle_time_set = false;
  key_file_prefix = none;
  private_key_file = none;
  mod_to_compile = none;
  mod_output_file = none;
  compile_opts = strip_none;
  eval = false;
  eval_input = none;
}

-- The messages of `errlog`: of an option, that lacks its argument, that is repeated, or whose argument
-- is not valid; and of a combination of options.
pub data ArgError : Type 0 where
  requires_argument at_most_once bad_argument unrecognized_option unknown_argument : Str → ArgError
  version_alone eval_flags key_alone private_key_needs_compile strip_needs_compile : ArgError
  compile_flags no_sockets source_map_needs_module no_program_name : ArgError

pub data Parse {ℓ} (A : Type ℓ) : Type ℓ where
  parsed : A → Parse A
  refused : ArgError → Parse A
  stuck : Parse A

-- `MAX_THREADS`
abbrev pub max_threads : ℕ
max_threads = 256

-- `strtoll(s, &endptr, 10)`: the value, whether `errno` is set, and the text from `endptr` on.
abbrev pub Strtoll : Type 0
Strtoll = Str → ℤ × Bool × Str

abbrev pub Taken : Type 0
Taken = Parse (CmdArgs × List Str)

unfoldable pub option_m : CmdArgs → List Str → Taken
option_m c [] = refused (requires_argument (lit "-m"))
option_m c (a ∷ args) =
    if is_some c.es6_module_bytecode_file
    then refused (at_most_once (lit "-m"))
    else parsed (record c { es6_module_bytecode_file = some a }, args)

abbrev pub is_end : Str → Bool
is_end [] = true
is_end (c ∷ cs) = false

unfoldable pub option_t : Strtoll → CmdArgs → List Str → Taken
option_t strtoll c [] = refused (requires_argument (lit "-t"))
option_t strtoll c (a ∷ args) =
    if not (c.max_command_runtime_us == 0)
    then refused (at_most_once (lit "-t"))
    else (let (v, errno, endptr) = strtoll a in
        if errno || (not (is_end endptr) || not (is_pos v))
        then refused (bad_argument (lit "-t"))
        else parsed (record c { max_command_runtime_us = pos_part v }, args))

unfoldable pub option_i : Strtoll → CmdArgs → List Str → Taken
option_i strtoll c [] = refused (requires_argument (lit "-i"))
option_i strtoll c (a ∷ args) =
    if c.max_idle_time_set
    then refused (at_most_once (lit "-i"))
    else (let (v, errno, endptr) = strtoll a in
        if errno || (not (is_end endptr) || is_neg v)
        then refused (bad_argument (lit "-i"))
        else parsed (record c { max_idle_time_us = pos_part v; max_idle_time_set = true }, args))

unfoldable pub add_socket : CmdArgs → Str → CmdArgs
add_socket c a =
    if ltb c.n_sockets max_threads
    then record c { socket_path = c.socket_path ++ (a ∷ []); n_sockets = c.n_sockets + 1 }
    else c

-- The inner loop of -s, with `after_double_dash` and `n_sockets_added`.
unfoldable pub sockets_loop : Bool → ℕ → CmdArgs → List Str → ℕ × CmdArgs × List Str
sockets_loop dd n c [] = (n, c, [])
sockets_loop dd n c (a ∷ args) =
    let after = sockets_loop true n c args in
    let more = sockets_loop dd (n + 1) (add_socket c a) args in
    if same a (lit "--")
    then after
    else (if not dd && starts_with_dash a then (n, c, a ∷ args) else more)

unfoldable pub option_s : CmdArgs → List Str → Taken
option_s c args =
    let (n, c', rest) = sockets_loop false 0 c args in
    if n == 0 then refused (requires_argument (lit "-s")) else parsed (c', rest)

unfoldable pub option_sm : CmdArgs → List Str → Taken
option_sm c [] = refused (requires_argument (lit "-sm"))
option_sm c (a ∷ args) =
    if is_some c.source_map_file
    then refused (at_most_once (lit "-sm"))
    else parsed (record c { source_map_file = some a }, args)

-- `hex_decode` into the one byte of `socket_sep_char`, which keeps its value if nothing is written.
abbrev pub head_or : List ℕ → ℕ → ℕ
head_or [] d = d
head_or (x ∷ xs) d = x

abbrev pub two_hex_digits : Str → Bool
two_hex_digits (a ∷ b ∷ []) = not (is_neg (hex_digit a) || is_neg (hex_digit b))
two_hex_digits s = false

unfoldable pub option_b : CmdArgs → List Str → Taken
option_b c args = if c.socket_sep_char_set then refused (at_most_once (lit "-b")) else elim args [
  | [] ↦ refused (requires_argument (lit "-b"))
  | a ∷ rest ↦
      (if two_hex_digits a
        then parsed (
          record c {
            socket_sep_char = head_or (hex_decode 1 a).1 c.socket_sep_char;
            socket_sep_char_set = true;
          },
          rest,
        )
        else refused (bad_argument (lit "-b")))
]

unfoldable pub option_k : CmdArgs → List Str → Taken
option_k c args =
    if is_some c.key_file_prefix then refused (at_most_once (lit "-k")) else elim args [
      | [] ↦ refused (requires_argument (lit "-k"))
      | a ∷ rest ↦ parsed (record c { key_file_prefix = some a }, rest)
    ]

unfoldable pub option_pk : CmdArgs → List Str → Taken
option_pk c args =
    if is_some c.private_key_file then refused (at_most_once (lit "-pk")) else elim args [
      | [] ↦ refused (requires_argument (lit "-pk"))
      | a ∷ rest ↦ parsed (record c { private_key_file = some a }, rest)
    ]

unfoldable pub option_c : CmdArgs → List Str → Taken
option_c c args =
    if is_some c.mod_to_compile then refused (at_most_once (lit "-c")) else elim args [
      | a ∷ b ∷ rest ↦ parsed (record c { mod_to_compile = some a; mod_output_file = some b }, rest)
      | _ ↦ refused (requires_argument (lit "-c"))
    ]

unfoldable pub option_strip : CompileOpts → CmdArgs → List Str → Taken
option_strip o c args =
    if not (is_strip_none c.compile_opts)
    then refused (at_most_once (lit "-ss"))
    else parsed (record c { compile_opts = o }, args)

unfoldable pub option_e : CmdArgs → List Str → Taken
option_e c args = if c.eval then refused (at_most_once (lit "-e")) else elim args [
  | [] ↦ refused (requires_argument (lit "-e"))
  | a ∷ rest ↦ parsed (
    record c { eval = true; eval_input = some (if same a (lit "-") then from_stdin else given a) },
    rest,
  )
]

-- One round of the loop: the argument `a`, and those behind it.
unfoldable pub parse_option : Strtoll → Str → CmdArgs → List Str → Taken
parse_option strtoll a c args =
    if same a (lit "-v")
    then parsed (record c { version = true }, args)
    else (if same a (lit "-m")
        then option_m c args
        else (if same a (lit "-t")
            then option_t strtoll c args
            else (if same a (lit "-i")
                then option_i strtoll c args
                else (if same a (lit "-s")
                    then option_s c args
                    else (if same a (lit "-sm")
                        then option_sm c args
                        else (if same a (lit "-b")
                            then option_b c args
                            else (if same a (lit "-k")
                                then option_k c args
                                else (if same a (lit "-pk")
                                    then option_pk c args
                                    else (if same a (lit "-c")
                                        then option_c c args
                                        else (if same a (lit "-ss")
                                            then option_strip strip_source c args
                                            else (if same a (lit "-sd")
                                                then option_strip strip_debug c args
                                                else (if same a (lit "-e")
                                                    then option_e c args
                                                    else (if starts_with_dash a
                                                        then refused (unrecognized_option a)
                                                        else refused
                                                            (unknown_argument a))))))))))))))
