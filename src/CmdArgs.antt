-- ===== src/CmdArgs.antt =====
-- The command line of jsockd_server/src/cmdargs.c. An argument is the list of its bytes, and a null
-- pointer is `none`. Each call of `errlog` is a value of `ArgError`. `strtoll` of the C library is a
-- parameter.
pub mod CString
pub mod Options
mod Loop
mod Modes
mod Strip
mod Tests
use jsockd.Prelude.{
  ℕ, zero, suc, ◌+◌, ◌-◌, List, [], ◌∷◌, Bool, true, false, not, ◌&&◌, ◌||◌, ◌==◌, ltb,
  if◌then◌else◌, Option, some, none, length,
}
use jsockd.CmdArgs.CString.{Str, is_some, flag}
use jsockd.CmdArgs.Options.{
  CmdArgs, CompileOpts, strip_none, is_strip_none, ArgError, version_alone, eval_flags, key_alone,
  private_key_needs_compile, strip_needs_compile, compile_flags, no_sockets,
  source_map_needs_module, no_program_name, Parse, parsed, refused, stuck, Strtoll, parse_option,
  no_args,
}

abbrev pub default_max_command_runtime_us : ℕ
default_max_command_runtime_us = 250000

-- `n_flags_set`
unfoldable pub n_flags_set : CmdArgs → ℕ
n_flags_set c =
    flag (is_some c.es6_module_bytecode_file)
    + flag (is_some c.source_map_file)
    + flag (not (c.n_sockets == 0))
    + flag c.socket_sep_char_set
    + flag c.version
    + flag (not (c.max_command_runtime_us == 0))
    + flag c.max_idle_time_set
    + flag (is_some c.key_file_prefix)
    + flag (is_some c.private_key_file)
    + flag (is_some c.mod_to_compile)
    + flag (not (is_strip_none c.compile_opts))
    + flag c.eval

-- The checks behind the loop, for a run of the server.
unfoldable pub check_server : CmdArgs → Parse CmdArgs
check_server c =
    if c.n_sockets == 0
    then refused no_sockets
    else (if is_some c.source_map_file && not (is_some c.es6_module_bytecode_file)
        then refused source_map_needs_module
        else parsed (
            if c.max_command_runtime_us == 0
            then record c { max_command_runtime_us = default_max_command_runtime_us }
            else c))

-- The checks of -k, -pk, -ss, -sd and -c, and the early return.
unfoldable pub check_compile : CmdArgs → Parse CmdArgs
check_compile c =
    if is_some c.key_file_prefix && not (n_flags_set c == 1)
    then refused key_alone
    else (if is_some c.private_key_file && not (n_flags_set c == 2 && is_some c.mod_to_compile)
        then refused private_key_needs_compile
        else (if not (is_strip_none c.compile_opts) && not (is_some c.mod_to_compile)
            then refused strip_needs_compile
            else (if is_some c.mod_to_compile
                  && ltb 1 (
                      n_flags_set c
                      - flag (is_some c.private_key_file)
                      - flag (not (is_strip_none c.compile_opts)))
                then refused compile_flags
                else (if c.version
                      || (is_some c.key_file_prefix || (is_some c.mod_to_compile || c.eval))
                    then parsed c
                    else check_server c))))

-- The checks of -v and -e.
unfoldable pub check_args : CmdArgs → Parse CmdArgs
check_args c =
    if c.version && ltb 1 (n_flags_set c)
    then refused version_alone
    else (if c.eval
          && (not (
                n_flags_set c
                == 1 + flag (is_some c.source_map_file) + flag (is_some c.es6_module_bytecode_file))
              || (is_some c.source_map_file && not (is_some c.es6_module_bytecode_file)))
        then refused eval_flags
        else check_compile c)

module _ (strtoll : Strtoll) where
  -- The loop over the arguments. An option takes one argument or more.
  unfoldable pub parse_loop : ℕ → CmdArgs → List Str → Parse CmdArgs
  parse_loop zero c args = stuck
  parse_loop (suc f) c [] = parsed c
  parse_loop (suc f) c (a ∷ args) = elim (parse_option strtoll a c args) [
    | parsed (c', args') ↦ parse_loop f c' args'
    | refused e ↦ refused e
    | stuck ↦ stuck
  ]

  -- `parse_cmd_args_helper`
  unfoldable pub parse_cmd_args_helper : List Str → Parse CmdArgs
  parse_cmd_args_helper [] = refused no_program_name
  parse_cmd_args_helper (name ∷ args) = elim (parse_loop (length args + 1) no_args args) [
    | parsed c ↦ check_args c
    | refused e ↦ refused e
    | stuck ↦ stuck
  ]
