-- ===== src/CmdArgs/Tests.antt =====
-- Runs of the command line parser, and its theorems at concrete command lines.
use jsockd.Prelude.{
  ℕ, ◌≡◌, ◌+◌, ◌*◌, ◌-◌, refl, List, [], ◌∷◌, Bool, true, false, ◌&&◌, leb, if◌then◌else◌, some,
}
use jsockd.Prelude.Int.{ℤ, pos}
use jsockd.CmdArgs.CString.{Str, lit, same}
use jsockd.CmdArgs.Options.{
  CmdArgs, no_args, is_strip_none, parsed, refused, private_key_needs_compile, Strtoll,
  parse_option, add_socket, sockets_loop, option_s, option_c, option_pk, option_strip,
}
use jsockd.CmdArgs.{
  default_max_command_runtime_us, n_flags_set, check_server, check_compile, check_args, parse_loop,
  parse_cmd_args_helper,
}
use jsockd.CmdArgs.Loop.{Settles, parse_cmd_args_helper-Settles}
use jsockd.CmdArgs.Modes.{Mode, parse_cmd_args_helper-Mode}
use jsockd.CmdArgs.Strip.{parse_cmd_args_helper-strip}

-- A decimal number without a sign, as far as `strtoll` reads one.
abbrev digits : ℕ → Str → ℤ × Bool × Str
digits v [] = (pos v, false, [])
digits v (c ∷ cs) =
    let more = digits (v * 10 + (c - b'0')) cs in
    if leb b'0' c && leb c b'9' then more else (pos v, false, c ∷ cs)

abbrev decimal : Strtoll
decimal = digits 0

abbrev serve_line : List Str
serve_line = lit "jsockd" ∷ lit "-s" ∷ lit "a" ∷ lit "--" ∷ lit "-b" ∷ []

abbrev serving : CmdArgs
serving = record no_args {
  socket_path = lit "a" ∷ lit "-b" ∷ [];
  n_sockets = 2;
  max_command_runtime_us = default_max_command_runtime_us;
}

-- Behind `--` an argument that begins with a dash is a socket.
serve_runs : parse_cmd_args_helper decimal serve_line ≡ parsed serving
unfolding parse_cmd_args_helper parse_loop parse_option same option_s sockets_loop add_socket
    check_args check_compile check_server n_flags_set
serve_runs = refl

abbrev compile_line : List Str
compile_line = lit "jsockd" ∷ lit "-c" ∷ lit "m" ∷ lit "o" ∷ lit "-pk" ∷ lit "k" ∷ []

abbrev compiling : CmdArgs
compiling = record no_args {
  mod_to_compile = some (lit "m");
  mod_output_file = some (lit "o");
  private_key_file = some (lit "k");
}

compile_runs : parse_cmd_args_helper decimal compile_line ≡ parsed compiling
unfolding parse_cmd_args_helper parse_loop parse_option same option_c option_pk check_args
    check_compile n_flags_set
compile_runs = refl

-- The same with -ss, as in the usage text.
strip_refused :
    parse_cmd_args_helper decimal
      (lit "jsockd" ∷ lit "-c" ∷ lit "m" ∷ lit "o" ∷ lit "-pk" ∷ lit "k" ∷ lit "-ss" ∷ [])
    ≡ refused private_key_needs_compile
unfolding parse_cmd_args_helper parse_loop parse_option same option_c option_pk option_strip
    check_args check_compile n_flags_set
strip_refused = refl

parse_cmd_args_helper-Settles_example : Settles (parse_cmd_args_helper decimal serve_line)
parse_cmd_args_helper-Settles_example = parse_cmd_args_helper-Settles decimal serve_line

parse_cmd_args_helper-Mode_example : Mode serving
parse_cmd_args_helper-Mode_example =
    parse_cmd_args_helper-Mode decimal serve_line serving serve_runs

parse_cmd_args_helper-strip_example : is_strip_none compiling.compile_opts ≡ true
parse_cmd_args_helper-strip_example =
    parse_cmd_args_helper-strip decimal compile_line compiling compile_runs refl
