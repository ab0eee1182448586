-- ===== src/CmdArgs/Strip.antt =====
-- -pk and -ss or -sd of the module compiler, in jsockd_server/src/cmdargs.c.
use jsockd.Prelude.{◌≡◌, List, true, inl, inr}
use jsockd.CmdArgs.CString.{Str, is_some}
use jsockd.CmdArgs.Options.{CmdArgs, is_strip_none, parsed, Strtoll}
use jsockd.CmdArgs.{parse_cmd_args_helper}
use jsockd.CmdArgs.Modes.{
  Mode, prints_version, evaluates, makes_keys, compiles, serves, parse_cmd_args_helper-Mode,
}

Mode-strip :
    (c : CmdArgs) → Mode c → is_some c.private_key_file ≡ true → is_strip_none c.compile_opts ≡ true
Mode-strip c (prints_version v e s t m) k = t.strip
Mode-strip c (evaluates v e s t m) k = t.strip
Mode-strip c (makes_keys v e s m p q r t) k = t
Mode-strip c (compiles v e s m p r (inl n)) k = cc
Mode-strip c (compiles v e s m p r (inr t)) k = t
Mode-strip c (serves v e t m n r) k = t.strip

-- No accepted command line has a private key and strips the source or the debug information, though
-- the usage text offers the two together.
pub parse_cmd_args_helper-strip :
    (strtoll : Strtoll) (argv : List Str) (c : CmdArgs)
    → parse_cmd_args_helper strtoll argv ≡ parsed c
    → is_some c.private_key_file ≡ true
    → is_strip_none c.compile_opts ≡ true
parse_cmd_args_helper-strip strtoll argv c e =
    Mode-strip c (parse_cmd_args_helper-Mode strtoll argv c e)
