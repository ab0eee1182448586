-- ===== src/CmdArgs/Modes.antt =====
-- The checks behind the loop of `parse_cmd_args_helper` (jsockd_server/src/cmdargs.c): what they accept
-- is one of five ways to run the program.
use jsockd.Prelude.{
  ◌+◌, ◌-◌, ◌≤◌, ◌<◌, ◌≡◌, refl, List, Bool, true, false, not, ◌&&◌, ◌||◌, ◌==◌, Bool-cases, inl,
  inr, ◌⊎◌, [], ◌∷◌, subst, length, arith,
}
use jsockd.CmdArgs.CString.{Str, is_some, flag}
use jsockd.CmdArgs.Options.{CmdArgs, is_strip_none, Parse, parsed, refused, stuck, Strtoll, no_args}
use jsockd.CmdArgs.{
  n_flags_set, check_args, check_compile, check_server, parse_loop, parse_cmd_args_helper,
}

-- The options of a server are not used.
pub record NoServer (c : CmdArgs) : Type 0 where
  pub sockets : c.n_sockets ≡ 0
  pub separator : c.socket_sep_char_set ≡ false
  pub runtime : c.max_command_runtime_us ≡ 0
  pub idle : c.max_idle_time_set ≡ false

-- Those of the module compiler and of the key generator are not used.
pub record NoTools (c : CmdArgs) : Type 0 where
  pub prefix : is_some c.key_file_prefix ≡ false
  pub private_key : is_some c.private_key_file ≡ false
  pub to_compile : is_some c.mod_to_compile ≡ false
  pub strip : is_strip_none c.compile_opts ≡ true

-- A source map comes with a module.
abbrev pub MapHasModule : CmdArgs → Type 0
MapHasModule c = is_some c.source_map_file ≡ true → is_some c.es6_module_bytecode_file ≡ true

abbrev pub NoModule : CmdArgs → Type 0
NoModule c = (is_some c.es6_module_bytecode_file ≡ false) × (is_some c.source_map_file ≡ false)

-- The ways to run the program, with the options that each allows.
pub data Mode (c : CmdArgs) : Type 0 where
  prints_version : c.version ≡ true → c.eval ≡ false → NoServer c → NoTools c → NoModule c → Mode c
  evaluates : c.version ≡ false → c.eval ≡ true → NoServer c → NoTools c → MapHasModule c → Mode c
  makes_keys :
      c.version ≡ false
      → c.eval ≡ false
      → NoServer c
      → NoModule c
      → is_some c.key_file_prefix ≡ true
      → is_some c.private_key_file ≡ false
      → is_some c.mod_to_compile ≡ false
      → is_strip_none c.compile_opts ≡ true
      → Mode c
  compiles :
      c.version ≡ false
      → c.eval ≡ false
      → NoServer c
      → NoModule c
      → is_some c.key_file_prefix ≡ false
      → is_some c.mod_to_compile ≡ true
      → (is_some c.private_key_file ≡ false) ⊎ (is_strip_none c.compile_opts ≡ true)
      → Mode c
  serves :
      c.version ≡ false
      → c.eval ≡ false
      → NoTools c
      → MapHasModule c
      → 0 < c.n_sockets
      → 0 < c.max_command_runtime_us
      → Mode c

flag-le : (b : Bool) → flag b ≤ 1
flag-le true = omega arith
flag-le false = omega arith

flag-zero : (b : Bool) → flag b ≡ 0 → b ≡ false
flag-zero true e = absurd (omega arith)
flag-zero false e = refl

-- Where nothing but the options `x` is counted, the others are not set.
module _ (c : CmdArgs) where
  unset_server :
      flag (not (c.n_sockets == 0))
          + flag c.socket_sep_char_set
          + flag (not (c.max_command_runtime_us == 0))
          + flag c.max_idle_time_set
        ≡ 0
      → NoServer c
  unset_server e = record {
    sockets = ground (arith, flag-zero (not (c.n_sockets == 0)) (omega arith));
    separator = flag-zero c.socket_sep_char_set (omega arith);
    runtime = ground (arith, flag-zero (not (c.max_command_runtime_us == 0)) (omega arith));
    idle = flag-zero c.max_idle_time_set (omega arith);
  }

  unset_tools :
      flag (is_some c.key_file_prefix)
          + flag (is_some c.private_key_file)
          + flag (is_some c.mod_to_compile)
          + flag (not (is_strip_none c.compile_opts))
        ≡ 0
      → NoTools c
  unset_tools e = record {
    prefix = flag-zero (is_some c.key_file_prefix) (omega arith);
    private_key = flag-zero (is_some c.private_key_file) (omega arith);
    to_compile = flag-zero (is_some c.mod_to_compile) (omega arith);
    strip = ground (arith, flag-zero (not (is_strip_none c.compile_opts)) (omega arith));
  }

  unset_module :
      flag (is_some c.es6_module_bytecode_file) + flag (is_some c.source_map_file) ≡ 0 → NoModule c
  unset_module e = (
    flag-zero (is_some c.es6_module_bytecode_file) (omega arith),
    flag-zero (is_some c.source_map_file) (omega arith),
  )

  -- -v alone.
  version_Mode : c.version ≡ true → n_flags_set c ≤ 1 → Mode c
  unfolding n_flags_set
  version_Mode v h =
      let one : flag c.version ≡ 1 = rw v in
      prints_version v (flag-zero c.eval (omega arith)) (unset_server (omega arith))
        (unset_tools (omega arith)) (unset_module (omega arith))

  -- -e with -m and -sm at most.
  eval_Mode :
      c.version ≡ false
      → c.eval ≡ true
      → n_flags_set c
        ≡ 1 + flag (is_some c.source_map_file) + flag (is_some c.es6_module_bytecode_file)
      → (is_some c.source_map_file && not (is_some c.es6_module_bytecode_file)) ≡ false
      → Mode c
  unfolding n_flags_set
  eval_Mode v e h m =
      let one : flag c.eval ≡ 1 = rw e in
      evaluates v e (unset_server (omega arith)) (unset_tools (omega arith)) (λ s. ground arith)

  keys_Mode :
      c.version ≡ false
      → c.eval ≡ false
      → is_some c.key_file_prefix ≡ true
      → n_flags_set c ≡ 1
      → Mode c
  unfolding n_flags_set
  keys_Mode v e k h =
      let one : flag (is_some c.key_file_prefix) ≡ 1 = rw k in
      makes_keys v e (unset_server (omega arith)) (unset_module (omega arith)) k
        (flag-zero (is_some c.private_key_file) (omega arith))
        (flag-zero (is_some c.mod_to_compile) (omega arith))
        (ground (arith, flag-zero (not (is_strip_none c.compile_opts)) (omega arith)))

  -- -c with -pk, or with -ss or -sd.
  compile_Mode :
      c.version ≡ false
      → c.eval ≡ false
      → is_some c.key_file_prefix ≡ false
      → is_some c.mod_to_compile ≡ true
      → (is_some c.private_key_file ≡ true → n_flags_set c ≡ 2)
      → n_flags_set c
          - flag (is_some c.private_key_file)
          - flag (not (is_strip_none c.compile_opts))
        ≤ 1
      → Mode c
  unfolding n_flags_set
  compile_Mode v e k m p h =
      let one : flag (is_some c.mod_to_compile) ≡ 1 = rw m in
      compiles v e (unset_server (omega arith)) (unset_module (omega arith)) k m
        (elim (Bool-cases (is_some c.private_key_file)) [
          | inr n ↦ inl n
          | inl s ↦
              let two : flag (is_some c.private_key_file) ≡ 1 = rw s in
              inr (
                ground (arith, flag-zero (not (is_strip_none c.compile_opts)) (omega (arith, p s))))
        ])

-- An early return leaves the settings as they are.
check_compile-early :
    (c c' : CmdArgs)
    → (c.version || (is_some c.key_file_prefix || (is_some c.mod_to_compile || c.eval))) ≡ true
    → check_compile c ≡ parsed c'
    → c ≡ c'
unfolding check_compile
check_compile-early c c' h e = ground arith

check_server-Mode :
    (c c' : CmdArgs)
    → c.version ≡ false
    → c.eval ≡ false
    → NoTools c
    → check_server c ≡ parsed c'
    → Mode c'
unfolding check_server
check_server-Mode c c' v e t p =
    serves (ground arith) (ground arith)
      (record {
        prefix = ground arith;
        private_key = ground arith;
        to_compile = ground arith;
        strip = ground arith;
      })
      (λ s. ground arith) (ground arith) (ground arith)

-- The checks of -k, -pk, -ss, -sd and -c, where neither -v nor -e is used.
check_compile-Mode :
    (c c' : CmdArgs) → c.version ≡ false → c.eval ≡ false → check_compile c ≡ parsed c' → Mode c'
check_compile-Mode c c' v e p = elim (Bool-cases (is_some c.key_file_prefix)) [
  | inl k ↦
      subst Mode (check_compile-early c c' (ground arith) p)
        (keys_Mode c v e k (unfold check_compile in ground arith))
  | inr k ↦ elim (Bool-cases (is_some c.mod_to_compile)) [
    | inl m ↦ subst Mode (check_compile-early c c' (ground arith) p) (
        compile_Mode c v e k m (λ s. unfold check_compile in ground arith)
          (unfold check_compile in ground arith))
    | inr m ↦
        check_server-Mode c c' v e
          (record {
            prefix = k;
            private_key = unfold check_compile in ground arith;
            to_compile = m;
            strip = unfold check_compile in ground arith;
          })
          (unfold check_compile in ground arith)
  ]
]

check_args-Mode : (c c' : CmdArgs) → check_args c ≡ parsed c' → Mode c'
check_args-Mode c c' p = elim (Bool-cases c.version) [
  | inl v ↦
      subst Mode (check_compile-early c c' (ground arith) (unfold check_args in ground arith))
        (version_Mode c v (unfold check_args in ground arith))
  | inr v ↦ elim (Bool-cases c.eval) [
    | inl e ↦
        subst Mode (check_compile-early c c' (ground arith) (unfold check_args in ground arith))
          (eval_Mode c v e (unfold check_args in ground arith) (unfold check_args in ground arith))
    | inr e ↦ check_compile-Mode c c' v e (unfold check_args in ground arith)
  ]
]

-- Settings that the parser accepts are for one of the five ways to run the program, with no option of
-- another, and with what that way needs.
pub parse_cmd_args_helper-Mode :
    (strtoll : Strtoll) (argv : List Str) (c : CmdArgs)
    → parse_cmd_args_helper strtoll argv ≡ parsed c
    → Mode c
unfolding parse_cmd_args_helper
parse_cmd_args_helper-Mode strtoll [] c e = cc
parse_cmd_args_helper-Mode strtoll (name ∷ args) c e =
    checked (parse_loop strtoll (length args + 1) no_args args) e
  where
    checked :
        (r : Parse CmdArgs)
        → (elim r [ parsed c' ↦ check_args c' | refused x ↦ refused x | stuck ↦ stuck ]) ≡ parsed c
        → Mode c
    checked (parsed c') h = check_args-Mode c' c h
    checked (refused x) h = cc
    checked stuck h = cc
