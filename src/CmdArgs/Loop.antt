-- ===== src/CmdArgs/Loop.antt =====
-- The loop of `parse_cmd_args_helper` (jsockd_server/src/cmdargs.c) ends, and keeps the sockets within
-- their array.
use jsockd.Prelude.{
  ℕ, zero, suc, ◌+◌, ◌≤◌, ◌<◌, ◌≡◌, ◌≢◌, refl, sym, ap, ◌∙◌, List, [], ◌∷◌, Bool, true, false, not,
  ◌&&◌, ◌==◌, if◌then◌else◌, length, length-append, arith,
}
use jsockd.Prelude.Int.{pos}
use jsockd.CmdArgs.CString.{Str, lit, same, is_some, starts_with_dash}
use jsockd.CmdArgs.Options.{
  CmdArgs, no_args, Parse, parsed, refused, stuck, Strtoll, Taken, max_threads, option_m, option_t,
  option_i, add_socket, sockets_loop, option_s, option_sm, option_b, option_k, option_pk, option_c,
  option_strip, CompileOpts, is_strip_none, two_hex_digits, strip_source, strip_debug, option_e,
  parse_option,
}
use jsockd.CmdArgs.{check_args, check_compile, check_server, parse_loop, parse_cmd_args_helper}

-- The sockets are those of the array, which has room for `MAX_THREADS`.
pub record Sockets (c : CmdArgs) : Type 0 where
  pub counted : c.n_sockets ≡ length c.socket_path
  pub in_array : c.n_sockets ≤ max_threads

-- An option does not get stuck, leaves no more arguments than it was given, and keeps the sockets
-- within their array.
abbrev Takes : List Str → Taken → Type 0
Takes args (parsed (c, rest)) = (length rest ≤ length args) × Sockets c
Takes args (refused e) = Unit
Takes args stuck = ⊥

add_socket-Sockets : (c : CmdArgs) (a : Str) → Sockets c → Sockets (add_socket c a)
unfolding add_socket
add_socket-Sockets c a v = ground (arith, length-append c.socket_path (a ∷ []))

abbrev Left : List Str → ℕ × CmdArgs × List Str → Type 0
Left args (n, c, rest) = (length rest ≤ length args) × Sockets c

sockets_loop-Left :
    (dd : Bool) (n : ℕ) (c : CmdArgs) (args : List Str)
    → Sockets c
    → Left args (sockets_loop dd n c args)
unfolding sockets_loop
sockets_loop-Left dd n c [] v = (omega arith, v)
sockets_loop-Left dd n c (a ∷ args) v =
    choose (same a (lit "--")) (not dd && starts_with_dash a) (sockets_loop true n c args)
      (sockets_loop dd (n + 1) (add_socket c a) args) (sockets_loop-Left true n c args v)
      (sockets_loop-Left dd (n + 1) (add_socket c a) args (add_socket-Sockets c a v))
  where
    choose :
        (p q : Bool) (x y : ℕ × CmdArgs × List Str)
        → Left args x
        → Left args y
        → Left (a ∷ args) (if p then x else (if q then (n, c, a ∷ args) else y))
    choose true q x y hx hy = (omega arith, hx.1)
    choose false true x y hx hy = (omega arith, v)
    choose false false x y hx hy = (omega arith, hy.1)

if-Takes :
    (b : Bool) (args : List Str) (x y : Taken)
    → Takes args x
    → Takes args y
    → Takes args (if b then x else y)
if-Takes true args x y hx hy = hx
if-Takes false args x y hx hy = hy

-- The options but -s touch no socket.
module _ (strtoll : Strtoll) (c : CmdArgs) (v : Sockets c) where
  kept : (c' : CmdArgs) → c'.n_sockets ≡ c.n_sockets → c'.socket_path ≡ c.socket_path → Sockets c'
  kept c' e p = record {
    counted = e ∙ v.counted ∙ ap length (sym p);
    in_array = omega (arith, e, v.in_array);
  }

  option_m-Takes : (args : List Str) → Takes args (option_m c args)
  unfolding option_m
  option_m-Takes [] = tt
  option_m-Takes (a ∷ args) =
      if-Takes (is_some c.es6_module_bytecode_file) (a ∷ args) _ (parsed (_, args)) tt
        (omega arith, kept _ refl refl)

  option_t-Takes : (args : List Str) → Takes args (option_t strtoll c args)
  unfolding option_t
  option_t-Takes [] = tt
  option_t-Takes (a ∷ args) =
      if-Takes (not (c.max_command_runtime_us == 0)) (a ∷ args) (refused _) _ tt
        (if-Takes _ (a ∷ args) (refused _) (parsed (_, args)) tt (omega arith, kept _ refl refl))

  option_i-Takes : (args : List Str) → Takes args (option_i strtoll c args)
  unfolding option_i
  option_i-Takes [] = tt
  option_i-Takes (a ∷ args) =
      if-Takes c.max_idle_time_set (a ∷ args) (refused _) _ tt
        (if-Takes _ (a ∷ args) (refused _) (parsed (_, args)) tt (omega arith, kept _ refl refl))

  option_s-Takes : (args : List Str) → Takes args (option_s c args)
  unfolding option_s
  option_s-Takes args =
      if-Takes ((sockets_loop false 0 c args).0 == 0) args (refused _)
        (parsed ((sockets_loop false 0 c args).1, (sockets_loop false 0 c args).2)) tt
        (sockets_loop-Left false 0 c args v)

  option_sm-Takes : (args : List Str) → Takes args (option_sm c args)
  unfolding option_sm
  option_sm-Takes [] = tt
  option_sm-Takes (a ∷ args) =
      if-Takes (is_some c.source_map_file) (a ∷ args) (refused _) (parsed (_, args)) tt
        (omega arith, kept _ refl refl)

  option_b-Takes : (args : List Str) → Takes args (option_b c args)
  unfolding option_b
  option_b-Takes [] = if-Takes c.socket_sep_char_set [] (refused _) (refused _) tt tt
  option_b-Takes (a ∷ args) = if-Takes c.socket_sep_char_set (a ∷ args) (refused _) _ tt (
      if-Takes (two_hex_digits a) (a ∷ args) (parsed (_, args)) (refused _)
        (omega arith, kept _ refl refl) tt)

  option_k-Takes : (args : List Str) → Takes args (option_k c args)
  unfolding option_k
  option_k-Takes [] = if-Takes (is_some c.key_file_prefix) [] (refused _) (refused _) tt tt
  option_k-Takes (a ∷ args) =
      if-Takes (is_some c.key_file_prefix) (a ∷ args) (refused _) (parsed (_, args)) tt
        (omega arith, kept _ refl refl)

  option_pk-Takes : (args : List Str) → Takes args (option_pk c args)
  unfolding option_pk
  option_pk-Takes [] = if-Takes (is_some c.private_key_file) [] (refused _) (refused _) tt tt
  option_pk-Takes (a ∷ args) =
      if-Takes (is_some c.private_key_file) (a ∷ args) (refused _) (parsed (_, args)) tt
        (omega arith, kept _ refl refl)

  option_c-Takes : (args : List Str) → Takes args (option_c c args)
  unfolding option_c
  option_c-Takes [] = if-Takes (is_some c.mod_to_compile) [] (refused _) (refused _) tt tt
  option_c-Takes (a ∷ []) =
      if-Takes (is_some c.mod_to_compile) (a ∷ []) (refused _) (refused _) tt tt
  option_c-Takes (a ∷ b ∷ args) =
      if-Takes (is_some c.mod_to_compile) (a ∷ b ∷ args) (refused _) (parsed (_, args)) tt
        (omega arith, kept _ refl refl)

  option_strip-Takes : (o : CompileOpts) (args : List Str) → Takes args (option_strip o c args)
  unfolding option_strip
  option_strip-Takes o args =
      if-Takes (not (is_strip_none c.compile_opts)) args (refused _) (parsed (_, args)) tt
        (omega arith, kept _ refl refl)

  option_e-Takes : (args : List Str) → Takes args (option_e c args)
  unfolding option_e
  option_e-Takes [] = if-Takes c.eval [] (refused _) (refused _) tt tt
  option_e-Takes (a ∷ args) =
      if-Takes c.eval (a ∷ args) (refused _) (parsed (_, args)) tt (omega arith, kept _ refl refl)

  parse_option-Takes : (a : Str) (args : List Str) → Takes args (parse_option strtoll a c args)
  unfolding parse_option
  parse_option-Takes a args =
      if-Takes (same a (lit "-v")) args _ _ (omega arith, kept _ refl refl)
        (if-Takes (same a (lit "-m")) args _ _ (option_m-Takes args) (
          if-Takes (same a (lit "-t")) args _ _ (option_t-Takes args) (
            if-Takes (same a (lit "-i")) args _ _ (option_i-Takes args) (
              if-Takes (same a (lit "-s")) args _ _ (option_s-Takes args) (
                if-Takes (same a (lit "-sm")) args _ _ (option_sm-Takes args) (
                  if-Takes (same a (lit "-b")) args _ _ (option_b-Takes args) (
                    if-Takes (same a (lit "-k")) args _ _ (option_k-Takes args) (
                      if-Takes (same a (lit "-pk")) args _ _ (option_pk-Takes args) (
                        if-Takes (same a (lit "-c")) args _ _ (option_c-Takes args) (
                          if-Takes (same a (lit "-ss")) args _ _
                            (option_strip-Takes strip_source args)
                            (if-Takes (same a (lit "-sd")) args _ _
                              (option_strip-Takes strip_debug args)
                              (if-Takes (same a (lit "-e")) args _ _ (option_e-Takes args) (
                                if-Takes (starts_with_dash a) args (refused _) (refused _) tt
                                  tt)))))))))))))

-- The outcome is an error, or settings whose sockets are within their array.
abbrev pub Settles : Parse CmdArgs → Type 0
Settles (parsed c) = Sockets c
Settles (refused e) = Unit
Settles stuck = ⊥

abbrev settle : Strtoll → ℕ → Taken → Parse CmdArgs
settle strtoll f t = elim t [
  | parsed (c, args) ↦ parse_loop strtoll f c args
  | refused e ↦ refused e
  | stuck ↦ stuck
]

settle-Settles :
    (strtoll : Strtoll) (f : ℕ) (args : List Str) (t : Taken)
    → length args < f
    → Takes args t
    → ((c : CmdArgs) (args' : List Str)
        → length args' < f
        → Sockets c
        → Settles (parse_loop strtoll f c args'))
    → Settles (settle strtoll f t)
settle-Settles strtoll f args (parsed (c, args')) h k ih = ih c args' (omega arith) k.1
settle-Settles strtoll f args (refused e) h k ih = tt
settle-Settles strtoll f args stuck h k ih = k

parse_loop-Settles :
    (strtoll : Strtoll) (f : ℕ) (c : CmdArgs) (args : List Str)
    → length args < f
    → Sockets c
    → Settles (parse_loop strtoll f c args)
unfolding parse_loop
parse_loop-Settles strtoll zero c args h v = absurd (omega arith)
parse_loop-Settles strtoll (suc f) c [] h v = v
parse_loop-Settles strtoll (suc f) c (a ∷ args) h v =
    settle-Settles strtoll f args (parse_option strtoll a c args) (omega arith)
      (parse_option-Takes strtoll c v a args) (λ c' args'. parse_loop-Settles strtoll f c' args')

-- The checks change no socket, and do not get stuck.
abbrev Same : CmdArgs → Parse CmdArgs → Type 0
Same c r =
    ((c' : CmdArgs)
      → r ≡ parsed c'
      → (c'.n_sockets ≡ c.n_sockets) × (c'.socket_path ≡ c.socket_path))
    × (r ≢ stuck)

check_server-Same : (c : CmdArgs) → Same c (check_server c)
unfolding check_server
check_server-Same c = (λ c' e. ground arith, λ e. ground arith)

check_compile-Same : (c : CmdArgs) → Same c (check_compile c)
unfolding check_compile
check_compile-Same c = (
  λ c' e. ground (arith, (check_server-Same c).0 c'),
  λ e. ground (arith, (check_server-Same c).1),
)

check_args-Same : (c : CmdArgs) → Same c (check_args c)
unfolding check_args
check_args-Same c = (
  λ c' e. ground (arith, (check_compile-Same c).0 c'),
  λ e. ground (arith, (check_compile-Same c).1),
)

check_args-Settles : (c : CmdArgs) → Sockets c → Settles (check_args c)
check_args-Settles c v = settles (check_args c) (check_args-Same c)
  where
    settles : (r : Parse CmdArgs) → Same c r → Settles r
    settles (parsed c') s = kept (λ s. (pos 0, false, s)) c v c' (s.0 c' refl).0 (s.0 c' refl).1
    settles (refused e) s = tt
    settles stuck s = s.1 refl

-- On every command line, and whatever `strtoll` answers, the parser ends: it reports an error, or its
-- settings name as many sockets as it counts, and no more than `MAX_THREADS`.
pub parse_cmd_args_helper-Settles :
    (strtoll : Strtoll) (argv : List Str) → Settles (parse_cmd_args_helper strtoll argv)
unfolding parse_cmd_args_helper
parse_cmd_args_helper-Settles strtoll [] = tt
parse_cmd_args_helper-Settles strtoll (name ∷ args) =
    checked (parse_loop strtoll (length args + 1) no_args args) (
      parse_loop-Settles strtoll (length args + 1) no_args args (omega arith)
        (record { counted = refl; in_array = omega arith }))
  where
    checked :
        (r : Parse CmdArgs)
        → Settles r
        → Settles (elim r [ parsed c ↦ check_args c | refused e ↦ refused e | stuck ↦ stuck ])
    checked (parsed c) h = check_args-Settles c h
    checked (refused e) h = tt
    checked stuck h = h
