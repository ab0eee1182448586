-- ===== src/Messages/Answer.antt =====
-- The answer to a message, once it is read (jsockd_server/src/messages.c).
use jsockd.Prelude.{
  ℕ, zero, suc, ◌+◌, ◌-◌, ◌%◌, ◌^◌, [], ◌∷◌, Bool, true, not, ◌&&◌, ◌||◌, ◌==◌, ltb, if◌then◌else◌,
  Option, some, none, length, drop,
}
use jsockd.CmdArgs.CString.{Str, lit, same, c_str}

-- `SendMessageError`
pub data SendMessageError : Type 0 where
  timeout bad_json too_big interrupted io time bad_message handler_internal_error : SendMessageError

-- The result of `send_message`: 0 and a value of the engine, or an error.
pub data Sent (V : Type 0) : Type 0 where
  answered : V → Sent V
  failed : SendMessageError → Sent V

-- `socket_sep_char`, an unsigned byte, and whether a `char` is signed.
pub record Sep : Type 0 where
  pub socket_sep_char : ℕ
  pub char_is_signed : Bool

-- `c == g_cmd_args.socket_sep_char` for a `char`: a signed one of 128 or more is negative.
unfoldable pub is_sep : Sep → ℕ → Bool
is_sep sep c = c == sep.socket_sep_char && (not sep.char_is_signed || ltb c 128)

-- `split_uuid`
unfoldable pub split_uuid : Sep → Str → ℕ
split_uuid sep [] = 0
split_uuid sep (c ∷ cs) = let rest = split_uuid sep cs in if is_sep sep c then 0 else suc rest

-- `0 == strncmp(a, b, n)`, where both are terminated.
unfoldable pub strncmp_same : ℕ → Str → Str → Bool
strncmp_same zero a b = true
strncmp_same (suc n) [] [] = true
strncmp_same (suc n) [] (d ∷ b) = d == 0
strncmp_same (suc n) (c ∷ a) [] = c == 0
strncmp_same (suc n) (c ∷ a) (d ∷ b) = c == d && (c == 0 || strncmp_same n a b)

-- The difference of two `size_t`.
abbrev pub sub_size : ℕ → ℕ → ℕ
sub_size a b = (a + 2 ^ 64 - b) % 2 ^ 64

module _ {V : Type 0} (sep : Sep) (parse_json : Str → ℕ → Option V) where
  -- The end of `send_message`: `json_input` is terminated, and `parse_json` is told a length.
  unfoldable pub read_json : Str → ℕ → Sent V
  read_json json_input json_input_len =
      if same (lit "internal_error") (c_str json_input)
      then failed handler_internal_error
      else (elim (parse_json json_input json_input_len) [
        | none ↦ failed bad_json
        | some v ↦ answered v
      ])

  -- The part of `send_message` behind `read_done`, with the bytes of the answer.
  unfoldable pub answer_of : Str → Str → Sent V
  answer_of uuid text =
      let uuid_len = split_uuid sep text in
      if uuid_len == length text
      then failed bad_message
      else (if not (uuid_len == length uuid) || not (strncmp_same (length uuid) text uuid)
          then failed bad_message
          else read_json (drop (uuid_len + 1) text) (sub_size (length text) (uuid_len + 2)))
