-- ===== src/Messages/Format.antt =====
-- Answers that follow the protocol, and those that do not (`send_message`, jsockd_server/src/messages.c).
use jsockd.Prelude.{
  ℕ, ◌+◌, ◌≡◌, ◌≢◌, refl, ap, ap₂, sym, ◌∙◌, [], ◌∷◌, ◌++◌, Bool, true, false, length, get_or,
  length-append, All, arith,
}
use jsockd.CmdArgs.CString.{Str, lit, same, same-eq, c_str}
use jsockd.Messages.Answer.{Sep, is_sep, split_uuid, strncmp_same}

-- The bytes of a text that are no separators, and those that are no zeros.
abbrev pub NoSep : Sep → Str → Type 0
NoSep sep text = All (λ c. is_sep sep c ≡ false) text

abbrev pub NoZero : Str → Type 0
NoZero text = All (λ c. c ≢ 0) text

pub split_uuid-append :
    (sep : Sep) (uuid rest : Str) (c : ℕ)
    → NoSep sep uuid
    → is_sep sep c ≡ true
    → split_uuid sep (uuid ++ (c ∷ rest)) ≡ length uuid
unfolding split_uuid
split_uuid-append sep [] rest c h e = ground (arith, e)
split_uuid-append sep (d ∷ uuid) rest c h e =
    ground (arith, h, split_uuid-append sep uuid rest c h.1 e)

pub strncmp_same-append : (uuid rest : Str) → strncmp_same (length uuid) (uuid ++ rest) uuid ≡ true
unfolding strncmp_same
strncmp_same-append [] rest = refl
strncmp_same-append (c ∷ uuid) rest = ground (arith, strncmp_same-append uuid rest)

pub strncmp_same-eq :
    (uuid' rest uuid : Str)
    → NoZero uuid
    → length uuid' ≡ length uuid
    → strncmp_same (length uuid) (uuid' ++ rest) uuid ≡ true
    → uuid' ≡ uuid
unfolding strncmp_same
strncmp_same-eq [] rest [] z h e = refl
strncmp_same-eq [] rest (d ∷ uuid) z h e = absurd (omega arith)
strncmp_same-eq (c ∷ uuid') rest [] z h e = absurd (omega arith)
strncmp_same-eq (c ∷ uuid') rest (d ∷ uuid) z h e =
    let e' : strncmp_same (length uuid) (uuid' ++ rest) uuid ≡ true = ground (arith, e, z.0) in
    let d' : c ≡ d = ground (arith, e) in
    ap₂ (λ x xs. x ∷ xs) d' (strncmp_same-eq uuid' rest uuid z.1 (omega arith) e')

c_str-NoZero : (text : Str) → NoZero text → c_str text ≡ text
c_str-NoZero [] z = refl
c_str-NoZero (c ∷ cs) z = ground (arith, z, c_str-NoZero cs z.1)

last_byte : (xs : Str) (s : ℕ) → get_or (xs ++ (s ∷ [])) (length xs) 0 ≡ s
last_byte [] s = refl
last_byte (x ∷ xs) s = last_byte xs s

NoZero-append : (xs ys : Str) → NoZero xs → NoZero ys → NoZero (xs ++ ys)
NoZero-append [] ys h k = k
NoZero-append (x ∷ xs) ys h k = (h.0, NoZero-append xs ys h.1 k)

-- A text that ends in another byte than an r is not `internal_error`.
pub not_internal_error :
    (json : Str) (s : ℕ)
    → NoZero json
    → s ≢ 0
    → s ≢ b'r'
    → same (lit "internal_error") (c_str (json ++ (s ∷ []))) ≡ false
not_internal_error json s z h k = decide_false (same (lit "internal_error") (c_str text)) refl
  where
    text : Str
    text = json ++ (s ∷ [])

    whole : c_str text ≡ text
    whole = c_str-NoZero text (NoZero-append json (s ∷ []) z (h, tt))

    decide_false : (b : Bool) → same (lit "internal_error") (c_str text) ≡ b → b ≡ false
    decide_false false e = refl
    decide_false true e =
        let w : lit "internal_error" ≡ text =
          same-eq (lit "internal_error") (c_str text) e ∙ whole in
        let n : 14 ≡ length json + 1 = ap length w ∙ length-append json (s ∷ []) in
        let i : 13 ≡ length json = omega arith in
        let last : get_or (lit "internal_error") (length json) 0 ≡ s =
          ap (λ t. get_or t (length json) 0) w ∙ last_byte json s in
        absurd (k (sym last ∙ ap (λ j. get_or (lit "internal_error") j 0) (sym i)))
