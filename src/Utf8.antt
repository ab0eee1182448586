-- ===== src/Utf8.antt =====
-- The UTF-8 decoder and encoder of jsockd_server/src/textencodedecode.c. A pointer into the input
-- with its end is the list of the bytes that are left; `dst` is the list of the bytes written. On a
-- byte, `x & 0x3F` is `x % 64`, `x >> 6` is `x / 64`, and `|` joins bits that do not overlap, so that
-- it is written `+`; `uint32_t` shifts keep their wrap.
pub mod Progress
pub mod RoundTrip
pub mod Tests
use jsockd.Prelude.{
  ℕ, zero, suc, ◌+◌, ◌-◌, ◌*◌, ◌/◌, ◌%◌, ◌^◌, List, [], ◌∷◌, ◌++◌, Bool, true, false, ◌==◌, ltb,
  leb, ◌&&◌, ◌||◌, if◌then◌else◌, not, Option, some, none, length, drop,
}

-- `njs_unicode_decode_t`
pub record UnicodeDecode : Type 0 where
  pub codepoint : ℕ
  pub need : ℕ
  pub lower : ℕ
  pub upper : ℕ

abbrev pub unicode_replacement : ℕ
unicode_replacement = 0xFFFD

abbrev pub unicode_max_codepoint : ℕ
unicode_max_codepoint = 0x10FFFF

abbrev pub unicode_error : ℕ
unicode_error = 0x1FFFFF

abbrev pub unicode_continue : ℕ
unicode_continue = 0x2FFFFF

-- What a call of the decoder returns, the decoder's state and the input that is left.
abbrev pub Decoded : Type 0
Decoded = ℕ × UnicodeDecode × List ℕ

-- `njs_utf8_decode_init` (`upper` keeps its value)
unfoldable pub utf8_decode_init : UnicodeDecode → UnicodeDecode
utf8_decode_init ctx = record ctx { need = 0; lower = 0; codepoint = 0 }

-- `njs_utf8_bom`: the number of bytes to skip.
unfoldable pub utf8_bom : List ℕ → ℕ
utf8_bom (a ∷ b ∷ c ∷ rest) = if a == 0xEF && (b == 0xBB && c == 0xBF) then 3 else 0
utf8_bom p = 0

-- `(codepoint << 6) | (c & 0x3F)`
abbrev pub push_bits : ℕ → ℕ → ℕ
push_bits codepoint c = codepoint * 64 % 2 ^ 32 + c % 64

-- `--need`, on an `unsigned`
abbrev pub dec32 : ℕ → ℕ
dec32 need = (need + (2 ^ 32 - 1)) % 2 ^ 32

-- The label `failed`
abbrev pub failed : UnicodeDecode → List ℕ → Decoded
failed ctx p = (unicode_error, record ctx { lower = 0; need = 0 }, p)

-- The label `decode`: the loop over the continuation bytes, and the label `next`.
unfoldable pub decode_tail : ℕ → UnicodeDecode → List ℕ → Decoded
decode_tail need ctx [] = (unicode_continue, record ctx { need = need }, [])
decode_tail need ctx (c ∷ cs) =
    let cp = push_bits ctx.codepoint c in
    let rest = decode_tail (dec32 need) (record ctx { codepoint = cp }) cs in
    if ltb c 0x80 || ltb 0xBF c
    then failed ctx (c ∷ cs)
    else (if dec32 need == 0 then (cp, record ctx { codepoint = cp }, cs) else rest)

-- `njs_utf8_boundary` on the byte `ch`; `none` is its error. The callers drop `ch` from the input and
-- count `need` down.
unfoldable pub utf8_boundary : UnicodeDecode → ℕ → ℕ → ℕ → Option UnicodeDecode
utf8_boundary ctx ch lower upper =
    if ltb ch lower || ltb upper ch
    then none
    else some (record ctx { codepoint = push_bits ctx.codepoint ch })

-- `njs_utf8_boundary_set`
unfoldable pub utf8_boundary_set : UnicodeDecode → ℕ → ℕ → ℕ → ℕ → ℕ → UnicodeDecode
utf8_boundary_set ctx ch first second lower upper =
    if ch == first
    then record ctx { lower = lower; upper = 0xBF }
    else (if ch == second then record ctx { lower = 0x80; upper = upper } else ctx)

-- What follows a lead byte that limits the byte `d` behind it.
unfoldable pub lead_boundary : ℕ → ℕ → ℕ → UnicodeDecode → ℕ → List ℕ → Decoded
lead_boundary need lower upper ctx d ds = elim (utf8_boundary ctx d lower upper) [
  | none ↦ failed ctx (d ∷ ds)
  | some ctx' ↦ decode_tail (dec32 need) ctx' ds
]

-- A lead byte of three or four bytes: the limits `lower` apply behind `first`, and `upper` behind
-- `second`.
unfoldable pub decode_lead : ℕ → ℕ → ℕ → ℕ → ℕ → UnicodeDecode → ℕ → List ℕ → Decoded
decode_lead need first second lower upper ctx c [] = (
  unicode_continue,
  record (utf8_boundary_set ctx c first second lower upper) { need = need },
  [],
)
decode_lead need first second lower upper ctx c (d ∷ ds) =
    if c == first
    then lead_boundary need lower 0xBF ctx d ds
    else (if c == second
        then lead_boundary need 0x80 upper ctx d ds
        else decode_tail need ctx (d ∷ ds))

-- The first part of `njs_utf8_decode`: a sequence that an earlier input left unfinished.
unfoldable pub decode_resumed : UnicodeDecode → ℕ → List ℕ → Decoded
decode_resumed ctx c cs =
    let ctx' = record ctx { need = 0 } in
    if not (ctx.lower == 0)
    then elim (utf8_boundary ctx' c ctx.lower ctx.upper) [
      | none ↦ failed ctx' (c ∷ cs)
      | some ctx'' ↦ decode_tail (dec32 ctx.need) (record ctx'' { lower = 0 }) cs
    ]
    else decode_tail ctx.need ctx' (c ∷ cs)

-- `njs_utf8_decode`, called with the non-empty input `c ∷ cs`.
unfoldable pub utf8_decode : UnicodeDecode → ℕ → List ℕ → Decoded
utf8_decode ctx c cs =
    if not (ctx.need == 0)
    then decode_resumed ctx c cs
    else (if ltb c 0x80
        then (c, ctx, cs)
        else (if leb c 0xDF
            then (if ltb c 0xC2
                then (unicode_error, ctx, cs)
                else decode_tail 1 (record ctx { codepoint = c % 32 }) cs)
            else (if ltb c 0xF0
                then decode_lead 2 0xE0 0xED 0xA0 0x9F (record ctx { codepoint = c % 16 }) c cs
                else (if ltb c 0xF5
                    then decode_lead 3 0xF0 0xF4 0x90 0x8F (record ctx { codepoint = c % 8 }) c cs
                    else (unicode_error, ctx, cs)))))

-- `njs_utf8_size`
unfoldable pub utf8_size : ℕ → ℕ
utf8_size cp =
    if ltb cp 0x80 then 1 else (if ltb cp 0x0800 then 2 else (if ltb cp 0x10000 then 3 else 4))

-- `njs_utf8_encode`: the bytes that it writes, `none` for its NULL.
unfoldable pub utf8_encode : ℕ → Option (List ℕ)
utf8_encode u =
    if ltb u 0x80
    then some (u % 256 ∷ [])
    else (if ltb u 0x0800
        then some ((u / 64 + 0xC0) ∷ (u % 64 + 0x80) ∷ [])
        else (if ltb u 0x10000
            then some ((u / 4096 + 0xE0) ∷ (u / 64 % 64 + 0x80) ∷ (u % 64 + 0x80) ∷ [])
            else (if ltb u 0x110000
                then some (
                    (u / 2 ^ 18 + 0xF0)
                    ∷ (u / 4096 % 64 + 0x80)
                    ∷ (u / 64 % 64 + 0x80)
                    ∷ (u % 64 + 0x80)
                    ∷ [])
                else none)))
