-- ===== src/Utf8/Progress.antt =====
-- `njs_utf8_decode` (jsockd_server/src/textencodedecode.c) makes progress: it takes a byte, or gives
-- up a sequence that an earlier input left unfinished.
use jsockd.Prelude.{
  ℕ, suc, ◌+◌, ◌*◌, ◌%◌, ◌≤◌, ◌<◌, ◌≡◌, List, [], ◌∷◌, ◌==◌, if◌then◌else◌, length, arith,
}
use jsockd.Utf8.{
  UnicodeDecode, Decoded, decode_tail, utf8_boundary, lead_boundary, decode_lead, decode_resumed,
  utf8_decode, dec32, push_bits,
}

-- 1 in the middle of a sequence.
abbrev pub pending : UnicodeDecode → ℕ
pending ctx = if ctx.need == 0 then 0 else 1

-- The input that is left, twice, with the sequence in progress.
abbrev pub left : Decoded → ℕ
left (cp, ctx, p) = 2 * length p + pending ctx

decode_tail-left :
    (need : ℕ) (ctx : UnicodeDecode) (p : List ℕ)
    → ctx.need ≡ 0
    → left (decode_tail need ctx p) ≤ 2 * length p + 1
unfolding decode_tail
decode_tail-left need ctx [] h = ground arith
decode_tail-left need ctx (c ∷ cs) h =
    ground (
      arith,
      decode_tail-left (dec32 need) (record ctx { codepoint = push_bits ctx.codepoint c }) cs,
    )

decode_tail-left_cons :
    (need : ℕ) (ctx : UnicodeDecode) (c : ℕ) (cs : List ℕ)
    → ctx.need ≡ 0
    → left (decode_tail need ctx (c ∷ cs)) ≤ 2 * suc (length cs)
unfolding decode_tail
decode_tail-left_cons need ctx c cs h =
    ground (
      arith,
      decode_tail-left (dec32 need) (record ctx { codepoint = push_bits ctx.codepoint c }) cs,
    )

lead_boundary-left :
    (need lower upper : ℕ) (ctx : UnicodeDecode) (d : ℕ) (ds : List ℕ)
    → ctx.need ≡ 0
    → left (lead_boundary need lower upper ctx d ds) ≤ 2 * suc (length ds)
unfolding lead_boundary utf8_boundary
lead_boundary-left need lower upper ctx d ds h =
    ground (
      arith,
      decode_tail-left (dec32 need) (record ctx { codepoint = push_bits ctx.codepoint d }) ds,
    )

decode_lead-left :
    (need first second lower upper : ℕ) (ctx : UnicodeDecode) (c : ℕ) (cs : List ℕ)
    → ctx.need ≡ 0
    → left (decode_lead need first second lower upper ctx c cs) ≤ 2 * length cs + 1
unfolding decode_lead
decode_lead-left need first second lower upper ctx c [] h = ground arith
decode_lead-left need first second lower upper ctx c (d ∷ ds) h = ground (
  arith,
  lead_boundary-left need lower 0xBF ctx d ds,
  lead_boundary-left need 0x80 upper ctx d ds,
  decode_tail-left_cons need ctx d ds,
)

decode_resumed-left :
    (ctx : UnicodeDecode) (c : ℕ) (cs : List ℕ)
    → left (decode_resumed ctx c cs) ≤ 2 * suc (length cs)
unfolding decode_resumed utf8_boundary
decode_resumed-left ctx c cs = ground (
  arith,
  decode_tail-left_cons ctx.need (record ctx { need = 0 }) c cs,
  decode_tail-left (dec32 ctx.need)
      (record ctx { need = 0; codepoint = push_bits ctx.codepoint c; lower = 0 }) cs,
)

-- Each call on an input `c ∷ cs` leaves less: two for each byte that is left, and one in the middle of
-- a sequence.
pub utf8_decode-left :
    (ctx : UnicodeDecode) (c : ℕ) (cs : List ℕ)
    → left (utf8_decode ctx c cs) < 2 * suc (length cs) + pending ctx
unfolding utf8_decode
utf8_decode-left ctx c cs = ground (
  arith,
  decode_resumed-left ctx c cs,
  decode_tail-left 1 (record ctx { codepoint = c % 32 }) cs,
  decode_lead-left 2 0xE0 0xED 0xA0 0x9F (record ctx { codepoint = c % 16 }) c cs,
  decode_lead-left 3 0xF0 0xF4 0x90 0x8F (record ctx { codepoint = c % 8 }) c cs,
)
