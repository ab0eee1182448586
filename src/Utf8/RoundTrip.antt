-- ===== src/Utf8/RoundTrip.antt =====
-- `njs_utf8_encode` and `njs_utf8_decode` (jsockd_server/src/textencodedecode.c): what the one writes,
-- the other reads.
use jsockd.Prelude.{
  ℕ, ◌+◌, ◌*◌, ◌/◌, ◌%◌, ◌^◌, ◌≤◌, ◌<◌, ◌≡◌, ◌⊎◌, inl, inr, refl, List, [], ◌∷◌, ◌++◌, true, ltb,
  Bool-cases, length, some, subst, arith,
}
use jsockd.Utf8.{
  UnicodeDecode, decode_tail, utf8_boundary, lead_boundary, decode_lead, utf8_decode, utf8_size,
  utf8_encode, unicode_max_codepoint, dec32,
}

-- A Unicode scalar value: a code point that is no surrogate.
abbrev pub IsScalar : ℕ → Type 0
IsScalar cp = (cp < 0xD800) ⊎ ((0xE000 ≤ cp) × (cp ≤ unicode_max_codepoint))

-- Every code point is written, in as many bytes as `njs_utf8_size` says; no other number is.
pub length-utf8_encode :
    (cp : ℕ)
    → cp ≤ unicode_max_codepoint
    → (bytes : List ℕ) × (utf8_encode cp ≡ some bytes) × (length bytes ≡ utf8_size cp)
unfolding utf8_encode utf8_size
length-utf8_encode cp h = elim (Bool-cases (ltb cp 0x80)) [
  | inl a ↦ rw a (_, refl, refl)
  | inr a ↦ elim (Bool-cases (ltb cp 0x0800)) [
    | inl b ↦ rw (a, b) (_, refl, refl)
    | inr b ↦ elim (Bool-cases (ltb cp 0x10000)) [
      | inl d ↦ rw (a, b, d) (_, refl, refl)
      | inr d ↦ let e : ltb cp 0x110000 ≡ true = ground arith in rw (a, b, d, e) (_, refl, refl)
    ]
  ]
]

-- One continuation byte, where one or more are needed.
decode_tail_last :
    (ctx : UnicodeDecode) (x : ℕ) (rest : List ℕ)
    → x < 64
    → ctx.codepoint < 2 ^ 26
    → decode_tail 1 ctx ((x + 0x80) ∷ rest)
      ≡ (ctx.codepoint * 64 + x, record ctx { codepoint = ctx.codepoint * 64 + x }, rest)
unfolding decode_tail
decode_tail_last ctx x rest hx hc = ground arith

decode_tail_more :
    (need : ℕ) (ctx : UnicodeDecode) (x : ℕ) (rest : List ℕ)
    → 1 < need
    → need ≤ 3
    → x < 64
    → ctx.codepoint < 2 ^ 26
    → decode_tail need ctx ((x + 0x80) ∷ rest)
      ≡ decode_tail (dec32 need) (record ctx { codepoint = ctx.codepoint * 64 + x }) rest
unfolding decode_tail
decode_tail_more need ctx x rest hn hm hx hc = ground arith

-- A second byte within the limits.
lead_boundary_last :
    (need lower upper : ℕ) (ctx : UnicodeDecode) (x : ℕ) (rest : List ℕ)
    → 1 < need
    → need ≤ 3
    → x < 64
    → lower ≤ x + 0x80
    → x + 0x80 ≤ upper
    → ctx.codepoint < 2 ^ 26
    → lead_boundary need lower upper ctx (x + 0x80) rest
      ≡ decode_tail (dec32 need) (record ctx { codepoint = ctx.codepoint * 64 + x }) rest
unfolding lead_boundary utf8_boundary
lead_boundary_last need lower upper ctx x rest hn hm hx hl hu hc = ground arith

decode_two :
    (ctx : UnicodeDecode) (cp : ℕ) (rest : List ℕ)
    → ctx.need ≡ 0
    → 0x80 ≤ cp
    → cp < 0x800
    → utf8_decode ctx (cp / 64 + 0xC0) ((cp % 64 + 0x80) ∷ rest)
      ≡ (cp, record ctx { codepoint = cp }, rest)
unfolding utf8_decode
decode_two ctx cp rest h lo hi =
    ground
      (arith, decode_tail_last (record ctx { codepoint = (cp / 64 + 0xC0) % 32 }) (cp % 64) rest)

abbrev lead_three : UnicodeDecode → ℕ → UnicodeDecode
lead_three ctx cp = record ctx { codepoint = (cp / 4096 + 0xE0) % 16 }

decode_three :
    (ctx : UnicodeDecode) (cp : ℕ) (rest : List ℕ)
    → ctx.need ≡ 0
    → 0x800 ≤ cp
    → cp < 0x10000
    → IsScalar cp
    → utf8_decode ctx (cp / 4096 + 0xE0) ((cp / 64 % 64 + 0x80) ∷ (cp % 64 + 0x80) ∷ rest)
      ≡ (cp, record ctx { codepoint = cp }, rest)
unfolding utf8_decode decode_lead
decode_three ctx cp rest h lo hi s = ground (
  arith,
  lead_boundary_last 2 0xA0 0xBF (lead_three ctx cp) (cp / 64 % 64) ((cp % 64 + 0x80) ∷ rest),
  lead_boundary_last 2 0x80 0x9F (lead_three ctx cp) (cp / 64 % 64) ((cp % 64 + 0x80) ∷ rest),
  decode_tail_more 2 (lead_three ctx cp) (cp / 64 % 64) ((cp % 64 + 0x80) ∷ rest),
  decode_tail_last (record ctx { codepoint = (cp / 4096 + 0xE0) % 16 * 64 + cp / 64 % 64 })
      (cp % 64) rest,
)

abbrev lead_four : UnicodeDecode → ℕ → UnicodeDecode
lead_four ctx cp = record ctx { codepoint = (cp / 2 ^ 18 + 0xF0) % 8 }

decode_four :
    (ctx : UnicodeDecode) (cp : ℕ) (rest : List ℕ)
    → ctx.need ≡ 0
    → 0x10000 ≤ cp
    → cp < 0x110000
    → utf8_decode ctx
        (cp / 2 ^ 18 + 0xF0)
        ((cp / 4096 % 64 + 0x80) ∷ (cp / 64 % 64 + 0x80) ∷ (cp % 64 + 0x80) ∷ rest)
      ≡ (cp, record ctx { codepoint = cp }, rest)
unfolding utf8_decode decode_lead
decode_four ctx cp rest h lo hi =
    let after = (cp / 64 % 64 + 0x80) ∷ (cp % 64 + 0x80) ∷ rest in
    let second = cp / 4096 % 64 in
    let two = (cp / 2 ^ 18 + 0xF0) % 8 * 64 + second in
    ground (
      arith,
      lead_boundary_last 3 0x90 0xBF (lead_four ctx cp) second after,
      lead_boundary_last 3 0x80 0x8F (lead_four ctx cp) second after,
      decode_tail_more 3 (lead_four ctx cp) second after,
      decode_tail_more 2 (record ctx { codepoint = two }) (cp / 64 % 64) ((cp % 64 + 0x80) ∷ rest),
      decode_tail_last (record ctx { codepoint = two * 64 + cp / 64 % 64 }) (cp % 64) rest,
    )

-- What the decoder answers to the encoding of a scalar value with more bytes behind it: that value,
-- and just those bytes are left; between two sequences it stays between two sequences.
abbrev pub Decodes : UnicodeDecode → ℕ → List ℕ → List ℕ → Type 0
Decodes ctx cp [] rest = ⊥
Decodes ctx cp (c ∷ cs) rest =
    (ctx' : UnicodeDecode) × (utf8_decode ctx c (cs ++ rest) ≡ (cp, ctx', rest))
    × (ctx'.need ≡ 0)
    × (ctx'.lower ≡ ctx.lower)

abbrev two_bytes : ℕ → List ℕ
two_bytes cp = (cp / 64 + 0xC0) ∷ (cp % 64 + 0x80) ∷ []

abbrev three_bytes : ℕ → List ℕ
three_bytes cp = (cp / 4096 + 0xE0) ∷ (cp / 64 % 64 + 0x80) ∷ (cp % 64 + 0x80) ∷ []

abbrev four_bytes : ℕ → List ℕ
four_bytes cp =
    (cp / 2 ^ 18 + 0xF0) ∷ (cp / 4096 % 64 + 0x80) ∷ (cp / 64 % 64 + 0x80) ∷ (cp % 64 + 0x80) ∷ []

transfer :
    (ctx : UnicodeDecode) (cp : ℕ) (bytes rest written : List ℕ)
    → utf8_encode cp ≡ some bytes
    → utf8_encode cp ≡ some written
    → Decodes ctx cp written rest
    → Decodes ctx cp bytes rest
transfer ctx cp bytes rest written e w d =
    let same : written ≡ bytes = cc in subst (λ b. Decodes ctx cp b rest) same d

-- On the bytes that `njs_utf8_encode` writes for a scalar value, with more bytes behind them, a decoder
-- between two sequences returns that value, leaves just those bytes, and is between two sequences.
pub utf8_decode-encode :
    (ctx : UnicodeDecode) (cp : ℕ) (bytes rest : List ℕ)
    → ctx.need ≡ 0
    → IsScalar cp
    → utf8_encode cp ≡ some bytes
    → Decodes ctx cp bytes rest
utf8_decode-encode ctx cp bytes rest h s e = elim (Bool-cases (ltb cp 0x80)) [
  | inl a ↦
      transfer ctx cp bytes rest (cp % 256 ∷ []) e (unfold utf8_encode in rw a)
        (ctx, unfold utf8_decode in ground arith, h, refl)
  | inr a ↦ elim (Bool-cases (ltb cp 0x0800)) [
    | inl b ↦ transfer ctx cp bytes rest (two_bytes cp) e (unfold utf8_encode in rw (a, b) refl) (
      record ctx { codepoint = cp },
      decode_two ctx cp rest h (ground arith) (ground arith),
      h,
      refl,
    )
    | inr b ↦ elim (Bool-cases (ltb cp 0x10000)) [
      | inl d ↦
          transfer ctx cp bytes rest (three_bytes cp) e (unfold utf8_encode in rw (a, b, d) refl) (
            record ctx { codepoint = cp },
            decode_three ctx cp rest h (ground arith) (ground arith) s,
            h,
            refl,
          )
      | inr d ↦
          let e' : ltb cp 0x110000 ≡ true = ground arith in
          transfer ctx cp bytes rest (four_bytes cp) e (unfold utf8_encode in rw (a, b, d, e') refl)
            (
              record ctx { codepoint = cp },
              decode_four ctx cp rest h (ground arith) (ground arith),
              h,
              refl,
            )
    ]
  ]
]
