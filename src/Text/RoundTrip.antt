-- ===== src/Text/RoundTrip.antt =====
-- Decoding what was encoded.
use wormdb.Base.{
  ℕ, ◌<◌, ◌≡◌, ◌⊎◌, false, ◌∷◌, ◌++◌, ltb, arith, JsString, Bool-cases, All, [], List, true, ◌∙◌,
  ap, refl, inl, inr, lt→ltb,
}
use wormdb.Wire.Bytes.{Bytes, IsByte}
use wormdb.Text.{
  decode_scalars, utf8_bytes, start, of_scalars, lone, decode_utf8, encode_scalars, to_scalars,
  pair, is_high, utf16_units, encode_utf8, strip_bom, is_low,
}

-- A Unicode scalar value.
abbrev IsScalar : ℕ → Type 0
IsScalar c = (c < 0x110000) × ((c < 0xd800) ⊎ (0xdfff < c))

decode-utf8_bytes1 :
    (c : ℕ) (rest : Bytes)
    → c < 0x80
    → decode_scalars start (utf8_bytes c ++ rest) ≡ c ∷ decode_scalars start rest
unfolding decode_scalars utf8_bytes
decode-utf8_bytes1 c rest h = ground arith

decode-utf8_bytes2 :
    (c : ℕ) (rest : Bytes)
    → ltb c 0x80 ≡ false
    → c < 0x800
    → decode_scalars start (utf8_bytes c ++ rest) ≡ c ∷ decode_scalars start rest
unfolding decode_scalars utf8_bytes
decode-utf8_bytes2 c rest l h = ground arith

decode-utf8_bytes3 :
    (c : ℕ) (rest : Bytes)
    → ltb c 0x800 ≡ false
    → c < 0x10000
    → IsScalar c
    → decode_scalars start (utf8_bytes c ++ rest) ≡ c ∷ decode_scalars start rest
unfolding decode_scalars utf8_bytes
decode-utf8_bytes3 c rest l h s = ground arith

decode-utf8_bytes4 :
    (c : ℕ) (rest : Bytes)
    → ltb c 0x10000 ≡ false
    → IsScalar c
    → decode_scalars start (utf8_bytes c ++ rest) ≡ c ∷ decode_scalars start rest
unfolding decode_scalars utf8_bytes
decode-utf8_bytes4 c rest l s = ground arith

decode-utf8_bytes :
    (c : ℕ) (rest : Bytes)
    → IsScalar c
    → decode_scalars start (utf8_bytes c ++ rest) ≡ c ∷ decode_scalars start rest
decode-utf8_bytes c rest s = elim (Bool-cases (ltb c 0x80)) [
  | inl a ↦ decode-utf8_bytes1 c rest (ground arith)
  | inr a ↦ elim (Bool-cases (ltb c 0x800)) [
    | inl b ↦ decode-utf8_bytes2 c rest a (ground arith)
    | inr b ↦ elim (Bool-cases (ltb c 0x10000)) [
      | inl d ↦ decode-utf8_bytes3 c rest b (ground arith) s
      | inr d ↦ decode-utf8_bytes4 c rest d s
    ]
  ]
]

decode-encode_scalars :
    (cs : List ℕ) → All IsScalar cs → decode_scalars start (encode_scalars cs) ≡ cs
unfolding encode_scalars
decode-encode_scalars [] h = unfold decode_scalars in refl
decode-encode_scalars (c ∷ cs) (s, h) =
    decode-utf8_bytes c (encode_scalars cs) s ∙ ap (λ r. c ∷ r) (decode-encode_scalars cs h)

-- A string without lone surrogates (`isWellFormed`).
pub data IsWellFormed : JsString → Type 0 where
  nil : IsWellFormed []
  plain :
      {u : ℕ} {s : JsString}
      → u < 0x10000
      → is_high u ≡ false
      → is_low u ≡ false
      → IsWellFormed s
      → IsWellFormed (u ∷ s)
  paired :
      {u v : ℕ} {s : JsString}
      → is_high u ≡ true
      → is_low v ≡ true
      → IsWellFormed s
      → IsWellFormed (u ∷ v ∷ s)

to_scalars-plain :
    (u : ℕ) (s : JsString) → is_high u ≡ false → to_scalars (u ∷ s) ≡ lone u ∷ to_scalars s
unfolding to_scalars
to_scalars-plain u [] h = refl
to_scalars-plain u (v ∷ s) h = rw h

lone-plain : (u : ℕ) → is_high u ≡ false → is_low u ≡ false → lone u ≡ u
unfolding lone
lone-plain u h l = ground arith

pair_bounds :
    (u v : ℕ) → is_high u ≡ true → is_low v ≡ true → (0xffff < pair u v) × (pair u v < 0x110000)
unfolding pair
pair_bounds u v h l = ground arith

utf16_units-pair :
    (u v : ℕ) → is_high u ≡ true → is_low v ≡ true → utf16_units (pair u v) ≡ u ∷ v ∷ []
unfolding pair utf16_units
utf16_units-pair u v h l = ground arith

to_scalars-paired :
    (u v : ℕ) (s : JsString)
    → is_high u ≡ true
    → is_low v ≡ true
    → to_scalars (u ∷ v ∷ s) ≡ pair u v ∷ to_scalars s
unfolding to_scalars
to_scalars-paired u v s h l = ground arith

to_scalars-IsScalar : {s : JsString} → IsWellFormed s → All IsScalar (to_scalars s)
to_scalars-IsScalar nil = unfold to_scalars in tt
to_scalars-IsScalar (plain {u} {s} b h l w) =
    rw (to_scalars-plain u s h, lone-plain u h l)
      ((omega arith, ground arith), to_scalars-IsScalar w)
to_scalars-IsScalar (paired {u} {v} {s} h l w) =
    rw (to_scalars-paired u v s h l) (ground (arith, pair_bounds u v h l), to_scalars-IsScalar w)

of_scalars-to_scalars : {s : JsString} → IsWellFormed s → of_scalars (to_scalars s) ≡ s
unfolding of_scalars
of_scalars-to_scalars nil = unfold to_scalars in refl
of_scalars-to_scalars (plain {u} {s} b h l w) =
    rw (to_scalars-plain u s h, lone-plain u h l, of_scalars-to_scalars w) (rw (lt→ltb u 0x10000 b))
of_scalars-to_scalars (paired {u} {v} {s} h l w) =
    rw (to_scalars-paired u v s h l, utf16_units-pair u v h l, of_scalars-to_scalars w)

of_scalars-strip_bom :
    (cs : List ℕ) → All IsScalar cs → of_scalars (strip_bom cs) ≡ strip_bom (of_scalars cs)
unfolding of_scalars strip_bom utf16_units
of_scalars-strip_bom [] h = refl
of_scalars-strip_bom (c ∷ cs) h = ground arith

-- Decoding an encoded well-formed string gives the string back, less a byte order mark at its start.
pub decode_utf8-encode_utf8 :
    (s : JsString) → IsWellFormed s → decode_utf8 (encode_utf8 s) ≡ strip_bom s
unfolding decode_utf8 encode_utf8
decode_utf8-encode_utf8 s w = rw (
  decode-encode_scalars (to_scalars s) (to_scalars-IsScalar w),
  of_scalars-strip_bom (to_scalars s) (to_scalars-IsScalar w),
  of_scalars-to_scalars w,
)

-- The encoder writes bytes.
utf8_bytes-IsByte : (c : ℕ) → c < 0x110000 → All IsByte (utf8_bytes c)
unfolding utf8_bytes
utf8_bytes-IsByte c h = ground arith
