-- ===== src/Text.antt =====
-- The platform's strings as the clients use them: UTF-16 code units, TextEncoder and TextDecoder
-- (encodeUtf8 and decodeUtf8 of apps/bun/src/lib/wire.ts, u8 and str of apps/browser/src/wire.ts).
-- The decoder is the one of the Encoding Standard: it replaces malformed input by U+FFFD and drops
-- a byte order mark at the start.
pub mod RoundTrip
mod Tests
use wormdb.Base.{
  ℕ, zero, suc, ◌+◌, ◌-◌, ◌*◌, ◌/◌, ◌%◌, ◌≡◌, refl, Bool, true, false, not, ◌&&◌, ◌||◌, List, [],
  ◌∷◌, ◌++◌, ltb, leb, ◌==◌, if◌then◌else◌, JsString, ◌>>=◌, ◌∙◌, inl, inr, none, some, arith, ◌⊎◌,
  ◌<◌, ◌≤◌,
}
use wormdb.Wire.Bytes.{Bytes}
use Prim.Native.Char.{code}
use Prim.Native.String.{String}

abbrev pub is_high : ℕ → Bool
is_high u = leb 0xd800 u && leb u 0xdbff

abbrev pub is_low : ℕ → Bool
is_low u = leb 0xdc00 u && leb u 0xdfff

abbrev pub replacement : ℕ
replacement = 0xfffd

-- A code unit outside a surrogate pair.
unfoldable pub lone : ℕ → ℕ
lone u = if leb 0xd800 u && leb u 0xdfff then replacement else u

pub pair : ℕ → ℕ → ℕ
pair hi lo = 0x10000 + (hi - 0xd800) * 0x400 + (lo - 0xdc00)

-- The scalar values of a string; a lone surrogate becomes U+FFFD.
unfoldable pub to_scalars : JsString → List ℕ
unfolding lone pair
to_scalars [] = []
to_scalars (u ∷ []) = lone u ∷ []
to_scalars (u ∷ v ∷ rest) =
    let joined : List ℕ = pair u v ∷ to_scalars rest in
    let single : List ℕ = lone u ∷ to_scalars (v ∷ rest) in
    if is_high u && is_low v then joined else single

-- The UTF-8 bytes of a scalar value.
unfoldable pub utf8_bytes : ℕ → Bytes
utf8_bytes c =
    if ltb c 0x80
    then c ∷ []
    else if ltb c 0x800
    then (0xc0 + c / 64) ∷ (0x80 + c % 64) ∷ []
    else if ltb c 0x10000
    then (0xe0 + c / 4096) ∷ (0x80 + c / 64 % 64) ∷ (0x80 + c % 64) ∷ []
    else (0xf0 + c / 262144) ∷ (0x80 + c / 4096 % 64) ∷ (0x80 + c / 64 % 64) ∷ (0x80 + c % 64) ∷ []

unfoldable pub encode_scalars : List ℕ → Bytes
unfolding utf8_bytes
encode_scalars [] = []
encode_scalars (c ∷ cs) = utf8_bytes c ++ encode_scalars cs

-- `new TextEncoder().encode(value)`.
unfoldable pub encode_utf8 : JsString → Bytes
unfolding encode_scalars to_scalars
encode_utf8 s = encode_scalars (to_scalars s)

-- Between characters, or inside one: bytes still needed, the value so far, the range of the next
-- byte.
pub data Utf8State : Type 0 where
  start : Utf8State
  more : ℕ → ℕ → ℕ → ℕ → Utf8State

pub first_byte : ℕ → List ℕ × Utf8State
first_byte b =
    if leb b 0x7f
    then (b ∷ [], start)
    else if leb 0xc2 b && leb b 0xdf
    then ([], more 1 (b - 0xc0) 0x80 0xbf)
    else if leb 0xe0 b && leb b 0xef
    then (
      [],
      more 2 (b - 0xe0) (if b == 0xe0 then 0xa0 else 0x80) (if b == 0xed then 0x9f else 0xbf),
    )
    else if leb 0xf0 b && leb b 0xf4
    then (
      [],
      more 3 (b - 0xf0) (if b == 0xf0 then 0x90 else 0x80) (if b == 0xf4 then 0x8f else 0xbf),
    )
    else (replacement ∷ [], start)

pub restart : ℕ → List ℕ × Utf8State
unfolding first_byte
restart b = let (out, next) = first_byte b in (replacement ∷ out, next)

pub utf8_step : Utf8State → ℕ → List ℕ × Utf8State
unfolding first_byte restart
utf8_step start b = first_byte b
utf8_step (more needed point lower upper) b =
    let point' = point * 64 + (b - 0x80) in
    if leb lower b && leb b upper
    then (if leb needed 1 then (point' ∷ [], start) else ([], more (needed - 1) point' 0x80 0xbf))
    else restart b

pub decode_scalars : Utf8State → Bytes → List ℕ
unfolding utf8_step
decode_scalars start [] = []
decode_scalars (more _ _ _ _) [] = replacement ∷ []
decode_scalars s (b ∷ bs) = (utf8_step s b).0 ++ decode_scalars (utf8_step s b).1 bs

pub strip_bom : List ℕ → List ℕ
strip_bom [] = []
strip_bom (c ∷ cs) = if c == 0xfeff then cs else c ∷ cs

-- The code units of a scalar value.
pub utf16_units : ℕ → List ℕ
utf16_units c =
    if ltb c 0x10000
    then c ∷ []
    else (0xd800 + (c - 0x10000) / 0x400) ∷ (0xdc00 + (c - 0x10000) % 0x400) ∷ []

pub of_scalars : List ℕ → JsString
unfolding utf16_units
of_scalars [] = []
of_scalars (c ∷ cs) = utf16_units c ++ of_scalars cs

-- `new TextDecoder().decode(value)`.
unfoldable pub decode_utf8 : Bytes → JsString
unfolding decode_scalars strip_bom of_scalars
decode_utf8 bytes = of_scalars (strip_bom (decode_scalars start bytes))

-- A string literal's code units (the literals below are ASCII).
abbrev pub codes : String → JsString
codes String.[] = []
codes (String.◌∷◌ c s) = code c ∷ codes s

-- `String(n)` of a number.
unfoldable pub digits_loop : ℕ → ℕ → JsString
digits_loop zero n = []
digits_loop (suc fuel) n =
    let rest = digits_loop fuel (n / 10) ++ ((48 + n % 10) ∷ []) in
    if ltb n 10 then (48 + n) ∷ [] else rest

unfoldable pub decimal : ℕ → JsString
unfolding digits_loop
decimal n = digits_loop (suc n) n
