-- ===== src/Text/Tests.antt =====
-- Strings that the encoder and the decoder take, and bytes that are no UTF-8.
use wormdb.Base.{◌≡◌, refl, [], ◌∷◌, arith}
use wormdb.Text.{encode_utf8, decode_utf8, strip_bom}
use wormdb.Text.RoundTrip.{IsWellFormed, plain, decode_utf8-encode_utf8, paired, nil}

-- "é€" and U+1F600 as a surrogate pair.
encode_utf8_wide :
    encode_utf8 (0xe9 ∷ 0x20ac ∷ 0xd83d ∷ 0xde00 ∷ [])
    ≡ 0xc3 ∷ 0xa9 ∷ 0xe2 ∷ 0x82 ∷ 0xac ∷ 0xf0 ∷ 0x9f ∷ 0x98 ∷ 0x80 ∷ []
unfolding encode_utf8
encode_utf8_wide = refl

encode_utf8_lone : encode_utf8 (0xd83d ∷ []) ≡ 0xef ∷ 0xbf ∷ 0xbd ∷ []
unfolding encode_utf8
encode_utf8_lone = refl

decode_utf8_wide :
    decode_utf8 (0xc3 ∷ 0xa9 ∷ 0xf0 ∷ 0x9f ∷ 0x98 ∷ 0x80 ∷ []) ≡ 0xe9 ∷ 0xd83d ∷ 0xde00 ∷ []
unfolding decode_utf8
decode_utf8_wide = refl

-- A byte that cannot follow is read again as a first byte.
decode_utf8_broken : decode_utf8 (0xe2 ∷ 0x41 ∷ 0xff ∷ []) ≡ 0xfffd ∷ 0x41 ∷ 0xfffd ∷ []
unfolding decode_utf8
decode_utf8_broken = refl

decode_utf8_bom : decode_utf8 (0xef ∷ 0xbb ∷ 0xbf ∷ 0x61 ∷ []) ≡ 0x61 ∷ []
unfolding decode_utf8
decode_utf8_bom = refl

mixed_string : IsWellFormed (0xfeff ∷ 0x61 ∷ 0xd83d ∷ 0xde00 ∷ [])
mixed_string = plain (omega arith) refl refl (plain (omega arith) refl refl (paired refl refl nil))

decode_utf8-encode_utf8_example :
    decode_utf8 (encode_utf8 (0xfeff ∷ 0x61 ∷ 0xd83d ∷ 0xde00 ∷ []))
    ≡ strip_bom (0xfeff ∷ 0x61 ∷ 0xd83d ∷ 0xde00 ∷ [])
decode_utf8-encode_utf8_example =
    decode_utf8-encode_utf8 (0xfeff ∷ 0x61 ∷ 0xd83d ∷ 0xde00 ∷ []) mixed_string
