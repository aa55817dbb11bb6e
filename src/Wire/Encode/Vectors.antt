-- ===== src/Wire/Encode/Vectors.antt =====
-- The two vector payloads, filled through a cursor.
use wormdb.Base.{
  ap, sym, length, append_assoc, append-nil, length-append, List, ok, ℕ, suc, ◌+◌, ◌≡◌, refl, [],
  ◌∷◌, ◌++◌, arith,
}
use wormdb.Wire.Bytes.{Bytes, be32, be64, length-be32, length-be64}
use wormdb.Wire.Encode.{encode_vbulkinsert, encode_vinsert, write_items, items_size, vector_flags}
use wormdb.Wire.Encode.Filling.{
  filled, next_field-filled, next_uint64-filled, next_byte-filled, vector_flags-lt,
  next_uint32-filled,
}
use wormdb.Wire.Format.{field, item_bytes, items_bytes, vbulkinsert_payload, vinsert_payload}
use wormdb.Wire.Command.{BulkItem, VectorInsert, VectorBulk, metric_name}
use mathlib.Core.Path.{ap₂}
use wormdb.Text.{encode_utf8}

pub length-field : (b : Bytes) → length (field b) ≡ 4 + length b
length-field b = omega (arith, length-append (be32 (length b)) b, length-be32 (length b))

pub encode_vinsert-payload : (c : VectorInsert) → encode_vinsert c ≡ ok (vinsert_payload c)
unfolding encode_vinsert
encode_vinsert-payload c =
    let key = encode_utf8 c.key in
    let ns = encode_utf8 c.namespace in
    let metric = encode_utf8 (metric_name c.metric) in
    let m5 : ℕ = 8 in
    let m4 : ℕ = 4 + length metric + m5 in
    let m3 : ℕ = 4 + length ns + m4 in
    let m2 : ℕ = suc m3 in
    let m1 : ℕ = 4 + length c.vector + m2 in
    rw
      (
        next_field-filled [] key
            (4 + length key + 4 + length c.vector + 1 + 4 + length ns + 4 + length metric + 8) m1
            (omega arith),
        next_field-filled (field key) c.vector m1 m2 refl,
        next_byte-filled (field key ++ field c.vector) (vector_flags c.worm c.is_async) m2 m3 refl
            (vector_flags-lt c.worm c.is_async),
        next_field-filled ((field key ++ field c.vector) ++ (vector_flags c.worm c.is_async ∷ []))
            ns m3 m4 refl,
        next_field-filled
            (((field key ++ field c.vector) ++ (vector_flags c.worm c.is_async ∷ [])) ++ field ns)
            metric m4 m5 refl,
        next_uint64-filled
            ((((field key ++ field c.vector) ++ (vector_flags c.worm c.is_async ∷ [])) ++ field ns)
              ++ field metric)
            c.timestamp m5 0 refl,
      )
      (ap ok (simp (append-nil, append_assoc)))

pub length-item_bytes :
    (it : BulkItem)
    → length (item_bytes it) ≡ 4 + length (encode_utf8 it.key) + 4 + length it.vector + 8
length-item_bytes it = omega (
  arith,
  length-append (field (encode_utf8 it.key)) (field it.vector ++ be64 it.timestamp),
  length-field (encode_utf8 it.key),
  length-append (field it.vector) (be64 it.timestamp),
  length-field it.vector,
  length-be64 it.timestamp,
)

items_size-bytes :
    (size : ℕ) (items : List BulkItem) → items_size size items ≡ size + length (items_bytes items)
unfolding items_size
items_size-bytes size [] = omega arith
items_size-bytes size (it ∷ items) = omega (
  arith,
  items_size-bytes (size + (4 + length (encode_utf8 it.key) + 4 + length it.vector + 8)) items,
  length-append (item_bytes it) (items_bytes items),
  length-item_bytes it,
)

write_items-filled :
    (items : List BulkItem) (front : Bytes) (m n : ℕ)
    → m ≡ length (items_bytes items) + n
    → write_items items (filled front m) ≡ ok (filled (front ++ items_bytes items) n)
unfolding write_items
write_items-filled [] front m n e = ap ok (ap₂ filled (sym (append-nil front)) (omega arith))
write_items-filled (it ∷ items) front m n e =
    let key = encode_utf8 it.key in
    let m3 : ℕ = length (items_bytes items) + n in
    let m2 : ℕ = 8 + m3 in
    let m1 : ℕ = 4 + length it.vector + m2 in
    rw
      (
        next_field-filled front key m m1 (
            omega (arith, length-append (item_bytes it) (items_bytes items), length-item_bytes it)),
        next_field-filled (front ++ field key) it.vector m1 m2 refl,
        next_uint64-filled ((front ++ field key) ++ field it.vector) it.timestamp m2 m3 refl,
        write_items-filled items (((front ++ field key) ++ field it.vector) ++ be64 it.timestamp) m3
            n refl,
      )
      (ap (λ bs. ok (filled bs n)) (simp append_assoc))

pub encode_vbulkinsert-payload :
    (c : VectorBulk) → encode_vbulkinsert c ≡ ok (vbulkinsert_payload c)
unfolding encode_vbulkinsert
encode_vbulkinsert-payload c =
    let ns = encode_utf8 c.namespace in
    let metric = encode_utf8 (metric_name c.metric) in
    let m4 : ℕ = length (items_bytes c.items) in
    let m3 : ℕ = 4 + m4 in
    let m2 : ℕ = suc m3 in
    let m1 : ℕ = 4 + length metric + m2 in
    rw
      (
        next_field-filled [] ns (items_size (4 + length ns + 4 + length metric + 1 + 4) c.items) m1
            (omega (arith, items_size-bytes (4 + length ns + 4 + length metric + 1 + 4) c.items)),
        next_field-filled (field ns) metric m1 m2 refl,
        next_byte-filled (field ns ++ field metric) (vector_flags c.worm c.is_async) m2 m3 refl
            (vector_flags-lt c.worm c.is_async),
        next_uint32-filled ((field ns ++ field metric) ++ (vector_flags c.worm c.is_async ∷ []))
            (length c.items) m3 m4 refl,
        write_items-filled c.items
            (((field ns ++ field metric) ++ (vector_flags c.worm c.is_async ∷ []))
              ++ be32 (length c.items))
            m4 0 (omega arith),
      )
      (ap ok (simp (append-nil, append_assoc)))
