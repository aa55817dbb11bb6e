-- ===== src/Wire/Server/Vectors.antt =====
-- The server's readers of argument lists and of the two vector payloads, on what the client writes.
use wormdb.Base.{
  ◌+◌, ◌*◌, ◌/◌, ◌^◌, ◌<◌, ◌≤◌, ◌≡◌, refl, sym, ap, ◌∙◌, arith, List, [], ◌∷◌, ◌++◌, Bool, true,
  false, length, map, append-nil, append_assoc, length-append, All, le→ltb,
}
use wormdb.Wire.Bytes.{Bytes, be32, be64, length-be32, length-be64}
use wormdb.Wire.Server.{
  parsed, parse_vbulkinsert, read_args, read_items, parse_vinsert, read_u8, finish, check_flags,
  has_flag,
}
use wormdb.Wire.Command.{ParsedCommand, BulkItem, VectorInsert, VectorBulk, metric_name}
use wormdb.Wire.Server.Reads.{
  view_item, server_view, read-field, read_u64-be64, read_u64-be64_last, read_u32-be32,
}
use wormdb.Wire.Encode.{vector_flags, max_payload}
use wormdb.Wire.Format.{
  fields, field, items_bytes, item_bytes, vinsert_payload, vbulkinsert_payload,
}
use wormdb.Wire.Encode.Vectors.{length-field, length-item_bytes}
use wormdb.Text.{encode_utf8}

length-fields-cons :
    (a : Bytes) (as' : List Bytes) → length (fields (a ∷ as')) ≡ 4 + length a + length (fields as')
length-fields-cons a as' = omega (arith, length-append (field a) (fields as'), length-field a)

pub length-fields : (as' : List Bytes) → 4 * length as' ≤ length (fields as')
length-fields [] = omega arith
length-fields (a ∷ as') = omega (arith, length-fields as', length-fields-cons a as')

pub read_args-fields :
    (as' : List Bytes) (rest : Bytes)
    → length (fields as') < 2 ^ 32
    → read_args (length as') (fields as' ++ rest) ≡ parsed (as', rest)
unfolding read_args
read_args-fields [] rest h = refl
read_args-fields (a ∷ as') rest h =
    let e = length-fields-cons a as' in
    rw (
      append_assoc (field a) (fields as') rest,
      read-field a (fields as' ++ rest) (omega arith),
      read_args-fields as' rest (omega arith),
    )

length-items-cons :
    (it : BulkItem) (items : List BulkItem)
    → length (items_bytes (it ∷ items))
      ≡ 16 + length (encode_utf8 it.key) + length it.vector + length (items_bytes items)
length-items-cons it items =
    omega (arith, length-append (item_bytes it) (items_bytes items), length-item_bytes it)

length-items_bytes : (items : List BulkItem) → 16 * length items ≤ length (items_bytes items)
length-items_bytes [] = omega arith
length-items_bytes (it ∷ items) =
    omega (arith, length-items_bytes items, length-items-cons it items)

read_items-bytes :
    (items : List BulkItem) (rest : Bytes)
    → All (λ it. it.timestamp < 2 ^ 64) items
    → length (items_bytes items) < 2 ^ 32
    → read_items (length items) (items_bytes items ++ rest) ≡ parsed (map view_item items, rest)
unfolding read_items
read_items-bytes [] rest a h = refl
read_items-bytes (it ∷ items) rest (a, as') h =
    let e = length-items-cons it items in
    let key = encode_utf8 it.key in
    rw (
      append_assoc (item_bytes it) (items_bytes items) rest,
      append_assoc (field key) (field it.vector ++ be64 it.timestamp) (items_bytes items ++ rest),
      read-field key ((field it.vector ++ be64 it.timestamp) ++ (items_bytes items ++ rest))
          (omega arith),
      append_assoc (field it.vector) (be64 it.timestamp) (items_bytes items ++ rest),
      read-field it.vector (be64 it.timestamp ++ (items_bytes items ++ rest)) (omega arith),
      read_u64-be64 it.timestamp (items_bytes items ++ rest) a,
      read_items-bytes items rest as' (omega arith),
    )

flags_accepted : (worm is_async : Bool) → check_flags (vector_flags worm is_async) 0xfc ≡ parsed tt
unfolding vector_flags
flags_accepted true true = refl
flags_accepted true false = refl
flags_accepted false true = refl
flags_accepted false false = refl

flags_worm : (worm is_async : Bool) → has_flag (vector_flags worm is_async) 0x01 ≡ worm
unfolding vector_flags
flags_worm true true = refl
flags_worm true false = refl
flags_worm false true = refl
flags_worm false false = refl

flags_async : (worm is_async : Bool) → has_flag (vector_flags worm is_async) 0x02 ≡ is_async
unfolding vector_flags
flags_async true true = refl
flags_async true false = refl
flags_async false true = refl
flags_async false false = refl

pub parse_vinsert-payload :
    (c : VectorInsert)
    → c.timestamp < 2 ^ 64
    → length (vinsert_payload c) ≤ max_payload
    → parse_vinsert (vinsert_payload c) ≡ parsed (server_view (ParsedCommand.vinsert c))
unfolding parse_vinsert read_u8 finish
parse_vinsert-payload c t h =
    let key = encode_utf8 c.key in
    let ns = encode_utf8 c.namespace in
    let metric = encode_utf8 (metric_name c.metric) in
    let r4 : Bytes = field metric ++ be64 c.timestamp in
    let r3 : Bytes = field ns ++ r4 in
    let r2 : Bytes = (vector_flags c.worm c.is_async ∷ []) ++ r3 in
    let r1 : Bytes = field c.vector ++ r2 in
    let s1 : length (vinsert_payload c) ≡ 4 + length key + length r1 =
      omega (arith, length-append (field key) r1, length-field key) in
    let s2 : length r1 ≡ 4 + length c.vector + length r2 =
      omega (arith, length-append (field c.vector) r2, length-field c.vector) in
    let s3 : length r3 ≡ 4 + length ns + length r4 =
      omega (arith, length-append (field ns) r4, length-field ns) in
    let s4 : length r4 ≡ 4 + length metric + 8 = omega (
      arith,
      length-append (field metric) (be64 c.timestamp),
      length-field metric,
      length-be64 c.timestamp,
    ) in
    rw (
      read-field key r1 (omega arith),
      read-field c.vector r2 (omega arith),
      flags_accepted c.worm c.is_async,
      flags_worm c.worm c.is_async,
      flags_async c.worm c.is_async,
      read-field ns r4 (omega arith),
      read-field metric (be64 c.timestamp) (omega arith),
      read_u64-be64_last c.timestamp t,
    )

pub parse_vbulkinsert-payload :
    (c : VectorBulk)
    → All (λ it. it.timestamp < 2 ^ 64) c.items
    → length (vbulkinsert_payload c) ≤ max_payload
    → parse_vbulkinsert (vbulkinsert_payload c) ≡ parsed (server_view (ParsedCommand.vbulkinsert c))
unfolding parse_vbulkinsert read_u8 finish
parse_vbulkinsert-payload c t h =
    let ns = encode_utf8 c.namespace in
    let metric = encode_utf8 (metric_name c.metric) in
    let r3 : Bytes = be32 (length c.items) ++ items_bytes c.items in
    let r2 : Bytes = (vector_flags c.worm c.is_async ∷ []) ++ r3 in
    let r1 : Bytes = field metric ++ r2 in
    let s1 : length (vbulkinsert_payload c) ≡ 4 + length ns + length r1 =
      omega (arith, length-append (field ns) r1, length-field ns) in
    let s2 : length r1 ≡ 4 + length metric + length r2 =
      omega (arith, length-append (field metric) r2, length-field metric) in
    let s3 : length r3 ≡ 4 + length (items_bytes c.items) = omega (
      arith,
      length-append (be32 (length c.items)) (items_bytes c.items),
      length-be32 (length c.items),
    ) in
    let s4 : 16 * length c.items ≤ length (items_bytes c.items) = length-items_bytes c.items in
    rw (
      read-field ns r1 (omega arith),
      read-field metric r2 (omega arith),
      flags_accepted c.worm c.is_async,
      flags_worm c.worm c.is_async,
      flags_async c.worm c.is_async,
      read_u32-be32 (length c.items) (items_bytes c.items) (omega arith),
      le→ltb (length (items_bytes c.items) / 16) (length c.items) (omega arith),
      ap (read_items (length c.items)) (sym (append-nil (items_bytes c.items)))
          ∙ read_items-bytes c.items [] t (omega arith),
    )
