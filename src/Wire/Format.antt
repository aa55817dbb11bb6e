-- ===== src/Wire/Format.antt =====
-- The WormWire frame format as concatenations, as docs/protocol/index.md and
-- docs/protocol/commands.md describe it.
use wormdb.Base.{
  ℕ, List, [], ◌∷◌, ◌++◌, Option, none, some, ltb, if◌then◌else◌, length, map, Result, ok, err,
  payload_too_large, JsString,
}
use wormdb.Text.{encode_utf8}
use wormdb.Wire.Bytes.{Bytes, be32, be64}
use wormdb.Wire.Command.{
  Arg, text, raw, ParsedCommand, VectorInsert, BulkItem, VectorBulk, metric_name, get, del, sub,
  unsub, status, cluster_status, cluster_peers, set, publish, exec, vinsert, vbulkinsert,
}
use wormdb.Wire.CommandCode
use wormdb.Wire.Encode.{max_payload, worm_flag, vector_flags}

-- A filter that is given and not empty.
abbrev pub given_filter : Option JsString → Option Bytes
given_filter (some (c ∷ s)) = some (encode_utf8 (c ∷ s))
given_filter _ = none

-- Text as UTF-8, and bytes as they are.
abbrev pub plain_bytes : Arg → Bytes
plain_bytes (text s) = encode_utf8 s
plain_bytes (raw bytes) = bytes

-- [4B length][bytes]
abbrev pub field : Bytes → Bytes
field bytes = be32 (length bytes) ++ bytes

abbrev pub fields : List Bytes → Bytes
fields [] = []
fields (b ∷ bs) = field b ++ fields bs

abbrev pub item_bytes : BulkItem → Bytes
item_bytes it = field (encode_utf8 it.key) ++ (field it.vector ++ be64 it.timestamp)

abbrev pub items_bytes : List BulkItem → Bytes
items_bytes [] = []
items_bytes (it ∷ items) = item_bytes it ++ items_bytes items

abbrev pub optional_field : Option Bytes → Bytes
optional_field none = []
optional_field (some b) = field b

abbrev pub vinsert_payload : VectorInsert → Bytes
vinsert_payload c =
    field (encode_utf8 c.key)
    ++ (field c.vector
        ++ ((vector_flags c.worm c.is_async ∷ [])
            ++ (field (encode_utf8 c.namespace)
                ++ (field (encode_utf8 (metric_name c.metric)) ++ be64 c.timestamp))))

abbrev pub vbulkinsert_payload : VectorBulk → Bytes
vbulkinsert_payload c =
    field (encode_utf8 c.namespace)
    ++ (field (encode_utf8 (metric_name c.metric))
        ++ ((vector_flags c.worm c.is_async ∷ [])
            ++ (be32 (length c.items) ++ items_bytes c.items)))

abbrev pub payload_of : ParsedCommand → Bytes
payload_of (get key) = field (encode_utf8 key)
payload_of (del key) = field (encode_utf8 key)
payload_of (sub channel filter) =
    field (encode_utf8 channel) ++ optional_field (given_filter filter)
payload_of (unsub channel) = field (encode_utf8 channel)
payload_of status = []
payload_of cluster_status = []
payload_of cluster_peers = []
payload_of (set key value worm) =
    (worm_flag worm ∷ []) ++ (field (encode_utf8 key) ++ field (encode_utf8 value))
payload_of (publish channel message) = field (encode_utf8 channel) ++ field (encode_utf8 message)
payload_of (exec procedure args) =
    field (encode_utf8 procedure) ++ (be32 (length args) ++ fields (map plain_bytes args))
payload_of (vinsert c) = vinsert_payload c
payload_of (vbulkinsert c) = vbulkinsert_payload c

abbrev pub code_of : ParsedCommand → ℕ
code_of (get _) = CommandCode.get
code_of (del _) = CommandCode.del
code_of (sub _ _) = CommandCode.sub
code_of (unsub _) = CommandCode.unsub
code_of status = CommandCode.status
code_of cluster_status = CommandCode.cluster_status
code_of cluster_peers = CommandCode.cluster_peers
code_of (set _ _ _) = CommandCode.set
code_of (publish _ _) = CommandCode.publish
code_of (exec _ _) = CommandCode.exec
code_of (vinsert _) = CommandCode.vinsert
code_of (vbulkinsert _) = CommandCode.vbulkinsert

-- [1B code][4B payload length][payload]
abbrev pub frame_bytes : ℕ → Bytes → Bytes
frame_bytes code payload = (code ∷ []) ++ (be32 (length payload) ++ payload)

abbrev pub framed : ℕ → Bytes → Result Bytes
framed code payload =
    if ltb max_payload (length payload)
    then err (payload_too_large (length payload))
    else ok (frame_bytes code payload)
