-- ===== src/Wire/Encode.antt =====
-- The encoders of apps/bun/src/lib/wire.ts as they are written: a buffer of the computed size,
-- filled at running offsets.
pub mod Filling
pub mod Payloads
pub mod Vectors
pub mod Correct
use wormdb.Base.{
  ℕ, ◌+◌, ◌%◌, List, [], ◌∷◌, ◌++◌, Bool, Option, none, some, ltb, if◌then◌else◌, length, take,
  drop, map, Result, ok, err, payload_too_large, ◌>>=◌, JsString, ◌∙◌, zero, suc, ◌≡◌, refl, inl,
  inr, true, false, arith, ◌⊎◌, ◌<◌, ◌≤◌,
}
use wormdb.Text.{encode_utf8}
use wormdb.Wire.Bytes.{Bytes, zeros, put, write_uint32_be, write_uint64_be}
use wormdb.Wire.Command.{
  ParsedCommand, Arg, text, raw, VectorInsert, BulkItem, VectorBulk, metric_name, get, del, sub,
  unsub, status, cluster_status, cluster_peers, set, publish, exec, vinsert, vbulkinsert,
}
use wormdb.Wire.CommandCode

abbrev pub max_payload : ℕ
max_payload = 16777216

-- `payload[offset] = value`: the low byte; a write past the end is ignored.
unfoldable pub store : Bytes → ℕ → ℕ → Bytes
store target offset value =
    if ltb offset (length target)
    then take offset target ++ ((value % 256) ∷ drop (offset + 1) target)
    else target

unfoldable pub fill_frame : ℕ → Bytes → Result Bytes
unfolding store
fill_frame code payload = do
  let out = store (zeros (5 + length payload)) 0 code
  out ← write_uint32_be out 1 (length payload)
  put out 5 payload

pub write_frame : ℕ → Bytes → Result Bytes
unfolding fill_frame
write_frame code payload =
    if ltb max_payload (length payload)
    then err (payload_too_large (length payload))
    else fill_frame code payload

unfoldable pub encode_len_prefixed : Bytes → Result Bytes
encode_len_prefixed bytes = do
  out ← write_uint32_be (zeros (4 + length bytes)) 0 (length bytes)
  put out 4 bytes

-- `encodeLenPrefixedUtf8`.
pub encode_len_prefixed_utf8 : JsString → Result Bytes
unfolding encode_len_prefixed
encode_len_prefixed_utf8 value = encode_len_prefixed (encode_utf8 value)

-- Two length-prefixed fields behind `start` bytes, as SET, PUB, VDELETE and a SUB with a filter
-- write them.
pub write_two : Bytes → ℕ → Bytes → Bytes → Result Bytes
write_two payload start a b = do
  payload ← write_uint32_be payload start (length a)
  payload ← put payload (start + 4) a
  let second = start + 4 + length a
  payload ← write_uint32_be payload second (length b)
  put payload (second + 4) b

pub encode_sub : Bytes → Option Bytes → Result Bytes
unfolding write_two encode_len_prefixed
encode_sub channel none = encode_len_prefixed channel
encode_sub channel (some filter) =
    write_two (zeros (4 + length channel + (4 + length filter))) 0 channel filter

-- `command.filter ? encodeUtf8(command.filter) : undefined`: an empty filter counts as none.
unfoldable pub filter_bytes : Option JsString → Option Bytes
filter_bytes none = none
filter_bytes (some []) = none
filter_bytes (some (c ∷ cs)) = some (encode_utf8 (c ∷ cs))

unfoldable pub worm_flag : Bool → ℕ
worm_flag worm = if worm then 0x01 else 0x00

unfoldable pub encode_set : Bytes → Bytes → Bool → Result Bytes
unfolding write_two store worm_flag
encode_set key value worm =
    write_two (store (zeros (1 + 4 + length key + 4 + length value)) 0 (worm_flag worm)) 1 key value

pub encode_pair : Bytes → Bytes → Result Bytes
unfolding write_two
encode_pair a b = write_two (zeros (4 + length a + 4 + length b)) 0 a b

-- A payload being filled, and the offset of its next byte.
abbrev pub Cursor : Type 0
Cursor = Bytes × ℕ

-- `writeUint32BE(payload, off, value); off += 4;`
pub next_uint32 : ℕ → Cursor → Result Cursor
next_uint32 value (payload, off) = do
  payload ← write_uint32_be payload off value
  ok (payload, off + 4)

pub next_uint64 : ℕ → Cursor → Result Cursor
next_uint64 value (payload, off) = do
  payload ← write_uint64_be payload off value
  ok (payload, off + 8)

-- `payload.set(bytes, off); off += bytes.length;`
pub next_bytes : Bytes → Cursor → Result Cursor
next_bytes bytes (payload, off) = do
  payload ← put payload off bytes
  ok (payload, off + length bytes)

-- `payload[off] = flags; off += 1;`
pub next_byte : ℕ → Cursor → Result Cursor
unfolding store
next_byte value (payload, off) = ok (store payload off value, off + 1)

pub next_field : Bytes → Cursor → Result Cursor
unfolding next_uint32 next_bytes
next_field bytes at = do at ← next_uint32 (length bytes) at; next_bytes bytes at

unfoldable pub arg_bytes : Arg → Bytes
arg_bytes (text s) = encode_utf8 s
arg_bytes (raw bytes) = bytes

-- `for (const a of encodedArgs) size += 4 + a.length;`
pub args_size : ℕ → List Bytes → ℕ
args_size size [] = size
args_size size (a ∷ as') = args_size (size + (4 + length a)) as'

pub write_args : List Bytes → Cursor → Result Cursor
unfolding next_field
write_args [] at = ok at
write_args (a ∷ as') at = do at ← next_field a at; write_args as' at

unfoldable pub encode_exec : Bytes → List Bytes → Result Bytes
unfolding args_size next_field next_uint32 write_args
encode_exec proc args = do
  at ← next_field proc (zeros (args_size (4 + length proc + 4) args), 0)
  at ← next_uint32 (length args) at
  (payload, _) ← write_args args at
  ok payload

-- `flags |= 0x01` if WORM, then `flags |= 0x02` if async.
unfoldable pub vector_flags : Bool → Bool → ℕ
vector_flags worm is_async = (if worm then 0x01 else 0) + (if is_async then 0x02 else 0)

pub encode_vinsert : VectorInsert → Result Bytes
encode_vinsert c = do
  let key = encode_utf8 c.key
  let ns = encode_utf8 c.namespace
  let metric = encode_utf8 (metric_name c.metric)
  let size = 4 + length key + 4 + length c.vector + 1 + 4 + length ns + 4 + length metric + 8
  at ← next_field key (zeros size, 0)
  at ← next_field c.vector at
  at ← next_byte (vector_flags c.worm c.is_async) at
  at ← next_field ns at
  at ← next_field metric at
  (payload, _) ← next_uint64 c.timestamp at
  ok payload

pub items_size : ℕ → List BulkItem → ℕ
items_size size [] = size
items_size size (it ∷ items) =
    items_size (size + (4 + length (encode_utf8 it.key) + 4 + length it.vector + 8)) items

pub write_items : List BulkItem → Cursor → Result Cursor
unfolding next_field next_uint64
write_items [] at = ok at
write_items (it ∷ items) at = do
  at ← next_field (encode_utf8 it.key) at
  at ← next_field it.vector at
  at ← next_uint64 it.timestamp at
  write_items items at

pub encode_vbulkinsert : VectorBulk → Result Bytes
encode_vbulkinsert c = do
  let ns = encode_utf8 c.namespace
  let metric = encode_utf8 (metric_name c.metric)
  at ← next_field ns (zeros (items_size (4 + length ns + 4 + length metric + 1 + 4) c.items), 0)
  at ← next_field metric at
  at ← next_byte (vector_flags c.worm c.is_async) at
  at ← next_uint32 (length c.items) at
  (payload, _) ← write_items c.items at
  ok payload

pub encode_command_frame : ParsedCommand → Result Bytes
unfolding write_frame encode_len_prefixed_utf8 encode_sub filter_bytes encode_set encode_pair
    encode_exec arg_bytes encode_vinsert encode_vbulkinsert
encode_command_frame (get key) = do
  payload ← encode_len_prefixed_utf8 key
  write_frame CommandCode.get payload
encode_command_frame (del key) = do
  payload ← encode_len_prefixed_utf8 key
  write_frame CommandCode.del payload
encode_command_frame (sub channel filter) = do
  payload ← encode_sub (encode_utf8 channel) (filter_bytes filter)
  write_frame CommandCode.sub payload
encode_command_frame (unsub channel) = do
  payload ← encode_len_prefixed_utf8 channel
  write_frame CommandCode.unsub payload
encode_command_frame status = write_frame CommandCode.status (zeros 0)
encode_command_frame cluster_status = write_frame CommandCode.cluster_status (zeros 0)
encode_command_frame cluster_peers = write_frame CommandCode.cluster_peers (zeros 0)
encode_command_frame (set key value worm) = do
  payload ← encode_set (encode_utf8 key) (encode_utf8 value) worm
  write_frame CommandCode.set payload
encode_command_frame (publish channel message) = do
  payload ← encode_pair (encode_utf8 channel) (encode_utf8 message)
  write_frame CommandCode.publish payload
encode_command_frame (exec procedure args) = do
  payload ← encode_exec (encode_utf8 procedure) (map arg_bytes args)
  write_frame CommandCode.exec payload
encode_command_frame (vinsert c) = do
  payload ← encode_vinsert c
  write_frame CommandCode.vinsert payload
encode_command_frame (vbulkinsert c) = do
  payload ← encode_vbulkinsert c
  write_frame CommandCode.vbulkinsert payload

-- AUTH, VDELETE and SAVE.
pub encode_auth : Bytes → Result Bytes
unfolding write_frame encode_len_prefixed
encode_auth token = do payload ← encode_len_prefixed token; write_frame CommandCode.auth payload

pub encode_vdelete : JsString → JsString → Result Bytes
unfolding write_frame encode_pair
encode_vdelete key namespace = do
  payload ← encode_pair (encode_utf8 key) (encode_utf8 namespace)
  write_frame CommandCode.vdelete payload

pub encode_save : Result Bytes
unfolding write_frame
encode_save = write_frame CommandCode.save (zeros 0)
