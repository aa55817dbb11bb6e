-- ===== src/Browser.antt =====
-- The WormWire encoder and decoder of the browser client, apps/browser/src/wire.ts. The command and
-- response codes are those of the other client.
pub mod Laws
pub mod Decoder
pub mod Client
mod Tests
use wormdb.Base.{
  if◌then◌else◌, Bool, ◌>>=◌, ◌∙◌, ℕ, zero, suc, ◌+◌, ◌≡◌, refl, inl, inr, true, false, [], ◌∷◌,
  ◌++◌, none, some, arith, ◌⊎◌, ◌<◌, ◌≤◌, List, JsString, Result, map, ◌/◌, length, ◌%◌, ok, ltb,
  ◌==◌,
}
use wormdb.Text.{codes, encode_utf8, decode_utf8}
use wormdb.Wire.CommandCode
use wormdb.Wire.Bytes.{Bytes, write_uint32_be, read_uint32_be, put, zeros, subarray}
use wormdb.Wire.Encode.{store, next_field, next_uint32, args_size, write_args}

-- A response in the browser: a value is `value` where the other client has `bulk`.
pub data BrowserResponse : Type 0 where
  ok_reply null_reply : BrowserResponse
  error_reply value_reply : JsString → BrowserResponse
  event_reply : JsString → JsString → BrowserResponse

pub frame : ℕ → Bytes → Result Bytes
frame code payload = do
  let out = store (zeros (5 + length payload)) 0 code
  out ← write_uint32_be out 1 (length payload)
  put out 5 payload

pub len_prefixed_bytes : Bytes → Result Bytes
len_prefixed_bytes data' = do
  out ← write_uint32_be (zeros (4 + length data')) 0 (length data')
  put out 4 data'

pub len_prefixed : JsString → Result Bytes
len_prefixed s = len_prefixed_bytes (encode_utf8 s)

pub encode_get : JsString → Result Bytes
encode_get key = do payload ← len_prefixed key; frame CommandCode.get payload

-- `writeU32BE(payload, off, buf.length); off += 4; payload.set(buf, off); off += buf.length;` is
-- next_field.
pub set_payload : Bytes → Bytes → Bool → Result Bytes
set_payload key value worm = do
  let payload =
      store (zeros (1 + 4 + length key + 4 + length value)) 0 (if worm then 0x01 else 0x00)
  at ← next_field key (payload, 1)
  (out, _) ← next_field value at
  ok out

pub browser_set : JsString → JsString → Bool → Result Bytes
browser_set key value worm = do
  payload ← set_payload (encode_utf8 key) (encode_utf8 value) worm
  frame CommandCode.set payload

pub encode_del : JsString → Result Bytes
encode_del key = do payload ← len_prefixed key; frame CommandCode.del payload

pub encode_status : Result Bytes
encode_status = frame CommandCode.status (zeros 0)

pub browser_sub : JsString → Result Bytes
browser_sub channel = do payload ← len_prefixed channel; frame CommandCode.sub payload

pub encode_unsub : JsString → Result Bytes
encode_unsub channel = do payload ← len_prefixed channel; frame CommandCode.unsub payload

pub pub_payload : Bytes → Bytes → Result Bytes
pub_payload channel message = do
  at ← next_field channel (zeros (4 + length channel + 4 + length message), 0)
  (out, _) ← next_field message at
  ok out

pub encode_pub : JsString → JsString → Result Bytes
encode_pub channel message = do
  payload ← pub_payload (encode_utf8 channel) (encode_utf8 message)
  frame CommandCode.publish payload

pub exec_payload : Bytes → List Bytes → Result Bytes
exec_payload proc args = do
  at ← next_field proc (zeros (args_size (4 + length proc + 4) args), 0)
  at ← next_uint32 (length args) at
  (payload, _) ← write_args args at
  ok payload

pub browser_exec : JsString → List JsString → Result Bytes
browser_exec procedure args = do
  payload ← exec_payload (encode_utf8 procedure) (map encode_utf8 args)
  frame CommandCode.exec payload

pub browser_auth : Bytes → Result Bytes
browser_auth token = do payload ← len_prefixed_bytes token; frame CommandCode.auth payload

-- `code.toString(16)`
pub hex_digit : ℕ → ℕ
hex_digit n = if ltb n 10 then 48 + n else 87 + n

pub hex_loop : ℕ → ℕ → JsString
hex_loop zero n = []
hex_loop (suc fuel) n =
    let rest = hex_loop fuel (n / 16) ++ (hex_digit (n % 16) ∷ []) in
    if ltb n 16 then hex_digit n ∷ [] else rest

abbrev pub bad_event : BrowserResponse
bad_event = error_reply (codes "malformed event")

pub event_of : Bytes → Result BrowserResponse
event_of payload = if ltb (length payload) 8 then ok bad_event else (do
  ch_len ← read_uint32_be payload 0
  let ch_end = 4 + ch_len
  if ltb (length payload) (ch_end + 4) then ok bad_event else (do
    msg_len ← read_uint32_be payload ch_end
    let msg_start = ch_end + 4
    let msg_end = msg_start + msg_len
    if ltb (length payload) msg_end
        then ok bad_event
        else ok (
            event_reply (decode_utf8 (subarray payload 4 ch_end))
              (decode_utf8 (subarray payload msg_start msg_end)))))

pub reply_of : ℕ → Bytes → Result BrowserResponse
reply_of code payload =
    if code == 0x00
    then ok ok_reply
    else if code == 0x01
    then ok (value_reply (decode_utf8 payload))
    else if code == 0x02
    then ok null_reply
    else if code == 0x03
    then ok (error_reply (decode_utf8 payload))
    else if code == 0x04
    then event_of payload
    else ok (error_reply (codes "unknown response code: 0x" ++ hex_loop (suc code) code))

-- `data[0]` of data that is not empty.
unfoldable pub first_of : Bytes → ℕ
first_of [] = 0
first_of (b ∷ bs) = b

-- One WebSocket message holds one frame.
pub decode_message : Bytes → Result BrowserResponse
decode_message message =
    if ltb (length message) 5 then ok (error_reply (codes "frame too short")) else (do
      payload_len ← read_uint32_be message 1
      reply_of (first_of message) (subarray message 5 (5 + payload_len)))
