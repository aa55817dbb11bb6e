-- ===== src/Wire/Response.antt =====
-- Responses: WormResponse of apps/bun/src/lib/protocol.ts, decodeResponse of
-- apps/bun/src/lib/wire.ts, and the server's writeResponse of src/protocol/wire.zig.
pub mod Laws
use wormdb.Base.{
  Option, Result, ok, err, Bool, ltb, ◌==◌, length, if◌then◌else◌, JsString, ◌>>=◌, ◌∙◌, ℕ, zero,
  suc, ◌+◌, ◌≡◌, refl, inl, inr, true, false, [], ◌∷◌, ◌++◌, none, some, arith, ◌⊎◌, ◌<◌, ◌≤◌,
}
use wormdb.Text.{decode_utf8, codes, decimal}
use wormdb.Wire.Bytes.{Bytes, read_uint32_be, subarray, be32}

-- `{ type: "ok" }` is `done`.
pub data WormResponse : Type 0 where
  done null : WormResponse
  error bulk : JsString → WormResponse
  event : JsString → JsString → WormResponse

abbrev pub malformed_event : WormResponse
malformed_event = error (codes "Malformed event response")

unfoldable pub is_event_code : ℕ → Bool
is_event_code code = code == 0x04

-- The case ResponseCode.Event.
unfoldable pub decode_event : Bytes → Result WormResponse
decode_event payload = if ltb (length payload) 8 then ok malformed_event else (do
  channel_len ← read_uint32_be payload 0
  if ltb (length payload) (4 + channel_len + 4) then ok malformed_event else (do
    let channel_end = 4 + channel_len
    msg_len ← read_uint32_be payload channel_end
    let msg_start = channel_end + 4
    let msg_end = msg_start + msg_len
    if ltb (length payload) msg_end
        then ok malformed_event
        else ok (
            event (decode_utf8 (subarray payload 4 channel_end))
              (decode_utf8 (subarray payload msg_start msg_end)))))

pub decode_response : ℕ → Bytes → Result WormResponse
decode_response code payload =
    if code == 0x00
    then ok done
    else if code == 0x01
    then ok (bulk (decode_utf8 payload))
    else if code == 0x02
    then ok null
    else if code == 0x03
    then ok (error (decode_utf8 payload))
    else if code == 0x04
    then decode_event payload
    else ok (error (codes "Unknown response code: " ++ decimal code))

-- The server's side.
pub data Response : Type 0 where
  ok_response : Response
  value : Option Bytes → Response
  err_response : Bytes → Response
  event_message : Bytes → Bytes → Response

-- `writeHeader` and `writeLenPrefixed`.
pub write_header : ℕ → ℕ → Bytes
write_header code payload_len = code ∷ be32 payload_len

pub write_len_prefixed : Bytes → Bytes
write_len_prefixed bytes = be32 (length bytes) ++ bytes

-- `none` is error.PayloadTooLarge.
unfoldable pub write_response : Response → Option Bytes
unfolding write_header write_len_prefixed
write_response ok_response = some (write_header 0x00 0)
write_response (value (some val)) = some (write_header 0x01 (length val) ++ val)
write_response (value none) = some (write_header 0x02 0)
write_response (err_response msg) = some (write_header 0x03 (length msg) ++ msg)
write_response (event_message channel message) =
    let payload_len = 4 + length channel + (4 + length message) in
    if ltb 16777216 payload_len
    then none
    else some (
        write_header 0x04 payload_len ++ (write_len_prefixed channel ++ write_len_prefixed message))
