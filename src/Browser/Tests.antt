-- ===== src/Browser/Tests.antt =====
-- The browser's encoders at concrete commands.
use wormdb.Base.{◌≡◌, true, [], ◌∷◌, ◌++◌, none, JsString, ok}
use wormdb.Wire.CommandCode
use wormdb.Browser.Laws.{browser_encoders-frame_bytes}
use wormdb.Browser.{
  encode_get, encode_del, encode_unsub, browser_sub, encode_status, browser_set, encode_pub,
  browser_exec, browser_auth,
}
use wormdb.Wire.Format.{frame_bytes, code_of, payload_of, field, fields}
use wormdb.Wire.Command.{get, del, unsub, sub, status, set, publish}
use wormdb.Text.{encode_utf8}
use wormdb.Wire.Bytes.{be32}

abbrev a_key : JsString
a_key = 107 ∷ 233 ∷ []

browser_encoders-frame_bytes_example :
    (encode_get a_key ≡ ok (frame_bytes (code_of (get a_key)) (payload_of (get a_key))))
    × (encode_del a_key ≡ ok (frame_bytes (code_of (del a_key)) (payload_of (del a_key))))
    × (encode_unsub a_key ≡ ok (frame_bytes (code_of (unsub a_key)) (payload_of (unsub a_key))))
    × (browser_sub a_key
        ≡ ok (frame_bytes (code_of (sub a_key none)) (payload_of (sub a_key none))))
    × (encode_status ≡ ok (frame_bytes (code_of status) (payload_of status)))
    × (browser_set a_key [] true
        ≡ ok (frame_bytes (code_of (set a_key [] true)) (payload_of (set a_key [] true))))
    × (encode_pub a_key []
        ≡ ok (frame_bytes (code_of (publish a_key [])) (payload_of (publish a_key []))))
    × (browser_exec a_key (a_key ∷ [])
        ≡ ok (
            frame_bytes CommandCode.exec
              (field (encode_utf8 a_key) ++ (be32 1 ++ fields (encode_utf8 a_key ∷ [])))))
    × (browser_auth (1 ∷ 2 ∷ []) ≡ ok (frame_bytes CommandCode.auth (field (1 ∷ 2 ∷ []))))
browser_encoders-frame_bytes_example =
    browser_encoders-frame_bytes a_key [] true (a_key ∷ []) (1 ∷ 2 ∷ [])
