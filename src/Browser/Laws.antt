-- ===== src/Browser/Laws.antt =====
-- The browser's encoder and decoder against the frame format of the other client and the server.
use wormdb.Base.{
  ◌∙◌, ℕ, ◌+◌, ◌≡◌, refl, [], ◌∷◌, ◌++◌, none, arith, ◌<◌, ok, length, ap, append-nil, List,
  JsString, Bool, append_assoc, map, sym,
}
use wormdb.Browser.{
  frame, len_prefixed_bytes, len_prefixed, encode_get, set_payload, browser_set, encode_del,
  encode_status, browser_sub, encode_unsub, pub_payload, encode_pub, exec_payload, browser_exec,
  browser_auth,
}
use wormdb.Wire.CommandCode
use wormdb.Wire.Encode.{fill_frame, encode_len_prefixed, encode_exec, worm_flag}
use wormdb.Wire.Encode.Correct.{fill_frame-bytes, length-map}
use wormdb.Wire.Encode.Payloads.{encode_len_prefixed-field, encode_exec-fields}
use wormdb.Wire.Encode.Filling.{next_field-filled, store_next, worm_flag-lt}
use wormdb.Wire.Format.{frame_bytes, field, fields, code_of, payload_of}
use wormdb.Wire.Bytes.{Bytes, be32}
use wormdb.Text.{encode_utf8}
use wormdb.Wire.Command.{get, del, unsub, sub, status, set, publish}

frame-bytes :
    (code : ℕ) (payload : Bytes) → code < 256 → frame code payload ≡ ok (frame_bytes code payload)
unfolding frame fill_frame
frame-bytes code payload h = fill_frame-bytes code payload h

len_prefixed_bytes-field : (bytes : Bytes) → len_prefixed_bytes bytes ≡ ok (field bytes)
unfolding len_prefixed_bytes encode_len_prefixed
len_prefixed_bytes-field bytes = encode_len_prefixed-field bytes

len_prefixed-field : (s : JsString) → len_prefixed s ≡ ok (field (encode_utf8 s))
unfolding len_prefixed len_prefixed_bytes encode_len_prefixed
len_prefixed-field s = encode_len_prefixed-field (encode_utf8 s)

pub_payload-fields : (a b : Bytes) → pub_payload a b ≡ ok (field a ++ field b)
unfolding pub_payload
pub_payload-fields a b =
    rw
      (
        next_field-filled [] a (4 + length a + 4 + length b) (4 + length b) (omega arith),
        next_field-filled (field a) b (4 + length b) 0 (omega arith),
      )
      (ap ok (append-nil (field a ++ field b)))

set_payload-fields :
    (a b : Bytes) (worm : Bool)
    → set_payload a b worm ≡ ok ((worm_flag worm ∷ []) ++ (field a ++ field b))
unfolding set_payload worm_flag
set_payload-fields a b worm =
    rw
      (
        store_next [] 0 (worm_flag worm) (1 + 4 + length a + 4 + length b)
            (4 + length a + 4 + length b) refl (omega arith) (worm_flag-lt worm),
        next_field-filled (worm_flag worm ∷ []) a (4 + length a + 4 + length b) (4 + length b)
            (omega arith),
        next_field-filled ((worm_flag worm ∷ []) ++ field a) b (4 + length b) 0 (omega arith),
      )
      (ap ok (simp (append-nil, append_assoc)))

exec_payload-fields :
    (proc : Bytes) (args : List Bytes)
    → exec_payload proc args ≡ ok (field proc ++ (be32 (length args) ++ fields args))
unfolding exec_payload encode_exec
exec_payload-fields proc args = encode_exec-fields proc args

-- Each of the browser's encoders returns the frame that the format prescribes for its command,
-- whatever the strings: the same bytes as the other client's encoder, which refuses payloads over
-- 16 MiB where these do not.
pub browser_encoders-frame_bytes :
    (a b : JsString) (worm : Bool) (args : List JsString) (token : Bytes)
    → (encode_get a ≡ ok (frame_bytes (code_of (get a)) (payload_of (get a))))
      × (encode_del a ≡ ok (frame_bytes (code_of (del a)) (payload_of (del a))))
      × (encode_unsub a ≡ ok (frame_bytes (code_of (unsub a)) (payload_of (unsub a))))
      × (browser_sub a ≡ ok (frame_bytes (code_of (sub a none)) (payload_of (sub a none))))
      × (encode_status ≡ ok (frame_bytes (code_of status) (payload_of status)))
      × (browser_set a b worm
          ≡ ok (frame_bytes (code_of (set a b worm)) (payload_of (set a b worm))))
      × (encode_pub a b ≡ ok (frame_bytes (code_of (publish a b)) (payload_of (publish a b))))
      × (browser_exec a args
          ≡ ok (
              frame_bytes CommandCode.exec
                (field (encode_utf8 a) ++ (be32 (length args) ++ fields (map encode_utf8 args)))))
      × (browser_auth token ≡ ok (frame_bytes CommandCode.auth (field token)))
unfolding encode_get encode_del encode_unsub browser_sub encode_status browser_set encode_pub
    browser_exec browser_auth
browser_encoders-frame_bytes a b worm args token = (
  rw (len_prefixed-field a) (frame-bytes CommandCode.get _ (omega arith)),
  rw (len_prefixed-field a) (frame-bytes CommandCode.del _ (omega arith)),
  rw (len_prefixed-field a) (frame-bytes CommandCode.unsub _ (omega arith)),
  rw (len_prefixed-field a) (
      frame-bytes CommandCode.sub _ (omega arith)
      ∙ ap (λ p. ok (frame_bytes CommandCode.sub p)) (sym (append-nil (field (encode_utf8 a))))),
  frame-bytes CommandCode.status [] (omega arith),
  rw (set_payload-fields (encode_utf8 a) (encode_utf8 b) worm)
      (frame-bytes CommandCode.set _ (omega arith)),
  rw (pub_payload-fields (encode_utf8 a) (encode_utf8 b))
      (frame-bytes CommandCode.publish _ (omega arith)),
  rw (exec_payload-fields (encode_utf8 a) (map encode_utf8 args), length-map encode_utf8 args)
      (frame-bytes CommandCode.exec _ (omega arith)),
  rw (len_prefixed_bytes-field token) (frame-bytes CommandCode.auth (field token) (omega arith)),
)
