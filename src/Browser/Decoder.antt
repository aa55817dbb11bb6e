-- ===== src/Browser/Decoder.antt =====
-- The decoder of apps/browser/src/wire.ts against that of the other client and the writer of the
-- server, src/protocol/wire.zig.
use wormdb.Base.{
  ◌∙◌, ℕ, ◌+◌, ◌≡◌, refl, inl, inr, [], ◌∷◌, ◌++◌, none, some, arith, ◌<◌, ◌≤◌, Result, ok, err,
  Bool-cases, length, ◌^◌, ltb, ap, length-append, sym, append-nil, some-inj, append_assoc, le→ltb,
}
use wormdb.Wire.Response.{
  Response, decode_event, WormResponse, event, value, err_response, event_message, ok_response,
  write_response,
}
use wormdb.Browser.{
  first_of, event_of, decode_message, BrowserResponse, ok_reply, event_reply, value_reply,
  bad_event, null_reply, error_reply, reply_of,
}
use wormdb.Text.{decode_utf8}
use wormdb.Wire.Bytes.{Bytes, be32, length-be32, subarray}
use wormdb.Wire.Response.Laws.{
  Sized, read_uint32_be_inside, write_event, decode_event-fields, subarray-middle,
  read_uint32_be-be32,
}
use wormdb.Wire.Format.{field, frame_bytes}
use wormdb.Wire.Server.RoundTrip.{length-two}

-- An event, or a malformed one, as the browser sees it.
abbrev event_view : Result WormResponse → Result BrowserResponse
event_view (ok (event channel message)) = ok (event_reply channel message)
event_view (ok r) = ok bad_event
event_view (err e) = err e

event_of-decode_event : (payload : Bytes) → event_of payload ≡ event_view (decode_event payload)
unfolding event_of decode_event
event_of-decode_event payload = elim (Bool-cases (ltb (length payload) 8)) [
  | inl short ↦ rw short
  | inr l ↦
      let (n, e) = read_uint32_be_inside payload 0 (ground arith) in
      elim (Bool-cases (ltb (length payload) (4 + n + 4))) [
        | inl cut ↦ rw (l, e, cut)
        | inr l' ↦
            let (m, e') = read_uint32_be_inside payload (4 + n) (ground arith) in
            elim (Bool-cases (ltb (length payload) (4 + n + 4 + m))) [
              | inl cut ↦ rw (l, e, l', e', cut)
              | inr l'' ↦ rw (l, e, l', e', l'')
            ]
      ]
]

-- What the browser makes of the server's answer.
abbrev pub browser_view : Response → BrowserResponse
browser_view ok_response = ok_reply
browser_view (value (some val)) = value_reply (decode_utf8 val)
browser_view (value none) = null_reply
browser_view (err_response msg) = error_reply (decode_utf8 msg)
browser_view (event_message channel message) =
    event_reply (decode_utf8 channel) (decode_utf8 message)

decode_message-frame_bytes :
    (code : ℕ) (payload : Bytes)
    → length payload < 2 ^ 32
    → decode_message (frame_bytes code payload) ≡ reply_of code payload
unfolding decode_message first_of
decode_message-frame_bytes code payload h =
    let long : 5 ≤ length (frame_bytes code payload) =
      omega (arith, length-append (be32 (length payload)) payload, length-be32 (length payload)) in
    let taken : subarray (frame_bytes code payload) 5 (5 + length payload) ≡ payload =
      ap (λ b. subarray b 5 (5 + length payload))
        (sym (append-nil (frame_bytes code payload))
          ∙ append_assoc (code ∷ be32 (length payload)) payload [])
      ∙ subarray-middle (code ∷ be32 (length payload)) payload [] 5 (5 + length payload)
          (omega (arith, length-be32 (length payload))) refl in
    rw (
      le→ltb (length (frame_bytes code payload)) 5 long,
      read_uint32_be-be32 (code ∷ []) 1 (length payload) payload refl h,
      taken,
    )

reply_of-event :
    (channel message : Bytes)
    → length channel < 2 ^ 32
    → length message < 2 ^ 32
    → reply_of 0x04 (field channel ++ field message)
      ≡ ok (event_reply (decode_utf8 channel) (decode_utf8 message))
unfolding reply_of
reply_of-event channel message h k =
    let payload = field channel ++ field message in
    event_of-decode_event payload
    ∙ ap event_view (
        ap (λ b. decode_event (field channel ++ b)) (sym (append-nil (field message)))
        ∙ decode_event-fields channel message [] h k)

read_as :
    (code : ℕ) (payload : Bytes) {bytes : Bytes} {r : BrowserResponse}
    → length payload < 2 ^ 32
    → some (frame_bytes code payload) ≡ some bytes
    → reply_of code payload ≡ ok r
    → decode_message bytes ≡ ok r
read_as code payload h e f =
    ap decode_message (sym (some-inj e)) ∙ decode_message-frame_bytes code payload h ∙ f

-- A message that holds a frame which the server writes, the browser decodes to what the server
-- meant. A value and an error message are shorter than 2^32 bytes.
pub decode_message-write_response :
    (r : Response) (bytes : Bytes)
    → Sized r
    → write_response r ≡ some bytes
    → decode_message bytes ≡ ok (browser_view r)
unfolding reply_of be32
decode_message-write_response ok_response bytes s e =
    read_as 0x00 [] (omega arith) (unfold write_response in e) refl
decode_message-write_response (value (some val)) bytes s e =
    read_as 0x01 val s (unfold write_response in e) refl
decode_message-write_response (value none) bytes s e =
    read_as 0x02 [] (omega arith) (unfold write_response in e) refl
decode_message-write_response (err_response msg) bytes s e =
    read_as 0x03 msg s (unfold write_response in e) refl
decode_message-write_response (event_message channel message) bytes s e =
    let (small, same) = write_event channel message e in
    let l = length-two channel message in
    read_as 0x04 (field channel ++ field message) (omega arith) same
      (reply_of-event channel message (omega (arith, l)) (omega (arith, l)))
