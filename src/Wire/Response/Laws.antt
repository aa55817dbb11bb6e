-- ===== src/Wire/Response/Laws.antt =====
-- Decoding a response, on any input and on what the server writes.
use wormdb.Base.{
  Result, ok, Bool, ltb, ◌==◌, length, if◌then◌else◌, ◌∙◌, ℕ, ◌+◌, ◌≡◌, refl, inl, inr, true, false,
  [], ◌∷◌, ◌++◌, none, some, arith, ◌<◌, ◌≤◌, Bool-cases, drop, length-drop, drop-append, ◌^◌,
  take-append, ◌-◌, le→ltb, length-append, append_assoc, ap, sym, some-inj, append-nil,
}
use wormdb.Text.{decode_utf8}
use wormdb.Wire.Bytes.{
  Bytes, read_uint32_be, subarray, head32, of_be32, be32, head32-be32, length-be32,
}
use wormdb.Wire.Response.{
  WormResponse, decode_event, decode_response, event, malformed_event, write_response, Response,
  value, done, bulk, err_response, null, error, event_message, ok_response,
}
use wormdb.Wire.Format.{field, frame_bytes}
use wormdb.Wire.Encode.Vectors.{length-field}
use wormdb.Wire.Frame.{ParsedFrame, try_consume_frame}
use wormdb.Wire.Frame.Laws.{try_consume_frame-frame_bytes}
use wormdb.Wire.Server.RoundTrip.{length-two}

-- Four bytes at an offset inside the buffer are a number below 2^32.
pub read_uint32_be_inside :
    (b : Bytes) (at : ℕ) → at + 4 ≤ length b → (n : ℕ) × (read_uint32_be b at ≡ ok n)
unfolding read_uint32_be head32
read_uint32_be_inside b at h = header (drop at b) (omega (arith, length-drop at b))
  where
    header : (s : Bytes) → 4 ≤ length s → (n : ℕ) × (head32 s ≡ ok n)
    header [] l = absurd (omega arith)
    header (p ∷ []) l = absurd (omega arith)
    header (p ∷ q ∷ []) l = absurd (omega arith)
    header (p ∷ q ∷ r ∷ []) l = absurd (omega arith)
    header (p ∷ q ∷ r ∷ t ∷ s) l = (of_be32 p q r t, refl)

decode_event_total : (payload : Bytes) → (r : WormResponse) × (decode_event payload ≡ ok r)
unfolding decode_event
decode_event_total payload = elim (Bool-cases (ltb (length payload) 8)) [
  | inl short ↦ (malformed_event, rw short)
  | inr l ↦
      let (n, e) = read_uint32_be_inside payload 0 (ground arith) in
      elim (Bool-cases (ltb (length payload) (4 + n + 4))) [
        | inl cut ↦ (malformed_event, rw (l, e, cut))
        | inr l' ↦
            let (m, e') = read_uint32_be_inside payload (4 + n) (ground arith) in
            elim (Bool-cases (ltb (length payload) (4 + n + 4 + m))) [
              | inl cut ↦ (malformed_event, rw (l, e, l', e', cut))
              | inr l'' ↦ (
                event (decode_utf8 (subarray payload 4 (4 + n)))
                    (decode_utf8 (subarray payload (4 + n + 4) (4 + n + 4 + m))),
                rw (l, e, l', e', l''),
              )
            ]
      ]
]

either_total :
    (b : Bool) {x y : Result WormResponse}
    → ((r : WormResponse) × (x ≡ ok r))
    → ((r : WormResponse) × (y ≡ ok r))
    → (r : WormResponse) × ((if b then x else y) ≡ ok r)
either_total true p q = p
either_total false p q = q

-- decodeResponse answers on every code and every payload: no read falls outside the payload.
pub decode_response_total :
    (code : ℕ) (payload : Bytes) → (r : WormResponse) × (decode_response code payload ≡ ok r)
unfolding decode_response
decode_response_total code payload =
    either_total (code == 0x00) (_, refl)
      (either_total (code == 0x01) (_, refl)
        (either_total (code == 0x02) (_, refl)
          (either_total (code == 0x03) (_, refl)
            (either_total (code == 0x04) (decode_event_total payload) (_, refl)))))

pub read_uint32_be-be32 :
    (front : Bytes) (at v : ℕ) (rest : Bytes)
    → at ≡ length front
    → v < 2 ^ 32
    → read_uint32_be (front ++ (be32 v ++ rest)) at ≡ ok v
unfolding read_uint32_be
read_uint32_be-be32 front at v rest e h =
    rw (drop-append at front (be32 v ++ rest) e) (head32-be32 v rest h)

pub subarray-middle :
    (front b rest : Bytes) (from to : ℕ)
    → from ≡ length front
    → to ≡ from + length b
    → subarray (front ++ (b ++ rest)) from to ≡ b
unfolding subarray
subarray-middle front b rest from to e f =
    rw (drop-append from front (b ++ rest) e) (take-append (to - from) b rest (omega arith))

-- The tests and reads of the Event case, with the answers that let it through.
decode_event-when :
    (payload channel message : Bytes) (n m : ℕ)
    → 4 + n + 4 + m ≤ length payload
    → read_uint32_be payload 0 ≡ ok n
    → read_uint32_be payload (4 + n) ≡ ok m
    → subarray payload 4 (4 + n) ≡ channel
    → subarray payload (4 + n + 4) (4 + n + 4 + m) ≡ message
    → decode_event payload ≡ ok (event (decode_utf8 channel) (decode_utf8 message))
unfolding decode_event
decode_event-when payload channel message n m fits r r' s s' = rw (
  le→ltb (length payload) 8 (omega arith),
  r,
  le→ltb (length payload) (4 + n + 4) (omega arith),
  r',
  le→ltb (length payload) (4 + n + 4 + m) fits,
  s,
  s',
)

-- An event payload is decoded to its channel and its message, whatever follows them.
pub decode_event-fields :
    (channel message extra : Bytes)
    → length channel < 2 ^ 32
    → length message < 2 ^ 32
    → decode_event (field channel ++ (field message ++ extra))
      ≡ ok (event (decode_utf8 channel) (decode_utf8 message))
decode_event-fields channel message extra h k =
    let n = length channel in
    let m = length message in
    let front : Bytes = field channel in
    let rest : Bytes = field message ++ extra in
    let whole : Bytes = front ++ rest in
    let l : length whole ≡ 4 + n + (4 + m + length extra) = omega (
      arith,
      length-append front rest,
      length-field channel,
      length-append (field message) extra,
      length-field message,
    ) in
    let regroup : whole ≡ be32 n ++ (channel ++ rest) = append_assoc (be32 n) channel rest in
    let regroup' : rest ≡ be32 m ++ (message ++ extra) = append_assoc (be32 m) message extra in
    let behind : whole ≡ (front ++ be32 m) ++ (message ++ extra) =
      ap (λ r. front ++ r) regroup' ∙ sym (append_assoc front (be32 m) (message ++ extra)) in
    decode_event-when whole channel message n m (omega arith)
      (ap (λ b. read_uint32_be b 0) regroup ∙ read_uint32_be-be32 [] 0 n (channel ++ rest) refl h)
      (ap (λ b. read_uint32_be (front ++ b) (4 + n)) regroup'
        ∙ read_uint32_be-be32 front (4 + n) m (message ++ extra)
            (omega (arith, length-field channel)) k)
      (ap (λ b. subarray b 4 (4 + n)) regroup
        ∙ subarray-middle (be32 n) channel rest 4 (4 + n) (omega (arith, length-be32 n)) refl)
      (ap (λ b. subarray b (4 + n + 4) (4 + n + 4 + m)) behind
        ∙ subarray-middle (front ++ be32 m) message extra (4 + n + 4) (4 + n + 4 + m)
            (omega (arith, length-append front (be32 m), length-field channel, length-be32 m)) refl)

-- What the client makes of the server's answer.
abbrev pub client_view : Response → WormResponse
client_view ok_response = done
client_view (value (some val)) = bulk (decode_utf8 val)
client_view (value none) = null
client_view (err_response msg) = error (decode_utf8 msg)
client_view (event_message channel message) = event (decode_utf8 channel) (decode_utf8 message)

-- The lengths that the server's @intCast to u32 takes; an event is checked by the writer.
abbrev pub Sized : Response → Type 0
Sized (value (some val)) = length val < 2 ^ 32
Sized (err_response msg) = length msg < 2 ^ 32
Sized _ = Unit {0}

written :
    (code : ℕ) (payload rest : Bytes) {bytes : Bytes}
    → length payload < 2 ^ 32
    → some (frame_bytes code payload) ≡ some bytes
    → try_consume_frame (bytes ++ rest)
      ≡ ok (some (record { code = code; payload = payload; remaining = rest }))
written code payload rest h e =
    let same : frame_bytes code payload ≡ _ = some-inj e in
    ap (λ b. try_consume_frame (b ++ rest)) (sym same)
    ∙ try_consume_frame-frame_bytes code payload rest h

pub write_event :
    (channel message : Bytes) {bytes : Bytes}
    → write_response (event_message channel message) ≡ some bytes
    → (length (field channel ++ field message) ≤ 16777216)
      × (some (frame_bytes 0x04 (field channel ++ field message)) ≡ some bytes)
unfolding write_response
write_event channel message e =
    let l : 4 + length channel + (4 + length message) ≡ length (field channel ++ field message) =
      sym (length-two channel message) in
    elim (Bool-cases (ltb 16777216 (4 + length channel + (4 + length message)))) [
      | inl big ↦ absurd (cc (rw big at e))
      | inr fits ↦ (ground (arith, l), rw (← l) (rw fits at e))
    ]

-- Of a frame that the server writes the client takes off exactly that frame, and decodes it to what
-- the server meant. A value and an error message are shorter than 2^32 bytes.
pub decode_response-write_response :
    (r : Response) (bytes rest : Bytes)
    → Sized r
    → write_response r ≡ some bytes
    → (f : ParsedFrame) × (try_consume_frame (bytes ++ rest) ≡ ok (some f))
      × (f.remaining ≡ rest)
      × (decode_response f.code f.payload ≡ ok (client_view r))
unfolding decode_response be32
decode_response-write_response ok_response bytes rest s e =
    (_, written 0x00 [] rest (omega arith) (unfold write_response in e), refl, refl)
decode_response-write_response (value (some val)) bytes rest s e =
    (_, written 0x01 val rest s (unfold write_response in e), refl, refl)
decode_response-write_response (value none) bytes rest s e =
    (_, written 0x02 [] rest (omega arith) (unfold write_response in e), refl, refl)
decode_response-write_response (err_response msg) bytes rest s e =
    (_, written 0x03 msg rest s (unfold write_response in e), refl, refl)
decode_response-write_response (event_message channel message) bytes rest s e =
    let (small, same) = write_event channel message e in
    let l = length-two channel message in
    (
      _,
      written 0x04 (field channel ++ field message) rest (omega arith) same,
      refl,
      ap (λ b. decode_event (field channel ++ b)) (sym (append-nil (field message)))
          ∙ decode_event-fields channel message [] (omega (arith, l)) (omega (arith, l)),
    )
