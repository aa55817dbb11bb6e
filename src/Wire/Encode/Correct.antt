-- ===== src/Wire/Encode/Correct.antt =====
-- The buffer-filling encoders against the frame format.
use wormdb.Base.{
  ap, ◌∙◌, length, append_assoc, append-nil, List, Result, ok, ℕ, suc, ◌+◌, ◌≡◌, refl, [], ◌∷◌,
  ◌++◌, arith, ◌<◌, map, JsString, ◌>>=◌, inl, inr, ◌≤◌, Bool-cases, ltb, sym, ok-injective, none,
  some, Option,
}
use wormdb.Wire.Bytes.{Bytes, be32, length-be32, write_uint32_be_next, put_next}
use wormdb.Wire.Encode.{
  encode_auth, encode_command_frame, write_frame, fill_frame, encode_len_prefixed_utf8,
  encode_vdelete, encode_save, filter_bytes, arg_bytes, encode_exec, max_payload,
}
use wormdb.Wire.CommandCode
use wormdb.Wire.Format.{
  frame_bytes, framed, code_of, field, payload_of, fields, plain_bytes, given_filter,
}
use wormdb.Wire.Encode.Filling.{store_next}
use wormdb.Wire.Command.{
  ParsedCommand, get, del, sub, unsub, set, publish, exec, vinsert, vbulkinsert, status,
  cluster_status, cluster_peers, Arg, text, raw,
}
use wormdb.Text.{encode_utf8}
use wormdb.Wire.Encode.Payloads.{
  encode_len_prefixed-field, encode_pair-fields, encode_sub-fields, encode_set-fields,
  encode_exec-fields,
}
use wormdb.Wire.Encode.Vectors.{encode_vinsert-payload, encode_vbulkinsert-payload}

pub fill_frame-bytes :
    (code : ℕ) (payload : Bytes)
    → code < 256
    → fill_frame code payload ≡ ok (frame_bytes code payload)
unfolding fill_frame
fill_frame-bytes code payload h =
    rw
      (
        store_next [] 0 code (5 + length payload) (4 + length payload) refl (omega arith) h,
        write_uint32_be_next (code ∷ []) 1 (length payload) (4 + length payload) (length payload)
            refl refl,
        put_next ((code ∷ []) ++ be32 (length payload)) payload 5 (length payload) 0
            (omega (arith, length-be32 (length payload))) (omega arith),
      )
      (ap ok (simp (append-nil, append_assoc)))

pub write_frame-framed :
    (code : ℕ) (payload : Bytes) → code < 256 → write_frame code payload ≡ framed code payload
unfolding write_frame
write_frame-framed code payload h = rw (fill_frame-bytes code payload h)

pub length-map : {A B : Type 0} (f : A → B) (xs : List A) → length (map f xs) ≡ length xs
length-map f [] = refl
length-map f (x ∷ xs) = ap suc (length-map f xs)

filter_bytes-given_filter : (filter : Option JsString) → filter_bytes filter ≡ given_filter filter
unfolding filter_bytes
filter_bytes-given_filter none = refl
filter_bytes-given_filter (some []) = refl
filter_bytes-given_filter (some (c ∷ s)) = refl

arg_bytes-plain_bytes : (args : List Arg) → map arg_bytes args ≡ map plain_bytes args
unfolding arg_bytes
arg_bytes-plain_bytes [] = refl
arg_bytes-plain_bytes (text s ∷ args) = ap (λ bs. encode_utf8 s ∷ bs) (arg_bytes-plain_bytes args)
arg_bytes-plain_bytes (raw bytes ∷ args) = ap (λ bs. bytes ∷ bs) (arg_bytes-plain_bytes args)

encode_exec-args :
    (proc : Bytes) (args : List Arg)
    → encode_exec proc (map arg_bytes args)
      ≡ ok (field proc ++ (be32 (length args) ++ fields (map plain_bytes args)))
encode_exec-args proc args =
    encode_exec-fields proc (map arg_bytes args)
    ∙ rw (length-map arg_bytes args, arg_bytes-plain_bytes args)

then_frame :
    (code : ℕ) {payload : Bytes} {r : Result Bytes}
    → code < 256
    → r ≡ ok payload
    → (r >>= write_frame code) ≡ framed code payload
then_frame code {payload} h e = rw e (write_frame-framed code payload h)

-- Whatever the command, the encoder returns the command's code, the payload's length and the
-- payload laid out as the format says, or refuses with PayloadTooLargeError exactly if the payload
-- is longer than 16 MiB; no write misses its buffer.
pub encode_command_frame-framed :
    (c : ParsedCommand) → encode_command_frame c ≡ framed (code_of c) (payload_of c)
unfolding encode_command_frame encode_len_prefixed_utf8
encode_command_frame-framed (get key) =
    then_frame CommandCode.get (omega arith) (encode_len_prefixed-field (encode_utf8 key))
encode_command_frame-framed (del key) =
    then_frame CommandCode.del (omega arith) (encode_len_prefixed-field (encode_utf8 key))
encode_command_frame-framed (sub channel filter) = then_frame CommandCode.sub (omega arith) (
    encode_sub-fields (encode_utf8 channel) (filter_bytes filter)
    ∙ rw (filter_bytes-given_filter filter))
encode_command_frame-framed (unsub channel) =
    then_frame CommandCode.unsub (omega arith) (encode_len_prefixed-field (encode_utf8 channel))
encode_command_frame-framed status = write_frame-framed CommandCode.status [] (omega arith)
encode_command_frame-framed cluster_status =
    write_frame-framed CommandCode.cluster_status [] (omega arith)
encode_command_frame-framed cluster_peers =
    write_frame-framed CommandCode.cluster_peers [] (omega arith)
encode_command_frame-framed (set key value worm) =
    then_frame CommandCode.set (omega arith)
      (encode_set-fields (encode_utf8 key) (encode_utf8 value) worm)
encode_command_frame-framed (publish channel message) =
    then_frame CommandCode.publish (omega arith)
      (encode_pair-fields (encode_utf8 channel) (encode_utf8 message))
encode_command_frame-framed (exec procedure args) =
    then_frame CommandCode.exec (omega arith) (encode_exec-args (encode_utf8 procedure) args)
encode_command_frame-framed (vinsert c) =
    then_frame CommandCode.vinsert (omega arith) (encode_vinsert-payload c)
encode_command_frame-framed (vbulkinsert c) =
    then_frame CommandCode.vbulkinsert (omega arith) (encode_vbulkinsert-payload c)

-- AUTH carries the token, VDELETE key and namespace, and SAVE nothing, in the same frame format and
-- under the same limit.
pub encode_admin-framed :
    (token : Bytes) (key namespace : JsString)
    → (encode_auth token ≡ framed CommandCode.auth (field token))
      × (encode_vdelete key namespace
          ≡ framed CommandCode.vdelete (field (encode_utf8 key) ++ field (encode_utf8 namespace)))
      × (encode_save ≡ framed CommandCode.save [])
unfolding encode_auth encode_vdelete encode_save
encode_admin-framed token key namespace = (
  rw (encode_len_prefixed-field token) (write_frame-framed _ _ (omega arith)),
  rw (encode_pair-fields (encode_utf8 key) (encode_utf8 namespace))
      (write_frame-framed _ _ (omega arith)),
  write_frame-framed CommandCode.save [] (omega arith),
)

-- A frame that was not refused.
pub framed-ok :
    (code : ℕ) (payload bytes : Bytes)
    → framed code payload ≡ ok bytes
    → (length payload ≤ max_payload) × (bytes ≡ frame_bytes code payload)
framed-ok code payload bytes e = elim (Bool-cases (ltb max_payload (length payload))) [
  | inl big ↦ absurd (cc (rw big at e))
  | inr fits ↦ (ground arith, sym (ok-injective (rw fits at e)))
]
