-- ===== src/Wire/Server/RoundTrip.antt =====
-- Every command frame of the Bun client, read by the server.
use wormdb.Base.{
  ℕ, ◌+◌, ◌^◌, ◌<◌, ◌≤◌, ◌≡◌, refl, sym, ap, ◌∙◌, arith, List, [], ◌∷◌, ◌++◌, Bool, true, false,
  Option, none, some, length, map, append-nil, append_assoc, ok, length-append, ◌*◌, le→ltb,
  take-append, drop-append, subst,
}
use wormdb.Wire.Bytes.{Bytes, be32, length-be32}
use wormdb.Wire.Server.{
  parsed, Command, parse_set, parse_subscribe, read_frame, parse_command_payload, parse_exec,
  read_u8, finish, read_filter, read_args, parse_empty,
}
use wormdb.Wire.Command.{ParsedCommand}
use wormdb.Wire.Server.Reads.{
  server_view, Stamps, read-field, parse_one-field, read_u32-be32, read-field_last,
  read_filter-field, parse_two-fields,
}
use wormdb.Wire.Format.{
  given_filter, plain_bytes, field, payload_of, code_of, fields, frame_bytes, optional_field,
}
use wormdb.Wire.Encode.{encode_command_frame, max_payload, worm_flag}
use wormdb.Wire.Encode.Vectors.{length-field}
use wormdb.Wire.Encode.Correct.{encode_command_frame-framed, length-map, framed-ok}
use wormdb.Text.{encode_utf8}
use wormdb.Wire.Server.Vectors.{
  length-fields, read_args-fields, parse_vinsert-payload, parse_vbulkinsert-payload,
}

parse_set-fields :
    (worm : Bool) (a b : Bytes)
    → length a < 2 ^ 32
    → length b < 2 ^ 32
    → parse_set ((worm_flag worm ∷ []) ++ (field a ++ field b)) ≡ parsed (Command.set a b worm)
unfolding parse_set read_u8 finish worm_flag
parse_set-fields true a b h k = rw (read-field a (field b) h, read-field_last b k)
parse_set-fields false a b h k = rw (read-field a (field b) h, read-field_last b k)

parse_subscribe-fields :
    (a : Bytes) (f : Option Bytes)
    → length a < 2 ^ 32
    → length (optional_field f) < 2 ^ 32
    → parse_subscribe (field a ++ optional_field f) ≡ parsed (Command.subscribe a f)
unfolding parse_subscribe finish
parse_subscribe-fields a none h k = rw (read-field a [] h) (unfold read_filter in refl)
parse_subscribe-fields a (some b) h k =
    rw (read-field a (field b) h, read_filter-field b (omega (arith, length-field b)))

parse_exec-fields :
    (proc : Bytes) (as' : List Bytes)
    → length (field proc ++ (be32 (length as') ++ fields as')) ≤ max_payload
    → parse_exec (field proc ++ (be32 (length as') ++ fields as')) ≡ parsed (Command.exec proc as')
unfolding parse_exec finish
parse_exec-fields proc as' h =
    let s1 : length (field proc ++ (be32 (length as') ++ fields as'))
        ≡ 4 + length proc + (4 + length (fields as')) =
      omega (
        arith,
        length-append (field proc) (be32 (length as') ++ fields as'),
        length-field proc,
        length-append (be32 (length as')) (fields as'),
        length-be32 (length as'),
      ) in
    let s2 : 4 * length as' ≤ length (fields as') = length-fields as' in
    rw (
      read-field proc (be32 (length as') ++ fields as') (omega arith),
      read_u32-be32 (length as') (fields as') (omega arith),
      ap (read_args (length as')) (sym (append-nil (fields as')))
          ∙ read_args-fields as' [] (omega arith),
    )

pub length-two : (a b : Bytes) → length (field a ++ field b) ≡ 4 + length a + (4 + length b)
length-two a b = omega (arith, length-append (field a) (field b), length-field a, length-field b)

pub parse-payload_of :
    (c : ParsedCommand)
    → Stamps c
    → length (payload_of c) ≤ max_payload
    → parse_command_payload (code_of c) (payload_of c) ≡ parsed (server_view c)
unfolding parse_command_payload
parse-payload_of (ParsedCommand.get key) t h =
    parse_one-field Command.get (encode_utf8 key) (omega (arith, length-field (encode_utf8 key)))
parse-payload_of (ParsedCommand.del key) t h =
    parse_one-field Command.delete (encode_utf8 key) (omega (arith, length-field (encode_utf8 key)))
parse-payload_of (ParsedCommand.sub channel filter) t h =
    let s = length-append (field (encode_utf8 channel)) (optional_field (given_filter filter)) in
    parse_subscribe-fields (encode_utf8 channel) (given_filter filter)
      (omega (arith, s, length-field (encode_utf8 channel))) (omega (arith, s))
parse-payload_of (ParsedCommand.unsub channel) t h =
    parse_one-field Command.unsubscribe (encode_utf8 channel)
      (omega (arith, length-field (encode_utf8 channel)))
parse-payload_of ParsedCommand.status t h = unfold parse_empty finish in refl
parse-payload_of ParsedCommand.cluster_status t h = unfold parse_empty finish in refl
parse-payload_of ParsedCommand.cluster_peers t h = unfold parse_empty finish in refl
parse-payload_of (ParsedCommand.set key value worm) t h =
    let s = length-two (encode_utf8 key) (encode_utf8 value) in
    parse_set-fields worm (encode_utf8 key) (encode_utf8 value) (omega (arith, s))
      (omega (arith, s))
parse-payload_of (ParsedCommand.publish channel message) t h =
    let s = length-two (encode_utf8 channel) (encode_utf8 message) in
    parse_two-fields Command.publish (encode_utf8 channel) (encode_utf8 message) (omega (arith, s))
      (omega (arith, s))
parse-payload_of (ParsedCommand.exec procedure args) t h =
    let e : length (map plain_bytes args) ≡ length args = length-map plain_bytes args in
    subst
      (λ n.
        parse_exec (field (encode_utf8 procedure) ++ (be32 n ++ fields (map plain_bytes args)))
        ≡ parsed (Command.exec (encode_utf8 procedure) (map plain_bytes args)))
      e (parse_exec-fields (encode_utf8 procedure) (map plain_bytes args) (rw e h))
parse-payload_of (ParsedCommand.vinsert c) t h = parse_vinsert-payload c t h
parse-payload_of (ParsedCommand.vbulkinsert c) t h = parse_vbulkinsert-payload c t h

read_frame-frame_bytes :
    (code : ℕ) (payload rest : Bytes) (c : Command)
    → length payload ≤ max_payload
    → parse_command_payload code payload ≡ parsed c
    → read_frame (frame_bytes code payload ++ rest) ≡ parsed (c, rest)
unfolding read_frame
read_frame-frame_bytes code payload rest c h e = rw (
  append_assoc (be32 (length payload)) payload rest,
  read_u32-be32 (length payload) (payload ++ rest) (omega arith),
  le→ltb 16777216 (length payload) h,
  le→ltb (length (payload ++ rest)) (length payload) (omega (arith, length-append payload rest)),
  take-append (length payload) payload rest refl,
  drop-append (length payload) payload rest refl,
  e,
)

-- A frame that the client's encoder returns is read by the server as the command that was encoded,
-- field by field, and the server's next read starts right behind it. Timestamps are below 2^64.
pub read_frame-encode_command_frame :
    (c : ParsedCommand) (bytes rest : Bytes)
    → Stamps c
    → encode_command_frame c ≡ ok bytes
    → read_frame (bytes ++ rest) ≡ parsed (server_view c, rest)
read_frame-encode_command_frame c bytes rest t e =
    let (fits, same) =
      framed-ok (code_of c) (payload_of c) bytes (sym (encode_command_frame-framed c) ∙ e) in
    rw same (
      read_frame-frame_bytes (code_of c) (payload_of c) rest (server_view c) fits
        (parse-payload_of c t fits))
