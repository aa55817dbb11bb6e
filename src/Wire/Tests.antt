-- ===== src/Wire/Tests.antt =====
-- The codec at concrete commands, frames and chunks.
use wormdb.Base.{ok, ℕ, ◌+◌, ◌≡◌, refl, true, [], ◌∷◌, ◌++◌, some, arith, List}
use wormdb.Wire.Bytes.{Bytes, be32}
use wormdb.Wire.Command.{ParsedCommand, set}
use wormdb.Wire.Server.{parsed, read_frame}
use wormdb.Wire.Frame.{ParsedFrame, try_consume_frame, receive_chunks}
use wormdb.Wire.CommandCode
use wormdb.Wire.Encode.{encode_command_frame, encode_auth, worm_flag, encode_vdelete, encode_save}
use wormdb.Wire.Response.{WormResponse, write_response, decode_response, event_message}
use wormdb.Text.{encode_utf8}
use wormdb.Wire.Server.Reads.{server_view}
use wormdb.Wire.Format.{framed, payload_of, field}
use wormdb.Wire.Server.RoundTrip.{read_frame-encode_command_frame}
use wormdb.Wire.Response.Laws.{decode_response_total, client_view, decode_response-write_response}
use wormdb.Wire.Encode.Correct.{encode_command_frame-framed, encode_admin-framed}
use wormdb.Wire.Frame.Chunks.{handle_all, receive_chunks-wire_bytes}
use wormdb.Wire.Frame.Laws.{try_consume_frame-short}

-- SET k vé --worm
abbrev set_command : ParsedCommand
set_command = set (0x6b ∷ []) (0x76 ∷ 0xe9 ∷ []) true

abbrev set_frame : Bytes
set_frame = 2 ∷ 0 ∷ 0 ∷ 0 ∷ 13 ∷ 1 ∷ 0 ∷ 0 ∷ 0 ∷ 1 ∷ 0x6b ∷ 0 ∷ 0 ∷ 0 ∷ 3 ∷ 0x76 ∷ 0xc3 ∷ 0xa9 ∷ []

encode_command_frame-framed_example :
    encode_command_frame set_command ≡ framed CommandCode.set (payload_of set_command)
encode_command_frame-framed_example = encode_command_frame-framed set_command

encode_admin-framed_example :
    (encode_auth (1 ∷ 2 ∷ []) ≡ framed CommandCode.auth (field (1 ∷ 2 ∷ [])))
    × (encode_vdelete (0x6b ∷ []) (0x6e ∷ [])
        ≡ framed CommandCode.vdelete
            (field (encode_utf8 (0x6b ∷ [])) ++ field (encode_utf8 (0x6e ∷ []))))
    × (encode_save ≡ framed CommandCode.save [])
encode_admin-framed_example = encode_admin-framed (1 ∷ 2 ∷ []) (0x6b ∷ []) (0x6e ∷ [])

set_bytes : encode_command_frame set_command ≡ ok set_frame
unfolding encode_utf8 worm_flag be32
set_bytes = encode_command_frame-framed set_command

read_frame-encode_command_frame_example :
    read_frame (set_frame ++ (9 ∷ [])) ≡ parsed (server_view set_command, 9 ∷ [])
read_frame-encode_command_frame_example =
    read_frame-encode_command_frame set_command set_frame (9 ∷ []) tt set_bytes

-- Frames are counted, and the last payload kept.
abbrev tally : ℕ × Bytes → ℕ → Bytes → ℕ × Bytes
tally (n, _) code payload = (n + 1, payload)

abbrev two_frames : List (ℕ × Bytes)
two_frames = (0, []) ∷ (1, 7 ∷ 8 ∷ []) ∷ []

receive_chunks-wire_bytes_example :
    receive_chunks tally
      (0, [])
      []
      ((0 ∷ 0 ∷ []) ∷ (0 ∷ 0 ∷ 0 ∷ 1 ∷ 0 ∷ 0 ∷ 0 ∷ 2 ∷ 7 ∷ []) ∷ (8 ∷ 3 ∷ 0 ∷ []) ∷ [])
    ≡ ok (handle_all tally (0, []) two_frames, 3 ∷ 0 ∷ [])
unfolding be32
receive_chunks-wire_bytes_example =
    receive_chunks-wire_bytes tally (0, [])
      ((0 ∷ 0 ∷ []) ∷ (0 ∷ 0 ∷ 0 ∷ 1 ∷ 0 ∷ 0 ∷ 0 ∷ 2 ∷ 7 ∷ []) ∷ (8 ∷ 3 ∷ 0 ∷ []) ∷ []) two_frames
      (3 ∷ 0 ∷ []) (omega arith) (try_consume_frame-short (3 ∷ 0 ∷ []) (omega arith)) refl

decode_response_total_example :
    (r : WormResponse) × (decode_response 4 (0 ∷ 0 ∷ 0 ∷ 9 ∷ 1 ∷ 2 ∷ 3 ∷ 4 ∷ []) ≡ ok r)
decode_response_total_example = decode_response_total 4 (0 ∷ 0 ∷ 0 ∷ 9 ∷ 1 ∷ 2 ∷ 3 ∷ 4 ∷ [])

abbrev event_bytes : Bytes
event_bytes = 4 ∷ 0 ∷ 0 ∷ 0 ∷ 11 ∷ 0 ∷ 0 ∷ 0 ∷ 1 ∷ 0x63 ∷ 0 ∷ 0 ∷ 0 ∷ 2 ∷ 0x68 ∷ 0x69 ∷ []

event_written : write_response (event_message (0x63 ∷ []) (0x68 ∷ 0x69 ∷ [])) ≡ some event_bytes
unfolding write_response be32
event_written = refl

decode_response-write_response_example :
    (f : ParsedFrame) × (try_consume_frame (event_bytes ++ (5 ∷ [])) ≡ ok (some f))
    × (f.remaining ≡ 5 ∷ [])
    × (decode_response f.code f.payload
        ≡ ok (client_view (event_message (0x63 ∷ []) (0x68 ∷ 0x69 ∷ []))))
decode_response-write_response_example =
    decode_response-write_response (event_message (0x63 ∷ []) (0x68 ∷ 0x69 ∷ [])) event_bytes
      (5 ∷ []) tt event_written
