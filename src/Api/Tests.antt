-- ===== src/Api/Tests.antt =====
-- The typed calls at concrete arguments.
use wormdb.Base.{
  Option, ◌≡◌, true, false, [], ◌∷◌, ◌++◌, none, some, ok, List, JsString, err, plain_error, ◌>>=◌,
  refl, arith, ◌<◌, length, ◌^◌, ◌+◌, ◌≤◌,
}
use wormdb.Api.{given, mint_args, get_result}
use wormdb.Api.Slots.{vsearch_args, defaults}
use wormdb.Api.Laws.{
  fill, or_defaults, vsearch_args-fill, mint_gap, mint_args_positional, get_result_stored,
}
use wormdb.Text.RoundTrip.{IsWellFormed, plain, nil}
use wormdb.Wire.Bytes.{Bytes, be32}
use wormdb.Wire.Response.{write_response, value, decode_response}
use wormdb.Wire.Frame.{ParsedFrame, try_consume_frame}
use wormdb.Text.{encode_utf8, strip_bom}
use wormdb.Api.EventQueue.{
  WormEvent, EventQueue, QueueStep, queue_run, yields, arrives, queue_run_balanced, asks,
}

-- The mode is given, namespace, metric and decay are not.
abbrev only_mode : List (Option JsString)
only_mode = none ∷ none ∷ none ∷ some (1 ∷ []) ∷ none ∷ []

vsearch_args-fill_example :
    (slots : List JsString) × (vsearch_args (7 ∷ []) (8 ∷ []) only_mode
      ≡ (7 ∷ []) ∷ (8 ∷ []) ∷ slots)
    × (fill slots defaults ≡ or_defaults only_mode defaults)
vsearch_args-fill_example = vsearch_args-fill (7 ∷ []) (8 ∷ []) only_mode

mint_args_positional_example :
    (mint_gap none (some []) none ≡ false
      → mint_args (7 ∷ []) none (some []) none
        ≡ ok ((7 ∷ []) ∷ given none ++ given (some []) ++ given none))
    × (mint_gap none (some []) none ≡ true
        → (e : JsString) × (mint_args (7 ∷ []) none (some []) none ≡ err (plain_error e)))
mint_args_positional_example = mint_args_positional (7 ∷ []) none (some []) none

abbrev hi : JsString
hi = 0x68 ∷ 0x69 ∷ []

abbrev hi_frame : Bytes
hi_frame = 1 ∷ 0 ∷ 0 ∷ 0 ∷ 2 ∷ 0x68 ∷ 0x69 ∷ []

hi-IsWellFormed : IsWellFormed hi
hi-IsWellFormed = plain (omega arith) refl refl (plain (omega arith) refl refl nil)

hi-Sized : length (encode_utf8 hi) < 2 ^ 32
unfolding encode_utf8
hi-Sized = omega arith

hi_written : write_response (value (some (encode_utf8 hi))) ≡ some hi_frame
unfolding write_response be32 encode_utf8
hi_written = refl

get_result_stored_example :
    (f : ParsedFrame) × (try_consume_frame (hi_frame ++ (9 ∷ [])) ≡ ok (some f))
    × (f.remaining ≡ 9 ∷ [])
    × ((decode_response f.code f.payload >>= get_result) ≡ ok (some (strip_bom hi)))
get_result_stored_example =
    get_result_stored hi hi_frame (9 ∷ []) hi-IsWellFormed hi-Sized hi_written

abbrev pulse : WormEvent
pulse = (hi, [])

-- Two events come to a queue that holds one, and one is asked for.
abbrev busy : List QueueStep
busy = arrives pulse ∷ arrives pulse ∷ asks false ∷ []

abbrev narrow : EventQueue
narrow = record { limit = 1; queue = []; dropped = 0; finished = false }

queue_run_balanced_example :
    (length (queue_run busy narrow).queue + (queue_run busy narrow).dropped + yields busy narrow
      ≡ 2)
    × ((queue_run busy narrow).limit ≡ 1)
    × (length (queue_run busy narrow).queue ≤ (queue_run busy narrow).limit)
queue_run_balanced_example = queue_run_balanced busy narrow (omega arith)
