-- ===== src/Client/Tests.antt =====
-- The keep-alive client at concrete events.
use wormdb.Base.{Option, ok, map, ℕ, ◌+◌, ◌≡◌, refl, false, [], ◌∷◌, some, arith, List, timed_out}
use wormdb.Wire.Bytes.{Bytes, be32}
use wormdb.Wire.Command.{status}
use wormdb.Client.{Client, Event, request, connected, data_in, timer, run, rejected, outcome_of}
use wormdb.Link.Order.{Reliable}
use wormdb.Client.Counts.{held}
use wormdb.Client.Conservation.{run_ends, times_asked, held-run}
use wormdb.Client.Fifo.{answers, unanswered, run-chunks-answers}
use wormdb.Wire.Encode.{encode_command_frame}
use wormdb.Wire.Encode.Correct.{encode_command_frame-framed}
use wormdb.Wire.Response.{decode_response, is_event_code}
use wormdb.Wire.Frame.Laws.{try_consume_frame-short}
use wormdb.Client.Late.{late_response_misdelivered}

abbrev takes_all : ℕ → Option ℕ
takes_all k = some 100

takes_all-Reliable : Reliable takes_all
takes_all-Reliable k e = cc

abbrev ready : Client
ready = record {
  timeout_ms = 3000;
  socket = some 1;
  connecting = false;
  parked = [];
  inbound = [];
  pending = 5 ∷ 6 ∷ [];
  link = record { accepted = []; calls = 0; backlog = [] };
  settled = [];
}

abbrev waiting_for_one : Client
waiting_for_one = record ready { pending = 5 ∷ [] }

-- OK, an event, and the first byte of another frame, in two chunks.
abbrev two_chunks : List Bytes
two_chunks = (0 ∷ 0 ∷ 0 ∷ []) ∷ (0 ∷ 0 ∷ 4 ∷ 0 ∷ 0 ∷ 0 ∷ 0 ∷ 1 ∷ []) ∷ []

run-chunks-answers_example :
    (s' : Client) × (run takes_all (map data_in two_chunks) ready ≡ ok s')
    × (s'.settled ≡ answers (5 ∷ 6 ∷ []) ((0, []) ∷ (4, []) ∷ []))
    × (s'.pending ≡ unanswered (5 ∷ 6 ∷ []) ((0, []) ∷ (4, []) ∷ []))
    × (s'.inbound ≡ 1 ∷ [])
unfolding be32
run-chunks-answers_example =
    run-chunks-answers takes_all ready two_chunks ((0, []) ∷ (4, []) ∷ []) (1 ∷ []) refl
      (omega arith) (try_consume_frame-short (1 ∷ []) (omega arith)) refl

abbrev short_run : List Event
short_run = request 7 status ∷ timer 5 ∷ connected ∷ []

short_run_end : Client
short_run_end = (run_ends takes_all short_run ready).0

held-run_example : held 5 short_run_end ≡ held 5 ready + times_asked 5 short_run
unfolding short_run_end
held-run_example =
    held-run takes_all 5 short_run ready short_run_end (run_ends takes_all short_run ready).1

run_ends_example : (s' : Client) × (run takes_all short_run ready ≡ ok s')
run_ends_example = run_ends takes_all short_run ready

status_frame : encode_command_frame status ≡ ok (4 ∷ 0 ∷ 0 ∷ 0 ∷ 0 ∷ [])
unfolding be32
status_frame = encode_command_frame-framed status

late_response_misdelivered_example :
    (s' : Client) × (run takes_all
        (timer 5 ∷ request 8 status ∷ data_in (1 ∷ 0 ∷ 0 ∷ 0 ∷ 1 ∷ 0x61 ∷ []) ∷ [])
        waiting_for_one
      ≡ ok s')
    × (s'.pending ≡ [])
    × (s'.settled
        ≡ (5, rejected (timed_out 3000)) ∷ (8, outcome_of (decode_response 1 (0x61 ∷ []))) ∷ [])
unfolding be32
late_response_misdelivered_example =
    late_response_misdelivered takes_all waiting_for_one 5 8 1 1 (0x61 ∷ [])
      (4 ∷ 0 ∷ 0 ∷ 0 ∷ 0 ∷ []) status takes_all-Reliable refl refl refl status_frame
      value_is_no_event (omega arith)
  where
    value_is_no_event : is_event_code 1 ≡ false
    value_is_no_event = unfold is_event_code in refl
