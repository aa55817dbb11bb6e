-- ===== src/Browser/Client/Tests.antt =====
-- The browser's WormDB at concrete inputs.
use wormdb.Wire.Bytes.{be32, Bytes}
use wormdb.Base.{
  ℕ, ◌∙◌, ◌+◌, ◌≡◌, refl, true, false, [], ◌∷◌, ◌++◌, some, ◌⊎◌, length, ok, JsString, List, Option,
}
use wormdb.Browser.Client.{
  BrowserDb, connected, caller, connecting, rejected, resolved, connect_to_url, settle_promise,
  settle_resolvers, reject_all, schedule_reconnect, close, cancel_reconnect, on_reconnect,
}
use wormdb.Browser.Client.Events.{
  BrowserEvent, new_client, run, connect_called, opened, socket_closed, reconnect_due, asked,
  probed, subscribe, message_in, timed_out_for, close_called, step, on_timer,
}
use wormdb.Wire.Response.{event_message, Response, ok_response, write_response, Response}
use wormdb.Browser.Client.Calls.{Announces}
use wormdb.Browser.Client.Fifo.{arrivals, answers, unanswered, run-arrivals-answers}
use wormdb.Browser.Client.Probe.{probe_fastest, zip_results}
use wormdb.Browser.{decode_message, ok_reply}
use wormdb.Browser.Client.Counts.{held}
use wormdb.Browser.Client.Conservation.{held-run_all, times_asked}
use wormdb.Browser.Client.Invariant.{Sound, run-Sound}
use wormdb.Browser.Client.Flaws.{close_while_opening, timeout_error, late_response_taken}
use wormdb.Browser.Decoder.{browser_view, decode_message-write_response}
use wormdb.Browser.Client.Probe.Fastest.{NoneAnswered, Fastest, probe_fastest-Wins}
use wormdb.Browser.Client.Closing.{closed_for_good}
use wormdb.Browser.Client.Sockets.{
  connect, connect_socket, on_open, finish_open, resubscribe, settle_connect, on_close,
  refuse_connect, retry,
}

abbrev a_url : JsString
a_url = 97 ∷ []

abbrev b_url : JsString
b_url = 98 ∷ []

abbrev fresh : BrowserDb
fresh = new_client (a_url ∷ []) 5000 true 30000 false

abbrev on_air : BrowserDb
on_air = record (new_client (a_url ∷ []) 5000 true 30000 false) {
  ws = some 0;
  state = connected;
  pending = caller 7 ∷ [];
  channels = record { name = a_url; members = 3 ∷ [] } ∷ [];
}

-- The frame of an OK.
abbrev ok_frame : Bytes
ok_frame = 0 ∷ 0 ∷ 0 ∷ 0 ∷ 0 ∷ []

-- A frame that is sent.
abbrev a_frame : Bytes
a_frame = 4 ∷ 0 ∷ 0 ∷ 0 ∷ 0 ∷ []

abbrev day : List BrowserEvent
day =
    connect_called 1
    ∷ opened 0
    ∷ subscribe 2 a_url 3
    ∷ asked 4 (ok a_frame)
    ∷ message_in ok_frame
    ∷ timed_out_for (caller 4)
    ∷ socket_closed 0
    ∷ close_called
    ∷ []

-- The OK of a server, and the frame.
ok_written : write_response ok_response ≡ some ok_frame
unfolding write_response be32
ok_written = refl

held-run_all_example :
    held (caller 4) (run day fresh) ≡ held (caller 4) fresh + times_asked 4 day fresh
held-run_all_example = held-run_all 4 day fresh

-- One request was made, and it is settled once.
asked_once : held (caller 4) (run day fresh) ≡ 1
unfolding new_client
asked_once = held-run_all 4 day fresh ∙ refl

run-Sound_example : Sound (run day fresh)
unfolding new_client
run-Sound_example = run-Sound day fresh (record { live = λ h. absurd (cc); peopled = tt })

closed_for_good_example :
    let after = run (close_called ∷ opened 0 ∷ socket_closed 0 ∷ []) on_air in
    (length after.sockets ≡ length on_air.sockets)
    × (after.timers ≡ [])
    × ((id : ℕ) (results : List (Option ℕ))
        → let t = step (probed id results) after in
          (t.closed ≡ true) × (length t.sockets ≡ length on_air.sockets + 1))
unfolding new_client
closed_for_good_example =
    closed_for_good on_air (opened 0 ∷ socket_closed 0 ∷ []) refl (tt, (tt, tt))

-- `close` is called while `connect` probes two nodes: a socket is made all the same.
abbrev closed_in_between : List BrowserEvent
closed_in_between = connect_called 1 ∷ close_called ∷ probed 1 (some 30 ∷ some 20 ∷ []) ∷ []

closed_client_connects :
    length (run closed_in_between (new_client (a_url ∷ b_url ∷ []) 5000 true 30000 false)).sockets
    ≡ 1
unfolding new_client run step connect connect_socket close connect_to_url reject_all
    cancel_reconnect
closed_client_connects = refl

late_response_taken_example :
    let t =
      run (timed_out_for (caller 7) ∷ asked 8 (ok a_frame) ∷ message_in ok_frame ∷ []) on_air in
    (t.pending ≡ [])
    × (t.settled
        ≡ (on_air.settled ++ ((caller 7, rejected (timeout_error on_air.timeout_ms)) ∷ []))
          ++ ((caller 8, resolved ok_reply) ∷ []))
unfolding new_client
late_response_taken_example =
    late_response_taken on_air 0 7 8 a_frame ok_frame ok_reply refl refl refl
      (decode_message-write_response ok_response ok_frame tt ok_written) refl

close_while_opening_example :
    let t = run (close_called ∷ opened 0 ∷ []) fresh in
    (t.closed ≡ true) × (t.state ≡ connected) × (t.ws ≡ some 0)
unfolding new_client
close_while_opening_example = close_while_opening fresh 0 refl

-- An event on the channel of a handler, and its frame.
abbrev an_event : Response
an_event = event_message (97 ∷ []) (98 ∷ [])

abbrev event_frame : Bytes
event_frame = 4 ∷ 0 ∷ 0 ∷ 0 ∷ 10 ∷ 0 ∷ 0 ∷ 0 ∷ 1 ∷ 97 ∷ 0 ∷ 0 ∷ 0 ∷ 1 ∷ 98 ∷ []

event_written : write_response an_event ≡ some event_frame
unfolding write_response be32
event_written = refl

run-arrivals-answers_example :
    let t = run (arrivals (event_frame ∷ ok_frame ∷ [])) on_air in
    (t.settled ≡ on_air.settled ++ answers on_air.pending (an_event ∷ ok_response ∷ []))
    × (t.pending ≡ unanswered on_air.pending (an_event ∷ ok_response ∷ []))
    × ((called : List (ℕ × JsString × JsString)) × (t.delivered ≡ on_air.delivered ++ called)
        × Announces on_air.channels on_air.global_handler (an_event ∷ ok_response ∷ []) called)
run-arrivals-answers_example =
    run-arrivals-answers on_air (an_event ∷ ok_response ∷ []) (event_frame ∷ ok_frame ∷ [])
      (tt, event_written, (tt, ok_written, tt))

abbrev two_answers : List (Option ℕ)
two_answers = some 30 ∷ some 20 ∷ []

probe_fastest-Wins_example :
    ((probe_fastest (a_url ∷ b_url ∷ []) two_answers ≡ a_url)
      × NoneAnswered (zip_results (a_url ∷ b_url ∷ []) two_answers))
    ⊎ Fastest
        (probe_fastest (a_url ∷ b_url ∷ []) two_answers)
        (zip_results (a_url ∷ b_url ∷ []) two_answers)
probe_fastest-Wins_example = probe_fastest-Wins a_url (b_url ∷ []) two_answers

decode_message-write_response_example : decode_message ok_frame ≡ ok (browser_view ok_response)
decode_message-write_response_example =
    decode_message-write_response ok_response ok_frame tt ok_written

-- A client that is called while its reconnect timer is set, and closed after that dial has failed:
-- the first timer is still set, and dials.
abbrev redial : List BrowserEvent
redial =
    connect_called 1
    ∷ opened 0
    ∷ socket_closed 0
    ∷ connect_called 2
    ∷ socket_closed 2
    ∷ close_called
    ∷ reconnect_due 1
    ∷ []

closed_client_dials : (run redial fresh).state ≡ connecting
unfolding new_client run step connect connect_socket connect_to_url on_open finish_open resubscribe
    settle_connect settle_promise settle_resolvers on_close reject_all refuse_connect retry
    schedule_reconnect close cancel_reconnect on_timer on_reconnect
closed_client_dials = refl
