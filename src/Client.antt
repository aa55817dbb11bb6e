-- ===== src/Client.antt =====
-- WormClient of apps/bun/src/lib/client.ts with keepAlive: one socket, a queue of requests that
-- wait for their responses, and the callbacks of Bun's socket. A request is a number; what its
-- promise became stands in `settled`. A promise of a pending request has an armed timer, which
-- settling clears.
pub mod Counts
pub mod Conservation
pub mod Fifo
pub mod Late
mod Tests
use wormdb.Base.{
  Option, Result, ok, err, Bool, ltb, ◌==◌, length, map, if◌then◌else◌, Error, timed_out,
  connection_closed, out_of_fuel, JsString, ◌>>=◌, ◌∙◌, ℕ, zero, suc, ◌+◌, ◌≡◌, refl, inl, inr,
  true, false, [], ◌∷◌, ◌++◌, none, some, arith, ◌⊎◌, ◌<◌, ◌≤◌, List, ◌||◌,
}
use wormdb.Wire.Bytes.{Bytes}
use wormdb.Wire.Response.{WormResponse, decode_response, is_event_code}
use wormdb.Link.{Link, flush_backlog, write_or_queue, fresh_link, socket_write}
use wormdb.Wire.Command.{ParsedCommand}
use wormdb.Wire.Frame.{receive}
use wormdb.Wire.Encode.{encode_command_frame}

pub data Outcome : Type 0 where
  resolved : WormResponse → Outcome
  rejected : Error → Outcome

pub record Client : Type 0 where
  pub timeout_ms : ℕ
  pub socket : Option ℕ
  pub connecting : Bool
  pub parked : List (ℕ × Bytes)
  pub inbound : Bytes
  pub pending : List ℕ
  pub link : Link
  pub settled : List (ℕ × Outcome)

-- `new WormClient(options)`.
pub new_client : ℕ → Client
new_client timeout_ms = record {
  timeout_ms = timeout_ms;
  socket = none;
  connecting = false;
  parked = [];
  inbound = [];
  pending = [];
  link = fresh_link;
  settled = [];
}

abbrev pub wire_magic : Bytes
wire_magic = 0x57 ∷ 0x57 ∷ []

-- A promise settled.
pub settle : ℕ → Outcome → Client → Client
settle id o s = record s { settled = s.settled ++ ((id, o) ∷ []) }

abbrev pub all_rejected : Error → List ℕ → List (ℕ × Outcome)
all_rejected e [] = []
all_rejected e (id ∷ ids) = (id, rejected e) ∷ all_rejected e ids

pub reject_all_pending : Error → Client → Client
reject_all_pending e s = record s { settled = s.settled ++ all_rejected e s.pending; pending = [] }

-- `resolve(decodeResponse(…))`; decode_response_total says that nothing is thrown.
abbrev pub outcome_of : Result WormResponse → Outcome
outcome_of (ok r) = resolved r
outcome_of (err e) = rejected e

-- `this.pendingQueue.shift()` and its resolution; a response that nobody waits for is dropped.
pub deliver : List ℕ → ℕ → Bytes → Client → Client
deliver [] code payload s = s
deliver (id ∷ ids) code payload s =
    settle id (outcome_of (decode_response code payload)) (record s { pending = ids })

pub handle_frame : Client → ℕ → Bytes → Client
handle_frame s code payload = if is_event_code code then s else deliver s.pending code payload s

-- The `data` callback.
pub on_data : Bytes → Client → Result Client
on_data chunk s = do
  (s', rest) ← receive handle_frame s s.inbound chunk
  ok (record s' { inbound = rest })

-- The timer of a request: cleared once it is settled, so it fires only while the request waits.
pub waits : ℕ → List ℕ → Bool
waits id [] = false
waits id (i ∷ ids) = i == id || waits id ids

pub on_timeout : ℕ → Client → Client
on_timeout id s = if waits id s.pending then reject_all_pending (timed_out s.timeout_ms) s else s

-- `close` and `error` of the socket.
pub on_error : Error → Client → Client
on_error e s =
    reject_all_pending e
      (record s { socket = none; connecting = false; link = record (s.link) { backlog = [] } })

pub on_close : Client → Client
on_close s = on_error connection_closed s

-- The method `close()`.
pub close : Client → Client
close s = record (reject_all_pending connection_closed s) {
  socket = none;
  connecting = false;
  inbound = [];
}

-- The last promise of the queue, and the queue without it: `this.pendingQueue.pop()`.
pub drop_last : List ℕ → List ℕ
drop_last [] = []
drop_last (id ∷ []) = []
drop_last (id ∷ i ∷ ids) = id ∷ drop_last (i ∷ ids)

-- The request is the last of the queue, so `pop` takes it off again if the write threw.
pub finish_send : ℕ → Option Error → Client → Client
finish_send id none s = s
finish_send id (some e) s = settle id (rejected e) (record s { pending = drop_last s.pending })

module _ (answer : ℕ → Option ℕ) where
  -- The body of the promise of sendPersistent, once it has its socket.
  pub send_on : ℕ → Bytes → Client → Client
  send_on id frame s =
      let (link', thrown) = write_or_queue answer s.link frame in
      finish_send id thrown (record s { pending = s.pending ++ (id ∷ []); link = link' })

  pub send_parked : List (ℕ × Bytes) → Client → Client
  send_parked [] s = s
  send_parked ((id, frame) ∷ ps) s = send_parked ps (send_on id frame s)

  -- `getOrCreateSocket`: the socket at hand, or a place behind the connection under way, which is
  -- started if there is none.
  pub send_by : Option ℕ → ℕ → Bytes → Client → Client
  send_by (some k) id frame s = send_on id frame s
  send_by none id frame s = record s { connecting = true; parked = s.parked ++ ((id, frame) ∷ []) }

  pub send_frame : ℕ → Bytes → Client → Client
  send_frame id frame s = send_by s.socket id frame s

  pub send_persistent : ℕ → ParsedCommand → Client → Client
  send_persistent id command s = elim (encode_command_frame command) [
    | ok frame ↦ send_frame id frame s
    | err e ↦ settle id (rejected e) s
  ]

  -- `open`: a new socket, an empty inbound buffer, and the magic, whose result is not looked at.
  pub on_open : ℕ → Client → Client
  on_open k s = record s {
    socket = some k;
    inbound = [];
    link = (socket_write answer (record (s.link) { accepted = [] }) wire_magic).0;
  }

  -- The promise of `Bun.connect` resolves, and those behind it go on in order; or it rejects.
  pub on_connected : Client → Client
  on_connected s = send_parked s.parked (record s { connecting = false; parked = [] })

  pub on_drain : Client → Client
  on_drain s = record s { link = flush_backlog answer s.link }

abbrev pub parked_ids : List (ℕ × Bytes) → List ℕ
parked_ids [] = []
parked_ids ((id, frame) ∷ ps) = id ∷ parked_ids ps

pub on_connect_failed : Error → Client → Client
on_connect_failed e s = record s {
  connecting = false;
  parked = [];
  settled = s.settled ++ all_rejected e (parked_ids s.parked);
}

-- What can happen to a client.
pub data Event : Type 0 where
  request : ℕ → ParsedCommand → Event
  opened : ℕ → Event
  connected : Event
  connect_failed errored : Error → Event
  data_in : Bytes → Event
  drained closed close_called : Event
  timer : ℕ → Event

pub step : (ℕ → Option ℕ) → Event → Client → Result Client
step answer (request id command) s = ok (send_persistent answer id command s)
step answer (opened k) s = ok (on_open answer k s)
step answer connected s = ok (on_connected answer s)
step answer (connect_failed e) s = ok (on_connect_failed e s)
step answer (errored e) s = ok (on_error e s)
step answer (data_in chunk) s = on_data chunk s
step answer drained s = ok (on_drain answer s)
step answer closed s = ok (on_close s)
step answer close_called s = ok (close s)
step answer (timer id) s = ok (on_timeout id s)

pub run : (ℕ → Option ℕ) → List Event → Client → Result Client
run answer [] s = ok s
run answer (e ∷ es) s = do s' ← step answer e s; run answer es s'
