-- ===== src/Browser/Client.antt =====
-- WormDB of the browser, apps/browser/src/client.ts: its state, and the methods that change it.
pub mod Handlers
pub mod Commands
pub mod Probe
pub mod Sockets
pub mod Events
pub mod Counts
pub mod Answers
pub mod Conservation
pub mod Alike
pub mod Closing
pub mod Invariant
pub mod Calls
pub mod Fifo
pub mod Flaws
mod Tests
use wormdb.Base.{
  Bool, ◌>>=◌, ◌∙◌, ℕ, zero, suc, ◌+◌, ◌≡◌, refl, inl, inr, true, false, [], ◌∷◌, ◌++◌, none, some,
  arith, ◌⊎◌, ◌<◌, ◌≤◌, Result, Error, min, Option, JsString, List, ◌%◌, plain_error, ok, length,
  ◌*◌, err, ◌^◌, if◌then◌else◌, ◌==◌,
}
use wormdb.Text.{codes}
use wormdb.Wire.Bytes.{Bytes}
use wormdb.Browser.{BrowserResponse, browser_sub}
use wormdb.Browser.Client.Handlers.{Channel}
use Prim.Native.String.{String}

pub data BrowserState : Type 0 where
  disconnected connecting connected : BrowserState

pub data BrowserOutcome : Type 0 where
  resolved : BrowserResponse → BrowserOutcome
  rejected : Error → BrowserOutcome

-- Whose promise a request settles: a caller's, that of the authentication in `onopen` of a socket,
-- or that of a repeated subscription, which nobody reads.
pub data Owner : Type 0 where
  caller opening repeated : ℕ → Owner

-- A `WebSocket` with the closures of `connectToUrl`. The promise is that of a call of `connect`, or
-- of a reconnect, which catches it. Without `watched`, `onclose` is null.
pub record Sock : Type 0 where
  pub sid : ℕ
  pub url : JsString
  pub promise : Option ℕ
  pub watched : Bool

-- `timers` are the reconnect timers that are set, `reconnect_timer` the one that the client knows.
-- What the world sees: the settled requests, those of `connect`, the calls of handlers, the frames.
pub record BrowserDb : Type 0 where
  pub urls : List JsString
  pub timeout_ms : ℕ
  pub auto_reconnect : Bool
  pub max_reconnect_delay_ms : ℕ
  pub has_token_provider : Bool
  pub ws : Option ℕ
  pub sockets : List Sock
  pub next_id : ℕ
  pub active_url : JsString
  pub pending : List Owner
  pub channels : List Channel
  pub global_handler : Option ℕ
  pub reconnect_attempt : ℕ
  pub reconnect_timer : Option ℕ
  pub timers : List ℕ
  pub closed : Bool
  pub state : BrowserState
  pub connect_resolvers : List ℕ
  pub settled : List (Owner × BrowserOutcome)
  pub connects : List (ℕ × Option Error)
  pub delivered : List (ℕ × JsString × JsString)
  pub sent : List (ℕ × Bytes)

abbrev pub is_connected : BrowserState → Bool
is_connected connected = true
is_connected _ = false

abbrev pub is_connecting : BrowserState → Bool
is_connecting connecting = true
is_connecting _ = false

-- `WormDBError` and `Error` with a message.
abbrev pub fault : String → Error
fault message = plain_error (codes message)

unfoldable pub settle : Owner → BrowserOutcome → BrowserDb → BrowserDb
settle o x s = record s { settled = s.settled ++ ((o, x) ∷ []) }

abbrev pub all_rejected : Error → List Owner → List (Owner × BrowserOutcome)
all_rejected e [] = []
all_rejected e (o ∷ os) = (o, rejected e) ∷ all_rejected e os

unfoldable pub reject_all : Error → BrowserDb → BrowserDb
reject_all e s = record s { settled = s.settled ++ all_rejected e s.pending; pending = [] }

-- A promise that is resolved again stays as it is: `connects` may name a call twice, and the first
-- entry counts.
unfoldable pub settle_promise : Option ℕ → Option Error → BrowserDb → BrowserDb
settle_promise none e s = s
settle_promise (some id) e s = record s { connects = s.connects ++ ((id, e) ∷ []) }

abbrev pub with_all : Option Error → List ℕ → List (ℕ × Option Error)
with_all e [] = []
with_all e (id ∷ ids) = (id, e) ∷ with_all e ids

unfoldable pub settle_resolvers : Option Error → BrowserDb → BrowserDb
settle_resolvers e s = record s {
  connects = s.connects ++ with_all e s.connect_resolvers;
  connect_resolvers = [];
}

-- `request`.
unfoldable pub request_on : Option ℕ → Owner → Bytes → BrowserDb → BrowserDb
request_on none o frame s = settle o (rejected (fault "not connected")) s
request_on (some k) o frame s =
    if is_connected s.state
    then record s { pending = s.pending ++ (o ∷ []); sent = s.sent ++ ((k, frame) ∷ []) }
    else settle o (rejected (fault "not connected")) s

-- `this.request(encode…)`; an encoder that throws rejects the call.
unfoldable pub request : Owner → Result Bytes → BrowserDb → BrowserDb
request o (ok frame) s = request_on s.ws o frame s
request o (err e) s = settle o (rejected e) s

-- `new WebSocket(url)` in `connectToUrl`.
unfoldable pub connect_to_url : JsString → Option ℕ → BrowserDb → BrowserDb
connect_to_url url promise s = record s {
  active_url = url;
  next_id = s.next_id + 1;
  sockets = record { sid = s.next_id; url = url; promise = promise; watched = true } ∷ s.sockets;
}

abbrev pub remove_id : ℕ → List ℕ → List ℕ
remove_id i [] = []
remove_id i (j ∷ js) = if j == i then js else j ∷ remove_id i js

abbrev pub clear_timer : Option ℕ → List ℕ → List ℕ
clear_timer none ts = ts
clear_timer (some i) ts = remove_id i ts

unfoldable pub cancel_reconnect : BrowserDb → BrowserDb
cancel_reconnect s = record s {
  timers = clear_timer s.reconnect_timer s.timers;
  reconnect_timer = none;
}

-- `ws.onclose = null`
abbrev pub unwatch : Option ℕ → List Sock → List Sock
unwatch none ks = ks
unwatch (some k) [] = []
unwatch (some k) (w ∷ ks) =
    (if w.sid == k then record w { watched = false } else w) ∷ unwatch (some k) ks

unfoldable pub close : BrowserDb → BrowserDb
close s =
    let t = reject_all (fault "client closed") (cancel_reconnect (record s { closed = true })) in
    record t { sockets = unwatch t.ws t.sockets; ws = none; state = disconnected; active_url = [] }

pub reconnect_delay : ℕ → ℕ → ℕ
reconnect_delay attempt max_delay = min (1000 * 2 ^ attempt) max_delay

-- The timer's delay is `reconnect_delay` of the attempts so far; it is not kept.
unfoldable pub schedule_reconnect : BrowserDb → BrowserDb
schedule_reconnect s = if s.closed then s else record s {
  reconnect_attempt = s.reconnect_attempt + 1;
  reconnect_timer = some s.next_id;
  timers = s.next_id ∷ s.timers;
  next_id = s.next_id + 1;
}

-- `this.urls[i]`; the constructor keeps a list that is not empty.
abbrev pub url_at : List JsString → ℕ → JsString
url_at [] i = []
url_at (u ∷ us) zero = u
url_at (u ∷ us) (suc i) = url_at us i

-- The callback of a reconnect timer.
unfoldable pub on_reconnect : BrowserDb → BrowserDb
on_reconnect s =
    connect_to_url (url_at s.urls (s.reconnect_attempt % length s.urls)) none
      (record s { reconnect_timer = none; state = connecting })
