-- ===== src/Browser/Client/Events.antt =====
-- What can happen to the browser's WormDB, and its answer. A continuation behind an `await` is an
-- event of its own, which may come at any time.
use wormdb.Base.{
  Bool, if◌then◌else◌, ℕ, true, false, [], ◌∷◌, none, some, List, JsString, ◌==◌, Option, ◌||◌,
  Result, Error,
}
use wormdb.Wire.Bytes.{Bytes}
use wormdb.Browser.{browser_sub, encode_unsub}
use wormdb.Browser.Client.{
  BrowserDb, Owner, caller, disconnected, request, close, connect_to_url, on_reconnect, remove_id,
}
use wormdb.Browser.Client.Handlers.{Channel, register, deregister}
use wormdb.Browser.Client.Probe.{probe_fastest}
use wormdb.Browser.Client.Sockets.{
  connect, on_open, on_token, on_authenticated, on_message, on_close, on_timeout, socket_of,
}

-- `new WormDB(options)`; the list of urls is not empty.
unfoldable pub new_client : List JsString → ℕ → Bool → ℕ → Bool → BrowserDb
new_client urls timeout_ms auto_reconnect max_delay has_token_provider = record {
  urls = urls;
  timeout_ms = timeout_ms;
  auto_reconnect = auto_reconnect;
  max_reconnect_delay_ms = max_delay;
  has_token_provider = has_token_provider;
  ws = none;
  sockets = [];
  next_id = 0;
  active_url = [];
  pending = [];
  channels = [];
  global_handler = none;
  reconnect_attempt = 0;
  reconnect_timer = none;
  timers = [];
  closed = false;
  state = disconnected;
  connect_resolvers = [];
  settled = [];
  connects = [];
  delivered = [];
  sent = [];
}

pub data BrowserEvent : Type 0 where
  connect_called : ℕ → BrowserEvent
  probed : ℕ → List (Option ℕ) → BrowserEvent
  opened socket_closed reconnect_due : ℕ → BrowserEvent
  token_ready : ℕ → Result Bytes → BrowserEvent
  authenticated : ℕ → Option Error → BrowserEvent
  message_in : Bytes → BrowserEvent
  timed_out_for : Owner → BrowserEvent
  asked : ℕ → Result Bytes → BrowserEvent
  subscribe unsubscribe : ℕ → JsString → ℕ → BrowserEvent
  listen : ℕ → BrowserEvent
  close_called : BrowserEvent

abbrev pub is_set : ℕ → List ℕ → Bool
is_set i [] = false
is_set i (j ∷ js) = j == i || is_set i js

unfoldable pub on_timer : ℕ → BrowserDb → BrowserDb
on_timer i s =
    if is_set i s.timers then on_reconnect (record s { timers = remove_id i s.timers }) else s

unfoldable pub unsubscribed : ℕ → JsString → BrowserDb → List Channel × Bool → BrowserDb
unsubscribed id name s (cs, true) =
    request (caller id) (encode_unsub name) (record s { channels = cs })
unsubscribed id name s (cs, false) = record s { channels = cs }

unfoldable pub step : BrowserEvent → BrowserDb → BrowserDb
step (connect_called id) s = connect id s
step (probed id results) s = connect_to_url (probe_fastest s.urls results) (some id) s
step (opened k) s = on_open k s
step (socket_closed k) s = on_close (socket_of k s.sockets) s
step (reconnect_due i) s = on_timer i s
step (token_ready k r) s = on_token k r s
step (authenticated k e) s = on_authenticated k e s
step (message_in message) s = on_message message s
step (timed_out_for o) s = on_timeout o s
step (asked id frame) s = request (caller id) frame s
step (subscribe id name h) s =
    request (caller id) (browser_sub name) (record s { channels = register name h s.channels })
step (unsubscribe id name h) s = unsubscribed id name s (deregister name h s.channels)
step (listen h) s = record s { global_handler = some h }
step close_called s = close s

unfoldable pub run : List BrowserEvent → BrowserDb → BrowserDb
run [] s = s
run (e ∷ es) s = run es (step e s)
