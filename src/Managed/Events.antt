-- ===== src/Managed/Events.antt =====
-- What can happen to a WormDB, and its answer.
use wormdb.Base.{
  Option, Result, ok, err, Bool, ◌||◌, ◌==◌, if◌then◌else◌, Error, JsString, ◌>>=◌, ℕ, true, false,
  [], ◌∷◌, none, some, List, ◌&&◌,
}
use wormdb.Wire.Bytes.{Bytes}
use wormdb.Wire.Command.{sub, unsub}
use wormdb.Managed.State.{Db, Config, Pending, idle, SubEntry, is_some, is_ready, rejected}
use wormdb.Managed.Subscribe.{register, subscribed, remove_handler, keep_token}
use wormdb.Managed.{
  request_raw, settle, on_request_timeout, on_connect_failed, handle_disconnect, on_reconnect_timer,
  close,
}
use wormdb.Wire.Encode.{encode_command_frame}
use wormdb.Managed.Open.{on_open}
use wormdb.Managed.Receive.{on_data, on_drain}
use wormdb.Managed.Ping.{on_ping}

-- `new WormDB(options)`.
unfoldable pub new_db : Config → Db
new_db c = record {
  config = c;
  state = idle;
  socket = none;
  inbound = [];
  pending = [];
  link = record { accepted = []; calls = 0; backlog = [] };
  waiters = [];
  subs = [];
  auth_token = none;
  attempts = 0;
  reconnect_timer = none;
  ping_timer = false;
  is_connecting = false;
  generation = 0;
  settled = [];
  delivered = [];
  dials = 0;
}

-- `opened` is the `open` callback with the resolution of Bun.connect; `refused` is its rejection;
-- `timeout` is the timer of a request made in the given generation.
pub data Event : Type 0 where
  request : ℕ → Result Bytes → Event
  subscribe : ℕ → JsString → ℕ → Option JsString → Event
  acknowledged : JsString → Event
  unsubscribe : ℕ → JsString → ℕ → Event
  authenticated : Bytes → Event
  opened timeout : ℕ → Event
  refused errored : Error → Event
  data_in : Bytes → Event
  drained hung_up reconnect_due close_called : Event
  ping_due : Bool → Event

unfoldable pub in_generation : ℕ → List Pending → Bool
in_generation g [] = false
in_generation g (p ∷ ps) = p.generation == g || in_generation g ps

module _ (answer : ℕ → Option ℕ) where
  -- `this.request(encode…)`: an encoder that throws rejects the call.
  unfoldable pub send : ℕ → Result Bytes → Db → Db
  send id (ok frame) s = request_raw answer id frame s
  send id (err e) s = settle id (rejected e) s

  unfoldable pub subscribe_with : ℕ → JsString → Option JsString → Db → List SubEntry × Bool → Db
  subscribe_with id channel filter s (subs, true) =
      send id (encode_command_frame (sub channel filter)) (record s { subs = subs })
  subscribe_with id channel filter s (subs, false) = record s { subs = subs }

  -- The server is told only over a live connection.
  unfoldable pub unsubscribe_with : ℕ → JsString → Db → List SubEntry × Bool → Db
  unsubscribe_with id channel s (subs, gone) =
      if gone && (is_some s.socket && is_ready s.state)
      then send id (encode_command_frame (unsub channel)) (record s { subs = subs })
      else record s { subs = subs }

  unfoldable pub step : Event → Db → Result Db
  step (request id r) s = ok (send id r s)
  step (subscribe id channel h filter) s =
      ok (subscribe_with id channel filter s (register channel h filter s.subs))
  step (acknowledged channel) s = ok (record s { subs = subscribed channel s.subs })
  step (unsubscribe id channel h) s =
      ok (unsubscribe_with id channel s (remove_handler channel h s.subs))
  step (authenticated token) s = ok (keep_token token s)
  step (opened k) s = ok (on_open answer k s)
  step (timeout g) s = ok (if in_generation g s.pending then on_request_timeout g s else s)
  step (refused e) s = ok (on_connect_failed e s)
  step (errored e) s = ok (handle_disconnect (some e) s)
  step (data_in chunk) s = on_data chunk s
  step drained s = ok (on_drain answer s)
  step hung_up s = ok (handle_disconnect none s)
  step reconnect_due s = ok (on_reconnect_timer s)
  step close_called s = ok (close s)
  step (ping_due quiet) s = ok (on_ping answer quiet s)

  unfoldable pub run : List Event → Db → Result Db
  run [] s = ok s
  run (e ∷ es) s = do s' ← step e s; run es s'
