-- ===== src/Managed/Receive.antt =====
-- `onData`, `dispatchEvent` and the drain callback of WormDB.
use wormdb.Base.{
  Option, Result, ok, Bool, if◌then◌else◌, JsString, ◌>>=◌, ℕ, true, false, [], ◌∷◌, ◌++◌, ◌==◌,
  List, ◌&&◌,
}
use wormdb.Wire.Bytes.{Bytes}
use wormdb.Wire.Response.{event, WormResponse, is_event_code, decode_response}
use wormdb.Managed.State.{Db, SubEntry, Pending, raw_frame}
use wormdb.Wire.Frame.{receive}
use wormdb.Link.{flush_backlog}
use wormdb.Managed.{settle_owner}

-- `evt.channel === channel || evt.channel.startsWith(channel)`
unfoldable pub starts_with : JsString → JsString → Bool
starts_with text [] = true
starts_with [] (p ∷ prefix) = false
starts_with (c ∷ text) (p ∷ prefix) = c == p && starts_with text prefix

unfoldable pub hand_to : JsString → JsString → List ℕ → List (ℕ × JsString × JsString)
hand_to channel message [] = []
hand_to channel message (h ∷ hs) = (h, channel, message) ∷ hand_to channel message hs

-- The handler calls of an event; what a handler throws is swallowed.
unfoldable pub dispatch : JsString → JsString → List SubEntry → List (ℕ × JsString × JsString)
dispatch channel message [] = []
dispatch channel message (e ∷ es) =
    (if starts_with channel e.channel then hand_to channel message e.handlers else [])
    ++ dispatch channel message es

unfoldable pub dispatch_event : Result WormResponse → Db → Db
dispatch_event (ok (event channel message)) s = record s {
  delivered = s.delivered ++ dispatch channel message s.subs;
}
dispatch_event r s = s

-- `pendingQueue.shift()` and its resolution.
unfoldable pub deliver : List Pending → ℕ → Bytes → Db → Db
deliver [] code payload s = s
deliver (p ∷ ps) code payload s =
    settle_owner p.owner (raw_frame code payload) (record s { pending = ps })

unfoldable pub handle_frame : Db → ℕ → Bytes → Db
handle_frame s code payload =
    if is_event_code code
    then dispatch_event (decode_response code payload) s
    else deliver s.pending code payload s

unfoldable pub on_data : Bytes → Db → Result Db
on_data chunk s = do
  (s', rest) ← receive handle_frame s s.inbound chunk
  ok (record s' { inbound = rest })

unfoldable pub on_drain : (ℕ → Option ℕ) → Db → Db
on_drain answer s = record s { link = flush_backlog answer s.link }
