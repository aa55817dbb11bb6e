-- ===== src/Dashboard.antt =====
-- The server of the web dashboard, apps/bun/src/bin/ui.ts: the pool of endpoints with its failover,
-- the subscription to cluster events, and the status that it pushes.
pub mod Peers
pub mod Events
pub mod Keys
pub mod Kept
pub mod Pool
pub mod Watch
pub mod Failover
pub mod Addresses
pub mod Dedupe
pub mod Containers
pub mod Diagnostics
mod Tests
use wormdb.Base.{
  Bool, if◌then◌else◌, ◌>>=◌, ◌∙◌, ℕ, zero, suc, ◌+◌, ◌≡◌, refl, inl, inr, true, false, [], ◌∷◌,
  ◌++◌, none, some, arith, ◌⊎◌, ◌<◌, ◌≤◌, List, JsString, Result, leb, Option, ◌&&◌, length, ltb,
  ◌||◌, ok, ◌==◌, err, not,
}
use wormdb.Managed.Subscribe.{same_text}
use wormdb.Wire.Response.{WormResponse, bulk, event, is_event_code, decode_response}
use wormdb.Wire.Command.{sub}
use wormdb.Dashboard.Peers.{Peer, Endpoint, discover, parse_peers}
use wormdb.Managed.State.{is_some}
use wormdb.Wire.Encode.{encode_command_frame}
use wormdb.Wire.Bytes.{Bytes}
use wormdb.Wire.Frame.{receive}
use wormdb.Text.{codes, decimal}
use wormdb.Client.{wire_magic}

-- `${ep.host}:${ep.port}`
unfoldable pub key : Endpoint → JsString
key ep = ep.host ++ (58 ∷ decimal ep.port)

-- What the browsers are sent: an event, a status, or that the target does not answer.
pub data Broadcast : Type 0 where
  event_seen : JsString → JsString → Broadcast
  target_up : Endpoint → JsString → WormResponse → WormResponse → List Peer → ℕ → Broadcast
  target_down : Endpoint → ℕ → Broadcast

-- `timer` is true while the reconnect timer of the subscription is set. `dials` are the calls of
-- `Bun.connect`, each with its target, `sent` the writes on their sockets.
pub record Dashboard : Type 0 where
  pub active : Endpoint
  pub known : List Endpoint
  pub failures : ℕ
  pub last_peers : List Peer
  pub event_socket : Option ℕ
  pub is_connecting : Bool
  pub inbound : Bytes
  pub timer : Bool
  pub dials : List (ℕ × Endpoint)
  pub ended : List ℕ
  pub next_id : ℕ
  pub sent : List (ℕ × Bytes)
  pub broadcasts : List Broadcast

unfoldable pub broadcast : Broadcast → Dashboard → Dashboard
broadcast b s = record s { broadcasts = s.broadcasts ++ (b ∷ []) }

unfoldable pub schedule_event_reconnect : Dashboard → Dashboard
schedule_event_reconnect s = if s.timer then s else record s { timer = true }

unfoldable pub setup_event_subscription : Dashboard → Dashboard
setup_event_subscription s = if is_some s.event_socket || s.is_connecting then s else record s {
  is_connecting = true;
  dials = (s.next_id, s.active) ∷ s.dials;
  next_id = s.next_id + 1;
}

-- `knownEndpoints.filter(…)[0]`
unfoldable pub first_other : JsString → List Endpoint → Option Endpoint
first_other current [] = none
first_other current (ep ∷ eps) =
    if same_text (key ep) current then first_other current eps else some ep

-- `eventSocket.end(); eventSocket = null`, if there is one.
unfoldable pub end_event_socket : Option ℕ → Dashboard → Dashboard
end_event_socket none s = s
end_event_socket (some k) s = record s { ended = k ∷ s.ended; event_socket = none }

unfoldable pub fail_to : Option Endpoint → Dashboard → Dashboard
fail_to none s = s
fail_to (some next) s =
    setup_event_subscription
      (end_event_socket s.event_socket (record s { active = next; failures = 0 }))

unfoldable pub failover_to_next : Dashboard → Dashboard
failover_to_next s = fail_to (first_other (key s.active) s.known) s

unfoldable pub is_current : ℕ → Option ℕ → Bool
is_current k none = false
is_current k (some j) = j == k

-- The end of `open`.
unfoldable pub write_sub : ℕ → Result Bytes → Dashboard → Dashboard
write_sub k (ok frame) s = record s { sent = s.sent ++ ((k, frame) ∷ []) }
write_sub k (err e) s = s

unfoldable pub on_open : ℕ → Dashboard → Dashboard
on_open k s = write_sub k (encode_command_frame (sub (codes "cluster") none)) (record s {
  is_connecting = false;
  event_socket = some k;
  inbound = [];
  sent = s.sent ++ ((k, wire_magic) ∷ []);
})

unfoldable pub announce : Result WormResponse → Dashboard → Dashboard
announce (ok (event channel message)) s = broadcast (event_seen channel message) s
announce _ s = s

-- The body of the loop of `data`, behind `tryConsumeFrame`.
unfoldable pub handle_frame : Dashboard → ℕ → Bytes → Dashboard
handle_frame s code payload =
    if is_event_code code then announce (decode_response code payload) s else s

abbrev pub with_inbound : Result (Dashboard × Bytes) → Result Dashboard
with_inbound (ok (s, rest)) = ok (record s { inbound = rest })
with_inbound (err e) = err e

unfoldable pub on_data : ℕ → Bytes → Dashboard → Result Dashboard
on_data k chunk s =
    if is_current k s.event_socket
    then with_inbound (receive handle_frame s s.inbound chunk)
    else ok s

unfoldable pub on_close : ℕ → Dashboard → Dashboard
on_close k s =
    if is_current k s.event_socket
    then schedule_event_reconnect (record s { event_socket = none; inbound = [] })
    else s

unfoldable pub on_error : ℕ → Dashboard → Dashboard
on_error k s =
    if is_some s.event_socket && not (is_current k s.event_socket)
    then s
    else schedule_event_reconnect
        (record s { event_socket = none; is_connecting = false; inbound = [] })

-- The promise of `Bun.connect` is rejected.
unfoldable pub on_connect_failed : Dashboard → Dashboard
on_connect_failed s =
    schedule_event_reconnect (record s { is_connecting = false; event_socket = none; inbound = [] })

unfoldable pub on_timer : Dashboard → Dashboard
on_timer s = if s.timer then setup_event_subscription (record s { timer = false }) else s

-- `pushStatus` once the three requests are answered; those were made of `target`.
module _ (number : JsString → ℕ) where
  unfoldable pub learn_peers : JsString × ℕ × List Peer → Dashboard → Dashboard
  learn_peers (self_ip, self_port, []) s = record s { last_peers = [] }
  learn_peers (self_ip, self_port, p ∷ ps) s =
      let t = record s { last_peers = p ∷ ps } in
      if ltb 0 self_port then record t { known = discover (p ∷ ps) self_port t.known } else t

  abbrev pub peers_text : Option WormResponse → Option JsString
  peers_text (some (bulk [])) = none
  peers_text (some (bulk (c ∷ s))) = some (c ∷ s)
  peers_text _ = none

  unfoldable pub status_up :
      Endpoint → WormResponse → WormResponse → Option JsString → Dashboard → Dashboard
  status_up target response cluster none s =
      broadcast (target_up target [] response cluster [] (length s.known))
        (record s { failures = 0 })
  status_up target response cluster (some text) s =
      let parsed = parse_peers number text in
      let t = learn_peers parsed (record s { failures = 0 }) in
      broadcast (target_up target parsed.0 response cluster parsed.2 (length t.known)) t

unfoldable pub status_down : Endpoint → Dashboard → Dashboard
status_down target s =
    let t =
      broadcast (target_down target (s.failures + 1)) (record s { failures = s.failures + 1 }) in
    if leb 2 t.failures && ltb 1 (length t.known) then failover_to_next t else t
