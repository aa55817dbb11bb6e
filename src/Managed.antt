-- ===== src/Managed.antt =====
-- The connection engine of WormDB, apps/bun/src/lib/wormdb.ts: every method that changes the
-- connection's state. `open` and the resolution of `Bun.connect` that follows it are one event.
pub mod State
pub mod Open
pub mod Receive
pub mod Subscribe
pub mod Ping
pub mod Events
pub mod Invariant
pub mod Ending
pub mod Torn
pub mod Late
pub mod Dispatch
mod Tests
use wormdb.Base.{
  Option, Result, ok, err, Bool, not, ◌||◌, ◌&&◌, ltb, leb, ◌==◌, min, ◌*◌, ◌^◌, length, map,
  if◌then◌else◌, Error, timed_out, connection_closed, JsString, ◌>>=◌, ◌∙◌, ℕ, zero, suc, ◌+◌, ◌≡◌,
  refl, inl, inr, true, false, [], ◌∷◌, ◌++◌, none, some, arith, ◌⊎◌, ◌<◌, ◌≤◌, List,
}
use wormdb.Wire.Bytes.{Bytes}
use wormdb.Link.{Link, fresh_link, write_or_queue}
use wormdb.Managed.State.{
  Pending, Config, Owner, Db, DbState, caller, is_some, is_closed, is_ready, internal, idle,
  reconnecting, connecting, rejected, closed, Outcome,
}

abbrev pub outcomes : Outcome → List Pending → List (ℕ × Outcome)
outcomes o [] = []
outcomes o (p ∷ ps) = elim p.owner [
  | internal ↦ outcomes o ps
  | caller id ↦ (id, o) ∷ outcomes o ps
]

-- `rejectAllPending`.
pub reject_all_pending : Error → Db → Db
reject_all_pending e s = record s {
  settled = s.settled ++ outcomes (rejected e) s.pending;
  pending = [];
}

abbrev pub waiters_rejected : Error → List (ℕ × Bytes) → List (ℕ × Outcome)
waiters_rejected e [] = []
waiters_rejected e ((id, frame) ∷ ws) = (id, rejected e) ∷ waiters_rejected e ws

pub reject_ready_waiters : Error → Db → Db
reject_ready_waiters e s = record s {
  settled = s.settled ++ waiters_rejected e s.waiters;
  waiters = [];
}

pub stop_ping : Db → Db
stop_ping s = record s { ping_timer = false }

pub start_ping : Db → Db
start_ping s =
    if leb s.config.ping_interval_ms 0 || s.ping_timer then s else record s { ping_timer = true }

pub drop_link : Db → Db
drop_link s = record s { inbound = []; link = record (s.link) { backlog = [] } }

-- The method `close()`.
pub close : Db → Db
close s =
    drop_link
      (record (reject_ready_waiters connection_closed (
        reject_all_pending connection_closed
          (stop_ping (record s { state = closed; reconnect_timer = none })))) { socket = none })

-- `Math.min(maxDelayMs, minDelayMs * 2 ** reconnectAttempts)`.
pub backoff : Config → ℕ → ℕ
backoff c attempts = min c.max_delay_ms (c.min_delay_ms * 2 ^ attempts)

pub exhausted : Option ℕ → ℕ → Bool
exhausted none attempts = false
exhausted (some n) attempts = leb n attempts

-- The timer's delay is backoff / 2 and a random part of as much again; `reconnect_timer` keeps the
-- backoff.
pub schedule_reconnect : Db → Db
schedule_reconnect s =
    if is_some s.reconnect_timer || s.is_connecting || is_closed s.state
    then s
    else if exhausted s.config.max_attempts s.attempts
    then reject_ready_waiters connection_closed (record s { state = closed })
    else record s {
      reconnect_timer = some (backoff s.config s.attempts);
      attempts = s.attempts + 1;
    }

pub cause_of : Option Error → Error
cause_of none = connection_closed
cause_of (some e) = e

pub after_disconnect : Error → Db → Db
after_disconnect e s =
    if is_closed s.state
    then s
    else if not s.config.enabled
    then reject_ready_waiters e (record s { state = idle })
    else schedule_reconnect (record s { state = reconnecting })

pub handle_disconnect : Option Error → Db → Db
handle_disconnect cause s =
    after_disconnect (cause_of cause)
      (reject_all_pending (cause_of cause) (stop_ping (drop_link (record s { socket = none }))))

pub fail_connection : Error → Db → Db
fail_connection e s =
    let s' = reject_all_pending e s in
    if is_some s.socket then handle_disconnect none (record s' { socket = none }) else s'

pub open_socket : Db → Db
open_socket s =
    if s.is_connecting || is_closed s.state
    then s
    else record s { is_connecting = true; dials = s.dials + 1 }

-- The reconnect timer fires.
pub on_reconnect_timer : Db → Db
on_reconnect_timer s =
    if is_some s.reconnect_timer then open_socket (record s { reconnect_timer = none }) else s

pub connecting_from : DbState → DbState
connecting_from idle = connecting
connecting_from st = st

-- The timer of a request that still waits; it compares the generation that it was made in.
pub on_request_timeout : ℕ → Db → Db
on_request_timeout generation s =
    if s.generation == generation then fail_connection (timed_out s.config.timeout_ms) s else s

-- `connect` is refused.
pub on_connect_failed : Error → Db → Db
on_connect_failed e s = handle_disconnect (some e) (record s { is_connecting = false })

pub settle : ℕ → Outcome → Db → Db
settle id o s = record s { settled = s.settled ++ ((id, o) ∷ []) }

pub settle_owner : Owner → Outcome → Db → Db
settle_owner internal o s = s
settle_owner (caller id) o s = settle id o s

unfoldable pub drop_last : List Pending → List Pending
drop_last [] = []
drop_last (p ∷ []) = []
drop_last (p ∷ q ∷ ps) = p ∷ drop_last (q ∷ ps)

-- `enqueuePending`.
unfoldable pub enqueue_pending : Owner → Db → Db
enqueue_pending o s = record s {
  pending = s.pending ++ (record { owner = o; generation = s.generation } ∷ []);
}

pub finish_send : ℕ → Option Error → Db → Db
finish_send id none s = s
finish_send id (some e) s = settle id (rejected e) (record s { pending = drop_last s.pending })

module _ (answer : ℕ → Option ℕ) where
  -- `requestRaw`, once it has its socket.
  pub send_raw : ℕ → Bytes → Db → Db
  send_raw id frame s =
      let (link', thrown) = write_or_queue answer s.link frame in
      finish_send id thrown (record (enqueue_pending (caller id) s) { link = link' })

  -- `requestRaw` and the loop of `ensureReady`: send now, be refused, or wait, dialling first if
  -- nothing is under way.
  pub request_raw : ℕ → Bytes → Db → Db
  request_raw id frame s =
      let parked = λ (t : Db). record t { waiters = t.waiters ++ ((id, frame) ∷ []) } in
      if is_closed s.state
      then settle id (rejected connection_closed) s
      else if is_some s.socket && is_ready s.state
      then send_raw id frame s
      else if not s.is_connecting && not (is_some s.reconnect_timer)
      then parked (open_socket (record s { state = connecting_from s.state }))
      else parked s

  -- What a woken waiter does: it runs the loop of `ensureReady` again.
  pub resume : List (ℕ × Bytes) → Db → Db
  resume [] s = s
  resume ((id, frame) ∷ ws) s = resume ws (request_raw id frame s)
