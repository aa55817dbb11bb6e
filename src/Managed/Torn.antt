-- ===== src/Managed/Torn.antt =====
-- A WormDB, apps/bun/src/lib/wormdb.ts, whose connection was torn down.
use wormdb.Managed.{
  handle_disconnect, fail_connection, after_disconnect, schedule_reconnect, reject_ready_waiters,
  reject_all_pending, stop_ping, drop_link, close, settle, waiters_rejected, outcomes, open_socket,
  exhausted, cause_of,
}
use wormdb.Managed.State.{
  internal, caller, idle, closed, reconnecting, rejected, raw_frame, is_some, is_closed, Owner, Db,
  Pending, Outcome,
}
use wormdb.Base.{
  true, false, none, if◌then◌else◌, ◌∙◌, ℕ, ◌≡◌, refl, [], ◌∷◌, ◌++◌, ◌||◌, Bool, Option, not, List,
  Error, connection_closed, ap, append_assoc,
}
use wormdb.Wire.Bytes.{Bytes}
use wormdb.Link.{Link}

-- What the caller of a request sees of a lost connection.
abbrev pub AllRejected : List (ℕ × Outcome) → Type 0
AllRejected [] = Unit {0}
AllRejected ((id, rejected e) ∷ os) = AllRejected os
AllRejected ((id, raw_frame code payload) ∷ os) = ⊥

AllRejected-append :
    (os ps : List (ℕ × Outcome)) → AllRejected os → AllRejected ps → AllRejected (os ++ ps)
AllRejected-append [] ps h k = k
AllRejected-append ((id, rejected e) ∷ os) ps h k = AllRejected-append os ps h k
AllRejected-append ((id, raw_frame c p) ∷ os) ps h k = absurd h

waiters_rejected-AllRejected :
    (e : Error) (ws : List (ℕ × Bytes)) → AllRejected (waiters_rejected e ws)
waiters_rejected-AllRejected e [] = tt
waiters_rejected-AllRejected e ((id, frame) ∷ ws) = waiters_rejected-AllRejected e ws

outcomes-AllRejected : (e : Error) (ps : List Pending) → AllRejected (outcomes (rejected e) ps)
outcomes-AllRejected e [] = tt
outcomes-AllRejected e (p ∷ ps) =
    let rest = outcomes-AllRejected e ps in
    elim p.owner
      as (λ o. AllRejected (elim o [
        | internal ↦ outcomes (rejected e) ps
        | caller id ↦ (id, rejected e) ∷ outcomes (rejected e) ps
      ])) [ internal ↦ rest | caller id ↦ rest ]

abbrev rejection : Error → Owner → List (ℕ × Outcome)
rejection e internal = []
rejection e (caller id) = (id, rejected e) ∷ []

-- The rejections of the callers that wait, in their order.
abbrev pub rejections : Error → List Pending → List (ℕ × Outcome)
rejections e [] = []
rejections e (p ∷ ps) = rejection e p.owner ++ rejections e ps

outcomes-rejections : (e : Error) (ps : List Pending) → outcomes (rejected e) ps ≡ rejections e ps
outcomes-rejections e [] = refl
outcomes-rejections e (p ∷ ps) = of_owner p.owner (outcomes-rejections e ps)
  where
    of_owner :
        (o : Owner)
        → outcomes (rejected e) ps ≡ rejections e ps
        → elim o [
          | internal ↦ outcomes (rejected e) ps
          | caller id ↦ (id, rejected e) ∷ outcomes (rejected e) ps
        ]
          ≡ rejection e o ++ rejections e ps
    of_owner internal h = h
    of_owner (caller id) h = ap (λ l. (id, rejected e) ∷ l) h

-- No connection, no request that waits for a response, nothing written since `accepted`, and only
-- rejections settled since `old`.
pub record TornAt (accepted : Bytes) (old : List (ℕ × Outcome)) (socket : Option ℕ)
    (pending : List Pending) (link : Link) (settled : List (ℕ × Outcome)) : Type 0 where
  pub torn_socket : socket ≡ none
  pub torn_pending : pending ≡ []
  pub torn_backlog : link.backlog ≡ []
  pub torn_accepted : link.accepted ≡ accepted
  pub torn_settled : (more : List (ℕ × Outcome)) × (settled ≡ old ++ more) × AllRejected more

module _ (a : Bytes) (o : List (ℕ × Outcome)) where
  abbrev pub Torn : Db → Type 0
  Torn s = TornAt a o s.socket s.pending s.link s.settled

  -- Further rejections change nothing.
  rejects-Torn :
      (s : Db) (ps : List (ℕ × Outcome))
      → AllRejected ps
      → Torn s
      → Torn (record s { settled = s.settled ++ ps })
  rejects-Torn s ps k h =
      let (more, m, r) = h.torn_settled in
      record {
        torn_socket = h.torn_socket;
        torn_pending = h.torn_pending;
        torn_backlog = h.torn_backlog;
        torn_accepted = h.torn_accepted;
        torn_settled = (
          more ++ ps,
          ap (λ l. l ++ ps) m ∙ append_assoc o more ps,
          AllRejected-append more ps r k,
        );
      }

  waiters-Torn : (e : Error) (s : Db) → Torn s → Torn (reject_ready_waiters e s)
  unfolding reject_ready_waiters
  waiters-Torn e s h =
      rejects-Torn s (waiters_rejected e s.waiters) (waiters_rejected-AllRejected e s.waiters) h

  -- What is settled before the requests that wait are rejected.
  pending-Torn :
      (e : Error) (s : Db) → TornAt a o s.socket [] s.link s.settled → Torn (reject_all_pending e s)
  unfolding reject_all_pending
  pending-Torn e s h =
      rejects-Torn (record s { pending = [] }) (outcomes (rejected e) s.pending)
        (outcomes-AllRejected e s.pending) h

  -- A conditional that may leave the client torn down in two ways.
  pub if-Torn : (b : Bool) (s t : Db) → Torn s → Torn t → Torn (if b then s else t)
  if-Torn true s t h k = h
  if-Torn false s t h k = k

  pub open_socket-Torn : (s : Db) → Torn s → Torn (open_socket s)
  unfolding open_socket
  open_socket-Torn s h = if-Torn (s.is_connecting || is_closed s.state) s _ h h

  schedule_reconnect-Torn : (s : Db) → Torn s → Torn (schedule_reconnect s)
  unfolding schedule_reconnect
  schedule_reconnect-Torn s h =
      if-Torn (is_some s.reconnect_timer || s.is_connecting || is_closed s.state) s _ h (
        if-Torn (exhausted s.config.max_attempts s.attempts) _ _
          (waiters-Torn connection_closed (record s { state = closed }) h) h)

  after_disconnect-Torn : (e : Error) (s : Db) → Torn s → Torn (after_disconnect e s)
  unfolding after_disconnect
  after_disconnect-Torn e s h = if-Torn (is_closed s.state) s _ h (
      if-Torn (not s.config.enabled) _ _ (waiters-Torn e (record s { state = idle }) h)
        (schedule_reconnect-Torn (record s { state = reconnecting }) h))

  -- A client whose connection goes is torn down, whatever waited.
  pub handle_disconnect-Torn :
      (cause : Option Error) (s : Db)
      → TornAt a o none [] (record (s.link) { backlog = [] }) s.settled
      → Torn (handle_disconnect cause s)
  unfolding handle_disconnect stop_ping drop_link
  handle_disconnect-Torn cause s h =
      after_disconnect-Torn (cause_of cause) _
        (pending-Torn (cause_of cause) (stop_ping (drop_link (record s { socket = none }))) h)

  pub dropped : (s : Db) → Torn s → TornAt a o none [] (record (s.link) { backlog = [] }) s.settled
  dropped s h = record {
    torn_socket = refl;
    torn_pending = refl;
    torn_backlog = refl;
    torn_accepted = h.torn_accepted;
    torn_settled = h.torn_settled;
  }

  pub close-Torn : (s : Db) → Torn s → Torn (close s)
  unfolding close stop_ping drop_link
  close-Torn s h =
      let t = record s { state = closed; reconnect_timer = none; ping_timer = false } in
      let k = pending-Torn connection_closed t (record {
        torn_socket = h.torn_socket;
        torn_pending = refl;
        torn_backlog = h.torn_backlog;
        torn_accepted = h.torn_accepted;
        torn_settled = h.torn_settled;
      }) in
      let r = waiters-Torn connection_closed (reject_all_pending connection_closed t) k in
      record {
        torn_socket = refl;
        torn_pending = r.torn_pending;
        torn_backlog = refl;
        torn_accepted = r.torn_accepted;
        torn_settled = r.torn_settled;
      }

  pub settle-Torn : (id : ℕ) (e : Error) (s : Db) → Torn s → Torn (settle id (rejected e) s)
  unfolding settle
  settle-Torn id e s h = rejects-Torn s ((id, rejected e) ∷ []) tt h

  -- The timeout of a request on the connection that it was sent on.
  pub fail_connection-Torn :
      (e : Error) (s : Db)
      → is_some s.socket ≡ true
      → TornAt a o none [] (record (s.link) { backlog = [] }) (s.settled ++ rejections e s.pending)
      → Torn (fail_connection e s)
  unfolding fail_connection reject_all_pending
  fail_connection-Torn e s some_socket h = rw some_socket (
      handle_disconnect-Torn none (record (reject_all_pending e s) { socket = none })
        (rw (outcomes-rejections e s.pending) h))
