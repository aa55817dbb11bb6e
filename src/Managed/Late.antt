-- ===== src/Managed/Late.antt =====
-- What can happen to a WormDB, apps/bun/src/lib/wormdb.ts, whose connection was torn down, until the
-- next one opens.
use wormdb.Managed.{
  fail_connection, request_raw, connecting_from, on_request_timeout, on_reconnect_timer,
  on_connect_failed,
}
use wormdb.Managed.State.{is_some, is_closed, SubEntry, is_ready, Db, Pending, Outcome}
use wormdb.Base.{
  true, false, none, if◌then◌else◌, ◌∙◌, ℕ, ◌≡◌, refl, [], ◌∷◌, ◌++◌, Bool, Option, not, arith,
  Result, ok, JsString, ◌&&◌, err, subst, sym, some, All, append-nil, timed_out, ==_iff, List,
  connection_closed, ap,
}
use wormdb.Wire.Bytes.{Bytes}
use wormdb.Managed.Ping.{on_ping}
use wormdb.Managed.Events.{
  request, subscribe, acknowledged, unsubscribe, authenticated, opened, timeout, refused, errored,
  data_in, drained, hung_up, reconnect_due, close_called, ping_due, step, run, Event, send,
  subscribe_with, unsubscribe_with, in_generation,
}
use wormdb.Managed.Receive.{on_data, on_drain, handle_frame, dispatch_event, deliver}
use wormdb.Wire.Frame.Chunks.{receive_ends, receive_keeps}
use wormdb.Wire.Encode.{encode_command_frame}
use wormdb.Wire.Response.{
  WormResponse, event, bulk, is_event_code, decode_response, error, done, null,
}
use wormdb.Wire.Command.{sub, unsub}
use wormdb.Link.Order.{flush_backlog-nil}
use wormdb.Managed.Subscribe.{keep_token, register, remove_handler}
use wormdb.Managed.Torn.{
  Torn, rejections, settle-Torn, TornAt, handle_disconnect-Torn, AllRejected, if-Torn, dropped,
  fail_connection-Torn, open_socket-Torn, close-Torn,
}

-- Every event but that a connection opens.
abbrev pub NoOpen : Event → Type 0
NoOpen (opened k) = ⊥
NoOpen _ = Unit {0}

module _ (a : Bytes) (o : List (ℕ × Outcome)) where
  -- A frame that comes late settles nothing.
  handle_frame-Torn :
      (s : Db) (code : ℕ) (payload : Bytes) → Torn a o s → Torn a o (handle_frame s code payload)
  unfolding handle_frame dispatch_event
  handle_frame-Torn s code payload h =
      if-Torn a o (is_event_code code) _ _ (event_torn (decode_response code payload))
        (none_waits s.pending h.torn_pending)
    where
      none_waits : (ps : List Pending) → ps ≡ [] → Torn a o (deliver ps code payload s)
      none_waits [] e = unfold deliver in h
      none_waits (x ∷ ps) e = absurd (cc)

      event_torn : (r : Result WormResponse) → Torn a o (dispatch_event r s)
      event_torn (ok (event channel message)) = h
      event_torn (ok (bulk m)) = h
      event_torn (ok done) = h
      event_torn (ok null) = h
      event_torn (ok (error m)) = h
      event_torn (err e) = h

  Continues : Result Db → Type 0
  Continues r = (t : Db) × (r ≡ ok t) × Torn a o t

  on_data-Continues : (chunk : Bytes) (s : Db) → Torn a o s → Continues (on_data chunk s)
  unfolding on_data Continues
  on_data-Continues chunk s h =
      let (u, rest, r, _) = receive_ends handle_frame s s.inbound chunk in
      (
        record u { inbound = rest },
        rw r,
        receive_keeps handle_frame (Torn a o) handle_frame-Torn s s.inbound chunk (u, rest) h r,
      )

  module _ (answer : ℕ → Option ℕ) where
    request_raw-Torn :
        (id : ℕ) (frame : Bytes) (s : Db) → Torn a o s → Torn a o (request_raw answer id frame s)
    unfolding request_raw
    request_raw-Torn id frame s h =
        let off : (is_some s.socket && is_ready s.state) ≡ false = ground (arith, h.torn_socket) in
        if-Torn a o (is_closed s.state) _ _ (settle-Torn a o id connection_closed s h) (
          rw off (
            if-Torn a o (not s.is_connecting && not (is_some s.reconnect_timer)) _ _
              (open_socket-Torn a o (record s { state = connecting_from s.state }) h) h))

    send-Torn : (id : ℕ) (r : Result Bytes) (s : Db) → Torn a o s → Torn a o (send answer id r s)
    unfolding send
    send-Torn id (ok frame) s h = request_raw-Torn id frame s h
    send-Torn id (err e) s h = settle-Torn a o id e s h

    subscribe_with-Torn :
        (id : ℕ) (channel : JsString) (filter : Option JsString) (s : Db) (p : List SubEntry × Bool)
        → Torn a o s
        → Torn a o (subscribe_with answer id channel filter s p)
    unfolding subscribe_with
    subscribe_with-Torn id channel filter s (subs, true) h =
        send-Torn id (encode_command_frame (sub channel filter)) (record s { subs = subs }) h
    subscribe_with-Torn id channel filter s (subs, false) h = h

    unsubscribe_with-Torn :
        (id : ℕ) (channel : JsString) (s : Db) (p : List SubEntry × Bool)
        → Torn a o s
        → Torn a o (unsubscribe_with answer id channel s p)
    unfolding unsubscribe_with
    unsubscribe_with-Torn id channel s (subs, gone) h =
        if-Torn a o (gone && (is_some s.socket && is_ready s.state)) _ _
          (send-Torn id (encode_command_frame (unsub channel)) (record s { subs = subs }) h) h

    on_ping-Torn : (quiet : Bool) (s : Db) → Torn a o s → Torn a o (on_ping answer quiet s)
    unfolding on_ping
    on_ping-Torn quiet s h =
        let off : (s.ping_timer && (is_ready s.state && (is_some s.socket && quiet))) ≡ false =
          ground (arith, h.torn_socket) in
        rw off h

    on_drain-Torn : (s : Db) → Torn a o s → Torn a o (on_drain answer s)
    unfolding on_drain
    on_drain-Torn s h =
        subst (λ l. TornAt a o s.socket s.pending l s.settled)
          (sym (flush_backlog-nil answer s.link h.torn_backlog)) h

    step-Continues : (e : Event) (s : Db) → NoOpen e → Torn a o s → Continues (step answer e s)
    unfolding step Continues in_generation keep_token on_reconnect_timer on_connect_failed
        on_request_timeout
    step-Continues (request id r) s n h = (_, refl, send-Torn id r s h)
    step-Continues (subscribe id channel i filter) s n h =
        (_, refl, subscribe_with-Torn id channel filter s (register channel i filter s.subs) h)
    step-Continues (acknowledged channel) s n h = (_, refl, h)
    step-Continues (unsubscribe id channel i) s n h =
        (_, refl, unsubscribe_with-Torn id channel s (remove_handler channel i s.subs) h)
    step-Continues (authenticated token) s n h = (_, refl, h)
    step-Continues (opened k) s n h = absurd n
    step-Continues (timeout g) s n h = (
      _,
      refl,
      subst (λ b. Torn a o (if b then on_request_timeout g s else s))
          (sym (ap (in_generation g) h.torn_pending)) h,
    )
    step-Continues (refused e) s n h = (
      _,
      refl,
      handle_disconnect-Torn a o (some e) (record s { is_connecting = false }) (dropped a o s h),
    )
    step-Continues (errored e) s n h =
        (_, refl, handle_disconnect-Torn a o (some e) s (dropped a o s h))
    step-Continues (data_in chunk) s n h = on_data-Continues chunk s h
    step-Continues drained s n h = (_, refl, on_drain-Torn s h)
    step-Continues hung_up s n h = (_, refl, handle_disconnect-Torn a o none s (dropped a o s h))
    step-Continues reconnect_due s n h = (
      _,
      refl,
      if-Torn a o (is_some s.reconnect_timer) _ _
          (open_socket-Torn a o (record s { reconnect_timer = none }) h) h,
    )
    step-Continues close_called s n h = (_, refl, close-Torn a o s h)
    step-Continues (ping_due quiet) s n h = (_, refl, on_ping-Torn quiet s h)

    run-Continues :
        (es : List Event) (s : Db) → All NoOpen es → Torn a o s → Continues (run answer es s)
    unfolding run Continues
    run-Continues [] s n h = (s, refl, h)
    run-Continues (e ∷ es) s (n, ns) h =
        let (t, first, k) = step-Continues e s n h in
        let (u, later, r) = run-Continues es t ns k in (u, rw first later, r)

-- A request times out on the connection that it was sent on. Whatever happens then until a connection
-- opens, further requests and bytes of the old connection that arrive late among it: the run does not
-- fail, the client has no socket, no request waits for a response, nothing more is written, the
-- requests that waited are rejected with the timeout, in their order, and so is, if it is settled,
-- each later one, with some error: a late response reaches nobody.
pub on_request_timeout_settles_nothing_late :
    (answer : ℕ → Option ℕ) (generation : ℕ) (s : Db)
    → s.generation ≡ generation
    → is_some s.socket ≡ true
    → in_generation generation s.pending ≡ true
    → (es : List Event) → All NoOpen es
    → (t : Db) × (run answer (timeout generation ∷ es) s ≡ ok t)
      × (t.socket ≡ none)
      × (t.pending ≡ [])
      × (t.link.accepted ≡ s.link.accepted)
      × ((more : List (ℕ × Outcome)) × (t.settled
            ≡ (s.settled ++ rejections (timed_out s.config.timeout_ms) s.pending) ++ more)
          × AllRejected more)
unfolding run step on_request_timeout Continues
on_request_timeout_settles_nothing_late answer generation s g some_socket waits es n =
    let e = timed_out s.config.timeout_ms in
    let old = s.settled ++ rejections e s.pending in
    let torn = fail_connection-Torn s.link.accepted old e s some_socket (record {
      torn_socket = refl;
      torn_pending = refl;
      torn_backlog = refl;
      torn_accepted = refl;
      torn_settled = ([], sym (append-nil old), tt);
    }) in
    let fails : (if in_generation generation s.pending then on_request_timeout generation s else s)
        ≡ fail_connection e s =
      rw (waits, (==_iff s.generation generation).1 g) refl in
    let (t, r, k) = run-Continues s.link.accepted old answer es (fail_connection e s) n torn in
    (
      t,
      ap (run answer es) fails ∙ r,
      k.torn_socket,
      k.torn_pending,
      k.torn_accepted,
      k.torn_settled,
    )
