-- ===== src/Managed/Invariant/Methods.antt =====
-- Every method of WormDB keeps its invariant, apps/bun/src/lib/wormdb.ts.
use wormdb.Wire.Command.{status, unsub}
use wormdb.Managed.Ping.{on_ping, send_ping, finish_ping}
use wormdb.Managed.Invariant.{Inv, settle-Inv}
use wormdb.Managed.State.{
  Db, SubEntry, Pending, Outcome, is_closed, is_some, DbState, rejected, is_ready, Owner, caller,
  internal,
}
use wormdb.Managed.{
  finish_send, send_raw, request_raw, settle, connecting_from, open_socket, enqueue_pending, resume,
  settle_owner,
}
use wormdb.Base.{
  ℕ, Option, List, ◌∙◌, ◌+◌, ◌≡◌, refl, inl, inr, true, false, [], ◌∷◌, ◌++◌, none, some, arith,
  ◌⊎◌, JsString, Error, sym, connection_closed, ok, Bool, Result, err, >>=-eq-ok, subst,
  ok-injective, Bool-cases, ◌&&◌,
}
use wormdb.Wire.Bytes.{Bytes}
use wormdb.Link.{Link}
use wormdb.Managed.Events.{subscribe_with, unsubscribe_with, send}
use wormdb.Managed.Receive.{on_data, handle_frame, dispatch_event, deliver}
use wormdb.Wire.Response.{WormResponse, event, bulk, error, decode_response, done, null}
use wormdb.Wire.Encode.{encode_command_frame}
use wormdb.Wire.Frame.{receive}
use wormdb.Wire.Frame.Chunks.{receive_keeps}

connecting_from-is_ready : (st : DbState) → is_ready (connecting_from st) ≡ is_ready st
unfolding connecting_from
connecting_from-is_ready st = ground arith

connecting_from-is_closed : (st : DbState) → is_closed (connecting_from st) ≡ is_closed st
unfolding connecting_from
connecting_from-is_closed st = ground arith

module _ (s : Db) (v : Inv s) where
  -- The invariant does not look at these fields.
  pub kept :
      (ps : List Pending) (l : Link) (o : List (ℕ × Outcome)) (b : Bytes) (es : List SubEntry)
      (a : Option Bytes) (d : List (ℕ × JsString × JsString))
      → Inv (record s {
        pending = ps;
        link = l;
        settled = o;
        inbound = b;
        subs = es;
        auth_token = a;
        delivered = d;
      })
  kept ps l o b es a d = record {
    ready_socket = v.ready_socket;
    one_attempt = v.one_attempt;
    on_its_way = v.on_its_way;
    pings_ready = v.pings_ready;
    closed_empty = v.closed_empty;
    bounded = v.bounded;
  }

  parked-Inv :
      (w : List (ℕ × Bytes))
      → is_closed s.state ≡ false
      → (s.is_connecting ≡ true) ⊎ (is_some s.reconnect_timer ≡ true)
      → Inv (record s { waiters = w })
  parked-Inv w c h = record {
    ready_socket = v.ready_socket;
    one_attempt = v.one_attempt;
    on_its_way = inr h;
    pings_ready = v.pings_ready;
    closed_empty = λ e. absurd (cc);
    bounded = v.bounded;
  }

  dialled-Inv :
      (w : List (ℕ × Bytes))
      → is_closed s.state ≡ false
      → is_some s.reconnect_timer ≡ false
      → Inv (record s {
        state = connecting_from s.state;
        waiters = w;
        is_connecting = true;
        dials = s.dials + 1;
      })
  dialled-Inv w c n = record {
    ready_socket = λ e. v.ready_socket (sym (connecting_from-is_ready s.state) ∙ e);
    one_attempt = λ e. absurd (cc);
    on_its_way = inr (inl refl);
    pings_ready = λ e. connecting_from-is_ready s.state ∙ v.pings_ready e;
    closed_empty = λ e. absurd (cc (connecting_from-is_closed s.state));
    bounded = v.bounded;
  }

module _ (answer : ℕ → Option ℕ) where
  finish_send-Inv : (id : ℕ) (x : Option Error) (s : Db) → Inv s → Inv (finish_send id x s)
  unfolding finish_send settle
  finish_send-Inv id none s v = v
  finish_send-Inv id (some e) s v = kept s v _ _ _ _ _ _ _

  send_raw-Inv : (id : ℕ) (frame : Bytes) (s : Db) → Inv s → Inv (send_raw answer id frame s)
  unfolding send_raw enqueue_pending
  send_raw-Inv id frame s v = finish_send-Inv id _ _ (kept s v _ _ _ _ _ _ _)

  request_raw-Inv : (id : ℕ) (frame : Bytes) (s : Db) → Inv s → Inv (request_raw answer id frame s)
  unfolding request_raw open_socket
  request_raw-Inv id frame s v =
      let a = settle-Inv s v id (rejected connection_closed) in
      let b = send_raw-Inv id frame s v in
      let c = parked-Inv s v (s.waiters ++ ((id, frame) ∷ [])) in
      let d = dialled-Inv s v (s.waiters ++ ((id, frame) ∷ [])) in ground arith

  pub resume-Inv : (ws : List (ℕ × Bytes)) (s : Db) → Inv s → Inv (resume answer ws s)
  unfolding resume
  resume-Inv [] s v = v
  resume-Inv ((id, frame) ∷ ws) s v = resume-Inv ws _ (request_raw-Inv id frame s v)

  pub send-Inv : (id : ℕ) (r : Result Bytes) (s : Db) → Inv s → Inv (send answer id r s)
  unfolding send
  send-Inv id (ok frame) s v = request_raw-Inv id frame s v
  send-Inv id (err e) s v = settle-Inv s v id _

  pub subscribe_with-Inv :
      (id : ℕ) (channel : JsString) (filter : Option JsString) (s : Db) (p : List SubEntry × Bool)
      → Inv s
      → Inv (subscribe_with answer id channel filter s p)
  unfolding subscribe_with
  subscribe_with-Inv id channel filter s (es, true) v = send-Inv id _ _ (kept s v _ _ _ _ _ _ _)
  subscribe_with-Inv id channel filter s (es, false) v = kept s v _ _ _ _ _ _ _

  pub unsubscribe_with-Inv :
      (id : ℕ) (channel : JsString) (s : Db) (p : List SubEntry × Bool)
      → Inv s
      → Inv (unsubscribe_with answer id channel s p)
  unfolding unsubscribe_with
  unsubscribe_with-Inv id channel s (es, gone) v =
      let sent =
        send-Inv id (encode_command_frame (unsub channel)) _
          (kept s v s.pending s.link s.settled s.inbound es s.auth_token s.delivered) in
      let held = kept s v s.pending s.link s.settled s.inbound es s.auth_token s.delivered in
      ground arith

  handle_frame-Inv :
      (s : Db) (code : ℕ) (payload : Bytes) → Inv s → Inv (handle_frame s code payload)
  unfolding handle_frame dispatch_event settle_owner settle deliver
  handle_frame-Inv s code payload v =
      let a = told (decode_response code payload) in let b = resolved s.pending in ground arith
    where
      told : (r : Result WormResponse) → Inv (dispatch_event r s)
      told (ok (event channel message)) = kept s v _ _ _ _ _ _ _
      told (ok (bulk rs)) = v
      told (ok done) = v
      told (ok null) = v
      told (ok (error m)) = v
      told (err e) = v

      owned :
          (o : Owner) (x : Outcome) (ps : List Pending)
          → Inv (settle_owner o x (record s { pending = ps }))
      owned internal x ps = kept s v _ _ _ _ _ _ _
      owned (caller id) x ps = kept s v _ _ _ _ _ _ _

      resolved : (ps : List Pending) → Inv (deliver ps code payload s)
      resolved [] = v
      resolved (p ∷ ps) = owned p.owner _ ps

  pub on_data-Inv : (chunk : Bytes) (s t : Db) → Inv s → on_data chunk s ≡ ok t → Inv t
  unfolding on_data
  on_data-Inv chunk s t v h =
      let (p, e, q) = >>=-eq-ok (receive handle_frame s s.inbound chunk) _ h in
      subst Inv (ok-injective q) (
        kept p.0 (receive_keeps handle_frame Inv handle_frame-Inv s s.inbound chunk p v e) _ _ _ _ _
          _ _)

  finish_ping-Inv : (o : Option Error) (s : Db) → Inv s → Inv (finish_ping o s)
  unfolding finish_ping
  finish_ping-Inv none s v = v
  finish_ping-Inv (some e) s v = kept s v _ _ _ _ _ _ _

  send_ping-Inv : (r : Result Bytes) (s : Db) → Inv s → Inv (send_ping answer r s)
  unfolding send_ping enqueue_pending
  send_ping-Inv (ok frame) s v = finish_ping-Inv _ _ (kept s v _ _ _ _ _ _ _)
  send_ping-Inv (err e) s v = v

  pub on_ping-Inv : (quiet : Bool) (s : Db) → Inv s → Inv (on_ping answer quiet s)
  unfolding on_ping
  on_ping-Inv quiet s v =
      let sent = send_ping-Inv (encode_command_frame status) s v in
      elim (Bool-cases (s.ping_timer && (is_ready s.state && (is_some s.socket && quiet)))) [
        | inl e ↦ rw e sent
        | inr e ↦ rw e v
      ]
