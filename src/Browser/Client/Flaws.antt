-- ===== src/Browser/Client/Flaws.antt =====
-- What a timed-out request, and a call during a dial, leave behind in the browser's WormDB.
use wormdb.Base.{
  if◌then◌else◌, ◌∙◌, ℕ, ◌≡◌, refl, true, false, [], ◌∷◌, ◌++◌, some, arith, Error, plain_error, ok,
  ap,
}
use wormdb.Browser.{BrowserResponse, decode_message}
use wormdb.Browser.Client.{
  request, BrowserDb, Owner, caller, connected, settle, rejected, resolved, request_on,
  is_connected, fault, close, reject_all, cancel_reconnect,
}
use wormdb.Browser.Client.Sockets.{on_message, on_timeout, waits, splice, on_open, finish_open}
use wormdb.Browser.Client.Events.{run, step, timed_out_for, asked, message_in, close_called, opened}
use wormdb.Text.{codes, decimal}
use wormdb.Wire.Bytes.{Bytes}
use wormdb.Browser.Client.Alike.{finish_open-Alike}
use wormdb.Browser.Client.Calls.{is_event}
use wormdb.Browser.Client.Fifo.{on_message-answer}

abbrev pub timeout_error : ℕ → Error
timeout_error ms = plain_error (codes "request timed out after " ++ decimal ms ++ codes "ms")

on_timeout-only :
    (a : ℕ) (s : BrowserDb)
    → s.pending ≡ caller a ∷ []
    → on_timeout (caller a) s
      ≡ settle (caller a) (rejected (timeout_error s.timeout_ms)) (record s { pending = [] })
unfolding on_timeout
on_timeout-only a s pend =
    ap
      (λ ps.
        if waits (caller a) ps
        then settle (caller a) (rejected (timeout_error s.timeout_ms))
            (record s { pending = splice (caller a) ps })
        else s)
      pend
    ∙ unfold waits splice in ground arith

request-connected :
    (o : Owner) (k : ℕ) (frame : Bytes) (s : BrowserDb)
    → s.ws ≡ some k
    → s.state ≡ connected
    → request o (ok frame) s
      ≡ record s { pending = s.pending ++ (o ∷ []); sent = s.sent ++ ((k, frame) ∷ []) }
unfolding request
request-connected o k frame s ws state =
    ap (λ w. request_on w o frame s) ws
    ∙ unfold request_on in
      ap
        (λ st.
          if is_connected st
          then record s { pending = s.pending ++ (o ∷ []); sent = s.sent ++ ((k, frame) ∷ []) }
          else settle o (rejected (fault "not connected")) s)
        state

-- A request that times out leaves the queue, but its response still comes, and the next request in
-- the queue takes it: on a connected socket with only the request of `a`, if `a` times out and `b`
-- then sends a frame, the message that arrives next, a response and no event, resolves `b`.
pub late_response_taken :
    (s : BrowserDb) (k a b : ℕ) (frame message : Bytes) (r : BrowserResponse)
    → s.ws ≡ some k
    → s.state ≡ connected
    → s.pending ≡ caller a ∷ []
    → decode_message message ≡ ok r
    → is_event r ≡ false
    → let t = run (timed_out_for (caller a) ∷ asked b (ok frame) ∷ message_in message ∷ []) s in
      (t.pending ≡ [])
      × (t.settled
          ≡ (s.settled ++ ((caller a, rejected (timeout_error s.timeout_ms)) ∷ []))
            ++ ((caller b, resolved r) ∷ []))
unfolding run step on_message settle
late_response_taken s k a b frame message r ws state pend decoded quiet =
    let s1 =
      settle (caller a) (rejected (timeout_error s.timeout_ms)) (record s { pending = [] }) in
    let s2 : BrowserDb = record s1 {
      pending = caller b ∷ [];
      sent = s1.sent ++ ((k, frame) ∷ []);
    } in
    let all : on_message message (request (caller b) (ok frame) (on_timeout (caller a) s))
        ≡ settle (caller b) (resolved r) (record s2 { pending = [] }) =
      ap (λ t. on_message message (request (caller b) (ok frame) t)) (on_timeout-only a s pend)
      ∙ ap (on_message message)
          (request-connected (caller b) k frame s1 (unfold settle in ws) (unfold settle in state))
      ∙ on_message-answer (caller b) [] message r s2 (unfold settle in refl) decoded quiet
      ∙ unfold settle in refl in
    (
      ap (λ t. t.pending) all ∙ unfold settle in refl,
      ap (λ t. t.settled) all ∙ unfold settle in refl,
    )

-- `onopen` does not look at `closed`: a client without a token provider that is closed while a
-- socket opens is connected once it is open, with that socket, although it stays closed.
pub close_while_opening :
    (s : BrowserDb) (k : ℕ)
    → s.has_token_provider ≡ false
    → let t = run (close_called ∷ opened k ∷ []) s in
      (t.closed ≡ true) × (t.state ≡ connected) × (t.ws ≡ some k)
unfolding run step
close_while_opening s k plain =
    let c = close s in
    let up : BrowserDb = record c { state = connected; reconnect_attempt = 0; ws = some k } in
    let keeps : c.has_token_provider ≡ false = unfold close reject_all cancel_reconnect in plain in
    let closes : c.closed ≡ true = unfold close reject_all cancel_reconnect in refl in
    let done = finish_open-Alike k up in
    let e : on_open k c ≡ finish_open k up =
      unfold on_open in ap (λ b. if b then up else finish_open k up) keeps in
    (
      ap (λ t. t.closed) e ∙ done.same_closed ∙ closes,
      ap (λ t. t.state) e ∙ done.same_state,
      ap (λ t. t.ws) e ∙ done.same_ws,
    )
