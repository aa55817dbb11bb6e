-- ===== src/Browser/Client/Closing.antt =====
-- What `close` of the browser's WormDB achieves, apps/browser/src/client.ts, where the reconnect
-- timer that is set, if any, is the one that the client knows.
use wormdb.Base.{
  Bool, ◌∙◌, ℕ, suc, ◌≡◌, refl, true, false, [], ◌∷◌, none, some, arith, ap, Option, length, List,
  ok, err, subst, ◌+◌,
}
use wormdb.Browser.Client.{
  BrowserDb, Sock, close, reject_all, cancel_reconnect, clear_timer, unwatch, connected, settle,
  fault, disconnected, is_connecting, opening, caller, connect_to_url,
}
use wormdb.Browser.Client.Handlers.{optional, Channel, deregister, register}
use wormdb.Browser.Client.Sockets.{
  on_close, on_timeout, retry, refuse_connect, on_open, on_token, on_authenticated, socket_of,
}
use wormdb.Browser.Client.Events.{
  BrowserEvent, step, run, on_timer, unsubscribed, is_set, connect_called, probed, close_called,
  opened, socket_closed, reconnect_due, token_ready, authenticated, message_in, timed_out_for,
  asked, subscribe, unsubscribe, listen,
}
use wormdb.Browser.Client.Alike.{
  Alike, request-Alike, settle_connect-Alike, finish_open-Alike, on_message-Alike, refuse-Alike,
}
use wormdb.Browser.{browser_auth, browser_sub, encode_unsub}

-- Closed, with no timer set, after `n` sockets were made.
record Rests (n : ℕ) (s : BrowserDb) : Type 0 where
  rests_closed : s.closed ≡ true
  rests_timers : s.timers ≡ []
  rests_sockets : length s.sockets ≡ n

Alike-Rests : {n : ℕ} (s t : BrowserDb) → Alike s t → Rests n s → Rests n t
Alike-Rests s t a r = record {
  rests_closed = a.same_closed ∙ r.rests_closed;
  rests_timers = a.same_timers ∙ r.rests_timers;
  rests_sockets = ap length a.same_sockets ∙ r.rests_sockets;
}

-- Every event but a call of `connect` and what that call waits for.
abbrev pub Quiet : BrowserEvent → Type 0
Quiet (connect_called id) = ⊥
Quiet (probed id results) = ⊥
Quiet _ = Unit {0}

abbrev pub AllQuiet : List BrowserEvent → Type 0
AllQuiet [] = Unit {0}
AllQuiet (e ∷ es) = Quiet e × AllQuiet es

length-unwatch : (k : Option ℕ) (ks : List Sock) → length (unwatch k ks) ≡ length ks
length-unwatch none ks = refl
length-unwatch (some k) [] = refl
length-unwatch (some k) (w ∷ ks) = ap suc (length-unwatch (some k) ks)

clear_timer-nil : (t : Option ℕ) → clear_timer t [] ≡ []
clear_timer-nil none = refl
clear_timer-nil (some i) = refl

clear_timer-optional : (t : Option ℕ) → clear_timer t (optional t) ≡ []
clear_timer-optional none = refl
clear_timer-optional (some i) = ground arith

close-Rests :
    (s : BrowserDb)
    → clear_timer s.reconnect_timer s.timers ≡ []
    → Rests (length s.sockets) (close s)
unfolding close reject_all cancel_reconnect
close-Rests s h = record {
  rests_closed = refl;
  rests_timers = h;
  rests_sockets = length-unwatch s.ws s.sockets;
}

module _ (n : ℕ) (s : BrowserDb) (r : Rests n s) where
  on_close-Rests : (w : Option Sock) → Rests n (on_close w s)
  unfolding on_close reject_all retry
  on_close-Rests none = r
  on_close-Rests (some w) =
      let t =
        reject_all (fault "connection closed") (record s { ws = none; state = disconnected }) in
      let u = refuse_connect (is_connecting s.state) w t in
      let torn : Rests n t = record {
        rests_closed = r.rests_closed;
        rests_timers = r.rests_timers;
        rests_sockets = r.rests_sockets;
      } in
      let ends = Alike-Rests t u (refuse-Alike (is_connecting s.state) w t) torn in
      let kept : u.closed ≡ true = ends.rests_closed in ground arith

  on_open-Rests : (k : ℕ) → Rests n (on_open k s)
  unfolding on_open
  on_open-Rests k =
      let t = record s { state = connected; reconnect_attempt = 0; ws = some k } in
      let up : Rests n t = record {
        rests_closed = r.rests_closed;
        rests_timers = r.rests_timers;
        rests_sockets = r.rests_sockets;
      } in
      let done = Alike-Rests t _ (finish_open-Alike k t) up in ground arith

  step-Rests : (e : BrowserEvent) → Quiet e → Rests n (step e s)
  unfolding step on_token on_authenticated on_timer on_timeout settle
  step-Rests (connect_called id) q = absurd q
  step-Rests (probed id rs) q = absurd q
  step-Rests (opened k) q = on_open-Rests k
  step-Rests (socket_closed k) q = on_close-Rests (socket_of k s.sockets)
  step-Rests (reconnect_due i) q =
      let e : is_set i s.timers ≡ false = ap (is_set i) r.rests_timers in simp e r
  step-Rests (token_ready k (ok token)) q =
      Alike-Rests s _ (request-Alike (opening k) (browser_auth token) s) r
  step-Rests (token_ready k (err e)) q = Alike-Rests s _ (settle_connect-Alike k (some e) s) r
  step-Rests (authenticated k none) q = Alike-Rests s _ (finish_open-Alike k s) r
  step-Rests (authenticated k (some e)) q = Alike-Rests s _ (settle_connect-Alike k (some e) s) r
  step-Rests (message_in b) q = Alike-Rests s _ (on_message-Alike b s) r
  step-Rests (timed_out_for o) q = ground arith
  step-Rests (asked id f) q = Alike-Rests s _ (request-Alike (caller id) f s) r
  step-Rests (subscribe id name h) q =
      let t = record s { channels = register name h s.channels } in
      Alike-Rests t _ (request-Alike (caller id) (browser_sub name) t) (record {
        rests_closed = r.rests_closed;
        rests_timers = r.rests_timers;
        rests_sockets = r.rests_sockets;
      })
  step-Rests (unsubscribe id name h) q = left_with (deregister name h s.channels)
    where
      left_with : (p : List Channel × Bool) → Rests n (unsubscribed id name s p)
      left_with (cs, true) =
          unfold unsubscribed in
          Alike-Rests (record s { channels = cs }) _
            (request-Alike (caller id) (encode_unsub name) _)
            (record {
              rests_closed = r.rests_closed;
              rests_timers = r.rests_timers;
              rests_sockets = r.rests_sockets;
            })
      left_with (cs, false) =
          unfold unsubscribed in
          record {
            rests_closed = r.rests_closed;
            rests_timers = r.rests_timers;
            rests_sockets = r.rests_sockets;
          }
  step-Rests (listen h) q = record {
    rests_closed = r.rests_closed;
    rests_timers = r.rests_timers;
    rests_sockets = r.rests_sockets;
  }
  step-Rests close_called q =
      subst (λ m. Rests m (close s)) r.rests_sockets
        (close-Rests s
          (ap (clear_timer s.reconnect_timer) r.rests_timers ∙ clear_timer-nil s.reconnect_timer))

run-Rests :
    (n : ℕ) (es : List BrowserEvent) (s : BrowserDb) → AllQuiet es → Rests n s → Rests n (run es s)
unfolding run
run-Rests n [] s q r = r
run-Rests n (e ∷ es) s (q, qs) r = run-Rests n es (step e s) qs (step-Rests n s r e q)

-- If no other reconnect timer is set than the one that the client knows, then after `close` no
-- WebSocket is made and no timer is set, whatever else happens, as long as `connect` is not called and
-- no call of it that still waited for its probes has their results. Such a call does make another
-- WebSocket, although the client is closed.
pub closed_for_good :
    (s : BrowserDb) (es : List BrowserEvent)
    → s.timers ≡ optional s.reconnect_timer
    → AllQuiet es
    → (length (run (close_called ∷ es) s).sockets ≡ length s.sockets)
      × ((run (close_called ∷ es) s).timers ≡ [])
      × ((id : ℕ) (results : List (Option ℕ))
          → let t = step (probed id results) (run (close_called ∷ es) s) in
            (t.closed ≡ true) × (length t.sockets ≡ length s.sockets + 1))
unfolding run step connect_to_url
closed_for_good s es h q =
    let r = run-Rests (length s.sockets) es (close s) q (
      close-Rests s
        (ap (clear_timer s.reconnect_timer) h ∙ clear_timer-optional s.reconnect_timer)) in
    let same = r.rests_sockets in
    (r.rests_sockets, r.rests_timers, λ id results. (r.rests_closed, omega arith))
