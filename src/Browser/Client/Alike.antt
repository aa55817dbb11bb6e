-- ===== src/Browser/Client/Alike.antt =====
-- What the methods of the browser's WormDB leave alone, apps/browser/src/client.ts.
use wormdb.Base.{
  Bool, ◌∙◌, ℕ, ◌+◌, ◌≡◌, refl, true, false, [], ◌∷◌, none, some, arith, Option, Result, List,
  Error, err, ok,
}
use wormdb.Browser.{
  BrowserResponse, event_reply, error_reply, browser_sub, value_reply, ok_reply, decode_message,
  null_reply,
}
use wormdb.Browser.Client.{
  BrowserDb, Owner, settle, request, request_on, settle_promise, settle_resolvers, Sock, repeated,
}
use wormdb.Browser.Client.Sockets.{
  deliver, on_reply, on_message, resubscribe, finish_open, settle_connect, refuse_connect,
  after_decoding, promise_of, socket_of,
}
use wormdb.Browser.Client.Handlers.{Channel}
use wormdb.Wire.Bytes.{Bytes}

-- `t` has the socket, the state, the channels and the reconnect timers of `s`.
pub record Alike (s t : BrowserDb) : Type 0 where
  pub same_ws : t.ws ≡ s.ws
  pub same_state : t.state ≡ s.state
  pub same_channels : t.channels ≡ s.channels
  pub same_closed : t.closed ≡ s.closed
  pub same_timers : t.timers ≡ s.timers
  pub same_sockets : t.sockets ≡ s.sockets

alike :
    (s t : BrowserDb)
    → t.ws ≡ s.ws
    → t.state ≡ s.state
    → t.channels ≡ s.channels
    → t.closed ≡ s.closed
    → t.timers ≡ s.timers
    → t.sockets ≡ s.sockets
    → Alike s t
alike s t a b c d e f = record {
  same_ws = a;
  same_state = b;
  same_channels = c;
  same_closed = d;
  same_timers = e;
  same_sockets = f;
}

pub Alike-trans : (s t u : BrowserDb) → Alike s t → Alike t u → Alike s u
Alike-trans s t u a b =
    alike s u (b.same_ws ∙ a.same_ws) (b.same_state ∙ a.same_state)
      (b.same_channels ∙ a.same_channels) (b.same_closed ∙ a.same_closed)
      (b.same_timers ∙ a.same_timers) (b.same_sockets ∙ a.same_sockets)

pub request-Alike : (o : Owner) (r : Result Bytes) (s : BrowserDb) → Alike s (request o r s)
unfolding request request_on settle
request-Alike o (err e) s = alike s _ refl refl refl refl refl refl
request-Alike o (ok frame) s = sent_on s.ws
  where
    sent_on : (k : Option ℕ) → Alike s (request_on k o frame s)
    sent_on none = alike s _ refl refl refl refl refl refl
    sent_on (some k) = ground arith

pub settle_promise-Alike :
    (p : Option ℕ) (e : Option Error) (s : BrowserDb) → Alike s (settle_promise p e s)
unfolding settle_promise
settle_promise-Alike none e s = alike s _ refl refl refl refl refl refl
settle_promise-Alike (some id) e s = alike s _ refl refl refl refl refl refl

pub settle_resolvers-Alike : (e : Option Error) (s : BrowserDb) → Alike s (settle_resolvers e s)
unfolding settle_resolvers
settle_resolvers-Alike e s = alike s _ refl refl refl refl refl refl

pub settle_connect-Alike :
    (k : ℕ) (e : Option Error) (s : BrowserDb) → Alike s (settle_connect k e s)
unfolding settle_connect
settle_connect-Alike k e s =
    let p = promise_of (socket_of k s.sockets) in
    Alike-trans s (settle_promise p e s) _ (settle_promise-Alike p e s) (settle_resolvers-Alike e _)

pub resubscribe-Alike : (cs : List Channel) (s : BrowserDb) → Alike s (resubscribe cs s)
unfolding resubscribe
resubscribe-Alike [] s = alike s _ refl refl refl refl refl refl
resubscribe-Alike (c ∷ cs) s =
    let t =
      request (repeated s.next_id) (browser_sub c.name) (record s { next_id = s.next_id + 1 }) in
    let a =
      request-Alike (repeated s.next_id) (browser_sub c.name)
        (record s { next_id = s.next_id + 1 }) in
    Alike-trans s t _
      (alike s t a.same_ws a.same_state a.same_channels a.same_closed a.same_timers a.same_sockets)
      (resubscribe-Alike cs t)

pub finish_open-Alike : (k : ℕ) (s : BrowserDb) → Alike s (finish_open k s)
unfolding finish_open
finish_open-Alike k s =
    Alike-trans s _ _ (resubscribe-Alike s.channels s)
      (settle_connect-Alike k none (resubscribe s.channels s))

pub on_reply-Alike : (r : BrowserResponse) (s : BrowserDb) → Alike s (on_reply r s)
unfolding on_reply deliver settle
on_reply-Alike (event_reply c m) s = alike s _ refl refl refl refl refl refl
on_reply-Alike ok_reply s = handed s.pending ok_reply
  where
    handed : (ps : List Owner) (r : BrowserResponse) → Alike s (deliver ps r s)
    handed [] r = alike s _ refl refl refl refl refl refl
    handed (p ∷ ps) r = alike s _ refl refl refl refl refl refl
on_reply-Alike null_reply s = ground arith
on_reply-Alike (error_reply m) s = ground arith
on_reply-Alike (value_reply v) s = ground arith

pub on_message-Alike : (b : Bytes) (s : BrowserDb) → Alike s (on_message b s)
unfolding on_message
on_message-Alike b s = decoded (decode_message b)
  where
    decoded : (r : Result BrowserResponse) → Alike s (after_decoding r s)
    decoded (ok r) = on_reply-Alike r s
    decoded (err e) = alike s _ refl refl refl refl refl refl

pub refuse-Alike : (b : Bool) (w : Sock) (s : BrowserDb) → Alike s (refuse_connect b w s)
unfolding refuse_connect
refuse-Alike false w s = alike s _ refl refl refl refl refl refl
refuse-Alike true w s =
    Alike-trans s (settle_promise w.promise _ s) _ (settle_promise-Alike w.promise _ s)
      (settle_resolvers-Alike _ _)
