-- ===== src/Browser/Client/Sockets.antt =====
-- `connect`, and the callbacks of a WebSocket, apps/browser/src/client.ts.
use wormdb.Base.{
  Bool, if◌then◌else◌, ℕ, ◌+◌, true, false, [], ◌∷◌, ◌++◌, none, some, length, plain_error, Option,
  not, ◌==◌, Result, List, ◌&&◌, ◌||◌, ok, Error, err,
}
use wormdb.Text.{codes, decimal}
use wormdb.Browser.{BrowserResponse, browser_sub, browser_auth, decode_message, event_reply}
use wormdb.Browser.Client.{
  BrowserDb, Sock, Owner, opening, repeated, caller, is_connected, is_connecting, connected,
  connecting, disconnected, settle, settle_promise, settle_resolvers, request, connect_to_url,
  url_at, reject_all, schedule_reconnect, resolved, rejected, fault,
}
use wormdb.Browser.Client.Handlers.{Channel, route}
use wormdb.Wire.Bytes.{Bytes}

-- The call of `connect` up to the first `await`: with several urls, the probes come first.
unfoldable pub connect_socket : ℕ → BrowserDb → BrowserDb
connect_socket id s = if length s.urls == 1 then connect_to_url (url_at s.urls 0) (some id) s else s

unfoldable pub connect : ℕ → BrowserDb → BrowserDb
connect id s =
    if is_connected s.state
    then settle_promise (some id) none s
    else if is_connecting s.state
    then record s { closed = false; connect_resolvers = s.connect_resolvers ++ (id ∷ []) }
    else connect_socket id (record s { closed = false; state = connecting })

abbrev pub socket_of : ℕ → List Sock → Option Sock
socket_of k [] = none
socket_of k (w ∷ ws) = if w.sid == k then some w else socket_of k ws

abbrev pub promise_of : Option Sock → Option ℕ
promise_of none = none
promise_of (some w) = w.promise

-- The promise of `connectToUrl` and the callers that wait for it.
unfoldable pub settle_connect : ℕ → Option Error → BrowserDb → BrowserDb
settle_connect k e s = settle_resolvers e (settle_promise (promise_of (socket_of k s.sockets)) e s)

-- `for (const channel of this.eventHandlers.keys()) this.request(encodeSub(channel))`
unfoldable pub resubscribe : List Channel → BrowserDb → BrowserDb
resubscribe [] s = s
resubscribe (c ∷ cs) s =
    resubscribe cs
      (request (repeated s.next_id) (browser_sub c.name) (record s { next_id = s.next_id + 1 }))

-- The end of `onopen`.
unfoldable pub finish_open : ℕ → BrowserDb → BrowserDb
finish_open k s = settle_connect k none (resubscribe s.channels s)

-- `onopen` of socket `k`, up to the token.
unfoldable pub on_open : ℕ → BrowserDb → BrowserDb
on_open k s =
    let s' = record s { state = connected; reconnect_attempt = 0; ws = some k } in
    if s.has_token_provider then s' else finish_open k s'

-- The token provider has answered, or thrown.
unfoldable pub on_token : ℕ → Result Bytes → BrowserDb → BrowserDb
on_token k (ok token) s = request (opening k) (browser_auth token) s
on_token k (err e) s = settle_connect k (some e) s

-- `await this.auth(token)` has returned, or thrown.
unfoldable pub on_authenticated : ℕ → Option Error → BrowserDb → BrowserDb
on_authenticated k none s = finish_open k s
on_authenticated k (some e) s = settle_connect k (some e) s

-- `this.pendingQueue.shift()` and its resolution.
unfoldable pub deliver : List Owner → BrowserResponse → BrowserDb → BrowserDb
deliver [] r s = s
deliver (o ∷ os) r s = settle o (resolved r) (record s { pending = os })

unfoldable pub on_reply : BrowserResponse → BrowserDb → BrowserDb
on_reply (event_reply channel message) s = record s {
  delivered = s.delivered ++ route channel message s.channels s.global_handler;
}
on_reply r s = deliver s.pending r s

abbrev pub after_decoding : Result BrowserResponse → BrowserDb → BrowserDb
after_decoding (ok r) s = on_reply r s
after_decoding (err e) s = s

-- `onmessage`; whose socket it is, is not looked at.
unfoldable pub on_message : Bytes → BrowserDb → BrowserDb
on_message message s = after_decoding (decode_message message) s

unfoldable pub refuse_connect : Bool → Sock → BrowserDb → BrowserDb
refuse_connect false w s = s
refuse_connect true w s =
    let e = plain_error (codes "failed to connect to " ++ w.url) in
    settle_resolvers (some e) (settle_promise w.promise (some e) s)

unfoldable pub retry : BrowserDb → BrowserDb
retry s = if not s.closed && s.auto_reconnect then schedule_reconnect s else s

-- `onclose` of a socket, if it is not null.
unfoldable pub on_close : Option Sock → BrowserDb → BrowserDb
on_close none s = s
on_close (some w) s =
    if w.watched
    then retry (
        refuse_connect (is_connecting s.state) w
          (reject_all (fault "connection closed") (record s { ws = none; state = disconnected })))
    else s

abbrev pub same_owner : Owner → Owner → Bool
same_owner (caller i) (caller j) = i == j
same_owner (opening i) (opening j) = i == j
same_owner (repeated i) (repeated j) = i == j
same_owner _ _ = false

unfoldable pub waits : Owner → List Owner → Bool
waits o [] = false
waits o (p ∷ ps) = same_owner p o || waits o ps

-- `this.pendingQueue.splice(idx, 1)`
unfoldable pub splice : Owner → List Owner → List Owner
splice o [] = []
splice o (p ∷ ps) = if same_owner p o then ps else p ∷ splice o ps

-- The timeout of a request; its rejection has no effect if the request is settled.
unfoldable pub on_timeout : Owner → BrowserDb → BrowserDb
on_timeout o s =
    let e = plain_error (codes "request timed out after " ++ decimal s.timeout_ms ++ codes "ms") in
    if waits o s.pending
    then settle o (rejected e) (record s { pending = splice o s.pending })
    else s
