-- ===== src/Browser/Client/Conservation.antt =====
-- No request of a caller is lost and none is settled twice, whatever happens.
use wormdb.Base.{Bool, ℕ, ◌+◌, ◌≡◌, true, false, [], ◌∷◌, arith, List, JsString, ◌&&◌, ◌==◌}
use wormdb.Browser.{browser_sub}
use wormdb.Browser.Client.{BrowserDb, caller, connect_to_url}
use wormdb.Browser.Client.Sockets.{socket_of}
use wormdb.Browser.Client.Events.{
  BrowserEvent, step, run, unsubscribed, connect_called, asked, probed, opened, subscribe,
  socket_closed, unsubscribe, reconnect_due, token_ready, authenticated, message_in, timed_out_for,
  listen, close_called,
}
use wormdb.Browser.Client.Handlers.{deregister, Channel, register}
use wormdb.Client.Counts.{one}
use wormdb.Browser.Client.Counts.{
  held, held-request, held-on_open, held-on_token, held-on_authenticated,
}
use wormdb.Browser.Client.Answers.{
  held-connect, held-on_close, held-on_timer, held-on_message, held-on_timeout, held-close,
}

-- the last handler.
abbrev pub asks : ℕ → BrowserEvent → BrowserDb → ℕ
asks id (asked i r) s = one (i == id)
asks id (subscribe i name h) s = one (i == id)
asks id (unsubscribe i name h) s = one ((deregister name h s.channels).1 && i == id)
asks id _ s = 0

abbrev pub times_asked : ℕ → List BrowserEvent → BrowserDb → ℕ
times_asked id [] s = 0
times_asked id (e ∷ es) s = asks id e s + times_asked id es (step e s)

held-unsubscribed :
    (id i : ℕ) (name : JsString) (s : BrowserDb) (p : List Channel × Bool)
    → held (caller id) (unsubscribed i name s p) ≡ held (caller id) s + one (p.1 && i == id)
unfolding unsubscribed
held-unsubscribed id i name s (cs, true) =
    held-request (caller id) (caller i) _ (record s { channels = cs })
held-unsubscribed id i name s (cs, false) = omega arith

held-step :
    (id : ℕ) (e : BrowserEvent) (s : BrowserDb)
    → held (caller id) (step e s) ≡ held (caller id) s + asks id e s
unfolding step
held-step id (connect_called i) s = omega (arith, held-connect (caller id) i s)
held-step id (probed i rs) s = unfold connect_to_url in omega arith
held-step id (opened k) s = omega (arith, held-on_open id k s)
held-step id (socket_closed k) s =
    omega (arith, held-on_close (caller id) (socket_of k s.sockets) s)
held-step id (reconnect_due i) s = omega (arith, held-on_timer (caller id) i s)
held-step id (token_ready k r) s = omega (arith, held-on_token id k r s)
held-step id (authenticated k e) s = omega (arith, held-on_authenticated id k e s)
held-step id (message_in b) s = omega (arith, held-on_message (caller id) b s)
held-step id (timed_out_for o) s = omega (arith, held-on_timeout (caller id) o s)
held-step id (asked i r) s = held-request (caller id) (caller i) r s
held-step id (subscribe i name h) s =
    held-request (caller id) (caller i) (browser_sub name)
      (record s { channels = register name h s.channels })
held-step id (unsubscribe i name h) s = held-unsubscribed id i name s (deregister name h s.channels)
held-step id (listen h) s = omega arith
held-step id close_called s = omega (arith, held-close (caller id) s)

-- Over any run, a request of a caller waits for its response or is settled, as often as it was made:
-- none is lost and none is settled twice.
pub held-run_all :
    (id : ℕ) (es : List BrowserEvent) (s : BrowserDb)
    → held (caller id) (run es s) ≡ held (caller id) s + times_asked id es s
unfolding run
held-run_all id [] s = omega arith
held-run_all id (e ∷ es) s = omega (arith, held-run_all id es (step e s), held-step id e s)
