-- ===== src/Browser/Client/Invariant.antt =====
-- The invariant of the browser's WormDB, and what a close achieves.
use wormdb.Base.{
  Bool, Bool-cases, if◌then◌else◌, ◌∙◌, ℕ, ◌≡◌, refl, inl, inr, true, false, [], ◌∷◌, none, some,
  arith, Option, ap, JsString, List, err, sym, ok, subst,
}
use wormdb.Browser.{browser_sub, browser_auth, encode_unsub}
use wormdb.Browser.Client.{
  BrowserDb, caller, settle, reject_all, connect_to_url, close, cancel_reconnect,
  schedule_reconnect, on_reconnect, is_connected, is_connecting, connected, Sock, fault,
  disconnected, opening,
}
use wormdb.Browser.Client.Sockets.{
  on_timeout, on_open, on_token, on_authenticated, connect, connect_socket, on_close,
  refuse_connect, retry, socket_of,
}
use wormdb.Browser.Client.Events.{
  BrowserEvent, step, run, on_timer, unsubscribed, connect_called, probed, opened, socket_closed,
  reconnect_due, token_ready, authenticated, message_in, timed_out_for, asked, subscribe,
  unsubscribe, listen, close_called,
}
use wormdb.Browser.Client.Handlers.{deregister, Channel, register, keep_or_drop, add_member}
use wormdb.Managed.State.{is_some}
use wormdb.Browser.Client.Alike.{
  Alike, request-Alike, settle_promise-Alike, settle_connect-Alike, finish_open-Alike,
  on_message-Alike, refuse-Alike,
}
use wormdb.Managed.Subscribe.{same_text, delete_handler}

abbrev pub is_cons : List ℕ → Bool
is_cons [] = false
is_cons (m ∷ ms) = true

-- Every channel has a handler.
abbrev pub Peopled : List Channel → Type 0
Peopled [] = Unit {0}
Peopled (c ∷ cs) = (is_cons c.members ≡ true) × Peopled cs

-- A connected client has a socket, and every channel in its map has a handler.
pub record Sound (s : BrowserDb) : Type 0 where
  pub live : is_connected s.state ≡ true → is_some s.ws ≡ true
  pub peopled : Peopled s.channels

Alike-Sound : (s t : BrowserDb) → Alike s t → Sound s → Sound t
Alike-Sound s t a v = record {
  live = λ h. ap is_some a.same_ws ∙ v.live (ap is_connected (sym a.same_state) ∙ h);
  peopled = subst Peopled (sym a.same_channels) v.peopled;
}

register-Peopled :
    (name : JsString) (h : ℕ) (cs : List Channel) → Peopled cs → Peopled (register name h cs)
unfolding register add_member
register-Peopled name h [] p = (refl, tt)
register-Peopled name h (c ∷ cs) (q, p) = elim (Bool-cases (same_text c.name name)) [
  | inl e ↦ rw e (grown c.members q, p)
  | inr e ↦ rw e (q, register-Peopled name h cs p)
]
  where
    grown : (ms : List ℕ) → is_cons ms ≡ true → is_cons (add_member h ms) ≡ true
    grown [] e = absurd (cc)
    grown (m ∷ ms) e = ground arith

keep_or_drop-Peopled :
    (c : Channel) (ms : List ℕ) (cs : List Channel) → Peopled cs → Peopled (keep_or_drop c ms cs).0
unfolding keep_or_drop
keep_or_drop-Peopled c [] cs p = p
keep_or_drop-Peopled c (m ∷ ms) cs p = (refl, p)

deregister-Peopled :
    (name : JsString) (h : ℕ) (cs : List Channel) → Peopled cs → Peopled (deregister name h cs).0
unfolding deregister
deregister-Peopled name h [] p = tt
deregister-Peopled name h (c ∷ cs) (q, p) = elim (Bool-cases (same_text c.name name)) [
  | inl e ↦ rw e (keep_or_drop-Peopled c (delete_handler h c.members) cs p)
  | inr e ↦ rw e (q, deregister-Peopled name h cs p)
]

retry-Sound : (s : BrowserDb) → Sound s → Sound (retry s)
unfolding retry schedule_reconnect
retry-Sound s v = ground arith

on_close-Sound : (w : Option Sock) (s : BrowserDb) → Sound s → Sound (on_close w s)
unfolding on_close reject_all
on_close-Sound none s v = v
on_close-Sound (some w) s v =
    let t = reject_all (fault "connection closed") (record s { ws = none; state = disconnected }) in
    let torn : Sound t = record { live = λ h. absurd (cc); peopled = v.peopled } in
    let u = refuse_connect (is_connecting s.state) w t in
    let ends = retry-Sound u (Alike-Sound t u (refuse-Alike (is_connecting s.state) w t) torn) in
    elim w.watched as (λ b. Sound (if b then retry u else s)) [ true ↦ ends | false ↦ v ]

connect-Sound : (id : ℕ) (s : BrowserDb) → Sound s → Sound (connect id s)
unfolding connect connect_socket connect_to_url
connect-Sound id s v =
    let a = Alike-Sound s _ (settle_promise-Alike (some id) none s) v in
    let l = v.live in let p = v.peopled in ground arith

on_open-Sound : (k : ℕ) (s : BrowserDb) → Sound s → Sound (on_open k s)
unfolding on_open
on_open-Sound k s v =
    let t = record s { state = connected; reconnect_attempt = 0; ws = some k } in
    let opened_now : Sound t = record { live = λ h. refl; peopled = v.peopled } in
    let done = Alike-Sound t _ (finish_open-Alike k t) opened_now in ground arith

step-Sound : (e : BrowserEvent) (s : BrowserDb) → Sound s → Sound (step e s)
unfolding step
step-Sound (connect_called id) s v = connect-Sound id s v
step-Sound (probed id rs) s v =
    unfold connect_to_url in record { live = v.live; peopled = v.peopled }
step-Sound (opened k) s v = on_open-Sound k s v
step-Sound (socket_closed k) s v = on_close-Sound (socket_of k s.sockets) s v
step-Sound (reconnect_due i) s v =
    let l = v.live in
    let p = v.peopled in unfold on_timer on_reconnect connect_to_url in ground arith
step-Sound (token_ready k (ok token)) s v =
    unfold on_token in Alike-Sound s _ (request-Alike (opening k) (browser_auth token) s) v
step-Sound (token_ready k (err e)) s v =
    unfold on_token in Alike-Sound s _ (settle_connect-Alike k (some e) s) v
step-Sound (authenticated k none) s v =
    unfold on_authenticated in Alike-Sound s _ (finish_open-Alike k s) v
step-Sound (authenticated k (some e)) s v =
    unfold on_authenticated in Alike-Sound s _ (settle_connect-Alike k (some e) s) v
step-Sound (message_in b) s v = Alike-Sound s _ (on_message-Alike b s) v
step-Sound (timed_out_for o) s v =
    let l = v.live in let p = v.peopled in unfold on_timeout settle in ground arith
step-Sound (asked id r) s v = Alike-Sound s _ (request-Alike (caller id) r s) v
step-Sound (subscribe id name h) s v =
    Alike-Sound (record s { channels = register name h s.channels }) _
      (request-Alike (caller id) (browser_sub name) _)
      (record { live = v.live; peopled = register-Peopled name h s.channels v.peopled })
step-Sound (unsubscribe id name h) s v =
    left_with (deregister name h s.channels) (deregister-Peopled name h s.channels v.peopled)
  where
    left_with : (p : List Channel × Bool) → Peopled p.0 → Sound (unsubscribed id name s p)
    left_with (cs, true) q =
        unfold unsubscribed in
        Alike-Sound (record s { channels = cs }) _ (request-Alike (caller id) (encode_unsub name) _)
          (record { live = v.live; peopled = q })
    left_with (cs, false) q = unfold unsubscribed in record { live = v.live; peopled = q }
step-Sound (listen h) s v = record { live = v.live; peopled = v.peopled }
step-Sound close_called s v =
    unfold close reject_all cancel_reconnect in
    record { live = λ h. absurd (cc); peopled = v.peopled }

-- Whatever happens, a connected client goes on having a socket, and each channel in its map a
-- handler.
pub run-Sound : (es : List BrowserEvent) (s : BrowserDb) → Sound s → Sound (run es s)
unfolding run
run-Sound [] s v = v
run-Sound (e ∷ es) s v = run-Sound es (step e s) (step-Sound e s v)
