-- ===== src/Browser/Client/Counts.antt =====
-- How often the browser's WormDB has a request, and what sending leaves of that.
use wormdb.Base.{
  ◌∙◌, ℕ, ◌+◌, ◌≡◌, refl, [], ◌∷◌, ◌++◌, none, some, arith, Error, List, Option, Result, ok, err,
}
use wormdb.Browser.{browser_sub, browser_auth}
use wormdb.Browser.Client.{
  BrowserDb, Owner, caller, opening, repeated, BrowserOutcome, settle, request, request_on,
  reject_all, all_rejected, settle_promise, settle_resolvers, rejected, fault, connected,
}
use wormdb.Browser.Client.Sockets.{
  same_owner, resubscribe, finish_open, settle_connect, on_open, on_token, on_authenticated,
  promise_of, socket_of,
}
use wormdb.Browser.Client.Handlers.{Channel}
use wormdb.Client.Counts.{one}
use wormdb.Wire.Bytes.{Bytes}

abbrev pub count : Owner → List Owner → ℕ
count o [] = 0
count o (p ∷ ps) = one (same_owner p o) + count o ps

abbrev pub owners : List (Owner × BrowserOutcome) → List Owner
owners [] = []
owners ((o, x) ∷ rest) = o ∷ owners rest

-- How often the client has the request: settled, or waiting for a response.
abbrev pub held : Owner → BrowserDb → ℕ
held o s = count o (owners s.settled) + count o s.pending

pub count-append : (o : Owner) (xs ys : List Owner) → count o (xs ++ ys) ≡ count o xs + count o ys
count-append o [] ys = omega arith
count-append o (x ∷ xs) ys = omega (arith, count-append o xs ys)

pub count-owners :
    (o : Owner) (xs ys : List (Owner × BrowserOutcome))
    → count o (owners (xs ++ ys)) ≡ count o (owners xs) + count o (owners ys)
count-owners o [] ys = omega arith
count-owners o ((p, x) ∷ xs) ys = omega (arith, count-owners o xs ys)

pub count-all_rejected :
    (o : Owner) (e : Error) (ps : List Owner) → count o (owners (all_rejected e ps)) ≡ count o ps
count-all_rejected o e [] = refl
count-all_rejected o e (p ∷ ps) = omega (arith, count-all_rejected o e ps)

pub held-settle :
    (o p : Owner) (x : BrowserOutcome) (s : BrowserDb)
    → held o (settle p x s) ≡ held o s + one (same_owner p o)
unfolding settle
held-settle o p x s = omega (arith, count-owners o s.settled ((p, x) ∷ []))

pub held-reject_all : (o : Owner) (e : Error) (s : BrowserDb) → held o (reject_all e s) ≡ held o s
unfolding reject_all
held-reject_all o e s =
    omega
      (arith, count-owners o s.settled (all_rejected e s.pending), count-all_rejected o e s.pending)

pub held-settle_promise :
    (o : Owner) (p : Option ℕ) (e : Option Error) (s : BrowserDb)
    → held o (settle_promise p e s) ≡ held o s
unfolding settle_promise
held-settle_promise o none e s = refl
held-settle_promise o (some id) e s = refl

pub held-settle_connect :
    (o : Owner) (k : ℕ) (e : Option Error) (s : BrowserDb)
    → held o (settle_connect k e s) ≡ held o s
unfolding settle_connect settle_resolvers
held-settle_connect o k e s = held-settle_promise o (promise_of (socket_of k s.sockets)) e s

pub held-request_on :
    (o p : Owner) (k : Option ℕ) (frame : Bytes) (s : BrowserDb)
    → held o (request_on k p frame s) ≡ held o s + one (same_owner p o)
unfolding request_on
held-request_on o p none frame s = held-settle o p _ s
held-request_on o p (some k) frame s =
    let a = held-settle o p (rejected (fault "not connected")) s in
    let b = count-append o s.pending (p ∷ []) in ground arith

pub held-request :
    (o p : Owner) (r : Result Bytes) (s : BrowserDb)
    → held o (request p r s) ≡ held o s + one (same_owner p o)
unfolding request
held-request o p (ok frame) s = held-request_on o p s.ws frame s
held-request o p (err e) s = held-settle o p _ s

module _ (id : ℕ) where
  abbrev mine : Owner
  mine = caller id

  pub held-resubscribe :
      (cs : List Channel) (s : BrowserDb) → held mine (resubscribe cs s) ≡ held mine s
  unfolding resubscribe
  held-resubscribe [] s = refl
  held-resubscribe (c ∷ cs) s =
      held-resubscribe cs _
      ∙ held-request mine (repeated s.next_id) (browser_sub c.name)
          (record s { next_id = s.next_id + 1 })
      ∙ omega arith

  pub held-finish_open : (k : ℕ) (s : BrowserDb) → held mine (finish_open k s) ≡ held mine s
  unfolding finish_open
  held-finish_open k s =
      held-settle_connect mine k none (resubscribe s.channels s) ∙ held-resubscribe s.channels s

  pub held-on_open : (k : ℕ) (s : BrowserDb) → held mine (on_open k s) ≡ held mine s
  unfolding on_open
  held-on_open k s =
      let f =
        held-finish_open k (record s { state = connected; reconnect_attempt = 0; ws = some k }) in
      ground arith

  pub held-on_token :
      (k : ℕ) (r : Result Bytes) (s : BrowserDb) → held mine (on_token k r s) ≡ held mine s
  unfolding on_token
  held-on_token k (ok token) s = held-request mine (opening k) (browser_auth token) s ∙ omega arith
  held-on_token k (err e) s = held-settle_connect mine k (some e) s

  pub held-on_authenticated :
      (k : ℕ) (e : Option Error) (s : BrowserDb) → held mine (on_authenticated k e s) ≡ held mine s
  unfolding on_authenticated
  held-on_authenticated k none s = held-finish_open k s
  held-on_authenticated k (some e) s = held-settle_connect mine k (some e) s
