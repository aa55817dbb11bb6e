-- ===== src/Browser/Client/Answers.antt =====
-- Responses, timeouts and ends of connections keep the browser's requests.
use wormdb.Base.{
  Bool, Bool-cases, ◌∙◌, ℕ, ◌+◌, ◌≡◌, refl, inl, inr, true, false, [], ◌∷◌, none, some, arith, List,
  Option, Result, ok, err, ap,
}
use wormdb.Browser.{
  BrowserResponse, event_reply, error_reply, decode_message, value_reply, ok_reply, null_reply,
}
use wormdb.Browser.Client.{
  BrowserDb, Owner, caller, opening, repeated, reject_all, settle_resolvers, connect_to_url, close,
  cancel_reconnect, schedule_reconnect, on_reconnect, is_connecting, fault, Sock, disconnected,
}
use wormdb.Browser.Client.Sockets.{
  same_owner, waits, splice, on_timeout, deliver, on_reply, on_message, connect, connect_socket,
  on_close, refuse_connect, retry, after_decoding,
}
use wormdb.Browser.Client.Events.{on_timer}
use wormdb.Client.Counts.{one}
use wormdb.Wire.Bytes.{Bytes}
use wormdb.Browser.Client.Counts.{count, held, held-settle_promise, held-reject_all, held-settle}

pub same_owner-eq : (p o : Owner) → same_owner p o ≡ true → p ≡ o
same_owner-eq (caller i) (caller j) h = ground arith
same_owner-eq (opening i) (opening j) h = ground arith
same_owner-eq (repeated i) (repeated j) h = ground arith
same_owner-eq (caller i) (opening j) h = absurd (cc)
same_owner-eq (caller i) (repeated j) h = absurd (cc)
same_owner-eq (opening i) (caller j) h = absurd (cc)
same_owner-eq (opening i) (repeated j) h = absurd (cc)
same_owner-eq (repeated i) (caller j) h = absurd (cc)
same_owner-eq (repeated i) (opening j) h = absurd (cc)

-- What is spliced out of the queue was there, and once less is left.
pub count-splice :
    (o q : Owner) (ps : List Owner)
    → waits q ps ≡ true
    → count o (splice q ps) + one (same_owner q o) ≡ count o ps
unfolding waits splice
count-splice o q [] h = absurd (cc)
count-splice o q (p ∷ ps) h = elim (Bool-cases (same_owner p q)) [
  | inl here ↦ rw here (omega (arith, ap (λ r. one (same_owner r o)) (same_owner-eq p q here)))
  | inr there ↦
      let below : waits q ps ≡ true = cc in rw there (omega (arith, count-splice o q ps below))
]

pub held-on_timeout : (o q : Owner) (s : BrowserDb) → held o (on_timeout q s) ≡ held o s
unfolding on_timeout
held-on_timeout o q s = elim (Bool-cases (waits q s.pending)) [
  | inl h ↦ rw h (
      held-settle o q _ (record s { pending = splice q s.pending })
      ∙ omega (arith, count-splice o q s.pending h))
  | inr h ↦ rw h refl
]

pub held-deliver :
    (o : Owner) (ps : List Owner) (r : BrowserResponse) (s : BrowserDb)
    → s.pending ≡ ps
    → held o (deliver ps r s) ≡ held o s
unfolding deliver
held-deliver o [] r s e = refl
held-deliver o (p ∷ ps) r s e =
    held-settle o p _ (record s { pending = ps }) ∙ omega (arith, ap (count o) e)

pub held-on_reply :
    (o : Owner) (r : BrowserResponse) (s : BrowserDb) → held o (on_reply r s) ≡ held o s
unfolding on_reply
held-on_reply o (event_reply channel message) s = refl
held-on_reply o ok_reply s = held-deliver o s.pending ok_reply s refl
held-on_reply o null_reply s = held-deliver o s.pending null_reply s refl
held-on_reply o (error_reply m) s = held-deliver o s.pending (error_reply m) s refl
held-on_reply o (value_reply v) s = held-deliver o s.pending (value_reply v) s refl

pub held-on_message : (o : Owner) (b : Bytes) (s : BrowserDb) → held o (on_message b s) ≡ held o s
unfolding on_message
held-on_message o b s = decoded (decode_message b)
  where
    decoded : (r : Result BrowserResponse) → held o (after_decoding r s) ≡ held o s
    decoded (ok r) = held-on_reply o r s
    decoded (err e) = refl

pub held-refuse :
    (o : Owner) (b : Bool) (w : Sock) (s : BrowserDb) → held o (refuse_connect b w s) ≡ held o s
unfolding refuse_connect settle_resolvers
held-refuse o false w s = refl
held-refuse o true w s = held-settle_promise o w.promise _ s

pub held-retry : (o : Owner) (s : BrowserDb) → held o (retry s) ≡ held o s
unfolding retry schedule_reconnect
held-retry o s = ground arith

pub held-on_close : (o : Owner) (w : Option Sock) (s : BrowserDb) → held o (on_close w s) ≡ held o s
unfolding on_close
held-on_close o none s = refl
held-on_close o (some w) s =
    let a = held-retry o (
      refuse_connect (is_connecting s.state) w
        (reject_all (fault "connection closed") (record s { ws = none; state = disconnected }))) in
    let b =
      held-refuse o (is_connecting s.state) w
        (reject_all (fault "connection closed") (record s { ws = none; state = disconnected })) in
    let c =
      held-reject_all o (fault "connection closed")
        (record s { ws = none; state = disconnected }) in
    ground arith

pub held-connect : (o : Owner) (id : ℕ) (s : BrowserDb) → held o (connect id s) ≡ held o s
unfolding connect connect_socket connect_to_url
held-connect o id s = let a = held-settle_promise o (some id) none s in ground arith

pub held-close : (o : Owner) (s : BrowserDb) → held o (close s) ≡ held o s
unfolding close cancel_reconnect
held-close o s = held-reject_all o _ _

pub held-on_timer : (o : Owner) (i : ℕ) (s : BrowserDb) → held o (on_timer i s) ≡ held o s
unfolding on_timer on_reconnect connect_to_url
held-on_timer o i s = ground arith

-- How many requests of the caller `id` an event makes: an unsubscription makes one only if it takes
