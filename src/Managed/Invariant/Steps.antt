-- ===== src/Managed/Invariant/Steps.antt =====
-- Every event of WormDB, and so every run, keeps its invariant.
use wormdb.Managed.Events.{
  ping_due, run, step, Event, opened, request, subscribe, acknowledged, unsubscribe, authenticated,
  timeout, refused, errored, data_in, drained, hung_up, reconnect_due, close_called,
}
use wormdb.Managed.Invariant.{
  Inv, on_request_timeout-Inv, on_connect_failed-Inv, handle_disconnect-Inv, on_reconnect_timer-Inv,
  close-Inv,
}
use wormdb.Managed.State.{Db}
use wormdb.Base.{
  ℕ, Option, List, ◌≡◌, [], ◌∷◌, none, some, arith, ok, >>=-eq-ok, subst, ok-injective,
}
use wormdb.Managed.Receive.{on_drain}
use wormdb.Managed.Open.{handshake}
use wormdb.Managed.Subscribe.{keep_token}
use wormdb.Managed.Invariant.Opening.{on_open-Inv}
use wormdb.Managed.Invariant.Methods.{
  send-Inv, subscribe_with-Inv, kept, unsubscribe_with-Inv, on_data-Inv, on_ping-Inv,
}

module _ (answer : ℕ → Option ℕ) where
  -- The magic, the token and the acknowledged subscriptions are written without an exception.
  abbrev pub Completes : Event → Db → Type 0
  Completes (opened k) s = (handshake answer k s).1 ≡ none
  Completes _ s = Unit {0}

  abbrev pub AllComplete : List Event → Db → Type 0
  AllComplete [] s = Unit {0}
  AllComplete (e ∷ es) s = Completes e s × ((t : Db) → step answer e s ≡ ok t → AllComplete es t)

  step-Inv : (e : Event) (s t : Db) → Completes e s → Inv s → step answer e s ≡ ok t → Inv t
  unfolding step
  step-Inv (request id r) s t c v h = subst Inv (ok-injective h) (send-Inv answer id r s v)
  step-Inv (subscribe id channel n filter) s t c v h =
      subst Inv (ok-injective h) (subscribe_with-Inv answer id channel filter s _ v)
  step-Inv (acknowledged channel) s t c v h = subst Inv (ok-injective h) (kept s v _ _ _ _ _ _ _)
  step-Inv (unsubscribe id channel n) s t c v h =
      subst Inv (ok-injective h) (unsubscribe_with-Inv answer id channel s _ v)
  step-Inv (authenticated token) s t c v h =
      subst Inv (ok-injective h) (unfold keep_token in kept s v _ _ _ _ _ _ _)
  step-Inv (opened k) s t c v h = subst Inv (ok-injective h) (on_open-Inv answer k s c)
  step-Inv (timeout n) s t c v h =
      let a = on_request_timeout-Inv s v n in subst Inv (ok-injective h) (ground arith)
  step-Inv (refused e) s t c v h = subst Inv (ok-injective h) (on_connect_failed-Inv s v e)
  step-Inv (errored e) s t c v h = subst Inv (ok-injective h) (handle_disconnect-Inv s v (some e))
  step-Inv (data_in chunk) s t c v h = on_data-Inv answer chunk s t v h
  step-Inv drained s t c v h =
      subst Inv (ok-injective h) (unfold on_drain in kept s v _ _ _ _ _ _ _)
  step-Inv hung_up s t c v h = subst Inv (ok-injective h) (handle_disconnect-Inv s v none)
  step-Inv reconnect_due s t c v h = subst Inv (ok-injective h) (on_reconnect_timer-Inv s v)
  step-Inv close_called s t c v h = subst Inv (ok-injective h) (close-Inv s v)
  step-Inv (ping_due quiet) s t c v h = subst Inv (ok-injective h) (on_ping-Inv answer quiet s v)

  -- Whatever happens to a client that satisfies the invariant, the client satisfies it afterwards,
  -- if every handshake writes its frames without an exception.
  pub run-Inv :
      (es : List Event) (s t : Db) → AllComplete es s → Inv s → run answer es s ≡ ok t → Inv t
  unfolding run
  run-Inv [] s t c v h = subst Inv (ok-injective h) v
  run-Inv (e ∷ es) s t (c, more) v h =
      let (u, a, b) = >>=-eq-ok (step answer e s) _ h in
      run-Inv es u t (more u a) (step-Inv e s u c v a) b
