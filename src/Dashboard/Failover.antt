-- ===== src/Dashboard/Failover.antt =====
-- Which endpoint the dashboard's server uses over a run, apps/bun/src/bin/ui.ts.
use wormdb.Base.{
  if◌then◌else◌, ℕ, ◌+◌, ◌≡◌, refl, true, false, [], ◌∷◌, ◌++◌, none, some, arith, Result, JsString,
  subst, List, sym, Option, leb, ◌&&◌, ok, ltb, err, length,
}
use wormdb.Dashboard.{
  Dashboard, fail_to, on_open, on_close, on_error, on_timer, on_connect_failed, status_up,
  status_down, broadcast, write_sub, learn_peers, schedule_event_reconnect, end_event_socket,
  first_other, setup_event_subscription, failover_to_next, key, target_down,
}
use wormdb.Dashboard.Peers.{Endpoint, Peer, discover, parse_peers}
use wormdb.Dashboard.Events.{
  DashboardEvent, opened, closed, errored, data_in, refused, timer_due, answered, unanswered, step,
  run,
}
use wormdb.Dashboard.Pool.{Pooled, Distinct, FirstTwo, discover-Pooled, first_other-FirstTwo}
use wormdb.Dashboard.Kept.{on_data-Kept}
use wormdb.Wire.Bytes.{Bytes}
use wormdb.Wire.Response.{WormResponse}
use wormdb.Client.{wire_magic}
use wormdb.Wire.Encode.{encode_command_frame}
use wormdb.Wire.Command.{sub}
use wormdb.Text.{codes}

-- The pool of a state.
abbrev pub IsPooled : Dashboard → Type 0
IsPooled s = Pooled s.active s.known

record SamePool (s t : Dashboard) : Type 0 where
  pool_active : t.active ≡ s.active
  pool_known : t.known ≡ s.known

SamePool-IsPooled : (s t : Dashboard) → SamePool s t → IsPooled s → IsPooled t
SamePool-IsPooled s t p h = record {
  distinct = subst Distinct (sym p.pool_known) h.distinct;
  first_two = rw (p.pool_active, p.pool_known) h.first_two;
}

setup-SamePool : (s : Dashboard) → SamePool s (setup_event_subscription s)
unfolding setup_event_subscription
setup-SamePool s = ground arith

schedule-SamePool : (s : Dashboard) → SamePool s (schedule_event_reconnect s)
unfolding schedule_event_reconnect
schedule-SamePool s = ground arith

on_close-SamePool : (k : ℕ) (s : Dashboard) → SamePool s (on_close k s)
unfolding on_close schedule_event_reconnect
on_close-SamePool k s = ground arith

on_error-SamePool : (k : ℕ) (s : Dashboard) → SamePool s (on_error k s)
unfolding on_error schedule_event_reconnect
on_error-SamePool k s = ground arith

on_timer-SamePool : (s : Dashboard) → SamePool s (on_timer s)
unfolding on_timer setup_event_subscription
on_timer-SamePool s = ground arith

on_open-SamePool : (k : ℕ) (s : Dashboard) → SamePool s (on_open k s)
unfolding on_open
on_open-SamePool k s = written (encode_command_frame (sub (codes "cluster") none))
  where
    written :
        (r : Result Bytes)
        → SamePool s (
            write_sub k r (record s {
              is_connecting = false;
              event_socket = some k;
              inbound = [];
              sent = s.sent ++ ((k, wire_magic) ∷ []);
            }))
    written (ok frame) = unfold write_sub in record { pool_active = refl; pool_known = refl }
    written (err e) = unfold write_sub in record { pool_active = refl; pool_known = refl }

fail_to-IsPooled :
    (s : Dashboard) → IsPooled s → IsPooled (fail_to (first_other (key s.active) s.known) s)
fail_to-IsPooled s h = failed (first_other (key s.active) s.known) refl
  where
    ended :
        (next : Endpoint) (o : Option ℕ)
        → FirstTwo next s.known
        → IsPooled (end_event_socket o (record s { active = next; failures = 0 }))
    ended next none f = unfold end_event_socket in record { distinct = h.distinct; first_two = f }
    ended next (some k) f =
        unfold end_event_socket in record { distinct = h.distinct; first_two = f }

    failed : (o : Option Endpoint) → first_other (key s.active) s.known ≡ o → IsPooled (fail_to o s)
    failed none e = unfold fail_to in h
    failed (some next) e =
        unfold fail_to in
        SamePool-IsPooled _ _ (setup-SamePool _) (
          ended next s.event_socket
            (first_other-FirstTwo s.active s.known h.distinct h.first_two next e))

status_down-IsPooled :
    (target : Endpoint) (s : Dashboard) → IsPooled s → IsPooled (status_down target s)
unfolding status_down failover_to_next broadcast
status_down-IsPooled target s h =
    let b =
      broadcast (target_down target (s.failures + 1)) (record s { failures = s.failures + 1 }) in
    let same : IsPooled b = record { distinct = h.distinct; first_two = h.first_two } in
    let failed = fail_to-IsPooled b same in
    elim (leb 2 b.failures && ltb 1 (length b.known))
      as (λ c. IsPooled (if c then fail_to (first_other (key b.active) b.known) b else b)) [
        | true ↦ failed
        | false ↦ same
      ]

module _ (number : JsString → ℕ) where
  status_up-IsPooled :
      (target : Endpoint) (r c : WormResponse) (text : Option JsString) (s : Dashboard)
      → IsPooled s
      → IsPooled (status_up number target r c text s)
  unfolding status_up broadcast
  status_up-IsPooled target r c none s h = record { distinct = h.distinct; first_two = h.first_two }
  status_up-IsPooled target r c (some t) s h =
      let l = learned (parse_peers number t) in
      record { distinct = l.distinct; first_two = l.first_two }
    where
      learned :
          (p : JsString × ℕ × List Peer)
          → IsPooled (learn_peers number p (record s { failures = 0 }))
      learned (ip, port, []) =
          unfold learn_peers in record { distinct = h.distinct; first_two = h.first_two }
      learned (ip, port, q ∷ qs) =
          let found =
            discover-Pooled s.active (q ∷ qs) port s.known
              (record { distinct = h.distinct; first_two = h.first_two }) in
          unfold learn_peers in
          elim (ltb 0 port)
            as (λ b. IsPooled (
              if b
              then record s {
                failures = 0;
                last_peers = q ∷ qs;
                known = discover (q ∷ qs) port s.known;
              }
              else record s { failures = 0; last_peers = q ∷ qs })) [
                | true ↦ record { distinct = found.distinct; first_two = found.first_two }
                | false ↦ record { distinct = h.distinct; first_two = h.first_two }
              ]

  step-IsPooled : (e : DashboardEvent) (s : Dashboard) → IsPooled s → IsPooled (step number e s)
  unfolding step
  step-IsPooled (opened k) s h = SamePool-IsPooled s _ (on_open-SamePool k s) h
  step-IsPooled (closed k) s h = SamePool-IsPooled s _ (on_close-SamePool k s) h
  step-IsPooled (errored k) s h = SamePool-IsPooled s _ (on_error-SamePool k s) h
  step-IsPooled (data_in k chunk) s h =
      let (t, e, kept) = on_data-Kept k chunk s in
      rw e (
        SamePool-IsPooled s t
          (record { pool_active = kept.same_active; pool_known = kept.same_known }) h)
  step-IsPooled refused s h =
      unfold on_connect_failed in
      SamePool-IsPooled (record s { is_connecting = false; event_socket = none; inbound = [] }) _
        (schedule-SamePool _) (record { distinct = h.distinct; first_two = h.first_two })
  step-IsPooled timer_due s h = SamePool-IsPooled s _ (on_timer-SamePool s) h
  step-IsPooled (answered target r c text) s h = status_up-IsPooled target r c text s h
  step-IsPooled (unanswered target) s h = status_down-IsPooled target s h

-- Over any run, no two endpoints of the pool have the same address, and the one in use is the first or
-- the second of the pool: a third one is never tried, however often the server fails over.
pub run-IsPooled :
    (number : JsString → ℕ) (es : List DashboardEvent) (s : Dashboard)
    → IsPooled s
    → IsPooled (run number es s)
unfolding run
run-IsPooled number [] s h = h
run-IsPooled number (e ∷ es) s h =
    run-IsPooled number es (step number e s) (step-IsPooled number e s h)
