-- ===== src/Dashboard/Watch.antt =====
-- The subscription of the dashboard's server to cluster events is never given up.
use wormdb.Base.{
  if◌then◌else◌, ℕ, ◌+◌, ◌≡◌, refl, inl, inr, true, false, [], ◌∷◌, ◌++◌, none, some, arith,
  JsString, Bool-cases, Option, Result, ◌||◌, ◌&&◌, List, not, ok, err, leb, ltb, length,
}
use wormdb.Dashboard.{
  Dashboard, fail_to, on_open, on_close, on_error, on_timer, on_connect_failed, status_up,
  status_down, broadcast, write_sub, learn_peers, schedule_event_reconnect, end_event_socket,
  setup_event_subscription, failover_to_next, is_current, target_down, first_other, key,
}
use wormdb.Dashboard.Events.{
  DashboardEvent, opened, closed, errored, data_in, refused, timer_due, answered, unanswered, step,
  run, new_dashboard,
}
use wormdb.Managed.State.{is_some}
use wormdb.Dashboard.Kept.{on_data-Kept}
use wormdb.Dashboard.Peers.{Endpoint, Peer, parse_peers}
use wormdb.Wire.Bytes.{Bytes}
use wormdb.Client.{wire_magic}
use wormdb.Wire.Response.{WormResponse}
use wormdb.Wire.Encode.{encode_command_frame}
use wormdb.Wire.Command.{sub}
use wormdb.Text.{codes}

-- There is a subscription, or a dial for one, or a timer that will dial.
unfoldable pub Watched : Dashboard → Type 0
Watched s = (is_some s.event_socket || (s.is_connecting || s.timer)) ≡ true

setup-Watched : (s : Dashboard) → Watched (setup_event_subscription s)
unfolding Watched setup_event_subscription
setup-Watched s = ground arith

schedule-Watched : (s : Dashboard) → Watched (schedule_event_reconnect s)
unfolding Watched schedule_event_reconnect
schedule-Watched s = ground arith

fail_to-Watched : (o : Option Endpoint) (s : Dashboard) → Watched s → Watched (fail_to o s)
unfolding fail_to
fail_to-Watched none s w = w
fail_to-Watched (some next) s w =
    setup-Watched (end_event_socket s.event_socket (record s { active = next; failures = 0 }))

on_open-Watched : (k : ℕ) (s : Dashboard) → Watched (on_open k s)
unfolding Watched on_open
on_open-Watched k s = written (encode_command_frame (sub (codes "cluster") none))
  where
    written :
        (r : Result Bytes)
        → Watched (
            write_sub k r (record s {
              is_connecting = false;
              event_socket = some k;
              inbound = [];
              sent = s.sent ++ ((k, wire_magic) ∷ []);
            }))
    written (ok frame) = unfold write_sub in refl
    written (err e) = unfold write_sub in refl

module _ (s : Dashboard) (w : Watched s) where
  on_close-Watched : (k : ℕ) → Watched (on_close k s)
  unfolding on_close
  on_close-Watched k =
      let next = schedule-Watched (record s { event_socket = none; inbound = [] }) in
      elim (Bool-cases (is_current k s.event_socket)) [ inl e ↦ rw e next | inr e ↦ rw e w ]

  on_error-Watched : (k : ℕ) → Watched (on_error k s)
  unfolding on_error
  on_error-Watched k =
      let next =
        schedule-Watched (record s { event_socket = none; is_connecting = false; inbound = [] }) in
      elim (Bool-cases (is_some s.event_socket && not (is_current k s.event_socket))) [
        | inl e ↦ rw e w
        | inr e ↦ rw e next
      ]

  on_timer-Watched : Watched (on_timer s)
  unfolding on_timer
  on_timer-Watched =
      let next = setup-Watched (record s { timer = false }) in
      elim s.timer
        as (λ b. Watched (if b then setup_event_subscription (record s { timer = false }) else s)) [
          | true ↦ next
          | false ↦ w
        ]

  status_down-Watched : (target : Endpoint) → Watched (status_down target s)
  unfolding status_down failover_to_next broadcast
  status_down-Watched target =
      let b =
        broadcast (target_down target (s.failures + 1)) (record s { failures = s.failures + 1 }) in
      let same : Watched b = unfold Watched in w in
      let failed = fail_to-Watched (first_other (key b.active) b.known) b same in
      elim (leb 2 b.failures && ltb 1 (length b.known))
        as (λ c. Watched (if c then fail_to (first_other (key b.active) b.known) b else b)) [
          | true ↦ failed
          | false ↦ same
        ]

  module _ (number : JsString → ℕ) where
    status_up-Watched :
        (target : Endpoint) (r c : WormResponse) (text : Option JsString)
        → Watched (status_up number target r c text s)
    unfolding Watched status_up broadcast
    status_up-Watched target r c none = w
    status_up-Watched target r c (some t) = learned (parse_peers number t)
      where
        learned :
            (p : JsString × ℕ × List Peer)
            → Watched (learn_peers number p (record s { failures = 0 }))
        learned (ip, port, []) = unfold learn_peers in w
        learned (ip, port, q ∷ qs) = unfold learn_peers in ground arith

    step-Watched : (e : DashboardEvent) → Watched (step number e s)
    unfolding step
    step-Watched (opened k) = on_open-Watched k s
    step-Watched (closed k) = on_close-Watched k
    step-Watched (errored k) = on_error-Watched k
    step-Watched (data_in k chunk) =
        let (t, e, kept) = on_data-Kept k chunk s in
        rw e (unfold Watched in rw (kept.same_socket, kept.same_connecting, kept.same_timer) w)
    step-Watched refused =
        unfold on_connect_failed in
        schedule-Watched (record s { is_connecting = false; event_socket = none; inbound = [] })
    step-Watched timer_due = on_timer-Watched
    step-Watched (answered target r c text) = status_up-Watched target r c text
    step-Watched (unanswered target) = status_down-Watched target

all-Watched :
    (number : JsString → ℕ) (es : List DashboardEvent) (s : Dashboard)
    → Watched s
    → Watched (run number es s)
unfolding run
all-Watched number [] s w = w
all-Watched number (e ∷ es) s w =
    all-Watched number es (step number e s) (step-Watched s w number e)

-- Whatever happens, the server of the dashboard has a subscription to the cluster's events, or a dial
-- for one under way, or a timer set that will dial, if it has so once; and it has so from its start.
pub run-Watched :
    (number : JsString → ℕ) (es : List DashboardEvent) (s : Dashboard)
    → Watched s
    → Watched (run number es s)
      × ((host : JsString) (port : ℕ) → Watched (run number es (new_dashboard host port)))
unfolding new_dashboard setup_event_subscription Watched
run-Watched number es s w =
    (all-Watched number es s w, λ host port. all-Watched number es (new_dashboard host port) refl)
