-- ===== src/Dashboard/Events.antt =====
-- What can happen to the dashboard's server, apps/bun/src/bin/ui.ts, and its answer.
use wormdb.Base.{ℕ, false, [], ◌∷◌, none, Result, JsString, ok, List, err, Option}
use wormdb.Dashboard.{
  Dashboard, setup_event_subscription, on_open, on_close, on_error, on_data, on_connect_failed,
  on_timer, status_up, status_down,
}
use wormdb.Dashboard.Peers.{Endpoint}
use wormdb.Wire.Bytes.{Bytes}
use wormdb.Wire.Response.{WormResponse}

-- The state at the start, up to `setupEventSubscription()`.
unfoldable pub new_dashboard : JsString → ℕ → Dashboard
new_dashboard host port =
    let seed : Endpoint = record { host = host; port = port; mesh_ip = none } in
    setup_event_subscription (record {
      active = seed;
      known = seed ∷ [];
      failures = 0;
      last_peers = [];
      event_socket = none;
      is_connecting = false;
      inbound = [];
      timer = false;
      dials = [];
      ended = [];
      next_id = 0;
      sent = [];
      broadcasts = [];
    })

-- The callbacks of the event sockets, the timer, and the ends of `pushStatus`: its target answered
-- with two responses and perhaps a text of peers, or did not.
pub data DashboardEvent : Type 0 where
  opened closed errored : ℕ → DashboardEvent
  data_in : ℕ → Bytes → DashboardEvent
  refused timer_due : DashboardEvent
  answered : Endpoint → WormResponse → WormResponse → Option JsString → DashboardEvent
  unanswered : Endpoint → DashboardEvent

-- `on_data` does not fail.
abbrev pub or_same : Dashboard → Result Dashboard → Dashboard
or_same s (ok t) = t
or_same s (err e) = s

module _ (number : JsString → ℕ) where
  unfoldable pub step : DashboardEvent → Dashboard → Dashboard
  step (opened k) s = on_open k s
  step (closed k) s = on_close k s
  step (errored k) s = on_error k s
  step (data_in k chunk) s = or_same s (on_data k chunk s)
  step refused s = on_connect_failed s
  step timer_due s = on_timer s
  step (answered target response cluster peers) s = status_up number target response cluster peers s
  step (unanswered target) s = status_down target s

  unfoldable pub run : List DashboardEvent → Dashboard → Dashboard
  run [] s = s
  run (e ∷ es) s = run es (step e s)
