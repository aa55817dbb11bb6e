-- ===== src/Dashboard/Tests.antt =====
-- The server of the dashboard at concrete inputs.
use wormdb.Dashboard.Diagnostics.{
  refuses, handle_docker_action, is_action, docker_command, docker_container, runs,
}
use wormdb.Base.{ℕ, ◌≡◌, refl, [], ◌∷◌, ◌++◌, none, some, List, JsString, All, Option}
use wormdb.Dashboard.{setup_event_subscription}
use wormdb.Dashboard.Peers.{Peer, Endpoint, by_gossip_ip, dedupe, put_gossip, put_peer, gossip_ip}
use wormdb.Dashboard.Events.{
  DashboardEvent, new_dashboard, opened, closed, timer_due, answered, unanswered, run,
}
use wormdb.Wire.Response.{done}
use wormdb.Text.{codes}
use wormdb.Dashboard.Dedupe.{DistinctIps, Listed, IsRepresented, by_gossip_ip_lem}
use wormdb.Dashboard.Watch.{Watched, run-Watched}
use wormdb.Dashboard.Failover.{IsPooled, run-IsPooled}
use wormdb.Managed.Subscribe.{same_text}
use wormdb.Managed.Receive.{starts_with}
use wormdb.Dashboard.Containers.{Safe, handle_docker_action_unguarded}

-- Every port is 6389.
abbrev a_number : JsString → ℕ
a_number s = 6389

abbrev target : Endpoint
target = record { host = codes "a"; port = 6389; mesh_ip = none }

-- A node and two peers, the first of them twice, once dead.
abbrev peers_text : JsString
peers_text =
    codes "self_mesh_ip=10.0.0.1"
    ++ (10 ∷ codes "---")
    ++ (10 ∷ codes "mesh_ip=10.0.0.2")
    ++ (10 ∷ codes "state=dead")
    ++ (10 ∷ codes "gossip_endpoint=b:1")
    ++ (10 ∷ codes "---")
    ++ (10 ∷ codes "mesh_ip=10.0.0.3")
    ++ (10 ∷ codes "state=alive")
    ++ (10 ∷ codes "gossip_endpoint=b:1")
    ++ (10 ∷ codes "---")
    ++ (10 ∷ codes "mesh_ip=10.0.0.4")
    ++ (10 ∷ codes "state=alive")
    ++ (10 ∷ codes "gossip_endpoint=c:1")

abbrev outage : List DashboardEvent
outage =
    opened 0
    ∷ answered target done done (some peers_text)
    ∷ closed 0
    ∷ unanswered target
    ∷ unanswered target
    ∷ timer_due
    ∷ []

run-Watched_example :
    Watched (run a_number outage (new_dashboard (codes "a") 6389))
    × ((host : JsString) (port : ℕ) → Watched (run a_number outage (new_dashboard host port)))
unfolding new_dashboard setup_event_subscription
run-Watched_example =
    run-Watched a_number outage (new_dashboard (codes "a") 6389) (unfold Watched in refl)

run-IsPooled_example : IsPooled (run a_number outage (new_dashboard (codes "a") 6389))
unfolding new_dashboard setup_event_subscription
run-IsPooled_example =
    run-IsPooled a_number outage (new_dashboard (codes "a") 6389)
      (record { distinct = (tt, tt); first_two = refl })

abbrev dead_peer : Peer
dead_peer = record {
  mesh_ip = codes "10.0.0.2";
  state = codes "dead";
  gossip_endpoint = some (codes "b:1");
  wormwire = codes "disconnected";
}

abbrev live_peer : Peer
live_peer = record dead_peer { mesh_ip = codes "10.0.0.3"; state = codes "alive" }

by_gossip_ip_example :
    DistinctIps (by_gossip_ip (dead_peer ∷ live_peer ∷ []) [])
    × All (Listed (dead_peer ∷ live_peer ∷ [])) (by_gossip_ip (dead_peer ∷ live_peer ∷ []) [])
    × All
        (IsRepresented (by_gossip_ip (dead_peer ∷ live_peer ∷ []) []))
        (dead_peer ∷ live_peer ∷ [])
by_gossip_ip_example = by_gossip_ip_lem (dead_peer ∷ live_peer ∷ [])

live_kept : dedupe (dead_peer ∷ live_peer ∷ []) ≡ live_peer ∷ []
unfolding dedupe by_gossip_ip put_gossip put_peer gossip_ip same_text
live_kept = refl

handle_docker_action_unguarded_example :
    Safe
      (some (codes "wormdb-1"))
      (some (codes "kill"))
      (codes "docker" ∷ codes "kill" ∷ codes "wormdb-1" ∷ [])
    × ((header : Option JsString)
        → docker_container none header (some (codes "wormdb-1")) (some (codes "kill"))
          ≡ runs (codes "docker" ∷ codes "kill" ∷ codes "wormdb-1" ∷ []))
    × (docker_container (some (codes "t")) none (some (codes "wormdb-1")) (some (codes "kill"))
        ≡ refuses 401)
unfolding handle_docker_action is_action docker_command same_text starts_with
handle_docker_action_unguarded_example =
    handle_docker_action_unguarded (some (codes "wormdb-1")) (some (codes "kill"))
      (codes "docker" ∷ codes "kill" ∷ codes "wormdb-1" ∷ []) 116 [] refl
