-- ===== src/Managed/Tests.antt =====
-- Runs of WormDB at concrete inputs.
use wormdb.Base.{
  ℕ, ◌≡◌, refl, inl, inr, true, [], ◌∷◌, none, some, arith, List, Option, connection_closed,
  JsString, ok, ◌++◌, timed_out,
}
use wormdb.Managed.State.{
  ready, connecting, caller, is_ready, Config, Db, SubEntry, ready, connecting, caller, Outcome,
}
use wormdb.Managed.{
  close, on_connect_failed, drop_link, reject_ready_waiters, reject_all_pending, stop_ping,
}
use wormdb.Managed.Events.{
  run, step, opened, refused, close_called, new_db, Event, in_generation, request, data_in, timeout,
}
use wormdb.Managed.Invariant.{Inv}
use wormdb.Managed.Invariant.Steps.{run-Inv}
use wormdb.Managed.Ending.{close_while_dialling}
use wormdb.Managed.Late.{on_request_timeout_settles_nothing_late}
use wormdb.Managed.Torn.{rejections, AllRejected}
use wormdb.Managed.Dispatch.{dispatch_reaches, Reached}
use mathlib.Core.List.{Memᴰ}
use mathlib.Core.Logic.{◌↔◌}
use wormdb.Managed.Receive.{dispatch}
use wormdb.Managed.Open.{handshake, on_open, write_auth, then_subs, write_subs}
use wormdb.Wire.Bytes.{Bytes}

abbrev config : Config
config = record {
  timeout_ms = 3000;
  enabled = true;
  min_delay_ms = 100;
  max_delay_ms = 10000;
  max_attempts = some 3;
  ping_interval_ms = 500;
}

-- It takes all that it is given.
abbrev takes_all : ℕ → Option ℕ
takes_all n = some n

-- Dialling, for a request that waits.
abbrev dialling : Db
dialling = record (new_db config) {
  state = connecting;
  is_connecting = true;
  waiters = (7, 4 ∷ 0 ∷ 0 ∷ 0 ∷ 0 ∷ []) ∷ [];
}

abbrev talking : Db
talking = record (new_db config) {
  state = ready;
  socket = some 1;
  generation = 1;
  inbound = 0 ∷ 0 ∷ [];
  pending = record { owner = caller 7; generation = 1 } ∷ [];
}

abbrev entry : SubEntry
entry = record { channel = 118 ∷ 58 ∷ []; filter = none; handlers = 5 ∷ []; wire_subscribed = true }

abbrev story : List Event
story = opened 1 ∷ refused connection_closed ∷ close_called ∷ []

abbrev after_story : Db
after_story = close (on_connect_failed connection_closed (on_open takes_all 1 dialling))

dialling-Inv : Inv dialling
unfolding new_db
dialling-Inv = record {
  ready_socket = λ e. cc;
  one_attempt = λ e. cc;
  on_its_way = inr (inl refl);
  pings_ready = λ e. cc;
  closed_empty = λ e. cc;
  bounded = omega arith;
}

opens : (handshake takes_all 1 dialling).1 ≡ none
unfolding handshake write_auth then_subs write_subs new_db
opens = refl

run-Inv_example : Inv after_story
unfolding run step
run-Inv_example =
    run-Inv takes_all story dialling after_story (opens, λ t e. (tt, λ u f. (tt, λ v g. tt)))
      dialling-Inv refl

-- A whole OK frame, which comes too late, and a request that is made before it comes.
abbrev late : Bytes
late = 0 ∷ 0 ∷ 0 ∷ 0 ∷ 0 ∷ []

abbrev lately : List Event
lately = request 8 (ok late) ∷ data_in late ∷ []

on_request_timeout_settles_nothing_late_example :
    (t : Db) × (run takes_all (timeout 1 ∷ lately) talking ≡ ok t)
    × (t.socket ≡ none)
    × (t.pending ≡ [])
    × (t.link.accepted ≡ talking.link.accepted)
    × ((more : List (ℕ × Outcome)) × (t.settled
          ≡ (talking.settled ++ rejections (timed_out talking.config.timeout_ms) talking.pending)
            ++ more)
        × AllRejected more)
unfolding new_db in_generation
on_request_timeout_settles_nothing_late_example =
    on_request_timeout_settles_nothing_late takes_all 1 talking refl refl refl lately (tt, (tt, tt))

closes : (handshake takes_all 1 (close dialling)).1 ≡ none
unfolding handshake write_auth then_subs write_subs new_db close drop_link reject_ready_waiters
    reject_all_pending stop_ping
closes = refl

close_while_dialling_example : is_ready (on_open takes_all 1 (close dialling)).state ≡ true
unfolding run step
close_while_dialling_example =
    close_while_dialling takes_all 1 dialling (on_open takes_all 1 (close dialling)) closes refl

abbrev pulse : JsString
pulse = 118 ∷ 58 ∷ 9 ∷ []

dispatch_reaches_example :
    Memᴰ (5, pulse, []) (dispatch pulse [] (entry ∷ []))
    ↔ ((pulse ≡ pulse) × (◌≡◌ {A = JsString} [] []) × Reached pulse [] 5 (entry ∷ []))
dispatch_reaches_example = dispatch_reaches pulse [] (entry ∷ []) 5 pulse []
