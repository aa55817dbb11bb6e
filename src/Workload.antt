-- ===== src/Workload.antt =====
-- `runWorkload` of apps/bun/src/lib/bench/runner.ts: workers that share a cursor and keep a number of
-- operations in flight each. An operation is a success or a failure; what it does is not looked at.
pub mod Workers
pub mod Constants
pub mod Laws
pub mod Counting
pub mod Ending
mod Tests
use wormdb.Base.{
  Bool, if◌then◌else◌, ◌>>=◌, ◌∙◌, ℕ, zero, suc, ◌+◌, ◌≡◌, refl, inl, inr, true, false, [], ◌∷◌,
  ◌++◌, none, some, arith, ◌⊎◌, ◌<◌, ◌≤◌, List, ◌-◌, max, ltb, replicate, ◌==◌,
}

-- `active` is the size of the worker's set; a worker ends when it finds the set empty.
pub record Worker : Type 0 where
  pub active : ℕ
  pub is_done : Bool

pub record Workload : Type 0 where
  pub op_count : ℕ
  pub max_in_flight : ℕ
  pub measure_latency : Bool
  pub cursor : ℕ
  pub succeeded : ℕ
  pub failed : ℕ
  pub latencies : List ℕ
  pub workers : List Worker

abbrev pub idle_workers : ℕ → List Worker
idle_workers n = replicate n (record { active = 0; is_done = false })

-- `concurrency` workers, none of which has run yet.
unfoldable pub new_workload : ℕ → ℕ → ℕ → Bool → Workload
new_workload op_count inflight concurrency measure_latency = record {
  op_count = op_count;
  max_in_flight = max 1 inflight;
  measure_latency = measure_latency;
  cursor = 0;
  succeeded = 0;
  failed = 0;
  latencies = [];
  workers = idle_workers concurrency;
}

-- `while (active.size < maxInFlight && launchOne()) {}` from the free places: the cursor, which
-- `launchOne` moves even if nothing is left, and the number of active operations.
unfoldable pub fill : ℕ → ℕ → ℕ → ℕ → ℕ × ℕ
fill zero op_count cursor active = (cursor, active)
fill (suc free) op_count cursor active =
    let launched = fill free op_count (cursor + 1) (active + 1) in
    if ltb cursor op_count then launched else (cursor + 1, active)

-- A worker starts, or wakes as one of its operations is over: it refills, and ends if it has none.
unfoldable pub refill : ℕ → ℕ → ℕ → Worker → ℕ × Worker
refill op_count limit cursor w =
    let (cursor', active') = fill (limit - w.active) op_count cursor w.active in
    if w.is_done
    then (cursor, w)
    else (cursor', record { active = active'; is_done = active' == 0 })

unfoldable pub wake_at : ℕ → ℕ → ℕ → ℕ → List Worker → ℕ × List Worker
wake_at op_count limit i cursor [] = (cursor, [])
wake_at op_count limit zero cursor (w ∷ ws) =
    let (cursor', w') = refill op_count limit cursor w in (cursor', w' ∷ ws)
wake_at op_count limit (suc i) cursor (w ∷ ws) =
    let (cursor', ws') = wake_at op_count limit i cursor ws in (cursor', w ∷ ws')

-- An operation of worker `i` is over; true if it had one.
unfoldable pub finish_at : ℕ → List Worker → List Worker × Bool
finish_at i [] = ([], false)
finish_at zero (w ∷ ws) =
    if w.active == 0 then (w ∷ ws, false) else (record w { active = w.active - 1 } ∷ ws, true)
finish_at (suc i) (w ∷ ws) = let (ws', had) = finish_at i ws in (w ∷ ws', had)

unfoldable pub count_result : Bool → ℕ → List Worker × Bool → Workload → Workload
count_result success latency (ws, false) s = s
count_result true latency (ws, true) s = record s {
  workers = ws;
  succeeded = s.succeeded + 1;
  latencies = if s.measure_latency then s.latencies ++ (latency ∷ []) else s.latencies;
}
count_result false latency (ws, true) s = record s {
  workers = ws;
  failed = s.failed + 1;
  latencies = if s.measure_latency then s.latencies ++ (latency ∷ []) else s.latencies;
}

-- A worker runs up to its next `await`, or an operation of it ends after some time.
pub data WorkloadEvent : Type 0 where
  wakes : ℕ → WorkloadEvent
  ends : ℕ → Bool → ℕ → WorkloadEvent

unfoldable pub step : WorkloadEvent → Workload → Workload
step (wakes i) s =
    let (cursor', ws) = wake_at s.op_count s.max_in_flight i s.cursor s.workers in
    record s { cursor = cursor'; workers = ws }
step (ends i success latency) s = count_result success latency (finish_at i s.workers) s

unfoldable pub run : List WorkloadEvent → Workload → Workload
run [] s = s
run (e ∷ es) s = run es (step e s)
