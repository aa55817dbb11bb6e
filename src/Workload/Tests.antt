-- ===== src/Workload/Tests.antt =====
-- A benchmark at concrete inputs.
use wormdb.Base.{◌+◌, ◌≡◌, refl, true, false, [], ◌∷◌, ◌≤◌, List, ◌*◌, max, length, All, min}
use wormdb.Workload.{
  WorkloadEvent, wakes, ends, new_workload, run, step, wake_at, refill, fill, finish_at,
  count_result, Worker,
}
use wormdb.Workload.Workers.{total}
use wormdb.Workload.Ending.{benchmark_counts}
use wormdb.Workload.Counting.{times_ended}
use wormdb.Workload.Laws.{AllDone}

-- Three operations on two workers, two in flight each.
abbrev three : List WorkloadEvent
three = wakes 0 ∷ wakes 1 ∷ ends 0 true 5 ∷ ends 1 false 7 ∷ wakes 1 ∷ ends 0 true 6 ∷ wakes 0 ∷ []

benchmark_counts_example :
    let start = new_workload 3 2 2 true in
    let s = run three start in
    ((total s.workers ≤ 2 * max 1 2)
      × All (λ (w : Worker). w.active ≤ max 1 2) s.workers
      × (s.succeeded + s.failed + total s.workers ≡ min s.cursor 3)
      × (s.succeeded + s.failed ≤ 3)
      × (true ≡ true → length s.latencies ≡ s.succeeded + s.failed)
      × (1 ≤ 2 → AllDone s.workers → s.succeeded + s.failed ≡ 3))
    × ((s.succeeded ≡ times_ended true three start) × (s.failed ≡ times_ended false three start))
    × ((more : List WorkloadEvent) × AllDone (run more s).workers)
benchmark_counts_example = benchmark_counts 3 2 2 true three

-- They all end.
three_done : AllDone (run three (new_workload 3 2 2 true)).workers
unfolding new_workload run step wake_at refill fill finish_at count_result
three_done = (refl, (refl, tt))
