-- ===== src/Workload/Ending.antt =====
-- A benchmark can always go on until its workers have ended, apps/bun/src/lib/bench/runner.ts.
use wormdb.Base.{
  ℕ, ◌+◌, ◌≡◌, inl, inr, true, false, [], ◌∷◌, arith, ◌<◌, ◌≤◌, ◌-◌, List, min, Bool-cases, ◌==◌,
  zero, suc, refl, ap, Bool, ◌*◌, max, length, ◌∙◌, All,
}
use wormdb.Workload.{
  Worker, refill, wake_at, finish_at, fill, count_result, Workload, step, wakes, WorkloadEvent,
  ends, run, new_workload,
}
use wormdb.Workload.Workers.{fill-Filled, total, one, finish_at-Finished}
use wormdb.Workload.Counting.{run-times_ended, times_ended}
use wormdb.Workload.Laws.{
  AllDone, Accounted, step-Accounted, run-Accounted, new_workload-Accounted, workload-Accounted,
}

abbrev one_if_not : Bool → ℕ
one_if_not true = 0
one_if_not false = 1

abbrev undone : List Worker → ℕ
undone [] = 0
undone (w ∷ ws) = one_if_not w.is_done + undone ws

-- What is left for a worker that is woken: operations to launch, and workers to end.
Shrinks : ℕ → ℕ → List Worker → ℕ × List Worker → Type 0
Shrinks n c ws p = undone p.1 + (n - min p.0 n) < undone ws + (n - min c n)

-- A worker that can go on: it has an operation that can end, or it wakes to some effect.
data Ready (n limit c : ℕ) (ws : List Worker) : Type 0 where
  all_done : AllDone ws → Ready n limit c ws
  can_end :
      (i : ℕ)
      → (finish_at i ws).1 ≡ true
      → undone (finish_at i ws).0 ≡ undone ws
      → Ready n limit c ws
  can_wake : (i : ℕ) → Shrinks n c ws (wake_at n limit i c ws) → Ready n limit c ws

refill_shrinks :
    (n limit c : ℕ) (w : Worker)
    → w.active ≡ 0
    → w.is_done ≡ false
    → one_if_not (refill n limit c w).1.is_done + (n - min (refill n limit c w).0 n)
      < 1 + (n - min c n)
unfolding refill
refill_shrinks n limit c w a d =
    let p = fill (limit - w.active) n c w.active in
    let f = fill-Filled (limit - w.active) n c w.active in
    let k = f.fill_counts in
    let forward = f.fill_forward in
    rw d (elim (Bool-cases (p.1 == 0)) [
      | inl e ↦ rw e (omega arith)
      | inr e ↦ let some_launched : 1 ≤ p.1 = ground (arith, e) in rw e (omega arith)
    ])

later_ready :
    (n limit c : ℕ) (w : Worker) (ws : List Worker)
    → w.is_done ≡ true
    → Ready n limit c ws
    → Ready n limit c (w ∷ ws)
unfolding Shrinks
later_ready n limit c w ws d (all_done h) = all_done (d, h)
later_ready n limit c w ws d (can_end i h e) =
    can_end (suc i) (unfold finish_at in h)
      (unfold finish_at in ap (λ m. one_if_not w.is_done + m) e)
later_ready n limit c w ws d (can_wake i h) = can_wake (suc i) (unfold wake_at in omega (arith, h))

ready : (n limit c : ℕ) (ws : List Worker) → Ready n limit c ws
unfolding Shrinks
ready n limit c [] = all_done tt
ready n limit c (w ∷ ws) =
    let rest = ready n limit c ws in
    elim (Bool-cases w.is_done) [
      | inl d ↦ later_ready n limit c w ws d rest
      | inr d ↦ elim (Bool-cases (w.active == 0)) [
        | inl a ↦
            let r = refill_shrinks n limit c w (ground (arith, a)) d in
            let undone_one : one_if_not w.is_done ≡ 1 = ap one_if_not d in
            can_wake 0 (unfold wake_at in omega (arith, r, undone_one))
        | inr a ↦ can_end 0 (unfold finish_at in rw a refl) (unfold finish_at in rw a refl)
      ]
    ]

-- Operations to count, operations to launch and workers to end.
left : Workload → ℕ
left s =
    (s.op_count - (s.succeeded + s.failed))
    + (undone s.workers + (s.op_count - min s.cursor s.op_count))

wakes_less :
    (i : ℕ) (s : Workload)
    → Shrinks s.op_count s.cursor s.workers
        (wake_at s.op_count s.max_in_flight i s.cursor s.workers)
    → left (step (wakes i) s) < left s
unfolding left step Shrinks
wakes_less i s h = omega (arith, h)

counted_less :
    (s : Workload) (p : List Worker × Bool)
    → Accounted s
    → p.1 ≡ true
    → total p.0 + one p.1 ≡ total s.workers
    → undone p.0 ≡ undone s.workers
    → left (count_result true 0 p s) < left s
unfolding left count_result
counted_less s (ws, false) v h k u = absurd (cc)
counted_less s (ws, true) v h k u = let c = v.counted in omega (arith, c, k, u)

ends_less :
    (i : ℕ) (s : Workload)
    → Accounted s
    → (finish_at i s.workers).1 ≡ true
    → undone (finish_at i s.workers).0 ≡ undone s.workers
    → left (step (ends i true 0) s) < left s
unfolding step
ends_less i s v h u =
    let f = finish_at-Finished s.op_count s.max_in_flight s.cursor i s.workers v.fine in
    counted_less s (finish_at i s.workers) v h f.finish_counts u

run_on :
    (fuel : ℕ) (s : Workload)
    → Accounted s
    → left s < fuel
    → (es : List WorkloadEvent) × AllDone (run es s).workers
unfolding run
run_on zero s v h = absurd (omega arith)
run_on (suc fuel) s v h = elim (ready s.op_count s.max_in_flight s.cursor s.workers) [
  | all_done d ↦ ([], d)
  | can_end i e u ↦
      let less = ends_less i s v e u in
      let (es, d) =
        run_on fuel (step (ends i true 0) s) (step-Accounted (ends i true 0) s v) (omega arith) in
      (ends i true 0 ∷ es, d)
  | can_wake i w ↦
      let less = wakes_less i s w in
      let (es, d) = run_on fuel (step (wakes i) s) (step-Accounted (wakes i) s v) (omega arith) in
      (wakes i ∷ es, d)
]

-- Wherever a benchmark stands, it can go on until all of its workers have ended.
benchmark_can_end :
    (op_count inflight concurrency : ℕ) (measure : Bool) (es : List WorkloadEvent)
    → (more : List WorkloadEvent) × AllDone
        (run more (run es (new_workload op_count inflight concurrency measure))).workers
benchmark_can_end op_count inflight concurrency measure es =
    let start = new_workload op_count inflight concurrency measure in
    let v = run-Accounted es start (new_workload-Accounted op_count inflight concurrency measure) in
    run_on (suc (left (run es start))) (run es start) v (omega arith)

-- A benchmark of `op_count` operations, however its workers wake and its operations end: no worker has
-- ever more than `max 1 inflight` operations in flight, so that all of them have at most `concurrency`
-- times as many; each operation that ended in success is counted as one, and each that failed as a
-- failure; these and the operations in flight are as many as were launched, which are `op_count` at
-- most, as the cursor that launching moves stops to count there; there is a latency for each that
-- ended, if those are measured; once all workers have ended, of which there is one at least, exactly
-- `op_count` operations are counted; and from wherever the benchmark stands, it can go on until all
-- workers have ended.
pub benchmark_counts :
    (op_count inflight concurrency : ℕ) (measure : Bool) (es : List WorkloadEvent)
    → let start = new_workload op_count inflight concurrency measure in
      let s = run es start in
      ((total s.workers ≤ concurrency * max 1 inflight)
        × All (λ (w : Worker). w.active ≤ max 1 inflight) s.workers
        × (s.succeeded + s.failed + total s.workers ≡ min s.cursor op_count)
        × (s.succeeded + s.failed ≤ op_count)
        × (measure ≡ true → length s.latencies ≡ s.succeeded + s.failed)
        × (1 ≤ concurrency → AllDone s.workers → s.succeeded + s.failed ≡ op_count))
      × ((s.succeeded ≡ times_ended true es start) × (s.failed ≡ times_ended false es start))
      × ((more : List WorkloadEvent) × AllDone (run more s).workers)
unfolding new_workload
benchmark_counts op_count inflight concurrency measure es = (
  workload-Accounted op_count inflight concurrency measure es,
  let (p, q) = run-times_ended es (new_workload op_count inflight concurrency measure) in
      (p ∙ omega arith, q ∙ omega arith),
  benchmark_can_end op_count inflight concurrency measure es,
)
