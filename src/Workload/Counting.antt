-- ===== src/Workload/Counting.antt =====
-- The operations of a benchmark that ended, counted along a run, apps/bun/src/lib/bench/runner.ts.
use wormdb.Workload.{
  Workload, Worker, run, step, count_result, finish_at, WorkloadEvent, wakes, ends,
}
use wormdb.Base.{
  List, ℕ, Bool, ◌+◌, arith, false, subst, ◌≡◌, true, ◌∷◌, [], not, Bool-cases, refl, ◌==◌, suc,
  inl, inr, zero,
}

-- Worker `i` has an operation that is not over.
abbrev running : ℕ → List Worker → Bool
running i [] = false
running zero (w ∷ ws) = not (w.active == 0)
running (suc i) (w ∷ ws) = running i ws

abbrev one_alike : Bool → Bool → Bool → ℕ
one_alike false a b = 0
one_alike true true true = 1
one_alike true false false = 1
one_alike true _ _ = 0

-- How many operations end in success, or in failure, along a run: those of a worker that has one.
abbrev pub times_ended : Bool → List WorkloadEvent → Workload → ℕ
times_ended success [] s = 0
times_ended success (wakes i ∷ es) s = times_ended success es (step (wakes i) s)
times_ended success (ends i b latency ∷ es) s =
    one_alike (running i s.workers) success b + times_ended success es (step (ends i b latency) s)

finish_at-running : (i : ℕ) (ws : List Worker) → (finish_at i ws).1 ≡ running i ws
unfolding finish_at
finish_at-running i [] = refl
finish_at-running zero (w ∷ ws) = elim (Bool-cases (w.active == 0)) [
  | inl e ↦ rw e refl
  | inr e ↦ rw e refl
]
finish_at-running (suc i) (w ∷ ws) = finish_at-running i ws

record Counts (b r : Bool) (s t : Workload) : Type 0 where
  counts_succeeded : t.succeeded ≡ s.succeeded + one_alike r true b
  counts_failed : t.failed ≡ s.failed + one_alike r false b

count_result-Counts :
    (b : Bool) (latency : ℕ) (p : List Worker × Bool) (s : Workload)
    → Counts b p.1 s (count_result b latency p s)
unfolding count_result
count_result-Counts b latency (ws, false) s = record {
  counts_succeeded = omega arith;
  counts_failed = omega arith;
}
count_result-Counts true latency (ws, true) s = record {
  counts_succeeded = refl;
  counts_failed = omega arith;
}
count_result-Counts false latency (ws, true) s = record {
  counts_succeeded = omega arith;
  counts_failed = refl;
}

step-Counts :
    (i : ℕ) (b : Bool) (latency : ℕ) (s : Workload)
    → Counts b (running i s.workers) s (step (ends i b latency) s)
unfolding step
step-Counts i b latency s =
    subst (λ r. Counts b r s (count_result b latency (finish_at i s.workers) s))
      (finish_at-running i s.workers) (count_result-Counts b latency (finish_at i s.workers) s)

-- Each operation that ended is counted once, as what it was.
pub run-times_ended :
    (es : List WorkloadEvent) (s : Workload)
    → ((run es s).succeeded ≡ s.succeeded + times_ended true es s)
      × ((run es s).failed ≡ s.failed + times_ended false es s)
unfolding run step
run-times_ended [] s = (omega arith, omega arith)
run-times_ended (wakes i ∷ es) s = run-times_ended es (step (wakes i) s)
run-times_ended (ends i b latency ∷ es) s =
    let (p, q) = run-times_ended es (step (ends i b latency) s) in
    let k = step-Counts i b latency s in
    let x = k.counts_succeeded in let y = k.counts_failed in (omega arith, omega arith)
