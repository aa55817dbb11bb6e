-- ===== src/Workload/Constants.antt =====
-- What no event of a benchmark changes.
use wormdb.Base.{
  Bool, ◌∙◌, ℕ, zero, suc, ◌≡◌, refl, inl, inr, true, false, [], ◌∷◌, length, List, Bool-cases, ap,
  ◌==◌,
}
use wormdb.Workload.{
  Workload, Worker, wake_at, finish_at, step, run, count_result, WorkloadEvent, wakes, ends,
}

-- What no event changes.
pub record Same (s t : Workload) : Type 0 where
  pub same_ops : t.op_count ≡ s.op_count
  pub same_limit : t.max_in_flight ≡ s.max_in_flight
  pub same_measure : t.measure_latency ≡ s.measure_latency
  pub same_workers : length t.workers ≡ length s.workers

length-wake_at :
    (n limit i c : ℕ) (ws : List Worker) → length (wake_at n limit i c ws).1 ≡ length ws
unfolding wake_at
length-wake_at n limit i c [] = refl
length-wake_at n limit zero c (w ∷ ws) = refl
length-wake_at n limit (suc i) c (w ∷ ws) = ap suc (length-wake_at n limit i c ws)

length-finish_at : (i : ℕ) (ws : List Worker) → length (finish_at i ws).0 ≡ length ws
unfolding finish_at
length-finish_at i [] = refl
length-finish_at zero (w ∷ ws) = elim (Bool-cases (w.active == 0)) [
  | inl e ↦ rw e refl
  | inr e ↦ rw e refl
]
length-finish_at (suc i) (w ∷ ws) = ap suc (length-finish_at i ws)

count_result-Same :
    (success : Bool) (latency : ℕ) (s : Workload) (p : List Worker × Bool)
    → length p.0 ≡ length s.workers
    → Same s (count_result success latency p s)
unfolding count_result
count_result-Same success latency s (ws, false) h = record {
  same_ops = refl;
  same_limit = refl;
  same_measure = refl;
  same_workers = refl;
}
count_result-Same true latency s (ws, true) h = record {
  same_ops = refl;
  same_limit = refl;
  same_measure = refl;
  same_workers = h;
}
count_result-Same false latency s (ws, true) h = record {
  same_ops = refl;
  same_limit = refl;
  same_measure = refl;
  same_workers = h;
}

step-Same : (e : WorkloadEvent) (s : Workload) → Same s (step e s)
unfolding step
step-Same (wakes i) s = record {
  same_ops = refl;
  same_limit = refl;
  same_measure = refl;
  same_workers = length-wake_at s.op_count s.max_in_flight i s.cursor s.workers;
}
step-Same (ends i success latency) s =
    count_result-Same success latency s (finish_at i s.workers) (length-finish_at i s.workers)

pub run-Same : (es : List WorkloadEvent) (s : Workload) → Same s (run es s)
unfolding run
run-Same [] s = record {
  same_ops = refl;
  same_limit = refl;
  same_measure = refl;
  same_workers = refl;
}
run-Same (e ∷ es) s =
    let a = step-Same e s in
    let b = run-Same es (step e s) in
    record {
      same_ops = b.same_ops ∙ a.same_ops;
      same_limit = b.same_limit ∙ a.same_limit;
      same_measure = b.same_measure ∙ a.same_measure;
      same_workers = b.same_workers ∙ a.same_workers;
    }
