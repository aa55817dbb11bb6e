-- ===== src/Workload/Laws.antt =====
-- Every operation of a benchmark is run and counted once, with bounded concurrency.
use native.Mathlib.Nat.{suc-mul}
use wormdb.Base.{
  ℕ, zero, suc, ◌+◌, ◌≡◌, refl, true, [], ◌∷◌, arith, ◌≤◌, min, List, All, length, false, Bool, ◌*◌,
  max, length-append, ◌∙◌, length-replicate, subst, ap,
}
use wormdb.Workload.{
  Workload, Worker, run, step, new_workload, count_result, idle_workers, WorkloadEvent, wakes, ends,
}
use wormdb.Workload.Workers.{Fine, wake_at-Woken, Finished, total, finish_at-Finished}
use wormdb.Workload.Constants.{run-Same}

-- What holds all along.
pub record Accounted (s : Workload) : Type 0 where
  pub some_place : 1 ≤ s.max_in_flight
  pub counted : s.succeeded + s.failed + total s.workers ≡ min s.cursor s.op_count
  pub fine : All (Fine s.op_count s.max_in_flight s.cursor) s.workers
  pub timed : s.measure_latency ≡ true → length s.latencies ≡ s.succeeded + s.failed

count_result-Accounted :
    (success : Bool) (latency : ℕ) (s : Workload) (p : List Worker × Bool)
    → Accounted s
    → Finished s.op_count s.max_in_flight s.cursor s.workers p
    → Accounted (count_result success latency p s)
unfolding count_result
count_result-Accounted success latency s (ws, false) v f = v
count_result-Accounted true latency s (ws, true) v f =
    let k = f.finish_counts in
    let c = v.counted in
    record {
      some_place = v.some_place;
      counted = omega arith;
      fine = f.finish_fine;
      timed =
          λ e. let l = v.timed e in rw e (omega (arith, length-append s.latencies (latency ∷ [])));
    }
count_result-Accounted false latency s (ws, true) v f =
    let k = f.finish_counts in
    let c = v.counted in
    record {
      some_place = v.some_place;
      counted = omega arith;
      fine = f.finish_fine;
      timed =
          λ e. let l = v.timed e in rw e (omega (arith, length-append s.latencies (latency ∷ [])));
    }

pub step-Accounted : (e : WorkloadEvent) (s : Workload) → Accounted s → Accounted (step e s)
unfolding step
step-Accounted (wakes i) s v =
    let r = wake_at-Woken s.op_count s.max_in_flight i s.cursor s.workers v.some_place v.fine in
    let k = r.wake_counts in
    let c = v.counted in
    record { some_place = v.some_place; counted = omega arith; fine = r.wake_fine; timed = v.timed }
step-Accounted (ends i success latency) s v =
    count_result-Accounted success latency s _ v
      (finish_at-Finished s.op_count s.max_in_flight s.cursor i s.workers v.fine)

pub run-Accounted : (es : List WorkloadEvent) (s : Workload) → Accounted s → Accounted (run es s)
unfolding run
run-Accounted [] s v = v
run-Accounted (e ∷ es) s v = run-Accounted es (step e s) (step-Accounted e s v)

start_total : (n : ℕ) → total (idle_workers n) ≡ 0
start_total zero = refl
start_total (suc n) = omega (arith, start_total n)

start-Fine : (ops limit n : ℕ) → All (Fine ops limit 0) (idle_workers n)
start-Fine ops limit zero = tt
start-Fine ops limit (suc n) =
    (record { limited = omega arith; ended = λ e. absurd (cc) }, start-Fine ops limit n)

pub new_workload-Accounted :
    (op_count inflight concurrency : ℕ) (measure : Bool)
    → Accounted (new_workload op_count inflight concurrency measure)
unfolding new_workload
new_workload-Accounted op_count inflight concurrency measure = record {
  some_place = omega arith;
  counted = omega (arith, start_total concurrency);
  fine = start-Fine op_count (max 1 inflight) concurrency;
  timed = λ e. refl;
}

-- The workers have ended.
abbrev pub AllDone : List Worker → Type 0
AllDone [] = Unit {0}
AllDone (w ∷ ws) = (w.is_done ≡ true) × AllDone ws

done_total :
    (n limit c : ℕ) (ws : List Worker) → All (Fine n limit c) ws → AllDone ws → total ws ≡ 0
done_total n limit c [] f d = refl
done_total n limit c (w ∷ ws) (f, fs) (d, ds) =
    let (z, _) = f.ended d in let rest = done_total n limit c ws fs ds in omega arith

done_past :
    (n limit c : ℕ) (ws : List Worker)
    → All (Fine n limit c) ws
    → AllDone ws
    → 1 ≤ length ws
    → n ≤ c
done_past n limit c [] f d h = absurd (omega arith)
done_past n limit c (w ∷ ws) (f, fs) (d, ds) h = let (_, past) = f.ended d in past

within_total :
    (n limit c : ℕ) (ws : List Worker) → All (Fine n limit c) ws → total ws ≤ length ws * limit
within_total n limit c [] f = omega arith
within_total n limit c (w ∷ ws) (f, fs) =
    let h = f.limited in
    let rest = within_total n limit c ws fs in rw (suc-mul (length ws) limit) (omega arith)

All-limited :
    (n limit m c : ℕ) (ws : List Worker)
    → limit ≡ m
    → All (Fine n limit c) ws
    → All (λ (w : Worker). w.active ≤ m) ws
All-limited n limit m c [] e f = tt
All-limited n limit m c (w ∷ ws) e (f, fs) =
    let l = f.limited in (omega arith, All-limited n limit m c ws e fs)

-- However the workers wake and the operations end: no worker has more than `max 1 inflight` operations
-- in flight, those in flight and those counted are as many as were launched, at most `op_count` are
-- counted, with a latency each if those are measured; and once all workers have ended, of which there
-- is one at least, exactly `op_count` are counted.
pub workload-Accounted :
    (op_count inflight concurrency : ℕ) (measure : Bool) (es : List WorkloadEvent)
    → let s = run es (new_workload op_count inflight concurrency measure) in
      (total s.workers ≤ concurrency * max 1 inflight)
      × All (λ (w : Worker). w.active ≤ max 1 inflight) s.workers
      × (s.succeeded + s.failed + total s.workers ≡ min s.cursor op_count)
      × (s.succeeded + s.failed ≤ op_count)
      × (measure ≡ true → length s.latencies ≡ s.succeeded + s.failed)
      × (1 ≤ concurrency → AllDone s.workers → s.succeeded + s.failed ≡ op_count)
unfolding new_workload
workload-Accounted op_count inflight concurrency measure es =
    let start = new_workload op_count inflight concurrency measure in
    let v = run-Accounted es start (new_workload-Accounted op_count inflight concurrency measure) in
    let same = run-Same es start in
    let s = run es start in
    let c = v.counted in
    let ops : s.op_count ≡ op_count = same.same_ops in
    let lim : s.max_in_flight ≡ max 1 inflight = same.same_limit in
    let workers : length s.workers ≡ concurrency =
      same.same_workers ∙ length-replicate concurrency _ in
    let within = within_total s.op_count s.max_in_flight s.cursor s.workers v.fine in
    (
      subst (λ m. total s.workers ≤ m * max 1 inflight) workers
          (subst (λ m. total s.workers ≤ length s.workers * m) lim within),
      All-limited s.op_count s.max_in_flight (max 1 inflight) s.cursor s.workers lim v.fine,
      c ∙ ap (min s.cursor) ops,
      omega arith,
      λ m. v.timed (same.same_measure ∙ m),
      λ some done.
          let none_left = done_total s.op_count s.max_in_flight s.cursor s.workers v.fine done in
          let past =
            done_past s.op_count s.max_in_flight s.cursor s.workers v.fine done (omega arith) in
          omega arith,
    )
