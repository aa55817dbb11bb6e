-- ===== src/Workload/Workers.antt =====
-- A worker of a benchmark stays within its limit, apps/bun/src/lib/bench/runner.ts.
use wormdb.Base.{
  Bool, if◌then◌else◌, ℕ, zero, suc, ◌+◌, ◌≡◌, refl, inl, inr, true, false, [], ◌∷◌, arith, ◌⊎◌,
  ◌<◌, ◌≤◌, List, min, ◌-◌, Bool-cases, All, ltb, ◌==◌,
}
use wormdb.Workload.{Worker, wake_at, refill, finish_at, fill}

abbrev pub total : List Worker → ℕ
total [] = 0
total (w ∷ ws) = w.active + total ws

-- A worker within its limit; if it has ended, it has no operation, and none is left to launch.
pub record Fine (n limit cursor : ℕ) (w : Worker) : Type 0 where
  pub limited : w.active ≤ limit
  pub ended : w.is_done ≡ true → (w.active ≡ 0) × (n ≤ cursor)

pub record Filled (free n c a : ℕ) (p : ℕ × ℕ) : Type 0 where
  pub fill_counts : min c n + p.1 ≡ min p.0 n + a
  pub fill_forward : c ≤ p.0
  pub fill_within : p.1 ≤ a + free
  pub fill_ends : p.1 ≡ 0 → (free ≡ 0) ⊎ (n ≤ p.0)
  pub fill_grows : a ≤ p.1

pub fill-Filled : (free n c a : ℕ) → Filled free n c a (fill free n c a)
unfolding fill
fill-Filled zero n c a = record {
  fill_counts = refl;
  fill_forward = omega arith;
  fill_within = omega arith;
  fill_ends = λ e. inl refl;
  fill_grows = omega arith;
}
fill-Filled (suc free) n c a =
    let f = fill-Filled free n (c + 1) (a + 1) in
    elim (Bool-cases (ltb c n)) [
      | inl lt ↦
          let h : c < n = ground (arith, lt) in
          let p = fill free n (c + 1) (a + 1) in
          let k = f.fill_counts in
          let grown = f.fill_grows in
          let within = f.fill_within in
          let forward = f.fill_forward in
          rw lt (record {
            fill_counts = omega arith;
            fill_forward = omega arith;
            fill_within = omega arith;
            fill_ends = λ e. absurd (omega arith);
            fill_grows = omega arith;
          })
      | inr ge ↦
          let h : n ≤ c = ground (arith, ge) in
          rw ge (record {
            fill_counts = omega arith;
            fill_forward = omega arith;
            fill_within = omega arith;
            fill_ends = λ e. inr (omega arith);
            fill_grows = omega arith;
          })
    ]

record Refilled (n limit c : ℕ) (w : Worker) (p : ℕ × Worker) : Type 0 where
  refill_counts : min c n + p.1.active ≡ min p.0 n + w.active
  refill_forward : c ≤ p.0
  refill_fine : Fine n limit p.0 p.1

refill-Refilled :
    (n limit c : ℕ) (w : Worker)
    → 1 ≤ limit
    → Fine n limit c w
    → Refilled n limit c w (refill n limit c w)
unfolding refill
refill-Refilled n limit c w h fine =
    let f = fill-Filled (limit - w.active) n c w.active in
    let p = fill (limit - w.active) n c w.active in
    let k = f.fill_counts in
    let forward = f.fill_forward in
    let within = f.fill_within in
    let room = fine.limited in
    let ends : p.1 ≡ 0 → n ≤ p.0 = λ e. elim (f.fill_ends e) [
      | inl full ↦ let low = f.fill_grows in absurd (omega arith)
      | inr past ↦ past
    ] in
    elim w.is_done
      as (λ b.
        Refilled n limit c w
          (if b then (c, w) else (p.0, record { active = p.1; is_done = p.1 == 0 }))) [
            | true ↦ record {
              refill_counts = refl;
              refill_forward = omega arith;
              refill_fine = fine;
            }
            | false ↦ record {
              refill_counts = k;
              refill_forward = forward;
              refill_fine = record {
                limited = omega arith;
                ended = λ e. let z : p.1 ≡ 0 = ground arith in (z, ends z);
              };
            }
          ]

Fine-later : (n limit c c' : ℕ) (w : Worker) → c ≤ c' → Fine n limit c w → Fine n limit c' w
Fine-later n limit c c' w h f = record {
  limited = f.limited;
  ended = λ e. let (z, past) = f.ended e in (z, omega arith);
}

All-Fine :
    (n limit c c' : ℕ) (ws : List Worker)
    → c ≤ c'
    → All (Fine n limit c) ws
    → All (Fine n limit c') ws
All-Fine n limit c c' [] h f = tt
All-Fine n limit c c' (w ∷ ws) h (f, fs) =
    (Fine-later n limit c c' w h f, All-Fine n limit c c' ws h fs)

pub record Woken (n limit c : ℕ) (ws : List Worker) (p : ℕ × List Worker) : Type 0 where
  pub wake_counts : min c n + total p.1 ≡ min p.0 n + total ws
  pub wake_forward : c ≤ p.0
  pub wake_fine : All (Fine n limit p.0) p.1

pub wake_at-Woken :
    (n limit i c : ℕ) (ws : List Worker)
    → 1 ≤ limit
    → All (Fine n limit c) ws
    → Woken n limit c ws (wake_at n limit i c ws)
unfolding wake_at
wake_at-Woken n limit i c [] h f = record {
  wake_counts = refl;
  wake_forward = omega arith;
  wake_fine = tt;
}
wake_at-Woken n limit zero c (w ∷ ws) h (f, fs) =
    let r = refill-Refilled n limit c w h f in
    let k = r.refill_counts in
    record {
      wake_counts = omega arith;
      wake_forward = r.refill_forward;
      wake_fine = (r.refill_fine, All-Fine n limit c _ ws r.refill_forward fs);
    }
wake_at-Woken n limit (suc i) c (w ∷ ws) h (f, fs) =
    let r = wake_at-Woken n limit i c ws h fs in
    let k = r.wake_counts in
    record {
      wake_counts = omega arith;
      wake_forward = r.wake_forward;
      wake_fine = (Fine-later n limit c _ w r.wake_forward f, r.wake_fine);
    }

abbrev pub one : Bool → ℕ
one true = 1
one false = 0

pub record Finished (n limit c : ℕ) (ws : List Worker) (p : List Worker × Bool) : Type 0 where
  pub finish_counts : total p.0 + one p.1 ≡ total ws
  pub finish_fine : All (Fine n limit c) p.0

pub finish_at-Finished :
    (n limit c i : ℕ) (ws : List Worker)
    → All (Fine n limit c) ws
    → Finished n limit c ws (finish_at i ws)
unfolding finish_at
finish_at-Finished n limit c i [] f = record { finish_counts = refl; finish_fine = tt }
finish_at-Finished n limit c zero (w ∷ ws) (f, fs) = elim (Bool-cases (w.active == 0)) [
  | inl e ↦ rw e (record { finish_counts = omega arith; finish_fine = (f, fs) })
  | inr e ↦
      let some_active : 1 ≤ w.active = ground (arith, e) in
      let low = f.limited in
      rw e (record {
        finish_counts = omega arith;
        finish_fine = (
          record {
            limited = omega arith;
            ended = λ d. let (z, _) = f.ended d in absurd (omega arith);
          },
          fs,
        );
      })
]
finish_at-Finished n limit c (suc i) (w ∷ ws) (f, fs) =
    let r = finish_at-Finished n limit c i ws fs in
    let k = r.finish_counts in
    record { finish_counts = omega arith; finish_fine = (f, r.finish_fine) }
