-- ===== src/Api/EventQueue.antt =====
-- The iterator that `events` of WormDB returns, apps/bun/src/lib/wormdb.ts: a bounded queue that
-- drops its oldest event.
use wormdb.Base.{
  if◌then◌else◌, Bool, ◌∙◌, ℕ, suc, ◌+◌, ◌≡◌, refl, true, false, [], ◌∷◌, ◌++◌, none, some, arith,
  ◌≤◌, List, JsString, length, Option, ltb, ap, ◌||◌, length-append,
}

abbrev pub WormEvent : Type 0
WormEvent = JsString × JsString

pub record EventQueue : Type 0 where
  pub limit : ℕ
  pub queue : List WormEvent
  pub dropped : ℕ
  pub finished : Bool

-- `Math.max(1, opts.queueLimit ?? 1024)`
pub queue_limit : Option ℕ → ℕ
queue_limit none = 1024
queue_limit (some n) = if ltb n 1 then 1 else n

pub new_queue : Option ℕ → EventQueue
new_queue o = record { limit = queue_limit o; queue = []; dropped = 0; finished = false }

-- `queue.shift()` where the event is not looked at.
abbrev pub shifted : List WormEvent → List WormEvent
shifted [] = []
shifted (e ∷ es) = es

pub trim : EventQueue → EventQueue
trim q =
    if ltb q.limit (length q.queue)
    then record q { queue = shifted q.queue; dropped = q.dropped + 1 }
    else q

-- The handler that is subscribed.
pub on_event : WormEvent → EventQueue → EventQueue
on_event e q = trim (record q { queue = q.queue ++ (e ∷ []) })

-- What `next` does before it waits: it yields an event, ends, or waits for the next wake.
pub data Next : Type 0 where
  yielded : WormEvent → Next
  ended waiting : Next

-- The Bool tells whether the client is closed.
pub next_from : List WormEvent → Bool → EventQueue → Next × EventQueue
next_from (e ∷ es) is_closed q = (yielded e, record q { queue = es })
next_from [] is_closed q = (if q.finished || is_closed then ended else waiting, q)

-- `return` and `throw` run `finish`.
pub finish : EventQueue → EventQueue
finish q = record q { finished = true }

pub data QueueStep : Type 0 where
  arrives : WormEvent → QueueStep
  asks : Bool → QueueStep
  finishes : QueueStep

pub queue_step : QueueStep → EventQueue → EventQueue
queue_step (arrives e) q = on_event e q
queue_step (asks is_closed) q = (next_from q.queue is_closed q).1
queue_step finishes q = finish q

pub queue_run : List QueueStep → EventQueue → EventQueue
queue_run [] q = q
queue_run (s ∷ ss) q = queue_run ss (queue_step s q)

-- How many events come in, and how many are handed out.
abbrev pub came : List QueueStep → ℕ
came [] = 0
came (arrives e ∷ ss) = suc (came ss)
came (asks c ∷ ss) = came ss
came (finishes ∷ ss) = came ss

abbrev handed : List WormEvent → ℕ
handed [] = 0
handed (e ∷ es) = 1

abbrev pub yields : List QueueStep → EventQueue → ℕ
yields [] q = 0
yields (asks c ∷ ss) q = handed q.queue + yields ss (queue_step (asks c) q)
yields (arrives e ∷ ss) q = yields ss (queue_step (arrives e) q)
yields (finishes ∷ ss) q = yields ss (queue_step finishes q)

length-shifted : (es : List WormEvent) → 1 ≤ length es → length (shifted es) + 1 ≡ length es
length-shifted [] h = absurd (omega arith)
length-shifted (e ∷ es) h = omega arith

-- How the numbers of a queue stand to those of the queue that it was, after `new` events came and
-- `out` went out.
abbrev Balanced : ℕ → ℕ → EventQueue → EventQueue → Type 0
Balanced new out q r =
    (length r.queue + r.dropped + out ≡ length q.queue + q.dropped + new)
    × (r.limit ≡ q.limit)
    × (length r.queue ≤ r.limit)

on_event-Balanced :
    (e : WormEvent) (q : EventQueue) → length q.queue ≤ q.limit → Balanced 1 0 q (on_event e q)
unfolding on_event trim
on_event-Balanced e q h =
    let l = length-append q.queue (e ∷ []) in
    let s = length-shifted (q.queue ++ (e ∷ [])) (omega (arith, l)) in ground arith

next_from-Balanced :
    (es : List WormEvent) (c : Bool) (q : EventQueue)
    → q.queue ≡ es
    → length q.queue ≤ q.limit
    → Balanced 0 (handed es) q (next_from es c q).1
unfolding next_from
next_from-Balanced [] c q e h = (omega arith, refl, h)
next_from-Balanced (x ∷ xs) c q e h =
    let l : length q.queue ≡ suc (length xs) = ap length e in
    (omega (arith, l), refl, omega (arith, l, h))

-- However events arrive and are asked for, each event that came is queued, was dropped or was handed
-- out, and the queue never holds more than its limit.
pub queue_run_balanced :
    (ss : List QueueStep) (q : EventQueue)
    → length q.queue ≤ q.limit
    → (length (queue_run ss q).queue + (queue_run ss q).dropped + yields ss q
        ≡ length q.queue + q.dropped + came ss)
      × ((queue_run ss q).limit ≡ q.limit)
      × (length (queue_run ss q).queue ≤ (queue_run ss q).limit)
unfolding queue_run queue_step finish
queue_run_balanced [] q h = (refl, refl, h)
queue_run_balanced (arrives e ∷ ss) q h =
    let (a, b, c) = on_event-Balanced e q h in
    let (x, y, z) = queue_run_balanced ss (on_event e q) c in (omega (arith, a, x), y ∙ b, z)
queue_run_balanced (asks closed ∷ ss) q h =
    let (a, b, c) = next_from-Balanced q.queue closed q refl h in
    let (x, y, z) = queue_run_balanced ss (next_from q.queue closed q).1 c in
    (omega (arith, a, x), y ∙ b, z)
queue_run_balanced (finishes ∷ ss) q h = queue_run_balanced ss (record q { finished = true }) h
