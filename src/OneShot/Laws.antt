-- ===== src/OneShot/Laws.antt =====
-- A one-shot request ends well: it never loops, its outcome is settled once, and its bytes are
-- written in order.
use wormdb.Base.{
  if◌then◌else◌, Option, ◌∙◌, ℕ, zero, suc, ◌≡◌, refl, inl, inr, [], ◌∷◌, ◌++◌, none, some, arith,
  ◌<◌, take, ok, List, ap, ltb, length, sym, Bool-cases, drop, append_assoc, take-append-drop,
  take-all, append-nil,
}
use wormdb.OneShot.{
  Shot, ShotEvent, finalize, take_written, write_chunk, shot_loop, loop_unless, on_chunk, shot_step,
  shot_run, first_outcome, writable, chunk_in, hung_up, failed, timer,
}
use wormdb.Wire.Frame.Laws.{consume_cases, try_consume_frame_more}
use wormdb.Client.{Outcome, outcome_of}
use wormdb.Wire.Bytes.{Bytes}
use wormdb.Wire.Response.{is_event_code, decode_response}

abbrev left : Option Bytes → Bytes
left none = []
left (some bytes) = bytes

-- The bytes that the socket took, and those that still wait.
abbrev pub outgoing : Shot → Bytes
outgoing s = s.accepted ++ left s.pending_bytes

-- An outcome that is there stays.
abbrev pub Stays : Option Outcome → Option Outcome → Type 0
Stays none later = Unit {0}
Stays (some o) later = later ≡ some o

-- What the run of a callback may do: it leaves the outgoing bytes as they are, and a settled
-- outcome.
abbrev pub Follows : Shot → Shot → Type 0
Follows s t = (outgoing t ≡ outgoing s) × Stays s.outcome t.outcome

Stays-refl : (o : Option Outcome) → Stays o o
Stays-refl none = tt
Stays-refl (some o) = refl

Stays-first : (o : Option Outcome) (p : Outcome) → Stays o (first_outcome o p)
Stays-first none p = tt
Stays-first (some o) p = refl

Stays-on : (a b c : Option Outcome) → Stays a b → Stays b c → Stays a c
Stays-on none b c h k = tt
Stays-on (some o) none c h k = absurd (cc)
Stays-on (some o) (some p) c h k = k ∙ h

-- A write leaves behind what the socket did not take.
rest_of_chunk :
    (accepted bytes : Bytes) (n : ℕ)
    → (accepted ++ take n bytes)
        ++ left (if ltb n (length bytes) then some (drop n bytes) else none)
      ≡ accepted ++ bytes
rest_of_chunk accepted bytes n = elim (Bool-cases (ltb n (length bytes))) [
  | inl part ↦
      rw (part, append_assoc accepted (take n bytes) (drop n bytes), take-append-drop n bytes) refl
  | inr whole ↦ rw (whole, take-all n bytes (ground arith), append-nil (accepted ++ bytes)) refl
]

take_written-Follows :
    (a : Option ℕ) (bytes : Bytes) (s : Shot)
    → s.pending_bytes ≡ some bytes
    → Follows s (take_written bytes a s)
unfolding take_written
take_written-Follows none bytes s h = (refl, Stays-refl s.outcome)
take_written-Follows (some n) bytes s h = (
  rest_of_chunk s.accepted bytes n ∙ ap (λ p. s.accepted ++ left p) (sym h),
  Stays-refl s.outcome,
)

write_chunk-Follows :
    (answer : ℕ → Option ℕ) (p : Option Bytes) (s : Shot)
    → s.pending_bytes ≡ p
    → Follows s (write_chunk answer p s)
unfolding write_chunk
write_chunk-Follows answer none s h = (refl, Stays-refl s.outcome)
write_chunk-Follows answer (some bytes) s h = take_written-Follows (answer s.calls) bytes s h

-- The loop ends if it has more fuel than bytes.
shot_loop-Follows :
    (n : ℕ) (s : Shot)
    → length s.inbound < n
    → s.outcome ≡ none
    → (t : Shot) × (shot_loop n s ≡ ok t) × Follows s t
unfolding shot_loop finalize
shot_loop-Follows zero s l h = absurd (omega arith)
shot_loop-Follows (suc n) s l h = elim (consume_cases s.inbound) [
  | inl e ↦ (s, rw e refl, (refl, Stays-refl s.outcome))
  | inr (f, e) ↦
      let s' = record s { inbound = f.remaining } in
      let shorter = (try_consume_frame_more s.inbound [] f e).0 in
      elim (Bool-cases (is_event_code f.code)) [
        | inl event ↦
            let (t, run, follows) = shot_loop-Follows n s' (omega (arith, shorter, l)) h in
            (t, rw (e, event) run, follows)
        | inr other ↦ (
          finalize (outcome_of (decode_response f.code f.payload)) s',
          rw (e, other) refl,
          (refl, Stays-first s.outcome (outcome_of (decode_response f.code f.payload))),
        )
      ]
]

loop_unless-Follows :
    (o : Option Outcome) (s : Shot)
    → s.outcome ≡ o
    → (t : Shot) × (loop_unless o s ≡ ok t) × Follows s t
unfolding loop_unless
loop_unless-Follows (some o) s h = (s, refl, (refl, Stays-refl s.outcome))
loop_unless-Follows none s h = shot_loop-Follows (suc (length s.inbound)) s (omega arith) h

finalize-Follows : (o : Outcome) (s : Shot) → Follows s (finalize o s)
unfolding finalize
finalize-Follows o s = (refl, Stays-first s.outcome o)

module _ (answer : ℕ → Option ℕ) where
  shot_step-Follows :
      (e : ShotEvent) (s : Shot) → (t : Shot) × (shot_step answer e s ≡ ok t) × Follows s t
  unfolding shot_step on_chunk
  shot_step-Follows writable s = (_, refl, write_chunk-Follows answer s.pending_bytes s refl)
  shot_step-Follows (chunk_in chunk) s =
      loop_unless-Follows s.outcome (record s { inbound = s.inbound ++ chunk }) refl
  shot_step-Follows hung_up s = (_, refl, finalize-Follows _ s)
  shot_step-Follows (failed e) s = (_, refl, finalize-Follows _ s)
  shot_step-Follows (timer ms) s = (_, refl, finalize-Follows _ s)

  -- Every run of a one-shot request ends in a state. An outcome that was settled before it, is the
  -- outcome after it, whatever arrives later, and the bytes that the socket took with those that
  -- wait are the same bytes as before: none is lost, repeated or reordered, failed writes included.
  pub shot_run-Follows :
      (es : List ShotEvent) (s : Shot)
      → (t : Shot) × (shot_run answer es s ≡ ok t)
        × (outgoing t ≡ outgoing s)
        × Stays s.outcome t.outcome
  unfolding shot_run
  shot_run-Follows [] s = (s, refl, refl, Stays-refl s.outcome)
  shot_run-Follows (e ∷ es) s =
      let (u, first, (out, keep)) = shot_step-Follows e s in
      let (t, later, out', keep') = shot_run-Follows es u in
      (t, rw first later, out' ∙ out, Stays-on s.outcome u.outcome t.outcome keep keep')
