-- ===== src/OneShot.antt =====
-- A command over a connection of its own, `sendOneShotParsed` of WormClient,
-- apps/bun/src/lib/client.ts. The socket is the same parameter as in Link.
pub mod Laws
mod Tests
use wormdb.Base.{
  if◌then◌else◌, Bool, ◌>>=◌, ◌∙◌, ℕ, zero, suc, ◌+◌, ◌≡◌, refl, inl, inr, true, false, [], ◌∷◌,
  ◌++◌, none, some, arith, ◌⊎◌, ◌<◌, ◌≤◌, Result, Option, Error, err, ok, List, take,
  connection_closed, out_of_fuel, length, timed_out, ltb, drop,
}
use wormdb.Client.{Outcome, outcome_of, wire_magic, resolved, rejected}
use wormdb.Wire.Bytes.{Bytes}
use wormdb.Wire.Frame.{try_consume_frame}
use wormdb.Wire.Response.{decode_response, is_event_code}

-- `accepted` are the bytes that the socket took; the promise is settled if `outcome` is there.
pub record Shot : Type 0 where
  pub pending_bytes : Option Bytes
  pub accepted : Bytes
  pub calls : ℕ
  pub inbound : Bytes
  pub outcome : Option Outcome

-- The promise's executor, once the command is encoded.
unfoldable pub new_shot : Bytes → Shot
new_shot frame = record {
  pending_bytes = some (wire_magic ++ frame);
  accepted = [];
  calls = 0;
  inbound = [];
  outcome = none;
}

abbrev pub first_outcome : Option Outcome → Outcome → Option Outcome
first_outcome none o = some o
first_outcome (some p) o = some p

-- `finalize`: the first outcome is kept.
unfoldable pub finalize : Outcome → Shot → Shot
finalize o s = record s { outcome = first_outcome s.outcome o }

unfoldable pub take_written : Bytes → Option ℕ → Shot → Shot
take_written bytes none s = record s { calls = s.calls + 1 }
take_written bytes (some written) s = record s {
  calls = s.calls + 1;
  accepted = s.accepted ++ take written bytes;
  pending_bytes = if ltb written (length bytes) then some (drop written bytes) else none;
}

-- `writeChunk`, the `open` and the `drain` callback.
unfoldable pub write_chunk : (ℕ → Option ℕ) → Option Bytes → Shot → Shot
write_chunk answer none s = s
write_chunk answer (some bytes) s = take_written bytes (answer s.calls) s

-- `while (!settled) { … }` of the `data` callback, entered unsettled: events are skipped, and the
-- first other frame is the response.
unfoldable pub shot_loop : ℕ → Shot → Result Shot
shot_loop zero s = err out_of_fuel
shot_loop (suc fuel) s = do
  frame ← try_consume_frame s.inbound
  elim frame [
    | none ↦ ok s
    | some f ↦
        let s' = record s { inbound = f.remaining } in
        let rest = shot_loop fuel s' in
        if is_event_code f.code
        then rest
        else ok (finalize (outcome_of (decode_response f.code f.payload)) s')
  ]

unfoldable pub loop_unless : Option Outcome → Shot → Result Shot
loop_unless (some o) s = ok s
loop_unless none s = shot_loop (suc (length s.inbound)) s

-- The `data` callback; each round takes five bytes at least.
unfoldable pub on_chunk : Bytes → Shot → Result Shot
on_chunk chunk s = loop_unless s.outcome (record s { inbound = s.inbound ++ chunk })

-- The `timer` is the request's timeout, after so many milliseconds.
pub data ShotEvent : Type 0 where
  writable : ShotEvent
  chunk_in : Bytes → ShotEvent
  hung_up : ShotEvent
  failed : Error → ShotEvent
  timer : ℕ → ShotEvent

unfoldable pub shot_step : (ℕ → Option ℕ) → ShotEvent → Shot → Result Shot
shot_step answer writable s = ok (write_chunk answer s.pending_bytes s)
shot_step answer (chunk_in chunk) s = on_chunk chunk s
shot_step answer hung_up s = ok (finalize (rejected connection_closed) s)
shot_step answer (failed e) s = ok (finalize (rejected e) s)
shot_step answer (timer ms) s = ok (finalize (rejected (timed_out ms)) s)

unfoldable pub shot_run : (ℕ → Option ℕ) → List ShotEvent → Shot → Result Shot
shot_run answer [] s = ok s
shot_run answer (e ∷ es) s = do s' ← shot_step answer e s; shot_run answer es s'
