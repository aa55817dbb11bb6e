-- ===== src/Client/Conservation.antt =====
-- No request is lost and none is settled twice, whatever happens on the socket.
use wormdb.Base.{
  Option, Result, ok, err, ◌==◌, ◌∙◌, ℕ, ◌+◌, ◌≡◌, refl, inl, inr, [], ◌∷◌, none, some, arith, List,
  ap, Bool-cases, >>=-eq-ok, sym, ok-injective, connection_closed,
}
use wormdb.Client.{
  Client, waits, all_rejected, parked_ids, handle_frame, send_on, send_frame, send_persistent,
  on_timeout, send_parked, rejected, run, step, on_data, Event, request, data_in, opened, on_open,
  connect_failed, errored, on_connected, timer, on_connect_failed, connected, on_error, on_drain,
  drained, on_close, closed, close_called, close, send_by,
}
use wormdb.Wire.Bytes.{Bytes}
use wormdb.Link.{write_or_queue}
use wormdb.Wire.Frame.{receive}
use wormdb.Wire.Command.{ParsedCommand}
use wormdb.Wire.Encode.{encode_command_frame}
use wormdb.Wire.Frame.Chunks.{receive_ends, receive_keeps}
use wormdb.Client.Counts.{
  one, held, held-finish_send, count-settled, held-settle, count-parked, held-reject_all,
  held-handle_frame, count, count-append, count-all_rejected,
}

module _ (answer : ℕ → Option ℕ) where
  held-send_on :
      (id i : ℕ) (frame : Bytes) (s : Client)
      → held id (send_on answer i frame s) ≡ held id s + one (i == id)
  unfolding send_on
  held-send_on id i frame s =
      held-finish_send id i (write_or_queue answer s.link frame).1 s.pending _ refl
      ∙ omega (arith, count-append id s.pending (i ∷ []))

  held-send_parked :
      (id : ℕ) (ps : List (ℕ × Bytes)) (s : Client)
      → held id (send_parked answer ps s) ≡ held id s + count id (parked_ids ps)
  unfolding send_parked
  held-send_parked id [] s = omega arith
  held-send_parked id ((i, frame) ∷ ps) s =
      omega (arith, held-send_parked id ps (send_on answer i frame s), held-send_on id i frame s)

  held-send_frame :
      (id i : ℕ) (frame : Bytes) (s : Client)
      → held id (send_frame answer i frame s) ≡ held id s + one (i == id)
  unfolding send_frame
  held-send_frame id i frame s = by_socket s.socket
    where
      by_socket : (o : Option ℕ) → held id (send_by answer o i frame s) ≡ held id s + one (i == id)
      by_socket none = unfold send_by in omega (arith, count-parked id s.parked ((i, frame) ∷ []))
      by_socket (some k) = unfold send_by in held-send_on id i frame s

  held-send_persistent :
      (id i : ℕ) (c : ParsedCommand) (s : Client)
      → held id (send_persistent answer i c s) ≡ held id s + one (i == id)
  unfolding send_persistent
  held-send_persistent id i c s = by_encoding (encode_command_frame c) refl
    where
      by_encoding :
          (r : Result Bytes)
          → encode_command_frame c ≡ r
          → held id (send_persistent answer i c s) ≡ held id s + one (i == id)
      by_encoding (ok frame) e = rw (e, send_persistent) (held-send_frame id i frame s)
      by_encoding (err x) e = rw (e, send_persistent) (held-settle id i (rejected x) s)

held-on_data :
    (id : ℕ) (chunk : Bytes) (s s' : Client) → on_data chunk s ≡ ok s' → held id s' ≡ held id s
unfolding on_data
held-on_data id chunk s s' e =
    let (p, r, same) = >>=-eq-ok (receive handle_frame s s.inbound chunk) _ e in
    let kept : held id p.0 ≡ held id s =
      receive_keeps handle_frame (λ t. held id t ≡ held id s)
        (λ t code payload h. held-handle_frame id t code payload ∙ h) s s.inbound chunk p refl r in
    ap (held id) (sym (ok-injective same)) ∙ kept

held-on_timeout : (id i : ℕ) (s : Client) → held id (on_timeout i s) ≡ held id s
unfolding on_timeout
held-on_timeout id i s = elim (Bool-cases (waits i s.pending)) [
  | inl e ↦ rw e (held-reject_all id _ s)
  | inr e ↦ rw e
]

-- Whether the event asks for this request.
abbrev pub asked : ℕ → Event → ℕ
asked id (request i command) = one (i == id)
asked id _ = 0

held-step :
    (answer : ℕ → Option ℕ) (id : ℕ) (e : Event) (s s' : Client)
    → step answer e s ≡ ok s'
    → held id s' ≡ held id s + asked id e
unfolding step
held-step answer id (request i command) s s' r =
    ap (held id) (sym (ok-injective r)) ∙ held-send_persistent answer id i command s
held-step answer id (opened k) s s' r =
    ap (held id) (sym (ok-injective r)) ∙ unfold on_open in omega arith
held-step answer id connected s s' r =
    ap (held id) (sym (ok-injective r))
    ∙ unfold on_connected in (held-send_parked answer id s.parked _ ∙ omega arith)
held-step answer id (connect_failed e) s s' r =
    ap (held id) (sym (ok-injective r))
    ∙ unfold on_connect_failed in
      omega (
        arith,
        count-settled id s.settled (all_rejected e (parked_ids s.parked)),
        count-all_rejected id e (parked_ids s.parked),
      )
held-step answer id (errored e) s s' r =
    ap (held id) (sym (ok-injective r)) ∙ unfold on_error in (held-reject_all id e _ ∙ omega arith)
held-step answer id (data_in chunk) s s' r = held-on_data id chunk s s' r ∙ omega arith
held-step answer id drained s s' r =
    ap (held id) (sym (ok-injective r)) ∙ unfold on_drain in omega arith
held-step answer id closed s s' r =
    ap (held id) (sym (ok-injective r))
    ∙ unfold on_close on_error in (held-reject_all id connection_closed _ ∙ omega arith)
held-step answer id close_called s s' r =
    ap (held id) (sym (ok-injective r))
    ∙ unfold close in (held-reject_all id connection_closed s ∙ omega arith)
held-step answer id (timer i) s s' r =
    ap (held id) (sym (ok-injective r)) ∙ held-on_timeout id i s ∙ omega arith

abbrev pub times_asked : ℕ → List Event → ℕ
times_asked id [] = 0
times_asked id (e ∷ es) = asked id e + times_asked id es

-- Over any run of requests, responses in any chunks, partial and failed writes, timeouts, closes
-- and errors, a request is held as often as it was made: it waits for the connection, waits for
-- its response, or is settled, and it is never settled twice.
pub held-run :
    (answer : ℕ → Option ℕ) (id : ℕ) (es : List Event) (s s' : Client)
    → run answer es s ≡ ok s'
    → held id s' ≡ held id s + times_asked id es
unfolding run
held-run answer id [] s s' r = ap (held id) (sym (ok-injective r)) ∙ omega arith
held-run answer id (e ∷ es) s s' r =
    let (t, first, later) = >>=-eq-ok (step answer e s) (run answer es) r in
    omega (arith, held-run answer id es t s' later, held-step answer id e s t first)

step_ends :
    (answer : ℕ → Option ℕ) (e : Event) (s : Client) → (s' : Client) × (step answer e s ≡ ok s')
unfolding step on_data
step_ends answer (data_in chunk) s =
    let (p, rest, r, _) = receive_ends handle_frame s s.inbound chunk in
    (record p { inbound = rest }, rw r)
step_ends answer (request i command) s = (_, refl)
step_ends answer (opened k) s = (_, refl)
step_ends answer connected s = (_, refl)
step_ends answer (connect_failed e) s = (_, refl)
step_ends answer (errored e) s = (_, refl)
step_ends answer drained s = (_, refl)
step_ends answer closed s = (_, refl)
step_ends answer close_called s = (_, refl)
step_ends answer (timer i) s = (_, refl)

-- No event makes the client fail or loop: every run ends in a state.
pub run_ends :
    (answer : ℕ → Option ℕ) (es : List Event) (s : Client)
    → (s' : Client) × (run answer es s ≡ ok s')
unfolding run
run_ends answer [] s = (s, refl)
run_ends answer (e ∷ es) s =
    let (t, first) = step_ends answer e s in
    let (s', later) = run_ends answer es t in (s', rw first later)
