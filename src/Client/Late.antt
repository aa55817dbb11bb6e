-- ===== src/Client/Late.antt =====
-- A timeout rejects the waiting requests and leaves the connection open.
use wormdb.Base.{
  Option, ok, length, ◌∙◌, ℕ, ◌≡◌, refl, true, false, [], ◌∷◌, ◌++◌, some, arith, ◌<◌, List,
  timed_out, ◌^◌, ap, append_assoc, sym, append-nil,
}
use wormdb.Wire.Bytes.{Bytes}
use wormdb.Link.Order.{Reliable, write_or_queue-stream}
use wormdb.Client.{
  Client, Event, outcome_of, timer, request, data_in, send_persistent, on_timeout, run, send_on,
  finish_send, step, send_frame, reject_all_pending, waits, rejected, all_rejected, send_by,
}
use wormdb.Wire.Command.{ParsedCommand}
use wormdb.Link.{write_or_queue}
use wormdb.Wire.Encode.{encode_command_frame}
use wormdb.Wire.Response.{is_event_code, decode_response}
use wormdb.Wire.Format.{frame_bytes}
use wormdb.Client.Fifo.{run-chunks-answers, unanswered, answers}
use wormdb.Wire.Frame.Laws.{try_consume_frame-short}
use wormdb.Wire.Frame.Chunks.{flatten}

on_timeout-waiting :
    (a : ℕ) (ids : List ℕ) (s : Client)
    → s.pending ≡ a ∷ ids
    → on_timeout a s ≡ reject_all_pending (timed_out s.timeout_ms) s
unfolding on_timeout
on_timeout-waiting a ids s e = rw (waits-here a s.pending ids e)
  where
    waits-here : (i : ℕ) (l m : List ℕ) → l ≡ i ∷ m → waits i l ≡ true
    waits-here i l m h = ap (waits i) h ∙ unfold waits in ground arith

send_on-Reliable :
    (answer : ℕ → Option ℕ) (id : ℕ) (frame : Bytes) (s : Client)
    → Reliable answer
    → send_on answer id frame s
      ≡ record s { pending = s.pending ++ (id ∷ []); link = (write_or_queue answer s.link frame).0 }
unfolding send_on finish_send
send_on-Reliable answer id frame s r = rw (write_or_queue-stream answer r s.link frame).0

send_persistent-Reliable :
    (answer : ℕ → Option ℕ) (id k : ℕ) (c : ParsedCommand) (frame : Bytes) (s : Client)
    → Reliable answer
    → encode_command_frame c ≡ ok frame
    → s.socket ≡ some k
    → send_persistent answer id c s
      ≡ record s { pending = s.pending ++ (id ∷ []); link = (write_or_queue answer s.link frame).0 }
unfolding send_persistent send_frame
send_persistent-Reliable answer id k c frame s r e h =
    rw (e, send_persistent)
      (ap (λ o. send_by answer o id frame s) h
        ∙ unfold send_by in send_on-Reliable answer id frame s r)

-- Request `a` is rejected by its timeout, request `b` is sent, and then the server's late response
-- to `a` arrives: it settles `b`. So after a timeout a caller is given another call's answer.
pub late_response_misdelivered :
    (answer : ℕ → Option ℕ) (s : Client) (a b k code : ℕ) (payload frame : Bytes)
    (command : ParsedCommand)
    → Reliable answer
    → s.socket ≡ some k
    → s.inbound ≡ []
    → s.pending ≡ a ∷ []
    → encode_command_frame command ≡ ok frame
    → is_event_code code ≡ false
    → length payload < 2 ^ 32
    → (s' : Client) × (run answer
          (timer a ∷ request b command ∷ data_in (frame_bytes code payload) ∷ [])
          s
        ≡ ok s')
      × (s'.pending ≡ [])
      × (s'.settled
          ≡ s.settled
            ++ ((a, rejected (timed_out s.timeout_ms))
                ∷ (b, outcome_of (decode_response code payload))
                ∷ []))
unfolding run step
late_response_misdelivered answer s a b k code payload frame command r sock inb pend enc ev fit =
    let s1 : Client = reject_all_pending (timed_out s.timeout_ms) s in
    let s2 : Client = record s1 {
      pending = s1.pending ++ (b ∷ []);
      link = (write_or_queue answer s1.link frame).0;
    } in
    let rest : List Event = data_in (frame_bytes code payload) ∷ [] in
    let before : run answer (timer a ∷ request b command ∷ rest) s ≡ run answer rest s2 =
      ap (λ t. run answer rest (send_persistent answer b command t))
        (on_timeout-waiting a [] s pend)
      ∙ ap (run answer rest) (
          send_persistent-Reliable answer b k command frame s1 r enc
            (unfold reject_all_pending in sock)) in
    let (s', ran, settled, pending, _) =
      run-chunks-answers answer s2 (frame_bytes code payload ∷ []) ((code, payload) ∷ []) []
        (unfold reject_all_pending in inb) (fit, tt) (try_consume_frame-short [] (omega arith))
        (sym (append-nil (flatten (frame_bytes code payload ∷ [])))) in
    let waiting : s2.pending ≡ b ∷ [] = unfold reject_all_pending in refl in
    (
      s',
      before ∙ ran,
      pending ∙ ap (λ l. unanswered l ((code, payload) ∷ [])) waiting ∙ unfold unanswered in rw ev,
      settled
          ∙ ap (λ l. s2.settled ++ answers l ((code, payload) ∷ [])) waiting
          ∙ unfold answers reject_all_pending in
            rw ev (
              ap
                (λ l.
                  (s.settled ++ all_rejected (timed_out s.timeout_ms) l)
                  ++ ((b, outcome_of (decode_response code payload)) ∷ []))
                pend
              ∙ append_assoc s.settled _ _),
    )
