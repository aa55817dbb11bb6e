-- ===== src/Client/Fifo.antt =====
-- Responses are matched to requests by order alone.
use wormdb.Base.{
  Option, ok, map, if◌then◌else◌, ◌∙◌, ℕ, ◌≡◌, refl, inl, inr, true, false, [], ◌∷◌, ◌++◌, none,
  List, All, sym, Bool-cases, append-nil, append_assoc, ap, ok-injective, >>=-eq-ok,
}
use wormdb.Wire.Bytes.{Bytes}
use wormdb.Wire.Frame.Chunks.{
  handle_all, flatten, wire_bytes, Fits, receive_chunks-wire_bytes, receive_commutes,
}
use wormdb.Client.{
  Client, Outcome, outcome_of, handle_frame, deliver, run, step, settle, on_data, data_in,
}
use wormdb.Wire.Response.{is_event_code, decode_response}
use wormdb.Wire.Frame.{try_consume_frame, receive_chunks, receive}

-- The frames that are no events, matched to the waiting requests from the front.
abbrev pub match_one : List ℕ → Outcome → List (ℕ × Outcome)
match_one [] o = []
match_one (id ∷ ids) o = (id, o) ∷ []

abbrev pub rest_of : List ℕ → List ℕ
rest_of [] = []
rest_of (id ∷ ids) = ids

unfoldable pub answers : List ℕ → List (ℕ × Bytes) → List (ℕ × Outcome)
answers ids [] = []
answers ids ((code, payload) ∷ fs) =
    if is_event_code code
    then answers ids fs
    else match_one ids (outcome_of (decode_response code payload)) ++ answers (rest_of ids) fs

unfoldable pub unanswered : List ℕ → List (ℕ × Bytes) → List ℕ
unanswered ids [] = ids
unanswered ids ((code, payload) ∷ fs) =
    if is_event_code code then unanswered ids fs else unanswered (rest_of ids) fs

-- One response.
deliver-answers :
    (ids : List ℕ) (code : ℕ) (payload : Bytes) (s : Client)
    → s.pending ≡ ids
    → ((deliver ids code payload s).settled
        ≡ s.settled ++ match_one ids (outcome_of (decode_response code payload)))
      × ((deliver ids code payload s).pending ≡ rest_of ids)
unfolding deliver settle
deliver-answers [] code payload s e = (sym (append-nil s.settled), e)
deliver-answers (id ∷ ids) code payload s e = (refl, refl)

handle_frame-event :
    (s : Client) (code : ℕ) (payload : Bytes)
    → is_event_code code ≡ true
    → handle_frame s code payload ≡ s
unfolding handle_frame
handle_frame-event s code payload e = rw e

handle_frame-response :
    (s : Client) (code : ℕ) (payload : Bytes)
    → is_event_code code ≡ false
    → handle_frame s code payload ≡ deliver s.pending code payload s
unfolding handle_frame
handle_frame-response s code payload e = rw e

handle_all-answers :
    (fs : List (ℕ × Bytes)) (s : Client)
    → ((handle_all handle_frame s fs).settled ≡ s.settled ++ answers s.pending fs)
      × ((handle_all handle_frame s fs).pending ≡ unanswered s.pending fs)
unfolding answers unanswered
handle_all-answers [] s = (sym (append-nil s.settled), refl)
handle_all-answers ((code, payload) ∷ fs) s = elim (Bool-cases (is_event_code code)) [
  | inl e ↦
      let same = handle_frame-event s code payload e in
      let (all, rest) = handle_all-answers fs s in
      (
        ap (λ t. (handle_all handle_frame t fs).settled) same ∙ rw e all,
        ap (λ t. (handle_all handle_frame t fs).pending) same ∙ rw e rest,
      )
  | inr e ↦
      let same = handle_frame-response s code payload e in
      let o = outcome_of (decode_response code payload) in
      let (done, left) = deliver-answers s.pending code payload s refl in
      let (all, rest) = handle_all-answers fs (deliver s.pending code payload s) in
      (
        ap (λ t. (handle_all handle_frame t fs).settled) same
            ∙ all
            ∙ rw (done, left, e)
                (append_assoc s.settled (match_one s.pending o) (answers (rest_of s.pending) fs)),
        ap (λ t. (handle_all handle_frame t fs).pending) same ∙ rest ∙ rw (left, e),
      )
]

-- The inbound buffer is not looked at by the frame handler.
abbrev with_inbound : Bytes → Client → Client
with_inbound b s = record s { inbound = b }

handle_frame-with_inbound :
    (b : Bytes) (s : Client) (code : ℕ) (payload : Bytes)
    → handle_frame (with_inbound b s) code payload ≡ with_inbound b (handle_frame s code payload)
unfolding handle_frame
handle_frame-with_inbound b s code payload = elim (Bool-cases (is_event_code code)) [
  | inl e ↦ rw e
  | inr e ↦ rw e (by_queue s.pending)
]
  where
    by_queue :
        (ids : List ℕ)
        → deliver ids code payload (with_inbound b s) ≡ with_inbound b (deliver ids code payload s)
    by_queue [] = unfold deliver in refl
    by_queue (id ∷ ids) = unfold deliver settle in refl

run-chunks :
    (answer : ℕ → Option ℕ) (cs : List Bytes) (s : Client) (b : Bytes) (p : Client × Bytes)
    → receive_chunks handle_frame s b cs ≡ ok p
    → run answer (map data_in cs) (with_inbound b s) ≡ ok (with_inbound p.1 p.0)
unfolding run step on_data receive_chunks
run-chunks answer [] s b p r = ap (λ q. ok (with_inbound q.1 q.0)) (ok-injective r)
run-chunks answer (c ∷ cs) s b p r =
    let (q, first, later) = >>=-eq-ok (receive handle_frame s b c) _ r in
    rw (receive_commutes handle_frame (with_inbound b) (handle_frame-with_inbound b) s b c q first)
      (run-chunks answer cs q.0 q.1 p later)

-- Let the server's byte stream, cut into chunks anywhere, hold some frames and an unfinished one.
-- Then the responses settle the waiting requests in the order in which these were sent, one each;
-- event frames settle none, surplus responses are dropped, and the requests that are left go on
-- waiting.
pub run-chunks-answers :
    (answer : ℕ → Option ℕ) (s : Client) (chunks : List Bytes) (fs : List (ℕ × Bytes))
    (tail : Bytes)
    → s.inbound ≡ []
    → All Fits fs
    → try_consume_frame tail ≡ ok none
    → flatten chunks ≡ wire_bytes fs ++ tail
    → (s' : Client) × (run answer (map data_in chunks) s ≡ ok s')
      × (s'.settled ≡ s.settled ++ answers s.pending fs)
      × (s'.pending ≡ unanswered s.pending fs)
      × (s'.inbound ≡ tail)
run-chunks-answers answer s chunks fs tail e fit part cut =
    let whole = receive_chunks-wire_bytes handle_frame s chunks fs tail fit part cut in
    let (settled, pending) = handle_all-answers fs s in
    (
      with_inbound tail (handle_all handle_frame s fs),
      ap (λ b. run answer (map data_in chunks) (with_inbound b s)) e
          ∙ run-chunks answer chunks s [] (handle_all handle_frame s fs, tail) whole,
      settled,
      pending,
      refl,
    )
