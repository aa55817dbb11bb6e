-- ===== src/Browser/Client/Fifo.antt =====
-- Responses of the server to the browser's WormDB settle its requests in their order.
use wormdb.Base.{
  ℕ, ◌≡◌, [], ◌∷◌, ◌++◌, some, List, Option, JsString, ◌∙◌, refl, true, false, arith, append_assoc,
  ok, ap, if◌then◌else◌, inl, inr, sym, append-nil, Bool-cases, subst,
}
use wormdb.Browser.Client.{Owner, BrowserOutcome, resolved, settle, BrowserDb}
use wormdb.Wire.Bytes.{Bytes}
use wormdb.Browser.Client.Handlers.{Channel}
use wormdb.Wire.Response.{Response, write_response}
use wormdb.Wire.Response.Laws.{Sized}
use wormdb.Browser.Client.Events.{BrowserEvent, message_in, run, step}
use wormdb.Browser.Client.Calls.{is_event, called_by, announced, Announces, announced-Announces}
use wormdb.Browser.Decoder.{browser_view, decode_message-write_response}
use wormdb.Browser.Client.Sockets.{on_message, on_reply, deliver, after_decoding}
use wormdb.Browser.{
  BrowserResponse, decode_message, error_reply, event_reply, value_reply, ok_reply, null_reply,
}

-- What the messages settle, of the requests that wait: the first response settles the first one.
abbrev pub answers : List Owner → List Response → List (Owner × BrowserOutcome)
answers os [] = []
answers [] (r ∷ rs) = []
answers (o ∷ os) (r ∷ rs) =
    let later = answers (o ∷ os) rs in
    let first : List (Owner × BrowserOutcome) = (o, resolved (browser_view r)) ∷ answers os rs in
    if is_event (browser_view r) then later else first

abbrev pub unanswered : List Owner → List Response → List Owner
unanswered os [] = os
unanswered [] (r ∷ rs) = []
unanswered (o ∷ os) (r ∷ rs) =
    let later = unanswered (o ∷ os) rs in
    let next = unanswered os rs in if is_event (browser_view r) then later else next

-- The messages are the frames that the server writes for the responses, one each.
abbrev pub Written : List Response → List Bytes → Type 0
Written [] [] = Unit {0}
Written (r ∷ rs) (m ∷ ms) = Sized r × (write_response r ≡ some m) × Written rs ms
Written _ _ = ⊥

abbrev pub arrivals : List Bytes → List BrowserEvent
arrivals [] = []
arrivals (m ∷ ms) = message_in m ∷ arrivals ms

on_reply-deliver :
    (r : BrowserResponse) (s : BrowserDb)
    → is_event r ≡ false
    → on_reply r s ≡ deliver s.pending r s
unfolding on_reply
on_reply-deliver ok_reply s h = refl
on_reply-deliver null_reply s h = refl
on_reply-deliver (error_reply m) s h = refl
on_reply-deliver (value_reply m) s h = refl
on_reply-deliver (event_reply c m) s h = ground arith

on_message-surplus :
    (message : Bytes) (r : BrowserResponse) (s : BrowserDb)
    → s.pending ≡ []
    → decode_message message ≡ ok r
    → is_event r ≡ false
    → on_message message s ≡ s
unfolding on_message
on_message-surplus message r s pend decoded quiet =
    ap (λ d. after_decoding d s) decoded
    ∙ on_reply-deliver r s quiet
    ∙ ap (λ ps. deliver ps r s) pend
    ∙ unfold deliver in refl

pub on_message-answer :
    (o : Owner) (os : List Owner) (message : Bytes) (r : BrowserResponse) (s : BrowserDb)
    → s.pending ≡ o ∷ os
    → decode_message message ≡ ok r
    → is_event r ≡ false
    → on_message message s ≡ settle o (resolved r) (record s { pending = os })
unfolding on_message
on_message-answer o os message r s pend decoded quiet =
    ap (λ d. after_decoding d s) decoded
    ∙ on_reply-deliver r s quiet
    ∙ ap (λ ps. deliver ps r s) pend
    ∙ unfold deliver in refl

record Answered (os : List Owner) (rs : List Response) (s t : BrowserDb) : Type 0 where
  answered_settled : t.settled ≡ s.settled ++ answers os rs
  answered_pending : t.pending ≡ unanswered os rs
  answered_events : t.delivered ≡ s.delivered ++ announced s.channels s.global_handler rs

called_by-reply :
    (cs : List Channel) (h : Option ℕ) (r : BrowserResponse)
    → is_event r ≡ false
    → called_by cs h r ≡ []
called_by-reply cs h ok_reply q = refl
called_by-reply cs h null_reply q = refl
called_by-reply cs h (error_reply m) q = refl
called_by-reply cs h (value_reply v) q = refl
called_by-reply cs h (event_reply c m) q = ground arith

on_message-event :
    (message : Bytes) (r : BrowserResponse) (s : BrowserDb)
    → decode_message message ≡ ok r
    → is_event r ≡ true
    → on_message message s
      ≡ record s { delivered = s.delivered ++ called_by s.channels s.global_handler r }
unfolding on_message
on_message-event message r s decoded h = ap (λ d. after_decoding d s) decoded ∙ routed r h
  where
    routed :
        (r : BrowserResponse)
        → is_event r ≡ true
        → on_reply r s
          ≡ record s { delivered = s.delivered ++ called_by s.channels s.global_handler r }
    routed (event_reply c m) h = unfold on_reply in refl
    routed ok_reply h = ground arith
    routed null_reply h = ground arith
    routed (error_reply m) h = ground arith
    routed (value_reply v) h = ground arith

unanswered-nil : (rs : List Response) → unanswered [] rs ≡ []
unanswered-nil [] = refl
unanswered-nil (r ∷ rs) = refl

answers-nil : (rs : List Response) → answers [] rs ≡ []
answers-nil [] = refl
answers-nil (r ∷ rs) = refl

module _ (r : Response) (rs : List Response) (s t : BrowserDb) where
  Answered-next :
      (o : Owner) (os : List Owner)
      → is_event (browser_view r) ≡ false
      → Answered os rs (settle o (resolved (browser_view r)) (record s { pending = os })) t
      → Answered (o ∷ os) (r ∷ rs) s t
  unfolding settle
  Answered-next o os q a = record {
    answered_settled = rw q (a.answered_settled ∙ append_assoc s.settled _ _);
    answered_pending = rw q a.answered_pending;
    answered_events =
        rw (called_by-reply s.channels s.global_handler (browser_view r) q) a.answered_events;
  }

  Answered-surplus :
      is_event (browser_view r) ≡ false → Answered [] rs s t → Answered [] (r ∷ rs) s t
  Answered-surplus q a = record {
    answered_settled = a.answered_settled ∙ ap (λ l. s.settled ++ l) (answers-nil rs);
    answered_pending = a.answered_pending ∙ unanswered-nil rs;
    answered_events =
        rw (called_by-reply s.channels s.global_handler (browser_view r) q) a.answered_events;
  }

  Answered-event :
      (os : List Owner)
      → is_event (browser_view r) ≡ true
      → Answered os rs
          (record s {
            delivered = s.delivered ++ called_by s.channels s.global_handler (browser_view r);
          })
          t
      → Answered os (r ∷ rs) s t
  Answered-event [] q a = record {
    answered_settled = a.answered_settled ∙ ap (λ l. s.settled ++ l) (answers-nil rs);
    answered_pending = a.answered_pending ∙ unanswered-nil rs;
    answered_events = a.answered_events ∙ append_assoc s.delivered _ _;
  }
  Answered-event (o ∷ os) q a = record {
    answered_settled = rw q a.answered_settled;
    answered_pending = rw q a.answered_pending;
    answered_events = a.answered_events ∙ append_assoc s.delivered _ _;
  }

after_message :
    (os : List Owner) (rs : List Response) (m : Bytes) (ms : List Bytes) (s t : BrowserDb)
    → on_message m s ≡ t
    → Answered os rs s (run (arrivals ms) t)
    → Answered os rs s (run (arrivals (m ∷ ms)) s)
unfolding run step
after_message os rs m ms s t e a = subst (λ u. Answered os rs s (run (arrivals ms) u)) (sym e) a

all-Answered :
    (os : List Owner) (rs : List Response) (ms : List Bytes) (s : BrowserDb)
    → s.pending ≡ os
    → Written rs ms
    → Answered os rs s (run (arrivals ms) s)
unfolding run step
all-Answered os [] [] s pend w = record {
  answered_settled = sym (append-nil s.settled);
  answered_pending = pend;
  answered_events = sym (append-nil s.delivered);
}
all-Answered os [] (m ∷ ms) s pend w = absurd w
all-Answered os (r ∷ rs) [] s pend w = absurd w
all-Answered [] (r ∷ rs) (m ∷ ms) s pend (z, written, w) =
    let decoded = decode_message-write_response r m z written in
    elim (Bool-cases (is_event (browser_view r))) [
      | inl q ↦
          after_message _ _ m ms s _ (on_message-event m (browser_view r) s decoded q)
            (Answered-event r rs s _ [] q (all-Answered [] rs ms _ pend w))
      | inr q ↦
          after_message _ _ m ms s _ (on_message-surplus m (browser_view r) s pend decoded q)
            (Answered-surplus r rs s _ q (all-Answered [] rs ms s pend w))
    ]
all-Answered (o ∷ os) (r ∷ rs) (m ∷ ms) s pend (z, written, w) =
    let decoded = decode_message-write_response r m z written in
    elim (Bool-cases (is_event (browser_view r))) [
      | inl q ↦
          after_message _ _ m ms s _ (on_message-event m (browser_view r) s decoded q)
            (Answered-event r rs s _ (o ∷ os) q (all-Answered (o ∷ os) rs ms _ pend w))
      | inr q ↦
          after_message _ _ m ms s _ (on_message-answer o os m (browser_view r) s pend decoded q)
            (Answered-next r rs s _ o os q (all-Answered os rs ms _ (unfold settle in refl) w))
    ]

-- The messages that hold what the server writes settle the waiting requests of the browser's WormDB
-- in the order in which these were sent, each with what the server meant; a response without a
-- waiting request is dropped, and an event settles nothing but calls the handlers that the map holds
-- for its channel, then the global one, with the channel and the message. The other requests go on
-- waiting.
pub run-arrivals-answers :
    (s : BrowserDb) (rs : List Response) (ms : List Bytes)
    → Written rs ms
    → ((run (arrivals ms) s).settled ≡ s.settled ++ answers s.pending rs)
      × ((run (arrivals ms) s).pending ≡ unanswered s.pending rs)
      × ((called : List (ℕ × JsString × JsString)) × ((run (arrivals ms) s).delivered
            ≡ s.delivered ++ called)
          × Announces s.channels s.global_handler rs called)
run-arrivals-answers s rs ms w =
    let a = all-Answered s.pending rs ms s refl w in
    (
      a.answered_settled,
      a.answered_pending,
      (
        announced s.channels s.global_handler rs,
        a.answered_events,
        announced-Announces s.channels s.global_handler rs,
      ),
    )
