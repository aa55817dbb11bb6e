-- ===== src/Browser/Client/Calls.antt =====
-- Whom the events of the server call in the browser: `handleEvent` of apps/browser/src/client.ts.
use wormdb.Browser.Client.Handlers.{Channel, route, find, members_of, optional, calls}
use wormdb.Dashboard.Keys.{same_text_refl, same_text_eq}
use wormdb.Managed.Subscribe.{same_text}
use wormdb.Wire.Response.{Response}
use wormdb.Browser.{BrowserResponse, event_reply, ok_reply, null_reply, error_reply, value_reply}
use wormdb.Browser.Decoder.{browser_view}
use wormdb.Base.{
  Bool, JsString, List, Option, true, ℕ, ◌∷◌, [], false, Bool-cases, ◌++◌, ◌≡◌, inl, map, subst, ap,
  refl, sym, inr,
}

abbrev pub is_event : BrowserResponse → Bool
is_event (event_reply channel message) = true
is_event _ = false

-- The handlers that a map of channels holds for a name: those of the entry with that name, or none.
pub data HandlersOf (name : JsString) : List Channel → List ℕ → Type 0 where
  missing : HandlersOf name [] []
  here : {c : Channel} {cs : List Channel} → c.name ≡ name → HandlersOf name (c ∷ cs) c.members
  there :
      {c : Channel} {cs : List Channel} {hs : List ℕ}
      → ¬ (c.name ≡ name)
      → HandlersOf name cs hs
      → HandlersOf name (c ∷ cs) hs

-- The calls that the events among the responses make, each handler with the channel and the message:
-- for each event those of its channel, in their order, then the global one if there is one.
pub data Announces (cs : List Channel) (global : Option ℕ)
    : List Response → List (ℕ × JsString × JsString) → Type 0 where
  nothing : Announces cs global [] []
  reply :
      {r : Response} {rs : List Response} {called : List (ℕ × JsString × JsString)}
      → is_event (browser_view r) ≡ false
      → Announces cs global rs called
      → Announces cs global (r ∷ rs) called
  announce :
      {r : Response} {rs : List Response} {called : List (ℕ × JsString × JsString)}
      (channel message : JsString) (hs : List ℕ)
      → browser_view r ≡ event_reply channel message
      → HandlersOf channel cs hs
      → Announces cs global rs called
      → Announces cs global
          (r ∷ rs)
          (map (λ h. (h, channel, message)) (hs ++ optional global) ++ called)

abbrev pub called_by : List Channel → Option ℕ → BrowserResponse → List (ℕ × JsString × JsString)
called_by cs h (event_reply channel message) = route channel message cs h
called_by cs h r = []

-- What the events among the messages call.
abbrev pub announced : List Channel → Option ℕ → List Response → List (ℕ × JsString × JsString)
announced cs h [] = []
announced cs h (r ∷ rs) = called_by cs h (browser_view r) ++ announced cs h rs

find-HandlersOf :
    (name : JsString) (cs : List Channel) → HandlersOf name cs (members_of (find name cs))
unfolding find
find-HandlersOf name [] = missing
find-HandlersOf name (c ∷ cs) = elim (Bool-cases (same_text c.name name)) [
  | inl e ↦ rw e (here (same_text_eq c.name name e))
  | inr e ↦ rw e (
      there
        (λ p.
          let same = same_text_refl name in
          let other : same_text name name ≡ false = subst (λ n. same_text n name ≡ false) p e in
          absurd (cc))
        (find-HandlersOf name cs))
]

calls-map :
    (channel message : JsString) (hs : List ℕ)
    → calls channel message hs ≡ map (λ h. (h, channel, message)) hs
unfolding calls
calls-map channel message [] = refl
calls-map channel message (h ∷ hs) =
    ap (λ l. (h, channel, message) ∷ l) (calls-map channel message hs)

module _ (cs : List Channel) (global : Option ℕ) where
  route-Announces :
      (b : BrowserResponse) (r : Response) (rs : List Response)
      (called : List (ℕ × JsString × JsString))
      → browser_view r ≡ b
      → Announces cs global rs called
      → Announces cs global (r ∷ rs) (called_by cs global b ++ called)
  unfolding route
  route-Announces (event_reply channel message) r rs called e h =
      let hs = members_of (find channel cs) in
      subst (λ l. Announces cs global (r ∷ rs) (l ++ called))
        (sym (calls-map channel message (hs ++ optional global)))
        (announce channel message hs e (find-HandlersOf channel cs) h)
  route-Announces ok_reply r rs called e h = reply (ap is_event e) h
  route-Announces null_reply r rs called e h = reply (ap is_event e) h
  route-Announces (error_reply m) r rs called e h = reply (ap is_event e) h
  route-Announces (value_reply m) r rs called e h = reply (ap is_event e) h

  -- The calls that the client makes are the ones meant.
  pub announced-Announces : (rs : List Response) → Announces cs global rs (announced cs global rs)
  announced-Announces [] = nothing
  announced-Announces (r ∷ rs) =
      route-Announces (browser_view r) r rs (announced cs global rs) refl (announced-Announces rs)
