-- ===== src/Browser/Client/Handlers.antt =====
-- `eventHandlers`, the map from channels to sets of handlers, and the calls that an event makes.
use wormdb.Base.{
  Bool, ℕ, true, false, [], ◌∷◌, ◌++◌, none, some, Option, List, JsString, if◌then◌else◌,
}
use wormdb.Managed.Subscribe.{same_text, has_handler, delete_handler}

pub record Channel : Type 0 where
  pub name : JsString
  pub members : List ℕ

unfoldable pub find : JsString → List Channel → Option (List ℕ)
find name [] = none
find name (c ∷ cs) = if same_text c.name name then some c.members else find name cs

-- `handlers.add(handler)` of a set.
unfoldable pub add_member : ℕ → List ℕ → List ℕ
add_member h ms = if has_handler h ms then ms else ms ++ (h ∷ [])

-- `subscribe` up to its request.
unfoldable pub register : JsString → ℕ → List Channel → List Channel
register name h [] = record { name = name; members = h ∷ [] } ∷ []
register name h (c ∷ cs) =
    if same_text c.name name
    then record c { members = add_member h c.members } ∷ cs
    else c ∷ register name h cs

-- The channel with the members that are left, or without it if none is; true if it is gone.
unfoldable pub keep_or_drop : Channel → List ℕ → List Channel → List Channel × Bool
keep_or_drop c [] cs = (cs, true)
keep_or_drop c (m ∷ ms) cs = (record c { members = m ∷ ms } ∷ cs, false)

abbrev pub behind : Channel → List Channel × Bool → List Channel × Bool
behind c (cs, gone) = (c ∷ cs, gone)

-- `unsubscribe` up to its request.
unfoldable pub deregister : JsString → ℕ → List Channel → List Channel × Bool
deregister name h [] = ([], false)
deregister name h (c ∷ cs) =
    if same_text c.name name
    then keep_or_drop c (delete_handler h c.members) cs
    else behind c (deregister name h cs)

unfoldable pub calls : JsString → JsString → List ℕ → List (ℕ × JsString × JsString)
calls channel message [] = []
calls channel message (h ∷ hs) = (h, channel, message) ∷ calls channel message hs

abbrev pub members_of : Option (List ℕ) → List ℕ
members_of none = []
members_of (some ms) = ms

abbrev pub optional : Option ℕ → List ℕ
optional none = []
optional (some h) = h ∷ []

-- The handlers of the channel itself, then the global one; what a handler throws is swallowed.
unfoldable pub route :
    JsString → JsString → List Channel → Option ℕ → List (ℕ × JsString × JsString)
route channel message cs global =
    calls channel message (members_of (find channel cs) ++ optional global)
