-- ===== src/Managed/Subscribe.antt =====
-- `subscribe`, `removeHandler` and `auth` of WormDB, before and after their request.
use wormdb.Base.{
  Option, Bool, ◌||◌, if◌then◌else◌, JsString, ℕ, true, false, [], ◌∷◌, ◌++◌, none, some, ◌==◌,
  List, ◌&&◌,
}
use wormdb.Managed.State.{Db, SubEntry}
use wormdb.Wire.Bytes.{Bytes}

unfoldable pub same_text : JsString → JsString → Bool
same_text [] [] = true
same_text (a ∷ as') (b ∷ bs) = a == b && same_text as' bs
same_text _ _ = false

-- `this.subs.get(channel)`
pub get_sub : JsString → List SubEntry → Option SubEntry
get_sub channel [] = none
get_sub channel (e ∷ es) = if same_text e.channel channel then some e else get_sub channel es

pub update_sub : JsString → (SubEntry → SubEntry) → List SubEntry → List SubEntry
update_sub channel f [] = []
update_sub channel f (e ∷ es) =
    if same_text e.channel channel then f e ∷ es else e ∷ update_sub channel f es

-- `this.subs.delete(channel)`
pub delete_sub : JsString → List SubEntry → List SubEntry
delete_sub channel [] = []
delete_sub channel (e ∷ es) = if same_text e.channel channel then es else e ∷ delete_sub channel es

-- A Set keeps its insertion order, and adding a member again changes nothing.
pub has_handler : ℕ → List ℕ → Bool
has_handler h [] = false
has_handler h (i ∷ is) = i == h || has_handler h is

pub add_handler : ℕ → SubEntry → SubEntry
add_handler h e =
    if has_handler h e.handlers then e else record e { handlers = e.handlers ++ (h ∷ []) }

pub delete_handler : ℕ → List ℕ → List ℕ
delete_handler h [] = []
delete_handler h (i ∷ is) = if i == h then is else i ∷ delete_handler h is

-- `subscribe` up to its request: the new subscriptions, and whether a SUB frame is to be sent.
pub register : JsString → ℕ → Option JsString → List SubEntry → List SubEntry × Bool
register channel h filter subs = elim (get_sub channel subs) [
  | some e ↦ (update_sub channel (add_handler h) subs, false)
  | none ↦ (
    subs
        ++ (record {
          channel = channel;
          filter = filter;
          handlers = h ∷ [];
          wire_subscribed = false;
        }
            ∷ []),
    true,
  )
]

-- The SUB was acknowledged.
pub subscribed : JsString → List SubEntry → List SubEntry
subscribed channel = update_sub channel (λ e. record e { wire_subscribed = true })

-- `entry.handlers.delete(handler); if (entry.handlers.size === 0) this.subs.delete(channel)`, as
-- `removeHandler` and the failure of `subscribe` do it. True if the entry is gone.
pub drop_if_empty : JsString → ℕ → List ℕ → List SubEntry → List SubEntry × Bool
drop_if_empty channel h [] subs = (delete_sub channel subs, true)
drop_if_empty channel h (i ∷ is) subs =
    (update_sub channel (λ e. record e { handlers = delete_handler h e.handlers }) subs, false)

pub remove_handler : JsString → ℕ → List SubEntry → List SubEntry × Bool
remove_handler channel h subs = elim (get_sub channel subs) [
  | none ↦ (subs, false)
  | some e ↦ drop_if_empty channel h (delete_handler h e.handlers) subs
]

-- `auth` keeps the token once the server took it.
unfoldable pub keep_token : Bytes → Db → Db
keep_token token s = record s { auth_token = some token }
