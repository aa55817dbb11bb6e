-- ===== src/Managed/Dispatch.antt =====
-- Which handlers an event reaches.
use wormdb.Managed.State.{SubEntry}
use wormdb.Managed.Receive.{starts_with, hand_to, dispatch}
use mathlib.Core.List.{Memᴰ}
use mathlib.Core.List.Memᴰ
use mathlib.Core.Logic.{◌↔◌}
use wormdb.Base.{
  if◌then◌else◌, ◌∙◌, ℕ, ◌≡◌, refl, inl, inr, true, [], ◌∷◌, ◌++◌, arith, JsString, List,
  Bool-cases, ap, subst, sym,
}
use mathlib.Core.Path.{ap₂}

pub starts_with_prefix :
    (text prefix : JsString)
    → starts_with text prefix ≡ true
    → (rest : JsString) × (text ≡ prefix ++ rest)
unfolding starts_with
starts_with_prefix text [] h = (text, refl)
starts_with_prefix [] (p ∷ ps) h = absurd (cc)
starts_with_prefix (c ∷ text) (p ∷ ps) h =
    let same : c ≡ p = ground arith in
    let tail : starts_with text ps ≡ true = ground arith in
    let (rest, e) = starts_with_prefix text ps tail in (rest, cc)

starts_with_nil : (t : JsString) → starts_with t [] ≡ true
unfolding starts_with
starts_with_nil t = refl

starts_with-append : (prefix rest : JsString) → starts_with (prefix ++ rest) prefix ≡ true
unfolding starts_with
starts_with-append [] rest = starts_with_nil rest
starts_with-append (p ∷ ps) rest = let below = starts_with-append ps rest in ground arith

module _ (channel message : JsString) where
  -- A subscription whose channel is a prefix of the event's channel has the handler.
  pub Reached : ℕ → List SubEntry → Type 0
  Reached h es =
      (e : SubEntry) × Memᴰ e es
      × ((rest : JsString) × (channel ≡ e.channel ++ rest))
      × Memᴰ h e.handlers

  hand_to_sound :
      (hs : List ℕ) (h : ℕ) (c m : JsString)
      → Memᴰ (h, c, m) (hand_to channel message hs)
      → (c ≡ channel) × (m ≡ message) × Memᴰ h hs
  unfolding hand_to
  hand_to_sound [] h c m d = elim d [ ]
  hand_to_sound (i ∷ is) h c m (Memᴰ.head e) =
      (ap (λ p. p.1) e, ap (λ p. p.2) e, Memᴰ.head (ap (λ p. p.0) e))
  hand_to_sound (i ∷ is) h c m (Memᴰ.tail d) =
      let (x, y, z) = hand_to_sound is h c m d in (x, y, Memᴰ.tail z)

  hand_to_complete :
      (hs : List ℕ) (h : ℕ) → Memᴰ h hs → Memᴰ (h, channel, message) (hand_to channel message hs)
  unfolding hand_to
  hand_to_complete [] h d = elim d [ ]
  hand_to_complete (i ∷ is) h (Memᴰ.head e) = Memᴰ.head (ap (λ j. (j, channel, message)) e)
  hand_to_complete (i ∷ is) h (Memᴰ.tail d) = Memᴰ.tail (hand_to_complete is h d)

  dispatch_sound :
      (es : List SubEntry) (h : ℕ) (c m : JsString)
      → Memᴰ (h, c, m) (dispatch channel message es)
      → (c ≡ channel) × (m ≡ message) × Reached h es
  unfolding dispatch Reached
  dispatch_sound [] h c m d = elim d [ ]
  dispatch_sound (e ∷ es) h c m d = elim (Bool-cases (starts_with channel e.channel)) [
    | inl y ↦
        elim (Memᴰ.append_cases (hand_to channel message e.handlers) (
          subst
            (λ b.
              Memᴰ (h, c, m)
                ((if b then hand_to channel message e.handlers else [])
                  ++ dispatch channel message es))
            y d)) [
              | inl here ↦
                  let (x, z, w) = hand_to_sound e.handlers h c m here in
                  (x, z, (e, Memᴰ.head refl, starts_with_prefix channel e.channel y, w))
              | inr there ↦ further (dispatch_sound es h c m there)
            ]
    | inr n ↦ further (
        dispatch_sound es h c m (
          subst
            (λ b.
              Memᴰ (h, c, m)
                ((if b then hand_to channel message e.handlers else [])
                  ++ dispatch channel message es))
            n d))
  ]
    where
      further :
          (c ≡ channel) × (m ≡ message) × Reached h es
          → (c ≡ channel) × (m ≡ message) × Reached h (e ∷ es)
      further (x, z, (f, a, b, g)) = (x, z, (f, Memᴰ.tail a, b, g))

  dispatch_complete :
      (es : List SubEntry) (h : ℕ) (e : SubEntry)
      → Memᴰ e es
      → starts_with channel e.channel ≡ true
      → Memᴰ h e.handlers
      → Memᴰ (h, channel, message) (dispatch channel message es)
  unfolding dispatch
  dispatch_complete [] h e d y w = elim d [ ]
  dispatch_complete (f ∷ fs) h e (Memᴰ.head q) y w =
      Memᴰ.append_left (dispatch channel message fs) (
        subst
          (λ b. Memᴰ (h, channel, message) (if b then hand_to channel message f.handlers else []))
          (sym (ap (λ (g : SubEntry). starts_with channel g.channel) (sym q) ∙ y))
          (hand_to_complete f.handlers h (subst (λ (g : SubEntry). Memᴰ h g.handlers) q w)))
  dispatch_complete (f ∷ fs) h e (Memᴰ.tail d) y w =
      Memᴰ.append_right
        (if starts_with channel f.channel then hand_to channel message f.handlers else [])
        (dispatch_complete fs h e d y w)

  -- An event calls a handler exactly if some subscription of the client has that handler and a
  -- channel that is a prefix of the event's; each call is given the event's channel and message.
  pub dispatch_reaches :
      (es : List SubEntry) (h : ℕ) (c m : JsString)
      → Memᴰ (h, c, m) (dispatch channel message es)
        ↔ ((c ≡ channel) × (m ≡ message) × Reached h es)
  unfolding Reached
  dispatch_reaches es h c m = (dispatch_sound es h c m, back)
    where
      back :
          (c ≡ channel) × (m ≡ message) × Reached h es
          → Memᴰ (h, c, m) (dispatch channel message es)
      back (x, z, (e, a, (rest, p), w)) = Memᴰ.cast (ap₂ (λ u v. (h, u, v)) x z) (
          dispatch_complete es h e a
            (ap (λ t. starts_with t e.channel) p ∙ starts_with-append e.channel rest) w)
