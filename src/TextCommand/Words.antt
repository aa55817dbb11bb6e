-- ===== src/TextCommand/Words.antt =====
-- A line of words between white space: what `trim` and `split` of parseCommand make of it.
use wormdb.Base.{
  ◌∙◌, ℕ, ◌≡◌, refl, true, false, [], ◌∷◌, ◌++◌, List, JsString, All, ap, sym, append-nil,
  append_assoc,
}
use wormdb.TextProtocol.{is_space, trim_start, trim_end, kept_end, trimmed}
use wormdb.TextCommand.{split_loop, split_spaces}

abbrev pub Plain : JsString → Type 0
Plain s = All (λ c. is_space c ≡ false) s

abbrev pub Blank : JsString → Type 0
Blank s = All (λ c. is_space c ≡ true) s

abbrev pub IsWord : JsString → Type 0
IsWord [] = ⊥
IsWord (c ∷ s) = Plain (c ∷ s)

-- Words, each but the first behind white space.
abbrev pub behind_words : List (JsString × JsString) → JsString
behind_words [] = []
behind_words ((gap, v) ∷ rest) = gap ++ (v ++ behind_words rest)

abbrev pub spread : JsString → List (JsString × JsString) → JsString
spread w rest = w ++ behind_words rest

abbrev pub heads : List (JsString × JsString) → List JsString
heads [] = []
heads ((gap, v) ∷ rest) = v ∷ heads rest

abbrev pub IsGap : JsString → Type 0
IsGap [] = ⊥
IsGap (c ∷ s) = Blank (c ∷ s)

abbrev pub IsSpread : List (JsString × JsString) → Type 0
IsSpread rest = All (λ p. IsGap p.0 × IsWord p.1) rest

split_loop-Plain :
    (piece w s : JsString)
    → Plain w
    → split_loop false piece (w ++ s) ≡ split_loop false (piece ++ w) s
unfolding split_loop
split_loop-Plain piece [] s h = ap (λ p. split_loop false p s) (sym (append-nil piece))
split_loop-Plain piece (c ∷ w) s (h, hs) = rw h (
    split_loop-Plain (piece ++ (c ∷ [])) w s hs
    ∙ ap (λ p. split_loop false p s) (append_assoc piece (c ∷ []) w))

split_loop-Blank :
    (gap s : JsString) → Blank gap → split_loop true [] (gap ++ s) ≡ split_loop true [] s
unfolding split_loop
split_loop-Blank [] s h = refl
split_loop-Blank (c ∷ gap) s (h, hs) = rw h (split_loop-Blank gap s hs)

split_loop-word : (w s : JsString) → IsWord w → split_loop true [] (w ++ s) ≡ split_loop false w s
unfolding split_loop
split_loop-word [] s h = absurd h
split_loop-word (c ∷ w) s (h, hs) = rw h (split_loop-Plain (c ∷ []) w s hs)

split_loop-gap :
    (w gap s : JsString) → IsGap gap → split_loop false w (gap ++ s) ≡ w ∷ split_loop true [] s
unfolding split_loop
split_loop-gap w [] s h = absurd h
split_loop-gap w (c ∷ gap) s (h, hs) = rw h (ap (λ l. w ∷ l) (split_loop-Blank gap s hs))

split_loop-behind_words :
    (w : JsString) (rest : List (JsString × JsString))
    → IsSpread rest
    → split_loop false w (behind_words rest) ≡ w ∷ heads rest
unfolding split_loop
split_loop-behind_words w [] hs = refl
split_loop-behind_words w ((gap, v) ∷ rest) ((g, hv), hs) =
    split_loop-gap w gap (v ++ behind_words rest) g
    ∙ ap (λ l. w ∷ l) (split_loop-word v (behind_words rest) hv ∙ split_loop-behind_words v rest hs)

word-Plain : (w : JsString) → IsWord w → Plain w
word-Plain [] h = absurd h
word-Plain (c ∷ w) h = h

pub split_spaces-spread :
    (w : JsString) (rest : List (JsString × JsString))
    → IsWord w
    → IsSpread rest
    → split_spaces (spread w rest) ≡ w ∷ heads rest
unfolding split_spaces
split_spaces-spread w rest h hs =
    split_loop-Plain [] w (behind_words rest) (word-Plain w h) ∙ split_loop-behind_words w rest hs

trim_end-Blank : (t : JsString) → Blank t → trim_end t ≡ []
unfolding trim_end kept_end
trim_end-Blank [] h = refl
trim_end-Blank (c ∷ t) (h, hs) = rw (trim_end-Blank t hs, h)

-- What stands before a text that does not vanish stays.
trim_end-front : (s t x : JsString) (c : ℕ) → trim_end t ≡ c ∷ x → trim_end (s ++ t) ≡ s ++ (c ∷ x)
unfolding trim_end kept_end
trim_end-front [] t x c h = h
trim_end-front (d ∷ []) t x c h = ap (kept_end d) h
trim_end-front (d ∷ e ∷ s) t x c h = ap (kept_end d) (trim_end-front (e ∷ s) t x c h)

trim_end-word : (w t : JsString) → IsWord w → Blank t → trim_end (w ++ t) ≡ w
unfolding trim_end kept_end
trim_end-word [] t h b = absurd h
trim_end-word (c ∷ []) t (h, hs) b = ap (kept_end c) (trim_end-Blank t b) ∙ rw h
trim_end-word (c ∷ d ∷ w) t (h, hs) b = ap (kept_end c) (trim_end-word (d ∷ w) t hs b)

trim_end-spread :
    (w : JsString) (rest : List (JsString × JsString)) (trail : JsString)
    → IsWord w
    → IsSpread rest
    → Blank trail
    → trim_end (spread w rest ++ trail) ≡ spread w rest
trim_end-spread w [] trail h hs b =
    ap (λ s. trim_end (s ++ trail)) (append-nil w) ∙ trim_end-word w trail h b ∙ sym (append-nil w)
trim_end-spread w ((gap, []) ∷ rest) trail h ((g, hv), hs) b = absurd hv
trim_end-spread w ((gap, c ∷ v) ∷ rest) trail h ((g, hv), hs) b =
    let inner = trim_end-spread (c ∷ v) rest trail hv hs b in
    ap trim_end
      (append_assoc w _ trail ∙ ap (λ s. w ++ s) (append_assoc gap (spread (c ∷ v) rest) trail))
    ∙ ap trim_end (sym (append_assoc w gap (spread (c ∷ v) rest ++ trail)))
    ∙ trim_end-front (w ++ gap) (spread (c ∷ v) rest ++ trail) (v ++ behind_words rest) c inner
    ∙ append_assoc w gap (spread (c ∷ v) rest)

trim_start-Blank : (lead s : JsString) → Blank lead → trim_start (lead ++ s) ≡ trim_start s
unfolding trim_start
trim_start-Blank [] s h = refl
trim_start-Blank (c ∷ lead) s (h, hs) = rw h (trim_start-Blank lead s hs)

pub trim_start-gap :
    (gap w s : JsString) → Blank gap → IsWord w → trim_start (gap ++ (w ++ s)) ≡ w ++ s
unfolding trim_start
trim_start-gap gap [] s b h = absurd h
trim_start-gap gap (c ∷ w) s b (h, hs) = trim_start-Blank gap (c ∷ (w ++ s)) b ∙ rw h

-- `trim` takes off what is around the first and the last word.
pub trimmed-spread :
    (lead w : JsString) (rest : List (JsString × JsString)) (trail : JsString)
    → Blank lead
    → IsWord w
    → IsSpread rest
    → Blank trail
    → trimmed (lead ++ (spread w rest ++ trail)) ≡ spread w rest
unfolding trimmed
trimmed-spread lead [] rest trail l h hs b = absurd h
trimmed-spread lead (c ∷ w) rest trail l h hs b =
    ap trim_start (
      trim_end-front lead (spread (c ∷ w) rest ++ trail) (w ++ behind_words rest) c
        (trim_end-spread (c ∷ w) rest trail h hs b))
    ∙ trim_start-gap lead (c ∷ w) (behind_words rest) l h
