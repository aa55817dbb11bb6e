-- ===== src/TextCommand/Spacing.antt =====
-- How a text command is spaced is nothing to parseCommand, apps/bun/src/lib/command.ts.
use wormdb.Base.{◌∙◌, ◌≡◌, refl, false, [], ◌∷◌, ◌++◌, List, JsString, All, ap, sym, append-nil}
use wormdb.TextCommand.{join, parse_parts, parse_command, parse_verb}
use wormdb.TextProtocol.{is_space}
use wormdb.TextCommand.Words.{
  Blank, spread, heads, IsWord, IsSpread, trimmed-spread, split_spaces-spread,
}
use wormdb.Managed.Subscribe.{same_text}
use wormdb.Text.{codes}

pub parse_command-words :
    (upper : JsString → JsString) (lead w : JsString) (rest : List (JsString × JsString))
    (trail : JsString)
    → Blank lead
    → IsWord w
    → IsSpread rest
    → Blank trail
    → parse_command upper (lead ++ (spread w rest ++ trail))
      ≡ parse_parts upper (spread w rest) (w ∷ heads rest)
unfolding parse_command
parse_command-words upper lead w rest trail l h hs t =
    rw (trimmed-spread lead w rest trail l h hs t, split_spaces-spread w rest h hs)

-- Two texts with the same words, however they are spaced, are parsed alike, unless they are SUB
-- commands.
pub parse_command-spacing :
    (upper : JsString → JsString) (lead lead' w trail trail' : JsString)
    (rest rest' : List (JsString × JsString))
    → Blank lead × Blank lead' × Blank trail × Blank trail'
    → IsWord w
    → IsSpread rest × IsSpread rest'
    → heads rest ≡ heads rest'
    → same_text (upper w) (codes "SUB") ≡ false
    → parse_command upper (lead ++ (spread w rest ++ trail))
      ≡ parse_command upper (lead' ++ (spread w rest' ++ trail'))
unfolding parse_parts parse_verb
parse_command-spacing upper lead lead' w trail trail' rest rest' (l, l', t, t') h (hs, hs') e q =
    parse_command-words upper lead w rest trail l h hs t
    ∙ ap (λ ps. parse_parts upper (spread w rest) (w ∷ ps)) e
    ∙ rw q refl
    ∙ sym (parse_command-words upper lead' w rest' trail' l' h hs' t')

-- Words with one space between them.
abbrev pub spaced : List JsString → List (JsString × JsString)
spaced [] = []
spaced (w ∷ ws) = (32 ∷ [], w) ∷ spaced ws

heads-spaced : (ws : List JsString) → heads (spaced ws) ≡ ws
heads-spaced [] = refl
heads-spaced (w ∷ ws) = ap (λ l. w ∷ l) (heads-spaced ws)

join-spread : (w : JsString) (ws : List JsString) → join (w ∷ ws) ≡ spread w (spaced ws)
unfolding join
join-spread w [] = sym (append-nil w)
join-spread w (v ∷ ws) = ap (λ s. w ++ (32 ∷ s)) (join-spread v ws)

spaced-IsSpread : (ws : List JsString) → All IsWord ws → IsSpread (spaced ws)
unfolding is_space
spaced-IsSpread [] h = tt
spaced-IsSpread (w ∷ ws) (h, hs) = (((refl, tt), h), spaced-IsSpread ws hs)

pub parse_command-join :
    (upper : JsString → JsString) (w : JsString) (ws : List JsString)
    → All IsWord (w ∷ ws)
    → parse_command upper (join (w ∷ ws)) ≡ parse_parts upper (join (w ∷ ws)) (w ∷ ws)
parse_command-join upper w ws (h, hs) =
    let e = join-spread w ws in
    ap (parse_command upper) (e ∙ sym (append-nil (spread w (spaced ws))))
    ∙ parse_command-words upper [] w (spaced ws) [] tt h (spaced-IsSpread ws hs) tt
    ∙ ap (λ l. parse_parts upper l (w ∷ heads (spaced ws))) (sym e)
    ∙ ap (λ l. parse_parts upper (join (w ∷ ws)) (w ∷ l)) (heads-spaced ws)
