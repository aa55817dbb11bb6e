-- ===== src/TextCommand/Tests.antt =====
-- parseCommand at concrete texts.
use wormdb.Base.{◌≡◌, refl, true, false, [], ◌∷◌, ◌++◌, JsString, map, ok}
use wormdb.Wire.Command.{set}
use wormdb.TextProtocol.{is_space}
use wormdb.TextCommand.{is_upper, parse_command}
use wormdb.TextCommand.Print.{AsciiUpper, up, print, as_read}
use wormdb.Managed.Subscribe.{same_text}
use wormdb.TextCommand.Words.{spread}
use wormdb.Text.{codes}
use wormdb.TextCommand.Spacing.{parse_command-spacing}
use wormdb.TextCommand.RoundTrip.{parse_command-print}

-- An upper case of ASCII alone.
abbrev ascii_upper : JsString → JsString
ascii_upper s = map up s

ascii_upper_known : AsciiUpper ascii_upper
ascii_upper_known s h = refl

parse_command-print_example :
    parse_command ascii_upper (print (set (codes "k") (codes "worm") false))
    ≡ ok (as_read ascii_upper (set (codes "k") (codes "worm") false))
unfolding is_space
parse_command-print_example =
    parse_command-print ascii_upper ascii_upper_known (set (codes "k") (codes "worm") false)
      ((refl, tt), ((refl, (refl, (refl, (refl, tt))))))

-- The value "worm" makes the key immutable.
worm_value :
    as_read ascii_upper (set (codes "k") (codes "worm") false) ≡ set (codes "k") (codes "worm") true
unfolding is_upper same_text
worm_value = refl

parse_command-spacing_example :
    parse_command ascii_upper
      ([] ++ (spread (codes "PUB") ((32 ∷ [], codes "c") ∷ (32 ∷ 32 ∷ [], codes "m") ∷ []) ++ []))
    ≡ parse_command ascii_upper (
        (9 ∷ [])
        ++ (spread (codes "PUB") ((32 ∷ [], codes "c") ∷ (32 ∷ [], codes "m") ∷ []) ++ (10 ∷ [])))
unfolding is_space same_text
parse_command-spacing_example =
    parse_command-spacing ascii_upper [] (9 ∷ []) (codes "PUB") [] (10 ∷ [])
      ((32 ∷ [], codes "c") ∷ (32 ∷ 32 ∷ [], codes "m") ∷ [])
      ((32 ∷ [], codes "c") ∷ (32 ∷ [], codes "m") ∷ []) (tt, (refl, tt), tt, (refl, tt))
      (refl, (refl, (refl, tt)))
      (
        (((refl, tt), (refl, tt)), (((refl, (refl, tt)), (refl, tt)), tt)),
        (((refl, tt), (refl, tt)), (((refl, tt), (refl, tt)), tt)),
      )
      refl refl
