-- ===== src/TextCommand/RoundTrip.antt =====
-- parseCommand reads back the commands that are printed as text, apps/bun/src/lib/command.ts.
use wormdb.Wire.Command.{
  ParsedCommand, get, del, sub, unsub, status, cluster_status, cluster_peers, set, publish, exec,
  vinsert, vbulkinsert,
}
use wormdb.Base.{
  Bool, ◌∙◌, ℕ, ◌≡◌, refl, true, false, [], ◌∷◌, ◌++◌, none, some, arith, List, JsString, not, map,
  ◌&&◌, ap, ◌||◌, All, ok, sym, append-nil, subst,
}
use wormdb.TextCommand.Words.{Plain, IsWord, IsSpread, spread, trim_start-gap, behind_words}
use wormdb.TextCommand.Print.{AsciiUpper, arg_text, is_ascii, up, Printable, print, as_read}
use wormdb.TextProtocol.{is_space}
use wormdb.TextCommand.{
  parse_verb, parse_sub, parse_parts, any_worm, word_of, text_args, is_upper, after_word, parse_set,
  has_line_end, parse_pub, is_sub, sub_channel, parse_exec, parse_command, second_is, join,
}
use wormdb.Managed.Subscribe.{same_text}
use wormdb.Text.{codes}
use wormdb.TextCommand.Spacing.{parse_command-join, parse_command-words}
use wormdb.TextCommand.Subscription.{sub_channel-alone, sub_channel-filter}

arg_text-text_args : (ws : List JsString) → map arg_text (text_args ws) ≡ ws
arg_text-text_args [] = refl
arg_text-text_args (w ∷ ws) = ap (λ l. w ∷ l) (arg_text-text_args ws)

abbrev no_space : JsString → Bool
no_space [] = true
no_space (c ∷ s) = not (is_space c) && no_space s

no_space-Plain : (s : JsString) → no_space s ≡ true → Plain s
no_space-Plain [] e = tt
no_space-Plain (c ∷ s) e = (ground arith, no_space-Plain s (ground arith))

-- A literal is a word by computation.
literal_IsWord : (c : ℕ) (s : JsString) → no_space (c ∷ s) ≡ true → IsWord (c ∷ s)
literal_IsWord c s e = no_space-Plain (c ∷ s) e

module _ (upper : JsString → JsString) (ascii : AsciiUpper upper) where
  -- A command whose verb is taken off, and whose line only SUB looks at.
  read_verb :
      (c : ℕ) (verb : JsString) (ws : List JsString)
      → no_space (c ∷ verb) ≡ true
      → is_ascii (c ∷ verb) ≡ true
      → map up (c ∷ verb) ≡ c ∷ verb
      → All IsWord ws
      → parse_command upper (join ((c ∷ verb) ∷ ws))
        ≡ parse_verb upper (join ((c ∷ verb) ∷ ws)) (c ∷ verb) (c ∷ verb) ws
  unfolding parse_parts
  read_verb c verb ws n a u h =
      parse_command-join upper (c ∷ verb) ws (literal_IsWord c verb n, h)
      ∙ ap (λ v. parse_verb upper (join ((c ∷ verb) ∷ ws)) v (c ∷ verb) ws) (ascii (c ∷ verb) a ∙ u)

  -- The line of a SUB whose channel is a word.
  read_sub :
      (channel : JsString) (rest : JsString)
      → IsWord channel
      → parse_sub (codes "SUB" ++ (32 ∷ (channel ++ rest))) ≡ sub_channel (channel ++ rest)
  unfolding parse_sub is_space word_of after_word is_sub
  read_sub channel rest h = ap sub_channel (trim_start-gap (32 ∷ []) channel rest (refl, tt) h)

  any_worm-set :
      (key value : JsString) (worm : List JsString)
      → any_worm upper (codes "SET" ∷ key ∷ value ∷ worm) ≡ (
          is_upper upper (codes "WORM") key
          || (is_upper upper (codes "WORM") value || any_worm upper worm))
  unfolding any_worm is_upper same_text
  any_worm-set key value worm = rw (ascii (codes "SET") refl) refl

  worm_flagged : any_worm upper (codes "WORM" ∷ []) ≡ true
  unfolding any_worm is_upper same_text
  worm_flagged = rw (ascii (codes "WORM") refl) refl

  sub_filtered :
      (ch w : JsString) (rest : List (JsString × JsString))
      → IsWord ch
      → IsWord w
      → IsSpread rest
      → has_line_end (spread w rest) ≡ false
      → parse_command upper (codes "SUB" ++ (32 ∷ (ch ++ (32 ∷ spread w rest))))
        ≡ ok (sub ch (some (spread w rest)))
  unfolding parse_parts parse_verb is_space same_text
  sub_filtered ch w rest h hw hs l =
      ap (parse_command upper) (sym (append-nil _))
      ∙ parse_command-words upper [] (codes "SUB") ((32 ∷ [], ch) ∷ (32 ∷ [], w) ∷ rest) [] tt
          (literal_IsWord 83 (codes "UB") refl) (((refl, tt), h), (((refl, tt), hw), hs)) tt
      ∙ rw (ascii (codes "SUB") refl)
          (read_sub ch (32 ∷ spread w rest) h ∙ sub_channel-filter ch w (behind_words rest) h hw l)

  -- Whatever the command, if its parts are words, a filter or a message may be of several, parseCommand
  -- reads back what was printed.
  pub parse_command-print :
      (c : ParsedCommand) → Printable c → parse_command upper (print c) ≡ ok (as_read upper c)
  unfolding parse_verb is_space same_text parse_set parse_pub parse_exec second_is is_upper join
  parse_command-print (get k) h = read_verb 71 (codes "ET") (k ∷ []) refl refl refl (h, tt)
  parse_command-print (del k) h = read_verb 68 (codes "EL") (k ∷ []) refl refl refl (h, tt)
  parse_command-print (unsub ch) h = read_verb 85 (codes "NSUB") (ch ∷ []) refl refl refl (h, tt)
  parse_command-print (sub ch none) h =
      read_verb 83 (codes "UB") (ch ∷ []) refl refl refl (h, tt)
      ∙ ap (λ s. parse_sub (codes "SUB" ++ (32 ∷ s))) (sym (append-nil ch))
      ∙ read_sub ch [] h
      ∙ ap sub_channel (append-nil ch)
      ∙ sub_channel-alone ch h
  parse_command-print (sub ch (some f)) (h, w, rest, e, hw, hs, l) =
      subst (λ g. parse_command upper (print (sub ch (some g))) ≡ ok (sub ch (some g))) (sym e)
        (sub_filtered ch w rest h hw hs (ap has_line_end (sym e) ∙ l))
  parse_command-print status h = read_verb 83 (codes "TATUS") [] refl refl refl tt
  parse_command-print cluster_status h =
      read_verb 67 (codes "LUSTER") (codes "STATUS" ∷ []) refl refl refl
        (literal_IsWord 83 (codes "TATUS") refl, tt)
      ∙ rw (ascii (codes "STATUS") refl) refl
  parse_command-print cluster_peers h =
      read_verb 67 (codes "LUSTER") (codes "PEERS" ∷ []) refl refl refl
        (literal_IsWord 80 (codes "EERS") refl, tt)
      ∙ rw (ascii (codes "PEERS") refl) refl
  parse_command-print (set k v false) (h, h') =
      read_verb 83 (codes "ET") (k ∷ v ∷ []) refl refl refl (h, (h', tt))
      ∙ ap (λ b. ok (set k v b)) (any_worm-set k v [] ∙ unfold any_worm in refl)
  parse_command-print (set k v true) (h, h') =
      read_verb 83 (codes "ET") (k ∷ v ∷ codes "WORM" ∷ []) refl refl refl
        (h, (h', (literal_IsWord 87 (codes "ORM") refl, tt)))
      ∙ ap (λ b. ok (set k v b)) (any_worm-set k v (codes "WORM" ∷ []) ∙ rw worm_flagged)
  parse_command-print (publish ch m) (h, w, ws, e, hs) =
      ap (λ n. parse_command upper (print (publish ch n))) e
      ∙ read_verb 80 (codes "UB") (ch ∷ w ∷ ws) refl refl refl (h, hs)
      ∙ ap (λ n. ok (publish ch n)) (sym e)
  parse_command-print (exec p args) (h, ws, e, hs) =
      subst (λ as'. parse_command upper (print (exec p as')) ≡ ok (exec p as')) (sym e)
        (ap (λ vs. parse_command upper (join (codes "EXEC" ∷ p ∷ vs))) (arg_text-text_args ws)
          ∙ read_verb 69 (codes "XEC") (p ∷ ws) refl refl refl (h, hs))
  parse_command-print (vinsert v) h = absurd h
  parse_command-print (vbulkinsert v) h = absurd h
