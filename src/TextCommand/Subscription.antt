-- ===== src/TextCommand/Subscription.antt =====
-- The regular expression that reads a SUB command, apps/bun/src/lib/command.ts.
use wormdb.Wire.Command.{sub}
use wormdb.Base.{◌≡◌, refl, false, [], ◌∷◌, ◌++◌, none, some, JsString, ok, ap}
use wormdb.TextCommand.{word_of, after_word, sub_channel, sub_filter, sub_rest, has_line_end}
use wormdb.TextProtocol.{is_space}
use wormdb.TextCommand.Words.{Plain, IsWord, trim_start-gap}

word_of-word : (w t : JsString) → Plain w → word_of (w ++ (32 ∷ t)) ≡ w
unfolding word_of is_space
word_of-word [] t h = refl
word_of-word (c ∷ w) t (h, hs) = rw h (ap (λ l. c ∷ l) (word_of-word w t hs))

after_word-word : (w t : JsString) → Plain w → after_word (w ++ (32 ∷ t)) ≡ 32 ∷ t
unfolding after_word is_space
after_word-word [] t h = refl
after_word-word (c ∷ w) t (h, hs) = rw h (after_word-word w t hs)

word_of-all : (w : JsString) → Plain w → word_of w ≡ w
unfolding word_of
word_of-all [] h = refl
word_of-all (c ∷ w) (h, hs) = rw h (ap (λ l. c ∷ l) (word_of-all w hs))

after_word-all : (w : JsString) → Plain w → after_word w ≡ []
unfolding after_word
after_word-all [] h = refl
after_word-all (c ∷ w) (h, hs) = rw h (after_word-all w hs)

pub sub_channel-alone : (w : JsString) → IsWord w → sub_channel w ≡ ok (sub w none)
unfolding sub_channel sub_rest
sub_channel-alone [] h = absurd h
sub_channel-alone (c ∷ w) h = rw (word_of-all (c ∷ w) h, after_word-all (c ∷ w) h)

sub_filter-kept :
    (channel w s : JsString)
    → IsWord w
    → has_line_end (w ++ s) ≡ false
    → sub_filter channel (w ++ s) ≡ ok (sub channel (some (w ++ s)))
unfolding sub_filter
sub_filter-kept channel [] s h l = absurd h
sub_filter-kept channel (c ∷ w) s h l = rw l

pub sub_channel-filter :
    (channel w s : JsString)
    → IsWord channel
    → IsWord w
    → has_line_end (w ++ s) ≡ false
    → sub_channel (channel ++ (32 ∷ (w ++ s))) ≡ ok (sub channel (some (w ++ s)))
unfolding sub_channel sub_rest is_space
sub_channel-filter [] w s h hw l = absurd h
sub_channel-filter (c ∷ channel) w s h hw l =
    rw
      (
        word_of-word (c ∷ channel) (w ++ s) h,
        after_word-word (c ∷ channel) (w ++ s) h,
        trim_start-gap (32 ∷ []) w s (refl, tt) hw,
      )
      (sub_filter-kept (c ∷ channel) w s hw l)
