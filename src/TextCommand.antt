-- ===== src/TextCommand.antt =====
-- `parseCommand` of apps/bun/src/lib/command.ts, which reads a command in text form.
-- `toUpperCase` is a parameter: what it does to ASCII is fixed, and its tables for the rest of
-- Unicode are not part of the code.
pub mod Words
pub mod Print
pub mod Subscription
pub mod Spacing
pub mod RoundTrip
mod Tests
use wormdb.Base.{
  Bool, if◌then◌else◌, ◌>>=◌, ◌∙◌, ℕ, zero, suc, ◌+◌, ◌≡◌, refl, inl, inr, true, false, [], ◌∷◌,
  ◌++◌, none, some, arith, ◌⊎◌, ◌<◌, ◌≤◌, List, ◌==◌, Result, JsString, map, ok, err, ◌||◌,
  plain_error, ◌&&◌,
}
use wormdb.Wire.Command.{
  ParsedCommand, get, del, sub, unsub, status, cluster_status, cluster_peers, set, publish, exec,
  text, Arg,
}
use wormdb.Managed.Subscribe.{same_text}
use wormdb.TextProtocol.{is_space, trim_start, trimmed}
use wormdb.Text.{codes}

-- `s.split(/\s+/)`; `run` is true inside a run of white space, and `piece` is what was read behind
-- the last one.
unfoldable pub split_loop : Bool → JsString → JsString → List JsString
split_loop run piece [] = piece ∷ []
split_loop run piece (c ∷ s) =
    let blank = split_loop true [] s in
    let word = split_loop false (piece ++ (c ∷ [])) s in
    if is_space c then (if run then blank else piece ∷ blank) else word

unfoldable pub split_spaces : JsString → List JsString
split_spaces s = split_loop false [] s

-- The first word, and what is behind it.
unfoldable pub word_of : JsString → JsString
word_of [] = []
word_of (c ∷ s) = let rest = word_of s in if is_space c then [] else c ∷ rest

unfoldable pub after_word : JsString → JsString
after_word [] = []
after_word (c ∷ s) = let rest = after_word s in if is_space c then c ∷ s else rest

-- What `.` does not match.
unfoldable pub is_line_end : ℕ → Bool
is_line_end c = c == 10 || c == 13 || c == 0x2028 || c == 0x2029

unfoldable pub has_line_end : JsString → Bool
has_line_end [] = false
has_line_end (c ∷ s) = is_line_end c || has_line_end s

-- `SUB` under the flag `i`.
unfoldable pub is_sub : JsString → Bool
is_sub (s ∷ u ∷ b ∷ []) = (s == 83 || s == 115) && (u == 85 || u == 117) && (b == 66 || b == 98)
is_sub _ = false

abbrev pub bad_sub : Result ParsedCommand
bad_sub = err (plain_error (codes "Invalid SUB command"))

unfoldable pub sub_filter : JsString → JsString → Result ParsedCommand
sub_filter channel [] = bad_sub
sub_filter channel (c ∷ s) =
    if has_line_end (c ∷ s) then bad_sub else ok (sub channel (some (c ∷ s)))

unfoldable pub sub_rest : JsString → JsString → Result ParsedCommand
sub_rest channel [] = ok (sub channel none)
sub_rest channel (c ∷ s) = sub_filter channel (trim_start (c ∷ s))

unfoldable pub sub_channel : JsString → Result ParsedCommand
sub_channel [] = bad_sub
sub_channel (c ∷ s) = sub_rest (word_of (c ∷ s)) (after_word (c ∷ s))

-- `/^SUB\s+(\S+)(?:\s+(.+))?$/i` on a trimmed text.
unfoldable pub parse_sub : JsString → Result ParsedCommand
parse_sub line =
    if is_sub (word_of line) then sub_channel (trim_start (after_word line)) else bad_sub

-- `parts.slice(2).join(" ")`
unfoldable pub join : List JsString → JsString
join [] = []
join (p ∷ []) = p
join (p ∷ q ∷ ps) = p ++ (32 ∷ join (q ∷ ps))

abbrev pub one_word : JsString → (JsString → ParsedCommand) → List JsString → Result ParsedCommand
one_word message f [] = err (plain_error message)
one_word message f (p ∷ ps) = ok (f p)

abbrev pub text_args : List JsString → List Arg
text_args = map text

abbrev pub is_nil : JsString → Bool
is_nil [] = true
is_nil (c ∷ s) = false

module _ (upper : JsString → JsString) where
  unfoldable pub is_upper : JsString → JsString → Bool
  is_upper name word = same_text (upper word) name

  unfoldable pub any_worm : List JsString → Bool
  any_worm [] = false
  any_worm (p ∷ ps) = is_upper (codes "WORM") p || any_worm ps

  unfoldable pub parse_set : List JsString → List JsString → Result ParsedCommand
  parse_set parts (key ∷ value ∷ ps) = ok (set key value (any_worm parts))
  parse_set parts _ = err (plain_error (codes "Invalid SET command"))

  unfoldable pub parse_pub : List JsString → Result ParsedCommand
  parse_pub (channel ∷ message ∷ ps) = ok (publish channel (join (message ∷ ps)))
  parse_pub _ = err (plain_error (codes "Invalid PUB command"))

  unfoldable pub parse_exec : List JsString → Result ParsedCommand
  parse_exec [] = err (plain_error (codes "Invalid EXEC command"))
  parse_exec (procedure ∷ args) = ok (exec procedure (text_args args))

  -- `parts[1]?.toUpperCase() === name`
  unfoldable pub second_is : JsString → List JsString → Bool
  second_is name [] = false
  second_is name (p ∷ ps) = is_upper name p

  -- The tests of the verb, with `parts` without the verb in `rest`.
  unfoldable pub parse_verb : JsString → JsString → JsString → List JsString → Result ParsedCommand
  parse_verb line verb first rest =
      if same_text verb (codes "GET")
      then one_word (codes "Invalid GET command") get rest
      else if same_text verb (codes "DEL")
      then one_word (codes "Invalid DEL command") del rest
      else if same_text verb (codes "SUB")
      then parse_sub line
      else if same_text verb (codes "UNSUB")
      then one_word (codes "Invalid UNSUB command") unsub rest
      else if same_text verb (codes "STATUS")
      then ok status
      else if same_text verb (codes "CLUSTER") && second_is (codes "STATUS") rest
      then ok cluster_status
      else if same_text verb (codes "CLUSTER") && second_is (codes "PEERS") rest
      then ok cluster_peers
      else if same_text verb (codes "SET")
      then parse_set (first ∷ rest) rest
      else if same_text verb (codes "PUB")
      then parse_pub rest
      else if same_text verb (codes "EXEC")
      then parse_exec rest
      else err (plain_error (codes "Unsupported command: " ++ verb))

  unfoldable pub parse_parts : JsString → List JsString → Result ParsedCommand
  parse_parts line [] = err (plain_error (codes "Missing command"))
  parse_parts line (first ∷ rest) =
      if is_nil first
      then err (plain_error (codes "Missing command"))
      else parse_verb line (upper first) first rest

  unfoldable pub parse_command : JsString → Result ParsedCommand
  parse_command command = let line = trimmed command in parse_parts line (split_spaces line)
