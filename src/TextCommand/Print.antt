-- ===== src/TextCommand/Print.antt =====
-- Commands in the text form of parseCommand, apps/bun/src/lib/command.ts.
use wormdb.Wire.Command.{
  ParsedCommand, Arg, text, raw, get, del, sub, unsub, status, cluster_status, cluster_peers, set,
  publish, exec, vinsert, vbulkinsert,
}
use wormdb.Base.{
  Bool, if◌then◌else◌, ℕ, ◌≡◌, true, false, [], ◌∷◌, none, some, JsString, leb, ltb, List, ◌&&◌,
  map, ◌-◌, ◌||◌, All,
}
use wormdb.TextCommand.Words.{IsWord, spread, IsSpread}
use wormdb.TextCommand.{join, is_upper, has_line_end, text_args}
use wormdb.Text.{codes}

abbrev pub is_ascii : JsString → Bool
is_ascii [] = true
is_ascii (c ∷ s) = ltb c 128 && is_ascii s

abbrev pub up : ℕ → ℕ
up c = if leb 97 c && leb c 122 then c - 32 else c

-- What is known of `toUpperCase`.
abbrev pub AsciiUpper : (JsString → JsString) → Type 0
AsciiUpper upper = (s : JsString) → is_ascii s ≡ true → upper s ≡ map up s

abbrev pub arg_text : Arg → JsString
arg_text (text t) = t
arg_text (raw bytes) = []

-- A command in text form.
abbrev pub print : ParsedCommand → JsString
print (get key) = join (codes "GET" ∷ key ∷ [])
print (del key) = join (codes "DEL" ∷ key ∷ [])
print (sub channel none) = join (codes "SUB" ∷ channel ∷ [])
print (sub channel (some filter)) = join (codes "SUB" ∷ channel ∷ filter ∷ [])
print (unsub channel) = join (codes "UNSUB" ∷ channel ∷ [])
print status = join (codes "STATUS" ∷ [])
print cluster_status = join (codes "CLUSTER" ∷ codes "STATUS" ∷ [])
print cluster_peers = join (codes "CLUSTER" ∷ codes "PEERS" ∷ [])
print (set key value false) = join (codes "SET" ∷ key ∷ value ∷ [])
print (set key value true) = join (codes "SET" ∷ key ∷ value ∷ codes "WORM" ∷ [])
print (publish channel message) = join (codes "PUB" ∷ channel ∷ message ∷ [])
print (exec procedure args) = join (codes "EXEC" ∷ procedure ∷ map arg_text args)
print (vinsert v) = []
print (vbulkinsert v) = []

-- The commands whose parts the text form can carry.
abbrev pub Printable : ParsedCommand → Type 0
Printable (get key) = IsWord key
Printable (del key) = IsWord key
Printable (sub channel none) = IsWord channel
Printable (sub channel (some filter)) =
    IsWord channel
    × (w : JsString) × (rest : List (JsString × JsString)) × (filter ≡ spread w rest)
    × IsWord w
    × IsSpread rest
    × (has_line_end filter ≡ false)
Printable (unsub channel) = IsWord channel
Printable (set key value worm) = IsWord key × IsWord value
Printable (publish channel message) =
    IsWord channel
    × (w : JsString) × (ws : List JsString) × (message ≡ join (w ∷ ws))
    × All IsWord (w ∷ ws)
Printable (exec procedure args) =
    IsWord procedure × (ws : List JsString) × (args ≡ text_args ws) × All IsWord ws
Printable (vinsert v) = ⊥
Printable (vbulkinsert v) = ⊥
Printable _ = Unit {0}

-- A key or a value that is WORM in any case makes the SET immutable, too.
abbrev pub as_read : (JsString → JsString) → ParsedCommand → ParsedCommand
as_read upper (set key value worm) =
    set key value
      (is_upper upper (codes "WORM") key || (is_upper upper (codes "WORM") value || worm))
as_read upper c = c
