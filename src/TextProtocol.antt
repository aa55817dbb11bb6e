-- ===== src/TextProtocol.antt =====
-- `parseSingleResponse` of apps/bun/src/lib/protocol.ts, which reads responses in text form.
-- `Number` is a parameter: the length that a text is read as, rounded down, or none if that is not
-- finite or negative.
use wormdb.Base.{
  if◌then◌else◌, Bool, ℕ, suc, ◌+◌, [], ◌∷◌, ◌++◌, none, some, JsString, leb, ◌&&◌, Option, take,
  ◌-◌, ◌||◌, ◌==◌, drop,
}
use wormdb.Text.{codes}
use wormdb.Managed.Receive.{starts_with}
use wormdb.Wire.Response.{WormResponse, done, error, bulk, event, null}

-- The white space and line ends of JavaScript.
unfoldable pub is_space : ℕ → Bool
is_space c =
    (leb 9 c && leb c 13)
    || c == 32
    || c == 160
    || c == 0x1680
    || (leb 0x2000 c && leb c 0x200a)
    || c == 0x2028
    || c == 0x2029
    || c == 0x202f
    || c == 0x205f
    || c == 0x3000
    || c == 0xfeff

unfoldable pub trim_start : JsString → JsString
trim_start [] = []
trim_start (c ∷ s) = let rest = trim_start s in if is_space c then rest else c ∷ s

unfoldable pub kept_end : ℕ → JsString → JsString
kept_end c [] = if is_space c then [] else c ∷ []
kept_end c (d ∷ s) = c ∷ d ∷ s

unfoldable pub trim_end : JsString → JsString
trim_end [] = []
trim_end (c ∷ s) = kept_end c (trim_end s)

unfoldable pub trimmed : JsString → JsString
trimmed s = trim_start (trim_end s)

-- `raw.indexOf("\r\n")`, none for -1.
pub line_end : ℕ → JsString → Option ℕ
line_end at [] = none
line_end at (c ∷ s) =
    let rest = line_end (suc at) s in if starts_with (c ∷ s) (13 ∷ 10 ∷ []) then some at else rest

-- `raw.slice(from, to)`
pub slice : ℕ → ℕ → JsString → JsString
slice from to raw = take (to - from) (drop from raw)

module _ (number : JsString → Option ℕ) where
  pub bulk_of : JsString → ℕ → Option ℕ → WormResponse
  bulk_of raw split none = error (codes "Invalid bulk response length")
  bulk_of raw split (some len) = bulk (slice (split + 2) (split + 2 + len) raw)

  pub parse_bulk : JsString → Option ℕ → WormResponse
  parse_bulk raw none = error (codes "Malformed bulk response")
  parse_bulk raw (some split) = bulk_of raw split (number (slice 1 split raw))

  pub parse_event : JsString → Option ℕ → WormResponse
  parse_event raw none = error (codes "Malformed event response")
  parse_event raw (some split) =
      event (trimmed (slice 7 split raw)) (trim_end (drop (split + 2) raw))

  pub parse_single_response : JsString → WormResponse
  parse_single_response raw =
      if starts_with raw (codes "+OK")
      then done
      else if starts_with raw (codes "-ERR ")
      then error (trim_end (drop 5 raw))
      else if starts_with raw (codes "$-1")
      then null
      else if starts_with raw (codes "$")
      then parse_bulk raw (line_end 0 raw)
      else if starts_with raw (codes ">EVENT ")
      then parse_event raw (line_end 0 raw)
      else error (codes "Unknown response format: " ++ trimmed raw)
