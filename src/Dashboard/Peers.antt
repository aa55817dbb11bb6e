-- ===== src/Dashboard/Peers.antt =====
-- `parsePeersResponse` and `discoverEndpoints` of apps/bun/src/bin/ui.ts. `Number` is a parameter:
-- what it makes of a port's text, where 0 stands for anything that is no positive integer.
use wormdb.Base.{
  Bool, if◌then◌else◌, ℕ, zero, suc, false, [], ◌∷◌, ◌++◌, none, some, JsString, Option, List, ◌||◌,
  length, ◌&&◌, ◌==◌, take, ◌-◌, not,
}
use wormdb.Managed.Subscribe.{same_text}
use wormdb.TextProtocol.{trimmed}
use wormdb.Text.{codes}
use wormdb.Managed.Receive.{starts_with}

pub record Endpoint : Type 0 where
  pub host : JsString
  pub port : ℕ
  pub mesh_ip : Option JsString

pub record Peer : Type 0 where
  pub mesh_ip : JsString
  pub state : JsString
  pub gossip_endpoint : Option JsString
  pub wormwire : JsString

-- `s.lastIndexOf(":")`, none for -1.
unfoldable pub last_colon : JsString → Option ℕ
last_colon [] = none
last_colon (c ∷ s) = elim (last_colon s) [
  | some i ↦ some (suc i)
  | none ↦ if c == 58 then some 0 else none
]

abbrev pub before_colon : JsString → Option ℕ → JsString
before_colon s none = s
before_colon s (some zero) = s
before_colon s (some (suc i)) = take (suc i) s

unfoldable pub host_of : JsString → JsString
host_of s = before_colon s (last_colon s)

unfoldable pub is_known : JsString → ℕ → List Endpoint → Bool
is_known host port [] = false
is_known host port (ep ∷ eps) =
    (same_text ep.host host && ep.port == port) || is_known host port eps

unfoldable pub is_blank_host : JsString → Bool
is_blank_host host = same_text host [] || same_text host (codes "0.0.0.0")

-- The body of the loop of `discoverEndpoints`.
unfoldable pub discover_at : Peer → ℕ → Option JsString → List Endpoint → List Endpoint
discover_at peer port none known = known
discover_at peer port (some gossip) known =
    if same_text gossip [] || is_blank_host (host_of gossip) || is_known (host_of gossip) port known
    then known
    else known
      ++ (record { host = host_of gossip; port = port; mesh_ip = some (peer.mesh_ip) } ∷ [])

unfoldable pub discover : List Peer → ℕ → List Endpoint → List Endpoint
discover [] port known = known
discover (p ∷ ps) port known =
    if same_text p.state (codes "alive")
    then discover ps port (discover_at p port p.gossip_endpoint known)
    else discover ps port known

-- `s.split(separator)` of a separator that is not empty; `skip` are characters of a separator that
-- was found.
unfoldable pub split_at : JsString → ℕ → JsString → JsString → List JsString
split_at separator skip piece [] = piece ∷ []
split_at separator (suc n) piece (c ∷ s) = split_at separator n piece s
split_at separator zero piece (c ∷ s) =
    let cut = split_at separator (length separator - 1) [] s in
    let on = split_at separator zero (piece ++ (c ∷ [])) s in
    if starts_with (c ∷ s) separator then piece ∷ cut else on

-- `s.slice(0, s.indexOf("="))` and what is behind the sign, if it is not the first character.
unfoldable pub key_value : JsString → JsString → Option (JsString × JsString)
key_value name [] = none
key_value name (c ∷ s) =
    let rest = key_value (name ++ (c ∷ [])) s in
    if c == 61 then (elim name [ [] ↦ none | (d ∷ ds) ↦ some (d ∷ ds, s) ]) else rest

abbrev pub add_pair :
    Option (JsString × JsString) → List (JsString × JsString) → List (JsString × JsString)
add_pair none kv = kv
add_pair (some p) kv = p ∷ kv

-- The lines of a section, the last one first, so that it wins.
unfoldable pub pairs : List JsString → List (JsString × JsString) → List (JsString × JsString)
pairs [] kv = kv
pairs (line ∷ lines) kv = pairs lines (add_pair (key_value [] line) kv)

-- `kv.name`, none where it is undefined or empty.
unfoldable pub lookup : JsString → List (JsString × JsString) → Option JsString
lookup name [] = none
lookup name ((n, []) ∷ kv) = if same_text n name then none else lookup name kv
lookup name ((n, c ∷ v) ∷ kv) = if same_text n name then some (c ∷ v) else lookup name kv

abbrev pub or_else : JsString → Option JsString → JsString
or_else d none = d
or_else d (some v) = v

abbrev pub section_of : JsString → List (JsString × JsString)
section_of section = pairs (split_at (10 ∷ []) 0 [] section) []

abbrev pub add_peer : Option JsString → List (JsString × JsString) → List Peer → List Peer
add_peer none kv ps = ps
add_peer (some ip) kv ps =
    record {
      mesh_ip = ip;
      state = or_else (codes "unknown") (lookup (codes "state") kv);
      gossip_endpoint = lookup (codes "gossip_endpoint") kv;
      wormwire = or_else (codes "disconnected") (lookup (codes "wormwire") kv);
    }
    ∷ ps

-- The peers of the sections but the first.
unfoldable pub raw_peers : List JsString → List Peer
raw_peers [] = []
raw_peers (section ∷ rest) =
    let kv = section_of section in add_peer (lookup (codes "mesh_ip") kv) kv (raw_peers rest)

-- `text.split(":")[0]`
unfoldable pub gossip_ip : JsString → JsString
gossip_ip [] = []
gossip_ip (c ∷ s) = let rest = gossip_ip s in if c == 58 then [] else c ∷ rest

abbrev pub is_dead : Peer → Bool
is_dead p = same_text p.state (codes "dead")

-- `byGossipIp`, with `get` and `set` of the Map in one pass: an address keeps its place.
unfoldable pub put_peer : JsString → Peer → List (JsString × Peer) → List (JsString × Peer)
put_peer ip p [] = (ip, p) ∷ []
put_peer ip p ((ip', q) ∷ rest) =
    let on = (ip', q) ∷ put_peer ip p rest in
    if same_text ip' ip then (ip', if is_dead q && not (is_dead p) then p else q) ∷ rest else on

unfoldable pub put_gossip : Option JsString → Peer → List (JsString × Peer) → List (JsString × Peer)
put_gossip none p m = m
put_gossip (some gossip) p m = put_peer (gossip_ip gossip) p m

unfoldable pub by_gossip_ip : List Peer → List (JsString × Peer) → List (JsString × Peer)
by_gossip_ip [] m = m
by_gossip_ip (p ∷ ps) m = by_gossip_ip ps (put_gossip p.gossip_endpoint p m)

abbrev pub values : List (JsString × Peer) → List Peer
values [] = []
values ((ip, p) ∷ m) = p ∷ values m

unfoldable pub dedupe : List Peer → List Peer
dedupe ps = values (by_gossip_ip ps [])

abbrev pub filled : List JsString → List JsString
filled [] = []
filled (s ∷ ss) = let rest = filled ss in if same_text (trimmed s) [] then rest else s ∷ rest

module _ (number : JsString → ℕ) where
  -- The first section tells of the node itself, or is a peer's if it has no `self_mesh_ip`.
  unfoldable pub parse_first :
      Option JsString → List (JsString × JsString) → List Peer → JsString × ℕ × List Peer
  parse_first (some ip) kv others =
      (ip, number (or_else (codes "0") (lookup (codes "self_port") kv)), dedupe others)
  parse_first none kv others =
      (codes "0.0.0.0", 0, dedupe (add_peer (lookup (codes "mesh_ip") kv) kv others))

  unfoldable pub parse_sections : List JsString → JsString × ℕ × List Peer
  parse_sections [] = (codes "0.0.0.0", 0, [])
  parse_sections (section ∷ rest) =
      let kv = section_of section in
      parse_first (lookup (codes "self_mesh_ip") kv) kv (raw_peers rest)

  unfoldable pub parse_peers : JsString → JsString × ℕ × List Peer
  parse_peers text = parse_sections (filled (split_at (codes "---" ++ (10 ∷ [])) 0 [] text))
