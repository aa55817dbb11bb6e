-- ===== src/AgentMemory.antt =====
-- MemClient, examples/agent-memory/client/mem.ts: the EXEC commands that it sends, with their
-- positional options, and what it makes of responses. A JSON value comes as its text.
pub mod Filter
pub mod Laws
mod Tests
use wormdb.Base.{
  Bool, if◌then◌else◌, ◌>>=◌, ◌∙◌, ℕ, zero, suc, ◌+◌, ◌≡◌, refl, inl, inr, true, false, [], ◌∷◌,
  ◌++◌, none, some, arith, ◌⊎◌, ◌<◌, ◌≤◌, List, JsString, Option, get_elem?, Result, not, ◌==◌,
  Error, err, plain_error, length, ◌||◌, ok, leb, ◌&&◌,
}
use wormdb.Wire.Command.{ParsedCommand, exec, Arg, text, raw, Metric, metric_name, cosine}
use wormdb.Wire.Response.{WormResponse, done, error, bulk, event, null}
use wormdb.Wire.Bytes.{Bytes}
use wormdb.Text.{codes, decimal}
use wormdb.Managed.State.{is_some}
use wormdb.TextProtocol.{trimmed}
use wormdb.Managed.Subscribe.{same_text}

-- `MemError`
pub mem_error : JsString → JsString → Error
mem_error procedure message = plain_error (procedure ++ (codes ": " ++ message))

unfoldable pub unwrap_value : JsString → WormResponse → Result JsString
unwrap_value proc (error message) = err (mem_error proc message)
unwrap_value proc null = err (mem_error proc (codes "unexpected NULL response"))
unwrap_value proc (bulk v) = ok v
unwrap_value proc done = ok []
unwrap_value proc (event c m) = err (mem_error proc (codes "unexpected response type: event"))

-- Some procedures return a value instead of OK.
unfoldable pub unwrap_ok : JsString → WormResponse → Result (Unit {0})
unwrap_ok proc (error message) = err (mem_error proc message)
unwrap_ok proc r = ok tt

unfoldable pub capabilities : ParsedCommand
capabilities = exec (codes "mem_capabilities") []

unfoldable pub init : JsString → JsString → Metric → Option Bool → ParsedCommand
init ns embedder_id metric vector_only =
    exec (codes "mem_init")
      (text ns ∷ text embedder_id ∷ text (metric_name metric) ∷ vector_flag vector_only)
  where
    vector_flag : Option Bool → List Arg
    vector_flag none = []
    vector_flag (some true) = text (codes "vector_only=true") ∷ []
    vector_flag (some false) = text (codes "vector_only=false") ∷ []

pub record AddOptions : Type 0 where
  pub meta : Option JsString
  pub worm : Option Bool
  pub embedder_id : Option JsString

abbrev pub flag : Bool → JsString
flag true = codes "1"
flag false = codes "0"

-- The options of `add` and `addVectorOnly`, one after the other.
unfoldable pub meta_slot : AddOptions → List Arg
meta_slot o = elim (o.meta) [
  | some m ↦ text m ∷ []
  | none ↦ if is_some o.worm || is_some o.embedder_id then text [] ∷ [] else []
]

unfoldable pub worm_slot : AddOptions → List Arg
worm_slot o = elim (o.worm) [
  | some w ↦ text (flag w) ∷ []
  | none ↦ if is_some o.embedder_id then text (codes "1") ∷ [] else []
]

unfoldable pub embedder_slot : Option JsString → List Arg
embedder_slot none = []
embedder_slot (some id) = text id ∷ []

unfoldable pub add_slots : AddOptions → List Arg
add_slots o = meta_slot o ++ (worm_slot o ++ embedder_slot o.embedder_id)

unfoldable pub add_args : JsString → JsString → JsString → Bytes → AddOptions → List Arg
add_args ns doc_id body embedding o =
    text ns ∷ text doc_id ∷ text body ∷ raw embedding ∷ add_slots o

unfoldable pub add : JsString → JsString → JsString → Bytes → AddOptions → ParsedCommand
add ns doc_id body embedding o = exec (codes "mem_add") (add_args ns doc_id body embedding o)

unfoldable pub vector_only_args : JsString → JsString → Bytes → AddOptions → List Arg
vector_only_args ns doc_id embedding o = text ns ∷ text doc_id ∷ raw embedding ∷ add_slots o

unfoldable pub add_vector_only : JsString → JsString → Bytes → AddOptions → ParsedCommand
add_vector_only ns doc_id embedding o =
    exec (codes "mem_add") (vector_only_args ns doc_id embedding o)

pub record BulkAddRow : Type 0 where
  pub id : JsString
  pub embedding : Bytes
  pub meta : Option JsString

abbrev pub or_blank : Option JsString → JsString
or_blank none = []
or_blank (some s) = s

unfoldable pub row_args : List BulkAddRow → List Arg
row_args [] = []
row_args (r ∷ rs) = text (r.id) ∷ raw (r.embedding) ∷ text (or_blank r.meta) ∷ row_args rs

unfoldable pub bulk_add : JsString → List BulkAddRow → ParsedCommand
bulk_add ns rows =
    exec (codes "mem_bulk_add") (text ns ∷ text (decimal (length rows)) ∷ row_args rows)

unfoldable pub get_doc : JsString → JsString → ParsedCommand
get_doc ns doc_id = exec (codes "mem_get") (text ns ∷ text doc_id ∷ [])

-- Numbers come as `String` of them.
pub record QueryOptions : Type 0 where
  pub lambda_text : Option JsString
  pub min_score : Option JsString
  pub snippet_chars : Option JsString
  pub filter : Option JsString

-- `/^filter=/i`
unfoldable pub matches_letters : JsString → JsString → Bool
matches_letters [] s = true
matches_letters (p ∷ ps) [] = false
matches_letters (p ∷ ps) (c ∷ s) =
    (c == p || (leb 97 p && (leb p 122 && c + 32 == p))) && matches_letters ps s

unfoldable pub prefixed : JsString → JsString
prefixed filter =
    if matches_letters (codes "filter=") filter then filter else codes "filter=" ++ filter

-- The filter that is sent, if `filterSet`.
unfoldable pub filter_text : Option JsString → Option JsString
filter_text none = none
filter_text (some f) = elim (trimmed f) [ [] ↦ none | (c ∷ s) ↦ some (prefixed (c ∷ s)) ]

unfoldable pub slot : Bool → JsString → Option JsString → List Arg
slot sent placeholder given =
    if sent then text (elim given [ none ↦ placeholder | some v ↦ v ]) ∷ [] else []

unfoldable pub query_slots : QueryOptions → Option JsString → List Arg
query_slots o filter =
    let lambda_set = is_some o.lambda_text in
    let min_set = is_some o.min_score in
    let snip_set = is_some o.snippet_chars in
    let filter_set = is_some filter in
    slot (lambda_set || (min_set || (snip_set || filter_set))) (codes "0") o.lambda_text
    ++ (slot (min_set || (snip_set || filter_set)) [] o.min_score
        ++ (slot (snip_set || filter_set) [] o.snippet_chars ++ slot filter_set [] filter))

unfoldable pub query : JsString → Bytes → ℕ → QueryOptions → ParsedCommand
query ns embedding k o =
    exec (codes "mem_query")
      (text ns ∷ raw embedding ∷ text (decimal k) ∷ query_slots o (filter_text o.filter))

unfoldable pub stats : JsString → ParsedCommand
stats ns = exec (codes "mem_stats") (text ns ∷ [])

unfoldable pub drop_namespace : JsString → ParsedCommand
drop_namespace ns = exec (codes "mem_drop") (text ns ∷ [])

-- `memAdd` of src/procedures/memory.zig, as far as it reads its arguments.
pub record AddRead : Type 0 where
  pub read_ns : Bytes
  pub read_doc_id : Bytes
  pub read_text : Bytes
  pub read_embedding : Bytes
  pub read_meta : Bytes
  pub is_worm : Bool
  pub read_embedder : Option Bytes

-- `ctx.arg(3) orelse ""`, and the WORM flag: anything but "0".
abbrev pub or_no_bytes : Option Bytes → Bytes
or_no_bytes none = []
or_no_bytes (some b) = b

abbrev pub worm_of : Option Bytes → Bool
worm_of none = true
worm_of (some w) = not (same_text w (48 ∷ []))

unfoldable pub read_rest : Bytes → Bytes → Bytes → Bytes → List Bytes → AddRead
read_rest ns doc_id body embedding rest = record {
  read_ns = ns;
  read_doc_id = doc_id;
  read_text = body;
  read_embedding = embedding;
  read_meta = or_no_bytes (get_elem? rest 0);
  is_worm = worm_of (get_elem? rest 1);
  read_embedder = get_elem? rest 2;
}

-- The first argument tells if the namespace holds vectors only; none is a usage error.
unfoldable pub mem_add : Bool → List Bytes → Option AddRead
mem_add true (ns ∷ doc_id ∷ embedding ∷ rest) = some (read_rest ns doc_id [] embedding rest)
mem_add false (ns ∷ doc_id ∷ body ∷ embedding ∷ rest) =
    some (read_rest ns doc_id body embedding rest)
mem_add _ _ = none
