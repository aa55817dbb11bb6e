-- ===== src/Api.antt =====
-- The typed calls of WormDB, apps/bun/src/lib/wormdb.ts, with the two vector calls of WormClient,
-- client.ts: which command a call sends, and what it makes of the response. `String(n)` of a number
-- and `JSON.parse` are parameters.
pub mod Procedures
pub mod EventQueue
pub mod Slots
pub mod Laws
mod Tests
use wormdb.Base.{
  Bool, ◌>>=◌, ◌∙◌, ℕ, zero, suc, ◌+◌, ◌≡◌, refl, inl, inr, true, false, [], ◌∷◌, ◌++◌, none, some,
  arith, ◌⊎◌, ◌<◌, ◌≤◌, Result, JsString, List, Option, ok, err, server_error, plain_error, take,
}
use wormdb.Text.{codes}
use wormdb.Wire.Bytes.{Bytes}
use wormdb.Wire.Command.{
  ParsedCommand, Metric, Arg, VectorInsert, BulkItem, VectorBulk, vinsert, vbulkinsert, set, text,
  cosine,
}
use wormdb.Wire.Response.{WormResponse, error, bulk, done, event, null}

-- `??`
abbrev pub or_else {ℓ} : {A : Type ℓ} → Option A → A → A
or_else none a = a
or_else (some b) a = b

-- The field `type` of a response.
abbrev pub type_name : WormResponse → JsString
type_name done = codes "ok"
type_name null = codes "null"
type_name (error m) = codes "error"
type_name (bulk v) = codes "bulk"
type_name (event c m) = codes "event"

abbrev pub unexpected {ℓ} : {A : Type ℓ} → JsString → WormResponse → Result A
unexpected what r = err (server_error (what ++ type_name r))

pub expect_ok : WormResponse → Result (Unit {0})
expect_ok (error m) = err (server_error m)
expect_ok done = ok tt
expect_ok r = unexpected (codes "unexpected response: ") r

pub expect_value : WormResponse → Result JsString
expect_value (error m) = err (server_error m)
expect_value (bulk v) = ok v
expect_value r = unexpected (codes "unexpected response: ") r

pub get_result : WormResponse → Result (Option JsString)
get_result (error m) = err (server_error m)
get_result null = ok none
get_result (bulk v) = ok (some v)
get_result r = unexpected (codes "unexpected GET response: ") r

-- `getBytes` gives the payload of a value as it is.
pub get_bytes_result : Bytes → WormResponse → Result (Option Bytes)
get_bytes_result payload (error m) = err (server_error m)
get_bytes_result payload null = ok none
get_bytes_result payload (bulk v) = ok (some payload)
get_bytes_result payload r = unexpected (codes "unexpected GET response: ") r

pub exec_result : WormResponse → Result JsString
exec_result (error m) = err (server_error m)
exec_result (bulk v) = ok v
exec_result done = ok []
exec_result r = unexpected (codes "unexpected EXEC response: ") r

-- `JSON.parse` gives none where it throws.
pub parsed_or {ℓ} : {Json : Type ℓ} → Option Json → JsString → JsString → Result Json
parsed_or (some v) procedure raw = ok v
parsed_or none procedure raw =
    err (server_error (procedure ++ codes ": expected JSON result, got: " ++ take 128 raw))

pub exec_json {ℓ} :
    {Json : Type ℓ} → (JsString → Option Json) → JsString → WormResponse → Result Json
exec_json parse procedure r = do raw ← exec_result r; parsed_or (parse raw) procedure raw

pub record VectorOptions : Type 0 where
  pub worm : Option Bool
  pub namespace : Option JsString
  pub metric : Option Metric
  pub timestamp : Option ℕ
  pub is_async : Option Bool

-- `vinsert` of WormDB and `vinsertNative` of WormClient; `now` is Date.now().
pub vinsert_command : ℕ → JsString → Bytes → VectorOptions → ParsedCommand
vinsert_command now key vector o = vinsert (record {
  key = key;
  vector = vector;
  worm = or_else o.worm true;
  namespace = or_else o.namespace (codes "vec:");
  metric = or_else o.metric cosine;
  timestamp = or_else o.timestamp now;
  is_async = or_else o.is_async false;
})

pub stamped : ℕ → List (JsString × Bytes × Option ℕ) → List BulkItem
stamped now [] = []
stamped now ((key, vector, t) ∷ items) =
    record { key = key; vector = vector; timestamp = or_else t now } ∷ stamped now items

-- `vbulkinsert` of WormDB and `vbulkinsertNative` of WormClient. It looks at no `timestamp` option.
pub vbulkinsert_command : ℕ → List (JsString × Bytes × Option ℕ) → VectorOptions → ParsedCommand
vbulkinsert_command now items o = vbulkinsert (record {
  namespace = or_else o.namespace (codes "vec:");
  metric = or_else o.metric cosine;
  worm = or_else o.worm false;
  is_async = or_else o.is_async false;
  items = stamped now items;
})

-- `set`: `worm` is off unless it is asked for.
pub set_command : JsString → JsString → Option Bool → ParsedCommand
set_command key value worm = set key value (or_else worm false)

-- The arguments of `authMintScoped`; they are positional.
pub mint_mode : Option JsString → Option JsString → List JsString → Result (List JsString)
mint_mode subject none args = ok args
mint_mode none (some m) args =
    err (plain_error (codes "authMintScoped: mode requires subject (positional args)"))
mint_mode (some s) (some m) args = ok (args ++ (m ∷ []))

pub mint_subject : Option JsString → Option JsString → List JsString → Result (List JsString)
mint_subject ttl none args = ok args
mint_subject none (some s) args =
    err (plain_error (codes "authMintScoped: subject requires ttlS (positional args)"))
mint_subject (some t) (some s) args = ok (args ++ (s ∷ []))

pub given : Option JsString → List JsString
given none = []
given (some a) = a ∷ []

pub mint_args :
    JsString → Option JsString → Option JsString → Option JsString → Result (List JsString)
mint_args namespace ttl subject mode = do
  args ← mint_subject ttl subject (namespace ∷ given ttl)
  mint_mode subject mode args

-- `key=value`, if there is a value.
pub labelled : JsString → Option JsString → List JsString
labelled label none = []
labelled label (some v) = (label ++ v) ∷ []

-- `sk=…`, or else `sig=…`.
pub key_or_sig : Option JsString → Option JsString → List JsString
key_or_sig (some sk) sig = labelled (codes "sk=") (some sk)
key_or_sig none sig = labelled (codes "sig=") sig

-- Numbers come as their text.
pub record CheckpointOptions : Type 0 where
  pub from_seq : JsString
  pub to_seq : JsString
  pub creator_pubkey_hex : JsString
  pub sk_hex : Option JsString
  pub sig_hex : Option JsString
  pub created_at_ms : Option JsString
  pub ingested_at_ms : Option JsString
  pub prev_hex : Option JsString
  pub ext_hex : Option JsString

pub checkpoint_fields : JsString → CheckpointOptions → List JsString
checkpoint_fields log_id o =
    (log_id ∷ o.from_seq ∷ o.to_seq ∷ o.creator_pubkey_hex ∷ [])
    ++ key_or_sig o.sk_hex o.sig_hex
    ++ labelled (codes "created_at_ms=") o.created_at_ms
    ++ labelled (codes "ingested_at_ms=") o.ingested_at_ms
    ++ labelled (codes "prev=") o.prev_hex
    ++ labelled (codes "ext=") o.ext_hex

pub signed_checkpoint : Option JsString → Option JsString → List JsString → Result (List JsString)
signed_checkpoint none none args =
    err (plain_error (codes "appendLog.checkpoint: one of skHex or sigHex is required"))
signed_checkpoint (some sk) sig args = ok args
signed_checkpoint none (some sig) args = ok args

pub checkpoint_args : JsString → CheckpointOptions → Result (List JsString)
checkpoint_args log_id o = signed_checkpoint o.sk_hex o.sig_hex (checkpoint_fields log_id o)

pub append_args : JsString → Arg → Option JsString → List JsString → List Arg
append_args log_id payload ts_ms hashes =
    text log_id ∷ payload ∷ texts (labelled (codes "ts=") ts_ms ++ hashes)
  where
    texts : List JsString → List Arg
    texts [] = []
    texts (a ∷ as') = text a ∷ texts as'

pub witness_args :
    JsString
    → JsString
    → Option JsString
    → Option JsString
    → Option JsString
    → Option JsString
    → Option JsString
    → List JsString
witness_args log_id checkpoint pubkey sk sig observed ext =
    (log_id ∷ checkpoint ∷ given pubkey)
    ++ key_or_sig sk sig
    ++ labelled (codes "observed_at_ms=") observed
    ++ labelled (codes "ext=") ext
