-- ===== src/Api/Procedures.antt =====
-- The calls of WormDB, apps/bun/src/lib/wormdb.ts, that pass their arguments on as they are, with
-- those of WormClient, client.ts: the command that each sends. Numbers come as their text.
use wormdb.Base.{ℕ, List, Option, [], ◌∷◌, JsString}
use wormdb.Text.{codes}
use wormdb.Wire.Bytes.{Bytes}
use wormdb.Wire.Command.{
  ParsedCommand, Arg, text, del, status, cluster_status, cluster_peers, publish, exec, get,
}
use wormdb.Api.{VectorOptions, vinsert_command, vbulkinsert_command}

abbrev text_args : List JsString → List Arg
text_args [] = []
text_args (a ∷ as') = text a ∷ text_args as'

-- `execJson(procedure, args)` and `exec`.
pub exec_command : JsString → List JsString → ParsedCommand
exec_command procedure args = exec procedure (text_args args)

pub verify_call : JsString → ParsedCommand
verify_call log_id = exec_command (codes "append_log_verify") (log_id ∷ [])

pub mmr_proof_call : JsString → JsString → ParsedCommand
mmr_proof_call log_id seq = exec_command (codes "append_log_mmr_proof") (log_id ∷ seq ∷ [])

pub mmr_verify_call : JsString → JsString → JsString → ParsedCommand
mmr_verify_call record_hash_hex root_hex proof_hex =
    exec_command (codes "append_log_mmr_verify") (record_hash_hex ∷ root_hex ∷ proof_hex ∷ [])

pub proof_bundle_call : JsString → JsString → JsString → JsString → ParsedCommand
proof_bundle_call log_id from_seq to_seq checkpoint_hash_hex =
    exec_command (codes "append_log_proof_bundle")
      (log_id ∷ from_seq ∷ to_seq ∷ checkpoint_hash_hex ∷ [])

pub proof_verify_call : JsString → JsString → JsString → JsString → JsString → ParsedCommand
proof_verify_call log_id seq record_hash_hex checkpoint_hash_hex proof_hex =
    exec_command (codes "append_log_proof_verify")
      (log_id ∷ seq ∷ record_hash_hex ∷ checkpoint_hash_hex ∷ proof_hex ∷ [])

pub witness_request_call : JsString → JsString → ParsedCommand
witness_request_call log_id checkpoint_hash_hex =
    exec_command (codes "append_log_witness_request") (log_id ∷ checkpoint_hash_hex ∷ [])

pub witness_import_call : JsString → JsString → JsString → ParsedCommand
witness_import_call log_id checkpoint_hash_hex canonical_witness_hex =
    exec_command (codes "append_log_witness_import")
      (log_id ∷ checkpoint_hash_hex ∷ canonical_witness_hex ∷ [])

pub witness_verify_call : JsString → JsString → JsString → ParsedCommand
witness_verify_call log_id checkpoint_hash_hex witness_pubkey_hex =
    exec_command (codes "append_log_witness_verify")
      (log_id ∷ checkpoint_hash_hex ∷ witness_pubkey_hex ∷ [])

pub del_call : JsString → ParsedCommand
del_call key = del key

pub get_call : JsString → ParsedCommand
get_call key = get key

pub pub_call : JsString → JsString → ParsedCommand
pub_call channel message = publish channel message

pub status_call : ParsedCommand
status_call = status

pub cluster_status_call : ParsedCommand
cluster_status_call = cluster_status

pub cluster_peers_call : ParsedCommand
cluster_peers_call = cluster_peers

-- `vinsertNative` and `vbulkinsertNative` repeat the defaults of `vinsert` and `vbulkinsert`.
pub vinsert_native : ℕ → JsString → Bytes → VectorOptions → ParsedCommand
vinsert_native now key vector options = vinsert_command now key vector options

pub vbulkinsert_native : ℕ → List (JsString × Bytes × Option ℕ) → VectorOptions → ParsedCommand
vbulkinsert_native now items options = vbulkinsert_command now items options
