-- ===== src/Wire/Command.antt =====
-- ParsedCommand of apps/bun/src/lib/command.ts.
use wormdb.Base.{ℕ, Bool, List, Option, JsString, [], ◌∷◌}
use wormdb.Wire.Bytes.{Bytes}

pub data Metric : Type 0 where
  cosine dot l2 : Metric

-- An EXEC argument: a string, or raw bytes.
pub data Arg : Type 0 where
  text : JsString → Arg
  raw : Bytes → Arg

pub record VectorInsert : Type 0 where
  pub key : JsString
  pub vector : Bytes
  pub worm : Bool
  pub namespace : JsString
  pub metric : Metric
  pub timestamp : ℕ
  pub is_async : Bool

pub record BulkItem : Type 0 where
  pub key : JsString
  pub vector : Bytes
  pub timestamp : ℕ

pub record VectorBulk : Type 0 where
  pub namespace : JsString
  pub metric : Metric
  pub worm : Bool
  pub is_async : Bool
  pub items : List BulkItem

pub data ParsedCommand : Type 0 where
  get : JsString → ParsedCommand
  del : JsString → ParsedCommand
  sub : JsString → Option JsString → ParsedCommand
  unsub : JsString → ParsedCommand
  status cluster_status cluster_peers : ParsedCommand
  set : JsString → JsString → Bool → ParsedCommand
  publish : JsString → JsString → ParsedCommand
  exec : JsString → List Arg → ParsedCommand
  vinsert : VectorInsert → ParsedCommand
  vbulkinsert : VectorBulk → ParsedCommand

-- The strings "cosine", "dot" and "l2".
abbrev pub metric_name : Metric → JsString
metric_name cosine = 99 ∷ 111 ∷ 115 ∷ 105 ∷ 110 ∷ 101 ∷ []
metric_name dot = 100 ∷ 111 ∷ 116 ∷ []
metric_name l2 = 108 ∷ 50 ∷ []
