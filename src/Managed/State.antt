-- ===== src/Managed/State.antt =====
-- The fields of WormDB, apps/bun/src/lib/wormdb.ts, and what the world sees of it: the promises
-- that it settled, the events that it handed to subscribers, and how often it dialled.
use wormdb.Base.{Option, Bool, Error, JsString, ℕ, true, false, none, some, List}
use wormdb.Wire.Bytes.{Bytes}
use wormdb.Link.{Link}

pub data DbState : Type 0 where
  idle connecting ready reconnecting closed : DbState

-- `maxAttempts` is none for Infinity.
pub record Config : Type 0 where
  pub timeout_ms : ℕ
  pub enabled : Bool
  pub min_delay_ms : ℕ
  pub max_delay_ms : ℕ
  pub max_attempts : Option ℕ
  pub ping_interval_ms : ℕ

pub record SubEntry : Type 0 where
  pub channel : JsString
  pub filter : Option JsString
  pub handlers : List ℕ
  pub wire_subscribed : Bool

-- The generation is the one that the request's timer compares; `onOpen`'s own requests are
-- `internal`.
pub data Owner : Type 0 where
  internal : Owner
  caller : ℕ → Owner

pub record Pending : Type 0 where
  pub owner : Owner
  pub generation : ℕ

pub data Outcome : Type 0 where
  raw_frame : ℕ → Bytes → Outcome
  rejected : Error → Outcome

pub record Db : Type 0 where
  pub config : Config
  pub state : DbState
  pub socket : Option ℕ
  pub inbound : Bytes
  pub pending : List Pending
  pub link : Link
  pub waiters : List (ℕ × Bytes)
  pub subs : List SubEntry
  pub auth_token : Option Bytes
  pub attempts : ℕ
  pub reconnect_timer : Option ℕ
  pub ping_timer : Bool
  pub is_connecting : Bool
  pub generation : ℕ
  pub settled : List (ℕ × Outcome)
  pub delivered : List (ℕ × JsString × JsString)
  pub dials : ℕ

abbrev pub is_ready : DbState → Bool
is_ready ready = true
is_ready _ = false

abbrev pub is_closed : DbState → Bool
is_closed closed = true
is_closed _ = false

abbrev pub is_some {ℓ} : {A : Type ℓ} → Option A → Bool
is_some none = false
is_some (some a) = true
