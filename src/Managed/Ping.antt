-- ===== src/Managed/Ping.antt =====
-- The liveness ping of WormDB, apps/bun/src/lib/wormdb.ts.
use wormdb.Base.{Bool, if◌then◌else◌, ℕ, none, some, Option, ◌&&◌, Result, Error, ok, err}
use wormdb.Wire.Command.{status}
use wormdb.Managed.State.{Db, is_some, is_ready, internal}
use wormdb.Managed.{enqueue_pending, drop_last}
use wormdb.Wire.Encode.{encode_command_frame}
use wormdb.Wire.Bytes.{Bytes}
use wormdb.Link.{write_or_queue}

-- The request for the status goes out at once, as the client is ready; nobody reads its answer.
unfoldable pub finish_ping : Option Error → Db → Db
finish_ping none s = s
finish_ping (some e) s = record s { pending = drop_last s.pending }

module _ (answer : ℕ → Option ℕ) where
  unfoldable pub send_ping : Result Bytes → Db → Db
  send_ping (ok frame) s =
      let (link', thrown) = write_or_queue answer s.link frame in
      finish_ping thrown (record (enqueue_pending internal s) { link = link' })
  send_ping (err e) s = s

  -- A tick of the ping timer; `quiet` if the last activity is an interval ago.
  unfoldable pub on_ping : Bool → Db → Db
  on_ping quiet s =
      if s.ping_timer && (is_ready s.state && (is_some s.socket && quiet))
      then send_ping (encode_command_frame status) s
      else s
