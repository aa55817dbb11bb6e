-- ===== src/Managed/Open.antt =====
-- `onOpen` of WormDB: the magic, then AUTH, then the subscriptions, then the waiting requests.
use wormdb.Base.{
  Option, Result, ok, err, if◌then◌else◌, Error, ℕ, ◌+◌, false, [], ◌∷◌, none, some, List,
}
use wormdb.Wire.Bytes.{Bytes}
use wormdb.Wire.Command.{sub}
use wormdb.Link.{Link, socket_write, write_or_queue}
use wormdb.Client.{wire_magic}
use wormdb.Managed.State.{Db, SubEntry, ready, internal}
use wormdb.Managed.{enqueue_pending, resume, start_ping}
use wormdb.Wire.Encode.{encode_auth, encode_command_frame}

-- What was written so far, or the exception that left `onOpen`.
abbrev pub Written : Type 0
Written = Db × Option Error

module _ (answer : ℕ → Option ℕ) where
  -- One pipelined request of `onOpen`: its promise is enqueued, then its frame is written.
  unfoldable pub write_internal : Result Bytes → Db → Written
  write_internal (err e) s = (enqueue_pending internal s, some e)
  write_internal (ok frame) s =
      let (link', thrown) = write_or_queue answer s.link frame in
      (record (enqueue_pending internal s) { link = link' }, thrown)

  unfoldable pub write_auth : Option Bytes → Db → Written
  write_auth none s = (s, none)
  write_auth (some token) s = write_internal (encode_auth token) s

  -- Only the subscriptions that were acknowledged are sent again.
  unfoldable pub write_subs : List SubEntry → Db → Written
  write_subs [] s = (s, none)
  write_subs (e ∷ es) s =
      let more = write_subs es s in
      let wrote = write_internal (encode_command_frame (sub e.channel e.filter)) s in
      let rest = write_subs es wrote.0 in
      if e.wire_subscribed then (elim wrote.1 [ none ↦ rest | some x ↦ wrote ]) else more

  unfoldable pub then_subs : List SubEntry → Written → Written
  then_subs es (s, none) = write_subs es s
  then_subs es (s, some e) = (s, some e)

  -- `generation += 1` up to the subscriptions. The result of writing the magic is not looked at.
  unfoldable pub handshake : ℕ → Db → Written
  handshake k s =
      let fresh : Link = record (s.link) { accepted = []; backlog = [] } in
      let s' = record s {
        is_connecting = false;
        generation = s.generation + 1;
        socket = some k;
        inbound = [];
        link = (socket_write answer fresh wire_magic).0;
      } in
      then_subs s.subs (write_auth s.auth_token s')

  -- `stateValue = "ready"` up to the waiters, which go on at once.
  unfoldable pub become_ready : Written → Db
  become_ready (s, some e) = s
  become_ready (s, none) =
      resume answer s.waiters (start_ping (record s { state = ready; attempts = 0; waiters = [] }))

  unfoldable pub on_open : ℕ → Db → Db
  on_open k s = become_ready (handshake k s)
