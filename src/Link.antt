-- ===== src/Link.antt =====
-- The outgoing half of a connection: writeOrQueue and flushBacklog, which
-- apps/bun/src/lib/client.ts and apps/bun/src/lib/wormdb.ts write out alike, over a socket whose
-- `write` may take only a part of its data.
pub mod Order
pub mod Cut
mod Tests
use wormdb.Base.{
  Option, Bool, ltb, length, take, drop, if◌then◌else◌, Error, plain_error, ◌>>=◌, ◌∙◌, ℕ, zero,
  suc, ◌+◌, ◌≡◌, refl, inl, inr, true, false, [], ◌∷◌, ◌++◌, none, some, arith, ◌⊎◌, ◌<◌, ◌≤◌, List,
}
use wormdb.Text.{codes}
use wormdb.Wire.Bytes.{Bytes}

-- `accepted` are the bytes that the socket has taken, `calls` counts the calls of `write`, and
-- `backlog` is the client's writeBacklog.
pub record Link : Type 0 where
  pub accepted : Bytes
  pub calls : ℕ
  pub backlog : List Bytes

pub fresh_link : Link
fresh_link = record { accepted = []; calls = 0; backlog = [] }

abbrev pub write_failed : Error
write_failed = plain_error (codes "socket.write failed")

-- What the socket answers to its n-th `write`: a number of bytes, or `none` for a negative one.
module _ (answer : ℕ → Option ℕ) where
  -- `socket.write(data)`.
  pub socket_write : Link → Bytes → Link × Option ℕ
  socket_write l bytes = elim (answer l.calls) [
    | none ↦ (record l { calls = l.calls + 1 }, none)
    | some n ↦ (record l { calls = l.calls + 1; accepted = l.accepted ++ take n bytes }, some n)
  ]

  -- What writeOrQueue does once the socket answered; the second component is what it throws.
  pub after_write : Bytes → Link × Option ℕ → Link × Option Error
  after_write bytes (l, none) = (l, some write_failed)
  after_write bytes (l, some written) =
      if ltb written (length bytes)
      then (record l { backlog = l.backlog ++ (drop written bytes ∷ []) }, none)
      else (l, none)

  pub queue_or_write : List Bytes → Link → Bytes → Link × Option Error
  queue_or_write [] l bytes = after_write bytes (socket_write l bytes)
  queue_or_write (b ∷ bs) l bytes = (record l { backlog = l.backlog ++ (bytes ∷ []) }, none)

  pub write_or_queue : Link → Bytes → Link × Option Error
  write_or_queue l bytes = queue_or_write l.backlog l bytes

  -- `while (this.writeBacklog.length > 0) { … }` over the chunks that are left, with the bytes
  -- taken and the calls made so far.
  pub flush_loop : List Bytes → Bytes → ℕ → Link
  flush_loop [] accepted calls = record { accepted = accepted; calls = calls; backlog = [] }
  flush_loop (chunk ∷ rest) accepted calls = elim (answer calls) [
    | none ↦ flush_loop rest accepted (calls + 1)
    | some written ↦
        let accepted' = accepted ++ take written chunk in
        let more = flush_loop rest accepted' (calls + 1) in
        if ltb written (length chunk)
        then record { accepted = accepted'; calls = calls + 1; backlog = drop written chunk ∷ rest }
        else more
  ]

  pub flush_backlog : Link → Link
  flush_backlog l = flush_loop l.backlog l.accepted l.calls
