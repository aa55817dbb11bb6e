-- ===== src/Link/Cut.antt =====
-- What a failed write leaves of a chunk: flushBacklog of apps/bun/src/lib/client.ts and
-- apps/bun/src/lib/wormdb.ts.
use wormdb.Base.{
  Option, length, take, drop, append_assoc, append-nil, ◌∙◌, ℕ, ◌+◌, ◌≡◌, refl, [], ◌∷◌, ◌++◌, none,
  some, arith, List, sym, ap, ◌<◌, lt→ltb,
}
use wormdb.Wire.Bytes.{Bytes}
use wormdb.Link.{
  Link, queue_or_write, after_write, flush_backlog, flush_loop, write_or_queue, socket_write,
}
use wormdb.Wire.Frame.Chunks.{flatten}
use wormdb.Link.Order.{
  run_link, stream, send, drain, LinkEvent, ReliableFrom, flush_loop-stream_from,
}

module _ (answer : ℕ → Option ℕ) where
  flush_loop-failed :
      (c : Bytes) (cs : List Bytes) (accepted : Bytes) (calls : ℕ)
      → answer calls ≡ none
      → flush_loop answer (c ∷ cs) accepted calls ≡ flush_loop answer cs accepted (calls + 1)
  unfolding flush_loop
  flush_loop-failed c cs accepted calls e = rw (e, flush_loop) refl

  -- Sends, and then a `drain` callback.
  abbrev pub then_drain : List Bytes → List LinkEvent
  then_drain [] = drain ∷ []
  then_drain (c ∷ cs) = send c ∷ then_drain cs

  write_or_queue-queued :
      (l : Link) (x c : Bytes) (cs : List Bytes)
      → l.backlog ≡ c ∷ cs
      → (write_or_queue answer l x).0 ≡ record l { backlog = l.backlog ++ (x ∷ []) }
  unfolding write_or_queue queue_or_write
  write_or_queue-queued l x c cs b = rw b refl

  write_or_queue-part :
      (l : Link) (chunk : Bytes) (k : ℕ)
      → l.backlog ≡ []
      → answer l.calls ≡ some k
      → k < length chunk
      → (write_or_queue answer l chunk).0 ≡ record {
        accepted = l.accepted ++ take k chunk;
        calls = l.calls + 1;
        backlog = drop k chunk ∷ [];
      }
  unfolding write_or_queue queue_or_write after_write socket_write
  write_or_queue-part l chunk k b e h =
      let part = lt→ltb k (length chunk) h in rw (b, e, socket_write, part)

  run_link-then_drain :
      (bs : List Bytes) (l : Link) (c : Bytes) (cs : List Bytes)
      → l.backlog ≡ c ∷ cs
      → run_link answer (then_drain bs) l
        ≡ flush_backlog answer (record l { backlog = l.backlog ++ bs })
  unfolding run_link
  run_link-then_drain [] l c cs b =
      ap (λ q. flush_backlog answer (record l { backlog = q })) (sym (append-nil l.backlog))
  run_link-then_drain (x ∷ bs) l c cs b =
      ap (run_link answer (then_drain bs)) (write_or_queue-queued l x c cs b)
      ∙ run_link-then_drain bs (record l { backlog = l.backlog ++ (x ∷ []) }) c (cs ++ (x ∷ []))
          (ap (λ q. q ++ (x ∷ [])) b)
      ∙ ap (λ q. flush_backlog answer (record l { backlog = q }))
          (append_assoc l.backlog (x ∷ []) bs)

  -- A chunk of which the first write takes only a part is cut there if the write of its rest fails,
  -- which reports no error: what was sent after it then follows that part, if no later write fails.
  pub flush_backlog_cuts :
      (l : Link) (chunk : Bytes) (later : List Bytes) (k : ℕ)
      → l.backlog ≡ []
      → answer l.calls ≡ some k
      → k < length chunk
      → answer (l.calls + 1) ≡ none
      → ReliableFrom answer (l.calls + 2)
      → stream (run_link answer (send chunk ∷ then_drain later) l)
        ≡ l.accepted ++ (take k chunk ++ flatten later)
  unfolding run_link flush_backlog
  flush_backlog_cuts l chunk later k b e h f r =
      ap (λ m. stream (run_link answer (then_drain later) m)) (write_or_queue-part l chunk k b e h)
      ∙ ap stream (run_link-then_drain later _ (drop k chunk) [] refl)
      ∙ ap stream
          (flush_loop-failed (drop k chunk) later (l.accepted ++ take k chunk) (l.calls + 1) f)
      ∙ flush_loop-stream_from answer (l.calls + 2) r later (l.accepted ++ take k chunk)
          (l.calls + 1 + 1) (omega arith)
      ∙ append_assoc l.accepted (take k chunk) (flatten later)
