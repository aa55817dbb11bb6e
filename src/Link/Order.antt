-- ===== src/Link/Order.antt =====
-- Bytes leave in the order in which they were handed over.
use wormdb.Base.{
  Option, ltb, length, take, drop, append_assoc, append-nil, take-append-drop, take-all, ◌∙◌, ℕ,
  ◌+◌, ◌≡◌, refl, inl, inr, [], ◌∷◌, ◌++◌, none, some, arith, List, sym, Option-cases, ap, ◌≢◌,
  Bool-cases, ◌≤◌,
}
use wormdb.Wire.Bytes.{Bytes}
use wormdb.Link.{
  Link, queue_or_write, after_write, flush_backlog, flush_loop, write_or_queue, socket_write,
}
use wormdb.Wire.Frame.Chunks.{flatten}

flatten-append : (xs ys : List Bytes) → flatten (xs ++ ys) ≡ flatten xs ++ flatten ys
flatten-append [] ys = refl
flatten-append (x ∷ xs) ys =
    rw (flatten-append xs ys) (sym (append_assoc x (flatten xs) (flatten ys)))

-- What has left and what still waits.
abbrev pub stream : Link → Bytes
stream l = l.accepted ++ flatten l.backlog

-- The socket reports no failed write.
abbrev pub Reliable : (ℕ → Option ℕ) → Type 0
Reliable answer = (k : ℕ) → answer k ≢ none

pub data LinkEvent : Type 0 where
  send : Bytes → LinkEvent
  drain : LinkEvent

abbrev pub sent : List LinkEvent → Bytes
sent [] = []
sent (send bytes ∷ es) = bytes ++ sent es
sent (drain ∷ es) = sent es

module _ (answer : ℕ → Option ℕ) where
  -- The `drain` callbacks and the sends of a connection, in the order in which they happen.
  unfoldable pub run_link : List LinkEvent → Link → Link
  run_link [] l = l
  run_link (send bytes ∷ es) l = run_link es (write_or_queue answer l bytes).0
  run_link (drain ∷ es) l = run_link es (flush_backlog answer l)

  answered : Reliable answer → (k : ℕ) → (n : ℕ) × (answer k ≡ some n)
  answered r k = elim (Option-cases (answer k)) [ inl e ↦ absurd (r k e) | inr p ↦ p ]

  socket_write-some :
      (l : Link) (bytes : Bytes) (n : ℕ)
      → answer l.calls ≡ some n
      → socket_write answer l bytes
        ≡ (record l { calls = l.calls + 1; accepted = l.accepted ++ take n bytes }, some n)
  unfolding socket_write
  socket_write-some l bytes n e = rw (e, socket_write)

  write-stream :
      (l : Link) (bytes : Bytes) (n : ℕ)
      → l.backlog ≡ []
      → answer l.calls ≡ some n
      → ((after_write answer bytes (socket_write answer l bytes)).1 ≡ none)
        × (stream (after_write answer bytes (socket_write answer l bytes)).0 ≡ stream l ++ bytes)
  unfolding after_write socket_write
  write-stream l bytes n b e =
      rw (socket_write-some l bytes n e) (elim (Bool-cases (ltb n (length bytes))) [
        | inl part ↦
            rw (part, b)
              (
                refl,
                rw (
                  append-nil (drop n bytes),
                  append_assoc l.accepted (take n bytes) (drop n bytes),
                  take-append-drop n bytes,
                  append-nil l.accepted,
                ),
              )
        | inr whole ↦
            rw (whole, b)
              (
                refl,
                rw (
                  take-all n bytes (ground arith),
                  append-nil (l.accepted ++ bytes),
                  append-nil l.accepted,
                ),
              )
      ])

  queue_or_write-stream :
      Reliable answer
      → (bs : List Bytes) (l : Link) (bytes : Bytes) → l.backlog ≡ bs
      → ((queue_or_write answer bs l bytes).1 ≡ none)
        × (stream (queue_or_write answer bs l bytes).0 ≡ stream l ++ bytes)
  unfolding queue_or_write
  queue_or_write-stream r [] l bytes b =
      let (n, e) = answered r l.calls in write-stream l bytes n b e
  queue_or_write-stream r (c ∷ cs) l bytes b = (
    refl,
    rw (flatten-append l.backlog (bytes ∷ []), append-nil bytes)
        (sym (append_assoc l.accepted (flatten l.backlog) bytes)),
  )

  -- What is handed to writeOrQueue joins the end of the stream, and nothing is thrown.
  pub write_or_queue-stream :
      Reliable answer
      → (l : Link) (bytes : Bytes)
      → ((write_or_queue answer l bytes).1 ≡ none)
        × (stream (write_or_queue answer l bytes).0 ≡ stream l ++ bytes)
  unfolding write_or_queue
  write_or_queue-stream r l bytes = queue_or_write-stream r l.backlog l bytes refl

  -- The socket reports no failed write from its n-th answer on.
  abbrev pub ReliableFrom : ℕ → Type 0
  ReliableFrom n = (k : ℕ) → n ≤ k → answer k ≢ none

  pub flush_loop-stream_from :
      (n : ℕ)
      → ReliableFrom n
      → (bs : List Bytes) (accepted : Bytes) (calls : ℕ) → n ≤ calls
      → stream (flush_loop answer bs accepted calls) ≡ accepted ++ flatten bs
  unfolding flush_loop
  flush_loop-stream_from n r [] accepted calls h = refl
  flush_loop-stream_from n r (c ∷ cs) accepted calls h = elim (Option-cases (answer calls)) [
    | inl e ↦ absurd (r calls h e)
    | inr (m, e) ↦
        rw (e, flush_loop)
          (elim (Bool-cases (ltb m (length c))) [
            | inl part ↦ rw part (
                rw (
                  append_assoc accepted (take m c) (drop m c ++ flatten cs),
                  ← append_assoc (take m c) (drop m c) (flatten cs),
                  take-append-drop m c,
                ))
            | inr whole ↦ rw whole (
                flush_loop-stream_from n r cs (accepted ++ take m c) (calls + 1) (omega arith)
                ∙ rw (take-all m c (ground arith)) (append_assoc accepted c (flatten cs)))
          ])
  ]

  flush_loop-stream :
      Reliable answer
      → (bs : List Bytes) (accepted : Bytes) (calls : ℕ)
      → stream (flush_loop answer bs accepted calls) ≡ accepted ++ flatten bs
  flush_loop-stream r bs accepted calls =
      flush_loop-stream_from 0 (λ k h. r k) bs accepted calls (omega arith)

  -- Flushing moves bytes from the backlog to the socket and changes none.
  pub flush_backlog-stream :
      Reliable answer → (l : Link) → stream (flush_backlog answer l) ≡ stream l
  unfolding flush_backlog
  flush_backlog-stream r l = flush_loop-stream r l.backlog l.accepted l.calls

  -- There is nothing to flush.
  pub flush_backlog-nil : (l : Link) → l.backlog ≡ [] → flush_backlog answer l ≡ l
  unfolding flush_backlog flush_loop
  flush_backlog-nil l b = rw b refl

  -- However the sends, the partial writes and the drain callbacks interleave, the bytes that the
  -- socket has taken with those that still wait are the bytes sent so far, in order, provided that
  -- no write fails.
  pub run_link-stream :
      Reliable answer
      → (es : List LinkEvent) (l : Link) → stream (run_link es l) ≡ stream l ++ sent es
  unfolding run_link
  run_link-stream r [] l = sym (append-nil (stream l))
  run_link-stream r (send bytes ∷ es) l =
      run_link-stream r es _
      ∙ ap (λ s. s ++ sent es) (write_or_queue-stream r l bytes).1
      ∙ append_assoc (stream l) bytes (sent es)
  run_link-stream r (drain ∷ es) l =
      run_link-stream r es _ ∙ ap (λ s. s ++ sent es) (flush_backlog-stream r l)
