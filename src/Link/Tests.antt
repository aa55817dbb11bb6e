-- ===== src/Link/Tests.antt =====
-- A socket that takes three bytes of each write.
use wormdb.Base.{Option, ℕ, zero, suc, ◌+◌, ◌≡◌, refl, [], ◌∷◌, ◌++◌, none, some, arith}
use wormdb.Link.{fresh_link}
use wormdb.Link.Cut.{flush_backlog_cuts}
use wormdb.Link.Order.{Reliable, stream, run_link, send, ReliableFrom, drain, run_link-stream}

abbrev three : ℕ → Option ℕ
three k = some 3

three-Reliable : Reliable three
three-Reliable k e = cc

run_link-stream_example :
    stream (run_link three (send (1 ∷ 2 ∷ 3 ∷ 4 ∷ []) ∷ send (5 ∷ 6 ∷ []) ∷ drain ∷ []) fresh_link)
    ≡ stream fresh_link ++ (1 ∷ 2 ∷ 3 ∷ 4 ∷ 5 ∷ 6 ∷ [])
run_link-stream_example =
    run_link-stream three three-Reliable
      (send (1 ∷ 2 ∷ 3 ∷ 4 ∷ []) ∷ send (5 ∷ 6 ∷ []) ∷ drain ∷ []) fresh_link

-- The first write takes two of three bytes, the second fails, and the third takes all.
abbrev flaky : ℕ → Option ℕ
flaky zero = some 2
flaky (suc zero) = none
flaky (suc (suc k)) = some 9

flaky-later : ReliableFrom flaky (fresh_link.calls + 2)
flaky-later zero h e = absurd (omega arith)
flaky-later (suc zero) h e = absurd (omega arith)
flaky-later (suc (suc k)) h e = cc

flush_backlog_cuts_example :
    stream (run_link flaky (send (1 ∷ 2 ∷ 3 ∷ []) ∷ send (4 ∷ 5 ∷ []) ∷ drain ∷ []) fresh_link)
    ≡ 1 ∷ 2 ∷ 4 ∷ 5 ∷ []
unfolding fresh_link
flush_backlog_cuts_example =
    flush_backlog_cuts flaky fresh_link (1 ∷ 2 ∷ 3 ∷ []) ((4 ∷ 5 ∷ []) ∷ []) 2 refl refl
      (omega arith) refl flaky-later
