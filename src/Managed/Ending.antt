-- ===== src/Managed/Ending.antt =====
-- What `close()` of WormDB, apps/bun/src/lib/wormdb.ts, does while a dial is under way.
use wormdb.Base.{
  ◌∙◌, ℕ, ◌≡◌, refl, true, [], ◌∷◌, none, some, arith, Option, List, ok, subst, ok-injective,
}
use wormdb.Managed.State.{Db, is_ready, ready}
use wormdb.Managed.{reject_ready_waiters, drop_link, close, resume, start_ping}
use wormdb.Managed.Events.{step, run, opened, close_called}
use wormdb.Managed.Open.{on_open, handshake, become_ready, Written}
use wormdb.Managed.Invariant.Opening.{handshake-waiters}
use wormdb.Wire.Bytes.{Bytes}

close-waiters : (s : Db) → (close s).waiters ≡ []
unfolding close drop_link reject_ready_waiters
close-waiters s = refl

module _ (answer : ℕ → Option ℕ) where
  become_ready-is_ready :
      (w : Written) → w.1 ≡ none → w.0.waiters ≡ [] → is_ready (become_ready answer w).state ≡ true
  unfolding become_ready resume start_ping
  become_ready-is_ready (t, none) h e = no_waiters t.waiters e
    where
      no_waiters :
          (ws : List (ℕ × Bytes))
          → ws ≡ []
          → is_ready
              (resume answer ws
                (start_ping (record t { state = ready; attempts = 0; waiters = [] }))).state
            ≡ true
      no_waiters [] x = ground arith
      no_waiters (w ∷ ws) x = absurd (cc)
  become_ready-is_ready (t, some x) h e = absurd (cc)

  -- A client that is closed while it dials is ready again when the dial succeeds, if the handshake
  -- throws nothing.
  pub close_while_dialling :
      (k : ℕ) (s t : Db)
      → (handshake answer k (close s)).1 ≡ none
      → run answer (close_called ∷ opened k ∷ []) s ≡ ok t
      → is_ready t.state ≡ true
  unfolding run step on_open
  close_while_dialling k s t h r =
      subst (λ (x : Db). is_ready x.state ≡ true) (ok-injective r)
        (become_ready-is_ready (handshake answer k (close s)) h
          (handshake-waiters answer k (close s) ∙ close-waiters s))
