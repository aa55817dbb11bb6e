-- ===== src/Managed/Invariant.antt =====
-- The invariant of the connection engine.
pub mod Methods
pub mod Opening
pub mod Steps
use wormdb.Base.{
  Option, Error, ℕ, ◌+◌, ◌≡◌, refl, inl, true, false, [], none, some, arith, ◌⊎◌, ◌≤◌, inr,
  Bool-cases, timed_out, ◌>>=◌, ◌∙◌, zero, suc, ◌∷◌, ◌++◌, ◌<◌,
}
use wormdb.Managed.State.{Db, Config, is_some, is_ready, is_closed, reconnecting, Outcome}
use wormdb.Managed.Events.{new_db}
use wormdb.Managed.{
  handle_disconnect, schedule_reconnect, reject_ready_waiters, after_disconnect, exhausted,
  reject_all_pending, stop_ping, drop_link, cause_of, on_connect_failed, fail_connection,
  on_request_timeout, on_reconnect_timer, settle, close, open_socket,
}

abbrev pub Within : Option ℕ → ℕ → Type 0
Within none attempts = Unit {0}
Within (some n) attempts = attempts ≤ n

-- A ready client has a socket; it never dials while a reconnect is scheduled; a request that waits
-- for a connection has one on its way; the ping runs only when ready; a closed client has no
-- request that waits; and the reconnect attempts stay within their limit.
pub record Inv (s : Db) : Type 0 where
  pub ready_socket : is_ready s.state ≡ true → is_some s.socket ≡ true
  pub one_attempt : is_some s.reconnect_timer ≡ true → s.is_connecting ≡ false
  pub on_its_way :
      (s.waiters ≡ []) ⊎ ((s.is_connecting ≡ true) ⊎ (is_some s.reconnect_timer ≡ true))
  pub pings_ready : s.ping_timer ≡ true → is_ready s.state ≡ true
  pub closed_empty : is_closed s.state ≡ true → s.waiters ≡ []
  pub bounded : Within s.config.max_attempts s.attempts

pub Within-zero : (o : Option ℕ) → Within o 0
Within-zero none = tt
Within-zero (some n) = omega arith

pub new_db-Inv : (c : Config) → Inv (new_db c)
unfolding new_db
new_db-Inv c = record {
  ready_socket = λ e. cc;
  one_attempt = λ e. cc;
  on_its_way = inl refl;
  pings_ready = λ e. cc;
  closed_empty = λ e. refl;
  bounded = Within-zero c.max_attempts;
}

next-Within : (o : Option ℕ) (n : ℕ) → exhausted o n ≡ false → Within o n → Within o (n + 1)
unfolding exhausted
next-Within none n e w = tt
next-Within (some m) n e w = ground arith

-- What a teardown leaves, whatever the state still says.
record Torn (s : Db) : Type 0 where
  no_ping : s.ping_timer ≡ false
  torn_attempt : is_some s.reconnect_timer ≡ true → s.is_connecting ≡ false
  torn_empty : is_closed s.state ≡ true → s.waiters ≡ []
  torn_bounded : Within s.config.max_attempts s.attempts

schedule_reconnect-Inv :
    (s : Db)
    → (is_ready s.state ≡ false)
    → (is_closed s.state ≡ false)
    → Torn s
    → Inv (schedule_reconnect s)
unfolding schedule_reconnect reject_ready_waiters
schedule_reconnect-Inv s r c t =
    let n = t.no_ping in
    let a = t.torn_attempt in
    let w = t.torn_bounded in let x = next-Within s.config.max_attempts s.attempts in ground arith

after_disconnect-Inv : (e : Error) (s : Db) → Torn s → Inv (after_disconnect e s)
unfolding after_disconnect reject_ready_waiters
after_disconnect-Inv e s t =
    let n = t.no_ping in
    let a = t.torn_attempt in
    let w = t.torn_bounded in
    let m = t.torn_empty in
    let x =
      schedule_reconnect-Inv (record s { state = reconnecting }) refl refl
        (record {
          no_ping = t.no_ping;
          torn_attempt = t.torn_attempt;
          torn_empty = λ e. absurd (cc);
          torn_bounded = t.torn_bounded;
        }) in
    ground arith

module _ (s : Db) (v : Inv s) where
  pub handle_disconnect-Inv : (cause : Option Error) → Inv (handle_disconnect cause s)
  unfolding handle_disconnect reject_all_pending stop_ping drop_link
  handle_disconnect-Inv cause = after_disconnect-Inv (cause_of cause) _ (record {
    no_ping = refl;
    torn_attempt = v.one_attempt;
    torn_empty = v.closed_empty;
    torn_bounded = v.bounded;
  })

  pub on_connect_failed-Inv : (e : Error) → Inv (on_connect_failed e s)
  unfolding on_connect_failed handle_disconnect reject_all_pending stop_ping drop_link
  on_connect_failed-Inv e = after_disconnect-Inv (cause_of (some e)) _ (record {
    no_ping = refl;
    torn_attempt = λ h. refl;
    torn_empty = v.closed_empty;
    torn_bounded = v.bounded;
  })

  pub fail_connection-Inv : (e : Error) → Inv (fail_connection e s)
  unfolding fail_connection reject_all_pending handle_disconnect stop_ping drop_link
  fail_connection-Inv e = elim (Bool-cases (is_some s.socket)) [
    | inl y ↦ rw y (
        after_disconnect-Inv (cause_of none) _ (record {
          no_ping = refl;
          torn_attempt = v.one_attempt;
          torn_empty = v.closed_empty;
          torn_bounded = v.bounded;
        }))
    | inr n ↦ rw n (record {
      ready_socket = v.ready_socket;
      one_attempt = v.one_attempt;
      on_its_way = v.on_its_way;
      pings_ready = v.pings_ready;
      closed_empty = v.closed_empty;
      bounded = v.bounded;
    })
  ]

  pub close-Inv : Inv (close s)
  unfolding close drop_link reject_ready_waiters reject_all_pending stop_ping
  close-Inv = record {
    ready_socket = λ e. absurd (cc);
    one_attempt = λ e. absurd (cc);
    on_its_way = inl refl;
    pings_ready = λ e. absurd (cc);
    closed_empty = λ e. refl;
    bounded = v.bounded;
  }

  pub on_reconnect_timer-Inv : Inv (on_reconnect_timer s)
  unfolding on_reconnect_timer open_socket
  on_reconnect_timer-Inv =
      let a = v.ready_socket in
      let b = v.one_attempt in
      let c = v.on_its_way in
      let d = v.pings_ready in let f = v.closed_empty in let g = v.bounded in ground arith

  pub on_request_timeout-Inv : (n : ℕ) → Inv (on_request_timeout n s)
  unfolding on_request_timeout
  on_request_timeout-Inv n =
      let f = fail_connection-Inv (timed_out s.config.timeout_ms) in ground arith

  pub settle-Inv : (id : ℕ) (o : Outcome) → Inv (settle id o s)
  unfolding settle
  settle-Inv id o = record {
    ready_socket = v.ready_socket;
    one_attempt = v.one_attempt;
    on_its_way = v.on_its_way;
    pings_ready = v.pings_ready;
    closed_empty = v.closed_empty;
    bounded = v.bounded;
  }
