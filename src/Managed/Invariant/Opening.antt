-- ===== src/Managed/Invariant/Opening.antt =====
-- `onOpen` of WormDB keeps its invariant, if its handshake throws nothing.
use wormdb.Managed.Invariant.{Inv, Within-zero}
use wormdb.Managed.State.{Db, SubEntry, is_some, is_ready}
use wormdb.Managed.{enqueue_pending, start_ping}
use wormdb.Base.{
  ℕ, Option, List, ◌≡◌, refl, inl, true, false, [], ◌∷◌, none, some, arith, ok, Result, err,
}
use wormdb.Wire.Bytes.{Bytes}
use wormdb.Managed.Open.{
  write_internal, write_subs, become_ready, on_open, handshake, write_auth, Written, then_subs,
}
use wormdb.Wire.Encode.{encode_command_frame, encode_auth}
use wormdb.Wire.Command.{sub}
use wormdb.Managed.Invariant.Methods.{resume-Inv}

module _ (answer : ℕ → Option ℕ) where
  -- The handshake has its socket from its first step on, and it dials no more.
  Opened : Db → Db → Type 0
  Opened s t =
      (is_some t.socket ≡ true)
      × (t.is_connecting ≡ false)
      × (t.config ≡ s.config)
      × (t.waiters ≡ s.waiters)

  write_internal-Opened :
      (r : Result Bytes) (s t : Db) → Opened s t → Opened s (write_internal answer r t).0
  unfolding write_internal enqueue_pending Opened
  write_internal-Opened (ok frame) s t o = o
  write_internal-Opened (err e) s t o = o

  write_subs-Opened :
      (es : List SubEntry) (s t : Db) → Opened s t → Opened s (write_subs answer es t).0
  unfolding write_subs
  write_subs-Opened [] s t o = o
  write_subs-Opened (e ∷ es) s t o =
      let w = write_internal-Opened (encode_command_frame (sub e.channel e.filter)) s t o in
      let more = write_subs-Opened es s t o in let rest = write_subs-Opened es s _ w in ground arith

  write_auth-Opened :
      (a : Option Bytes) (s t : Db) → Opened s t → Opened s (write_auth answer a t).0
  unfolding write_auth
  write_auth-Opened none s t o = o
  write_auth-Opened (some token) s t o = write_internal-Opened (encode_auth token) s t o

  then_subs-Opened :
      (es : List SubEntry) (s : Db) (w : Written)
      → Opened s w.0
      → Opened s (then_subs answer es w).0
  unfolding then_subs
  then_subs-Opened es s (t, none) o = write_subs-Opened es s t o
  then_subs-Opened es s (t, some e) o = o

  now_Opened :
      (s t : Db)
      → is_some t.socket ≡ true
      → t.is_connecting ≡ false
      → t.config ≡ s.config
      → t.waiters ≡ s.waiters
      → Opened s t
  unfolding Opened
  now_Opened s t a b c d = (a, b, c, d)

  handshake-Opened : (k : ℕ) (s : Db) → Opened s (handshake answer k s).0
  unfolding handshake
  handshake-Opened k s =
      then_subs-Opened s.subs s _
        (write_auth-Opened s.auth_token s _ (now_Opened s _ refl refl refl refl))

  pub handshake-waiters : (k : ℕ) (s : Db) → (handshake answer k s).0.waiters ≡ s.waiters
  unfolding Opened
  handshake-waiters k s = let (a, b, c, d) = handshake-Opened k s in d

  start_ping-Inv : (s : Db) → Inv s → is_ready s.state ≡ true → Inv (start_ping s)
  unfolding start_ping
  start_ping-Inv s v r =
      let a = v.ready_socket in
      let b = v.one_attempt in
      let c = v.on_its_way in let d = v.closed_empty in let f = v.bounded in ground arith

  become_ready-Inv :
      (s : Db) (w : Written) → w.1 ≡ none → Opened s w.0 → Inv (become_ready answer w)
  unfolding become_ready Opened
  become_ready-Inv s (t, none) h o = resume-Inv answer t.waiters _ (
      start_ping-Inv _
        (record {
          ready_socket = λ e. o.0;
          one_attempt = λ e. o.1;
          on_its_way = inl refl;
          pings_ready = λ e. refl;
          closed_empty = λ e. absurd (cc);
          bounded = Within-zero t.config.max_attempts;
        })
        refl)
  become_ready-Inv s (t, some e) h o = absurd (cc)

  pub on_open-Inv : (k : ℕ) (s : Db) → (handshake answer k s).1 ≡ none → Inv (on_open answer k s)
  unfolding on_open
  on_open-Inv k s h = become_ready-Inv s (handshake answer k s) h (handshake-Opened k s)
