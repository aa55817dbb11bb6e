-- ===== src/Dashboard/Kept.antt =====
-- What the receipt of bytes leaves alone in the dashboard's server, apps/bun/src/bin/ui.ts.
use wormdb.Base.{ℕ, ◌≡◌, refl, inl, inr, Result, ok, Bool-cases, err}
use wormdb.Dashboard.{Dashboard, on_data, handle_frame, announce, broadcast, is_current}
use wormdb.Wire.Response.{
  WormResponse, event, bulk, done, error, null, decode_response, is_event_code,
}
use wormdb.Wire.Bytes.{Bytes}
use wormdb.Wire.Frame.Chunks.{receive_ends, receive_keeps}

-- `t` has the pool and the subscription of `s`.
pub record Kept (s t : Dashboard) : Type 0 where
  pub same_active : t.active ≡ s.active
  pub same_known : t.known ≡ s.known
  pub same_socket : t.event_socket ≡ s.event_socket
  pub same_connecting : t.is_connecting ≡ s.is_connecting
  pub same_timer : t.timer ≡ s.timer

pub Kept-refl : (s : Dashboard) → Kept s s
Kept-refl s = record {
  same_active = refl;
  same_known = refl;
  same_socket = refl;
  same_connecting = refl;
  same_timer = refl;
}

announce-Kept : (r : Result WormResponse) (s t : Dashboard) → Kept s t → Kept s (announce r t)
unfolding announce broadcast
announce-Kept (ok (event channel message)) s t k = record {
  same_active = k.same_active;
  same_known = k.same_known;
  same_socket = k.same_socket;
  same_connecting = k.same_connecting;
  same_timer = k.same_timer;
}
announce-Kept (ok (bulk v)) s t k = k
announce-Kept (ok (error m)) s t k = k
announce-Kept (ok done) s t k = k
announce-Kept (ok null) s t k = k
announce-Kept (err e) s t k = k

handle_frame-Kept :
    (s t : Dashboard) (code : ℕ) (payload : Bytes) → Kept s t → Kept s (handle_frame t code payload)
unfolding handle_frame
handle_frame-Kept s t code payload k =
    let told = announce-Kept (decode_response code payload) s t k in
    elim (Bool-cases (is_event_code code)) [ inl e ↦ rw e told | inr e ↦ rw e k ]

-- Bytes that arrive never make `data` fail, and change neither the pool nor the subscription.
pub on_data-Kept :
    (k : ℕ) (chunk : Bytes) (s : Dashboard)
    → (t : Dashboard) × (on_data k chunk s ≡ ok t) × Kept s t
unfolding on_data
on_data-Kept k chunk s =
    let (t, rest, e, _) = receive_ends handle_frame s s.inbound chunk in
    let kept =
      receive_keeps handle_frame (Kept s) (λ u c p h. handle_frame-Kept s u c p h) s s.inbound chunk
        (t, rest) (Kept-refl s) e in
    elim (Bool-cases (is_current k s.event_socket)) [
      | inl c ↦ (
        record t { inbound = rest },
        rw (c, e),
        record {
          same_active = kept.same_active;
          same_known = kept.same_known;
          same_socket = kept.same_socket;
          same_connecting = kept.same_connecting;
          same_timer = kept.same_timer;
        },
      )
      | inr c ↦ (s, rw c, Kept-refl s)
    ]
