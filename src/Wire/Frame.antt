-- ===== src/Wire/Frame.antt =====
-- Splitting the inbound bytes into frames: tryConsumeFrame of apps/bun/src/lib/wire.ts, and the
-- receive loop around it that the sockets' `data` callbacks share.
pub mod Laws
pub mod Chunks
use wormdb.Base.{
  Option, Result, ok, err, out_of_fuel, ltb, length, if◌then◌else◌, ◌>>=◌, ◌∙◌, ℕ, zero, suc, ◌+◌,
  ◌≡◌, refl, inl, inr, true, false, [], ◌∷◌, ◌++◌, none, some, arith, ◌⊎◌, ◌<◌, ◌≤◌, List, drop,
}
use wormdb.Wire.Bytes.{Bytes, read_uint32_be, subarray}

pub record ParsedFrame : Type 0 where
  pub code : ℕ
  pub payload : Bytes
  pub remaining : Bytes

-- `buffer[0]` of a buffer that is not empty.
unfoldable pub first_code : Bytes → ℕ
first_code [] = 0
first_code (b ∷ bs) = b

unfoldable pub try_consume_frame : Bytes → Result (Option ParsedFrame)
unfolding first_code
try_consume_frame buffer = if ltb (length buffer) 5 then ok none else (do
  payload_len ← read_uint32_be buffer 1
  let total_len = 5 + payload_len
  if ltb (length buffer) total_len
      then ok none
      else ok (
          some (record {
            code = first_code buffer;
            payload = subarray buffer 5 total_len;
            remaining = drop total_len buffer;
          })))

-- `while (true) { … }` of a `data` callback: frame after frame is handed to `handle`, and what is
-- no whole frame stays.
module _ {S : Type 0} (handle : S → ℕ → Bytes → S) where
  unfoldable pub receive_loop : ℕ → S → Bytes → Result (S × Bytes)
  receive_loop zero s inbound = err out_of_fuel
  receive_loop (suc fuel) s inbound = do
    frame ← try_consume_frame inbound
    elim frame [
      | none ↦ ok (s, inbound)
      | some f ↦ receive_loop fuel (handle s f.code f.payload) f.remaining
    ]

  -- One chunk: `inbound = concatBytes([inbound, chunk])`, then the loop. Each round takes five
  -- bytes at least, so the fuel is enough.
  unfoldable pub receive : S → Bytes → Bytes → Result (S × Bytes)
  receive s inbound chunk = receive_loop (suc (length (inbound ++ chunk))) s (inbound ++ chunk)

  unfoldable pub receive_chunks : S → Bytes → List Bytes → Result (S × Bytes)
  receive_chunks s inbound [] = ok (s, inbound)
  receive_chunks s inbound (c ∷ cs) = do
    (s', inbound') ← receive s inbound c
    receive_chunks s' inbound' cs
