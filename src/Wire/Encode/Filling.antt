-- ===== src/Wire/Encode/Filling.antt =====
-- What the encoders leave in their buffers: a filled front and zeros behind it.
use wormdb.Base.{
  ap, sym, length, append_assoc, length-append, length-replicate, take-append, drop-append_add, ℕ,
  suc, ◌+◌, ◌≡◌, refl, [], ◌∷◌, ◌++◌, arith, ◌<◌, lt→ltb, ok, Bool,
}
use wormdb.Wire.Bytes.{
  Bytes, zeros, be32, be64, length-be32, length-be64, put_next, write_uint32_be_next,
  write_uint64_be_next,
}
use wormdb.Wire.Encode.{
  store, Cursor, next_byte, next_uint64, next_bytes, next_uint32, next_field, vector_flags,
  worm_flag,
}
use native.Mathlib.Nat.{mod-eq_of_lt}
use wormdb.Wire.Format.{field}

-- A cursor behind `front`, with `n` bytes to go.
abbrev pub filled : Bytes → ℕ → Cursor
filled front n = (front ++ zeros n, length front)

pub store_next :
    (front : Bytes) (offset v m n : ℕ)
    → offset ≡ length front
    → m ≡ suc n
    → v < 256
    → store (front ++ zeros m) offset v ≡ (front ++ (v ∷ [])) ++ zeros n
unfolding store
store_next front offset v m n e f h =
    rw
      (
        lt→ltb offset (length (front ++ zeros m)) fits,
        take-append offset front (zeros m) e,
        drop-append_add front (zeros m) (offset + 1) 1 (omega arith),
        f,
        mod-eq_of_lt h,
      )
      (sym (append_assoc front (v ∷ []) (zeros n)))
  where
    fits : offset < length (front ++ zeros m)
    fits = omega (arith, length-append front (zeros m), length-replicate {A = ℕ} m 0)

pub next_uint32-filled :
    (front : Bytes) (v m n : ℕ)
    → m ≡ 4 + n
    → next_uint32 v (filled front m) ≡ ok (filled (front ++ be32 v) n)
unfolding next_uint32
next_uint32-filled front v m n e = rw (write_uint32_be_next front (length front) v m n refl e) (
    ap (λ k. ok ((front ++ be32 v) ++ zeros n, k))
      (omega (arith, length-append front (be32 v), length-be32 v)))

pub next_uint64-filled :
    (front : Bytes) (v m n : ℕ)
    → m ≡ 8 + n
    → next_uint64 v (filled front m) ≡ ok (filled (front ++ be64 v) n)
unfolding next_uint64
next_uint64-filled front v m n e = rw (write_uint64_be_next front (length front) v m n refl e) (
    ap (λ k. ok ((front ++ be64 v) ++ zeros n, k))
      (omega (arith, length-append front (be64 v), length-be64 v)))

pub next_bytes-filled :
    (front bytes : Bytes) (m n : ℕ)
    → m ≡ length bytes + n
    → next_bytes bytes (filled front m) ≡ ok (filled (front ++ bytes) n)
unfolding next_bytes
next_bytes-filled front bytes m n e =
    rw (put_next front bytes (length front) m n refl e)
      (ap (λ k. ok ((front ++ bytes) ++ zeros n, k)) (omega (arith, length-append front bytes)))

pub next_byte-filled :
    (front : Bytes) (v m n : ℕ)
    → m ≡ suc n
    → v < 256
    → next_byte v (filled front m) ≡ ok (filled (front ++ (v ∷ [])) n)
unfolding next_byte
next_byte-filled front v m n e h =
    rw (store_next front (length front) v m n refl e h) (
      ap (λ k. ok ((front ++ (v ∷ [])) ++ zeros n, k))
        (omega (arith, length-append front (v ∷ []))))

pub next_field-filled :
    (front bytes : Bytes) (m n : ℕ)
    → m ≡ 4 + length bytes + n
    → next_field bytes (filled front m) ≡ ok (filled (front ++ field bytes) n)
unfolding next_field
next_field-filled front bytes m n e = rw (
  next_uint32-filled front (length bytes) m (length bytes + n) (omega arith),
  next_bytes-filled (front ++ be32 (length bytes)) bytes (length bytes + n) n refl,
  append_assoc front (be32 (length bytes)) bytes,
)

pub worm_flag-lt : (worm : Bool) → worm_flag worm < 256
unfolding worm_flag
worm_flag-lt worm = ground arith

pub vector_flags-lt : (worm is_async : Bool) → vector_flags worm is_async < 256
unfolding vector_flags
vector_flags-lt worm is_async = ground arith
