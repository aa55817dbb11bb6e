-- ===== src/Wire/Bytes.antt =====
-- Byte buffers as the wire code uses them: a Uint8Array is the list of its bytes, and the helpers
-- at the end of apps/bun/src/lib/wire.ts read and write one at an offset.
use wormdb.Base.{
  ℕ, ◌+◌, ◌-◌, ◌*◌, ◌/◌, ◌%◌, ◌^◌, ◌≤◌, ◌<◌, ◌≡◌, refl, sym, ap, List, [], ◌∷◌, ◌++◌, arith, leb,
  if◌then◌else◌, length, take, drop, replicate, Result, ok, err, range_error, length-append,
  length-replicate, take-append, drop-append_add, drop-replicate, append_assoc, le→leb,
}

abbrev pub Bytes : Type 0
Bytes = List ℕ

abbrev pub IsByte : ℕ → Type 0
IsByte b = b < 256

-- `new Uint8Array(size)`.
abbrev pub zeros : ℕ → Bytes
zeros n = replicate n 0

-- `target.set(bytes, offset)`: a RangeError if the bytes do not fit.
unfoldable pub put : Bytes → ℕ → Bytes → Result Bytes
put target offset bytes =
    if leb (offset + length bytes) (length target)
    then ok (take offset target ++ (bytes ++ drop (offset + length bytes) target))
    else err range_error

-- The four bytes that `DataView.setUint32` stores, the value taken modulo 2^32.
unfoldable pub be32 : ℕ → Bytes
be32 v = (v / 2 ^ 24 % 256) ∷ (v / 2 ^ 16 % 256) ∷ (v / 2 ^ 8 % 256) ∷ (v % 256) ∷ []

unfoldable pub be64 : ℕ → Bytes
unfolding be32
be64 v = be32 (v / 2 ^ 32) ++ be32 v

pub write_uint32_be : Bytes → ℕ → ℕ → Result Bytes
write_uint32_be target offset value = put target offset (be32 value)

pub write_uint64_be : Bytes → ℕ → ℕ → Result Bytes
write_uint64_be target offset value = put target offset (be64 value)

unfoldable pub of_be32 : ℕ → ℕ → ℕ → ℕ → ℕ
of_be32 a b c d = a * 2 ^ 24 + b * 2 ^ 16 + c * 2 ^ 8 + d

-- The first four bytes as a number.
unfoldable pub head32 : Bytes → Result ℕ
unfolding of_be32
head32 (a ∷ b ∷ c ∷ d ∷ rest) = ok (of_be32 a b c d)
head32 _ = err range_error

-- `DataView.getUint32`: a RangeError if fewer than four bytes stand at the offset.
unfoldable pub read_uint32_be : Bytes → ℕ → Result ℕ
unfolding head32
read_uint32_be source offset = head32 (drop offset source)

-- `bytes.subarray(from, to)`, both ends clamped to the buffer.
unfoldable pub subarray : Bytes → ℕ → ℕ → Bytes
subarray bytes from to = take (to - from) (drop from bytes)

pub length-be32 : (v : ℕ) → length (be32 v) ≡ 4
unfolding be32
length-be32 v = refl

pub length-be64 : (v : ℕ) → length (be64 v) ≡ 8
unfolding be64
length-be64 v = refl

pub head32-be32 : (v : ℕ) (rest : Bytes) → v < 2 ^ 32 → head32 (be32 v ++ rest) ≡ ok v
unfolding head32 be32
head32-be32 v rest h = ap ok (omega arith)

-- Writing into the zeroed part of a buffer whose front is filled.
pub put_next :
    (front bytes : Bytes) (offset m n : ℕ)
    → offset ≡ length front
    → m ≡ length bytes + n
    → put (front ++ zeros m) offset bytes ≡ ok ((front ++ bytes) ++ zeros n)
unfolding put
put_next front bytes offset m n e f =
    rw
      (
        le→leb (offset + length bytes) (length (front ++ zeros m)) fits,
        take-append offset front (zeros m) e,
        drop-append_add front (zeros m) (offset + length bytes) (length bytes) (omega arith),
        f,
        drop-replicate {A = ℕ} (length bytes) n 0,
      )
      (ap ok (sym (append_assoc front bytes (zeros n))))
  where
    fits : offset + length bytes ≤ length (front ++ zeros m)
    fits = omega (arith, length-append front (zeros m), length-replicate {A = ℕ} m 0)

pub write_uint32_be_next :
    (front : Bytes) (offset v m n : ℕ)
    → offset ≡ length front
    → m ≡ 4 + n
    → write_uint32_be (front ++ zeros m) offset v ≡ ok ((front ++ be32 v) ++ zeros n)
unfolding write_uint32_be
write_uint32_be_next front offset v m n e f =
    put_next front (be32 v) offset m n e (omega (arith, length-be32 v))

pub write_uint64_be_next :
    (front : Bytes) (offset v m n : ℕ)
    → offset ≡ length front
    → m ≡ 8 + n
    → write_uint64_be (front ++ zeros m) offset v ≡ ok ((front ++ be64 v) ++ zeros n)
unfolding write_uint64_be
write_uint64_be_next front offset v m n e f =
    put_next front (be64 v) offset m n e (omega (arith, length-be64 v))
