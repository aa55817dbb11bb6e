-- ===== src/Wire/Encode/Payloads.antt =====
-- Each payload encoder fills its buffer exactly with the bytes of the format.
use wormdb.Base.{
  ap, sym, ◌∙◌, length, append_assoc, append-nil, length-append, List, Bool, ok, ℕ, ◌+◌, ◌≡◌, refl,
  [], ◌∷◌, ◌++◌, none, some, arith, Option,
}
use wormdb.Wire.Bytes.{Bytes, zeros, be32, put_next, length-be32, write_uint32_be_next}
use wormdb.Wire.Encode.{
  encode_len_prefixed, write_args, encode_exec, write_two, args_size, encode_sub, encode_pair,
  encode_set, worm_flag,
}
use wormdb.Wire.Encode.Filling.{
  filled, store_next, next_field-filled, worm_flag-lt, next_uint32-filled,
}
use wormdb.Wire.Format.{field, fields, optional_field}
use mathlib.Core.Path.{ap₂}

-- The payload of a full cursor.
pub full : (front : Bytes) → front ++ zeros 0 ≡ front
full front = append-nil front

pub write_two_lem :
    (front a b : Bytes) (start m : ℕ)
    → start ≡ length front
    → m ≡ 4 + length a + (4 + length b)
    → write_two (front ++ zeros m) start a b ≡ ok (front ++ (field a ++ field b))
unfolding write_two
write_two_lem front a b start m e f =
    rw
      (
        write_uint32_be_next front start (length a) m (length a + (4 + length b)) e (omega arith),
        put_next (front ++ be32 (length a)) a (start + 4) (length a + (4 + length b)) (4 + length b)
            (omega (arith, length-append front (be32 (length a)), length-be32 (length a))) refl,
        write_uint32_be_next ((front ++ be32 (length a)) ++ a) (start + 4 + length a) (length b)
            (4 + length b) (length b)
            (omega (
              arith,
              length-append front (be32 (length a)),
              length-be32 (length a),
              length-append (front ++ be32 (length a)) a,
            ))
            refl,
        put_next (((front ++ be32 (length a)) ++ a) ++ be32 (length b)) b (start + 4 + length a + 4)
            (length b) 0
            (omega (
              arith,
              length-append front (be32 (length a)),
              length-be32 (length a),
              length-append (front ++ be32 (length a)) a,
              length-be32 (length b),
              length-append ((front ++ be32 (length a)) ++ a) (be32 (length b)),
            ))
            (omega arith),
      )
      (ap ok (simp (append-nil, append_assoc)))

pub encode_len_prefixed-field : (bytes : Bytes) → encode_len_prefixed bytes ≡ ok (field bytes)
unfolding encode_len_prefixed
encode_len_prefixed-field bytes =
    rw
      (
        write_uint32_be_next [] 0 (length bytes) (4 + length bytes) (length bytes) refl refl,
        put_next (be32 (length bytes)) bytes 4 (length bytes) 0
            (omega (arith, length-be32 (length bytes))) (omega arith),
      )
      (ap ok (append-nil _))

pub encode_sub-fields :
    (channel : Bytes) (filter : Option Bytes)
    → encode_sub channel filter ≡ ok (field channel ++ optional_field filter)
unfolding encode_sub
encode_sub-fields channel none =
    encode_len_prefixed-field channel ∙ ap ok (sym (append-nil (field channel)))
encode_sub-fields channel (some filter) = write_two_lem [] channel filter 0 _ refl refl

pub encode_pair-fields : (a b : Bytes) → encode_pair a b ≡ ok (field a ++ field b)
unfolding encode_pair
encode_pair-fields a b = write_two_lem [] a b 0 _ refl (omega arith)

pub encode_set-fields :
    (key value : Bytes) (worm : Bool)
    → encode_set key value worm ≡ ok ((worm_flag worm ∷ []) ++ (field key ++ field value))
unfolding encode_set
encode_set-fields key value worm =
    rw
      (store_next [] 0 (worm_flag worm) (1 + 4 + length key + 4 + length value)
        (4 + length key + (4 + length value)) refl (omega arith) (worm_flag-lt worm))
      (write_two_lem (worm_flag worm ∷ []) key value 1 _ refl refl)

pub args_size-fields :
    (size : ℕ) (as' : List Bytes) → args_size size as' ≡ size + length (fields as')
unfolding args_size
args_size-fields size [] = omega arith
args_size-fields size (a ∷ as') = omega (
  arith,
  args_size-fields (size + (4 + length a)) as',
  length-append (field a) (fields as'),
  length-append (be32 (length a)) a,
  length-be32 (length a),
)

pub write_args-filled :
    (as' : List Bytes) (front : Bytes) (m n : ℕ)
    → m ≡ length (fields as') + n
    → write_args as' (filled front m) ≡ ok (filled (front ++ fields as') n)
unfolding write_args
write_args-filled [] front m n e = ap ok (ap₂ filled (sym (append-nil front)) (omega arith))
write_args-filled (a ∷ as') front m n e =
    rw
      (
        next_field-filled front a m (length (fields as') + n) (
            omega (
              arith,
              length-append (field a) (fields as'),
              length-append (be32 (length a)) a,
              length-be32 (length a),
            )),
        write_args-filled as' (front ++ field a) (length (fields as') + n) n refl,
      )
      (ap (λ bs. ok (filled bs n)) (append_assoc front (field a) (fields as')))

pub encode_exec-fields :
    (proc : Bytes) (args : List Bytes)
    → encode_exec proc args ≡ ok (field proc ++ (be32 (length args) ++ fields args))
unfolding encode_exec
encode_exec-fields proc args =
    rw
      (
        next_field-filled [] proc (args_size (4 + length proc + 4) args) (4 + length (fields args))
            (omega (arith, args_size-fields (4 + length proc + 4) args)),
        next_uint32-filled (field proc) (length args) (4 + length (fields args))
            (length (fields args)) refl,
        write_args-filled args (field proc ++ be32 (length args)) (length (fields args)) 0
            (omega arith),
      )
      (ap ok (simp (append-nil, append_assoc)))
