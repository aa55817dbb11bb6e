-- ===== src/Wire/Frame/Laws.antt =====
-- What tryConsumeFrame takes off a buffer.
use wormdb.Base.{
  Option, ok, ltb, length, if◌then◌else◌, ◌∙◌, ℕ, suc, ◌+◌, ◌≡◌, refl, inl, inr, [], ◌∷◌, ◌++◌,
  none, some, arith, ◌⊎◌, ◌<◌, ◌≤◌, lt→ltb, take, drop, le→ltb, ◌-◌, ◌^◌, ap, ◌/◌, length-append,
  Bool-cases, take-append, ◌%◌, length-drop, drop-append, take-append_le, drop-append_le,
  ok-injective, sym,
}
use wormdb.Wire.Bytes.{Bytes, read_uint32_be, subarray, of_be32, be32}
use wormdb.Wire.Frame.{ParsedFrame, try_consume_frame}
use wormdb.Wire.Format.{frame_bytes}

-- On five bytes or more.
cut : ℕ → Bytes → ℕ → Option ParsedFrame
cut code rest len =
    if ltb (length rest) len
    then none
    else some (record { code = code; payload = take len rest; remaining = drop len rest })

pub try_consume_frame-short : (b : Bytes) → length b < 5 → try_consume_frame b ≡ ok none
unfolding try_consume_frame
try_consume_frame-short b h = rw (lt→ltb _ _ h)

consume_cut :
    (k a b c d : ℕ) (rest : Bytes) (n : ℕ)
    → (if ltb (length (k ∷ a ∷ b ∷ c ∷ d ∷ rest)) (5 + n)
        then ok none
        else ok (
            some (record {
              code = k;
              payload = subarray (k ∷ a ∷ b ∷ c ∷ d ∷ rest) 5 (5 + n);
              remaining = drop (5 + n) (k ∷ a ∷ b ∷ c ∷ d ∷ rest);
            })))
      ≡ ok (cut k rest n)
unfolding cut subarray
consume_cut k a b c d rest n =
    let e : 5 + n ≡ suc (suc (suc (suc (suc n)))) = omega arith in
    let f : suc (suc (suc (suc (suc n)))) - 5 ≡ n = omega arith in rw (e, f) (ground arith)

try_consume_frame-cut :
    (k a b c d : ℕ) (rest : Bytes)
    → try_consume_frame (k ∷ a ∷ b ∷ c ∷ d ∷ rest) ≡ ok (cut k rest (of_be32 a b c d))
unfolding try_consume_frame read_uint32_be
try_consume_frame-cut k a b c d rest =
    rw (le→ltb (length (k ∷ a ∷ b ∷ c ∷ d ∷ rest)) 5 (omega arith))
      (consume_cut k a b c d rest (of_be32 a b c d))

of_be32-digits :
    (n : ℕ)
    → n < 2 ^ 32
    → of_be32 (n / 2 ^ 24 % 256) (n / 2 ^ 16 % 256) (n / 2 ^ 8 % 256) (n % 256) ≡ n
unfolding of_be32
of_be32-digits n h = omega arith

cut-append :
    (k : ℕ) (payload rest : Bytes)
    → cut k (payload ++ rest) (length payload)
      ≡ some (record { code = k; payload = payload; remaining = rest })
unfolding cut
cut-append k payload rest = rw (
  le→ltb (length (payload ++ rest)) (length payload) (omega (arith, length-append payload rest)),
  take-append (length payload) payload rest refl,
  drop-append (length payload) payload rest refl,
)

-- A whole frame in front of anything is taken off, with its code and its payload.
pub try_consume_frame-frame_bytes :
    (code : ℕ) (payload rest : Bytes)
    → length payload < 2 ^ 32
    → try_consume_frame (frame_bytes code payload ++ rest)
      ≡ ok (some (record { code = code; payload = payload; remaining = rest }))
unfolding be32
try_consume_frame-frame_bytes code payload rest h =
    try_consume_frame-cut code _ _ _ _ (payload ++ rest)
    ∙ ap ok (rw (of_be32-digits (length payload) h) (cut-append code payload rest))

header_cases :
    (b : Bytes)
    → (length b < 5)
      ⊎ ((k : ℕ) × (p : ℕ) × (q : ℕ) × (r : ℕ) × (t : ℕ) × (rest : Bytes) × (b
            ≡ k ∷ p ∷ q ∷ r ∷ t ∷ rest))
header_cases [] = inl (omega arith)
header_cases (k ∷ []) = inl (omega arith)
header_cases (k ∷ p ∷ []) = inl (omega arith)
header_cases (k ∷ p ∷ q ∷ []) = inl (omega arith)
header_cases (k ∷ p ∷ q ∷ r ∷ []) = inl (omega arith)
header_cases (k ∷ p ∷ q ∷ r ∷ t ∷ rest) = inr (k, p, q, r, t, rest, refl)

-- tryConsumeFrame answers null or a frame, and never reads outside the buffer.
pub try_consume_frame_total : (b : Bytes) → (r : Option ParsedFrame) × (try_consume_frame b ≡ ok r)
try_consume_frame_total b = elim (header_cases b) [
  | inl short ↦ (none, try_consume_frame-short b short)
  | inr (k, p, q, r, t, rest, e) ↦
      (cut k rest (of_be32 p q r t), ap try_consume_frame e ∙ try_consume_frame-cut k p q r t rest)
]

pub consume_cases :
    (b : Bytes)
    → (try_consume_frame b ≡ ok none) ⊎ ((f : ParsedFrame) × (try_consume_frame b ≡ ok (some f)))
consume_cases b = let (r, e) = try_consume_frame_total b in split r e
  where
    split :
        (r : Option ParsedFrame)
        → try_consume_frame b ≡ ok r
        → (try_consume_frame b ≡ ok none)
          ⊎ ((f : ParsedFrame) × (try_consume_frame b ≡ ok (some f)))
    split none e = inl e
    split (some f) e = inr (f, e)

-- A frame takes at least its header, and bytes that arrive later only lengthen what remains.
cut_more :
    (k n : ℕ) (rest more : Bytes) (f : ParsedFrame)
    → cut k rest n ≡ some f
    → (length f.remaining ≤ length rest)
      × (cut k (rest ++ more) n ≡ some (record f { remaining = f.remaining ++ more }))
unfolding cut
cut_more k n rest more f e = elim (Bool-cases (ltb (length rest) n)) [
  | inl short ↦ absurd (cc (rw short at e))
  | inr enough ↦
      let fits : n ≤ length rest = ground arith in
      ground (
        arith,
        length-drop n rest,
        length-append rest more,
        take-append_le n rest more fits,
        drop-append_le n rest more fits,
      )
]

pub try_consume_frame_more :
    (b more : Bytes) (f : ParsedFrame)
    → try_consume_frame b ≡ ok (some f)
    → (length f.remaining < length b)
      × (try_consume_frame (b ++ more) ≡ ok (some (record f { remaining = f.remaining ++ more })))
try_consume_frame_more b more f e = elim (header_cases b) [
  | inl short ↦ absurd (cc (try_consume_frame-short b short))
  | inr (k, p, q, r, t, rest, h) ↦
      let (le, taken) = cut_more k (of_be32 p q r t) rest more f (
        ok-injective
          (sym (try_consume_frame-cut k p q r t rest) ∙ ap try_consume_frame (sym h) ∙ e)) in
      (
        omega (arith, ap length h),
        rw h (try_consume_frame-cut k p q r t (rest ++ more) ∙ ap ok taken),
      )
]
