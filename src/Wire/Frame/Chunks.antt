-- ===== src/Wire/Frame/Chunks.antt =====
-- The receive loop over a byte stream that arrives in chunks of any size.
use wormdb.Base.{
  ok, length, ◌∙◌, ℕ, zero, suc, ◌≡◌, inl, inr, [], ◌∷◌, ◌++◌, none, some, arith, ◌<◌, ◌^◌, List,
  sym, All, append-nil, append_assoc, subst, length-append, ok-injective, ap,
}
use wormdb.Wire.Bytes.{Bytes, be32, length-be32}
use wormdb.Wire.Frame.{ParsedFrame, try_consume_frame, receive, receive_loop, receive_chunks}
use wormdb.Wire.Frame.Laws.{
  consume_cases, try_consume_frame-short, try_consume_frame-frame_bytes, try_consume_frame_more,
}
use wormdb.Wire.Format.{frame_bytes}

-- The bytes of a list of frames.
abbrev pub wire_bytes : List (ℕ × Bytes) → Bytes
wire_bytes [] = []
wire_bytes ((code, payload) ∷ fs) = frame_bytes code payload ++ wire_bytes fs

abbrev pub flatten : List Bytes → Bytes
flatten [] = []
flatten (c ∷ cs) = c ++ flatten cs

abbrev pub Fits : ℕ × Bytes → Type 0
Fits f = length f.1 < 2 ^ 32

module _ {S : Type 0} (handle : S → ℕ → Bytes → S) where
  -- Every frame handed to `handle`, in order.
  abbrev pub handle_all : S → List (ℕ × Bytes) → S
  handle_all s [] = s
  handle_all s ((code, payload) ∷ fs) = handle_all (handle s code payload) fs

  loop_step :
      (n : ℕ) (s : S) (b : Bytes) (f : ParsedFrame)
      → try_consume_frame b ≡ ok (some f)
      → receive_loop handle (suc n) s b
        ≡ receive_loop handle n (handle s f.code f.payload) f.remaining
  unfolding receive_loop
  loop_step n s b f e = rw e

  loop_done :
      (n : ℕ) (s : S) (b : Bytes)
      → try_consume_frame b ≡ ok none
      → receive_loop handle (suc n) s b ≡ ok (s, b)
  unfolding receive_loop
  loop_done n s b e = rw e

  -- With enough fuel the loop ends, and no whole frame is left.
  loop_ends :
      (n : ℕ) (s : S) (b : Bytes)
      → length b < n
      → (s' : S) × (b' : Bytes) × (receive_loop handle n s b ≡ ok (s', b'))
        × (try_consume_frame b' ≡ ok none)
  loop_ends zero s b h = absurd (omega arith)
  loop_ends (suc n) s b h = elim (consume_cases b) [
    | inl e ↦ (s, b, loop_done n s b e, e)
    | inr (f, e) ↦
        let (s', b', run, rest) =
          loop_ends n (handle s f.code f.payload) f.remaining
            (omega (arith, try_consume_frame_more b [] f e)) in
        (s', b', loop_step n s b f e ∙ run, rest)
  ]

  -- More fuel than needed changes nothing.
  loop_fuel :
      (n m : ℕ) (s : S) (b : Bytes)
      → length b < n
      → length b < m
      → receive_loop handle n s b ≡ receive_loop handle m s b
  loop_fuel zero m s b h h' = absurd (omega arith)
  loop_fuel (suc n) zero s b h h' = absurd (omega arith)
  loop_fuel (suc n) (suc m) s b h h' = elim (consume_cases b) [
    | inl e ↦ loop_done n s b e ∙ sym (loop_done m s b e)
    | inr (f, e) ↦
        let shorter : length f.remaining < length b = (try_consume_frame_more b [] f e).0 in
        loop_step n s b f e
        ∙ loop_fuel n m (handle s f.code f.payload) f.remaining (omega arith) (omega arith)
        ∙ sym (loop_step m s b f e)
  ]

  -- A run over a buffer goes on as a run over what it left, with the bytes that came later behind.
  loop_more :
      (n m k : ℕ) (s : S) (b more : Bytes) (p : S × Bytes)
      → receive_loop handle n s b ≡ ok p
      → length (b ++ more) < m
      → length (p.1 ++ more) < k
      → receive_loop handle m s (b ++ more) ≡ receive_loop handle k p.0 (p.1 ++ more)
  loop_more zero m k s b more p r h h' = absurd (unfold receive_loop in cc)
  loop_more (suc n) zero k s b more p r h h' = absurd (omega arith)
  loop_more (suc n) (suc m) k s b more p r h h' = elim (consume_cases b) [
    | inl e ↦
        subst
          (λ q.
            length (q.1 ++ more) < k
            → receive_loop handle (suc m) s (b ++ more) ≡ receive_loop handle k q.0 (q.1 ++ more))
          (ok-injective (sym (loop_done n s b e) ∙ r)) (loop_fuel (suc m) k s (b ++ more) h) h'
    | inr (f, e) ↦
        let (shorter, taken) = try_consume_frame_more b more f e in
        loop_step m s (b ++ more) (record f { remaining = f.remaining ++ more }) taken
        ∙ loop_more n m k (handle s f.code f.payload) f.remaining more p
            (sym (loop_step n s b f e) ∙ r)
            (omega (arith, length-append f.remaining more, length-append b more)) h'
  ]

  -- Receiving two chunks one after the other is receiving them at once.
  pub receive-receive :
      (s : S) (b c d : Bytes) (p : S × Bytes)
      → receive handle s b c ≡ ok p
      → receive handle p.0 p.1 d ≡ receive handle s b (c ++ d)
  unfolding receive
  receive-receive s b c d p r =
      sym (
        loop_more (suc (length (b ++ c))) (suc (length ((b ++ c) ++ d))) (suc (length (p.1 ++ d))) s
          (b ++ c) d p r (omega arith) (omega arith))
      ∙ rw (append_assoc b c d)

  pub receive_ends :
      (s : S) (b c : Bytes)
      → (s' : S) × (b' : Bytes) × (receive handle s b c ≡ ok (s', b'))
        × (try_consume_frame b' ≡ ok none)
  unfolding receive
  receive_ends s b c = loop_ends (suc (length (b ++ c))) s (b ++ c) (omega arith)

  receive-nil :
      (s : S) (b : Bytes) → try_consume_frame b ≡ ok none → receive handle s b [] ≡ ok (s, b)
  unfolding receive
  receive-nil s b e = rw (append-nil b) (loop_done (length b) s b e)

  pub receive_chunks-flatten :
      (s : S) (b : Bytes) (cs : List Bytes)
      → try_consume_frame b ≡ ok none
      → receive_chunks handle s b cs ≡ receive handle s b (flatten cs)
  unfolding receive_chunks
  receive_chunks-flatten s b [] e = sym (receive-nil s b e)
  receive_chunks-flatten s b (c ∷ cs) e =
      let (s', b', r, e') = receive_ends s b c in
      rw r (receive_chunks-flatten s' b' cs e' ∙ receive-receive s b c (flatten cs) (s', b') r)

  loop-wire_bytes :
      (fs : List (ℕ × Bytes)) (n : ℕ) (s : S) (tail : Bytes)
      → All Fits fs
      → try_consume_frame tail ≡ ok none
      → length (wire_bytes fs ++ tail) < n
      → receive_loop handle n s (wire_bytes fs ++ tail) ≡ ok (handle_all s fs, tail)
  loop-wire_bytes fs zero s tail a e h = absurd (omega arith)
  loop-wire_bytes [] (suc n) s tail a e h = loop_done n s tail e
  loop-wire_bytes ((code, payload) ∷ fs) (suc n) s tail (a, as') e h =
      let taken = try_consume_frame-frame_bytes code payload (wire_bytes fs ++ tail) a in
      rw (append_assoc (frame_bytes code payload) (wire_bytes fs) tail) (
        loop_step n s _ _ taken
        ∙ loop-wire_bytes fs n (handle s code payload) tail as' e (
            omega (
              arith,
              length-append (wire_bytes fs) tail,
              length-append (frame_bytes code payload) (wire_bytes fs),
              length-append (wire_bytes ((code, payload) ∷ fs)) tail,
              length-append (be32 (length payload)) payload,
              length-be32 (length payload),
            )))

  -- However the network cuts the byte stream into chunks, the receive loop hands over the frames
  -- that were sent, each once and in order, and keeps the bytes of an unfinished frame; it neither
  -- fails nor runs on.
  pub receive_chunks-wire_bytes :
      (s : S) (chunks : List Bytes) (fs : List (ℕ × Bytes)) (tail : Bytes)
      → All Fits fs
      → try_consume_frame tail ≡ ok none
      → flatten chunks ≡ wire_bytes fs ++ tail
      → receive_chunks handle s [] chunks ≡ ok (handle_all s fs, tail)
  receive_chunks-wire_bytes s chunks fs tail a e cut =
      receive_chunks-flatten s [] chunks (try_consume_frame-short [] (omega arith))
      ∙ ap (receive handle s []) cut
      ∙ unfold receive in
        loop-wire_bytes fs (suc (length (wire_bytes fs ++ tail))) s tail a e (omega arith)

  -- What every frame keeps, a chunk keeps.
  loop_keeps :
      (P : S → Type 0)
      → ((s : S) (code : ℕ) (payload : Bytes) → P s → P (handle s code payload))
      → (n : ℕ) (s : S) (b : Bytes) (p : S × Bytes) → P s
      → receive_loop handle n s b ≡ ok p
      → P p.0
  loop_keeps P keep zero s b p h r = absurd (unfold receive_loop in cc)
  loop_keeps P keep (suc n) s b p h r = elim (consume_cases b) [
    | inl e ↦ subst (λ q. P q.0) (ok-injective (sym (loop_done n s b e) ∙ r)) h
    | inr (f, e) ↦
        loop_keeps P keep n (handle s f.code f.payload) f.remaining p (keep s f.code f.payload h)
          (sym (loop_step n s b f e) ∙ r)
  ]

  pub receive_keeps :
      (P : S → Type 0)
      → ((s : S) (code : ℕ) (payload : Bytes) → P s → P (handle s code payload))
      → (s : S) (b c : Bytes) (p : S × Bytes) → P s
      → receive handle s b c ≡ ok p
      → P p.0
  unfolding receive
  receive_keeps P keep s b c p h r = loop_keeps P keep (suc (length (b ++ c))) s (b ++ c) p h r

  -- A change of the state that `handle` does not see can be made before or after a chunk.
  loop_commutes :
      (g : S → S)
      → ((s : S) (code : ℕ) (payload : Bytes)
          → handle (g s) code payload ≡ g (handle s code payload))
      → (n : ℕ) (s : S) (b : Bytes) (p : S × Bytes) → receive_loop handle n s b ≡ ok p
      → receive_loop handle n (g s) b ≡ ok (g p.0, p.1)
  loop_commutes g h zero s b p r = absurd (unfold receive_loop in cc)
  loop_commutes g h (suc n) s b p r = elim (consume_cases b) [
    | inl e ↦
        loop_done n (g s) b e
        ∙ ap (λ q. ok (g q.0, q.1)) (ok-injective (sym (loop_done n s b e) ∙ r))
    | inr (f, e) ↦
        loop_step n (g s) b f e
        ∙ ap (λ t. receive_loop handle n t f.remaining) (h s f.code f.payload)
        ∙ loop_commutes g h n (handle s f.code f.payload) f.remaining p
            (sym (loop_step n s b f e) ∙ r)
  ]

  pub receive_commutes :
      (g : S → S)
      → ((s : S) (code : ℕ) (payload : Bytes)
          → handle (g s) code payload ≡ g (handle s code payload))
      → (s : S) (b c : Bytes) (p : S × Bytes) → receive handle s b c ≡ ok p
      → receive handle (g s) b c ≡ ok (g p.0, p.1)
  unfolding receive
  receive_commutes g h s b c p r = loop_commutes g h (suc (length (b ++ c))) s (b ++ c) p r
