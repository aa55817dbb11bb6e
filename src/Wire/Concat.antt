-- ===== src/Wire/Concat.antt =====
-- `concatBytes` of apps/bun/src/lib/wire.ts.
use wormdb.Base.{
  ℕ, ◌>>=◌, ◌∙◌, ◌+◌, ◌≡◌, refl, [], ◌∷◌, ◌++◌, arith, List, ok, length, Result, length-append, ap,
  append-nil, sym, append_assoc,
}
use wormdb.Wire.Bytes.{Bytes, zeros}
use wormdb.Wire.Encode.{Cursor, next_bytes}
use wormdb.Wire.Frame.Chunks.{flatten}
use wormdb.Wire.Encode.Filling.{filled, next_bytes-filled}
use mathlib.Core.Path.{ap₂}

-- `for (const chunk of chunks) total += chunk.length;`
pub total_length : ℕ → List Bytes → ℕ
total_length total [] = total
total_length total (chunk ∷ chunks) = total_length (total + length chunk) chunks

-- `out.set(chunk, offset); offset += chunk.length;` for each chunk.
pub set_chunks : List Bytes → Cursor → Result Cursor
set_chunks [] at = ok at
set_chunks (chunk ∷ chunks) at = do at ← next_bytes chunk at; set_chunks chunks at

pub concat_bytes : List Bytes → Result Bytes
concat_bytes chunks = do (out, _) ← set_chunks chunks (zeros (total_length 0 chunks), 0); ok out

total_length-flatten :
    (total : ℕ) (chunks : List Bytes) → total_length total chunks ≡ total + length (flatten chunks)
unfolding total_length
total_length-flatten total [] = omega arith
total_length-flatten total (chunk ∷ chunks) = omega (
  arith,
  total_length-flatten (total + length chunk) chunks,
  length-append chunk (flatten chunks),
)

set_chunks-filled :
    (chunks : List Bytes) (front : Bytes) (m : ℕ)
    → m ≡ length (flatten chunks)
    → set_chunks chunks (filled front m) ≡ ok (filled (front ++ flatten chunks) 0)
unfolding set_chunks
set_chunks-filled [] front m e = ap ok (ap₂ filled (sym (append-nil front)) e)
set_chunks-filled (chunk ∷ chunks) front m e =
    rw
      (next_bytes-filled front chunk m (length (flatten chunks))
        (omega (arith, e, length-append chunk (flatten chunks))))
      (set_chunks-filled chunks (front ++ chunk) (length (flatten chunks)) refl
        ∙ ap (λ b. ok (filled b 0)) (append_assoc front chunk (flatten chunks)))

-- concatBytes returns its chunks one after the other: each lies in the buffer that was allocated for
-- all of them, and fills it together with the others.
concat_bytes-flatten : (chunks : List Bytes) → concat_bytes chunks ≡ ok (flatten chunks)
unfolding concat_bytes
concat_bytes-flatten chunks =
    rw
      (set_chunks-filled chunks [] (total_length 0 chunks)
        (omega (arith, total_length-flatten 0 chunks)))
      (ap ok (append-nil (flatten chunks)))
