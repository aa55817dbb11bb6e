-- ===== src/Dashboard/Keys.antt =====
-- The text `host:port` tells endpoints apart.
use wormdb.Base.{
  Bool, ◌∙◌, ℕ, zero, suc, ◌+◌, ◌≡◌, refl, inl, inr, true, false, [], ◌∷◌, ◌++◌, arith, ◌<◌, ◌≤◌,
  JsString, not, ◌*◌, ◌/◌, ◌%◌, ◌-◌, ◌==◌, ◌&&◌, Bool-cases, sym, ltb, ap,
}
use wormdb.Managed.Subscribe.{same_text}
use wormdb.Text.{digits_loop, decimal}
use wormdb.Dashboard.{key}
use wormdb.Dashboard.Peers.{Endpoint}

pub same_text_refl : (s : JsString) → same_text s s ≡ true
unfolding same_text
same_text_refl [] = refl
same_text_refl (c ∷ s) = let rest = same_text_refl s in ground arith

pub same_text_eq : (s t : JsString) → same_text s t ≡ true → s ≡ t
unfolding same_text
same_text_eq [] [] h = refl
same_text_eq [] (d ∷ t) h = absurd (cc)
same_text_eq (c ∷ s) [] h = absurd (cc)
same_text_eq (c ∷ s) (d ∷ t) h =
    let heads : c ≡ d = ground arith in let tails : s ≡ t = same_text_eq s t (ground arith) in cc

-- No colon.
abbrev no_colon : JsString → Bool
no_colon [] = true
no_colon (c ∷ s) = not (c == 58) && no_colon s

no_colon-append :
    (s t : JsString) → no_colon s ≡ true → no_colon t ≡ true → no_colon (s ++ t) ≡ true
no_colon-append [] t h k = k
no_colon-append (c ∷ s) t h k = let rest = no_colon-append s t (ground arith) k in ground arith

no_colon-digits_loop : (fuel n : ℕ) → no_colon (digits_loop fuel n) ≡ true
unfolding digits_loop
no_colon-digits_loop zero n = refl
no_colon-digits_loop (suc fuel) n =
    let rest =
      no_colon-append (digits_loop fuel (n / 10)) ((48 + n % 10) ∷ [])
        (no_colon-digits_loop fuel (n / 10)) (ground arith) in
    ground arith

colon_inside : (s t : JsString) → no_colon (s ++ (58 ∷ t)) ≡ false
colon_inside [] t = refl
colon_inside (c ∷ s) t = let rest = colon_inside s t in ground arith

-- The number that digits stand for.
abbrev number_of : ℕ → JsString → ℕ
number_of n [] = n
number_of n (c ∷ s) = number_of (n * 10 + (c - 48)) s

number_of-append :
    (n c : ℕ) (s : JsString) → number_of n (s ++ (c ∷ [])) ≡ number_of n s * 10 + (c - 48)
number_of-append n c [] = refl
number_of-append n c (d ∷ s) = number_of-append (n * 10 + (d - 48)) c s

number_of-digits_loop : (fuel n : ℕ) → n < fuel → number_of 0 (digits_loop fuel n) ≡ n
unfolding digits_loop
number_of-digits_loop zero n h = absurd (omega arith)
number_of-digits_loop (suc fuel) n h = elim (Bool-cases (ltb n 10)) [
  | inl small ↦ rw small (omega arith)
  | inr big ↦
      let large : 10 ≤ n = ground (arith, big) in
      let below = number_of-digits_loop fuel (n / 10) (omega arith) in
      rw big (number_of-append 0 (48 + n % 10) (digits_loop fuel (n / 10)) ∙ omega (arith, below))
]

decimal-injective : (m n : ℕ) → decimal m ≡ decimal n → m ≡ n
unfolding decimal
decimal-injective m n e =
    sym (number_of-digits_loop (suc m) m (omega arith))
    ∙ ap (number_of 0) e
    ∙ number_of-digits_loop (suc n) n (omega arith)

-- What stands before and behind the only colon of the second part.
split_key :
    (s t : JsString) (d e : JsString)
    → no_colon d ≡ true
    → no_colon e ≡ true
    → s ++ (58 ∷ d) ≡ t ++ (58 ∷ e)
    → (s ≡ t) × (d ≡ e)
split_key [] [] d e h k same = (refl, cc)
split_key [] (c ∷ t) d e h k same =
    let tails : d ≡ t ++ (58 ∷ e) = cc in absurd (cc (h, tails, colon_inside t e))
split_key (c ∷ s) [] d e h k same =
    let tails : s ++ (58 ∷ d) ≡ e = cc in absurd (cc (k, tails, colon_inside s d))
split_key (b ∷ s) (c ∷ t) d e h k same =
    let heads : b ≡ c = cc in let (x, y) = split_key s t d e h k (cc) in (cc, y)

-- Endpoints with the same key have the same host and the same port.
pub key-injective : (x y : Endpoint) → key x ≡ key y → (x.host ≡ y.host) × (x.port ≡ y.port)
unfolding key decimal
key-injective x y e =
    let (h, d) =
      split_key x.host y.host (decimal x.port) (decimal y.port)
        (no_colon-digits_loop (suc x.port) x.port) (no_colon-digits_loop (suc y.port) y.port) e in
    (h, decimal-injective x.port y.port d)
