-- ===== src/Base/Results.antt =====
-- What a function of the clients returns or throws.
use Prim.Native.Nat.{ℕ}
use mathlib.Core.Path.{◌≡◌, refl}
use mathlib.Core.List.{List}
use mathlib.Core.Option.{some}

-- A JavaScript string: its UTF-16 code units.
abbrev pub JsString : Type 0
JsString = List ℕ

-- The errors that the client code throws, or that the platform throws inside it. `out_of_fuel` is
-- no JavaScript error: a loop of the model would have run on.
pub data Error : Type 0 where
  range_error : Error
  out_of_fuel : Error
  payload_too_large : ℕ → Error
  timed_out : ℕ → Error
  connection_closed : Error
  server_error : JsString → Error
  plain_error : JsString → Error

-- A promise that is fulfilled or a function that returns is `ok`; what is thrown is in `err`.
pub data Result {ℓ} (Value : Type ℓ) : Type ℓ where
  err : Error → Result Value
  ok : Value → Result Value

infixl 5 ◌>>=◌
abbrev pub ◌>>=◌ {ℓ κ} : {X : Type ℓ} {Y : Type κ} → Result X → (X → Result Y) → Result Y
err thrown >>= next = err thrown
ok x >>= next = next x

pub ok-injective {ℓ} : {X : Type ℓ} {x y : X} → ok x ≡ ok y → x ≡ y
ok-injective same = cc

pub some-inj {ℓ} : {X : Type ℓ} {x y : X} → some x ≡ some y → x ≡ y
some-inj same = cc

-- What a chain returns comes from what its first part returned.
pub >>=-eq-ok {ℓ κ} :
    {X : Type ℓ} {Y : Type κ} (first : Result X) (next : X → Result Y) {y : Y}
    → (first >>= next) ≡ ok y
    → (x : X) × (first ≡ ok x) × (next x ≡ ok y)
>>=-eq-ok (err thrown) next h = absurd (cc)
>>=-eq-ok (ok x) next h = (x, refl, h)
