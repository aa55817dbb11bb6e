-- ===== src/Api/Laws.antt =====
-- What the positional calls and `get` of WormDB, apps/bun/src/lib/wormdb.ts, amount to.
use wormdb.Base.{
  Option, ◌>>=◌, ◌∙◌, ℕ, zero, suc, ◌+◌, ◌≡◌, refl, true, false, [], ◌∷◌, ◌++◌, none, some, arith,
  ◌≤◌, JsString, List, Bool, ok, ap, err, plain_error, ◌&&◌, not, ◌||◌, sym,
}
use wormdb.Api.{or_else, given, mint_args, mint_subject, mint_mode, get_result}
use wormdb.Api.Slots.{bump, count_given, pad, defaults, vsearch_args}
use wormdb.Text.{strip_bom, encode_utf8}
use wormdb.Wire.Response.Laws.{decode_response-write_response, Sized}
use mathlib.Core.Path.{ap₂}
use wormdb.Wire.Bytes.{Bytes}
use wormdb.Text.RoundTrip.{IsWellFormed, decode_utf8-encode_utf8}
use wormdb.Managed.State.{is_some}
use wormdb.Wire.Response.{value, write_response, decode_response}
use wormdb.Wire.Frame.{ParsedFrame, try_consume_frame}

-- A server that reads positional arguments takes the default where none is left.
abbrev pub fill : List JsString → List JsString → List JsString
fill as' [] = []
fill [] (d ∷ ds) = d ∷ ds
fill (a ∷ as') (d ∷ ds) = a ∷ fill as' ds

abbrev pub or_defaults : List (Option JsString) → List JsString → List JsString
or_defaults vs [] = []
or_defaults [] (d ∷ ds) = d ∷ ds
or_defaults (v ∷ vs) (d ∷ ds) = or_else v d ∷ or_defaults vs ds

-- Nothing is given behind the first `n` options.
abbrev Done : ℕ → List (Option JsString) → Type 0
Done n [] = Unit {0}
Done zero (v ∷ vs) = (v ≡ none) × Done zero vs
Done (suc n) (v ∷ vs) = Done n vs

or_defaults-none :
    (vs : List (Option JsString)) (ds : List JsString) → Done zero vs → or_defaults vs ds ≡ ds
or_defaults-none vs [] h = refl
or_defaults-none [] (d ∷ ds) h = refl
or_defaults-none (v ∷ vs) (d ∷ ds) (e, h) =
    ap₂ (λ u rest. u ∷ rest) (ap (λ o. or_else o d) e) (or_defaults-none vs ds h)

fill-nil : (ds : List JsString) → fill [] ds ≡ ds
fill-nil [] = refl
fill-nil (d ∷ ds) = refl

fill-pad :
    (n : ℕ) (vs : List (Option JsString)) (ds : List JsString)
    → Done n vs
    → fill (pad n vs ds) ds ≡ or_defaults vs ds
unfolding pad
fill-pad zero vs ds h = fill-nil ds ∙ sym (or_defaults-none vs ds h)
fill-pad (suc n) [] [] h = refl
fill-pad (suc n) [] (d ∷ ds) h = refl
fill-pad (suc n) (v ∷ vs) [] h = refl
fill-pad (suc n) (v ∷ vs) (d ∷ ds) h = ap (λ rest. or_else v d ∷ rest) (fill-pad n vs ds h)

grows : (i count : ℕ) (vs : List (Option JsString)) → count ≤ i → count ≤ count_given i count vs
unfolding count_given bump
grows i count [] h = omega arith
grows i count (none ∷ vs) h = grows (suc i) count vs (omega arith)
grows i count (some v ∷ vs) h = let a = grows (suc i) (suc i) vs (omega arith) in omega (arith, a)

-- No option is given at the count or behind it.
count_given-Done :
    (i count n : ℕ) (vs : List (Option JsString))
    → count ≤ i
    → count_given i count vs ≤ i + n
    → Done n vs
unfolding count_given bump
count_given-Done i count n [] h le = done_nil n
  where
    done_nil : (n : ℕ) → Done n []
    done_nil zero = tt
    done_nil (suc n) = tt
count_given-Done i count zero (none ∷ vs) h le =
    (refl, count_given-Done (suc i) count zero vs (omega arith) (omega (arith, le)))
count_given-Done i count zero (some v ∷ vs) h le =
    let a = grows (suc i) (suc i) vs (omega arith) in absurd (omega (arith, a, le))
count_given-Done i count (suc n) (none ∷ vs) h le =
    count_given-Done (suc i) count n vs (omega arith) (omega (arith, le))
count_given-Done i count (suc n) (some v ∷ vs) h le =
    count_given-Done (suc i) (suc i) n vs (omega arith) (omega (arith, le))

-- Behind the query key and the number of hits, `vsearch` sends as many arguments as a server that
-- puts the defaults for missing ones needs to see every option that was given, at its position, and
-- the default of every other.
pub vsearch_args-fill :
    (query_key top_k : JsString) (values : List (Option JsString))
    → (slots : List JsString) × (vsearch_args query_key top_k values ≡ query_key ∷ top_k ∷ slots)
      × (fill slots defaults ≡ or_defaults values defaults)
unfolding vsearch_args
vsearch_args-fill query_key top_k values = (
  _,
  refl,
  fill-pad (count_given 0 0 values) values defaults
      (count_given-Done 0 0 (count_given 0 0 values) values (omega arith) (omega arith)),
)

abbrev pub mint_gap : Option JsString → Option JsString → Option JsString → Bool
mint_gap ttl subject mode =
    (is_some subject && not (is_some ttl)) || (is_some mode && not (is_some subject))

-- authMintScoped sends the namespace and the given options in their order if no option is given
-- without the one before it, and throws otherwise.
pub mint_args_positional :
    (namespace : JsString) (ttl subject mode : Option JsString)
    → (mint_gap ttl subject mode ≡ false
        → mint_args namespace ttl subject mode
          ≡ ok (namespace ∷ given ttl ++ given subject ++ given mode))
      × (mint_gap ttl subject mode ≡ true
          → (e : JsString) × (mint_args namespace ttl subject mode ≡ err (plain_error e)))
unfolding mint_args mint_subject mint_mode given
mint_args_positional n none none none = (λ e. refl, λ e. absurd (cc))
mint_args_positional n (some t) none none = (λ e. refl, λ e. absurd (cc))
mint_args_positional n (some t) (some s) none = (λ e. refl, λ e. absurd (cc))
mint_args_positional n (some t) (some s) (some m) = (λ e. refl, λ e. absurd (cc))
mint_args_positional n none (some s) m = (λ e. absurd (cc), λ e. (_, refl))
mint_args_positional n none none (some m) = (λ e. absurd (cc), λ e. (_, refl))
mint_args_positional n (some t) none (some m) = (λ e. absurd (cc), λ e. (_, refl))

-- What the server sends as the value of a key, the UTF-8 bytes of a well-formed string, `get` gives
-- back as that string, less a byte order mark at its start. The bytes are fewer than 2^32.
pub get_result_stored :
    (s : JsString) (bytes rest : Bytes)
    → IsWellFormed s
    → Sized (value (some (encode_utf8 s)))
    → write_response (value (some (encode_utf8 s))) ≡ some bytes
    → (f : ParsedFrame) × (try_consume_frame (bytes ++ rest) ≡ ok (some f))
      × (f.remaining ≡ rest)
      × ((decode_response f.code f.payload >>= get_result) ≡ ok (some (strip_bom s)))
unfolding get_result
get_result_stored s bytes rest w z e =
    let (f, a, b, c) =
      decode_response-write_response (value (some (encode_utf8 s))) bytes rest z e in
    (f, a, b, ap (λ r. r >>= get_result) c ∙ ap (λ t. ok (some t)) (decode_utf8-encode_utf8 s w))
