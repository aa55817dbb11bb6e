-- ===== src/AgentMemory/Filter.antt =====
-- The filter that MemClient.query sends, examples/agent-memory/client/mem.ts.
use wormdb.AgentMemory.{matches_letters, filter_text, prefixed}
use wormdb.TextProtocol.{is_space, trim_start, trim_end, kept_end, trimmed}
use wormdb.TextCommand.Words.{Blank}
use wormdb.Base.{
  JsString, ℕ, ◌≡◌, ◌∷◌, ◌++◌, [], true, false, ◌⊎◌, inl, arith, ◌≤◌, refl, ◌+◌, inr, none, some,
  Bool-cases, ◌==◌, Option, ap, ◌∙◌, subst, sym, append_assoc,
}
use wormdb.Wire.Command.{Arg, text}
use wormdb.Text.{codes}

-- A letter of either case for a small one; any other character for itself.
abbrev pub Letter : ℕ → ℕ → Type 0
Letter p c = (c ≡ p) ⊎ ((97 ≤ p) × (p ≤ 122) × (c + 32 ≡ p))

-- A text that begins with a given one, in small or capital letters.
abbrev pub Begins : JsString → JsString → Type 0
Begins [] s = Unit {0}
Begins (p ∷ ps) [] = ⊥
Begins (p ∷ ps) (c ∷ s) = Letter p c × Begins ps s

matches_letters-Begins : (p s : JsString) → matches_letters p s ≡ true → Begins p s
unfolding matches_letters
matches_letters-Begins [] s h = tt
matches_letters-Begins (p ∷ ps) [] h = absurd (cc)
matches_letters-Begins (p ∷ ps) (c ∷ s) h =
    let rest : matches_letters ps s ≡ true = ground arith in
    (letter (Bool-cases (c == p)), matches_letters-Begins ps s rest)
  where
    letter : ((c == p) ≡ true) ⊎ ((c == p) ≡ false) → Letter p c
    letter (inl e) = inl (ground arith)
    letter (inr e) = inr (ground arith)

Begins-matches_letters : (p s : JsString) → Begins p s → matches_letters p s ≡ true
unfolding matches_letters
Begins-matches_letters [] s h = refl
Begins-matches_letters (p ∷ ps) [] h = absurd h
Begins-matches_letters (p ∷ ps) (c ∷ s) (inl e, b) =
    let rest = Begins-matches_letters ps s b in ground arith
Begins-matches_letters (p ∷ ps) (c ∷ s) (inr (low, high, e), b) =
    let rest = Begins-matches_letters ps s b in ground arith

-- It does not end with white space.
abbrev pub Stops : JsString → Type 0
Stops [] = Unit {0}
Stops (c ∷ []) = is_space c ≡ false
Stops (c ∷ d ∷ s) = Stops (d ∷ s)

-- Some text without white space around it.
abbrev pub IsBare : JsString → Type 0
IsBare [] = ⊥
IsBare (c ∷ s) = (is_space c ≡ false) × Stops (c ∷ s)

-- `t`, with white space around it.
pub record Around (f t : JsString) : Type 0 where
  pub lead : JsString
  pub trail : JsString
  pub lead_Blank : Blank lead
  pub trail_Blank : Blank trail
  pub around : f ≡ lead ++ (t ++ trail)

-- What is sent of a filter: nothing of a blank one; of another what is between its white space, with
-- the prefix before it if it does not begin so.
pub data FilterSent : Option JsString → Option Arg → Type 0 where
  not_given : FilterSent none none
  blank : {f : JsString} → Blank f → FilterSent (some f) none
  has_prefix :
      {f : JsString} (t : JsString)
      → Around f t
      → IsBare t
      → Begins (codes "filter=") t
      → FilterSent (some f) (some (text t))
  needs_prefix :
      {f : JsString} (t : JsString)
      → Around f t
      → IsBare t
      → ¬ Begins (codes "filter=") t
      → FilterSent (some f) (some (text (codes "filter=" ++ t)))

record Ended (f s : JsString) : Type 0 where
  ended_trail : JsString
  ended_Blank : Blank ended_trail
  ended_split : f ≡ s ++ ended_trail
  ended_Stops : Stops s

kept_end-Ended : (c : ℕ) (f s : JsString) → Ended f s → Ended (c ∷ f) (kept_end c s)
unfolding kept_end
kept_end-Ended c f (d ∷ s) e = record {
  ended_trail = e.ended_trail;
  ended_Blank = e.ended_Blank;
  ended_split = ap (λ r. c ∷ r) e.ended_split;
  ended_Stops = e.ended_Stops;
}
kept_end-Ended c f [] e = elim (Bool-cases (is_space c)) [
  | inl b ↦ rw b (record {
    ended_trail = c ∷ e.ended_trail;
    ended_Blank = (b, e.ended_Blank);
    ended_split = ap (λ r. c ∷ r) e.ended_split;
    ended_Stops = tt;
  })
  | inr b ↦ rw b (record {
    ended_trail = e.ended_trail;
    ended_Blank = e.ended_Blank;
    ended_split = ap (λ r. c ∷ r) e.ended_split;
    ended_Stops = b;
  })
]

trim_end-Ended : (f : JsString) → Ended f (trim_end f)
unfolding trim_end
trim_end-Ended [] = record {
  ended_trail = [];
  ended_Blank = tt;
  ended_split = refl;
  ended_Stops = tt;
}
trim_end-Ended (c ∷ f) = kept_end-Ended c f (trim_end f) (trim_end-Ended f)

Stops-tail : (c : ℕ) (s : JsString) → Stops (c ∷ s) → Stops s
Stops-tail c [] h = tt
Stops-tail c (d ∷ s) h = h

-- What trimming leaves: nothing of blank text, or text without white space around it.
data Started (s : JsString) : JsString → Type 0 where
  all_blank : Blank s → Started s []
  bare : (t : JsString) (front : JsString) → Blank front → s ≡ front ++ t → IsBare t → Started s t

further : (c : ℕ) (s t : JsString) → is_space c ≡ true → Started s t → Started (c ∷ s) t
further c s t b (all_blank h) = all_blank (b, h)
further c s t b (bare _ front h e w) = bare t (c ∷ front) (b, h) (ap (λ r. c ∷ r) e) w

trim_start-Started : (s : JsString) → Stops s → Started s (trim_start s)
unfolding trim_start
trim_start-Started [] h = all_blank tt
trim_start-Started (c ∷ s) h =
    let below = trim_start-Started s (Stops-tail c s h) in
    elim (Bool-cases (is_space c)) [
      | inl b ↦ rw b (further c s (trim_start s) b below)
      | inr b ↦ rw b (bare (c ∷ s) [] tt refl (b, h))
    ]

abbrev pub as_arg : Option JsString → Option Arg
as_arg none = none
as_arg (some t) = some (text t)

append-Blank : (s t : JsString) → Blank s → Blank t → Blank (s ++ t)
append-Blank [] t h k = k
append-Blank (c ∷ s) t (h, hs) k = (h, append-Blank s t hs k)

module _ (f : JsString) where
  prefixed-FilterSent :
      (t : JsString) → Around f t → IsBare t → FilterSent (some f) (some (text (prefixed t)))
  unfolding prefixed
  prefixed-FilterSent t a b = elim (Bool-cases (matches_letters (codes "filter=") t)) [
    | inl m ↦ rw m (has_prefix t a b (matches_letters-Begins (codes "filter=") t m))
    | inr m ↦ rw m (
        needs_prefix t a b
          (λ begins. let k = Begins-matches_letters (codes "filter=") t begins in absurd (cc)))
  ]

  Started-FilterSent :
      (t : JsString)
      → Started (trim_end f) t
      → FilterSent (some f) (
          as_arg
            (elim t as (λ _. Option JsString) [ [] ↦ none | (c ∷ s) ↦ some (prefixed (c ∷ s)) ]))
  Started-FilterSent [] (all_blank h) =
      let e = trim_end-Ended f in
      blank
        (subst Blank (sym e.ended_split) (append-Blank (trim_end f) e.ended_trail h e.ended_Blank))
  Started-FilterSent [] (bare _ front h s w) = absurd w
  Started-FilterSent (c ∷ t) (bare _ front h s w) =
      let e = trim_end-Ended f in
      prefixed-FilterSent (c ∷ t)
        (record {
          lead = front;
          trail = e.ended_trail;
          lead_Blank = h;
          trail_Blank = e.ended_Blank;
          around =
              e.ended_split
              ∙ ap (λ r. r ++ e.ended_trail) s
              ∙ append_assoc front (c ∷ t) e.ended_trail;
        })
        w

-- The filter that the client sends is the one meant.
pub filter_text-FilterSent : (f : Option JsString) → FilterSent f (as_arg (filter_text f))
unfolding filter_text trimmed
filter_text-FilterSent none = not_given
filter_text-FilterSent (some f) =
    let e = trim_end-Ended f in
    Started-FilterSent f (trimmed f) (trim_start-Started (trim_end f) e.ended_Stops)
