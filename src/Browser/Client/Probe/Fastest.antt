-- ===== src/Browser/Client/Probe/Fastest.antt =====
-- `probeFastest` of apps/browser/src/client.ts picks a node of least latency.
use wormdb.Base.{
  ℕ, suc, ◌≡◌, refl, inl, inr, true, false, [], ◌∷◌, none, some, arith, ◌⊎◌, ◌<◌, ◌≤◌, Option,
  JsString, List, All, get_elem?, Bool-cases, ltb, subst, sym,
}
use wormdb.Browser.Client.Probe.{probe_fastest, probe_loop, is_faster, zip_results}

abbrev pub AtLeast : ℕ → Option ℕ → Type 0
AtLeast l none = Unit {0}
AtLeast l (some m) = l ≤ m

abbrev pub NoFaster : ℕ → List (JsString × Option ℕ) → Type 0
NoFaster l rest = All (λ p. AtLeast l p.1) rest

abbrev pub NoneAnswered : List (JsString × Option ℕ) → Type 0
NoneAnswered rest = All (λ p. p.1 ≡ none) rest

-- `url` answered after `l`, and no node after less.
pub record Fastest (url : JsString) (results : List (JsString × Option ℕ)) : Type 0 where
  pub latency : ℕ
  pub place : ℕ
  pub answered : get_elem? results place ≡ some (url, some latency)
  pub least : NoFaster latency results

later :
    (url v : JsString) (o : Option ℕ) (rest : List (JsString × Option ℕ)) (f : Fastest url rest)
    → AtLeast f.latency o
    → (g : Fastest url ((v, o) ∷ rest)) × (g.latency ≡ f.latency)
later url v o rest f h = (
  record { latency = f.latency; place = suc f.place; answered = f.answered; least = (h, f.least) },
  refl,
)

here :
    (url : JsString) (m : ℕ) (rest : List (JsString × Option ℕ))
    → NoFaster m rest
    → (g : Fastest url ((url, some m) ∷ rest)) × (g.latency ≡ m)
here url m rest all =
    (record { latency = m; place = 0; answered = refl; least = (omega arith, all) }, refl)

-- After `url` answered with `b`, the winner is `url`, or a later node that answered in less.
abbrev Leads : ℕ → JsString → JsString → List (JsString × Option ℕ) → Type 0
Leads b url winner rest =
    ((winner ≡ url) × NoFaster b rest) ⊎ ((f : Fastest winner rest) × (f.latency < b))

slower_skipped :
    (b : ℕ) (url v w : JsString) (o : Option ℕ) (rest : List (JsString × Option ℕ))
    → AtLeast b o
    → Leads b url w rest
    → Leads b url w ((v, o) ∷ rest)
slower_skipped b url v w o rest h (inl (e, all)) = inl (e, (h, all))
slower_skipped b url v w none rest h (inr (f, less)) =
    let (g, e) = later w v none rest f tt in inr (g, omega arith)
slower_skipped b url v w (some m) rest h (inr (f, less)) =
    let (g, e) = later w v (some m) rest f (omega arith) in inr (g, omega arith)

faster_taken :
    (b m : ℕ) (url v w : JsString) (rest : List (JsString × Option ℕ))
    → m < b
    → Leads m v w rest
    → Leads b url w ((v, some m) ∷ rest)
faster_taken b m url v w rest h (inl (e, all)) =
    let (g, e') = here v m rest all in
    inr
      (subst (λ u. (f : Fastest u ((v, some m) ∷ rest)) × (f.latency < b)) (sym e) (g, omega arith))
faster_taken b m url v w rest h (inr (f, less)) =
    let (g, e) = later w v (some m) rest f (omega arith) in inr (g, omega arith)

probe_loop-Leads :
    (b : ℕ) (url : JsString) (rest : List (JsString × Option ℕ))
    → Leads b url (probe_loop url (some b) rest) rest
unfolding probe_loop is_faster
probe_loop-Leads b url [] = inl (refl, tt)
probe_loop-Leads b url ((v, none) ∷ rest) =
    slower_skipped b url v _ none rest tt (probe_loop-Leads b url rest)
probe_loop-Leads b url ((v, some m) ∷ rest) =
    let lt : ltb m b ≡ true → m < b = λ h. ground arith in
    let ge : ltb m b ≡ false → b ≤ m = λ h. ground arith in
    let w = probe_loop v (some m) rest in
    let w' = probe_loop url (some b) rest in
    elim (Bool-cases (ltb m b)) [
      | inl faster ↦
          rw faster (faster_taken b m url v w rest (lt faster) (probe_loop-Leads m v rest))
      | inr slower ↦
          rw slower
            (slower_skipped b url v w' (some m) rest (ge slower) (probe_loop-Leads b url rest))
    ]

abbrev Wins : JsString → JsString → List (JsString × Option ℕ) → Type 0
Wins url winner results = ((winner ≡ url) × NoneAnswered results) ⊎ Fastest winner results

probe_loop-Wins :
    (url : JsString) (results : List (JsString × Option ℕ))
    → Wins url (probe_loop url none results) results
unfolding probe_loop is_faster
probe_loop-Wins url [] = inl (refl, tt)
probe_loop-Wins url ((v, none) ∷ rest) = elim (probe_loop-Wins url rest) [
  | inl (e, all) ↦ inl (e, (refl, all))
  | inr f ↦ inr (later _ v none rest f tt).0
]
probe_loop-Wins url ((v, some m) ∷ rest) = elim (probe_loop-Leads m v rest) [
  | inl (e, all) ↦ inr (subst (λ u. Fastest u ((v, some m) ∷ rest)) (sym e) (here v m rest all).0)
  | inr (f, less) ↦ inr (later _ v (some m) rest f (omega arith)).0
]

-- Of the nodes that answered its probe, the client connects to one that answered in the least time;
-- if none did, to the first node.
pub probe_fastest-Wins :
    (url : JsString) (urls : List JsString) (answers : List (Option ℕ))
    → ((probe_fastest (url ∷ urls) answers ≡ url) × NoneAnswered (zip_results (url ∷ urls) answers))
      ⊎ Fastest (probe_fastest (url ∷ urls) answers) (zip_results (url ∷ urls) answers)
unfolding probe_fastest
probe_fastest-Wins url urls answers = probe_loop-Wins url (zip_results (url ∷ urls) answers)
