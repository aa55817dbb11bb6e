-- ===== src/Dashboard/Pool.antt =====
-- The pool of endpoints of the dashboard's server, apps/bun/src/bin/ui.ts, and which it uses.
use wormdb.Base.{
  ◌∙◌, ℕ, ◌≡◌, refl, inl, inr, true, false, [], ◌∷◌, ◌++◌, none, some, arith, ◌⊎◌, List, JsString,
  Bool-cases, ◌&&◌, Option, All, ap, ◌==◌, ◌||◌, sym, some-inj,
}
use wormdb.Dashboard.{first_other, key}
use wormdb.Dashboard.Peers.{Endpoint, Peer, is_known, discover, discover_at, host_of, is_blank_host}
use wormdb.Managed.Subscribe.{same_text}
use wormdb.Text.{codes}
use wormdb.Dashboard.Keys.{key-injective, same_text_eq, same_text_refl}

abbrev pub Differ : Endpoint → Endpoint → Type 0
Differ x y = (same_text (key x) (key y) ≡ false) × (same_text (key y) (key x) ≡ false)

-- No two have the same key.
abbrev pub Distinct : List Endpoint → Type 0
Distinct [] = Unit {0}
Distinct (x ∷ xs) = All (Differ x) xs × Distinct xs

-- One of the first two.
abbrev pub FirstTwo : Endpoint → List Endpoint → Type 0
FirstTwo x [] = ⊥
FirstTwo x (a ∷ []) = x ≡ a
FirstTwo x (a ∷ b ∷ rest) = (x ≡ a) ⊎ (x ≡ b)

pub record Pooled (active : Endpoint) (known : List Endpoint) : Type 0 where
  pub distinct : Distinct known
  pub first_two : FirstTwo active known

All-append :
    (P : Endpoint → Type 0) (xs : List Endpoint) (y : Endpoint)
    → All P xs
    → P y
    → All P (xs ++ (y ∷ []))
All-append P [] y h p = (p, tt)
All-append P (x ∷ xs) y (h, hs) p = (h, All-append P xs y hs p)

Distinct-append :
    (xs : List Endpoint) (y : Endpoint)
    → Distinct xs
    → All (λ x. Differ x y) xs
    → Distinct (xs ++ (y ∷ []))
Distinct-append [] y d h = (tt, tt)
Distinct-append (x ∷ xs) y (a, d) (h, hs) =
    (All-append (Differ x) xs y a h, Distinct-append xs y d hs)

FirstTwo-append :
    (x : Endpoint) (xs : List Endpoint) (y : Endpoint) → FirstTwo x xs → FirstTwo x (xs ++ (y ∷ []))
FirstTwo-append x [] y h = absurd h
FirstTwo-append x (a ∷ []) y h = inl h
FirstTwo-append x (a ∷ b ∷ rest) y h = h

-- An endpoint with another host or another port has another key.
differs :
    (x y : Endpoint)
    → (same_text x.host y.host && x.port == y.port) ≡ false
    → same_text (key x) (key y) ≡ false
differs x y h = elim (Bool-cases (same_text (key x) (key y))) [
  | inr e ↦ e
  | inl e ↦
      let (hosts, ports) = key-injective x y (same_text_eq (key x) (key y) e) in
      let text : same_text x.host y.host ≡ true =
        ap (same_text x.host) (sym hosts) ∙ same_text_refl x.host in
      absurd (ground (arith, h, text, ports))
]

pub same_text_flip : (s t : JsString) → same_text s t ≡ false → same_text t s ≡ false
same_text_flip s t h = elim (Bool-cases (same_text t s)) [
  | inr e ↦ e
  | inl e ↦
      let same : same_text s t ≡ true = ap (same_text s) (same_text_eq t s e) ∙ same_text_refl s in
      absurd (cc)
]

unknown_differs :
    (xs : List Endpoint) (y : Endpoint)
    → is_known y.host y.port xs ≡ false
    → All (λ x. Differ x y) xs
unfolding is_known
unknown_differs [] y h = tt
unknown_differs (x ∷ xs) y h =
    let here : same_text (key x) (key y) ≡ false = differs x y (ground arith) in
    ((here, same_text_flip (key x) (key y) here), unknown_differs xs y (ground arith))

module _ (active : Endpoint) where
  discover_at-Pooled :
      (p : Peer) (port : ℕ) (gossip : Option JsString) (known : List Endpoint)
      → Pooled active known
      → Pooled active (discover_at p port gossip known)
  unfolding discover_at
  discover_at-Pooled p port none known h = h
  discover_at-Pooled p port (some g) known h =
      let new : Endpoint = record { host = host_of g; port = port; mesh_ip = some (p.mesh_ip) } in
      elim (Bool-cases
        (same_text g [] || is_blank_host (host_of g) || is_known (host_of g) port known)) [
          | inl e ↦ rw e h
          | inr e ↦
              let unknown : is_known new.host new.port known ≡ false = ground (arith, e) in
              rw e (record {
                distinct = Distinct-append known new h.distinct (unknown_differs known new unknown);
                first_two = FirstTwo-append active known new h.first_two;
              })
        ]

  pub discover-Pooled :
      (ps : List Peer) (port : ℕ) (known : List Endpoint)
      → Pooled active known
      → Pooled active (discover ps port known)
  unfolding discover
  discover-Pooled [] port known h = h
  discover-Pooled (p ∷ ps) port known h =
      let found =
        discover-Pooled ps port (discover_at p port p.gossip_endpoint known)
          (discover_at-Pooled p port p.gossip_endpoint known h) in
      let skipped = discover-Pooled ps port known h in
      elim (Bool-cases (same_text p.state (codes "alive"))) [
        | inl e ↦ rw e found
        | inr e ↦ rw e skipped
      ]

first_other_self :
    (a : Endpoint) (l : List Endpoint) → first_other (key a) (a ∷ l) ≡ first_other (key a) l
unfolding first_other
first_other_self a l = rw (same_text_refl (key a)) refl

first_other-taken :
    (x y : Endpoint) (l : List Endpoint)
    → same_text (key x) (key y) ≡ false
    → first_other (key y) (x ∷ l) ≡ some x
unfolding first_other
first_other-taken x y l h = rw h refl

-- The first endpoint with another key is one of the first two.
pub first_other-FirstTwo :
    (active : Endpoint) (known : List Endpoint)
    → Distinct known
    → FirstTwo active known
    → (next : Endpoint) → first_other (key active) known ≡ some next
    → FirstTwo next known
first_other-FirstTwo active [] d h next e = absurd h
first_other-FirstTwo active (a ∷ []) d h next e =
    let gone : first_other (key active) (a ∷ []) ≡ none =
      ap (λ x. first_other (key x) (a ∷ [])) h
      ∙ first_other_self a []
      ∙ unfold first_other in refl in
    absurd (cc)
first_other-FirstTwo active (a ∷ b ∷ rest) (((differ, differ'), _), _) (inl h) next e =
    let second : first_other (key active) (a ∷ b ∷ rest) ≡ some b =
      ap (λ x. first_other (key x) (a ∷ b ∷ rest)) h
      ∙ first_other_self a (b ∷ rest)
      ∙ first_other-taken b a rest differ' in
    inr (some-inj (sym e ∙ second))
first_other-FirstTwo active (a ∷ b ∷ rest) (((differ, differ'), _), _) (inr h) next e =
    let first : first_other (key active) (a ∷ b ∷ rest) ≡ some a =
      ap (λ x. first_other (key x) (a ∷ b ∷ rest)) h ∙ first_other-taken a b (b ∷ rest) differ in
    inl (some-inj (sym e ∙ first))
