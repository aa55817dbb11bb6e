-- ===== src/Dashboard/Addresses.antt =====
-- The address of a peer, as parsePeersResponse of apps/bun/src/bin/ui.ts cuts it off an endpoint.
use wormdb.Dashboard.Peers.{gossip_ip}
use wormdb.Base.{
  JsString, ◌≡◌, All, inl, ap, ◌≢◌, ◌∷◌, ◌∙◌, ◌==◌, Bool-cases, ◌⊎◌, ◌++◌, false, inr, arith, [],
  refl,
}

-- `ip` is what stands before the first colon of `g`, or all of it if it has none.
abbrev pub Address : JsString → JsString → Type 0
Address g ip = All (λ c. c ≢ 58) ip × ((g ≡ ip) ⊎ ((rest : JsString) × (g ≡ ip ++ (58 ∷ rest))))

pub gossip_ip-Address : (g : JsString) → Address g (gossip_ip g)
unfolding gossip_ip
gossip_ip-Address [] = (tt, inl refl)
gossip_ip-Address (c ∷ g) = elim (Bool-cases (c == 58)) [
  | inl e ↦ let colon : c ≡ 58 = ground arith in rw e (tt, inr (g, ap (λ d. d ∷ g) colon))
  | inr e ↦
      let (plain, split) = gossip_ip-Address g in
      let other : c ≢ 58 = λ h. ground arith in
      rw e (
        (other, plain),
        elim split [
          | inl whole ↦ inl (ap (λ s. c ∷ s) whole)
          | inr (rest, cut) ↦ inr (rest, ap (λ s. c ∷ s) cut)
        ],
      )
]

gossip_ip-plain : (ip : JsString) → All (λ c. c ≢ 58) ip → gossip_ip ip ≡ ip
unfolding gossip_ip
gossip_ip-plain [] h = refl
gossip_ip-plain (c ∷ ip) (h, hs) =
    let other : (c == 58) ≡ false = ground arith in
    rw other (ap (λ s. c ∷ s) (gossip_ip-plain ip hs))

gossip_ip-cut : (ip rest : JsString) → All (λ c. c ≢ 58) ip → gossip_ip (ip ++ (58 ∷ rest)) ≡ ip
unfolding gossip_ip
gossip_ip-cut [] rest h = refl
gossip_ip-cut (c ∷ ip) rest (h, hs) =
    let other : (c == 58) ≡ false = ground arith in
    rw other (ap (λ s. c ∷ s) (gossip_ip-cut ip rest hs))

pub Address-gossip_ip : (g ip : JsString) → Address g ip → gossip_ip g ≡ ip
Address-gossip_ip g ip (h, inl e) = ap gossip_ip e ∙ gossip_ip-plain ip h
Address-gossip_ip g ip (h, inr (rest, e)) = ap gossip_ip e ∙ gossip_ip-cut ip rest h
