-- ===== src/Dashboard/Dedupe.antt =====
-- Which peers `parsePeersResponse` of apps/bun/src/bin/ui.ts keeps.
use wormdb.Base.{
  if◌then◌else◌, ◌≡◌, refl, inl, inr, true, false, [], ◌∷◌, none, some, ◌⊎◌, List, JsString, All,
  ◌&&◌, not, Bool-cases, Option, subst, sym,
}
use wormdb.Dashboard.Peers.{Peer, put_peer, put_gossip, by_gossip_ip, gossip_ip, is_dead}
use mathlib.Core.List.{Memᴰ}
use wormdb.Managed.Subscribe.{same_text}
use wormdb.Dashboard.Keys.{same_text_eq, same_text_refl}
use wormdb.Dashboard.Pool.{same_text_flip}
use wormdb.Dashboard.Addresses.{Address, Address-gossip_ip, gossip_ip-Address}

-- The address has an entry, which is not dead if `p` is not.
abbrev pub Represented : JsString → Peer → List (JsString × Peer) → Type 0
Represented ip p [] = ⊥
Represented ip p ((ip', q) ∷ m) =
    ((ip' ≡ ip) × (is_dead p ≡ false → is_dead q ≡ false)) ⊎ Represented ip p m

abbrev pub IsRepresented : List (JsString × Peer) → Peer → Type 0
IsRepresented m p =
    (g ip : JsString) → p.gossip_endpoint ≡ some g → Address g ip → Represented ip p m

abbrev pub DistinctIps : List (JsString × Peer) → Type 0
DistinctIps [] = Unit {0}
DistinctIps ((ip, p) ∷ m) = All (λ e. same_text e.0 ip ≡ false) m × DistinctIps m

-- The live one of two peers at an address.
abbrev chosen : Peer → Peer → Peer
chosen p q = if is_dead q && not (is_dead p) then p else q

chosen_new : (p q : Peer) → is_dead p ≡ false → is_dead (chosen p q) ≡ false
chosen_new p q h = elim (Bool-cases (is_dead q)) [ inl d ↦ rw (d, h) h | inr d ↦ rw d d ]

chosen_old : (p q : Peer) → is_dead q ≡ false → is_dead (chosen p q) ≡ false
chosen_old p q d = rw d d

put_peer-Represented :
    (ip : JsString) (p : Peer) (m : List (JsString × Peer)) → Represented ip p (put_peer ip p m)
unfolding put_peer
put_peer-Represented ip p [] = inl (refl, λ h. h)
put_peer-Represented ip p ((ip', q) ∷ m) =
    let below = put_peer-Represented ip p m in
    elim (Bool-cases (same_text ip' ip)) [
      | inl e ↦ rw e (inl (same_text_eq ip' ip e, chosen_new p q))
      | inr e ↦ rw e (inr below)
    ]

put_peer-keeps :
    (ip ip2 : JsString) (p p2 : Peer) (m : List (JsString × Peer))
    → Represented ip p m
    → Represented ip p (put_peer ip2 p2 m)
unfolding put_peer
put_peer-keeps ip ip2 p p2 [] r = absurd r
put_peer-keeps ip ip2 p p2 ((ip', q) ∷ m) (inl (same, alive)) =
    elim (Bool-cases (same_text ip' ip2)) [
      | inl e ↦ rw e (inl (same, λ h. chosen_old p2 q (alive h)))
      | inr e ↦ rw e (inl (same, alive))
    ]
put_peer-keeps ip ip2 p p2 ((ip', q) ∷ m) (inr r) =
    let below = put_peer-keeps ip ip2 p p2 m r in
    elim (Bool-cases (same_text ip' ip2)) [ inl e ↦ rw e (inr r) | inr e ↦ rw e (inr below) ]

abbrev Absent : JsString → List (JsString × Peer) → Type 0
Absent ip m = All (λ e. same_text e.0 ip ≡ false) m

put_peer-Absent :
    (ip ip2 : JsString) (p : Peer) (m : List (JsString × Peer))
    → same_text ip2 ip ≡ false
    → Absent ip m
    → Absent ip (put_peer ip2 p m)
unfolding put_peer
put_peer-Absent ip ip2 p [] n a = (n, tt)
put_peer-Absent ip ip2 p ((ip', q) ∷ m) n (a, as') =
    let below = put_peer-Absent ip ip2 p m n as' in
    elim (Bool-cases (same_text ip' ip2)) [ inl e ↦ rw e (a, as') | inr e ↦ rw e (a, below) ]

put_peer-Distinct :
    (ip : JsString) (p : Peer) (m : List (JsString × Peer))
    → DistinctIps m
    → DistinctIps (put_peer ip p m)
unfolding put_peer
put_peer-Distinct ip p [] d = (tt, tt)
put_peer-Distinct ip p ((ip', q) ∷ m) (a, d) =
    let below = put_peer-Distinct ip p m d in
    elim (Bool-cases (same_text ip' ip)) [
      | inl e ↦ rw e (a, d)
      | inr e ↦ rw e (put_peer-Absent ip' ip p m (same_text_flip ip' ip e) a, below)
    ]

-- What every entry for a peer has, the table has.
put_peer-All :
    (P : JsString × Peer → Type 0) (ip : JsString) (p : Peer) (m : List (JsString × Peer))
    → ((jp : JsString) → same_text jp ip ≡ true → P (jp, p))
    → All P m
    → All P (put_peer ip p m)
unfolding put_peer
put_peer-All P ip p [] h a = (h ip (same_text_refl ip), tt)
put_peer-All P ip p ((ip', q) ∷ m) h (a, as') =
    let below = put_peer-All P ip p m h as' in
    let kept : same_text ip' ip ≡ true → P (ip', chosen p q) = λ e.
      elim (is_dead q && not (is_dead p)) as (λ b. P (ip', if b then p else q)) [
        | true ↦ h ip' e
        | false ↦ a
      ] in
    elim (Bool-cases (same_text ip' ip)) [ inl e ↦ rw e (kept e, as') | inr e ↦ rw e (a, below) ]

-- A peer of the list, at its address.
abbrev pub Listed : List Peer → JsString × Peer → Type 0
Listed ps (ip, q) = Memᴰ q ps × (g : JsString) × (q.gossip_endpoint ≡ some g) × Address g ip

-- The table `m` for the peers `ps`, of the list `all`.
record Table (all : List Peer) (m : List (JsString × Peer)) : Type 0 where
  table_distinct : DistinctIps m
  table_listed : All (Listed all) m

module _ (all : List Peer) where
  put-Table :
      (p : Peer) (o : Option JsString) (m : List (JsString × Peer))
      → Memᴰ p all
      → p.gossip_endpoint ≡ o
      → Table all m
      → Table all (put_gossip o p m)
  unfolding put_gossip
  put-Table p none m d e t = t
  put-Table p (some g) m d e t = record {
    table_distinct = put_peer-Distinct (gossip_ip g) p m t.table_distinct;
    table_listed =
        put_peer-All (Listed all) (gossip_ip g) p m
          (λ ip h. (
            d,
            g,
            e,
            subst (Address g) (sym (same_text_eq ip (gossip_ip g) h)) (gossip_ip-Address g),
          ))
          t.table_listed;
  }

  by_gossip_ip-Table :
      (ps : List Peer) (m : List (JsString × Peer))
      → ((p : Peer) → Memᴰ p ps → Memᴰ p all)
      → Table all m
      → Table all (by_gossip_ip ps m)
  unfolding by_gossip_ip
  by_gossip_ip-Table [] m d t = t
  by_gossip_ip-Table (p ∷ ps) m d t =
      by_gossip_ip-Table ps (put_gossip p.gossip_endpoint p m) (λ q h. d q (Memᴰ.tail h))
        (put-Table p p.gossip_endpoint m (d p (Memᴰ.head refl)) refl t)

put_gossip-keeps :
    (ip : JsString) (p q : Peer) (o : Option JsString) (m : List (JsString × Peer))
    → Represented ip p m
    → Represented ip p (put_gossip o q m)
unfolding put_gossip
put_gossip-keeps ip p q none m r = r
put_gossip-keeps ip p q (some g) m r = put_peer-keeps ip (gossip_ip g) p q m r

by_gossip_ip-keeps :
    (ip : JsString) (p : Peer) (ps : List Peer) (m : List (JsString × Peer))
    → Represented ip p m
    → Represented ip p (by_gossip_ip ps m)
unfolding by_gossip_ip
by_gossip_ip-keeps ip p [] m r = r
by_gossip_ip-keeps ip p (q ∷ ps) m r =
    by_gossip_ip-keeps ip p ps (put_gossip q.gossip_endpoint q m)
      (put_gossip-keeps ip p q q.gossip_endpoint m r)

All-IsRepresented :
    (ps : List Peer) (m : List (JsString × Peer)) → All (IsRepresented (by_gossip_ip ps m)) ps
unfolding by_gossip_ip
All-IsRepresented [] m = tt
All-IsRepresented (p ∷ ps) m = (
  λ g ip e a. by_gossip_ip-keeps ip p ps (put_gossip p.gossip_endpoint p m) (
      subst (λ o. Represented ip p (put_gossip o p m)) (sym e)
        (unfold put_gossip in
          subst (λ j. Represented j p (put_peer (gossip_ip g) p m)) (Address-gossip_ip g ip a)
            (put_peer-Represented (gossip_ip g) p m))),
  All-IsRepresented ps (put_gossip p.gossip_endpoint p m),
)

-- Of the peers, parsePeersResponse keeps one for each address, which is what stands before the first
-- colon of an endpoint, or all of it: no address twice, every peer kept is one of those given, at its address, and where one of
-- the peers at an address is not dead, the one that is kept is not.
pub by_gossip_ip_lem :
    (ps : List Peer)
    → DistinctIps (by_gossip_ip ps [])
      × All (Listed ps) (by_gossip_ip ps [])
      × All (IsRepresented (by_gossip_ip ps [])) ps
by_gossip_ip_lem ps =
    let t =
      by_gossip_ip-Table ps ps [] (λ p h. h) (record { table_distinct = tt; table_listed = tt }) in
    (t.table_distinct, t.table_listed, All-IsRepresented ps [])
