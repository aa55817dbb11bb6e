-- ===== src/Client/Counts.antt =====
-- How often the keep-alive client has a request, and what each step on a connection leaves of that.
use wormdb.Base.{
  Option, Bool, ◌==◌, Error, ℕ, ◌+◌, ◌≡◌, refl, inl, inr, true, false, [], ◌∷◌, ◌++◌, none, some,
  arith, List, ap, Bool-cases,
}
use wormdb.Client.{
  Client, Outcome, all_rejected, parked_ids, settle, handle_frame, drop_last, deliver,
  reject_all_pending, finish_send, rejected,
}
use wormdb.Wire.Bytes.{Bytes}
use wormdb.Wire.Response.{is_event_code}

abbrev pub one : Bool → ℕ
one true = 1
one false = 0

-- How often a request stands in a list.
abbrev pub count : ℕ → List ℕ → ℕ
count id [] = 0
count id (i ∷ ids) = one (i == id) + count id ids

abbrev pub settled_ids : List (ℕ × Outcome) → List ℕ
settled_ids [] = []
settled_ids ((id, o) ∷ rest) = id ∷ settled_ids rest

-- How often the client has the request: settled, waiting for a response, or for the connection.
abbrev pub held : ℕ → Client → ℕ
held id s = count id (settled_ids s.settled) + count id s.pending + count id (parked_ids s.parked)

pub count-append : (id : ℕ) (xs ys : List ℕ) → count id (xs ++ ys) ≡ count id xs + count id ys
count-append id [] ys = omega arith
count-append id (x ∷ xs) ys = omega (arith, count-append id xs ys)

pub count-settled :
    (id : ℕ) (xs ys : List (ℕ × Outcome))
    → count id (settled_ids (xs ++ ys)) ≡ count id (settled_ids xs) + count id (settled_ids ys)
count-settled id [] ys = omega arith
count-settled id ((x, o) ∷ xs) ys = omega (arith, count-settled id xs ys)

pub count-all_rejected :
    (id : ℕ) (e : Error) (ids : List ℕ) → count id (settled_ids (all_rejected e ids)) ≡ count id ids
count-all_rejected id e [] = refl
count-all_rejected id e (i ∷ ids) = omega (arith, count-all_rejected id e ids)

pub count-parked :
    (id : ℕ) (xs ys : List (ℕ × Bytes))
    → count id (parked_ids (xs ++ ys)) ≡ count id (parked_ids xs) + count id (parked_ids ys)
count-parked id [] ys = omega arith
count-parked id ((x, f) ∷ xs) ys = omega (arith, count-parked id xs ys)

pub drop_last-append : (xs : List ℕ) (i : ℕ) → drop_last (xs ++ (i ∷ [])) ≡ xs
unfolding drop_last
drop_last-append [] i = refl
drop_last-append (x ∷ []) i = refl
drop_last-append (x ∷ y ∷ ys) i = ap (λ r. x ∷ r) (drop_last-append (y ∷ ys) i)

pub held-settle :
    (id i : ℕ) (o : Outcome) (s : Client) → held id (settle i o s) ≡ held id s + one (i == id)
unfolding settle
held-settle id i o s = omega (arith, count-settled id s.settled ((i, o) ∷ []))

pub held-reject_all :
    (id : ℕ) (e : Error) (s : Client) → held id (reject_all_pending e s) ≡ held id s
unfolding reject_all_pending
held-reject_all id e s = omega (
  arith,
  count-settled id s.settled (all_rejected e s.pending),
  count-all_rejected id e s.pending,
)

pub held-deliver :
    (id : ℕ) (ids : List ℕ) (code : ℕ) (payload : Bytes) (s : Client)
    → s.pending ≡ ids
    → held id (deliver ids code payload s) ≡ held id s
unfolding deliver
held-deliver id [] code payload s e = refl
held-deliver id (i ∷ ids) code payload s e =
    rw (held-settle id i _ (record s { pending = ids })) (omega (arith, ap (count id) e))

pub held-handle_frame :
    (id : ℕ) (s : Client) (code : ℕ) (payload : Bytes)
    → held id (handle_frame s code payload) ≡ held id s
unfolding handle_frame
held-handle_frame id s code payload = elim (Bool-cases (is_event_code code)) [
  | inl e ↦ rw e
  | inr e ↦ rw e (held-deliver id s.pending code payload s refl)
]

pub held-finish_send :
    (id i : ℕ) (thrown : Option Error) (ids : List ℕ) (s : Client)
    → s.pending ≡ ids ++ (i ∷ [])
    → held id (finish_send i thrown s) ≡ held id s
unfolding finish_send
held-finish_send id i none ids s e = refl
held-finish_send id i (some x) ids s e =
    rw (held-settle id i (rejected x) (record s { pending = drop_last s.pending })) (
      omega (
        arith,
        ap (λ l. count id (drop_last l)) e,
        ap (count id) (drop_last-append ids i),
        ap (count id) e,
        count-append id ids (i ∷ []),
      ))
