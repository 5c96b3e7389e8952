-- ===== src/Stats/Order.antt =====
-- The order of a snapshot's rows.
use Prim.Native.Nat.{Ordering}
use mathlib.Core.List.{Perm}
use mathlib.Core.List.Perm
use wiretally.Prelude.{
  ◌≡◌, ◌≢◌, ◌<◌, ◌⊎◌, inl, inr, refl, ap, subst, ℕ, Option, List, [], ◌∷◌, map, arith,
}
use wiretally.Text.{Text}
use wiretally.Stats.{
  Endpoint, Registry, read, row, matches_domain, hosts, text_cmp, cmp_rows, place, insert_row,
  sort_rows, snapshot,
}

pub Ordering-cases : (o : Ordering) → (o ≡ Ordering.gt) ⊎ (o ≢ Ordering.gt)
Ordering-cases Ordering.lt = inr (λ e. ground arith)
Ordering-cases Ordering.eq = inr (λ e. ground arith)
Ordering-cases Ordering.gt = inl refl

text_cmp_flip : (s t : Text) → text_cmp s t ≡ Ordering.gt → text_cmp t s ≢ Ordering.gt
unfolding text_cmp
text_cmp_flip [] [] h = ground arith
text_cmp_flip [] (d ∷ t) h = ground arith
text_cmp_flip (c ∷ s) [] h = ground arith
text_cmp_flip (c ∷ s) (d ∷ t) h = ground (arith, text_cmp_flip s t)

-- More bytes received; with as many, more bytes sent; with as many, no later in the alphabet.
abbrev pub Before : Endpoint → Endpoint → Type 0
Before a b =
    (b.ingress_bytes < a.ingress_bytes)
    ⊎ ((a.ingress_bytes ≡ b.ingress_bytes)
        × ((b.egress_bytes < a.egress_bytes)
            ⊎ ((a.egress_bytes ≡ b.egress_bytes) × (text_cmp a.domain b.domain ≢ Ordering.gt))))

cmp-Before : (a b : Endpoint) → cmp_rows a b ≢ Ordering.gt → Before a b
unfolding cmp_rows
cmp-Before a b h = ground arith

cmp_flip-Before : (a b : Endpoint) → cmp_rows a b ≡ Ordering.gt → Before b a
unfolding cmp_rows
cmp_flip-Before a b h = ground (arith, text_cmp_flip a.domain b.domain)

-- Each row before the next.
abbrev pub IsRanked : List Endpoint → Type 0
IsRanked [] = Unit
IsRanked (x ∷ []) = Unit
IsRanked (x ∷ y ∷ ys) = Before x y × IsRanked (y ∷ ys)

IsRanked-tail : (x : Endpoint) (xs : List Endpoint) → IsRanked (x ∷ xs) → IsRanked xs
IsRanked-tail x [] h = tt
IsRanked-tail x (y ∷ ys) h = h.1

pub place-first :
    (o : Ordering) (x y : Endpoint) (ys later : List Endpoint)
    → o ≢ Ordering.gt
    → place o x y ys later ≡ x ∷ y ∷ ys
unfolding place
place-first Ordering.lt x y ys later h = refl
place-first Ordering.eq x y ys later h = refl
place-first Ordering.gt x y ys later h = absurd (h refl)

insert_row-IsRanked_cons :
    (w x : Endpoint) (ys : List Endpoint)
    → Before w x
    → IsRanked (w ∷ ys)
    → IsRanked (insert_row x ys)
    → IsRanked (w ∷ insert_row x ys)
unfolding insert_row
insert_row-IsRanked_cons w x [] before ranked r = (before, r)
insert_row-IsRanked_cons w x (y ∷ ys) before ranked r = elim (Ordering-cases (cmp_rows x y)) [
  | inl after ↦ rw after (ranked.0, rw after at r)
  | inr first ↦
      let e = place-first (cmp_rows x y) x y ys (insert_row x ys) first in rw e (before, rw e at r)
]

insert_row-IsRanked : (x : Endpoint) (ys : List Endpoint) → IsRanked ys → IsRanked (insert_row x ys)
unfolding insert_row
insert_row-IsRanked x [] ranked = tt
insert_row-IsRanked x (y ∷ ys) ranked = elim (Ordering-cases (cmp_rows x y)) [
  | inl after ↦ rw after (
      insert_row-IsRanked_cons y x ys (cmp_flip-Before x y after) ranked
        (insert_row-IsRanked x ys (IsRanked-tail y ys ranked)))
  | inr first ↦
      rw (place-first (cmp_rows x y) x y ys (insert_row x ys) first) (cmp-Before x y first, ranked)
]

insert_row-perm : (x : Endpoint) (ys : List Endpoint) → Perm (insert_row x ys) (x ∷ ys)
unfolding insert_row
insert_row-perm x [] = Perm.refl (x ∷ [])
insert_row-perm x (y ∷ ys) = elim (Ordering-cases (cmp_rows x y)) [
  | inl after ↦ rw after (Perm.trans (Perm.cons y (insert_row-perm x ys)) (Perm.swap x y ys))
  | inr first ↦
      rw (place-first (cmp_rows x y) x y ys (insert_row x ys) first) (Perm.refl (x ∷ y ∷ ys))
]

sort_rows-IsRanked : (xs : List Endpoint) → IsRanked (sort_rows xs)
unfolding sort_rows
sort_rows-IsRanked [] = tt
sort_rows-IsRanked (x ∷ xs) = insert_row-IsRanked x (sort_rows xs) (sort_rows-IsRanked xs)

sort_rows-perm : (xs : List Endpoint) → Perm (sort_rows xs) xs
unfolding sort_rows
sort_rows-perm [] = Perm.refl []
sort_rows-perm (x ∷ xs) =
    Perm.trans (insert_row-perm x (sort_rows xs)) (Perm.cons x (sort_rows-perm xs))

-- What a report says of a host: its name, the cell's address, bytes received, bytes sent and
-- connections, and whether it matches the filter.
abbrev pub reported : Option Text → Registry → Text × ℕ → Endpoint
reported filter r (host, i) = record {
  domain = host;
  ip_address = (read r i).ip;
  ingress_bytes = (read r i).ingress;
  egress_bytes = (read r i).egress;
  connections = (read r i).connections;
  matches_filter = matches_domain host filter;
}

rows-reported :
    (filter : Option Text) (r : Registry) (es : List (Text × ℕ))
    → map (row filter r) es ≡ map (reported filter r) es
unfolding row
rows-reported filter r [] = refl
rows-reported filter r (e ∷ es) = ap (λ l. reported filter r e ∷ l) (rows-reported filter r es)

-- A snapshot has one row for each entry of the registry, with the host, the address, the bytes received
-- as ingress, the bytes sent as egress and the connections of its cell, and its match with the filter;
-- and each row has more bytes received than the next; or as many and more bytes sent;
-- or as many of both and a domain that is no later in the order of texts.
pub snapshot-IsRanked :
    (filter : Option Text) (r : Registry)
    → IsRanked (snapshot filter r) × Perm (snapshot filter r) (map (reported filter r) r.endpoints)
unfolding snapshot hosts
snapshot-IsRanked filter r = (
  sort_rows-IsRanked (map (row filter r) r.endpoints),
  subst (Perm (sort_rows (map (row filter r) r.endpoints))) (rows-reported filter r r.endpoints)
      (sort_rows-perm (map (row filter r) r.endpoints)),
)
