-- ===== src/Report/Sums.antt =====
-- The totals of a report as sums over its endpoints.
use mathlib.Core.List.{Perm, foldr}
use native.Mathlib.Nat.{ℕ_set}
use mathlib.Core.List.Perm
use wiretally.Prelude.{
  ℕ, ◌<◌, ◌-◌, ◌++◌, ◌⊎◌, leb→le, ◌+◌, ◌%◌, ◌≤◌, ◌≡◌, refl, sym, ◌∙◌, Option, List, [], ◌∷◌, map,
  Bool-cases, inl, inr, length, take, leb, length-take, length-append, if◌then◌else◌, arith,
}
use wiretally.Text.{Text}
use wiretally.Stats.{u64_mod, Endpoint, Registry, read, row, rename, snapshot}
use wiretally.Stats.Order.{snapshot-IsRanked}
use wiretally.Stats.Sums.{
  sum_map, sum_cells, ingress-Adds, egress-Adds, connections-Adds, sum_cells-rename,
}
use wiretally.Stats.View.{IsRegistry}
use wiretally.Report.{
  Totals, default_totals, add_endpoint, fold_totals, totals_of, matching, breakdown, ellipsis,
  elide,
}

abbrev pub sum_by : (Endpoint → ℕ) → List Endpoint → ℕ
sum_by f es = foldr (λ e n. f e + n) 0 es

sum_by-perm : (f : Endpoint → ℕ) (xs ys : List Endpoint) → Perm xs ys → sum_by f xs ≡ sum_by f ys
sum_by-perm f xs ys p = Perm.foldr-eq ℕ_set (λ e n. f e + n) (λ x y n. omega arith) p 0

-- The sums of the endpoints, in the width of the counters.
abbrev pub sums : List Endpoint → Totals
sums es = record {
  ingress_bytes = sum_by (λ e. e.ingress_bytes) es % u64_mod;
  egress_bytes = sum_by (λ e. e.egress_bytes) es % u64_mod;
  connections = sum_by (λ e. e.connections) es % u64_mod;
}

abbrev plus : Totals → List Endpoint → Totals
plus acc es = record {
  ingress_bytes = (acc.ingress_bytes + sum_by (λ e. e.ingress_bytes) es) % u64_mod;
  egress_bytes = (acc.egress_bytes + sum_by (λ e. e.egress_bytes) es) % u64_mod;
  connections = (acc.connections + sum_by (λ e. e.connections) es) % u64_mod;
}

abbrev InWidth : Totals → Type 0
InWidth t =
    (t.ingress_bytes % u64_mod ≡ t.ingress_bytes)
    × (t.egress_bytes % u64_mod ≡ t.egress_bytes)
    × (t.connections % u64_mod ≡ t.connections)

totals-eq :
    (s t : Totals)
    → s.ingress_bytes ≡ t.ingress_bytes
    → s.egress_bytes ≡ t.egress_bytes
    → s.connections ≡ t.connections
    → s ≡ t
totals-eq s t e k c = ground (arith, e, k, c)

fold_totals-plus :
    (acc : Totals) (es : List Endpoint) → InWidth acc → fold_totals acc es ≡ plus acc es
unfolding fold_totals add_endpoint
fold_totals-plus acc [] w = ground (arith, w)
fold_totals-plus acc (e ∷ es) w =
    fold_totals-plus (add_endpoint acc e) es (omega arith, omega arith, omega arith)
    ∙ totals-eq _ _ (omega arith) (omega arith) (omega arith)

totals_of-sums : (es : List Endpoint) → totals_of es ≡ sums es
unfolding totals_of
totals_of-sums es =
    fold_totals-plus default_totals es (refl, refl, refl)
    ∙ totals-eq _ _ (omega arith) (omega arith) (omega arith)

-- The totals do not depend on the order of the endpoints.
totals_of-perm : (xs ys : List Endpoint) → Perm xs ys → totals_of xs ≡ totals_of ys
totals_of-perm xs ys p =
    totals_of-sums xs
    ∙ rw
        (
          sum_by-perm (λ e. e.ingress_bytes) xs ys p,
          sum_by-perm (λ e. e.egress_bytes) xs ys p,
          sum_by-perm (λ e. e.connections) xs ys p,
        )
        refl
    ∙ sym (totals_of-sums ys)

-- The counters of all hosts of the registry, summed in the width of the counters.
abbrev pub registry_totals : Registry → Totals
registry_totals r = record {
  ingress_bytes = sum_cells (λ s. s.ingress) r % u64_mod;
  egress_bytes = sum_cells (λ s. s.egress) r % u64_mod;
  connections = sum_cells (λ s. s.connections) r % u64_mod;
}

sums-rows :
    (filter : Option Text) (r : Registry) (es : List (Text × ℕ))
    → (sum_by (λ e. e.ingress_bytes) (map (row filter r) es) ≡ sum_map (λ i. (read r i).ingress) es)
      × (sum_by (λ e. e.egress_bytes) (map (row filter r) es) ≡ sum_map (λ i. (read r i).egress) es)
      × (sum_by (λ e. e.connections) (map (row filter r) es)
          ≡ sum_map (λ i. (read r i).connections) es)
unfolding row
sums-rows filter r [] = (refl, refl, refl)
sums-rows filter r ((host, i) ∷ es) =
    let (a, b, c) = sums-rows filter r es in (omega (arith, a), omega (arith, b), omega (arith, c))

-- The totals for all destinations, of the snapshot that a report is made from, are the sums of the
-- counters of all hosts of the registry, in the width of the counters, whatever the filter.
pub breakdown-snapshot :
    (filter : Option Text) (r : Registry)
    → (breakdown (snapshot filter r)).all_destinations ≡ registry_totals r
unfolding breakdown row
breakdown-snapshot filter r =
    let (a, b, c) = sums-rows filter r r.endpoints in
    totals_of-perm (snapshot filter r) (map (row filter r) r.endpoints)
      (snapshot-IsRanked filter r).1
    ∙ totals_of-sums (map (row filter r) r.endpoints)
    ∙ rw (a, b, c) refl

-- Renaming changes no totals.
pub registry_totals-rename :
    (r : Registry) (from to : Text)
    → IsRegistry r
    → registry_totals (rename from to r) ≡ registry_totals r
registry_totals-rename r from to v =
    totals-eq _ _ (sum_cells-rename (λ s. s.ingress) r from to ingress-Adds v)
      (sum_cells-rename (λ s. s.egress) r from to egress-Adds v)
      (sum_cells-rename (λ s. s.connections) r from to connections-Adds v)

abbrev pub others : List Endpoint → List Endpoint
others [] = []
others (e ∷ es) = if e.matches_filter then others es else e ∷ others es

sum_by-matching :
    (f : Endpoint → ℕ) (es : List Endpoint)
    → sum_by f (matching es) + sum_by f (others es) ≡ sum_by f es
unfolding matching
sum_by-matching f [] = refl
sum_by-matching f (e ∷ es) = ground (arith, sum_by-matching f es)

-- The totals of two groups of endpoints put together.
abbrev pub together : Totals → Totals → Totals
together s t = record {
  ingress_bytes = (s.ingress_bytes + t.ingress_bytes) % u64_mod;
  egress_bytes = (s.egress_bytes + t.egress_bytes) % u64_mod;
  connections = (s.connections + t.connections) % u64_mod;
}

-- The totals for all destinations are those of the matching endpoints together with those of the
-- endpoints that the table leaves out, in the width of the counters.
pub breakdown-together :
    (es : List Endpoint)
    → (breakdown es).all_destinations
      ≡ together (breakdown es).matching_filter (totals_of (others es))
unfolding breakdown
breakdown-together es =
    rw (totals_of-sums es, totals_of-sums (matching es), totals_of-sums (others es))
      (totals-eq _ _ (omega (arith, sum_by-matching (λ e. e.ingress_bytes) es))
        (omega (arith, sum_by-matching (λ e. e.egress_bytes) es))
        (omega (arith, sum_by-matching (λ e. e.connections) es)))

-- A name is shortened to at most `max` characters, of which a cut name has just the first `max - 1` of
-- its own, and a name that fits is not touched.
pub elide_lem :
    (text : Text) (max : ℕ)
    → 0 < max
    → (length (elide text max) ≤ max)
      × ((elide text max ≡ text)
          ⊎ ((max < length text) × (elide text max ≡ take (max - 1) text ++ ellipsis ∷ [])))
unfolding elide
elide_lem text max h = elim (Bool-cases (leb (length text) max)) [
  | inl fits ↦ rw fits (leb→le _ _ fits, inl refl)
  | inr long ↦ rw long (
    omega (arith, length-append (take (max - 1) text) (ellipsis ∷ []), length-take (max - 1) text),
    inr (ground (arith, long), refl),
  )
]
