-- ===== src/Stats/Sums.antt =====
-- Sums over the entries of the registry, and what renaming does to them.
use wiretally.Prelude.{
  ℕ, zero, suc, ◌+◌, ◌%◌, ◌<◌, ◌≡◌, ◌≢◌, refl, ap, ◌∙◌, ◌==◌, Option, none, some, List, [], ◌∷◌,
  Option-cases, Bool-cases, inl, inr, length, if◌then◌else◌, arith,
}
use wiretally.Text.{Text, text_eq, text_eq_iff}
use wiretally.Map
use wiretally.Map.{text_key, IsMap, get-insert, get-remove, remove-IsMap}
use wiretally.Stats.{
  u64_mod, EndpointStats, default_stats, Registry, read, update, add_ingress, add_egress,
  add_connection, add_connections, observe_ip, observe_if, merge, rename, rename_entry, rename_into,
  get_or-update_at,
}
use wiretally.Stats.View.{IsRegistry}

abbrev pub sum_map : (ℕ → ℕ) → List (Text × ℕ) → ℕ
sum_map g [] = 0
sum_map g ((host, i) ∷ m) = g i + sum_map g m

abbrev pub value_of : (ℕ → ℕ) → Option ℕ → ℕ
value_of g none = 0
value_of g (some i) = g i

module _ (g : ℕ → ℕ) (k : Text) where
  sum_map-absent :
      (m : List (Text × ℕ)) → Map.get k m ≡ none → sum_map g (Map.remove k m) ≡ sum_map g m
  unfolding Map.get Map.remove
  sum_map-absent [] e = refl
  sum_map-absent ((h, i) ∷ m) e = ground (arith, sum_map-absent m)

  sum_map-remove :
      (m : List (Text × ℕ))
      → IsMap m
      → sum_map g (Map.remove k m) + value_of g (Map.get k m) ≡ sum_map g m
  unfolding Map.get Map.remove
  sum_map-remove [] v = refl
  sum_map-remove ((h, i) ∷ m) (fresh, v) =
      ground (arith, sum_map-remove m v, sum_map-absent m, text_eq_iff h k, fresh)

  sum_map-insert :
      (i : ℕ) (m : List (Text × ℕ))
      → sum_map g (Map.insert k i m) + value_of g (Map.get k m) ≡ sum_map g m + g i
  unfolding Map.get Map.insert
  sum_map-insert i [] = omega arith
  sum_map-insert i ((h, j) ∷ m) = ground (arith, sum_map-insert i m)

-- Functions that agree on the cells of a map have the same sum over it.
sum_map_cong :
    (g g' : ℕ → ℕ) (m : List (Text × ℕ))
    → IsMap m
    → ((k : Text) (i : ℕ) → Map.get k m ≡ some i → g' i ≡ g i)
    → sum_map g' m ≡ sum_map g m
unfolding Map.get
sum_map_cong g g' [] v same = refl
sum_map_cong g g' ((h, i) ∷ m) (fresh, v) same = omega (
  arith,
  same h i (ground (arith, text_eq_iff h h)),
  sum_map_cong g g' m v (λ k j e. same k j (ground (arith, text_eq_iff h k, fresh, e))),
)

-- Another value for the cell of one host.
sum_map_changed :
    (g g' : ℕ → ℕ) (m : List (Text × ℕ)) (k : Text) (j : ℕ)
    → IsMap m
    → Map.get k m ≡ some j
    → ((h : Text) → Map.get h m ≡ some j → h ≡ k)
    → ((i : ℕ) → i ≢ j → g' i ≡ g i)
    → sum_map g' m + g j ≡ sum_map g m + g' j
sum_map_changed g g' m k j v e only others = omega (
  arith,
  removed g,
  removed g',
  sum_map_cong g g' (Map.remove k m) (remove-IsMap k m v)
      (λ h i found. others i (other_cell h i found)),
)
  where
    removed : (f : ℕ → ℕ) → sum_map f (Map.remove k m) + f j ≡ sum_map f m
    removed f = ground (arith, sum_map-remove f k m v, e)

    other_cell : (h : Text) (i : ℕ) → Map.get h (Map.remove k m) ≡ some i → i ≢ j
    other_cell h i found same =
        ground (arith, get-remove k h m, found, only h, text_eq_iff k h, same)

-- The sum of a counter over the hosts of the registry.
abbrev pub sum_cells : (EndpointStats → ℕ) → Registry → ℕ
sum_cells f r = sum_map (λ i. f (read r i)) r.endpoints

-- A counter that merging adds up, in its width.
abbrev pub Adds : (EndpointStats → ℕ) → Type 0
Adds f =
    (stats existing : EndpointStats)
    → f (merge stats existing) % u64_mod ≡ (f existing + f stats) % u64_mod

connections-add_connections :
    (n : ℕ) (s : EndpointStats)
    → ((add_connections n s).connections % u64_mod ≡ (s.connections + n) % u64_mod)
      × ((add_connections n s).ingress ≡ s.ingress)
      × ((add_connections n s).egress ≡ s.egress)
unfolding add_connections add_connection
connections-add_connections zero s = (omega arith, refl, refl)
connections-add_connections (suc n) s =
    let (a, b, c) = connections-add_connections n (add_connection s) in (omega (arith, a), b, c)

counters_add :
    (stats existing : EndpointStats)
    → ((merge stats existing).ingress % u64_mod ≡ (existing.ingress + stats.ingress) % u64_mod)
      × ((merge stats existing).egress % u64_mod ≡ (existing.egress + stats.egress) % u64_mod)
      × ((merge stats existing).connections % u64_mod
          ≡ (existing.connections + stats.connections) % u64_mod)
unfolding merge observe_if observe_ip add_ingress add_egress
counters_add stats existing =
    let s = add_egress stats.egress (add_ingress stats.ingress existing) in
    ground (arith, connections-add_connections stats.connections s)

pub ingress-Adds : Adds (λ s. s.ingress)
ingress-Adds stats existing = (counters_add stats existing).0

pub egress-Adds : Adds (λ s. s.egress)
egress-Adds stats existing = (counters_add stats existing).1

pub connections-Adds : Adds (λ s. s.connections)
connections-Adds stats existing = (counters_add stats existing).2

read-update :
    (r : Registry) (j i : ℕ) (f : EndpointStats → EndpointStats)
    → j < length r.cells
    → read (update j f r) i ≡ (if j == i then f (read r j) else read r i)
unfolding read update
read-update r j i f h = get_or-update_at j i f r.cells default_stats h

mod_balance :
    (s' s t a b c : ℕ)
    → s' + a ≡ s + c
    → s + b ≡ t
    → c % u64_mod ≡ (a + b) % u64_mod
    → s' % u64_mod ≡ t % u64_mod
mod_balance s' s t a b c h k e = omega arith

-- The counters of the old name go to the entry of the new one.
merged_sum :
    (f : EndpointStats → ℕ) (r : Registry) (from to : Text) (i j : ℕ)
    → Adds f
    → IsRegistry r
    → Map.get from r.endpoints ≡ some i
    → Map.get to (Map.remove from r.endpoints) ≡ some j
    → sum_cells f
          (update j (merge (read r i)) (record r { endpoints = Map.remove from r.endpoints }))
        % u64_mod
      ≡ sum_cells f r % u64_mod
unfolding update read
merged_sum f r from to i j adds v e e' =
    let r' = update j (merge (read r i)) r in
    let g : ℕ → ℕ = λ x. f (read r x) in
    let g' : ℕ → ℕ = λ x. f (read r' x) in
    let m = Map.remove from r.endpoints in
    let at_to = get_to in
    mod_balance (sum_map g' m) (sum_map g m) (sum_map g r.endpoints) (g j) (g i) (g' j)
      (sum_map_changed g g' m to j (remove-IsMap from r.endpoints v.distinct) e'
        (λ h found. v.separate h to j (in_all h found) at_to)
        (λ x other.
          ap f (read-update r j x (merge (read r i)) (v.bounded to j at_to) ∙ ne_keeps x other)))
      (ground (arith, sum_map-remove g from r.endpoints v.distinct, e))
      (rw (read-update r j j (merge (read r i)) (v.bounded to j at_to))
        (ground (arith, adds (read r i) (read r j))))
  where
    in_all :
        (h : Text)
        → Map.get h (Map.remove from r.endpoints) ≡ some j
        → Map.get h r.endpoints ≡ some j
    in_all h found = ground (arith, get-remove from h r.endpoints, found)

    get_to : Map.get to r.endpoints ≡ some j
    get_to = ground (arith, get-remove from to r.endpoints, e')

    ne_keeps :
        (x : ℕ) → x ≢ j → (if j == x then merge (read r i) (read r j) else read r x) ≡ read r x
    ne_keeps x other = ground (arith, other)

moved_sum :
    (f : EndpointStats → ℕ) (r : Registry) (from to : Text) (i : ℕ)
    → IsRegistry r
    → Map.get from r.endpoints ≡ some i
    → Map.get to (Map.remove from r.endpoints) ≡ none
    → sum_cells f (record r { endpoints = Map.insert to i (Map.remove from r.endpoints) }) % u64_mod
      ≡ sum_cells f r % u64_mod
unfolding read
moved_sum f r from to i v e e' =
    let g : ℕ → ℕ = λ x. f (read r x) in
    ap (λ n. n % u64_mod)
      (ground (
        arith,
        e,
        e',
        sum_map-insert g to i (Map.remove from r.endpoints),
        sum_map-remove g from r.endpoints v.distinct,
      ))

-- Renaming loses no counter: the sum over all hosts stays, in the width of the counter.
pub sum_cells-rename :
    (f : EndpointStats → ℕ) (r : Registry) (from to : Text)
    → Adds f
    → IsRegistry r
    → sum_cells f (rename from to r) % u64_mod ≡ sum_cells f r % u64_mod
unfolding rename rename_entry rename_into read
sum_cells-rename f r from to adds v = elim (Bool-cases (text_eq from to)) [
  | inl same ↦ rw same refl
  | inr other ↦ elim (Option-cases (Map.get from r.endpoints)) [
    | inl e ↦ rw (other, e) refl
    | inr (i, e) ↦ elim (Option-cases (Map.get to (Map.remove from r.endpoints))) [
      | inl e' ↦ rw (other, e, e') (moved_sum f r from to i v e e')
      | inr (j, e') ↦ rw (other, e, e') (merged_sum f r from to i j adds v e e')
    ]
  ]
]
