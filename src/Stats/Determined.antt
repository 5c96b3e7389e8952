-- ===== src/Stats/Determined.antt =====
-- What a registry reports is determined by the counters of its hosts. The order of the entries, which is
-- the hasher's, and the places of the counters do not show.
use wiretally.Prelude.{
  ℕ, ◌≡◌, refl, ap, sym, subst, ◌∙◌, Option, none, some, List, [], ◌∷◌, map, Bool-cases, inl, inr,
  arith,
}
use mathlib.Core.Path.{ap₂}
use wiretally.Text.{Text, text_eq, text_eq_iff}
use wiretally.Map
use wiretally.Map.{text_key, IsMap, get-remove, remove-IsMap, remove_absent}
use wiretally.Stats.{
  EndpointStats, Endpoint, Registry, read, hosts, row, matches_domain, insert_row, sort_rows,
  snapshot,
}
use wiretally.Stats.View.{counters, cell_of, IsRegistry}
use wiretally.Stats.Sorting.{insert_row_swap}

-- The row of a host with its counters.
abbrev row_of : Option Text → Text × EndpointStats → Endpoint
row_of filter (domain, s) = record {
  domain = domain;
  ip_address = s.ip;
  ingress_bytes = s.ingress;
  egress_bytes = s.egress;
  connections = s.connections;
  matches_filter = matches_domain domain filter;
}

abbrev sorted : Option Text → List (Text × EndpointStats) → List Endpoint
sorted filter es = sort_rows (map (row_of filter) es)

-- The entry of a host may as well be the first.
sorted-remove :
    (filter : Option Text) (k : Text) (s : EndpointStats) (es : List (Text × EndpointStats))
    → IsMap es
    → Map.get k es ≡ some s
    → sorted filter es ≡ insert_row (row_of filter (k, s)) (sorted filter (Map.remove k es))
unfolding sort_rows Map.get Map.remove
sorted-remove filter k s [] v e = ground (arith, e)
sorted-remove filter k s ((j, t) ∷ es) v e = elim (Bool-cases (text_eq j k)) [
  | inl same ↦
      let jk : j ≡ k = (text_eq_iff j k).0 same in
      let ts : t ≡ s = ground (arith, same, e) in
      let gone : Map.get k es ≡ none = subst (λ h. Map.get h es ≡ none) jk v.0 in
      let rest : es ≡ Map.remove k ((j, t) ∷ es) = rw same (sym (remove_absent k es gone)) in
      ap₂ (λ p l. insert_row (row_of filter p) (sorted filter l)) (ap₂ (λ h x. (h, x)) jk ts) rest
  | inr other ↦
      let found : Map.get k es ≡ some s = rw other at e in
      let rest : (j, t) ∷ Map.remove k es ≡ Map.remove k ((j, t) ∷ es) = rw other refl in
      ap (insert_row (row_of filter (j, t))) (sorted-remove filter k s es v.1 found)
      ∙ insert_row_swap (row_of filter (j, t)) (row_of filter (k, s))
          (sorted filter (Map.remove k es)) (λ jk. ground (arith, other, text_eq_iff j k, jk))
      ∙ ap (λ l. insert_row (row_of filter (k, s)) (sorted filter l)) rest
]

-- Two maps with the same entries.
sorted_same :
    (filter : Option Text) (es fs : List (Text × EndpointStats))
    → IsMap es
    → IsMap fs
    → ((h : Text) → Map.get h es ≡ Map.get h fs)
    → sorted filter es ≡ sorted filter fs
unfolding sort_rows Map.get
sorted_same filter [] [] v w same = refl
sorted_same filter [] ((j, t) ∷ fs) v w same = absurd (ground (arith, same j, text_eq_iff j j))
sorted_same filter ((k, s) ∷ es) fs v w same =
    let found : Map.get k fs ≡ some s = ground (arith, same k, text_eq_iff k k) in
    let later =
      sorted_same filter es (Map.remove k fs) v.1 (remove-IsMap k fs w)
        (λ h. ground (arith, same h, v.0, get-remove k h fs, text_eq_iff k h)) in
    ap (insert_row (row_of filter (k, s))) later ∙ sym (sorted-remove filter k s fs w found)

-- The entries with the counters that they lead to.
abbrev entries : Registry → List (Text × ℕ) → List (Text × EndpointStats)
entries r [] = []
entries r ((h, i) ∷ es) = (h, read r i) ∷ entries r es

get-entries :
    (r : Registry) (h : Text) (es : List (Text × ℕ))
    → Map.get h (entries r es) ≡ cell_of r (Map.get h es)
unfolding Map.get
get-entries r h [] = refl
get-entries r h ((k, i) ∷ es) = elim (Bool-cases (text_eq k h)) [
  | inl same ↦ rw same refl
  | inr other ↦ rw other (get-entries r h es)
]

entries-IsMap : (r : Registry) (es : List (Text × ℕ)) → IsMap es → IsMap (entries r es)
entries-IsMap r [] v = tt
entries-IsMap r ((h, i) ∷ es) v = (get-entries r h es ∙ ap (cell_of r) v.0, entries-IsMap r es v.1)

rows-entries :
    (filter : Option Text) (r : Registry) (es : List (Text × ℕ))
    → map (row filter r) es ≡ map (row_of filter) (entries r es)
unfolding row
rows-entries filter r [] = refl
rows-entries filter r ((h, i) ∷ es) = ap (λ l. row filter r (h, i) ∷ l) (rows-entries filter r es)

-- The hosts of both registries are the same, with the same counters.
abbrev pub SameCounters : Registry → Registry → Type 0
SameCounters r s = (h : Text) → counters r h ≡ counters s h

-- Two registries whose hosts have the same counters give the same snapshot, in the same order, however
-- their maps and their counters are laid out: what is reported does not depend on the order in which the
-- hasher gives the hosts.
pub snapshot-SameCounters :
    (filter : Option Text) (r s : Registry)
    → IsRegistry r
    → IsRegistry s
    → SameCounters r s
    → snapshot filter r ≡ snapshot filter s
unfolding snapshot hosts counters
snapshot-SameCounters filter r s v w same =
    ap sort_rows (rows-entries filter r r.endpoints)
    ∙ sorted_same filter (entries r r.endpoints) (entries s s.endpoints)
        (entries-IsMap r r.endpoints v.distinct) (entries-IsMap s s.endpoints w.distinct)
        (λ h. get-entries r h r.endpoints ∙ same h ∙ sym (get-entries s h s.endpoints))
    ∙ ap sort_rows (sym (rows-entries filter s s.endpoints))
