-- ===== src/Stats/Rename.antt =====
-- `rename` against what it does to the view of each host.
use wiretally.Prelude.{
  ℕ, ◌+◌, ◌%◌, ◌<◌, ◌≡◌, ◌∙◌, subst, false, Option, none, some, if◌then◌else◌, arith, Option-cases,
  Bool-cases, inl, inr,
}
use wiretally.Text.{Text, text_eq, text_eq_iff}
use wiretally.Map
use wiretally.Map.{text_key, get-insert, get-remove, insert-IsMap, remove-IsMap}
use wiretally.Stats.{
  u64_mod, EndpointStats, Registry, read, update, merge, rename, rename_entry, rename_into,
}
use wiretally.Stats.Merge.{first_ip, merge_lem}
use wiretally.Stats.View.{counters, or_default, IsRegistry, update-IsRegistry, counters-update}

-- A registry without the entry of a host.
abbrev without : Text → Registry → Registry
without from r = record r { endpoints = Map.remove from r.endpoints }

without-IsRegistry : (r : Registry) (from : Text) → IsRegistry r → IsRegistry (without from r)
without-IsRegistry r from v = record {
  distinct = remove-IsMap from r.endpoints v.distinct;
  bounded = λ h i e. ground (arith, get-remove from h r.endpoints, v.bounded h i);
  separate = λ h k i e e'.
      ground
        (arith, get-remove from h r.endpoints, get-remove from k r.endpoints, v.separate h k i);
}

-- The entry moved to another name.
moved-IsRegistry :
    (r : Registry) (from to : Text) (i : ℕ)
    → IsRegistry r
    → Map.get from r.endpoints ≡ some i
    → IsRegistry (record r { endpoints = Map.insert to i (Map.remove from r.endpoints) })
moved-IsRegistry r from to i v e =
    let m = Map.remove from r.endpoints in
    record {
      distinct = insert-IsMap to i m (remove-IsMap from r.endpoints v.distinct);
      bounded = λ h j e'. ground (
        arith,
        get-insert to h i m,
        get-remove from h r.endpoints,
        v.bounded h j,
        v.bounded from i e,
      );
      separate = λ h k j eh ek. ground (
        arith,
        get-insert to h i m,
        get-insert to k i m,
        get-remove from h r.endpoints,
        get-remove from k r.endpoints,
        v.separate h k j,
        v.separate from h i e,
        v.separate from k i e,
        text_eq_iff to h,
        text_eq_iff to k,
        text_eq_iff from h,
        text_eq_iff from k,
      );
    }

-- Renaming keeps the registry well formed, if it was: no host has two entries, every entry has a cell,
-- and no two hosts share one.
pub rename-IsRegistry :
    (r : Registry) (from to : Text) → IsRegistry r → IsRegistry (rename from to r)
unfolding rename rename_entry rename_into read
rename-IsRegistry r from to v = elim (Bool-cases (text_eq from to)) [
  | inl same ↦ rw same v
  | inr other ↦ elim (Option-cases (Map.get from r.endpoints)) [
    | inl e ↦ rw (other, e, rename_entry) v
    | inr (i, e) ↦ elim (Option-cases (Map.get to (Map.remove from r.endpoints))) [
      | inl e' ↦ rw (other, e, rename_entry, e', rename_into) (moved-IsRegistry r from to i v e)
      | inr (j, e') ↦
          rw (other, e, rename_entry, e', rename_into)
            (update-IsRegistry (without from r) j (merge (read r i)) (without-IsRegistry r from v))
    ]
  ]
]

-- What renaming does to the counters by host, if two hosts' counters are joined by `join`.
abbrev pub renamed_by :
    (EndpointStats → EndpointStats → EndpointStats)
    → Text
    → Text
    → (Text → Option EndpointStats)
    → Text
    → Option EndpointStats
renamed_by join from to view h = if text_eq from to then view h else elim (view from) [
  | none ↦ view h
  | some stats ↦
      if text_eq from h
      then none
      else if text_eq to h
      then some (elim (view to) [ none ↦ stats | some existing ↦ join stats existing ])
      else view h
]

moved_counters :
    (r : Registry) (from to h : Text) (i : ℕ)
    → text_eq from to ≡ false
    → Map.get from r.endpoints ≡ some i
    → Map.get to (Map.remove from r.endpoints) ≡ none
    → counters (record r { endpoints = Map.insert to i (Map.remove from r.endpoints) }) h
      ≡ renamed_by merge from to (counters r) h
unfolding counters read
moved_counters r from to h i other e e' = ground (
  arith,
  other,
  e,
  e',
  text_eq_iff from h,
  text_eq_iff to h,
  text_eq_iff from to,
  get-insert to h i (Map.remove from r.endpoints),
  get-remove from h r.endpoints,
  get-remove from to r.endpoints,
)

merged_counters :
    (r : Registry) (from to h : Text) (i j : ℕ)
    → IsRegistry r
    → text_eq from to ≡ false
    → Map.get from r.endpoints ≡ some i
    → Map.get to (Map.remove from r.endpoints) ≡ some j
    → counters (update j (merge (read r i)) (without from r)) h
      ≡ renamed_by merge from to (counters r) h
merged_counters r from to h i j v other e e' =
    counters-update (without from r) to h j (merge (read r i)) (without-IsRegistry r from v) e'
    ∙ (unfold counters read in
        ground (
          arith,
          other,
          e,
          e',
          text_eq_iff from h,
          text_eq_iff to h,
          text_eq_iff from to,
          get-remove from h r.endpoints,
          get-remove from to r.endpoints,
        ))

pub renamed_counters :
    (r : Registry) (from to h : Text)
    → IsRegistry r
    → counters (rename from to r) h ≡ renamed_by merge from to (counters r) h
unfolding rename rename_entry rename_into read counters
renamed_counters r from to h v = elim (Bool-cases (text_eq from to)) [
  | inl same ↦ rw same
  | inr other ↦ elim (Option-cases (Map.get from r.endpoints)) [
    | inl e ↦ rw (other, e, rename_entry)
    | inr (i, e) ↦ elim (Option-cases (Map.get to (Map.remove from r.endpoints))) [
      | inl e' ↦ ground (arith, other, e, e', moved_counters r from to h i other e e')
      | inr (j, e') ↦ ground (arith, other, e, e', merged_counters r from to h i j v other e e')
    ]
  ]
]

-- The counters of both of two hosts: the sums of the bytes in each direction and of the connections,
-- modulo 2 ^ 64, and the address of the one that was there, or else the other's.
abbrev pub joint : EndpointStats → EndpointStats → EndpointStats
joint stats existing = record {
  ingress = (existing.ingress + stats.ingress) % u64_mod;
  egress = (existing.egress + stats.egress) % u64_mod;
  connections = (existing.connections + stats.connections) % u64_mod;
  ip = first_ip existing.ip stats.ip;
}

-- What renaming does to the counters by host.
abbrev pub renamed : Text → Text → (Text → Option EndpointStats) → Text → Option EndpointStats
renamed from to view h = renamed_by joint from to view h

-- In a well-formed registry in which the new name's connections are in range: renaming a host to itself,
-- or a host that is not there, changes no counters. Otherwise the old name goes, the new one has the sums
-- of the bytes received, of the bytes sent and of the connections of both, modulo 2 ^ 64, and its own
-- address or else the old name's (or just the old name's counters if it had none), and no other host's
-- counters change.
pub counters-rename :
    (r : Registry) (from to h : Text)
    → IsRegistry r
    → (or_default (counters r to)).connections < u64_mod
    → counters (rename from to r) h ≡ renamed from to (counters r) h
counters-rename r from to h v few = elim (Option-cases (counters r to)) [
  | inl e ↦ renamed_counters r from to h v ∙ ground (arith, e)
  | inr (existing, e) ↦ elim (Option-cases (counters r from)) [
    | inl e' ↦ renamed_counters r from to h v ∙ ground (arith, e, e')
    | inr (stats, e') ↦
        renamed_counters r from to h v
        ∙ ground (
          arith,
          e,
          e',
          merge_lem stats existing (subst (λ o. (or_default o).connections < u64_mod) e few),
        )
  ]
]
