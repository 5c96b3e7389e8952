-- ===== src/Stats/View.antt =====
-- The registry as its clients see it: which counters each host has. The invariant is that no two hosts
-- share a cell.
use wiretally.Prelude.{
  ℕ, ◌<◌, ◌≡◌, Option, none, some, [], ◌∷◌, length, length-append, Option-cases, inl, inr,
  if◌then◌else◌, arith,
}
use wiretally.Text.{Text, text_eq, text_eq_iff}
use wiretally.Map
use wiretally.Map.{text_key, get-insert, insert-IsMap, IsMap}
use wiretally.Stats.{
  EndpointStats, default_stats, Registry, new, read, update, endpoint, endpoint_entry,
  length-update_at, get_or-update_at, get_or-append_default, get_or_past,
}

abbrev pub cell_of : Registry → Option ℕ → Option EndpointStats
cell_of r none = none
cell_of r (some i) = some (read r i)

unfoldable pub counters : Registry → Text → Option EndpointStats
counters r h = cell_of r (Map.get h r.endpoints)

pub record IsRegistry (r : Registry) : Type 0 where
  pub distinct : IsMap r.endpoints
  pub bounded : (h : Text) (i : ℕ) → Map.get h r.endpoints ≡ some i → i < length r.cells
  pub separate :
      (h k : Text) (i : ℕ) → Map.get h r.endpoints ≡ some i → Map.get k r.endpoints ≡ some i → h ≡ k

pub new-IsRegistry : IsRegistry new
unfolding new Map.get
new-IsRegistry = record {
  distinct = tt;
  bounded = λ h i e. ground arith;
  separate = λ h k i e. ground arith;
}

pub update-IsRegistry :
    (r : Registry) (i : ℕ) (f : EndpointStats → EndpointStats)
    → IsRegistry r
    → IsRegistry (update i f r)
unfolding update
update-IsRegistry r i f v = record {
  distinct = v.distinct;
  bounded = λ h j e. omega (arith, length-update_at i f r.cells, v.bounded h j e);
  separate = v.separate;
}

-- A new entry with a new cell.
added-IsRegistry :
    (r : Registry) (host : Text)
    → IsRegistry r
    → Map.get host r.endpoints ≡ none
    → IsRegistry (endpoint_entry none host r).1
unfolding endpoint_entry
added-IsRegistry r host v fresh = record {
  distinct = insert-IsMap host (length r.cells) r.endpoints v.distinct;
  bounded = λ h i e. ground (
    arith,
    get-insert host h (length r.cells) r.endpoints,
    v.bounded h i,
    length-append r.cells (default_stats ∷ []),
  );
  separate = λ h k i e e'. ground (
    arith,
    get-insert host h (length r.cells) r.endpoints,
    get-insert host k (length r.cells) r.endpoints,
    text_eq_iff host h,
    text_eq_iff host k,
    v.bounded h i,
    v.bounded k i,
    v.separate h k i,
  );
}

pub endpoint-IsRegistry :
    (r : Registry) (host : Text) → IsRegistry r → IsRegistry (endpoint host r).1
unfolding endpoint
endpoint-IsRegistry r host v = elim (Option-cases (Map.get host r.endpoints)) [
  | inl e ↦ rw (e, endpoint_entry) (added-IsRegistry r host v e)
  | inr (i, e) ↦ rw (e, endpoint_entry) v
]

-- Through a handle of `host` just its counters are updated.
pub counters-update :
    (r : Registry) (host h : Text) (i : ℕ) (f : EndpointStats → EndpointStats)
    → IsRegistry r
    → Map.get host r.endpoints ≡ some i
    → counters (update i f r) h ≡ (if text_eq host h then some (f (read r i)) else counters r h)
unfolding counters update read
counters-update r host h i f v e = elim (Option-cases (Map.get h r.endpoints)) [
  | inl missing ↦ ground (arith, missing, e, text_eq_iff host h)
  | inr (j, found) ↦ ground (
    arith,
    found,
    e,
    text_eq_iff host h,
    v.bounded host i e,
    v.separate host h i e,
    get_or-update_at i j f r.cells default_stats,
  )
]

abbrev pub or_default : Option EndpointStats → EndpointStats
or_default none = default_stats
or_default (some s) = s

-- Asking for a host's handle creates zero counters if the host has none, and changes no others. The
-- handle reads the counters that the host then has.
pub endpoint-counters :
    (r : Registry) (host h : Text)
    → IsRegistry r
    → (counters (endpoint host r).1 h
        ≡ (if text_eq host h then some (or_default (counters r host)) else counters r h))
      × (Map.get host (endpoint host r).1.endpoints ≡ some (endpoint host r).0)
unfolding endpoint endpoint_entry counters read
endpoint-counters r host h v = elim (Option-cases (Map.get host r.endpoints)) [
  | inl e ↦ elim (Option-cases (Map.get h r.endpoints)) [
    | inl none_h ↦ (
      ground (
        arith,
        e,
        none_h,
        text_eq_iff host h,
        get-insert host h (length r.cells) r.endpoints,
        get_or-append_default (length r.cells) r.cells default_stats,
        get_or_past r.cells default_stats (length r.cells),
      ),
      ground (arith, e, get-insert host host (length r.cells) r.endpoints, text_eq_iff host host),
    )
    | inr (j, f) ↦ (
      ground (
        arith,
        e,
        f,
        text_eq_iff host h,
        get-insert host h (length r.cells) r.endpoints,
        get_or-append_default j r.cells default_stats,
        get_or_past r.cells default_stats (length r.cells),
      ),
      ground (arith, e, get-insert host host (length r.cells) r.endpoints, text_eq_iff host host),
    )
  ]
  | inr (i, e) ↦ (ground (arith, e, text_eq_iff host h), ground (arith, e))
]

-- The view of the registry with the counters of one host set.
abbrev pub with_counters : Text → EndpointStats → Registry → Text → Option EndpointStats
with_counters host s r h = if text_eq host h then some s else counters r h

-- What a handle reads is its host's counters.
pub read-counters :
    (r : Registry) (host : Text) (i : ℕ)
    → Map.get host r.endpoints ≡ some i
    → read r i ≡ or_default (counters r host)
unfolding counters
read-counters r host i e = ground (arith, e)

pub known_counters :
    (r : Registry) (host : Text) (i : ℕ)
    → Map.get host r.endpoints ≡ some i
    → counters r host ≡ some (or_default (counters r host))
unfolding counters
known_counters r host i e = ground (arith, e)

pub updated_counters :
    (r : Registry) (host h : Text) (i : ℕ) (f : EndpointStats → EndpointStats)
    → IsRegistry r
    → Map.get host r.endpoints ≡ some i
    → counters (update i f r) h ≡ with_counters host (f (or_default (counters r host))) r h
updated_counters r host h i f v e =
    ground (arith, counters-update r host h i f v e, read-counters r host i e)
