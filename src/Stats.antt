-- ===== src/Stats.antt =====
-- src/stats.rs: the counters of an endpoint, and the registry of all endpoints.
--
-- An `Arc<EndpointStats>` is a position in the registry's list of cells, so that handles share their
-- counters; a cell that the map no longer names stays readable through the handles that are left.
-- A lock is held for a whole operation, and each atomic update is a step of its own, so operations
-- are functions from state to state. Counters wrap at 2 ^ 64, as `fetch_add` does.
mod Cells
pub mod View
pub mod Rename
pub mod Merge
pub mod Open
pub mod Sums
pub mod Filter
pub mod Order
mod Sorting
pub mod Determined
pub mod Abstract
mod Tests
unfoldable pub use Cells.{update_at}
pub use Cells.{
  update_at_own, update_at_twice, update_at_same, length-update_at, get_or-update_at,
  get_or-append_default, get_or_past,
}
use Prim.Native.Nat.{compare, Ordering}
use wiretally.Prelude.{
  ℕ, zero, suc, ◌+◌, ◌-◌, ◌%◌, ◌^◌, Bool, true, false, ◌||◌, Option, none, some, List, [], ◌∷◌,
  ◌++◌, map, length, get_or, if◌then◌else◌,
}
use wiretally.Text.{
  Text, chars, is_empty, text_eq, to_ascii_lowercase, trim_end_matches, trim_matches,
  trim_start_matches, ends_with,
}
use wiretally.Net.{IpAddr}
use wiretally.Map
use wiretally.Map.{text_key}

abbrev pub u64_mod : ℕ
u64_mod = 2 ^ 64

pub record EndpointStats : Type 0 where
  pub ingress : ℕ
  pub egress : ℕ
  pub connections : ℕ
  pub ip : Option IpAddr

abbrev pub default_stats : EndpointStats
default_stats = record { ingress = 0; egress = 0; connections = 0; ip = none }

unfoldable pub add_ingress : ℕ → EndpointStats → EndpointStats
add_ingress n s = record s { ingress = (s.ingress + n) % u64_mod }

unfoldable pub add_egress : ℕ → EndpointStats → EndpointStats
add_egress n s = record s { egress = (s.egress + n) % u64_mod }

unfoldable pub add_connection : EndpointStats → EndpointStats
add_connection s = record s { connections = (s.connections + 1) % u64_mod }

-- `get_or_insert`: the first address stays.
unfoldable pub get_or_insert : Option IpAddr → IpAddr → Option IpAddr
get_or_insert none addr = some addr
get_or_insert (some first) addr = some first

unfoldable pub observe_ip : IpAddr → EndpointStats → EndpointStats
unfolding get_or_insert
observe_ip addr s = record s { ip = get_or_insert s.ip addr }

pub record Endpoint : Type 0 where
  pub domain : Text
  pub ip_address : Option IpAddr
  pub ingress_bytes : ℕ
  pub egress_bytes : ℕ
  pub connections : ℕ
  pub matches_filter : Bool

pub record Registry : Type 0 where
  pub cells : List EndpointStats
  pub endpoints : List (Text × ℕ)
  pub open_connections : ℕ
  pub next_conn_id : ℕ

unfoldable pub new : Registry
new = record { cells = []; endpoints = []; open_connections = 0; next_conn_id = 0 }

-- What a handle reads, and an update through a handle.
unfoldable pub read : Registry → ℕ → EndpointStats
read r i = get_or r.cells i default_stats

unfoldable pub update : ℕ → (EndpointStats → EndpointStats) → Registry → Registry
unfolding update_at
update i f r = record r { cells = update_at i f r.cells }

unfoldable pub endpoint_entry : Option ℕ → Text → Registry → ℕ × Registry
endpoint_entry (some i) host r = (i, r)
endpoint_entry none host r = (
  length r.cells,
  record r {
    cells = r.cells ++ default_stats ∷ [];
    endpoints = Map.insert host (length r.cells) r.endpoints;
  },
)

unfoldable pub endpoint : Text → Registry → ℕ × Registry
unfolding endpoint_entry
endpoint host r = endpoint_entry (Map.get host r.endpoints) host r

unfoldable pub next_id : Registry → ℕ × Registry
next_id r = let id = (r.next_conn_id + 1) % u64_mod in (id, record r { next_conn_id = id })

unfoldable pub track_open : Registry → Registry
track_open r = record r { open_connections = (r.open_connections + 1) % u64_mod }

-- `OpenGuard::drop`; `fetch_sub` wraps as well.
unfoldable pub drop_guard : Registry → Registry
drop_guard r = record r { open_connections = (r.open_connections + u64_mod - 1) % u64_mod }

-- `for _ in 0..n { existing.add_connection() }`.
unfoldable pub add_connections : ℕ → EndpointStats → EndpointStats
unfolding add_connection
add_connections zero s = s
add_connections (suc n) s = add_connections n (add_connection s)

unfoldable pub observe_if : Option IpAddr → EndpointStats → EndpointStats
unfolding observe_ip
observe_if none s = s
observe_if (some addr) s = observe_ip addr s

-- The counters of `stats` added to those of `existing`.
unfoldable pub merge : EndpointStats → EndpointStats → EndpointStats
unfolding add_ingress add_egress add_connections observe_if
merge stats existing = observe_if stats.ip (
    add_connections stats.connections
      (add_egress stats.egress (add_ingress stats.ingress existing)))

-- `rename` with `i` removed from the map: the entry of `to` takes the counters, or the name.
unfoldable pub rename_into : Option ℕ → ℕ → Text → Registry → Registry
unfolding merge update
rename_into (some j) i to r = update j (merge (read r i)) r
rename_into none i to r = record r { endpoints = Map.insert to i r.endpoints }

unfoldable pub rename_entry : Option ℕ → Text → Text → Registry → Registry
unfolding rename_into
rename_entry none from to r = r
rename_entry (some i) from to r =
    let m = Map.remove from r.endpoints in
    rename_into (Map.get to m) i to (record r { endpoints = m })

unfoldable pub rename : Text → Text → Registry → Registry
unfolding rename_entry
rename from to r = if text_eq from to then r else rename_entry (Map.get from r.endpoints) from to r

unfoldable pub hosts : Registry → List (Text × ℕ)
hosts r = r.endpoints

unfoldable pub matches_suffix : Text → Text → Bool
matches_suffix domain filter =
    if is_empty filter
    then true
    else text_eq domain filter || ends_with (chars "." ++ filter) domain

unfoldable pub matches_domain : Text → Option Text → Bool
unfolding matches_suffix
matches_domain domain none = true
matches_domain domain (some filter) =
    matches_suffix (to_ascii_lowercase (trim_end_matches b'.' domain))
      (to_ascii_lowercase (trim_matches b'.' (trim_start_matches (chars "*.") filter)))

unfoldable pub row : Option Text → Registry → Text × ℕ → Endpoint
row filter r (domain, i) = record {
  domain = domain;
  ip_address = (read r i).ip;
  ingress_bytes = (read r i).ingress;
  egress_bytes = (read r i).egress;
  connections = (read r i).connections;
  matches_filter = matches_domain domain filter;
}

-- `Ordering::then_with`, `str::cmp`.
unfoldable pub then_with : Ordering → Ordering → Ordering
then_with Ordering.eq o = o
then_with Ordering.lt o = Ordering.lt
then_with Ordering.gt o = Ordering.gt

unfoldable pub text_cmp : Text → Text → Ordering
unfolding then_with
text_cmp [] [] = Ordering.eq
text_cmp [] (d ∷ t) = Ordering.lt
text_cmp (c ∷ s) [] = Ordering.gt
text_cmp (c ∷ s) (d ∷ t) = then_with (compare c d) (text_cmp s t)

-- The closure that `snapshot` sorts by.
unfoldable pub cmp_rows : Endpoint → Endpoint → Ordering
unfolding then_with text_cmp
cmp_rows a b =
    then_with (compare b.ingress_bytes a.ingress_bytes)
      (then_with (compare b.egress_bytes a.egress_bytes) (text_cmp a.domain b.domain))

-- The stable sort of `sort_by`: a row goes before the first that it does not follow.
unfoldable pub place :
    Ordering → Endpoint → Endpoint → List Endpoint → List Endpoint → List Endpoint
place Ordering.gt x y ys later = y ∷ later
place Ordering.eq x y ys later = x ∷ y ∷ ys
place Ordering.lt x y ys later = x ∷ y ∷ ys

unfoldable pub insert_row : Endpoint → List Endpoint → List Endpoint
unfolding place
insert_row x [] = x ∷ []
insert_row x (y ∷ ys) = place (cmp_rows x y) x y ys (insert_row x ys)

unfoldable pub sort_rows : List Endpoint → List Endpoint
unfolding insert_row
sort_rows [] = []
sort_rows (x ∷ xs) = insert_row x (sort_rows xs)

unfoldable pub snapshot : Option Text → Registry → List Endpoint
unfolding row sort_rows hosts
snapshot filter r = sort_rows (map (row filter r) (hosts r))
