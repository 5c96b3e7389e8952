-- ===== src/Dns.antt =====
-- src/dns.rs: the cached reverse resolver. `hostname` uses the lock on the cache twice, with the question
-- to the resolver in between, and other calls may run there: it is modelled in steps. What
-- `reverse_lookup` answers comes with each call, so that it may differ from call to call.
mod Tests
use wiretally.Prelude.{Bool, true, false, Option, none, some, List, [], ◌∷◌, ◌++◌, if◌then◌else◌}
use wiretally.Text.{Text, is_empty, trim_end_matches, to_ascii_lowercase}
use wiretally.Net.{IpAddr}
use wiretally.Map
use wiretally.Map.{ip_key}

-- The data of a record, as far as the program tells it apart.
pub data RData : Type 0 where
  ptr : Text → RData
  other : RData

pub record ReverseResolver : Type 0 where
  -- Whether there is a resolver.
  pub enabled : Bool
  pub cache : List (IpAddr × Option Text)
  -- The addresses that the resolver was asked for.
  pub asked : List IpAddr

unfoldable pub from_system : Bool → ReverseResolver
from_system built = record { enabled = built; cache = []; asked = [] }

unfoldable pub disabled : ReverseResolver
disabled = record { enabled = false; cache = []; asked = [] }

-- The `find_map` over the answers.
unfoldable pub find_ptr : List RData → Option Text
find_ptr [] = none
find_ptr (ptr name ∷ records) = some (to_ascii_lowercase (trim_end_matches b'.' name))
find_ptr (other ∷ records) = find_ptr records

-- `filter(|name| !name.is_empty())`.
unfoldable pub not_empty : Option Text → Option Text
not_empty none = none
not_empty (some name) = if is_empty name then none else some name

-- The `ok().and_then(…).filter(…)`; `none` is a failed lookup.
unfoldable pub resolved_name : Option (List RData) → Option Text
unfolding find_ptr not_empty
resolved_name none = none
resolved_name (some records) = not_empty (find_ptr records)

unfoldable pub remember : IpAddr → Option Text → ReverseResolver → Option Text × ReverseResolver
remember ip name s = (name, record s { cache = Map.insert ip name s.cache })

-- The first use of the cache's lock in `hostname`, and the question to the resolver: a hit is the
-- answer, and on a miss the resolver, if there is one, is asked.
unfoldable pub begin : IpAddr → ReverseResolver → Option (Option Text) × ReverseResolver
begin ip s = elim (Map.get ip s.cache) [
  | some hit ↦ (some hit, s)
  | none ↦ (none, if s.enabled then record s { asked = s.asked ++ ip ∷ [] } else s)
]

-- The second use of the lock, behind the await.
unfoldable pub settle :
    IpAddr → Option (List RData) → ReverseResolver → Option Text × ReverseResolver
unfolding resolved_name remember
settle ip answer s = remember ip (if s.enabled then resolved_name answer else none) s

-- How far a call of `hostname` is: not begun, behind the first use of the lock, or at its result.
pub data Progress : Type 0 where
  fresh asking : Progress
  found : Option Text → Progress

unfoldable pub begun : Option (Option Text) × ReverseResolver → Progress × ReverseResolver
begun (some hit, s) = (found hit, s)
begun (none, s) = (asking, s)

unfoldable pub settled : Option Text × ReverseResolver → Progress × ReverseResolver
settled (name, s) = (found name, s)

-- `hostname` up to the next point at which another call may go on.
unfoldable pub hostname :
    IpAddr → Option (List RData) → Progress → ReverseResolver → Progress × ReverseResolver
unfolding begin begun settle settled
hostname ip answer fresh s = begun (begin ip s)
hostname ip answer asking s = settled (settle ip answer s)
hostname ip answer (found name) s = (found name, s)
