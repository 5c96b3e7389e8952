-- ===== src/Proxy/Tasks/Uses.antt =====
-- What an operation does to the registry, as steps of the work that a task may do.
use wiretally.Prelude.{ℕ}
use wiretally.Text.{Text}
use wiretally.Stats
use wiretally.Stats.{EndpointStats, Registry, update, next_id, rename}
use wiretally.Proxy.Tasks.{Tasks, Works, asks, counts, numbers, ◌⟶*◌, works, here, then}

-- Any number of them, one after another.
pub data Uses : Registry → Registry → Type 0 where
  unused : {r : Registry} → Uses r r
  used : {r r' r'' : Registry} → Works r r' → Uses r' r'' → Uses r r''

pub Uses-trans : {r r' r'' : Registry} → Uses r r' → Uses r' r'' → Uses r r''
Uses-trans unused v = v
Uses-trans (used w u) v = used w (Uses-trans u v)

pub endpoint-Uses : (host : Text) (r : Registry) → Uses r (Stats.endpoint host r).1
endpoint-Uses host r = used (asks host r) unused

pub update-Uses : (i : ℕ) (f : EndpointStats → EndpointStats) (r : Registry) → Uses r (update i f r)
update-Uses i f r = used (counts i f r) unused

pub next_id-Uses : (r : Registry) → Uses r (next_id r).1
next_id-Uses r = used (numbers r) unused

pub steps-trans : {s t u : Tasks} → s ⟶* t → t ⟶* u → s ⟶* u
steps-trans here q = q
steps-trans (then p ps) q = then p (steps-trans ps q)

-- The work of one task, as steps of all.
pub Uses-steps :
    (s : Tasks) {r r' : Registry}
    → Uses r r'
    → record s { registry = r } ⟶* record s { registry = r' }
Uses-steps s unused = here
Uses-steps s (used w u) = then (works _ _ w) (Uses-steps s u)
