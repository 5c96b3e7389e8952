-- ===== src/Proxy/Tasks/Invariant.antt =====
-- What holds of the registry in every state of the tasks.
use wiretally.Map.{text_key}
use wiretally.Stats.{Registry, next_id, track_open, drop_guard}
use wiretally.Stats.View.{IsRegistry, new-IsRegistry, update-IsRegistry, endpoint-IsRegistry}
use wiretally.Stats.Rename.{rename-IsRegistry}
use wiretally.Proxy.Tasks.{
  Tasks, bound, Works, asks, counts, numbers, renames, ◌⟶◌, ◌⟶*◌, accepts, accept_fails, starts,
  returns, connects, hangs_up, works, stops, here, then,
}
use wiretally.Proxy.Tasks.Uses.{Uses, unused, used}

next_id-IsRegistry : (r : Registry) → IsRegistry r → IsRegistry (next_id r).1
unfolding next_id
next_id-IsRegistry r v = record {
  distinct = v.distinct;
  bounded = v.bounded;
  separate = v.separate;
}

pub track_open-IsRegistry : (r : Registry) → IsRegistry r → IsRegistry (track_open r)
unfolding track_open
track_open-IsRegistry r v = record {
  distinct = v.distinct;
  bounded = v.bounded;
  separate = v.separate;
}

pub drop_guard-IsRegistry : (r : Registry) → IsRegistry r → IsRegistry (drop_guard r)
unfolding drop_guard
drop_guard-IsRegistry r v = record {
  distinct = v.distinct;
  bounded = v.bounded;
  separate = v.separate;
}

Works-IsRegistry : {r r' : Registry} → Works r r' → IsRegistry r → IsRegistry r'
Works-IsRegistry (asks host r) v = endpoint-IsRegistry r host v
Works-IsRegistry (counts i f r) v = update-IsRegistry r i f v
Works-IsRegistry (numbers r) v = next_id-IsRegistry r v
Works-IsRegistry (renames from to r) v = rename-IsRegistry r from to v

pub Uses-IsRegistry : {r r' : Registry} → Uses r r' → IsRegistry r → IsRegistry r'
Uses-IsRegistry unused v = v
Uses-IsRegistry (used w u) v = Uses-IsRegistry u (Works-IsRegistry w v)

step-IsRegistry : {s t : Tasks} → s ⟶ t → IsRegistry s.registry → IsRegistry t.registry
step-IsRegistry (accepts s on) v = v
step-IsRegistry (accept_fails s on) v = v
step-IsRegistry (starts s n e) v = track_open-IsRegistry s.registry v
step-IsRegistry (returns s n e) v = drop_guard-IsRegistry s.registry v
step-IsRegistry (connects s) v = track_open-IsRegistry s.registry v
step-IsRegistry (hangs_up s n e) v = drop_guard-IsRegistry s.registry v
step-IsRegistry (works s r w) v = Works-IsRegistry w v
step-IsRegistry (stops s) v = v

-- Steps of the tasks keep the registry well formed: no two hosts share counters, and every host has some.
pub steps-IsRegistry : {s t : Tasks} → s ⟶* t → IsRegistry s.registry → IsRegistry t.registry
steps-IsRegistry here v = v
steps-IsRegistry (then p ps) v = steps-IsRegistry ps (step-IsRegistry p v)

-- Whatever order the tasks run in, no two hosts of the registry ever share counters.
pub reached-IsRegistry : (s : Tasks) → bound ⟶* s → IsRegistry s.registry
reached-IsRegistry s reached = steps-IsRegistry reached new-IsRegistry
