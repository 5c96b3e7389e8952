-- ===== src/Proxy/Tasks/Guards.antt =====
-- The open connections of the registry are the guards that are held.
use wiretally.Prelude.{ℕ, ◌+◌, ◌%◌, ◌<◌, ◌≡◌, refl, ◌∙◌, arith}
use wiretally.Map.{text_key}
use wiretally.Stats.{u64_mod, Registry, new, update, next_id, track_open, drop_guard}
use wiretally.Stats.Open.{endpoint-open_connections, rename-open_connections}
use wiretally.Proxy.Tasks.{
  Tasks, bound, Works, asks, counts, numbers, renames, ◌⟶◌, ◌⟶*◌, accepts, accept_fails, starts,
  returns, connects, hangs_up, works, stops, here, then,
}

-- Each connection that is handled holds a guard, and so does each socket.
abbrev pub guards : Tasks → ℕ
guards s = s.handled + s.sockets

Works-open_connections : {r r' : Registry} → Works r r' → r'.open_connections ≡ r.open_connections
unfolding update next_id
Works-open_connections (asks host r) = endpoint-open_connections host r
Works-open_connections (counts i f r) = refl
Works-open_connections (numbers r) = refl
Works-open_connections (renames from to r) = rename-open_connections from to r

-- The counter has its width.
abbrev Counts : Tasks → Type 0
Counts s = s.registry.open_connections ≡ guards s % u64_mod

step-Counts : {s t : Tasks} → s ⟶ t → Counts s → Counts t
unfolding track_open drop_guard
step-Counts (accepts s on) c = c
step-Counts (accept_fails s on) c = c
step-Counts (starts s n e) c = omega arith
step-Counts (returns s n e) c = omega arith
step-Counts (connects s) c = omega arith
step-Counts (hangs_up s n e) c = omega arith
step-Counts (works s r w) c = Works-open_connections w ∙ c
step-Counts (stops s) c = c

steps-Counts : {s t : Tasks} → s ⟶* t → Counts s → Counts t
steps-Counts here c = c
steps-Counts (then p q) c = steps-Counts q (step-Counts p c)

-- In whatever order tasks were started and returned, sockets were opened and dropped, and all worked with
-- the registry, if fewer than 2 ^ 64 guards are held: the registry counts just those.
pub reached_guards :
    (s : Tasks) → bound ⟶* s → guards s < u64_mod → s.registry.open_connections ≡ guards s
unfolding new
reached_guards s reached few = omega (arith, steps-Counts reached (omega arith))
