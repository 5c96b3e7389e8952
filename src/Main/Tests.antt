-- ===== src/Main/Tests.antt =====
-- Runs of what follows the child.
use wiretally.Prelude.{
  ok, ◌++◌, map, All, ℕ, zero, suc, ◌+◌, ◌*◌, ◌≤◌, ◌<◌, ◌⊎◌, ◌≡◌, refl, pos, negsuc, true, false,
  Option, none, some, List, [], ◌∷◌, arith,
}
use wiretally.Text.{Text, chars, text_eq, is_empty, trim_end_matches, to_ascii_lowercase}
use wiretally.Net.{SocketAddr, IpAddr, v4, v6, ip_text, ip_eq, parse_ip}
use wiretally.Main.Addresses.{Listed, ip_hosts-ip_text}
use wiretally.Map
use wiretally.Map.{text_key, ip_key}
use wiretally.Stats.{
  track_open, drop_guard, u64_mod, Registry, new, endpoint, update, add_ingress, read, hosts,
  rename, merge,
}
use wiretally.Stats.View.{
  IsRegistry, new-IsRegistry, endpoint-IsRegistry, update-IsRegistry, counters,
}
use wiretally.Dns.{RData, ptr, hostname, from_system}
use wiretally.Report.Sums.{registry_totals}
use wiretally.Main.{
  World, drain_timeout, drain, ip_hosts, lookup_all, resolve_ip_only_endpoints, ExitStatus,
  exit_code, exit_byte, finish,
}
use wiretally.Main.Drain.{Sleeps, EndsAt, drain_ends, drain_closed}
use wiretally.Main.Idle.{Idle, drain-Idle}
use wiretally.Proxy.Tasks.{Tasks, bound, ◌⟶*◌, accepts, starts, returns, here, then}
use wiretally.Proxy.Tasks.Guards.{guards}
use wiretally.Main.Run.{Cli, child_byte, joined, Finished, run, main_code, run_reports}
use wiretally.Main.Names.{NameOf, lookup_all-NameOf}
use wiretally.Main.Conserve.{finish_totals, resolve_keeps}

exit_codes :
    (exit_code (record { code = some (pos 3); signal = none }) ≡ pos 3)
    × (exit_code (record { code = none; signal = some 9 }) ≡ pos 137)
    × (exit_byte (pos 137) ≡ 137)
    × (exit_byte (pos 256) ≡ 1)
    × (exit_byte (negsuc 0) ≡ 1)
unfolding exit_code exit_byte
exit_codes = (refl, refl, refl, refl, refl)

-- One connection is open until the third round.
abbrev busy_registry : ℕ → Registry
busy_registry zero = record new { open_connections = 1 }
busy_registry (suc zero) = record new { open_connections = 1 }
busy_registry (suc (suc n)) = new

abbrev busy : World
busy round = (5 + 10 * round, busy_registry round)

busy-Sleeps : Sleeps busy
busy-Sleeps round = omega arith

drain_waits : drain busy ≡ some 2
unfolding drain new
drain_waits = refl

drain_run :
    (last : ℕ) × (drain busy ≡ some last)
    × (last ≤ 200)
    × EndsAt ((busy 0).0 + drain_timeout) busy 0 last
drain_run = drain_ends busy busy-Sleeps

drain_closed_example :
    (last : ℕ) × (drain busy ≡ some last) × (last ≤ 4) × ((busy last).1.open_connections ≡ 0)
unfolding new
drain_closed_example = drain_closed busy 4 busy-Sleeps refl (omega arith)

-- The connection's task has started by the first round, and has returned by the third.
abbrev at_work : Tasks
at_work = record bound { registry = track_open new; handled = 1 }

abbrev returned : Tasks
returned = record bound { registry = drop_guard (track_open new) }

abbrev busy_tasks : ℕ → Tasks
busy_tasks zero = at_work
busy_tasks (suc zero) = at_work
busy_tasks (suc (suc n)) = returned

at_work_reached : bound ⟶* at_work
at_work_reached = then (accepts bound refl) (then (starts _ 0 refl) here)

returned_reached : bound ⟶* returned
returned_reached = then (accepts bound refl) (then (starts _ 0 refl) (then (returns _ 0 refl) here))

busy_tasks_reached : (round : ℕ) → bound ⟶* busy_tasks round
busy_tasks_reached zero = at_work_reached
busy_tasks_reached (suc zero) = at_work_reached
busy_tasks_reached (suc (suc n)) = returned_reached

busy_tasks_few : (round : ℕ) → guards (busy_tasks round) < u64_mod
busy_tasks_few zero = omega arith
busy_tasks_few (suc zero) = omega arith
busy_tasks_few (suc (suc n)) = omega arith

busy_tasks_seen : (round : ℕ) → (busy round).1 ≡ (busy_tasks round).registry
unfolding track_open drop_guard new
busy_tasks_seen zero = refl
busy_tasks_seen (suc zero) = refl
busy_tasks_seen (suc (suc n)) = refl

drain-Idle_example :
    (last : ℕ) × (drain busy ≡ some last)
    × (Idle (busy_tasks last) ⊎ ((busy 0).0 + drain_timeout ≤ (busy last).0))
drain-Idle_example =
    drain-Idle busy busy_tasks busy-Sleeps
      (record { reached = busy_tasks_reached; few = busy_tasks_few; seen = busy_tasks_seen })

busy-IsRegistry : (round : ℕ) → IsRegistry (busy round).1
busy-IsRegistry zero =
    let v = new-IsRegistry in
    record { distinct = v.distinct; bounded = v.bounded; separate = v.separate }
busy-IsRegistry (suc zero) =
    let v = new-IsRegistry in
    record { distinct = v.distinct; bounded = v.bounded; separate = v.separate }
busy-IsRegistry (suc (suc n)) = new-IsRegistry

abbrev cli : Cli
cli = record {
  domain_prefix = none;
  verbose = false;
  json = true;
  program = chars "curl";
  args = chars "-s" ∷ chars "https://x" ∷ [];
}

command_line : joined cli.program cli.args ≡ chars "curl -s https://x"
unfolding joined
command_line = refl

abbrev local : SocketAddr
local = record { ip = v4 (127 ∷ 0 ∷ 0 ∷ 1 ∷ []); port = 4321 }

abbrev killed : ExitStatus
killed = record { code = none; signal = some 9 }

-- Bytes that come as long as a connection is open.
abbrev while_open : Registry → Registry
while_open r = elim r.open_connections [ zero ↦ r | suc n ↦ update 0 (add_ingress 1) r ]

while_open_still : (r : Registry) → r.open_connections ≡ 0 → while_open r ≡ r
while_open_still r e = rw e refl

run_reports_example :
    (last : ℕ) × (finished : Finished) × (run cli
        (ok local)
        (ok tt)
        (ok (killed, 1500))
        true
        (λ host. none)
        []
        while_open
        busy
      ≡ some (ok finished))
    × (last ≤ 200)
    × EndsAt ((busy 0).0 + drain_timeout) busy 0 last
    × ((((busy last).1.open_connections ≡ 0)
          × (finished.report.totals.all_destinations ≡ registry_totals (busy last).1))
        ⊎ ((busy 0).0 + drain_timeout ≤ (busy last).0))
    × (main_code (ok finished) ≡ child_byte none (some 9))
run_reports_example =
    run_reports cli local killed 1500 true (λ host. none) [] while_open busy busy-Sleeps
      busy-IsRegistry while_open_still

-- An address with 100 bytes received and a name with 1.
abbrev seen : Registry
seen =
    update 1 (add_ingress 1)
      (endpoint (chars "named.dev")
        (update 0 (add_ingress 100) (endpoint (chars "1.2.3.4") new).1)).1

seen-IsRegistry : IsRegistry seen
seen-IsRegistry = update-IsRegistry _ 1 (add_ingress 1) (
    endpoint-IsRegistry _ (chars "named.dev") (
      update-IsRegistry _ 0 (add_ingress 100)
        (endpoint-IsRegistry new (chars "1.2.3.4") new-IsRegistry)))

abbrev points_to_named : Text → Option (List RData)
points_to_named host = some (ptr (chars "Named.dev.") ∷ [])

resolving_merges :
    counters (resolve_ip_only_endpoints true points_to_named (0 ∷ []) seen seen) (chars "named.dev")
    ≡ some (record { ingress = 101; egress = 0; connections = 0; ip = none })
unfolding counters resolve_ip_only_endpoints rename endpoint update read add_ingress new Map.get
    Map.insert Map.remove text_eq merge ip_eq hosts parse_ip hostname from_system is_empty
    trim_end_matches to_ascii_lowercase
resolving_merges = refl

abbrev ended : ExitStatus
ended = record { code = some (pos 0); signal = none }

finished_run :
    (finish
      (chars "curl x")
      none
      1840
      ended
      true
      points_to_named
      []
      seen
      seen).0.totals.all_destinations
    ≡ registry_totals seen
finished_run =
    finish_totals (chars "curl x") none 1840 ended true points_to_named [] seen seen seen-IsRegistry

resolve_keeps_example :
    counters (resolve_ip_only_endpoints false points_to_named [] seen seen) (chars "named.dev")
    ≡ counters seen (chars "named.dev")
unfolding parse_ip ip_hosts lookup_all hosts endpoint update new Map.get Map.insert text_eq hostname
    from_system
resolve_keeps_example =
    resolve_keeps false points_to_named [] seen seen (chars "named.dev") seen-IsRegistry refl
      ((λ e. cc), tt)

-- Two spellings of one address, whose lookups run at the same time and are answered differently.
abbrev spelled_twice : List (Text × IpAddr)
spelled_twice =
    (chars "::1", v6 (0 ∷ 0 ∷ 0 ∷ 0 ∷ 0 ∷ 0 ∷ 0 ∷ 0 ∷ 0 ∷ 0 ∷ 0 ∷ 0 ∷ 0 ∷ 0 ∷ 0 ∷ 1 ∷ []))
    ∷ (chars "0::1", v6 (0 ∷ 0 ∷ 0 ∷ 0 ∷ 0 ∷ 0 ∷ 0 ∷ 0 ∷ 0 ∷ 0 ∷ 0 ∷ 0 ∷ 0 ∷ 0 ∷ 0 ∷ 1 ∷ []))
    ∷ []

abbrev spelled : Text → Option (List RData)
spelled host = some (ptr (host ++ chars ".Dev.") ∷ [])

both_ask :
    lookup_all spelled (0 ∷ 1 ∷ 1 ∷ 0 ∷ []) spelled_twice (from_system true)
    ≡ (chars "::1", some (chars "::1.dev")) ∷ (chars "0::1", some (chars "0::1.dev")) ∷ []
unfolding lookup_all from_system hostname Map.get Map.insert ip_eq text_eq is_empty trim_end_matches
    to_ascii_lowercase
both_ask = refl

one_asks :
    lookup_all spelled (0 ∷ 0 ∷ 1 ∷ []) spelled_twice (from_system true)
    ≡ (chars "::1", some (chars "::1.dev")) ∷ (chars "0::1", some (chars "::1.dev")) ∷ []
unfolding lookup_all from_system hostname Map.get Map.insert ip_eq text_eq is_empty trim_end_matches
    to_ascii_lowercase
one_asks = refl

lookup_all-NameOf_example :
    (map (λ q. q.0) (lookup_all spelled (0 ∷ 1 ∷ 1 ∷ []) spelled_twice (from_system true))
      ≡ map (λ q. q.0) spelled_twice)
    × All
        (λ q.
          (ip : IpAddr) × Listed (q.0, ip) spelled_twice × NameOf true spelled spelled_twice ip q.1)
        (lookup_all spelled (0 ∷ 1 ∷ 1 ∷ []) spelled_twice (from_system true))
lookup_all-NameOf_example = lookup_all-NameOf true spelled (0 ∷ 1 ∷ 1 ∷ []) spelled_twice

abbrev by_address : Registry
by_address = (endpoint (ip_text (v4 (1 ∷ 2 ∷ 3 ∷ 4 ∷ []))) new).1

address_found :
    Listed
      (ip_text (v4 (1 ∷ 2 ∷ 3 ∷ 4 ∷ [])), v4 (1 ∷ 2 ∷ 3 ∷ 4 ∷ []))
      (ip_hosts (hosts by_address))
unfolding endpoint Map.get Map.insert new ip_text text_eq
address_found =
    ip_hosts-ip_text by_address (1 ∷ 2 ∷ 3 ∷ 4 ∷ []) 0
      (refl, (omega arith, (omega arith, (omega arith, (omega arith, tt))))) refl
