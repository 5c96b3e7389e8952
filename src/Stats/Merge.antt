-- ===== src/Stats/Merge.antt =====
-- The arithmetic of `rename`'s merge, whose connections are added one at a time.
use wiretally.Prelude.{ℕ, zero, suc, ◌+◌, ◌%◌, ◌<◌, ◌≡◌, Option, none, some, arith}
use wiretally.Net.{IpAddr}
use wiretally.Stats.{
  EndpointStats, u64_mod, add_ingress, add_egress, add_connection, add_connections, observe_ip,
  observe_if, merge,
}

add_connections_lem :
    (n : ℕ) (s : EndpointStats)
    → s.connections < u64_mod
    → add_connections n s ≡ record s { connections = (s.connections + n) % u64_mod }
unfolding add_connections
add_connections_lem zero s h = ground arith
add_connections_lem (suc n) s h = ground (arith, add_connections_lem n (add_connection s))

-- The first address that either of two endpoints observed.
abbrev pub first_ip : Option IpAddr → Option IpAddr → Option IpAddr
first_ip none later = later
first_ip (some addr) later = some addr

-- Merging adds the bytes and the connections modulo 2 ^ 64 and keeps the address of the existing
-- endpoint, or takes the other's where it has none, if the existing count of connections is a `u64`.
pub merge_lem :
    (stats existing : EndpointStats)
    → existing.connections < u64_mod
    → merge stats existing ≡ record {
      ingress = (existing.ingress + stats.ingress) % u64_mod;
      egress = (existing.egress + stats.egress) % u64_mod;
      connections = (existing.connections + stats.connections) % u64_mod;
      ip = first_ip existing.ip stats.ip;
    }
unfolding merge add_ingress add_egress observe_if observe_ip
merge_lem stats existing h = ground (
  arith,
  add_connections_lem stats.connections
      (add_egress stats.egress (add_ingress stats.ingress existing)) h,
)
