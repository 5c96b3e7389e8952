-- ===== src/Proxy/Tunnel/Account.antt =====
-- What opening a tunnel registers.
use wiretally.Prelude.{
  ℕ, ◌≡◌, refl, ap, ◌∙◌, Option, none, some, List, Bool-cases, inl, inr, Result, ok, err, arith,
}
use wiretally.Text.{Text, text_eq_iff}
use wiretally.Net.{IpAddr}
use wiretally.Stream.{IoError, Stream}
use wiretally.Io.{ConnLog}
use wiretally.Map
use wiretally.Map.{text_key}
use wiretally.Stats
use wiretally.Stats.{
  EndpointStats, Registry, read, next_id, update, add_connection, observe_ip, observe_if,
}
use wiretally.Stats.View.{
  IsRegistry, counters, or_default, update-IsRegistry, endpoint-IsRegistry, with_counters,
  known_counters, updated_counters, endpoint-counters,
}
use wiretally.Proxy.Tunnel.{
  Connection, Tunnel, Connected, Handshake, host_port, conn_log, log_open, observe_peer, accepted,
  connected, open_tunnel, handshake_accept,
}

-- What the answers to the connection attempt add to the host's counters.
abbrev pub opening : Connected → EndpointStats → EndpointStats
opening (err e) s = s
opening (ok (err e, peer)) s = s
opening (ok (ok _, peer)) s = add_connection (observe_if peer s)

accepted-registry :
    (x : Result IoError (Unit {0}) × Stream) (t : Tunnel) (c : Connection)
    → (accepted x t c).1.registry ≡ c.registry
unfolding accepted
accepted-registry (ok u, s) t c = refl
accepted-registry (err e, s) t c = refl

observe_peer-registry :
    (ip : IpAddr) (i : ℕ) (log : Option ConnLog) (host : Text) (port : ℕ) (c : Connection)
    → (observe_peer (some ip) i log host port c).registry ≡ update i (observe_ip ip) c.registry
unfolding observe_peer log_open
observe_peer-registry ip i none host port c = refl
observe_peer-registry ip i (some log) host port c = refl

counters-connected :
    (answer : Connected) (t : Tunnel) (host h : Text) (port : ℕ) (k : Handshake) (c : Connection)
    → IsRegistry c.registry
    → Map.get host c.registry.endpoints ≡ some t.stats
    → counters (connected answer t host port k c).1.registry h
      ≡ with_counters host (opening answer (or_default (counters c.registry host))) c.registry h
unfolding connected observe_peer observe_if update
counters-connected (err e) t host h port k c v i =
    ground (arith, text_eq_iff host h, known_counters c.registry host t.stats i)
counters-connected (ok (err e, peer)) t host h port k c v i =
    ground (arith, text_eq_iff host h, known_counters c.registry host t.stats i)
counters-connected (ok (ok u, none)) t host h port k c v i =
    rw
      (accepted-registry (handshake_accept k c.client) t
        (record c { registry = update t.stats add_connection c.registry }))
      (updated_counters c.registry host h t.stats add_connection v i)
counters-connected (ok (ok u, some ip)) t host h port k c v i =
    let r = update t.stats (observe_ip ip) c.registry in
    let c' = observe_peer (some ip) t.stats t.log host port c in
    rw
      (
        accepted-registry (handshake_accept k c'.client) t
            (record c' { registry = update t.stats add_connection c'.registry }),
        observe_peer-registry ip t.stats t.log host port c,
      )
      (ground (
        arith,
        text_eq_iff host h,
        text_eq_iff host host,
        updated_counters c.registry host h t.stats (observe_ip ip) v i,
        updated_counters c.registry host host t.stats (observe_ip ip) v i,
        updated_counters r host h t.stats add_connection
            (update-IsRegistry c.registry t.stats (observe_ip ip) v) i,
      ))

-- A number for the log changes no counters.
conn_log-counters :
    (target : Text) (c : Connection) (h : Text)
    → (counters (conn_log target c).1.registry h ≡ counters c.registry h)
      × ((conn_log target c).1.registry.endpoints ≡ c.registry.endpoints)
unfolding conn_log next_id counters read
conn_log-counters target c h = elim (Bool-cases c.verbose) [
  | inl on ↦ ground (arith, on)
  | inr off ↦ ground (arith, off)
]

conn_log-IsRegistry :
    (target : Text) (c : Connection)
    → IsRegistry c.registry
    → IsRegistry (conn_log target c).1.registry
unfolding conn_log next_id
conn_log-IsRegistry target c v = elim (Bool-cases c.verbose) [
  | inl on ↦ rw on (record { distinct = v.distinct; bounded = v.bounded; separate = v.separate })
  | inr off ↦ rw off v
]

-- Opening a tunnel registers its host and changes no other host's counters. Only a connection that is
-- established is counted as one, with the first address seen, also when the client then cannot be
-- told; after a failed attempt the host has the counters it had, or zero counters.
pub open_tunnel-counters :
    (answer : Connected) (host h : Text) (port : ℕ) (leftover : List ℕ) (k : Handshake)
    (c : Connection)
    → IsRegistry c.registry
    → counters (open_tunnel answer host port leftover k c).1.registry h
      ≡ with_counters host (opening answer (or_default (counters c.registry host))) c.registry h
unfolding open_tunnel
open_tunnel-counters answer host h port leftover k c v =
    let (i, r) = Stats.endpoint host c.registry in
    let c1 = record c { registry = r } in
    let (log, c') = conn_log (host_port host port) c1 in
    let (seen, at_host) = endpoint-counters c.registry host host v in
    let w = conn_log-IsRegistry (host_port host port) c1 (endpoint-IsRegistry c.registry host v) in
    ground (
      arith,
      text_eq_iff host h,
      text_eq_iff host host,
      seen,
      (endpoint-counters c.registry host h v).0,
      conn_log-counters (host_port host port) c1 h,
      conn_log-counters (host_port host port) c1 host,
      counters-connected answer (record { stats = i; leftover = leftover; log = log }) host h port k
          c' w
          (ap (λ es. Map.get host es) (conn_log-counters (host_port host port) c1 host).1
            ∙ at_host),
    )
