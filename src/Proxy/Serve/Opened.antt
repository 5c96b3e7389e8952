-- ===== src/Proxy/Serve/Opened.antt =====
-- A tunnel that could be opened: where its counters are, and what was written to its client.
use wiretally.Prelude.{
  ℕ, ◌≡◌, refl, ap, ◌∙◌, Bool-cases, inl, inr, Option, none, some, List, ◌++◌, ok, err, arith,
}
use wiretally.Text.{Text}
use wiretally.Net.{IpAddr}
use wiretally.Stream.{IoError, Stream}
use wiretally.Io.{ConnLog}
use wiretally.Map
use wiretally.Map.{text_key}
use wiretally.Stats
use wiretally.Stats.{Registry, update, add_connection, next_id}
use wiretally.Stats.View.{IsRegistry, endpoint-counters}
use wiretally.Proxy.Serve.Asks.{success, accepted_reply}
use wiretally.Proxy.Tunnel.{
  Connection, Tunnel, Route, Handshake, host_port, conn_log, log_open, observe_peer, accepted,
  connected, open_tunnel, io, handshake_refuse,
}

-- The client's stream with the answer to its handshake.
abbrev pub answered : Handshake → Stream → Stream
answered k s = record s { outgoing = s.outgoing ++ success k }

pub record Opened (host : Text) (leftover : List ℕ) (k : Handshake) (c : Connection) (t : Tunnel)
    (c' : Connection) : Type 0 where
  pub kept : t.leftover ≡ leftover
  pub client : c'.client ≡ answered k c.client
  pub cell : Map.get host c'.registry.endpoints ≡ some t.stats

observe_peer_keeps :
    (peer : Option IpAddr) (i : ℕ) (log : Option ConnLog) (host : Text) (port : ℕ) (c : Connection)
    → ((observe_peer peer i log host port c).client ≡ c.client)
      × ((observe_peer peer i log host port c).registry.endpoints ≡ c.registry.endpoints)
unfolding observe_peer log_open update
observe_peer_keeps none i log host port c = (refl, refl)
observe_peer_keeps (some ip) i none host port c = (refl, refl)
observe_peer_keeps (some ip) i (some log) host port c = (refl, refl)

conn_log_keeps :
    (target : Text) (c : Connection)
    → ((conn_log target c).1.client ≡ c.client)
      × ((conn_log target c).1.registry.endpoints ≡ c.registry.endpoints)
unfolding conn_log next_id
conn_log_keeps target c = elim (Bool-cases c.verbose) [
  | inl on ↦ ground (arith, on)
  | inr off ↦ ground (arith, off)
]

connected-Opened :
    (peer : Option IpAddr) (t : Tunnel) (host : Text) (port : ℕ) (k : Handshake) (c : Connection)
    → c.client.broken ≡ none
    → Map.get host c.registry.endpoints ≡ some t.stats
    → (c' : Connection) × (connected (ok (ok tt, peer)) t host port k c ≡ (Route.tunnel t, c'))
      × Opened host t.leftover k c t c'
unfolding connected accepted update
connected-Opened peer t host port k c whole e =
    let seen = observe_peer peer t.stats t.log host port c in
    let (same, known) = observe_peer_keeps peer t.stats t.log host port c in
    let counted = record seen { registry = update t.stats add_connection seen.registry } in
    (
      record counted { client = answered k seen.client },
      ap (λ x. accepted x t counted)
          (accepted_reply k seen.client (ap (λ s. s.broken) same ∙ whole)),
      record { kept = refl; client = ap (answered k) same; cell = ap (Map.get host) known ∙ e },
    )

-- A client that can be written to gets its tunnel when the system has connected. The tunnel's counters are
-- those of the host, and the client has been answered.
pub open_tunnel-Opened :
    (peer : Option IpAddr) (host : Text) (port : ℕ) (leftover : List ℕ) (k : Handshake)
    (c : Connection)
    → c.client.broken ≡ none
    → IsRegistry c.registry
    → (t : Tunnel) × (c' : Connection) × (open_tunnel (ok (ok tt, peer)) host port leftover k c
        ≡ (Route.tunnel t, c'))
      × Opened host leftover k c t c'
unfolding open_tunnel
open_tunnel-Opened peer host port leftover k c whole v =
    let (i, r) = Stats.endpoint host c.registry in
    let c1 = record c { registry = r } in
    let (log, c2) = conn_log (host_port host port) c1 in
    let (same, known) = conn_log_keeps (host_port host port) c1 in
    let t : Tunnel = record { stats = i; leftover = leftover; log = log } in
    let (c', e, o) =
      connected-Opened peer t host port k c2 (ap (λ s. s.broken) same ∙ whole)
        (ap (Map.get host) known ∙ (endpoint-counters c.registry host host v).1) in
    (t, c', e, record { kept = refl; client = o.client ∙ ap (answered k) same; cell = o.cell })

-- A client whose tunnel could not be opened is told so, and there is no tunnel.
pub open_tunnel_refused :
    (e : IoError) (host : Text) (port : ℕ) (leftover : List ℕ) (k : Handshake) (c : Connection)
    → (c' : Connection) × (open_tunnel (err e) host port leftover k c ≡ (Route.failed (io e), c'))
      × (c'.client ≡ (handshake_refuse k c.client).1)
unfolding open_tunnel connected
open_tunnel_refused e host port leftover k c =
    let c1 = record c { registry = (Stats.endpoint host c.registry).1 } in
    (
      _,
      refl,
      ap (λ (s : Stream). (handshake_refuse k s).1) (conn_log_keeps (host_port host port) c1).0,
    )
