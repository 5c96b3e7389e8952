-- ===== src/Proxy/Serve/Routes.antt =====
-- `handle_connection` works with the registry as a task may, on every route, and always takes one.
use wiretally.Prelude.{
  ℕ, Option, none, some, List, [], ◌∷◌, Option-cases, Bool-cases, inl, inr, Result, ok, err, ◌==◌,
}
use wiretally.Text.{Text, chars, eq_ignore_ascii_case}
use wiretally.Net.{IpAddr}
use wiretally.Stream.{IoError, Stream}
use wiretally.Stats
use wiretally.Stats.{Registry, next_id, update, add_connection, observe_ip}
use wiretally.Io.{ConnLog}
use wiretally.Socks.{Error, Command, connect, udp_associate, greeting_byte, accept}
use wiretally.Proxy.{split_authority, head_body, request_line, read_head}
use wiretally.Proxy.ReadHead.{HeadRead, read_head-HeadRead}
use wiretally.Proxy.Tunnel.{
  Connection, Tunnel, Connected, Handshake, host_port, conn_log, log_open, observe_peer, accepted,
  connected, open_tunnel, handshake_accept, serve_command, serve_socks, serve_head, serve_read,
  peeked, handle_connection,
}
use wiretally.Proxy.Tasks.Uses.{Uses, unused, Uses-trans, endpoint-Uses, update-Uses, next_id-Uses}

-- There is a result, and the registry has come to it by work that a task may do.
abbrev pub Answered : {A : Type 0} → Registry → Option (A × Connection) → Type 0
Answered r none = ⊥
Answered r (some (a, c)) = Uses r c.registry

pub conn_log-Uses :
    (target : Text) (c : Connection) → Uses c.registry (conn_log target c).1.registry
unfolding conn_log
conn_log-Uses target c = elim (Bool-cases c.verbose) [
  | inl on ↦ rw (conn_log, on) (next_id-Uses c.registry)
  | inr off ↦ rw (conn_log, off) unused
]

pub observe_peer-Uses :
    (peer : Option IpAddr) (i : ℕ) (log : Option ConnLog) (host : Text) (port : ℕ) (c : Connection)
    → Uses c.registry (observe_peer peer i log host port c).registry
unfolding observe_peer log_open
observe_peer-Uses none i log host port c = unused
observe_peer-Uses (some ip) i none host port c = update-Uses i (observe_ip ip) c.registry
observe_peer-Uses (some ip) i (some log) host port c = update-Uses i (observe_ip ip) c.registry

accepted-Uses :
    (x : Result IoError (Unit {0}) × Stream) (t : Tunnel) (c : Connection)
    → Uses c.registry (accepted x t c).1.registry
unfolding accepted
accepted-Uses (ok u, s) t c = unused
accepted-Uses (err e, s) t c = unused

connected-Uses :
    (answer : Connected) (t : Tunnel) (host : Text) (port : ℕ) (h : Handshake) (c : Connection)
    → Uses c.registry (connected answer t host port h c).1.registry
unfolding connected
connected-Uses (err e) t host port h c = unused
connected-Uses (ok (err e, peer)) t host port h c = unused
connected-Uses (ok (ok u, peer)) t host port h c =
    let c' = observe_peer peer t.stats t.log host port c in
    Uses-trans (observe_peer-Uses peer t.stats t.log host port c) (
      Uses-trans (update-Uses t.stats add_connection c'.registry)
        (accepted-Uses (handshake_accept h c'.client) t _))

pub open_tunnel-Uses :
    (answer : Connected) (host : Text) (port : ℕ) (leftover : List ℕ) (h : Handshake)
    (c : Connection)
    → Uses c.registry (open_tunnel answer host port leftover h c).1.registry
unfolding open_tunnel
open_tunnel-Uses answer host port leftover h c =
    let c1 = record c { registry = (Stats.endpoint host c.registry).1 } in
    Uses-trans (endpoint-Uses host c.registry) (
      Uses-trans (conn_log-Uses (host_port host port) c1)
        (connected-Uses answer _ host port h (conn_log (host_port host port) c1).1))

serve_command-Uses :
    (x : Result Error Command × Stream) (answer : Connected) (c : Connection)
    → Uses c.registry (serve_command x answer c).1.registry
unfolding serve_command
serve_command-Uses (err e, s) answer c = unused
serve_command-Uses (ok (connect r), s) answer c =
    open_tunnel-Uses answer r.host r.port [] Handshake.socks (record c { client = s })
serve_command-Uses (ok (udp_associate r), s) answer c = unused

serve_head-Uses :
    (head : List ℕ) (line : Option (Text × Text)) (answer : Connected) (c : Connection)
    → Uses c.registry (serve_head head line answer c).1.registry
unfolding serve_head
serve_head-Uses head none answer c = unused
serve_head-Uses head (some (method, target)) answer c =
    elim (Bool-cases (eq_ignore_ascii_case method (chars "CONNECT"))) [
      | inl tunnel ↦
          rw (serve_head, tunnel)
            (open_tunnel-Uses answer (split_authority target 443).0 (split_authority target 443).1
              (head_body head) Handshake.http c)
      | inr http ↦ rw (serve_head, http) unused
    ]

serve_read-Answered :
    (x : Option (Result IoError (List ℕ) × Stream)) (answer : Connected) (c : Connection)
    → HeadRead c.client.incoming c.client.ending x
    → Answered c.registry (serve_read x answer c)
unfolding serve_read
serve_read-Answered none answer c h = absurd h
serve_read-Answered (some (err e, s)) answer c h = unused
serve_read-Answered (some (ok head, s)) answer c h =
    serve_head-Uses head (request_line head) answer (record c { client = s })

peeked-Answered :
    (bytes : List ℕ) (answer : Connected) (c : Connection)
    → Answered c.registry (peeked bytes answer c)
unfolding peeked serve_socks
peeked-Answered [] answer c = elim (Option-cases c.client.ending) [
  | inl e ↦ rw (peeked, e) unused
  | inr (x, e) ↦ rw (peeked, e) unused
]
peeked-Answered (b ∷ bs) answer c = elim (Bool-cases (b == greeting_byte)) [
  | inl greeted ↦ rw (peeked, greeted) (serve_command-Uses (accept c.client) answer c)
  | inr plain ↦
      rw (peeked, plain)
        (serve_read-Answered (read_head c.client) answer c (read_head-HeadRead c.client))
]

pub handle_connection-Answered :
    (nodelay : Result IoError (Unit {0})) (answer : Connected) (c : Connection)
    → Answered c.registry (handle_connection nodelay answer c)
unfolding handle_connection
handle_connection-Answered (err e) answer c = unused
handle_connection-Answered (ok u) answer c = peeked-Answered c.client.incoming answer c
