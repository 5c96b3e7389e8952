-- ===== src/Proxy/Tunnel.antt =====
-- src/proxy.rs: `handle_connection`, `serve_socks` and `connect_and_splice` up to the point where bytes
-- are copied: how a connection is told apart, what is written to the client, and what is registered.
--
-- The system's answers, to `set_nodelay`, `connect` and `peer_addr`, are arguments. What follows is the
-- result: a tunnel to copy, HTTP to serve, a relay to run, or the error. The errors that verbose mode
-- prints are left out.
pub mod Account
pub mod Dispatch
pub mod HttpConnect
mod Tests
use wiretally.Prelude.{
  ℕ, Bool, Option, none, some, List, [], ◌∷◌, ◌++◌, Result, ok, err, Exec, ◌==◌, if◌then◌else◌,
}
use wiretally.Text.{Text, chars, decimal, eq_ignore_ascii_case}
use wiretally.Net.{IpAddr, ip_text}
use wiretally.Stream.{IoError, Stream, write_all}
use wiretally.Stats
use wiretally.Stats.{Registry, next_id, update, add_connection, observe_ip}
use wiretally.Io.{ConnLog, LogLine, event}
use wiretally.Socks.{
  Error, Command, connect, udp_associate, greeting_byte, rep_success, rep_connection_refused, reply,
  reply_code, accept,
}
use wiretally.Proxy.{read_head, request_line, head_body, split_authority}

pub data ProxyError : Type 0 where
  io : IoError → ProxyError
  socks : Error → ProxyError
  malformed_head : ProxyError
  -- hyper's error, with its text.
  hyper : Text → ProxyError

-- One client connection, the registry and the log.
pub record Connection : Type 0 where
  pub client : Stream
  pub registry : Registry
  pub verbose : Bool
  pub lines : List LogLine

-- The tunnel to copy: its counters, the bytes read behind the head, and its log.
pub record Tunnel : Type 0 where
  pub stats : ℕ
  pub leftover : List ℕ
  pub log : Option ConnLog

pub data Route : Type 0 where
  closed : Route
  tunnel : Tunnel → Route
  -- Absolute-form HTTP, with the bytes read so far.
  http : List ℕ → Route
  udp : Route
  failed : ProxyError → Route

-- What connecting answers: the results of `set_nodelay` and of `peer_addr` on the new socket.
abbrev pub Connected : Type 0
Connected = Result IoError (Result IoError (Unit {0}) × Option IpAddr)

unfoldable pub conn_log : Text → Connection → Option ConnLog × Connection
conn_log target c =
    if c.verbose
    then (let (id, r) = next_id c.registry in
        (some (record { id = id; target = target }), record c { registry = r }))
    else (none, c)

pub data Handshake : Type 0 where
  http socks : Handshake

-- `Handshake::accept` and `Handshake::refuse`.
unfoldable pub handshake_accept : Handshake → Exec Stream IoError (Unit {0})
handshake_accept Handshake.http = write_all (chars "HTTP/1.1 200 Connection Established\r\n\r\n")
handshake_accept Handshake.socks = reply rep_success

unfoldable pub handshake_refuse : Handshake → Exec Stream IoError (Unit {0})
handshake_refuse Handshake.http =
    write_all (chars "HTTP/1.1 502 Bad Gateway\r\nContent-Length: 0\r\n\r\n")
handshake_refuse Handshake.socks = reply rep_connection_refused

abbrev pub host_port : Text → ℕ → Text
host_port host port = host ++ (chars ":" ++ decimal port)

unfoldable pub log_open : Option ConnLog → Text → ℕ → IpAddr → Connection → Connection
log_open none host port ip c = c
log_open (some log) host port ip c = record c {
  lines =
      event log
        (chars "OPEN  -> " ++ (host_port host port ++ (chars " (" ++ (ip_text ip ++ chars ")"))))
        c.lines;
}

-- `if let Ok(peer) = upstream.peer_addr()`.
unfoldable pub observe_peer :
    Option IpAddr → ℕ → Option ConnLog → Text → ℕ → Connection → Connection
unfolding log_open
observe_peer none i log host port c = c
observe_peer (some ip) i log host port c =
    log_open log host port ip (record c { registry = update i (observe_ip ip) c.registry })

unfoldable pub accepted :
    Result IoError (Unit {0}) × Stream → Tunnel → Connection → Route × Connection
accepted (ok _, s) t c = (Route.tunnel t, record c { client = s })
accepted (err e, s) t c = (failed (io e), record c { client = s })

unfoldable pub connected :
    Connected → Tunnel → Text → ℕ → Handshake → Connection → Route × Connection
unfolding handshake_accept handshake_refuse observe_peer accepted
connected (err e) t host port h c =
    (failed (io e), record c { client = (handshake_refuse h c.client).1 })
connected (ok (err e, peer)) t host port h c = (failed (io e), c)
connected (ok (ok _, peer)) t host port h c =
    let c' = observe_peer peer t.stats t.log host port c in
    accepted (handshake_accept h c'.client) t
      (record c' { registry = update t.stats add_connection c'.registry })

-- `connect_and_splice` before its `copy_bidirectional`.
unfoldable pub open_tunnel :
    Connected → Text → ℕ → List ℕ → Handshake → Connection → Route × Connection
unfolding conn_log connected
open_tunnel answer host port leftover h c =
    let (i, r) = Stats.endpoint host c.registry in
    let (log, c') = conn_log (host_port host port) (record c { registry = r }) in
    connected answer (record { stats = i; leftover = leftover; log = log }) host port h c'

unfoldable pub serve_command :
    Result Error Command × Stream → Connected → Connection → Route × Connection
unfolding open_tunnel
serve_command (err e, s) answer c =
    (failed (ProxyError.socks e), record c { client = (reply (reply_code e) s).1 })
serve_command (ok (connect r), s) answer c =
    open_tunnel answer r.host r.port [] Handshake.socks (record c { client = s })
serve_command (ok (udp_associate r), s) answer c = (udp, record c { client = s })

unfoldable pub serve_socks : Connected → Connection → Route × Connection
unfolding serve_command
serve_socks answer c = serve_command (accept c.client) answer c

unfoldable pub serve_head :
    List ℕ → Option (Text × Text) → Connected → Connection → Route × Connection
unfolding open_tunnel
serve_head head none answer c = (failed malformed_head, c)
serve_head head (some (method, target)) answer c =
    if eq_ignore_ascii_case method (chars "CONNECT")
    then open_tunnel answer (split_authority target 443).0 (split_authority target 443).1
        (head_body head) Handshake.http c
    else (Route.http head, c)

-- What `read_head` came to.
unfoldable pub serve_read :
    Option (Result IoError (List ℕ) × Stream) → Connected → Connection → Option (Route × Connection)
unfolding serve_head
serve_read none answer c = none
serve_read (some (err e, s)) answer c = some (failed (io e), record c { client = s })
serve_read (some (ok head, s)) answer c =
    some (serve_head head (request_line head) answer (record c { client = s }))

-- `peek` waits for a first byte and takes none.
unfoldable pub peeked : List ℕ → Connected → Connection → Option (Route × Connection)
unfolding serve_socks serve_read
peeked [] answer c = elim c.client.ending [
  | none ↦ some (closed, c)
  | some e ↦ some (failed (io e), c)
]
peeked (b ∷ bs) answer c =
    if b == greeting_byte
    then some (serve_socks answer c)
    else serve_read (read_head c.client) answer c

-- The first argument is what `set_nodelay` on the client says; `none` is a head that is never read.
unfoldable pub handle_connection :
    Result IoError (Unit {0}) → Connected → Connection → Option (Route × Connection)
unfolding peeked
handle_connection (err e) answer c = some (failed (io e), c)
handle_connection (ok _) answer c = peeked c.client.incoming answer c
