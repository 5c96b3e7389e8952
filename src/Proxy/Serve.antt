-- ===== src/Proxy/Serve.antt =====
-- src/proxy.rs: a connection from the start of its task to the end: `handle_connection` with what its
-- routes lead to, the copying of a tunnel, `serve_http` and the UDP association, under the task's guard.
--
-- hyper's client and its `serve_connection` are parameters, and so are a TCP stream's poll functions.
-- This is one task as it runs by itself; what others do to the registry meanwhile is left to the modules on
-- the tasks and on the copying. The line on a task's error is left out.
mod Routes
mod Opened
pub mod Asks
mod Copied
mod Ends
mod Calls
pub mod Sockets
pub mod Account
pub mod Connect
pub mod Payload
pub mod Datagrams
pub mod Steps
mod Tests
use wiretally.Prelude.{Option, none, some, List, [], ◌∷◌, Result, ok, err, Exec, map_err}
use wiretally.Text.{Text}
use wiretally.Net.{SocketAddr}
use wiretally.Stream.{IoError, Stream}
use wiretally.Stats.{track_open, drop_guard}
use wiretally.Io.{ByteStream, Rewind, rewind, rewind_new}
use wiretally.Io.Run.{Op, Outcome}
use wiretally.Udp.{Event}
use wiretally.Proxy.Tunnel.{
  Connection, ProxyError, io, hyper, Route, Tunnel, Connected, handle_connection,
}
use wiretally.Proxy.Splice.{Shared, Counted, counted_client, poll_counted, log_close}
use wiretally.Proxy.Connector.{CountedStream}
use wiretally.Proxy.Http.{Hyper, HttpRequest, HttpResponse, forward}
use wiretally.Proxy.Association.{Associated, relay_udp}

-- What the system answers while a connection is served.
pub record Answers : Type 0 where
  -- `set_nodelay` on the client.
  pub nodelay : Result IoError (Unit {0})
  pub connecting : Connected
  -- How `copy_bidirectional` polls the client's side, and its result.
  pub polls : List Op
  pub copied : Result IoError (Unit {0})
  -- `Relay::bind`, then `local_addr`, and the relay's datagrams.
  pub binding : Result IoError (Result IoError SocketAddr)
  pub events : List Event

-- What hyper works with for a client: the upstream sockets that it holds, and the connection.
pub record Web (S : Type 0) : Type 0 where
  pub pool : List (CountedStream S)
  pub connection : Connection

-- `serve_connection` is given the client's stream, and the service with the state that it works on.
abbrev pub ServeConnection : Type 0 → Type 0 → Type 0 → Type 0
ServeConnection W Q A = Rewind Stream → (Q → W → A × W) → W → Result Text (Unit {0}) × W

module _ {S : Type 0} where
  -- The polls of one counted stream, with their outcomes.
  unfoldable pub poll_counted_all :
      ByteStream S → List Op → Counted S → Shared → List Outcome × (Counted S × Shared)
  unfolding poll_counted
  poll_counted_all b [] t sh = ([], (t, sh))
  poll_counted_all b (op ∷ ops) t sh =
      let (o, (t', sh')) = poll_counted b op t sh in
      let (os, last) = poll_counted_all b ops t' sh' in (o ∷ os, last)

-- The end of `connect_and_splice`: the line on the totals, and the result of copying.
unfoldable pub copied_tunnel :
    Result IoError (Unit {0})
    → Tunnel
    → Counted (Rewind Stream) × Shared
    → Connection
    → Result ProxyError (Unit {0}) × Connection
unfolding log_close
copied_tunnel result t (counted, sh) c =
    let sh' = log_close t.log t.stats sh in
    map_err io (
      result,
      record c { client = counted.inner.inner; registry = sh'.registry; lines = sh'.lines },
    )

-- `connect_and_splice` behind the handshake.
unfoldable pub splice :
    ByteStream Stream → Answers → Tunnel → Connection → Result ProxyError (Unit {0}) × Connection
unfolding poll_counted_all counted_client copied_tunnel
splice tcp a t c =
    copied_tunnel a.copied t
      (poll_counted_all (rewind tcp) a.polls (counted_client t c.client)
        (record { registry = c.registry; lines = c.lines })).1
      c

module _ {S : Type 0} where
  -- A route on which hyper holds no sockets.
  unfoldable pub no_sockets :
      Result ProxyError (Unit {0}) × Connection → Result ProxyError (Unit {0}) × Web S
  no_sockets (r, c) = (r, record { pool = []; connection = c })

  unfoldable pub associated : Option Associated → Option (Result ProxyError (Unit {0}) × Web S)
  unfolding no_sockets
  associated none = none
  associated (some a) = some (no_sockets (a.result, a.connection))

  -- The end of a connection's task: the guard is dropped.
  unfoldable pub task_done : Option (Result ProxyError (Unit {0}) × Web S) → Option (Web S)
  unfolding drop_guard
  task_done none = none
  task_done (some (r, w)) =
      let c = w.connection in
      some (record w { connection = record c { registry = drop_guard c.registry } })

module _ {H V U B R S : Type 0} (y : Hyper H V U) (client : HttpRequest H U B → Exec (Web S) Text R)
    (serve_connection : ServeConnection (Web S) (HttpRequest H U B) (HttpResponse R))
    (tcp : ByteStream Stream) where
  unfoldable pub serve_http : Rewind Stream → Connection → Result ProxyError (Unit {0}) × Web S
  unfolding forward
  serve_http s c =
      map_err hyper (serve_connection s (forward y client) (record { pool = []; connection = c }))

  -- What a route leads to.
  unfoldable pub follow :
      Route → Answers → Connection → Option (Result ProxyError (Unit {0}) × Web S)
  unfolding no_sockets splice serve_http relay_udp associated
  follow Route.closed a c = some (no_sockets (ok tt, c))
  follow (Route.failed e) a c = some (no_sockets (err e, c))
  follow (Route.tunnel t) a c = some (no_sockets (splice tcp a t c))
  follow (Route.http head) a c = some (serve_http (rewind_new head c.client) c)
  follow Route.udp a c = associated (relay_udp a.binding a.events c)

  unfoldable pub followed :
      Option (Route × Connection) → Answers → Option (Result ProxyError (Unit {0}) × Web S)
  unfolding follow
  followed none a = none
  followed (some (route, c)) a = follow route a c

  -- What the accept loop spawns for a connection.
  unfoldable pub connection_task : Answers → Connection → Option (Web S)
  unfolding followed handle_connection track_open task_done
  connection_task a c =
      let c' = record c { registry = track_open c.registry } in
      task_done (followed (handle_connection a.nodelay a.connecting c') a)
