-- ===== src/Proxy/Connector.antt =====
-- src/proxy.rs: `CountingConnector` and the upstream sockets that it gives to hyper's client.
--
-- A `Uri` is hyper's; the connector asks it for its authority and its scheme. The client's connection
-- is the one whose request is forwarded, and is not touched.
mod Lines
pub mod Lifetime
mod Tests
use wiretally.Prelude.{
  ℕ, Option, none, some, List, [], ◌∷◌, Result, ok, err, if◌then◌else◌, Bool, true, false,
}
use wiretally.Text.{Text, chars, text_eq}
use wiretally.Stream.{IoError, invalid_input}
use wiretally.Stats
use wiretally.Stats.{update, add_connection, track_open, drop_guard}
use wiretally.Io.{ByteStream, ready, upstream, ConnLog}
use wiretally.Io.Run.{Op, read, write, write_vectored, flush, shutdown, Outcome, done}
use wiretally.Proxy.{split_authority}
use wiretally.Proxy.Tunnel.{Connection, Connected, host_port, conn_log, observe_peer}
use wiretally.Proxy.Splice.{Shared, Counted, poll_counted, log_close}

-- What the program asks of hyper's `Uri`.
pub record UriParts (U : Type 0) : Type 0 where
  pub authority : U → Option Text
  pub scheme_str : U → Option Text

pub record CloseLog : Type 0 where
  pub log : ConnLog
  pub stats : ℕ

-- The `_guard` is the one that `call` opens and `drop_stream` drops.
pub record CountedStream (S : Type 0) : Type 0 where
  pub io : Counted S
  pub close_log : Option CloseLog

unfoldable pub close_log_of : Option ConnLog → ℕ → Option CloseLog
close_log_of none i = none
close_log_of (some log) i = some (record { log = log; stats = i })

unfoldable pub default_port : Option Text → ℕ
default_port none = 80
default_port (some scheme) = if text_eq scheme (chars "https") then 443 else 80

-- `CloseLog::drop`, if there is one.
unfoldable pub drop_close_log : Option CloseLog → Shared → Shared
unfolding log_close
drop_close_log none sh = sh
drop_close_log (some l) sh = log_close (some l.log) l.stats sh

module _ {S : Type 0} where
  unfoldable pub established :
      Connected
      → S
      → ℕ
      → Option ConnLog
      → Text
      → ℕ
      → Connection
      → Result IoError (CountedStream S) × Connection
  unfolding observe_peer close_log_of
  established (err e) socket i log host port c = (err e, c)
  established (ok (err e, peer)) socket i log host port c = (err e, c)
  established (ok (ok _, peer)) socket i log host port c =
      let c' = observe_peer peer i log host port c in
      (
        ok (record {
          io = record { inner = socket; stats = i; side = upstream; log = log };
          close_log = close_log_of log i;
        }),
        record c' { registry = track_open (update i add_connection c'.registry) },
      )

  -- `call` behind the authority.
  unfoldable pub connect_counted :
      Connected → S → Text → ℕ → Connection → Result IoError (CountedStream S) × Connection
  unfolding conn_log established
  connect_counted answer socket host port c =
      let (i, r) = Stats.endpoint host c.registry in
      let (log, c') = conn_log (host_port host port) (record c { registry = r }) in
      established answer socket i log host port c'

  unfoldable pub call_authority :
      Option Text → ℕ → Connected → S → Connection → Result IoError (CountedStream S) × Connection
  unfolding connect_counted split_authority
  call_authority none port answer socket c = (err invalid_input, c)
  call_authority (some authority) port answer socket c =
      let (host, port') = split_authority authority port in
      connect_counted answer socket host port' c

  -- `CountingConnector::call`: the system answers the attempt to connect, with the socket.
  unfoldable pub call :
      {U : Type 0}
      → UriParts U
      → U
      → Connected
      → S
      → Connection
      → Result IoError (CountedStream S) × Connection
  unfolding call_authority default_port
  call parts uri answer socket c =
      call_authority (parts.authority uri) (default_port (parts.scheme_str uri)) answer socket c

  -- The end of `poll_shutdown`: `if poll.is_ready() { self.close_log = None }`.
  unfoldable pub shut : Outcome → CountedStream S → Shared → Outcome × (CountedStream S × Shared)
  unfolding drop_close_log
  shut (done (ready r)) s sh =
      (done (ready r), (record s { close_log = none }, drop_close_log s.close_log sh))
  shut o s sh = (o, (s, sh))

  unfoldable pub delegated :
      Outcome × (Counted S × Shared) → CountedStream S → Outcome × (CountedStream S × Shared)
  delegated (o, (io, sh)) s = (o, (record s { io = io }, sh))

  -- `impl Read` and `impl Write for CountedStream`.
  unfoldable pub poll_stream :
      ByteStream S → Op → CountedStream S → Shared → Outcome × (CountedStream S × Shared)
  unfolding poll_counted shut delegated
  poll_stream b shutdown s sh =
      let (o, (s', sh')) = delegated (poll_counted b shutdown s.io sh) s in shut o s' sh'
  poll_stream b op s sh = delegated (poll_counted b op s.io sh) s

  -- Dropping the socket drops its fields in order: the guard, and then the log.
  unfoldable pub drop_stream : CountedStream S → Shared → Shared
  unfolding drop_close_log drop_guard
  drop_stream s sh = drop_close_log s.close_log (record sh { registry = drop_guard sh.registry })

  -- hyper polls the socket as it likes, and drops it in the end.
  unfoldable pub poll_all :
      ByteStream S → List Op → CountedStream S → Shared → CountedStream S × Shared
  unfolding poll_stream
  poll_all b [] s sh = (s, sh)
  poll_all b (op ∷ ops) s sh = let (o, (s', sh')) = poll_stream b op s sh in poll_all b ops s' sh'
