-- ===== src/Proxy/Association.antt =====
-- src/proxy.rs: `relay_udp`, a UDP association for as long as its control connection stays open, and the
-- addresses that the child is told.
--
-- The system answers the binding of the relay's sockets and the question for their address. The relay
-- runs as a task of its own; the datagrams that it handles before it is stopped are given.
mod Discard
pub mod Outcome
pub mod Served
mod Tests
use wiretally.Prelude.{
  ℕ, zero, suc, Bool, true, false, Option, none, some, List, [], ◌∷◌, ◌++◌, length, Result, ok, err,
}
use wiretally.Text.{Text, chars, decimal}
use wiretally.Net.{SocketAddr, socket_text}
use wiretally.Stream.{IoError, Stream, read}
use wiretally.Io.{ConnLog, LogLine, event}
use wiretally.Socks.{rep_success, rep_general_failure, reply, reply_bound}
use wiretally.Udp
use wiretally.Udp.{Relay, Event}
use wiretally.Proxy.Tunnel.{Connection, ProxyError, io, conn_log}

-- What a task leaves: the connection with the registry, and the relay if one was started.
pub record Associated : Type 0 where
  pub result : Result ProxyError (Unit {0})
  pub connection : Connection
  pub relay : Option Relay

unfoldable pub log_if : Option ConnLog → Text → Connection → Connection
log_if none body c = c
log_if (some log) body c = record c { lines = event log body c.lines }

abbrev pub has_log : Option ConnLog → Bool
has_log none = false
has_log (some log) = true

-- One round of the loop that reads the control connection, on what `read` answered: whether it goes on.
unfoldable pub goes_on : Result IoError (List ℕ) → Bool
goes_on (err e) = false
goes_on (ok []) = false
goes_on (ok (b ∷ bs)) = true

-- On fuel; `none` means that it ran out.
unfoldable pub discard_loop : ℕ → Stream → Option Stream
unfolding goes_on
discard_loop zero s = none
discard_loop (suc fuel) s =
    let (r, s') = read 64 s in elim (goes_on r) [ true ↦ discard_loop fuel s' | false ↦ some s' ]

-- A read that goes on takes a byte at least.
unfoldable pub discard : Stream → Option Stream
unfolding discard_loop
discard s = discard_loop (suc (length s.incoming)) s

-- The end of `relay_udp`: the relay is stopped when the control connection has ended.
unfoldable pub hung_up : Option Stream → Option ConnLog → Relay → Connection → Option Associated
unfolding log_if
hung_up none log relay c = none
hung_up (some s) log relay c = some (record {
  result = ok tt;
  connection =
      log_if log (chars "CLOSE -> udp relay") (record c { client = s; registry = relay.registry });
  relay = some relay;
})

-- `relay_udp` behind `reply_bound`.
unfoldable pub announced :
    Result IoError (Unit {0}) × Stream
    → SocketAddr
    → List Event
    → Option ConnLog
    → Connection
    → Option Associated
unfolding hung_up discard Udp.run Udp.bind
announced (err e, s) bound events log c =
    some (record { result = err (io e); connection = record c { client = s }; relay = none })
announced (ok _, s) bound events log c =
    let c' =
      log_if log (chars "OPEN  -> udp relay on " ++ socket_text bound) (record c { client = s }) in
    hung_up (discard s) log (Udp.run events (Udp.bind c'.registry (has_log log))) c'

unfoldable pub relay_bound :
    Result IoError (Result IoError SocketAddr)
    → List Event
    → Option ConnLog
    → Connection
    → Option Associated
unfolding announced
relay_bound (err e) events log c = some (record {
  result = err (io e);
  connection = record c { client = (reply rep_general_failure c.client).1 };
  relay = none;
})
relay_bound (ok (err e)) events log c =
    some (record { result = err (io e); connection = c; relay = none })
relay_bound (ok (ok bound)) events log c =
    announced (reply_bound rep_success bound c.client) bound events log c

-- The first argument is what `Relay::bind` answers, and then `local_addr`.
unfoldable pub relay_udp :
    Result IoError (Result IoError SocketAddr) → List Event → Connection → Option Associated
unfolding conn_log relay_bound
relay_udp answer events c =
    let (log, c') = conn_log (chars "udp") c in relay_bound answer events log c'

-- The addresses for `HTTP_PROXY` and `HTTPS_PROXY`, and for `ALL_PROXY`.
unfoldable pub http_url : SocketAddr → Text
unfolding socket_text
http_url addr = chars "http://" ++ socket_text addr

unfoldable pub socks_url : SocketAddr → Text
unfolding socket_text
socks_url addr = chars "socks5h://" ++ socket_text addr
