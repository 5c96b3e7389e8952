-- ===== src/Proxy/Tunnel/Tests.antt =====
-- Runs of `handle_connection` and of the opening of a tunnel.
use wiretally.Prelude.{ℕ, ◌≡◌, refl, false, none, some, List, [], ◌∷◌, ◌++◌, ok, err, arith}
use wiretally.Text.{chars, strip_prefix, decimal, to_ascii_lowercase}
use wiretally.Net.{IpAddr, v4, from_be_bytes}
use wiretally.Stream.{os_error, Stream}
use wiretally.Map.{text_key}
use wiretally.Stats.{new}
use wiretally.Stats.View.{counters, or_default, new-IsRegistry, with_counters}
use wiretally.Socks.{contains, method_none, version, cmd_connect}
use wiretally.Socks.Wire.{address, target_text}
use wiretally.Socks.Handshake.{client_greeting, client_request}
use wiretally.Proxy.Tunnel.{Connection, Route, Connected, Handshake, open_tunnel, handle_connection}
use wiretally.Proxy.Tunnel.Account.{opening, open_tunnel-counters}
use wiretally.Proxy.ConnectHead.{connect_head}
use wiretally.Proxy.Tunnel.HttpConnect.{handle_connection_http}
use wiretally.Proxy.Tunnel.Dispatch.{handle_connection_connect, handle_connection_returns}

abbrev sends : List ℕ → Connection
sends bytes = record {
  client = record { incoming = bytes; arrivals = []; ending = none; outgoing = []; broken = none };
  registry = new;
  verbose = false;
  lines = [];
}

abbrev loopback : IpAddr
loopback = v4 (127 ∷ 0 ∷ 0 ∷ 1 ∷ [])

abbrev answered : Connected
answered = ok (ok tt, some loopback)

abbrev refused : Connected
refused = err (os_error 111)

open_tunnel-counters_example :
    counters
      (open_tunnel refused (chars "a.dev") 443 [] Handshake.http (sends [])).1.registry
      (chars "a.dev")
    ≡ with_counters
        (chars "a.dev")
        (opening refused (or_default (counters new (chars "a.dev"))))
        new
        (chars "a.dev")
open_tunnel-counters_example =
    open_tunnel-counters refused (chars "a.dev") (chars "a.dev") 443 [] Handshake.http (sends [])
      new-IsRegistry

routed_socks :
    handle_connection (ok tt) answered (
      sends (
        client_greeting
          (0 ∷ [])
          (client_request cmd_connect 0 (address loopback) (1 ∷ 187 ∷ []) [])))
    ≡ some (
        open_tunnel answered
          (target_text (address loopback))
          (from_be_bytes (1 ∷ 187 ∷ []))
          []
          Handshake.socks
          (record (sends []) {
            client = record (sends []).client { outgoing = version ∷ method_none ∷ [] };
          }))
unfolding contains
routed_socks =
    handle_connection_connect answered (sends []) (0 ∷ []) [] 0 1 187 (address loopback) refl
      (refl, (omega arith, (omega arith, (omega arith, (omega arith, tt))))) refl

handled :
    (r : Route × Connection) × (handle_connection (ok tt) answered (sends (chars "GET")) ≡ some r)
handled = handle_connection_returns (ok tt) answered (sends (chars "GET"))

abbrev connect_request : List ℕ
connect_request =
    connect_head (chars "A.dev") 443 (chars "HTTP/1.1") (chars "Host: a.dev" ∷ []) ++ chars "hello"

-- The request comes in three pieces.
abbrev asks_connect : Connection
asks_connect = record (sends connect_request) {
  client = record (sends connect_request).client { arrivals = 20 ∷ 24 ∷ [] };
}

routed_http :
    (leftover : List ℕ) × (s : Stream) × (handle_connection (ok tt) answered asks_connect
      ≡ some (
          open_tunnel answered
            (to_ascii_lowercase (chars "A.dev"))
            443
            leftover
            Handshake.http
            (record asks_connect { client = s })))
    × (leftover ++ s.incoming ≡ chars "hello")
    × (s ≡ record asks_connect.client { incoming = s.incoming; arrivals = s.arrivals })
unfolding strip_prefix decimal
routed_http =
    handle_connection_http answered asks_connect (chars "A.dev") (chars "HTTP/1.1") 443
      (chars "Host: a.dev" ∷ []) (chars "hello") (omega arith) refl (omega arith) (omega arith)
      (omega arith) (omega arith) refl
