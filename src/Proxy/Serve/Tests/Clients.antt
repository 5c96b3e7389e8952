-- ===== src/Proxy/Serve/Tests/Clients.antt =====
-- Clients that ask for a tunnel or for a UDP association.
use wiretally.Prelude.{
  ℕ, ◌%◌, ◌+◌, ◌≡◌, refl, none, some, List, [], ◌∷◌, ◌++◌, append-nil, length, arith, ok,
}
use wiretally.Text.{Text, chars, decimal, to_ascii_lowercase, strip_prefix}
use wiretally.Stream.{os_error}
use wiretally.Net.{v4, SocketAddr}
use wiretally.Io.{client}
use wiretally.Map
use wiretally.Map.{text_key}
use wiretally.Stats.{Registry, u64_mod, new, track_open, add_connection, observe_if}
use wiretally.Stats.View.{counters, or_default, with_counters, new-IsRegistry}
use wiretally.Io.Run.{Op, write, bytes_written}
use wiretally.Proxy.ConnectHead.{connect_head}
use wiretally.Proxy.Tunnel.{Connection, Tunnel, Route, Handshake, handle_connection}
use wiretally.Proxy.Serve.Account.{copying}
use wiretally.Proxy.Serve.{Answers, Web, connection_task}
use wiretally.Socks.{contains, cmd_connect, version, method_none}
use wiretally.Socks.Datagram.{encode_datagram}
use wiretally.Proxy.Serve.Tests.{
  simple_hyper, connects_once, serves_one, tcp_stream, gets, no_tunnel,
}
use wiretally.Udp.{from_client, from_upstream}
use wiretally.Udp.Amounts.{untold, all_sent, all_returned}
use wiretally.Proxy.Association.Outcome.{announcement}
use wiretally.Proxy.Serve.Datagrams.{associate_request, udp_task_bytes}
use wiretally.Socks.Wire.{domain, target_text}
use wiretally.Socks.Handshake.{client_greeting, client_request}
use wiretally.Proxy.Serve.Asks.{Asks, by_http, by_socks, selection, success, refusal}
use wiretally.Proxy.Serve.Connect.{connect_task_refused}
use wiretally.Proxy.Serve.Payload.{connect_task_payload}
use wiretally.Io.Payload.{Ordered, read_bytes}
use wiretally.Io.Replay.{view}
use wiretally.Io.Metered.{metered, IsCounted}

-- A client that asks for a tunnel and sends five bytes behind its request, in pieces.
abbrev asks_connect : Connection
asks_connect = record gets {
  client = record gets.client {
    incoming =
        connect_head (chars "A.dev") 443 (chars "HTTP/1.1") (chars "Host: a.dev" ∷ [])
        ++ chars "hello";
    arrivals = 20 ∷ 24 ∷ [];
  };
}

-- The copying reads twice and writes an answer of three bytes.
abbrev copies : Answers
copies = record no_tunnel {
  connecting = ok (ok tt, none);
  polls = Op.read 8 ∷ Op.read 8 ∷ write (1 ∷ 2 ∷ 3 ∷ []) ∷ [];
}

abbrev asks_http :
    Asks Handshake.http
      (to_ascii_lowercase (chars "A.dev"))
      443
      (chars "hello")
      asks_connect.client.incoming
unfolding strip_prefix decimal
asks_http =
    by_http (chars "A.dev") (chars "HTTP/1.1") 443 (chars "Host: a.dev" ∷ []) (chars "hello")
      (omega arith) refl (omega arith) (omega arith) (omega arith) (omega arith)

tcp_in_order : Ordered tcp_stream (λ s. s.incoming)
tcp_in_order = record {
  reads = λ room s. append-nil s.incoming;
  writes = λ buf s. refl;
  writes_vectored = λ bufs s. refl;
  flushes = λ s. refl;
  shuts_down = λ s. refl;
}

connect_task_payload_example :
    (t : Tunnel) × (c' : Connection) × (w : Web (List ℕ)) × (handle_connection copies.nodelay
        copies.connecting
        (record asks_connect { registry = track_open asks_connect.registry })
      ≡ some (Route.tunnel t, c'))
    × (connection_task simple_hyper connects_once serves_one tcp_stream copies asks_connect
        ≡ some w)
    × (w.pool ≡ [])
    × (c'.client.outgoing ≡ ([] ++ selection Handshake.http) ++ success Handshake.http)
    × (w.connection.client ≡ (copying tcp_stream copies.polls t c').1.0.inner.inner)
    × (read_bytes (copying tcp_stream copies.polls t c').0
          ++ ((view (copying tcp_stream copies.polls t c').1.0.inner).0
              ++ w.connection.client.incoming)
        ≡ chars "hello")
    × ((h : Text)
        → counters w.connection.registry h
          ≡ with_counters
              (to_ascii_lowercase (chars "A.dev"))
              (metered client
                (length (read_bytes (copying tcp_stream copies.polls t c').0))
                (bytes_written (copying tcp_stream copies.polls t c').0)
                (add_connection (
                  observe_if none
                    (or_default (counters new (to_ascii_lowercase (chars "A.dev")))))))
              new
              h)
unfolding new counters Map.get
connect_task_payload_example =
    connect_task_payload simple_hyper connects_once serves_one tcp_stream tcp_in_order copies
      asks_connect none asks_http refl refl refl new-IsRegistry
      (record { ingress_lt = omega arith; egress_lt = omega arith })

-- A SOCKS5 client that asks for a domain that cannot be reached.
abbrev asks_socks : Connection
asks_socks = record gets {
  client = record gets.client {
    incoming =
        client_greeting (0 ∷ [])
          (client_request cmd_connect 0 (domain (chars "a.dev")) (1 ∷ 187 ∷ []) []);
  };
}

connect_task_refused_example :
    (w : Web (List ℕ)) × (connection_task simple_hyper connects_once serves_one tcp_stream no_tunnel
        asks_socks
      ≡ some w)
    × (w.pool ≡ [])
    × (w.connection.client.outgoing ≡ ([] ++ selection Handshake.socks) ++ refusal Handshake.socks)
    × ((h : Text)
        → counters w.connection.registry h
          ≡ with_counters
              (target_text (domain (chars "a.dev")))
              (or_default (counters new (target_text (domain (chars "a.dev")))))
              new
              h)
unfolding contains
connect_task_refused_example =
    connect_task_refused simple_hyper connects_once serves_one tcp_stream no_tunnel asks_socks
      (os_error 111) (by_socks (0 ∷ []) 0 1 187 (domain (chars "a.dev")) [] refl (omega arith)) refl
      refl refl new-IsRegistry

-- A SOCKS5 client that asks for an association, sends one datagram and gets one back.
abbrev asks_udp : Connection
asks_udp = record gets {
  client = record gets.client {
    incoming = associate_request (0 ∷ []) 0 0 0 (domain (chars "a.dev")) [];
  };
}

abbrev relay_addr : SocketAddr
relay_addr = record { ip = v4 (127 ∷ 0 ∷ 0 ∷ 1 ∷ []); port = 5300 }

abbrev relays : Answers
relays = record no_tunnel {
  binding = ok (ok relay_addr);
  events =
      from_client (encode_datagram relay_addr (chars "query") []) relay_addr (ok (relay_addr ∷ []))
        (ok 5)
      ∷ from_upstream (chars "answer") relay_addr (ok 16)
      ∷ [];
}

udp_task_bytes_example :
    (w : Web (List ℕ)) × (base : Registry) × (connection_task simple_hyper connects_once serves_one
        tcp_stream relays asks_udp
      ≡ some w)
    × (w.pool ≡ [])
    × (w.connection.client.incoming ≡ [])
    × (w.connection.client.outgoing ≡ announcement relay_addr ([] ++ version ∷ method_none ∷ []))
    × ((h : Text) → counters base h ≡ counters new h)
    × ((h : Text)
        → IsCounted (or_default (counters new h))
        → ((or_default (counters w.connection.registry h)).egress
            ≡ ((or_default (counters new h)).egress + all_sent relays.events untold h) % u64_mod)
          × ((or_default (counters w.connection.registry h)).ingress
              ≡ ((or_default (counters new h)).ingress + all_returned relays.events untold h)
                % u64_mod))
unfolding contains
udp_task_bytes_example =
    udp_task_bytes simple_hyper connects_once serves_one tcp_stream relays asks_udp (0 ∷ []) [] 0 0
      0 (domain (chars "a.dev")) relay_addr refl (omega arith) refl refl refl refl new-IsRegistry
