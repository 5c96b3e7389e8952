-- ===== src/Proxy/Association/Tests.antt =====
-- An association of a client that sends one datagram and hangs up.
use wiretally.Prelude.{◌≡◌, refl, true, none, some, List, [], ◌∷◌, ok}
use wiretally.Text.{chars, decimal}
use wiretally.Net.{SocketAddr, v4, ip_text, socket_text}
use wiretally.Stream.{os_error}
use wiretally.Stats.{new}
use wiretally.Udp.{Event}
use wiretally.Proxy.Tunnel.{Connection}
use wiretally.Proxy.Association.{Associated, relay_udp, http_url, socks_url}
use wiretally.Proxy.Association.Outcome.{Served}
use wiretally.Proxy.Association.Served.{relay_udp-Served}

abbrev bound : SocketAddr
bound = record { ip = v4 (127 ∷ 0 ∷ 0 ∷ 1 ∷ []); port = 4321 }

abbrev control : Connection
control = record {
  client = record {
    incoming = 1 ∷ 2 ∷ [];
    arrivals = 1 ∷ [];
    ending = some (os_error 104);
    outgoing = [];
    broken = none;
  };
  registry = new;
  verbose = true;
  lines = [];
}

-- A client's datagram to 10.0.0.1, port 53.
abbrev datagrams : List Event
datagrams =
    Event.from_client (0 ∷ 0 ∷ 0 ∷ 1 ∷ 10 ∷ 0 ∷ 0 ∷ 1 ∷ 0 ∷ 53 ∷ 7 ∷ 8 ∷ [])
      (record { ip = v4 (127 ∷ 0 ∷ 0 ∷ 1 ∷ []); port = 5000 })
      (ok (record { ip = v4 (10 ∷ 0 ∷ 0 ∷ 1 ∷ []); port = 53 } ∷ [])) (ok 2)
    ∷ []

relay_udp-Served_example :
    (a : Associated) × (relay_udp (ok (ok bound)) datagrams control ≡ some a)
    × Served (ok (ok bound)) datagrams control a
relay_udp-Served_example = relay_udp-Served (ok (ok bound)) datagrams control

child_urls :
    (http_url bound ≡ chars "http://127.0.0.1:4321")
    × (socks_url bound ≡ chars "socks5h://127.0.0.1:4321")
unfolding http_url socks_url socket_text ip_text decimal
child_urls = (refl, refl)
