-- ===== src/Proxy/Association/Outcome.antt =====
-- What a UDP association may come to.
use wiretally.Prelude.{
  ℕ, ◌+◌, ◌/◌, ◌%◌, ◌≡◌, true, false, Bool, Option, none, some, List, [], ◌∷◌, ◌++◌, Result, ok,
  err, if◌then◌else◌,
}
use wiretally.Text.{chars}
use wiretally.Net.{IpAddr, v4, v6, SocketAddr, socket_text}
use wiretally.Stream.{IoError, Stream}
use wiretally.Io.{LogLine}
use wiretally.Stats.{u64_mod, next_id}
use wiretally.Udp
use wiretally.Udp.{Relay, Event}
use wiretally.Proxy.Tunnel.{Connection, io}
use wiretally.Proxy.Association.{Associated}

-- An address in a SOCKS5 reply: 1 before the octets of an IPv4 address, 4 before those of an IPv6 one.
abbrev pub address_bytes : IpAddr → List ℕ
address_bytes (v4 octets) = 1 ∷ octets
address_bytes (v6 octets) = 4 ∷ octets

-- What a client has that was sent `out` and then the success reply with an address and the two bytes of
-- its port.
abbrev pub announcement : SocketAddr → List ℕ → List ℕ
announcement bound out =
    out ++ 5 ∷ 0 ∷ 0 ∷ (address_bytes bound.ip ++ bound.port / 256 ∷ bound.port % 256 ∷ [])

-- A client's stream with the reply of a general failure, if it takes one.
abbrev pub failure_told : Stream → Stream
failure_told s = elim s.broken [
  | none ↦ record s { outgoing = s.outgoing ++ 5 ∷ 1 ∷ 0 ∷ 1 ∷ 0 ∷ 0 ∷ 0 ∷ 0 ∷ 0 ∷ 0 ∷ [] }
  | some e ↦ s
]

-- What the log has of an association: its number, and the lines of its start and its end.
abbrev pub association_lines : Bool → ℕ → SocketAddr → List LogLine
association_lines false id bound = []
association_lines true id bound =
    (id, chars "OPEN  -> udp relay on " ++ socket_text bound)
    ∷ (id, chars "CLOSE -> udp relay")
    ∷ []

-- The connection with the number that its log takes.
abbrev pub numbered : Connection → Connection
numbered c = if c.verbose then record c { registry = (next_id c.registry).1 } else c

-- The association of a client that could be told the relay's address.
pub record Relayed (bound : SocketAddr) (events : List Event) (c : Connection) (a : Associated)
    : Type 0 where
  pub succeeded : a.result ≡ ok tt
  pub relayed : a.relay ≡ some (Udp.run events (Udp.bind (numbered c).registry c.verbose))
  pub registry :
      a.connection.registry ≡ (Udp.run events (Udp.bind (numbered c).registry c.verbose)).registry
  pub told : a.connection.client.outgoing ≡ announcement bound c.client.outgoing
  pub read_out : a.connection.client.incoming ≡ []
  pub lines :
      a.connection.lines
      ≡ c.lines ++ association_lines c.verbose ((c.registry.next_conn_id + 1) % u64_mod) bound

-- One that came to nothing: the reason, and what was written to the client.
pub record Abandoned (e : IoError) (client : Stream) (c : Connection) (a : Associated)
    : Type 0 where
  pub failed : a.result ≡ err (io e)
  pub no_relay : a.relay ≡ none
  pub connection : a.connection ≡ record (numbered c) { client = client }

-- Whether the client's stream can be written to.
abbrev pub Told : Option IoError → SocketAddr → List Event → Connection → Associated → Type 0
Told none bound events c a = Relayed bound events c a
Told (some e) bound events c a = Abandoned e c.client c a

abbrev pub Served :
    Result IoError (Result IoError SocketAddr) → List Event → Connection → Associated → Type 0
Served (err e) events c a = Abandoned e (failure_told c.client) c a
Served (ok (err e)) events c a = Abandoned e c.client c a
Served (ok (ok bound)) events c a = Told c.client.broken bound events c a
