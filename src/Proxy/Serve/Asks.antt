-- ===== src/Proxy/Serve/Asks.antt =====
-- A client that asks for a tunnel, in either protocol: what it sends, what it is answered, and where
-- `handle_connection` takes it.
use wiretally.Prelude.{
  ℕ, ◌<◌, ◌≤◌, ◌≡◌, refl, ap, sym, ◌∙◌, true, none, some, List, [], ◌∷◌, ◌++◌, append-nil, length,
  All, ok, arith,
}
use wiretally.Text.{Text, chars, strip_prefix, to_ascii_lowercase}
use wiretally.Net.{from_be_bytes}
use wiretally.Stream.{Stream, write_all}
use wiretally.Socks.{contains, method_none, version, cmd_connect, reply}
use wiretally.Socks.Wire.{Target, IsTarget, target_text}
use wiretally.Socks.Handshake.{client_greeting, client_request}
use wiretally.Proxy.{max_head_bytes}
use wiretally.Proxy.HeadEnd.{IsLine}
use wiretally.Proxy.ConnectHead.{IsVisible, connect_head}
use wiretally.Proxy.Tunnel.{
  Connection, Connected, Handshake, open_tunnel, handle_connection, handshake_accept,
  handshake_refuse,
}
use wiretally.Proxy.Tunnel.Dispatch.{handle_connection_connect}
use wiretally.Proxy.Tunnel.HttpConnect.{handle_connection_http}

-- The bytes of a client that asks for a tunnel to a host and a port, with a payload behind them. In HTTP
-- the head has any fields and is no larger than the limit, the host does not begin with a bracket, and
-- its capital letters are made small. In SOCKS5 the client offers no authentication.
pub data Asks : Handshake → Text → ℕ → List ℕ → List ℕ → Type 0 where
  by_http :
      (host protocol : Text) (port : ℕ) (fields : List (List ℕ)) (payload : List ℕ)
      → All IsVisible host
      → strip_prefix (chars "[") host ≡ none
      → All IsVisible protocol
      → port < 65536
      → All IsLine fields
      → length (connect_head host port protocol fields) ≤ max_head_bytes
      → Asks Handshake.http
          (to_ascii_lowercase host)
          port
          payload
          (connect_head host port protocol fields ++ payload)
  by_socks :
      (methods : List ℕ) (rsv hi lo : ℕ) (t : Target) (payload : List ℕ)
      → contains method_none methods ≡ true
      → IsTarget t
      → Asks Handshake.socks
          (target_text t)
          (from_be_bytes (hi ∷ lo ∷ []))
          payload
          (client_greeting methods (client_request cmd_connect rsv t (hi ∷ lo ∷ []) payload))

-- What the client is sent: before the system is asked to connect, when it has, and when it could not.
abbrev pub selection : Handshake → List ℕ
selection Handshake.http = []
selection Handshake.socks = version ∷ method_none ∷ []

abbrev pub success : Handshake → List ℕ
success Handshake.http = chars "HTTP/1.1 200 Connection Established\r\n\r\n"
success Handshake.socks = 5 ∷ 0 ∷ 0 ∷ 1 ∷ 0 ∷ 0 ∷ 0 ∷ 0 ∷ 0 ∷ 0 ∷ []

abbrev pub refusal : Handshake → List ℕ
refusal Handshake.http = chars "HTTP/1.1 502 Bad Gateway\r\nContent-Length: 0\r\n\r\n"
refusal Handshake.socks = 5 ∷ 5 ∷ 0 ∷ 1 ∷ 0 ∷ 0 ∷ 0 ∷ 0 ∷ 0 ∷ 0 ∷ []

pub accepted_reply :
    (k : Handshake) (s : Stream)
    → s.broken ≡ none
    → handshake_accept k s ≡ (ok tt, record s { outgoing = s.outgoing ++ success k })
unfolding handshake_accept reply write_all
accepted_reply Handshake.http s h = ground (arith, h)
accepted_reply Handshake.socks s h = ground (arith, h)

pub refused_reply :
    (k : Handshake) (s : Stream)
    → s.broken ≡ none
    → (handshake_refuse k s).1 ≡ record s { outgoing = s.outgoing ++ refusal k }
unfolding handshake_refuse reply write_all
refused_reply Handshake.http s h = ground (arith, h)
refused_reply Handshake.socks s h = ground (arith, h)

-- The client's stream when the tunnel is opened, with the bytes that were read behind the request.
pub record Asked (k : Handshake) (payload leftover : List ℕ) (before s : Stream) : Type 0 where
  pub whole : leftover ++ s.incoming ≡ payload
  pub sent : s.outgoing ≡ before.outgoing ++ selection k
  pub broken : s.broken ≡ before.broken

pub handle_connection-Asks :
    {k : Handshake} {host : Text} {port : ℕ} {payload bytes : List ℕ} (answer : Connected)
    (c : Connection)
    → Asks k host port payload bytes
    → c.client.incoming ≡ bytes
    → c.client.broken ≡ none
    → (leftover : List ℕ) × (s : Stream) × (handle_connection (ok tt) answer c
        ≡ some (open_tunnel answer host port leftover k (record c { client = s })))
      × Asked k payload leftover c.client s
handle_connection-Asks answer c (by_http host protocol port fields payload h plain v p ls small) e
      whole =
    let (leftover, s, routed, rest, keeps) =
      handle_connection_http answer c host protocol port fields payload h plain v p ls small e in
    (
      leftover,
      s,
      routed,
      record {
        whole = rest;
        sent = ap (λ (x : Stream). x.outgoing) keeps ∙ sym (append-nil c.client.outgoing);
        broken = ap (λ (x : Stream). x.broken) keeps;
      },
    )
handle_connection-Asks answer c (by_socks methods rsv hi lo t payload offered valid) e whole = (
  [],
  record c.client {
    incoming = payload;
    outgoing = c.client.outgoing ++ version ∷ method_none ∷ [];
  },
  ap
        (λ bytes.
          handle_connection (ok tt) answer
            (record c { client = record c.client { incoming = bytes } }))
        e
      ∙ handle_connection_connect answer c methods payload rsv hi lo t offered valid whole,
  record { whole = refl; sent = refl; broken = refl },
)
