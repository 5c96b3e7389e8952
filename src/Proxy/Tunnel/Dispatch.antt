-- ===== src/Proxy/Tunnel/Dispatch.antt =====
-- How `handle_connection` tells its clients apart.
use wiretally.Prelude.{
  ℕ, ◌≡◌, refl, true, Option, none, some, List, [], ◌∷◌, ◌++◌, Option-cases, Bool-cases, inl, inr,
  Result, ok, err, ◌==◌,
}
use wiretally.Net.{from_be_bytes}
use wiretally.Stream.{IoError, Stream}
use wiretally.Socks.{contains, method_none, version, cmd_connect, greeting_byte}
use wiretally.Socks.Wire.{Target, IsTarget, target_text}
use wiretally.Socks.Handshake.{client_greeting, client_request, accept_complete}
use wiretally.Proxy.{read_head}
use wiretally.Proxy.ReadHead.{HeadRead, read_head-HeadRead}
use wiretally.Proxy.Tunnel.{
  io, closed, failed, Connection, Route, Connected, Handshake, open_tunnel, serve_command,
  serve_socks, serve_read, peeked, handle_connection,
}

-- A client that offers no authentication and asks to CONNECT to a destination is served by a tunnel to
-- the destination's host and port: its greeting and request are read to the last byte, the method
-- selection is written, and nothing else has changed when the tunnel is opened.
pub handle_connection_connect :
    (answer : Connected) (c : Connection) (methods rest : List ℕ) (rsv hi lo : ℕ) (t : Target)
    → contains method_none methods ≡ true
    → IsTarget t
    → c.client.broken ≡ none
    → handle_connection (ok tt) answer (record c {
      client = record c.client {
        incoming = client_greeting methods (client_request cmd_connect rsv t (hi ∷ lo ∷ []) rest);
      };
    })
      ≡ some (
          open_tunnel answer
            (target_text t)
            (from_be_bytes (hi ∷ lo ∷ []))
            []
            Handshake.socks
            (record c {
              client = record c.client {
                incoming = rest;
                outgoing = c.client.outgoing ++ version ∷ method_none ∷ [];
              };
            }))
unfolding handle_connection peeked serve_socks serve_command
handle_connection_connect answer c methods rest rsv hi lo t offered v writable =
    rw (accept_complete c.client methods rest cmd_connect rsv hi lo t offered v writable) refl

serve_read_returns :
    (ending : Option IoError) (all : List ℕ) (x : Option (Result IoError (List ℕ) × Stream))
    (answer : Connected) (c : Connection)
    → HeadRead all ending x
    → (r : Route × Connection) × (serve_read x answer c ≡ some r)
unfolding serve_read
serve_read_returns ending all none answer c h = absurd h
serve_read_returns ending all (some (ok head, s)) answer c h = (_, refl)
serve_read_returns ending all (some (err e, s)) answer c h = (_, refl)

peeked_returns :
    (bytes : List ℕ) (answer : Connected) (c : Connection)
    → (r : Route × Connection) × (peeked bytes answer c ≡ some r)
unfolding peeked
peeked_returns [] answer c = elim (Option-cases c.client.ending) [
  | inl e ↦ ((closed, c), rw e refl)
  | inr (x, e) ↦ ((failed (io x), c), rw e refl)
]
peeked_returns (b ∷ bs) answer c = elim (Bool-cases (b == greeting_byte)) [
  | inl greeted ↦ (serve_socks answer c, rw greeted refl)
  | inr plain ↦
      let (r, e) =
        serve_read_returns c.client.ending c.client.incoming (read_head c.client) answer c
          (read_head-HeadRead c.client) in
      (r, rw plain e)
]

-- Every connection is told apart after a finite time: whatever the client sends, in whatever pieces, and
-- however the system answers, there is a route to take or an error.
pub handle_connection_returns :
    (nodelay : Result IoError (Unit {0})) (answer : Connected) (c : Connection)
    → (r : Route × Connection) × (handle_connection nodelay answer c ≡ some r)
unfolding handle_connection
handle_connection_returns (err e) answer c = (_, refl)
handle_connection_returns (ok u) answer c = peeked_returns c.client.incoming answer c
