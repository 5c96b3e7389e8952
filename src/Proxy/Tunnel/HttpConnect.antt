-- ===== src/Proxy/Tunnel/HttpConnect.antt =====
-- A `CONNECT` request, from the bytes that the client sends to the tunnel that is opened.
use wiretally.Prelude.{
  ℕ, ◌<◌, ◌≤◌, ◌≡◌, refl, ap, subst, ◌∙◌, none, some, List, ◌∷◌, ◌++◌, length, drop, drop-append,
  All, ok, arith,
}
use wiretally.Text.{Text, chars, decimal, strip_prefix, to_ascii_lowercase, eq_ignore_ascii_case}
use wiretally.Stream.{Stream}
use wiretally.Proxy.{max_head_bytes, find_head_end, head_body, request_line, read_head}
use wiretally.Proxy.Authority.{split_authority_port}
use wiretally.Proxy.HeadEnd.{IsLine}
use wiretally.Proxy.ReadPast.{HeadRead-ReadPast}
use wiretally.Proxy.ConnectHead.{
  IsVisible, connect_head, request_line-connect_line, target-IsVisible, is_empty-target,
  find_head_end-connect_head,
}
use wiretally.Proxy.ReadHead.{HeadRead, read_head-HeadRead, read_head_keeps}
use wiretally.Proxy.Tunnel.{
  Connection, Connected, Handshake, open_tunnel, serve_head, serve_read, peeked, handle_connection,
}

serve_head_connect :
    (answer : Connected) (c : Connection) (host : Text) (port : ℕ) (head q : List ℕ) {end : ℕ}
    → request_line head ≡ some (chars "CONNECT", host ++ b':' ∷ decimal port)
    → find_head_end head ≡ some end
    → drop end head ≡ q
    → strip_prefix (chars "[") host ≡ none
    → port < 65536
    → serve_head head (request_line head) answer c
      ≡ open_tunnel answer (to_ascii_lowercase host) port q Handshake.http c
unfolding serve_head head_body eq_ignore_ascii_case
serve_head_connect answer c host port head q line found rest plain p =
    rw (line, serve_head, split_authority_port host port 443 plain p, head_body, found, rest) refl

-- A client that asks to CONNECT to a host and a port, in an HTTP request that has any further fields and
-- whose head is no larger than the limit, is served by a tunnel to that host, in lower case, and that
-- port, whatever follows the head and in whatever pieces it arrives: nothing has changed when the tunnel
-- is opened but what is read, and the bytes read behind the head and those still to be read are together
-- what follows the head. The host does not begin with a bracket, and the host and the version are
-- visible ASCII characters.
pub handle_connection_http :
    (answer : Connected) (c : Connection) (host version : Text) (port : ℕ) (fields : List (List ℕ))
    (payload : List ℕ)
    → All IsVisible host
    → strip_prefix (chars "[") host ≡ none
    → All IsVisible version
    → port < 65536
    → All IsLine fields
    → length (connect_head host port version fields) ≤ max_head_bytes
    → c.client.incoming ≡ connect_head host port version fields ++ payload
    → (leftover : List ℕ) × (s : Stream) × (handle_connection (ok tt) answer c
        ≡ some (
            open_tunnel answer
              (to_ascii_lowercase host)
              port
              leftover
              Handshake.http
              (record c { client = s })))
      × (leftover ++ s.incoming ≡ payload)
      × (s ≡ record c.client { incoming = s.incoming; arrivals = s.arrivals })
unfolding handle_connection peeked
handle_connection_http answer c host version port fields payload h plain v p ls small e =
    let head = connect_head host port version fields in
    let visible = target-IsVisible host port h in
    let found = find_head_end-connect_head host version port fields h v ls in
    let (q, s', r, f) =
      HeadRead-ReadPast head payload c.client (read_head c.client) found (omega arith) small (
        subst (λ all. HeadRead all c.client.ending (read_head c.client)) e
          (read_head-HeadRead c.client)) in
    (
      q,
      s',
      ap (λ bytes. peeked bytes answer c) e
          ∙ ap (λ x. serve_read x answer c) r
          ∙ ap some (
              serve_head_connect answer (record c { client = s' }) host port (head ++ q) q
                (request_line-connect_line (host ++ b':' ∷ decimal port) version fields q visible v
                  (is_empty-target host port))
                (found q) (drop-append head q (length head) refl) plain p),
      f,
      read_head_keeps c.client s' (ok (head ++ q)) r,
    )
