-- ===== src/Proxy/Serve/Payload.antt =====
-- A client of a tunnel over TCP: every byte of its payload is copied and counted, or is still to be read.
use wiretally.Prelude.{ℕ, ◌≡◌, ap, sym, ◌∙◌, Option, none, some, List, [], ◌++◌, length, ok, Exec}
use mathlib.Core.Path.{ap₂}
use wiretally.Text.{Text}
use wiretally.Net.{IpAddr}
use wiretally.Stream.{Stream}
use wiretally.Map.{text_key}
use wiretally.Stats.{track_open, add_connection, observe_if}
use wiretally.Stats.View.{IsRegistry, counters, or_default, with_counters}
use wiretally.Io.{ByteStream, client}
use wiretally.Io.Run.{bytes_read, bytes_written}
use wiretally.Io.Metered.{metered, IsCounted}
use wiretally.Io.Replay.{in_front, view}
use wiretally.Io.Payload.{Ordered, read_bytes, run-Ordered, in_front-Ordered, bytes_read-read_bytes}
use wiretally.Proxy.Tunnel.{Connection, Tunnel, Route, Handshake, handle_connection}
use wiretally.Proxy.Http.{Hyper, HttpRequest, HttpResponse}
use wiretally.Proxy.Serve.{Answers, Web, ServeConnection, connection_task}
use wiretally.Proxy.Serve.Asks.{Asks, selection, success}
use wiretally.Proxy.Serve.Account.{copying, copying_front}
use wiretally.Proxy.Serve.Connect.{connect_task_splices}

module _ {H V U B R S : Type 0} (y : Hyper H V U) (http : HttpRequest H U B → Exec (Web S) Text R)
    (serve_connection : ServeConnection (Web S) (HttpRequest H U B) (HttpResponse R))
    (tcp : ByteStream Stream) where
  -- The whole task of a client that asks for a tunnel, in HTTP or in SOCKS5, when the system
  -- connects and the client can be written to, over a TCP stream that yields its bytes in order, in
  -- a registry that is well formed and has the host's counters in range. The task ends, with no
  -- sockets left, and before the copying starts the client has got the answers of its protocol and
  -- nothing else. The payload behind its request is: what the polls of the copying got from the
  -- counted client's stream, then what that stream still holds back, then what is unread in the
  -- client's own stream when the task ends; in order, with no byte lost, read twice or taken for the
  -- request. The host has one connection more, the first address seen, as egress the bytes that the
  -- polls got, and as ingress those that they wrote to the client, modulo 2 ^ 64; the counters of all
  -- other hosts are as before.
  pub connect_task_payload :
      Ordered tcp (λ s. s.incoming)
      → (a : Answers) (c : Connection) {k : Handshake} {host : Text} {port : ℕ} {payload : List ℕ}
        (peer : Option IpAddr)
      → Asks k host port payload c.client.incoming
      → a.nodelay ≡ ok tt
      → a.connecting ≡ ok (ok tt, peer)
      → c.client.broken ≡ none
      → IsRegistry c.registry
      → IsCounted (or_default (counters c.registry host))
      → (t : Tunnel) × (c' : Connection) × (w : Web S) × (handle_connection a.nodelay a.connecting
            (record c { registry = track_open c.registry })
          ≡ some (Route.tunnel t, c'))
        × (connection_task y http serve_connection tcp a c ≡ some w)
        × (w.pool ≡ [])
        × (c'.client.outgoing ≡ (c.client.outgoing ++ selection k) ++ success k)
        × (w.connection.client ≡ (copying tcp a.polls t c').1.0.inner.inner)
        × (read_bytes (copying tcp a.polls t c').0
              ++ ((view (copying tcp a.polls t c').1.0.inner).0 ++ w.connection.client.incoming)
            ≡ payload)
        × ((h : Text)
            → counters w.connection.registry h
              ≡ with_counters host
                  (metered client
                    (length (read_bytes (copying tcp a.polls t c').0))
                    (bytes_written (copying tcp a.polls t c').0)
                    (add_connection (observe_if peer (or_default (counters c.registry host)))))
                  c.registry
                  h)
  connect_task_payload ordered a c {k} {host} peer asks nodelay up whole valid counted =
      let (t, c', w, routed, ends, none_left, kept, rest, told, there, in_range, seen) =
        connect_task_splices y http serve_connection tcp a c peer asks nodelay up whole valid
          counted in
      let (outcomes, left, last) = copying_front tcp a t c' there in_range in
      let os = (copying tcp a.polls t c').0 in
      let held_back = (view (copying tcp a.polls t c').1.0.inner).0 in
      (
        t,
        c',
        w,
        routed,
        ends,
        none_left,
        told,
        kept ∙ last,
        ap (λ (x : Stream). read_bytes os ++ (held_back ++ x.incoming)) (kept ∙ last)
            ∙ ap₂ (λ l (v : List ℕ × Stream). read_bytes l ++ (v.0 ++ v.1.incoming)) outcomes left
            ∙ run-Ordered (in_front tcp) (λ p. p.0 ++ p.1.incoming)
                (in_front-Ordered tcp (λ x. x.incoming) ordered) a.polls (t.leftover, c'.client)
            ∙ rest,
        λ h.
            seen h
            ∙ ap₂
                (λ n m.
                  with_counters host
                    (metered client n m
                      (add_connection (observe_if peer (or_default (counters c.registry host)))))
                    c.registry h)
                (ap bytes_read (sym outcomes) ∙ bytes_read-read_bytes os)
                (ap bytes_written (sym outcomes)),
      )
