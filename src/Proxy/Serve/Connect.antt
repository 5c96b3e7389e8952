-- ===== src/Proxy/Serve/Connect.antt =====
-- A client of a tunnel from its first byte to the counters: the task of its connection as a whole.
use wiretally.Prelude.{
  ℕ, ◌<◌, ◌≡◌, refl, ap, sym, ◌∙◌, Option, none, some, List, [], ◌++◌, length, ok, err, Exec,
}
use mathlib.Core.Path.{ap₂}
use wiretally.Text.{Text}
use wiretally.Net.{IpAddr}
use wiretally.Stream.{IoError, Stream}
use wiretally.Map.{text_key}
use wiretally.Stats.{read, track_open, add_connection, observe_if}
use wiretally.Stats.View.{IsRegistry, counters, or_default, with_counters}
use wiretally.Io.{ByteStream}
use wiretally.Io.Metered.{IsCounted}
use wiretally.Proxy.Tunnel.{Connection, Route, Tunnel, Handshake, ProxyError, io, handle_connection}
use wiretally.Proxy.Http.{Hyper, HttpRequest, HttpResponse}
use wiretally.Proxy.Tasks.Invariant.{track_open-IsRegistry}
use wiretally.Proxy.Serve.{
  Answers, Web, ServeConnection, splice, no_sockets, task_done, follow, followed, connection_task,
}
use wiretally.Proxy.Tunnel.Account.{open_tunnel-counters}
use wiretally.Proxy.Serve.Asks.{
  Asks, selection, success, refusal, refused_reply, handle_connection-Asks,
}
use wiretally.Proxy.Serve.Opened.{open_tunnel_refused, open_tunnel-Opened}
use wiretally.Proxy.Serve.Account.{copied_by, tunnel_cell, tunnel_counted, counters-drop_guard}

module _ {H V U B R S : Type 0} (y : Hyper H V U) (client : HttpRequest H U B → Exec (Web S) Text R)
    (serve_connection : ServeConnection (Web S) (HttpRequest H U B) (HttpResponse R))
    (tcp : ByteStream Stream) where
  -- The end of a task whose connection was told to be a tunnel.
  tunnel_task :
      (a : Answers) (c : Connection) (t : Tunnel) (c' : Connection)
      → handle_connection a.nodelay a.connecting (record c { registry = track_open c.registry })
        ≡ some (Route.tunnel t, c')
      → (w : Web S) × (connection_task y client serve_connection tcp a c ≡ some w)
        × (w.pool ≡ [])
        × (w.connection.client ≡ (splice tcp a t c').1.client)
        × ((h : Text)
            → counters w.connection.registry h ≡ counters (splice tcp a t c').1.registry h)
  unfolding connection_task followed follow no_sockets task_done
  tunnel_task a c t c' e = (
    _,
    ap (λ x. task_done (followed y client serve_connection tcp x a)) e,
    refl,
    refl,
    counters-drop_guard (splice tcp a t c').1.registry,
  )

  -- The end of a task whose connection failed.
  failed_task :
      (a : Answers) (c : Connection) (e : ProxyError) (c' : Connection)
      → handle_connection a.nodelay a.connecting (record c { registry = track_open c.registry })
        ≡ some (Route.failed e, c')
      → (w : Web S) × (connection_task y client serve_connection tcp a c ≡ some w)
        × (w.pool ≡ [])
        × (w.connection.client ≡ c'.client)
        × ((h : Text) → counters w.connection.registry h ≡ counters c'.registry h)
  unfolding connection_task followed follow no_sockets task_done
  failed_task a c e c' routed = (
    _,
    ap (λ x. task_done (followed y client serve_connection tcp x a)) routed,
    refl,
    refl,
    counters-drop_guard c'.registry,
  )

  -- The whole task of a client that asks for a tunnel, in HTTP or in SOCKS5, when the system
  -- connects and the client can be written to, in a registry that is well formed and has the host's
  -- counters in range. The task ends, with no sockets left. What was left over of
  -- the head and what is then still to be read are what the client sent behind the request, and the client has got the
  -- answers of its protocol and nothing else before the copying starts. The host has one connection
  -- more, the first address seen, and as egress and ingress the bytes that the copying reads from
  -- the client, those behind the request first, and writes to it, modulo 2 ^ 64; the counters of
  -- all other hosts are as before.
  pub connect_task_splices :
      (a : Answers) (c : Connection) {k : Handshake} {host : Text} {port : ℕ} {payload : List ℕ}
      (peer : Option IpAddr)
      → Asks k host port payload c.client.incoming
      → a.nodelay ≡ ok tt
      → a.connecting ≡ ok (ok tt, peer)
      → c.client.broken ≡ none
      → IsRegistry c.registry
      → IsCounted (or_default (counters c.registry host))
      → (t : Tunnel) × (c' : Connection) × (w : Web S) × (handle_connection a.nodelay a.connecting
            (record c { registry = track_open c.registry })
          ≡ some (Route.tunnel t, c'))
        × (connection_task y client serve_connection tcp a c ≡ some w)
        × (w.pool ≡ [])
        × (w.connection.client ≡ (splice tcp a t c').1.client)
        × (t.leftover ++ c'.client.incoming ≡ payload)
        × (c'.client.outgoing ≡ (c.client.outgoing ++ selection k) ++ success k)
        × (t.stats < length c'.registry.cells)
        × IsCounted (read c'.registry t.stats)
        × ((h : Text)
            → counters w.connection.registry h
              ≡ with_counters host
                  (copied_by tcp a.polls t.leftover c'.client
                    (add_connection (observe_if peer (or_default (counters c.registry host)))))
                  c.registry
                  h)
  unfolding track_open counters read
  connect_task_splices a c {k} {host} {port} peer asks nodelay up whole valid counted =
      let c1 : Connection = record c { registry = track_open c.registry } in
      let (leftover, s, routed, asked) =
        handle_connection-Asks (ok (ok tt, peer)) c1 asks refl whole in
      let c2 : Connection = record c1 { client = s } in
      let valid' = track_open-IsRegistry c.registry valid in
      let (t, c', opens, o) =
        open_tunnel-Opened peer host port leftover k c2 (asked.broken ∙ whole) valid' in
      let tunnels = ap₂ (λ x z. handle_connection x z c1) nodelay up ∙ routed ∙ ap some opens in
      let (w, ends, none_left, kept, same) = tunnel_task a c t c' tunnels in
      let (there, in_range) =
        tunnel_cell peer host port leftover k c2 t c' opens o valid' counted in
      (
        t,
        c',
        w,
        tunnels,
        ends,
        none_left,
        kept,
        ap₂ (λ l (x : Stream). l ++ x.incoming) o.kept o.client ∙ asked.whole,
        ap (λ (x : Stream). x.outgoing) o.client ∙ ap (λ out. out ++ success k) asked.sent,
        there,
        in_range,
        λ h.
            same h
            ∙ tunnel_counted tcp a peer host h port leftover k c2 t c' opens o valid' counted
            ∙ ap₂
                (λ l (x : Stream).
                  with_counters host
                    (copied_by tcp a.polls l x
                      (add_connection (observe_if peer (or_default (counters c.registry host)))))
                    c.registry h)
                (sym o.kept) (sym o.client),
      )

  -- The whole task of a client that asks for a tunnel, in HTTP or in SOCKS5, when the system cannot
  -- connect and the client can be written to, in a registry that is well formed: it ends, with no
  -- sockets left, the client is told so as its protocol says, and no connection and no byte is
  -- counted. The host is registered with the counters that it had, or with zero counters, and all
  -- other hosts are as before.
  pub connect_task_refused :
      (a : Answers) (c : Connection) {k : Handshake} {host : Text} {port : ℕ} {payload : List ℕ}
      (e : IoError)
      → Asks k host port payload c.client.incoming
      → a.nodelay ≡ ok tt
      → a.connecting ≡ err e
      → c.client.broken ≡ none
      → IsRegistry c.registry
      → (w : Web S) × (connection_task y client serve_connection tcp a c ≡ some w)
        × (w.pool ≡ [])
        × (w.connection.client.outgoing ≡ (c.client.outgoing ++ selection k) ++ refusal k)
        × ((h : Text)
            → counters w.connection.registry h
              ≡ with_counters host (or_default (counters c.registry host)) c.registry h)
  unfolding track_open counters read
  connect_task_refused a c {k} {host} {port} e asks nodelay down whole valid =
      let c1 : Connection = record c { registry = track_open c.registry } in
      let (leftover, s, routed, asked) = handle_connection-Asks (err e) c1 asks refl whole in
      let c2 : Connection = record c1 { client = s } in
      let (c', refuses, told) = open_tunnel_refused e host port leftover k c2 in
      let (w, ends, none_left, left, same) =
        failed_task a c (io e) c'
          (ap₂ (λ x z. handle_connection x z c1) nodelay down ∙ routed ∙ ap some refuses) in
      (
        w,
        ends,
        none_left,
        ap (λ (x : Stream). x.outgoing) (left ∙ told ∙ refused_reply k s (asked.broken ∙ whole))
            ∙ ap (λ out. out ++ refusal k) asked.sent,
        λ h.
            same h
            ∙ sym (ap (λ (x : Route × Connection). counters x.1.registry h) refuses)
            ∙ open_tunnel-counters (err e) host h port leftover k c2
                (track_open-IsRegistry c.registry valid),
      )
