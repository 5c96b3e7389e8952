-- ===== src/Proxy/Serve/Account.antt =====
-- What the whole of a `CONNECT` connection makes of the counters.
use wiretally.Prelude.{
  ℕ, ◌<◌, ◌≡◌, refl, ap, sym, subst, ◌∙◌, Option, none, some, List, length, ok, arith,
}
use wiretally.Text.{Text, text_eq_iff}
use wiretally.Net.{IpAddr}
use wiretally.Stream.{Stream}
use wiretally.Map
use wiretally.Map.{text_key}
use wiretally.Stats.{
  EndpointStats, Registry, read, update, add_connection, observe_if, observe_ip, track_open,
  drop_guard,
}
use wiretally.Stats.View.{
  IsRegistry, counters, or_default, with_counters, read-counters, updated_counters,
}
use wiretally.Io.{ByteStream, client, Rewind, rewind}
use wiretally.Io.Run.{Op, Outcome, run, bytes_read, bytes_written}
use wiretally.Io.Metered.{metered, IsCounted}
use wiretally.Io.Replay.{in_front, view, rewind_new_refines}
use wiretally.Proxy.Tunnel.{Connection, io, Tunnel, Route, Handshake, open_tunnel}
use wiretally.Proxy.Tunnel.Account.{opening, open_tunnel-counters}
use wiretally.Proxy.Splice.{Shared, Counted, counted_client}
use wiretally.Proxy.Tasks.Invariant.{Uses-IsRegistry}
use wiretally.Proxy.Serve.{Answers, poll_counted_all, copied_tunnel, splice}
use wiretally.Proxy.Serve.Routes.{open_tunnel-Uses}
use wiretally.Proxy.Serve.Ends.{map_err-state, log_close-registry}
use wiretally.Proxy.Serve.Copied.{poll_counted_all-Copied}
use wiretally.Proxy.Serve.Opened.{answered, Opened}

-- A guard counts for no host.
pub counters-track_open : (r : Registry) (h : Text) → counters (track_open r) h ≡ counters r h
unfolding track_open counters read
counters-track_open r h = refl

pub counters-drop_guard : (r : Registry) (h : Text) → counters (drop_guard r) h ≡ counters r h
unfolding drop_guard counters read
counters-drop_guard r h = refl

-- What the copying makes of the host's counters: the polls' bytes on the client's stream, those read
-- behind the head first.
abbrev pub copied_by : ByteStream Stream → List Op → List ℕ → Stream → EndpointStats → EndpointStats
copied_by tcp polls leftover s =
    metered client (bytes_read (run (in_front tcp) polls (leftover, s)).0)
      (bytes_written (run (in_front tcp) polls (leftover, s)).0)

splice-registry :
    (tcp : ByteStream Stream) (a : Answers) (t : Tunnel) (c : Connection)
    → t.stats < length c.registry.cells
    → IsCounted (read c.registry t.stats)
    → (splice tcp a t c).1.registry
      ≡ update t.stats (copied_by tcp a.polls t.leftover c.client) c.registry
unfolding splice copied_tunnel counted_client
splice-registry tcp a t c h v =
    let sh : Shared = record { registry = c.registry; lines = c.lines } in
    let counted = counted_client t c.client in
    let copied = poll_counted_all-Copied (rewind tcp) a.polls counted sh h v in
    let after = (poll_counted_all (rewind tcp) a.polls counted sh).1.1 in
    ap (λ (c' : Connection). c'.registry) (map_err-state io _)
    ∙ log_close-registry t.log t.stats after
    ∙ copied.registry
    ∙ ap (λ os. update t.stats (metered client (bytes_read os) (bytes_written os)) c.registry)
        (rewind_new_refines tcp a.polls t.leftover c.client).0

opening-IsCounted :
    (peer : Option IpAddr) (s : EndpointStats)
    → IsCounted s
    → IsCounted (opening (ok (ok tt, peer)) s)
unfolding observe_if observe_ip add_connection
opening-IsCounted none s v = record { ingress_lt = v.ingress_lt; egress_lt = v.egress_lt }
opening-IsCounted (some ip) s v = record { ingress_lt = v.ingress_lt; egress_lt = v.egress_lt }

splice-counters :
    (tcp : ByteStream Stream) (a : Answers) (t : Tunnel) (c : Connection) (host h : Text)
    → IsRegistry c.registry
    → Map.get host c.registry.endpoints ≡ some t.stats
    → IsCounted (or_default (counters c.registry host))
    → counters (splice tcp a t c).1.registry h
      ≡ with_counters host
          (copied_by tcp a.polls t.leftover c.client (or_default (counters c.registry host)))
          c.registry
          h
splice-counters tcp a t c host h v e counted =
    ap (λ r. counters r h)
      (splice-registry tcp a t c (v.bounded host t.stats e)
        (subst IsCounted (sym (read-counters c.registry host t.stats e)) counted))
    ∙ updated_counters c.registry host h t.stats (copied_by tcp a.polls t.leftover c.client) v e

with_counters_twice :
    (host h : Text) (r r' : Registry) (s s' t : EndpointStats)
    → counters r' h ≡ with_counters host s r h
    → s' ≡ t
    → with_counters host s' r' h ≡ with_counters host t r h
with_counters_twice host h r r' s s' t e k = ground (arith, e, k)

-- The copying of a tunnel, with the outcomes of its polls.
abbrev pub copying :
    ByteStream Stream
    → List Op
    → Tunnel
    → Connection
    → List Outcome × (Counted (Rewind Stream) × Shared)
copying tcp polls t c =
    poll_counted_all (rewind tcp) polls (counted_client t c.client)
      (record { registry = c.registry; lines = c.lines })

-- Its polls have the outcomes of those of the client's stream with the leftover in front, and they leave
-- the same bytes to be read; the client's stream at the end is the one that the copying leaves.
pub copying_front :
    (tcp : ByteStream Stream) (a : Answers) (t : Tunnel) (c : Connection)
    → t.stats < length c.registry.cells
    → IsCounted (read c.registry t.stats)
    → ((copying tcp a.polls t c).0 ≡ (run (in_front tcp) a.polls (t.leftover, c.client)).0)
      × (view (copying tcp a.polls t c).1.0.inner
          ≡ (run (in_front tcp) a.polls (t.leftover, c.client)).1)
      × ((splice tcp a t c).1.client ≡ (copying tcp a.polls t c).1.0.inner.inner)
unfolding splice copied_tunnel counted_client
copying_front tcp a t c h v =
    let sh : Shared = record { registry = c.registry; lines = c.lines } in
    let copied = poll_counted_all-Copied (rewind tcp) a.polls (counted_client t c.client) sh h v in
    let (outcomes, left) = rewind_new_refines tcp a.polls t.leftover c.client in
    (
      copied.outcomes ∙ outcomes,
      ap (λ x. view x.inner) copied.stream ∙ left,
      ap (λ (c' : Connection). c'.client) (map_err-state io _),
    )

-- The cell of an open tunnel is there and in range.
pub tunnel_cell :
    (peer : Option IpAddr) (host : Text) (port : ℕ) (leftover : List ℕ) (k : Handshake)
    (c : Connection) (t : Tunnel) (c' : Connection)
    → open_tunnel (ok (ok tt, peer)) host port leftover k c ≡ (Route.tunnel t, c')
    → Opened host leftover k c t c'
    → IsRegistry c.registry
    → IsCounted (or_default (counters c.registry host))
    → (t.stats < length c'.registry.cells) × IsCounted (read c'.registry t.stats)
tunnel_cell peer host port leftover k c t c' e o v counted =
    let s = opening (ok (ok tt, peer)) (or_default (counters c.registry host)) in
    let there : or_default (counters c'.registry host) ≡ s =
      ap or_default (
        sym (ap (λ (x : Route × Connection). counters x.1.registry host) e)
        ∙ open_tunnel-counters (ok (ok tt, peer)) host host port leftover k c v)
      ∙ ground (arith, text_eq_iff host host) in
    let v' : IsRegistry c'.registry =
      subst (λ (x : Route × Connection). IsRegistry x.1.registry) e
        (Uses-IsRegistry (open_tunnel-Uses (ok (ok tt, peer)) host port leftover k c) v) in
    (
      v'.bounded host t.stats o.cell,
      subst IsCounted (sym (read-counters c'.registry host t.stats o.cell))
          (subst IsCounted (sym there) (opening-IsCounted peer _ counted)),
    )

-- An open tunnel and its copying together.
pub tunnel_counted :
    (tcp : ByteStream Stream) (a : Answers) (peer : Option IpAddr) (host h : Text) (port : ℕ)
    (leftover : List ℕ) (k : Handshake) (c : Connection) (t : Tunnel) (c' : Connection)
    → open_tunnel (ok (ok tt, peer)) host port leftover k c ≡ (Route.tunnel t, c')
    → Opened host leftover k c t c'
    → IsRegistry c.registry
    → IsCounted (or_default (counters c.registry host))
    → counters (splice tcp a t c').1.registry h
      ≡ with_counters host
          (copied_by tcp a.polls leftover
            (answered k c.client)
            (opening (ok (ok tt, peer)) (or_default (counters c.registry host))))
          c.registry
          h
tunnel_counted tcp a peer host h port leftover k c t c' e o v counted =
    let s = opening (ok (ok tt, peer)) (or_default (counters c.registry host)) in
    let seen : (g : Text) → counters c'.registry g ≡ with_counters host s c.registry g = λ g.
      sym (ap (λ (x : Route × Connection). counters x.1.registry g) e)
      ∙ open_tunnel-counters (ok (ok tt, peer)) host g port leftover k c v in
    let there : or_default (counters c'.registry host) ≡ s =
      ap or_default (seen host) ∙ ground (arith, text_eq_iff host host) in
    let v' : IsRegistry c'.registry =
      subst (λ (x : Route × Connection). IsRegistry x.1.registry) e
        (Uses-IsRegistry (open_tunnel-Uses (ok (ok tt, peer)) host port leftover k c) v) in
    splice-counters tcp a t c' host h v' o.cell
      (subst IsCounted (sym there) (opening-IsCounted peer _ counted))
    ∙ with_counters_twice host h c.registry c'.registry _ _ _ (seen h) (
        ap
          (λ (l : List ℕ).
            copied_by tcp a.polls l c'.client (or_default (counters c'.registry host)))
          o.kept
        ∙ ap (λ x. copied_by tcp a.polls leftover x (or_default (counters c'.registry host)))
            o.client
        ∙ ap (copied_by tcp a.polls leftover (answered k c.client)) there)
