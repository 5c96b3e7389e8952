-- ===== src/Proxy/Serve/Ends.antt =====
-- What follows a route, `serve_http` apart, works with the registry as a task may.
use wiretally.Prelude.{
  ℕ, ◌≡◌, refl, ap, sym, subst, ◌∙◌, Option, none, some, List, [], ◌∷◌, Result, ok, err, map_err,
  Option-cases, Bool-cases, inl, inr,
}
use wiretally.Net.{SocketAddr}
use wiretally.Stream.{IoError, Stream}
use wiretally.Io.{ByteStream, ConnLog, rewind}
use wiretally.Io.Run.{Op}
use wiretally.Udp
use wiretally.Udp.{Event, Relay}
use wiretally.Proxy.Tunnel.{Connection, Tunnel}
use wiretally.Proxy.Splice.{Shared, Counted, poll_counted, counted_client, log_close}
use wiretally.Proxy.Association.{Associated}
use wiretally.Proxy.Association.Outcome.{numbered, Relayed, Abandoned, Told, Served}
use wiretally.Proxy.Tasks.Uses.{Uses, unused, Uses-trans, update-Uses, next_id-Uses}
use wiretally.Proxy.Tasks.Relay.{run-RelayUses}
use wiretally.Proxy.Serve.{Answers, poll_counted_all, copied_tunnel, splice}

poll_counted_all-Uses :
    {S : Type 0} (b : ByteStream S) (ops : List Op) (t : Counted S) (sh : Shared)
    → Uses sh.registry (poll_counted_all b ops t sh).1.1.registry
unfolding poll_counted_all poll_counted
poll_counted_all-Uses b [] t sh = unused
poll_counted_all-Uses b (op ∷ ops) t sh =
    let (o, (t', sh')) = poll_counted b op t sh in
    Uses-trans (update-Uses t.stats _ sh.registry) (poll_counted_all-Uses b ops t' sh')

pub log_close-registry :
    (log : Option ConnLog) (i : ℕ) (sh : Shared) → (log_close log i sh).registry ≡ sh.registry
unfolding log_close
log_close-registry none i sh = refl
log_close-registry (some log) i sh = refl

pub map_err-state : {W E F A : Type 0} (f : E → F) (x : Result E A × W) → (map_err f x).1 ≡ x.1
map_err-state f (ok a, w) = refl
map_err-state f (err e, w) = refl

pub splice-Uses :
    (tcp : ByteStream Stream) (a : Answers) (t : Tunnel) (c : Connection)
    → Uses c.registry (splice tcp a t c).1.registry
unfolding splice copied_tunnel
splice-Uses tcp a t c =
    let sh : Shared = record { registry = c.registry; lines = c.lines } in
    let (_, (counted, sh')) =
      poll_counted_all (rewind tcp) a.polls (counted_client t c.client) sh in
    subst (λ r. Uses c.registry r)
      (sym (
        ap (λ (c' : Connection). c'.registry) (map_err-state _ _)
        ∙ log_close-registry t.log t.stats sh'))
      (poll_counted_all-Uses (rewind tcp) a.polls (counted_client t c.client) sh)

pub numbered-Uses : (c : Connection) → Uses c.registry (numbered c).registry
numbered-Uses c = elim (Bool-cases c.verbose) [
  | inl on ↦ rw on (next_id-Uses c.registry)
  | inr off ↦ rw off unused
]

Relayed-Uses :
    (bound : SocketAddr) (events : List Event) (c : Connection) (a : Associated)
    → Relayed bound events c a
    → Uses c.registry a.connection.registry
unfolding Udp.bind
Relayed-Uses bound events c a h =
    subst (λ r. Uses c.registry r) (sym h.registry)
      (Uses-trans (numbered-Uses c)
        (run-RelayUses events (Udp.bind (numbered c).registry c.verbose)))

Abandoned-Uses :
    (e : IoError) (s : Stream) (c : Connection) (a : Associated)
    → Abandoned e s c a
    → Uses c.registry a.connection.registry
Abandoned-Uses e s c a h =
    subst (λ r. Uses c.registry r) (sym (ap (λ x. x.registry) h.connection)) (numbered-Uses c)

pub Served-Uses :
    (answer : Result IoError (Result IoError SocketAddr)) (events : List Event) (c : Connection)
    (a : Associated)
    → Served answer events c a
    → Uses c.registry a.connection.registry
Served-Uses (err e) events c a h = Abandoned-Uses e _ c a h
Served-Uses (ok (err e)) events c a h = Abandoned-Uses e _ c a h
Served-Uses (ok (ok bound)) events c a h = elim (Option-cases c.client.broken) [
  | inl whole ↦ Relayed-Uses bound events c a (subst (λ o. Told o bound events c a) whole h)
  | inr (x, broken) ↦ Abandoned-Uses x c.client c a (subst (λ o. Told o bound events c a) broken h)
]
