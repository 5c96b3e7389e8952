-- ===== src/Udp/Known.antt =====
-- What the relay keeps of a run, against the run's history.
use wiretally.Prelude.{
  ℕ, ◌≡◌, refl, ap, subst, ◌∙◌, ◌&&◌, ◌==◌, if◌then◌else◌, Bool, Option, none, some, Option-cases,
  inl, inr, List, [], ◌∷◌, Result, ok, err, arith,
}
use wiretally.Text.{Text, text_eq, text_eq_iff}
use wiretally.Net.{IpAddr, SocketAddr}
use wiretally.Stream.{IoError}
use wiretally.Map
use wiretally.Map.{text_key, ip_key, destination_key, ip_eq_iff, destination_eq_iff, get-insert}
use wiretally.Stats.{Registry}
use wiretally.Socks.Datagram.{Datagram, DatagramError, parse_datagram}
use wiretally.Udp.{
  Relay, bind, note, count, cached_endpoint, endpoint, looked_up, resolve, sent_out, send_out,
  forward_to, forward_datagram, forward_out, reply_host, sent_back, send_back, reply_to,
  forward_back, Event, from_client, from_upstream, handle, run,
}
use wiretally.Udp.Amounts.{
  Told, untold, named_for, credited, answered, destination, sent_also, told_sent, told_datagram,
  told, told_by,
}

-- The relay knows what its history says.
pub record Knows (k : Told) (t : Relay) : Type 0 where
  pub client : t.client_addr ≡ k.client
  pub names : (ip : IpAddr) → Map.get ip t.names ≡ named_for ip k.sends
  pub resolved :
      (host : Text) (port : ℕ) → Map.get (host, port) t.resolved ≡ answered host port k.answers

pub bind-Knows : (base : Registry) (verbose : Bool) → Knows untold (bind base verbose)
unfolding bind Map.get
bind-Knows base verbose = record { client = refl; names = λ ip. refl; resolved = λ host port. refl }

pub reply_host-Knows :
    (k : Told) (t : Relay) (from : SocketAddr)
    → Knows k t
    → reply_host from t ≡ credited from.ip k.sends
unfolding reply_host
reply_host-Knows k t from v = ground (arith, v.names from.ip)

pub resolve-Knows :
    (k : Told) (t : Relay) (answer : Result IoError (List SocketAddr)) (d : Datagram)
    → Knows k t
    → (resolve answer d.host d.port t).0 ≡ destination answer d k
unfolding resolve looked_up
resolve-Knows k t (err e) d v = ground (arith, v.resolved d.host d.port)
resolve-Knows k t (ok []) d v = ground (arith, v.resolved d.host d.port)
resolve-Knows k t (ok (a ∷ more)) d v = ground (arith, v.resolved d.host d.port)

-- What a lookup changes of that.
abbrev resolved_also :
    Option SocketAddr → Datagram → Text → ℕ → Option SocketAddr → Option SocketAddr
resolved_also none d host port before = before
resolved_also (some target) d host port before =
    if text_eq d.host host && d.port == port then some target else before

resolve_known :
    (answer : Result IoError (List SocketAddr)) (d : Datagram) (t : Relay)
    → ((resolve answer d.host d.port t).1.names ≡ t.names)
      × ((resolve answer d.host d.port t).1.client_addr ≡ t.client_addr)
unfolding resolve looked_up note
resolve_known (err e) d t = ground arith
resolve_known (ok []) d t = ground arith
resolve_known (ok (a ∷ more)) d t = ground arith

resolve_resolved :
    (answer : Result IoError (List SocketAddr)) (d : Datagram) (t : Relay) (host : Text) (port : ℕ)
    → Map.get (host, port) (resolve answer d.host d.port t).1.resolved
      ≡ resolved_also
          (resolve answer d.host d.port t).0
          d
          host
          port
          (Map.get (host, port) t.resolved)
unfolding resolve looked_up note
resolve_resolved answer d t host port = elim (Option-cases (Map.get (d.host, d.port) t.resolved)) [
  | inr (addr, e) ↦ ground (arith, e, text_eq_iff d.host host)
  | inl e ↦ missed answer e
]
  where
    missed :
        (a : Result IoError (List SocketAddr))
        → Map.get (d.host, d.port) t.resolved ≡ none
        → Map.get (host, port) (resolve a d.host d.port t).1.resolved
          ≡ resolved_also
              (resolve a d.host d.port t).0
              d
              host
              port
              (Map.get (host, port) t.resolved)
    missed (err x) e = ground (arith, e)
    missed (ok []) e = ground (arith, e)
    missed (ok (a ∷ more)) e =
        ground (arith, e, get-insert (d.host, d.port) (host, port) a t.resolved)

-- A send keeps the client and the lookups, and names its receiver when it succeeds.
send_out_known :
    (outcome : Result IoError ℕ) (d : Datagram) (target : SocketAddr) (t : Relay)
    → ((send_out outcome d target t).resolved ≡ t.resolved)
      × ((send_out outcome d target t).client_addr ≡ t.client_addr)
unfolding send_out sent_out endpoint cached_endpoint count note
send_out_known (err e) d target t = ground arith
send_out_known (ok n) d target t = ground arith

send_out_names :
    (outcome : Result IoError ℕ) (d : Datagram) (target : SocketAddr) (t : Relay)
    (sends : List (IpAddr × Text)) (ip : IpAddr)
    → Map.get ip t.names ≡ named_for ip sends
    → Map.get ip (send_out outcome d target t).names
      ≡ named_for ip (sent_also outcome target.ip d.host sends)
unfolding send_out sent_out endpoint cached_endpoint count note
send_out_names (err e) d target t sends ip h = ground (arith, h)
send_out_names (ok n) d target t sends ip h =
    ground (arith, h, get-insert target.ip ip d.host t.names)

sent-Knows :
    (found : Option SocketAddr) (outcome : Result IoError ℕ) (d : Datagram) (k : Told) (t u : Relay)
    → Knows k t
    → u.names ≡ t.names
    → u.client_addr ≡ t.client_addr
    → ((host : Text) (port : ℕ)
        → Map.get (host, port) u.resolved
          ≡ resolved_also found d host port (Map.get (host, port) t.resolved))
    → Knows (told_sent found d outcome k) (forward_to (found, u) outcome d)
unfolding forward_to
sent-Knows none outcome d k t u v names client resolved = record {
  client = client ∙ v.client;
  names = λ ip. ap (Map.get ip) names ∙ v.names ip;
  resolved = λ host port. resolved host port ∙ v.resolved host port;
}
sent-Knows (some target) outcome d k t u v names client resolved =
    let (same, kept) = send_out_known outcome d target u in
    record {
      client = kept ∙ client ∙ v.client;
      names =
          λ ip. send_out_names outcome d target u k.sends ip (ap (Map.get ip) names ∙ v.names ip);
      resolved = λ host port.
          ap (Map.get (host, port)) same
          ∙ resolved host port
          ∙ ap (resolved_also (some target) d host port) (v.resolved host port);
    }

datagram-Knows :
    (r : Result DatagramError Datagram) (answer : Result IoError (List SocketAddr))
    (outcome : Result IoError ℕ) (k : Told) (t : Relay)
    → Knows k t
    → Knows (told_datagram r answer outcome k) (forward_datagram r answer outcome t)
unfolding forward_datagram note
datagram-Knows (err e) answer outcome k t v = record {
  client = v.client;
  names = v.names;
  resolved = v.resolved;
}
datagram-Knows (ok d) answer outcome k t v =
    let (names, client) = resolve_known answer d t in
    subst (λ found. Knows (told_sent found d outcome k) (forward_datagram (ok d) answer outcome t))
      (resolve-Knows k t answer d v)
      (sent-Knows (resolve answer d.host d.port t).0 outcome d k t
        (resolve answer d.host d.port t).1 v names client (resolve_resolved answer d t))

send_back_known :
    (client from : SocketAddr) (payload : List ℕ) (outcome : Result IoError ℕ) (t : Relay)
    → ((send_back client from payload outcome t).names ≡ t.names)
      × ((send_back client from payload outcome t).resolved ≡ t.resolved)
      × ((send_back client from payload outcome t).client_addr ≡ t.client_addr)
unfolding send_back sent_back endpoint cached_endpoint count note
send_back_known client from payload (err e) t = ground arith
send_back_known client from payload (ok n) t = ground arith

reply_to-Knows :
    (client : Option SocketAddr) (from : SocketAddr) (payload : List ℕ) (outcome : Result IoError ℕ)
    (k : Told) (t : Relay)
    → Knows k t
    → Knows k (reply_to client from payload outcome t)
unfolding reply_to
reply_to-Knows none from payload outcome k t v = v
reply_to-Knows (some client) from payload outcome k t v =
    let (names, resolved, kept) = send_back_known client from payload outcome t in
    record {
      client = kept ∙ v.client;
      names = λ ip. ap (Map.get ip) names ∙ v.names ip;
      resolved = λ host port. ap (Map.get (host, port)) resolved ∙ v.resolved host port;
    }

pub handle-Knows : (e : Event) (k : Told) (t : Relay) → Knows k t → Knows (told e k) (handle e t)
unfolding handle forward_out forward_back
handle-Knows (from_client raw addr answer outcome) k t v =
    datagram-Knows (parse_datagram raw) answer outcome (record k { client = some addr })
      (record t { client_addr = some addr })
      (record { client = refl; names = v.names; resolved = v.resolved })
handle-Knows (from_upstream payload addr outcome) k t v =
    reply_to-Knows t.client_addr addr payload outcome k t v

run-Knows : (es : List Event) (k : Told) (t : Relay) → Knows k t → Knows (told_by es k) (run es t)
unfolding run
run-Knows [] k t v = v
run-Knows (e ∷ es) k t v = run-Knows es (told e k) (handle e t) (handle-Knows e k t v)

-- A relay that was just bound knows what its run has told it.
pub run-bind-Knows :
    (es : List Event) (base : Registry) (verbose : Bool)
    → Knows (told_by es untold) (run es (bind base verbose))
run-bind-Knows es base verbose = run-Knows es untold (bind base verbose) (bind-Knows base verbose)
