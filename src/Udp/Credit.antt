-- ===== src/Udp/Credit.antt =====
-- To which host the relay counts what it sends.
use wiretally.Prelude.{
  ℕ, ◌≡◌, refl, Option, none, some, List, [], ◌∷◌, ◌++◌, Option-cases, inl, inr, Result, ok, err,
  length, arith,
}
use wiretally.Text.{Text, text_eq_iff}
use wiretally.Net.{SocketAddr, IpAddr}
use wiretally.Stream.{IoError}
use wiretally.Map
use wiretally.Map.{text_key, ip_key, ip_eq_iff, get-insert}
use wiretally.Stats
use wiretally.Stats.{
  EndpointStats, Registry, update, add_connection, add_egress, add_ingress, observe_ip,
}
use wiretally.Stats.View.{
  read-counters, known_counters, with_counters, counters, or_default, endpoint-IsRegistry,
  counters-update, endpoint-counters,
}
use wiretally.Socks.Datagram.{Datagram, encode_datagram}
use wiretally.Udp.{
  Relay, note, count, cached_endpoint, endpoint, sent_out, send_out, reply_host, sent_back,
  send_back,
}
use wiretally.Udp.Account.{IsRelay, count-IsRelay, same-IsRelay, endpoint-IsRelay, endpoint_cached}

-- The counters of a host once the relay has a handle for it.
abbrev pub opened : Option ℕ → Option EndpointStats → EndpointStats
opened none s = add_connection (or_default s)
opened (some i) s = or_default s

endpoint_credited :
    (base : Registry) (t : Relay) (host h : Text)
    → IsRelay base t
    → counters (endpoint host t).1.registry h
      ≡ with_counters host
          (opened (Map.get host t.endpoints) (counters t.registry host))
          t.registry
          h
unfolding endpoint cached_endpoint count
endpoint_credited base t host h v = elim (Option-cases (Map.get host t.endpoints)) [
  | inl e ↦
      let (i, r) = Stats.endpoint host t.registry in
      let w = endpoint-IsRegistry t.registry host v.registered in
      let (seen, at_host) = endpoint-counters t.registry host host v.registered in
      ground (
        arith,
        e,
        text_eq_iff host h,
        text_eq_iff host host,
        counters-update r host h i add_connection w at_host,
        read-counters r host i at_host,
        seen,
        (endpoint-counters t.registry host h v.registered).0,
      )
  | inr (i, e) ↦
      ground (arith, e, text_eq_iff host h, known_counters t.registry host i (v.handles host i e))
]

count_credited :
    (base : Registry) (t : Relay) (host h : Text) (i : ℕ) (f : EndpointStats → EndpointStats)
    → Map.get host t.endpoints ≡ some i
    → IsRelay base t
    → counters (count i f t).registry h
      ≡ with_counters host (f (or_default (counters t.registry host))) t.registry h
unfolding count
count_credited base t host h i f e v = ground (
  arith,
  counters-update t.registry host h i f v.registered (v.handles host i e),
  read-counters t.registry host i (v.handles host i e),
)

-- What a successful send adds to the counters, and a failed one.
abbrev pub egress_of : Result IoError ℕ → IpAddr → EndpointStats → EndpointStats
egress_of (err e) ip s = s
egress_of (ok n) ip s = observe_ip ip (add_egress n s)

abbrev pub ingress_of : Result IoError ℕ → List ℕ → EndpointStats → EndpointStats
ingress_of (err e) payload s = s
ingress_of (ok n) payload s = add_ingress (length payload) s

sent_out_credited :
    (base : Registry) (outcome : Result IoError ℕ) (d : Datagram) (target : SocketAddr) (i : ℕ)
    (t : Relay) (h : Text)
    → Map.get d.host t.endpoints ≡ some i
    → IsRelay base t
    → counters (sent_out outcome d target i t).registry h
      ≡ with_counters d.host
          (egress_of outcome target.ip (or_default (counters t.registry d.host)))
          t.registry
          h
unfolding sent_out note count add_egress
sent_out_credited base (err e) d target i t h k v =
    ground (arith, text_eq_iff d.host h, known_counters t.registry d.host i (v.handles d.host i k))
sent_out_credited base (ok n) d target i t h k v = ground (
  arith,
  text_eq_iff d.host h,
  text_eq_iff d.host d.host,
  count_credited base t d.host h i (add_egress n) k v,
  count_credited base t d.host d.host i (add_egress n) k v,
  count_credited base (count i (add_egress n) t) d.host h i (observe_ip target.ip) k
      (count-IsRelay base t d.host i (add_egress n) (λ s. refl) k v),
)

sent_back_credited :
    (base : Registry) (outcome : Result IoError ℕ) (host : Text) (payload : List ℕ) (i : ℕ)
    (t : Relay) (h : Text)
    → Map.get host t.endpoints ≡ some i
    → IsRelay base t
    → counters (sent_back outcome host payload i t).registry h
      ≡ with_counters host
          (ingress_of outcome payload (or_default (counters t.registry host)))
          t.registry
          h
unfolding sent_back note
sent_back_credited base (err e) host payload i t h k v =
    ground (arith, text_eq_iff host h, known_counters t.registry host i (v.handles host i k))
sent_back_credited base (ok n) host payload i t h k v =
    count_credited base t host h i (add_ingress (length payload)) k v

-- The counters of `host` when the relay has a handle for it.
abbrev pub opened_in : Relay → Text → EndpointStats
opened_in t host = opened (Map.get host t.endpoints) (counters t.registry host)

pub send_out_credited :
    (base : Registry) (outcome : Result IoError ℕ) (d : Datagram) (target : SocketAddr) (t : Relay)
    (h : Text)
    → IsRelay base t
    → counters (send_out outcome d target t).registry h
      ≡ with_counters d.host (egress_of outcome target.ip (opened_in t d.host)) t.registry h
unfolding send_out
send_out_credited base outcome d target t h v =
    let (i, t') = endpoint d.host t in
    ground (
      arith,
      text_eq_iff d.host h,
      text_eq_iff d.host d.host,
      endpoint_credited base t d.host h v,
      endpoint_credited base t d.host d.host v,
      sent_out_credited base outcome d target i
          (record t' { to_upstream = t'.to_upstream ++ (target, d.payload) ∷ [] }) h
          (endpoint_cached t d.host)
          (same-IsRelay base t' _ refl refl (endpoint-IsRelay base t d.host v)),
    )

pub send_back_credited :
    (base : Registry) (client from : SocketAddr) (payload : List ℕ) (outcome : Result IoError ℕ)
    (t : Relay) (h : Text)
    → IsRelay base t
    → counters (send_back client from payload outcome t).registry h
      ≡ with_counters
          (reply_host from t)
          (ingress_of outcome payload (opened_in t (reply_host from t)))
          t.registry
          h
unfolding send_back
send_back_credited base client from payload outcome t h v =
    let host = reply_host from t in
    let (i, t') = endpoint host t in
    ground (
      arith,
      text_eq_iff host h,
      text_eq_iff host host,
      endpoint_credited base t host h v,
      endpoint_credited base t host host v,
      sent_back_credited base outcome host payload i
          (record t' { to_client = t'.to_client ++ (client, encode_datagram from payload []) ∷ [] })
          h (endpoint_cached t host)
          (same-IsRelay base t' _ refl refl (endpoint-IsRelay base t host v)),
    )
