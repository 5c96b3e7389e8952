-- ===== src/Udp/Bytes.antt =====
-- The bytes that a run of the relay counts to a host.
use wiretally.Prelude.{
  ℕ, Bool, ◌+◌, ◌%◌, ◌≡◌, refl, ap, sym, subst, Bool-cases, inl, inr, Option, none, some, List, [],
  ◌∷◌, Result, ok, err, arith,
}
use mathlib.Core.Path.{ap₂}
use wiretally.Text.{Text, text_eq, text_eq_iff}
use wiretally.Net.{SocketAddr, IpAddr}
use wiretally.Stream.{IoError}
use wiretally.Map.{text_key}
use wiretally.Stats.{
  EndpointStats, Registry, u64_mod, add_connection, add_egress, add_ingress, observe_ip,
}
use wiretally.Stats.View.{IsRegistry, counters, or_default, with_counters}
use wiretally.Io.Metered.{IsCounted}
use wiretally.Socks.Datagram.{Datagram, DatagramError, parse_datagram}
use wiretally.Udp.{
  Relay, resolve, forward_back, reply_to, reply_host, Event, from_client, from_upstream, handle,
  run, bind,
}
use wiretally.Udp.Account.{IsRelay, same-IsRelay, bind-IsRelay}
use wiretally.Udp.Connections.{handle-IsRelay}
use wiretally.Udp.Credit.{opened, egress_of, ingress_of, send_back_credited}
use wiretally.Udp.Amounts.{
  Told, untold, told, credited, amount, for_host, sent_to, sent_for, returned_amount, returned_for,
  sent_by, returned_by, all_sent, all_returned,
}
use wiretally.Udp.Known.{Knows, bind-Knows, reply_host-Knows, resolve-Knows, handle-Knows}
use wiretally.Udp.Forward.{SentTo, SentOut, forward_out-SentOut}

-- The byte counters of a host have grown.
pub record Grown (r r' : Registry) (h : Text) (out inward : ℕ) : Type 0 where
  pub egress :
      (or_default (counters r' h)).egress ≡ ((or_default (counters r h)).egress + out) % u64_mod
  pub ingress :
      (or_default (counters r' h)).ingress
      ≡ ((or_default (counters r h)).ingress + inward) % u64_mod

abbrev IsCountedIn : Registry → Text → Type 0
IsCountedIn r h = IsCounted (or_default (counters r h))

unmoved : (r r' : Registry) (h : Text) → r' ≡ r → IsCountedIn r h → Grown r r' h 0 0
unmoved r r' h e v = record {
  egress = omega (arith, ap (λ x. (or_default (counters x h)).egress) e, v.egress_lt);
  ingress = omega (arith, ap (λ x. (or_default (counters x h)).ingress) e, v.ingress_lt);
}

-- A connection more moves no bytes.
opened_bytes :
    (o : Option ℕ) (s : Option EndpointStats)
    → ((opened o s).egress ≡ (or_default s).egress)
      × ((opened o s).ingress ≡ (or_default s).ingress)
unfolding add_connection
opened_bytes none s = (refl, refl)
opened_bytes (some i) s = (refl, refl)

credited-Grown :
    (t : Relay) (r' : Registry) (host h : Text) (s : EndpointStats) (out inward : ℕ)
    → counters r' h ≡ with_counters host s t.registry h
    → (IsCountedIn t.registry host
        → (s.egress ≡ ((or_default (counters t.registry host)).egress + out) % u64_mod)
          × (s.ingress ≡ ((or_default (counters t.registry host)).ingress + inward) % u64_mod))
    → IsCountedIn t.registry h
    → Grown t.registry r' h (for_host host h out) (for_host host h inward)
credited-Grown t r' host h s out inward e grown v = elim (Bool-cases (text_eq host h)) [
  | inl same ↦
      let k = (text_eq_iff host h).0 same in
      let g = grown (subst (IsCountedIn t.registry) (sym k) v) in
      rw same (record {
        egress = ground (arith, e, same, k, g.0);
        ingress = ground (arith, e, same, k, g.1);
      })
  | inr other ↦ rw other (record {
    egress = ground (arith, e, other, v.egress_lt);
    ingress = ground (arith, e, other, v.ingress_lt);
  })
]

-- What a send adds to a host's bytes, once there is a handle for it.
egress_of_bytes :
    (outcome : Result IoError ℕ) (ip : IpAddr) (o : Option ℕ) (s : Option EndpointStats)
    → IsCounted (or_default s)
    → ((egress_of outcome ip (opened o s)).egress
        ≡ ((or_default s).egress + amount outcome) % u64_mod)
      × ((egress_of outcome ip (opened o s)).ingress ≡ ((or_default s).ingress + 0) % u64_mod)
unfolding add_egress observe_ip
egress_of_bytes (err e) ip o s v = ground (arith, opened_bytes o s, v.egress_lt, v.ingress_lt)
egress_of_bytes (ok n) ip o s v = ground (arith, opened_bytes o s, v.egress_lt, v.ingress_lt)

ingress_of_bytes :
    (outcome : Result IoError ℕ) (payload : List ℕ) (o : Option ℕ) (s : Option EndpointStats)
    → IsCounted (or_default s)
    → ((ingress_of outcome payload (opened o s)).egress ≡ ((or_default s).egress + 0) % u64_mod)
      × ((ingress_of outcome payload (opened o s)).ingress
          ≡ ((or_default s).ingress + returned_amount outcome payload) % u64_mod)
unfolding add_ingress
ingress_of_bytes (err e) payload o s v = ground (arith, opened_bytes o s, v.egress_lt, v.ingress_lt)
ingress_of_bytes (ok n) payload o s v = ground (arith, opened_bytes o s, v.egress_lt, v.ingress_lt)

nothing_for_host : (host h : Text) → for_host host h 0 ≡ 0
nothing_for_host host h = elim (Bool-cases (text_eq host h)) [
  | inl same ↦ rw same refl
  | inr other ↦ rw other refl
]

SentTo-Grown :
    (target : Option SocketAddr) (d : Datagram) (outcome : Result IoError ℕ) (t t' : Relay)
    (h : Text)
    → SentTo target d outcome t t'
    → IsCountedIn t.registry h
    → Grown t.registry t'.registry h (sent_to target d outcome h) 0
SentTo-Grown none d outcome t t' h (e, _, _) v = unmoved t.registry t'.registry h e v
SentTo-Grown (some target) d outcome t t' h (_, _, e) v =
    subst (Grown t.registry t'.registry h (for_host d.host h (amount outcome)))
      (nothing_for_host d.host h)
      (credited-Grown t t'.registry d.host h _ (amount outcome) 0 (e h)
        (egress_of_bytes outcome target.ip _ (counters t.registry d.host)) v)

sent_for-Grown :
    (r : Result DatagramError Datagram) (answer : Result IoError (List SocketAddr))
    (outcome : Result IoError ℕ) (k : Told) (t t' : Relay) (h : Text)
    → Knows k t
    → SentOut r answer outcome t t'
    → IsCountedIn t.registry h
    → Grown t.registry t'.registry h (sent_for r answer outcome k h) 0
sent_for-Grown (err e) answer outcome k t t' h u (e', _, _) v =
    unmoved t.registry t'.registry h e' v
sent_for-Grown (ok d) answer outcome k t t' h u s v =
    subst (λ found. Grown t.registry t'.registry h (sent_to found d outcome h) 0)
      (resolve-Knows k t answer d u)
      (SentTo-Grown (resolve answer d.host d.port t).0 d outcome t t' h s v)

reply_to-Grown :
    (base : Registry) (client : Option SocketAddr) (from : SocketAddr) (payload : List ℕ)
    (outcome : Result IoError ℕ) (t : Relay) (h : Text)
    → IsRelay base t
    → IsCountedIn t.registry h
    → Grown t.registry
        (reply_to client from payload outcome t).registry
        h
        0
        (returned_for client (reply_host from t) payload outcome h)
unfolding reply_to
reply_to-Grown base none from payload outcome t h w v = unmoved t.registry t.registry h refl v
reply_to-Grown base (some client) from payload outcome t h w v =
    let host = reply_host from t in
    subst
      (λ n.
        Grown t.registry (reply_to (some client) from payload outcome t).registry h n
          (for_host host h (returned_amount outcome payload)))
      (nothing_for_host host h)
      (credited-Grown t _ host h _ 0 (returned_amount outcome payload)
        (send_back_credited base client from payload outcome t h w)
        (ingress_of_bytes outcome payload _ (counters t.registry host)) v)

returned_for-Grown :
    (base : Registry) (from : SocketAddr) (payload : List ℕ) (outcome : Result IoError ℕ) (k : Told)
    (t : Relay) (h : Text)
    → Knows k t
    → IsRelay base t
    → IsCountedIn t.registry h
    → Grown t.registry
        (reply_to t.client_addr from payload outcome t).registry
        h
        0
        (returned_for k.client (credited from.ip k.sends) payload outcome h)
returned_for-Grown base from payload outcome k t h u w v =
    subst (λ n. Grown t.registry (reply_to t.client_addr from payload outcome t).registry h 0 n)
      (ap₂ (λ c host. returned_for c host payload outcome h) u.client (reply_host-Knows k t from u))
      (reply_to-Grown base t.client_addr from payload outcome t h w v)

handle-Grown :
    (base : Registry) (e : Event) (k : Told) (t : Relay) (h : Text)
    → Knows k t
    → IsRelay base t
    → IsCountedIn t.registry h
    → Grown t.registry (handle e t).registry h (sent_by e k h) (returned_by e k h)
unfolding handle forward_back
handle-Grown base (from_client raw addr answer outcome) k t h u w v =
    let t' = record t { client_addr = some addr } in
    sent_for-Grown (parse_datagram raw) answer outcome (record k { client = some addr }) t' _ h
      (record { client = refl; names = u.names; resolved = u.resolved })
      (forward_out-SentOut base t' raw answer outcome (same-IsRelay base t t' refl refl w)) v
handle-Grown base (from_upstream payload addr outcome) k t h u w v =
    returned_for-Grown base addr payload outcome k t h u w v

run-Grown :
    (base : Registry) (es : List Event) (k : Told) (t : Relay) (h : Text)
    → Knows k t
    → IsRelay base t
    → IsCountedIn t.registry h
    → Grown t.registry (run es t).registry h (all_sent es k h) (all_returned es k h)
unfolding run
run-Grown base [] k t h u w v = unmoved t.registry t.registry h refl v
run-Grown base (e ∷ es) k t h u w v =
    let one = handle-Grown base e k t h u w v in
    let rest =
      run-Grown base es (told e k) (handle e t) h (handle-Knows e k t u) (handle-IsRelay base e t w)
        (record {
          egress_lt = omega (arith, one.egress);
          ingress_lt = omega (arith, one.ingress);
        }) in
    record {
      egress = omega (arith, one.egress, rest.egress);
      ingress = omega (arith, one.ingress, rest.ingress);
    }

-- Over any run of a relay that was just bound, whatever the datagrams and however the system answers, if
-- the registry is well formed and the host's counters are in range: the bytes sent to a host are those
-- that the relay's socket took of the client's datagrams for it, which go where the first lookup that
-- succeeded for their destination said; and the bytes received from it are the payloads of the replies
-- that went to the client, each credited to the host that the last datagram sent to its sender's address
-- named, or to that address as printed; both are added to what the host had, modulo 2 ^ 64.
pub run_bytes :
    (base : Registry) (verbose : Bool) (es : List Event) (h : Text)
    → IsRegistry base
    → IsCounted (or_default (counters base h))
    → ((or_default (counters (run es (bind base verbose)).registry h)).egress
        ≡ ((or_default (counters base h)).egress + all_sent es untold h) % u64_mod)
      × ((or_default (counters (run es (bind base verbose)).registry h)).ingress
          ≡ ((or_default (counters base h)).ingress + all_returned es untold h) % u64_mod)
unfolding bind
run_bytes base verbose es h w v =
    let g =
      run-Grown base es untold (bind base verbose) h (bind-Knows base verbose)
        (bind-IsRelay base verbose w) v in
    (g.egress, g.ingress)
