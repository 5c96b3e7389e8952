-- ===== src/Udp/Reply.antt =====
-- What the relay sends to the client for a reply from the internet, and what it counts.
use wiretally.Prelude.{
  ℕ, ◌≡◌, refl, subst, Bool, Option, none, some, List, [], ◌∷◌, ◌++◌, Result, ok, err, arith,
}
use wiretally.Text.{Text}
use wiretally.Net.{SocketAddr, IsAddr, ip_text}
use wiretally.Stream.{IoError}
use wiretally.Map.{text_key, ip_key, ip_eq_iff, get-insert}
use wiretally.Stats.{Registry}
use wiretally.Stats.View.{IsRegistry, counters}
use wiretally.Socks.Datagram.{Datagram, parse_datagram, encode_datagram}
use wiretally.Socks.Datagram.Grammar.{parse_datagram-encode_datagram}
use wiretally.Udp.{
  Relay, note, count, cached_endpoint, endpoint, resolve, sent_out, send_out, forward_to,
  forward_datagram, forward_out, reply_host, sent_back, send_back, reply_to, forward_back, Event,
  bind, run,
}
use wiretally.Udp.Account.{IsRelay, bind-IsRelay}
use wiretally.Stats.View.{with_counters}
use wiretally.Udp.Credit.{ingress_of, opened_in, send_back_credited}
use wiretally.Udp.Forward.{Nothing}
use wiretally.Udp.Connections.{run-IsRelay}
use wiretally.Udp.Amounts.{untold, told_by, credited}
use wiretally.Udp.Known.{reply_host-Knows, run-bind-Knows}

-- What a reply from the internet leads to, if it is credited to `host`.
abbrev pub Returned :
    Option SocketAddr → Text → SocketAddr → List ℕ → Result IoError ℕ → Relay → Relay → Type 0
Returned none host from payload outcome t t' = Nothing t t'
Returned (some client) host from payload outcome t t' =
    ((bytes : List ℕ) × (t'.to_client ≡ t.to_client ++ (client, bytes) ∷ [])
      × (parse_datagram bytes
          ≡ ok (record { host = ip_text from.ip; port = from.port; payload = payload })))
    × (t'.to_upstream ≡ t.to_upstream)
    × ((h : Text)
        → counters t'.registry h
          ≡ with_counters host (ingress_of outcome payload (opened_in t host)) t.registry h)

send_back_sockets :
    (client from : SocketAddr) (payload : List ℕ) (outcome : Result IoError ℕ) (t : Relay)
    → ((send_back client from payload outcome t).to_client
        ≡ t.to_client ++ (client, encode_datagram from payload []) ∷ [])
      × ((send_back client from payload outcome t).to_upstream ≡ t.to_upstream)
unfolding send_back sent_back endpoint cached_endpoint count note
send_back_sockets client from payload (err e) t = ground arith
send_back_sockets client from payload (ok n) t = ground arith

reply_to-Returned :
    (base : Registry) (client : Option SocketAddr) (t : Relay) (from : SocketAddr)
    (payload : List ℕ) (outcome : Result IoError ℕ)
    → IsRelay base t
    → IsAddr from.ip
    → Returned client
        (reply_host from t)
        from
        payload
        outcome
        t
        (reply_to client from payload outcome t)
unfolding reply_to
reply_to-Returned base none t from payload outcome v w = (refl, refl, refl)
reply_to-Returned base (some client) t from payload outcome v w =
    let (down, up) = send_back_sockets client from payload outcome t in
    (
      (encode_datagram from payload [], down, parse_datagram-encode_datagram from payload [] w),
      up,
      λ h. send_back_credited base client from payload outcome t h v,
    )

-- After any run of a relay that was bound with a well-formed registry, a reply from the internet goes to
-- the client if it has sent anything, to the address that it last sent from, once, wrapped in a header
-- that parses back to the address and port it came from and its unchanged payload. Its bytes are
-- counted, if the send succeeds, to the host that the last datagram sent to its sender's address named,
-- or to that address as printed, and no other host's counters change. Without a client nothing is sent
-- or counted.
pub forward_back-Returned :
    (base : Registry) (verbose : Bool) (es : List Event) (from : SocketAddr) (payload : List ℕ)
    (outcome : Result IoError ℕ)
    → IsRegistry base
    → IsAddr from.ip
    → Returned
        (told_by es untold).client
        (credited from.ip (told_by es untold).sends)
        from
        payload
        outcome
        (run es (bind base verbose))
        (forward_back from payload outcome (run es (bind base verbose)))
unfolding forward_back
forward_back-Returned base verbose es from payload outcome v w =
    let t = run es (bind base verbose) in
    let k = told_by es untold in
    let known = run-bind-Knows es base verbose in
    subst
      (λ host.
        Returned k.client host from payload outcome t
          (reply_to t.client_addr from payload outcome t))
      (reply_host-Knows k t from known)
      (subst
        (λ client.
          Returned client (reply_host from t) from payload outcome t
            (reply_to t.client_addr from payload outcome t))
        known.client
        (reply_to-Returned base t.client_addr t from payload outcome
          (run-IsRelay base es (bind base verbose) (bind-IsRelay base verbose v)) w))

reply_host-forward_to :
    (found : Option SocketAddr) (u : Relay) (d : Datagram) (n : ℕ) (target from : SocketAddr)
    → found ≡ some target
    → from.ip ≡ target.ip
    → reply_host from (forward_to (found, u) (ok n) d) ≡ d.host
unfolding forward_to reply_host send_out sent_out count note
reply_host-forward_to none u d n target from e same = ground arith
reply_host-forward_to (some addr) u d n target from e same = ground (
  arith,
  e,
  same,
  get-insert addr.ip from.ip d.host (endpoint d.host u).1.names,
  ip_eq_iff addr.ip from.ip,
)

-- After a datagram was sent to an address, replies from that address are counted to the host that the
-- datagram named.
pub reply_host-forward_out :
    (t : Relay) (raw : List ℕ) (d : Datagram) (answer : Result IoError (List SocketAddr)) (n : ℕ)
    (target from : SocketAddr)
    → parse_datagram raw ≡ ok d
    → (resolve answer d.host d.port t).0 ≡ some target
    → from.ip ≡ target.ip
    → reply_host from (forward_out raw answer (ok n) t) ≡ d.host
unfolding forward_out forward_datagram
reply_host-forward_out t raw d answer n target from e k same = rw e (
    reply_host-forward_to (resolve answer d.host d.port t).0 (resolve answer d.host d.port t).1 d n
      target from k same)
