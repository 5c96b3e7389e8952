-- ===== src/Udp/Connections.antt =====
-- How often the relay counts a host as a connection.
use wiretally.Prelude.{
  ℕ, Bool, ◌≡◌, refl, Option, none, some, List, [], ◌∷◌, Result, ok, err, length,
}
use wiretally.Text.{Text}
use wiretally.Net.{SocketAddr}
use wiretally.Stream.{IoError}
use wiretally.Map
use wiretally.Map.{text_key, get-insert}
use wiretally.Stats.{Registry, add_egress, add_ingress, observe_ip}
use wiretally.Stats.View.{IsRegistry}
use wiretally.Socks.Datagram.{Datagram, parse_datagram}
use wiretally.Udp.{
  Relay, bind, note, count, endpoint, resolve, sent_out, send_out, forward_to, forward_datagram,
  forward_out, reply_host, sent_back, send_back, reply_to, forward_back, Event, from_client,
  from_upstream, handle, run,
}
use wiretally.Udp.Account.{
  IsRelay, connections_of, once, bind-IsRelay, count-IsRelay, endpoint-IsRelay, endpoint_cached,
  same-IsRelay, resolve-accounts,
}

sent_out-IsRelay :
    (base : Registry) (outcome : Result IoError ℕ) (d : Datagram) (target : SocketAddr) (i : ℕ)
    (t : Relay)
    → Map.get d.host t.endpoints ≡ some i
    → IsRelay base t
    → IsRelay base (sent_out outcome d target i t)
unfolding sent_out note count add_egress observe_ip
sent_out-IsRelay base (err e) d target i t k v = same-IsRelay base t _ refl refl v
sent_out-IsRelay base (ok n) d target i t k v = same-IsRelay base _ _ refl refl (
    count-IsRelay base (count i (add_egress n) t) d.host i (observe_ip target.ip) (λ s. refl) k
      (count-IsRelay base t d.host i (add_egress n) (λ s. refl) k v))

sent_back-IsRelay :
    (base : Registry) (outcome : Result IoError ℕ) (host : Text) (payload : List ℕ) (i : ℕ)
    (t : Relay)
    → Map.get host t.endpoints ≡ some i
    → IsRelay base t
    → IsRelay base (sent_back outcome host payload i t)
unfolding sent_back note count add_ingress
sent_back-IsRelay base (err e) host payload i t k v = same-IsRelay base t _ refl refl v
sent_back-IsRelay base (ok n) host payload i t k v =
    same-IsRelay base _ _ refl refl
      (count-IsRelay base t host i (add_ingress (length payload)) (λ s. refl) k v)

send_out-IsRelay :
    (base : Registry) (outcome : Result IoError ℕ) (d : Datagram) (target : SocketAddr) (t : Relay)
    → IsRelay base t
    → IsRelay base (send_out outcome d target t)
unfolding send_out
send_out-IsRelay base outcome d target t v =
    let (i, t') = endpoint d.host t in
    sent_out-IsRelay base outcome d target i _ (endpoint_cached t d.host)
      (same-IsRelay base t' _ refl refl (endpoint-IsRelay base t d.host v))

send_back-IsRelay :
    (base : Registry) (client from : SocketAddr) (payload : List ℕ) (outcome : Result IoError ℕ)
    (t : Relay)
    → IsRelay base t
    → IsRelay base (send_back client from payload outcome t)
unfolding send_back
send_back-IsRelay base client from payload outcome t v =
    let (i, t') = endpoint (reply_host from t) t in
    sent_back-IsRelay base outcome (reply_host from t) payload i _
      (endpoint_cached t (reply_host from t))
      (same-IsRelay base t' _ refl refl (endpoint-IsRelay base t (reply_host from t) v))

forward_to-IsRelay :
    (base : Registry) (found : Option SocketAddr) (outcome : Result IoError ℕ) (d : Datagram)
    (t : Relay)
    → IsRelay base t
    → IsRelay base (forward_to (found, t) outcome d)
unfolding forward_to
forward_to-IsRelay base none outcome d t v = v
forward_to-IsRelay base (some target) outcome d t v = send_out-IsRelay base outcome d target t v

forward_datagram-IsRelay :
    (base : Registry) (r : Result _ Datagram) (answer : Result IoError (List SocketAddr))
    (outcome : Result IoError ℕ) (t : Relay)
    → IsRelay base t
    → IsRelay base (forward_datagram r answer outcome t)
unfolding forward_datagram note
forward_datagram-IsRelay base (err e) answer outcome t v = same-IsRelay base t _ refl refl v
forward_datagram-IsRelay base (ok d) answer outcome t v =
    let (e, k) = resolve-accounts answer d.host d.port t in
    let (found, t') = resolve answer d.host d.port t in
    forward_to-IsRelay base found outcome d t' (same-IsRelay base t t' e k v)

reply_to-IsRelay :
    (base : Registry) (client : Option SocketAddr) (from : SocketAddr) (payload : List ℕ)
    (outcome : Result IoError ℕ) (t : Relay)
    → IsRelay base t
    → IsRelay base (reply_to client from payload outcome t)
unfolding reply_to
reply_to-IsRelay base none from payload outcome t v = v
reply_to-IsRelay base (some client) from payload outcome t v =
    send_back-IsRelay base client from payload outcome t v

pub handle-IsRelay :
    (base : Registry) (event : Event) (t : Relay) → IsRelay base t → IsRelay base (handle event t)
unfolding handle forward_out forward_back
handle-IsRelay base (from_client raw addr answer outcome) t v =
    forward_datagram-IsRelay base (parse_datagram raw) answer outcome _
      (same-IsRelay base t _ refl refl v)
handle-IsRelay base (from_upstream payload addr outcome) t v =
    reply_to-IsRelay base t.client_addr addr payload outcome t v

pub run-IsRelay :
    (base : Registry) (events : List Event) (t : Relay)
    → IsRelay base t
    → IsRelay base (run events t)
unfolding run
run-IsRelay base [] t v = v
run-IsRelay base (event ∷ events) t v =
    run-IsRelay base events (handle event t) (handle-IsRelay base event t v)

-- Whatever datagrams a relay receives and however the system answers, the relay counts a host as one
-- connection when it first has a handle for it and never again: at any time each host has one
-- connection more than when the relay was bound if the relay has a handle for it, in the width of the
-- counter, and as many as then if not.
pub run-connections :
    (base : Registry) (verbose : Bool) (events : List Event) (h : Text)
    → IsRegistry base
    → connections_of (run events (bind base verbose)).registry h
      ≡ once (connections_of base h) (Map.get h (run events (bind base verbose)).endpoints)
run-connections base verbose events h v =
    (run-IsRelay base events (bind base verbose) (bind-IsRelay base verbose v)).counted h
