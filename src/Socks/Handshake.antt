-- ===== src/Socks/Handshake.antt =====
-- What `accept` does with a handshake of RFC 1928.
mod Inversion
pub mod Sound
use wiretally.Prelude.{
  ℕ, ◌≡◌, refl, sym, true, ◌≢◌, ◌∙◌, ne→==-false, ap, ◌==◌, if◌then◌else◌, List, [], ◌∷◌, ◌++◌,
  length, Result, ok, err, none,
}
use wiretally.Net.{v4, v6, from_be_bytes}
use wiretally.Stream.{Stream, read_exact-append, write_all-ok, read_exact}
use wiretally.Socks.Wire.{Target, address, domain, IsTarget, target_type, target_body, target_text}
use wiretally.Socks.{
  Error, connect, udp_associate, unsupported_command, unsupported_address_type, atyp_ipv4,
  atyp_ipv6, atyp_domain, Request, Command, version, method_none, contains, select, read_host,
  read_request, read_methods, accept,
}

-- The greeting with its methods, and the request behind it.
abbrev pub client_greeting : List ℕ → List ℕ → List ℕ
client_greeting methods rest = version ∷ length methods ∷ (methods ++ rest)

abbrev pub client_request : ℕ → ℕ → Target → List ℕ → List ℕ → List ℕ
client_request command rsv t port rest =
    version ∷ command ∷ rsv ∷ target_type t ∷ (target_body t ++ (port ++ rest))

-- What RFC 1928 has a server make of a request's command byte: 1 is CONNECT, 3 is UDP ASSOCIATE.
abbrev pub requested : ℕ → Request → Result Error Command
requested c request =
    if c == 1
    then ok (connect request)
    else if c == 3
    then ok (udp_associate request)
    else err (unsupported_command c)

pub select_lem : (c : ℕ) (request : Request) → select c request ≡ requested c request
unfolding select
select_lem c request = refl

read_host-target :
    (s : Stream) (t : Target) (rest : List ℕ)
    → IsTarget t
    → read_host (target_type t) (record s { incoming = target_body t ++ rest })
      ≡ (ok (target_text t), record s { incoming = rest })
unfolding read_host target_type target_body target_text
read_host-target s (address (v4 os)) rest v = rw (read_exact-append s os rest 4 (sym v.0))
read_host-target s (address (v6 os)) rest v = rw (read_exact-append s os rest 16 (sym v.0))
read_host-target s (domain d) rest v = rw (
  read_exact-append s (length d ∷ []) (d ++ rest) 1 refl,
  read_exact-append s d rest (length d) refl,
)

-- From the header on, a whole request is read, also one whose command is then refused.
read_request-client :
    (s : Stream) (c rsv hi lo : ℕ) (t : Target) (rest : List ℕ)
    → IsTarget t
    → read_request (record s { incoming = client_request c rsv t (hi ∷ lo ∷ []) rest }) ≡ (
      select c (record { host = target_text t; port = from_be_bytes (hi ∷ lo ∷ []) }),
      record s { incoming = rest },
    )
unfolding read_request
read_request-client s c rsv hi lo t rest v = rw (
  read_exact-append s (version ∷ c ∷ rsv ∷ target_type t ∷ []) (target_body t ++ (hi ∷ lo ∷ rest)) 4
      refl,
  read_host-target s t (hi ∷ lo ∷ rest) v,
  read_exact-append s (hi ∷ lo ∷ []) rest 2 refl,
)

-- The greeting is answered, and the request is read from what follows it.
accept-client_greeting :
    (s : Stream) (methods rest : List ℕ)
    → contains method_none methods ≡ true
    → s.broken ≡ none
    → accept (record s { incoming = client_greeting methods rest })
      ≡ read_request
          (record s { incoming = rest; outgoing = s.outgoing ++ version ∷ method_none ∷ [] })
unfolding accept read_methods
accept-client_greeting s methods rest offered writable = rw (
  read_exact-append s (version ∷ length methods ∷ []) (methods ++ rest) 2 refl,
  read_exact-append s methods rest (length methods) refl,
  offered,
  write_all-ok (record s { incoming = rest }) (version ∷ method_none ∷ []) writable,
)

-- A handshake that offers no authentication, for any destination, is read to its last byte and no
-- further. Command 1 yields CONNECT and command 3 UDP ASSOCIATE, with the destination's host and port,
-- and any other command is refused as unsupported. The client is sent the method selection and nothing else.
pub accept_complete :
    (s : Stream) (methods rest : List ℕ) (c rsv hi lo : ℕ) (t : Target)
    → contains method_none methods ≡ true
    → IsTarget t
    → s.broken ≡ none
    → accept (record s {
      incoming = client_greeting methods (client_request c rsv t (hi ∷ lo ∷ []) rest);
    })
      ≡ (
        requested c (record { host = target_text t; port = from_be_bytes (hi ∷ lo ∷ []) }),
        record s { incoming = rest; outgoing = s.outgoing ++ version ∷ method_none ∷ [] },
      )
accept_complete s methods rest c rsv hi lo t offered v writable =
    accept-client_greeting s methods (client_request c rsv t (hi ∷ lo ∷ []) rest) offered writable
    ∙ read_request-client (record s { outgoing = s.outgoing ++ version ∷ method_none ∷ [] }) c rsv
        hi lo t rest v
    ∙ ap
        (λ r.
          (r, record s { incoming = rest; outgoing = s.outgoing ++ version ∷ method_none ∷ [] }))
        (select_lem c (record { host = target_text t; port = from_be_bytes (hi ∷ lo ∷ []) }))

-- A request with an unknown address type is refused right behind its header: whatever the client sent
-- of the address and the port stays unread on the stream.
pub accept-unsupported_address_type :
    (s : Stream) (methods rest : List ℕ) (c rsv a : ℕ)
    → contains method_none methods ≡ true
    → a ≢ atyp_ipv4
    → a ≢ atyp_ipv6
    → a ≢ atyp_domain
    → s.broken ≡ none
    → accept (record s { incoming = client_greeting methods (version ∷ c ∷ rsv ∷ a ∷ rest) }) ≡ (
      err (unsupported_address_type a),
      record s { incoming = rest; outgoing = s.outgoing ++ version ∷ method_none ∷ [] },
    )
unfolding read_request read_host
accept-unsupported_address_type s methods rest c rsv a offered not4 not6 named writable =
    accept-client_greeting s methods (version ∷ c ∷ rsv ∷ a ∷ rest) offered writable
    ∙ rw (
      read_exact-append (record s { outgoing = s.outgoing ++ version ∷ method_none ∷ [] })
          (version ∷ c ∷ rsv ∷ a ∷ []) rest 4 refl,
      ne→==-false a atyp_ipv4 not4,
      ne→==-false a atyp_ipv6 not6,
      ne→==-false a atyp_domain named,
    )
