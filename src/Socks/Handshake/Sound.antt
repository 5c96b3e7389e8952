-- ===== src/Socks/Handshake/Sound.antt =====
-- `accept` succeeds on the handshakes of RFC 1928 only.
use wiretally.Prelude.{
  ℕ, ◌≡◌, true, List, [], ◌∷◌, ◌++◌, length, All, All-append, Bool-cases, Option-cases, inl, inr,
  ok, ◌==◌, arith, ap, ◌∙◌, sym, subst, and_then-ok, err-ne-ok, Exec, ◌>>=◌, length-eq-two,
  length-eq-four,
}
use mathlib.Core.Path.{subst₂}
use wiretally.Text.{Text}
use wiretally.Net.{IsByte, from_be_bytes}
use wiretally.Stream.{Stream, read_exact, write_all}
use wiretally.Socks.Wire.{Target, IsTarget, target_text}
use wiretally.Socks.{
  Error, from_io, Command, version, method_none, contains, select, read_host, read_request,
  read_methods, accept,
}
use wiretally.Socks.Handshake.{client_greeting, client_request, requested, select_lem}
use wiretally.Socks.Handshake.Inversion.{ReadThen, read-inv, HostRead, read_host-inv}

-- The request that a successful `accept` read, from the header on.
abbrev RequestRead : Stream → Command → Stream → Type 0
RequestRead s cmd s' =
    (c rsv hi lo : ℕ) × (t : Target) × (rest : List ℕ) × (All IsByte s.incoming → IsTarget t)
    × (s.incoming ≡ client_request c rsv t (hi ∷ lo ∷ []) rest)
    × (select c (record { host = target_text t; port = from_be_bytes (hi ∷ lo ∷ []) }) ≡ ok cmd)
    × (s' ≡ record s { incoming = rest })

-- The end of `read_request`, once it has the host.
abbrev with_port : ℕ → Text → List ℕ → Exec Stream Error Command
with_port c host port s = (select c (record { host = host; port = from_be_bytes port }), s)

port-RequestRead :
    (s s' s1 : Stream) (cmd : Command) (c rsv a : ℕ) (left : List ℕ) (host : Text)
    → s.incoming ≡ version ∷ c ∷ rsv ∷ a ∷ left
    → HostRead (record s { incoming = left }) a host s1
    → ReadThen s1 2 (with_port c host) cmd s'
    → RequestRead s cmd s'
port-RequestRead s s' s1 cmd c rsv a left host front found (port, rest, two, behind, e) =
    let (t, rest', ty, text, body, kept, valid) = found in
    let (hi, lo, pair) = length-eq-two port two in
    (
      c,
      rsv,
      hi,
      lo,
      t,
      rest,
      λ bytes. valid (subst (All IsByte) front bytes).1.1.1.1,
      ground (arith, front, ty, body, kept, behind, pair),
      subst₂ (λ h p. select c (record { host = h; port = from_be_bytes p }) ≡ ok cmd) text pair
          (ap (λ r. r.0) e),
      ground (arith, kept, e),
    )

header-front :
    (incoming header left : List ℕ) (v c rsv a : ℕ)
    → incoming ≡ header ++ left
    → header ≡ v ∷ c ∷ rsv ∷ a ∷ []
    → (v == version) ≡ true
    → incoming ≡ version ∷ c ∷ rsv ∷ a ∷ left
header-front incoming header left v c rsv a front quad ver = ground arith

greeting-front :
    (incoming greeting left methods rest : List ℕ) (v n : ℕ)
    → incoming ≡ greeting ++ left
    → greeting ≡ v ∷ n ∷ []
    → (v == version) ≡ true
    → length methods ≡ n
    → left ≡ methods ++ rest
    → incoming ≡ client_greeting methods rest
greeting-front incoming greeting left methods rest v n front pair ver len behind = ground arith

-- `read_request` behind a header of its version.
abbrev with_host : ℕ → ℕ → Exec Stream Error Command
with_host c a = do host ← read_host a; port ← from_io (read_exact 2); with_port c host port

host-RequestRead :
    (s s' : Stream) (cmd : Command) (c rsv a : ℕ) (left : List ℕ)
    → s.incoming ≡ version ∷ c ∷ rsv ∷ a ∷ left
    → with_host c a (record s { incoming = left }) ≡ (ok cmd, s')
    → RequestRead s cmd s'
host-RequestRead s s' cmd c rsv a left front h =
    let (host, s1, f, f') = and_then-ok (read_host a (record s { incoming = left })) _ h in
    port-RequestRead s s' s1 cmd c rsv a left host front
      (read_host-inv (record s { incoming = left }) s1 a host f)
      (read-inv s1 s' 2 (with_port c host) cmd f')

read_request-inv :
    (s s' : Stream) (cmd : Command) → read_request s ≡ (ok cmd, s') → RequestRead s cmd s'
unfolding read_request
read_request-inv s s' cmd h =
    let (header, left, four, front, e) = read-inv s s' 4 _ cmd h in
    let (v, c, rsv, a, quad) = length-eq-four header four in
    elim (Bool-cases (v == version)) [
      | inl ver ↦
          host-RequestRead s s' cmd c rsv a left
            (header-front s.incoming header left v c rsv a front quad ver) (rw (quad, ver) at e)
      | inr other ↦ absurd (err-ne-ok (rw (quad, other) at e))
    ]

-- The methods were offered, and the stream takes the answer.
read_methods-inv :
    (s s' : Stream) (cmd : Command) (n : ℕ)
    → read_methods n s ≡ (ok cmd, s')
    → (methods rest : List ℕ) × (length methods ≡ n)
      × (s.incoming ≡ methods ++ rest)
      × (contains method_none methods ≡ true)
      × RequestRead
          (record s { incoming = rest; outgoing = s.outgoing ++ version ∷ method_none ∷ [] })
          cmd
          s'
unfolding read_methods write_all
read_methods-inv s s' cmd n h =
    let (methods, rest, len, front, e) = read-inv s s' n _ cmd h in
    elim (Bool-cases (contains method_none methods)) [
      | inl offered ↦ elim (Option-cases s.broken) [
        | inl writable ↦ (
          methods,
          rest,
          len,
          front,
          offered,
          read_request-inv _ s' cmd (ground (arith, rw offered at e, writable)),
        )
        | inr (failed, bad) ↦ absurd (ground (arith, rw offered at e, bad))
      ]
      | inr missing ↦ absurd (ground (arith, rw missing at e))
    ]

-- What a successful `accept` read and wrote.
abbrev pub HandshakeRead : Stream → Command → Stream → Type 0
HandshakeRead s cmd s' =
    (methods : List ℕ) × (c rsv hi lo : ℕ) × (t : Target) × (rest : List ℕ) × (contains method_none
        methods
      ≡ true)
    × (All IsByte s.incoming → IsTarget t)
    × (s.incoming ≡ client_greeting methods (client_request c rsv t (hi ∷ lo ∷ []) rest))
    × (requested c (record { host = target_text t; port = from_be_bytes (hi ∷ lo ∷ []) }) ≡ ok cmd)
    × (s' ≡ record s { incoming = rest; outgoing = s.outgoing ++ version ∷ method_none ∷ [] })

request-HandshakeRead :
    (s s' : Stream) (cmd : Command) (methods left : List ℕ)
    → contains method_none methods ≡ true
    → s.incoming ≡ client_greeting methods left
    → RequestRead
        (record s { incoming = left; outgoing = s.outgoing ++ version ∷ method_none ∷ [] })
        cmd
        s'
    → HandshakeRead s cmd s'
request-HandshakeRead s s' cmd methods left offered front request =
    let (c, rsv, hi, lo, t, rest, valid, behind, chosen, kept) = request in
    (
      methods,
      c,
      rsv,
      hi,
      lo,
      t,
      rest,
      offered,
      λ bytes. valid (All-append IsByte methods left (subst (All IsByte) front bytes).1.1).1,
      front ∙ ap (client_greeting methods) behind,
      sym (select_lem c (record { host = target_text t; port = from_be_bytes (hi ∷ lo ∷ []) }))
          ∙ chosen,
      kept,
    )

-- `accept` succeeds only on a handshake: what it is sent begins with a greeting that offers no
-- authentication and a request for an address, or for a domain; if what it is sent are bytes, then an
-- address has the octets of its type and a domain is of fewer than 256 bytes. The command is CONNECT
-- for command 1 and UDP ASSOCIATE for command 3, with that destination, and there is none for any other
-- byte; the stream stands right behind the request, and just
-- the method selection was written.
pub accept_sound :
    (s s' : Stream) (cmd : Command) → accept s ≡ (ok cmd, s') → HandshakeRead s cmd s'
unfolding accept
accept_sound s s' cmd h =
    let (greeting, left, two, front, e) = read-inv s s' 2 _ cmd h in
    let (v, n, pair) = length-eq-two greeting two in
    elim (Bool-cases (v == version)) [
      | inl ver ↦
          let (methods, rest, len, behind, offered, request) =
            read_methods-inv (record s { incoming = left }) s' cmd n (rw (pair, ver) at e) in
          request-HandshakeRead s s' cmd methods rest offered
            (greeting-front s.incoming greeting left methods rest v n front pair ver len behind)
            request
      | inr other ↦ absurd (err-ne-ok (rw (pair, other) at e))
    ]
