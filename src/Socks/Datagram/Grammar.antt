-- ===== src/Socks/Datagram/Grammar.antt =====
-- `parse_datagram` accepts exactly the datagrams of RFC 1928, and reads what `encode_datagram` writes.
use wiretally.Prelude.{
  ℕ, ◌≡◌, refl, List, [], ◌∷◌, ◌++◌, length, drop, All, Bool-cases, inl, inr, false, subst, sym, ap,
  ◌∙◌, ◌/◌, ◌%◌, ok, and_then-ok, ltb, ◌==◌, arith,
}
use wiretally.Text.{Text}
use wiretally.Net.{
  IpAddr, v4, v6, IsByte, IsAddr, SocketAddr, ip_text, to_be_bytes, from_be_bytes,
  from_be_bytes-to_be_bytes,
}
use wiretally.Socks.{addr_bytes}
use wiretally.Socks.Wire.{Target, address, IsTarget, target_type, target_body, target_text}
use wiretally.Socks.Datagram.{
  Datagram, read_slice, read_host, read_fields, parse_datagram, encode_datagram,
}
use wiretally.Socks.Datagram.Parse.{
  At, ReadsHost, read_slice-ok, read_slice-inv, read_host-ok, read_host-inv,
}

-- An unfragmented datagram: RSV(2) FRAG(1) ATYP(1) DST.ADDR DST.PORT DATA.
abbrev pub client_datagram : ℕ → ℕ → Target → List ℕ → List ℕ → List ℕ
client_datagram r0 r1 t port payload =
    r0 ∷ r1 ∷ 0 ∷ target_type t ∷ (target_body t ++ (port ++ payload))

-- A client datagram with any reserved bytes, for an address or a domain, is parsed: the host is the
-- address as printed or the domain in lower case without dots at its end, the port is the two bytes
-- in network order, and the payload is all that follows.
pub parse_datagram_complete :
    (r0 r1 hi lo : ℕ) (t : Target) (payload : List ℕ)
    → IsTarget t
    → parse_datagram (client_datagram r0 r1 t (hi ∷ lo ∷ []) payload)
      ≡ ok (record { host = target_text t; port = from_be_bytes (hi ∷ lo ∷ []); payload = payload })
unfolding parse_datagram
parse_datagram_complete r0 r1 hi lo t payload v =
    let buf = client_datagram r0 r1 t (hi ∷ lo ∷ []) payload in
    let start : At buf 4 (target_body t ++ (hi ∷ lo ∷ payload)) = record {
      within = omega arith;
      behind = refl;
    } in
    let (c, e, at) = read_host-ok buf (hi ∷ lo ∷ payload) t 4 v start in
    let (e', at') = read_slice-ok buf (hi ∷ lo ∷ []) payload 2 c refl at in
    let long : ltb (length buf) 4 ≡ false = ground arith in rw (long, e, e', at'.behind)

-- What `parse_datagram` read of a datagram that it accepted.
abbrev pub Reads : List ℕ → Datagram → Type 0
Reads buf d =
    (r0 r1 hi lo : ℕ) × (t : Target) × IsTarget t
    × (buf ≡ client_datagram r0 r1 t (hi ∷ lo ∷ []) d.payload)
    × (d.host ≡ target_text t)
    × (d.port ≡ from_be_bytes (hi ∷ lo ∷ []))

-- The two fields behind the fixed part make up a datagram.
fields-Reads :
    (r0 r1 a : ℕ) (rest port after : List ℕ) (host : Text) (k : ℕ)
    → All IsByte rest
    → ReadsHost (r0 ∷ r1 ∷ 0 ∷ a ∷ rest) a 4 host k
    → length port ≡ 2
    → drop k (r0 ∷ r1 ∷ 0 ∷ a ∷ rest) ≡ port ++ after
    → Reads
        (r0 ∷ r1 ∷ 0 ∷ a ∷ rest)
        (record { host = host; port = from_be_bytes port; payload = after })
fields-Reads r0 r1 a rest [] after host k bytes found two behind = absurd (omega arith)
fields-Reads r0 r1 a rest (hi ∷ []) after host k bytes found two behind = absurd (omega arith)
fields-Reads r0 r1 a rest (hi ∷ lo ∷ []) after host k bytes (t, ty, text, front, valid) two behind =
    (r0, r1, hi, lo, t, valid bytes, ground (arith, ty, front, behind), text, refl)
fields-Reads r0 r1 a rest (hi ∷ lo ∷ x ∷ port) after host k bytes found two behind =
    absurd (omega arith)

read_fields-Reads :
    (r0 r1 a : ℕ) (rest : List ℕ) (d : Datagram) (c : ℕ)
    → All IsByte rest
    → read_fields (r0 ∷ r1 ∷ 0 ∷ a ∷ rest) 4 ≡ (ok d, c)
    → Reads (r0 ∷ r1 ∷ 0 ∷ a ∷ rest) d
unfolding read_fields
read_fields-Reads r0 r1 a rest d c bytes h =
    let buf : List ℕ = r0 ∷ r1 ∷ 0 ∷ a ∷ rest in
    let (host, k, e, h') = and_then-ok (read_host a buf 4) _ h in
    let (port, k', e', h'') = and_then-ok (read_slice 2 buf k) _ h' in
    let (_, two, behind) = read_slice-inv buf port 2 k k' e' in
    let made : Reads buf
        (record { host = host; port = from_be_bytes port; payload = drop k' buf }) =
      fields-Reads r0 r1 a rest port (drop k' buf) host k bytes (read_host-inv buf a 4 k host e) two
        behind in
    subst (Reads buf) (ground (arith, h'')) made

-- A datagram of bytes that `parse_datagram` accepts is an unfragmented one of the relay grammar, with
-- any reserved bytes, for an IPv4 address, an IPv6 address or a domain of fewer than 256 bytes, and
-- the result has its host, its port, and all the bytes behind the header for payload.
pub parse_datagram_sound :
    (buf : List ℕ) (d : Datagram) → All IsByte buf → parse_datagram buf ≡ ok d → Reads buf d
unfolding parse_datagram
parse_datagram_sound [] d bytes h = ground arith
parse_datagram_sound (r0 ∷ []) d bytes h = ground arith
parse_datagram_sound (r0 ∷ r1 ∷ []) d bytes h = ground arith
parse_datagram_sound (r0 ∷ r1 ∷ f ∷ []) d bytes h = ground arith
parse_datagram_sound (r0 ∷ r1 ∷ f ∷ a ∷ rest) d bytes h =
    let long : ltb (length (r0 ∷ r1 ∷ f ∷ a ∷ rest)) 4 ≡ false = ground arith in
    elim (Bool-cases (f == 0)) [
      | inl whole ↦
          let zero_frag : f ≡ 0 = ground arith in
          let run = read_fields (r0 ∷ r1 ∷ f ∷ a ∷ rest) 4 in
          let got : run.0 ≡ ok d = rw (long, whole) at h in
          let paired : run ≡ (ok d, run.1) = λ i. (got i, run.1) in
          subst (λ x. Reads (r0 ∷ r1 ∷ x ∷ a ∷ rest) d) (sym zero_frag)
            (read_fields-Reads r0 r1 a rest d run.1 bytes.1.1.1.1 (
              subst (λ x. read_fields (r0 ∷ r1 ∷ x ∷ a ∷ rest) 4 ≡ (ok d, run.1)) zero_frag paired))
      | inr piece ↦ absurd (ground (arith, long, piece))
    ]

encode_datagram-client_datagram :
    (from : SocketAddr) (payload out : List ℕ)
    → encode_datagram from payload out
      ≡ client_datagram 0 0 (address from.ip) (to_be_bytes from.port) payload
unfolding encode_datagram target_type target_body addr_bytes
encode_datagram-client_datagram from payload out = by_ip from.ip
  where
    by_ip :
        (ip : IpAddr)
        → encode_datagram (record from { ip = ip }) payload out
          ≡ client_datagram 0 0 (address ip) (to_be_bytes from.port) payload
    by_ip (v4 os) = refl
    by_ip (v6 os) = refl

-- A reply that the relay wraps for a valid source address is parsed back to that address as printed,
-- its port and the unchanged payload, whatever the reused buffer held before.
pub parse_datagram-encode_datagram :
    (from : SocketAddr) (payload out : List ℕ)
    → IsAddr from.ip
    → parse_datagram (encode_datagram from payload out)
      ≡ ok (record { host = ip_text from.ip; port = from.port; payload = payload })
unfolding to_be_bytes target_text
parse_datagram-encode_datagram from payload out v =
    ap parse_datagram (encode_datagram-client_datagram from payload out)
    ∙ parse_datagram_complete 0 0 (from.port / 256) (from.port % 256) (address from.ip) payload v
    ∙ ap (λ p. ok (record { host = ip_text from.ip; port = p; payload = payload }))
        (from_be_bytes-to_be_bytes from.port)
