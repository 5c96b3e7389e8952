-- ===== src/Main/Addresses.antt =====
-- Which hosts are looked up.
use wiretally.Prelude.{
  ℕ, ◌≡◌, ◌⊎◌, inl, inr, some, List, [], ◌∷◌, Option-cases, Bool-cases, sym, ap, subst, arith,
}
use wiretally.Text.{Text, text_eq, text_eq_iff}
use wiretally.Map
use wiretally.Map.{text_key}
use wiretally.Net.{IpAddr, v4, IsAddr, ip_text, parse_ip}
use wiretally.Net.RoundTrip.{parse_ip-ip_text}
use wiretally.Stats.{Registry, hosts}
use wiretally.Main.{ip_hosts}

abbrev pub Listed : {A : Type 0} → A → List A → Type 0
Listed x [] = ⊥
Listed x (y ∷ ys) = (x ≡ y) ⊎ Listed x ys

ip_hosts-Listed :
    (host : Text) (ip : IpAddr) (i : ℕ) (hs : List (Text × ℕ))
    → parse_ip host ≡ some ip
    → Map.get host hs ≡ some i
    → Listed (host, ip) (ip_hosts hs)
unfolding ip_hosts Map.get
ip_hosts-Listed host ip i [] e found = ground arith
ip_hosts-Listed host ip i ((h, j) ∷ hs) e found = elim (Bool-cases (text_eq h host)) [
  | inl same ↦
      let k : parse_ip h ≡ some ip = rw ((text_eq_iff h host).0 same) e in
      let here : ip_hosts ((h, j) ∷ hs) ≡ (h, ip) ∷ ip_hosts hs = ground (arith, k) in
      subst (Listed (host, ip)) (sym here)
        (inl (ap (λ x. (x, ip)) (sym ((text_eq_iff h host).0 same))))
  | inr other ↦ elim (Option-cases (parse_ip h)) [
    | inl k ↦
        let skipped : ip_hosts ((h, j) ∷ hs) ≡ ip_hosts hs = ground (arith, k) in
        subst (Listed (host, ip)) (sym skipped) (ip_hosts-Listed host ip i hs e (rw other at found))
    | inr (x, k) ↦
        let kept : ip_hosts ((h, j) ∷ hs) ≡ (h, x) ∷ ip_hosts hs = ground (arith, k) in
        subst (Listed (host, ip)) (sym kept)
          (inr (ip_hosts-Listed host ip i hs e (rw other at found)))
  ]
]

-- A host that was registered by an IPv4 address, as the relay does for a reply from an address that no
-- datagram named, is among those that are looked up, with that address.
pub ip_hosts-ip_text :
    (r : Registry) (os : List ℕ) (i : ℕ)
    → IsAddr (v4 os)
    → Map.get (ip_text (v4 os)) r.endpoints ≡ some i
    → Listed (ip_text (v4 os), v4 os) (ip_hosts (hosts r))
unfolding hosts
ip_hosts-ip_text r os i v found =
    ip_hosts-Listed (ip_text (v4 os)) (v4 os) i r.endpoints (parse_ip-ip_text os v) found
