-- ===== src/Socks/Datagram/Parse.antt =====
-- The cursor of `parse_datagram`: which fields `read_slice` and the `match` on the address type read.
use wiretally.Prelude.{
  ℕ, ◌+◌, ◌-◌, ◌≤◌, ◌≡◌, refl, List, [], ◌∷◌, ◌++◌, length, take, drop, length-append, length-drop,
  length-take, take-append, drop-append, drop-drop, take-append-drop, ap, sym, ◌∙◌, ok, arith, All,
  Bool-cases, inl, inr, and_then-ok, ◌==◌, get_or, All-append,
}
use wiretally.Text.{Text}
use wiretally.Net.{IsByte, v4, v6}
use wiretally.Socks.{atyp_ipv4, atyp_ipv6, atyp_domain, domain_text}
use wiretally.Socks.Wire.{Target, address, domain, IsTarget, target_type, target_body, target_text}
use wiretally.Socks.Datagram.{slice, advance, read_slice, read_host}

-- The cursor stands in `buf`, and `rest` is what it has not passed.
pub record At (buf : List ℕ) (cursor : ℕ) (rest : List ℕ) : Type 0 where
  pub within : cursor ≤ length buf
  pub behind : drop cursor buf ≡ rest

-- A field that stands behind the cursor is read, and the cursor moves behind it.
pub read_slice-ok :
    (buf field rest : List ℕ) (n c : ℕ)
    → n ≡ length field
    → At buf c (field ++ rest)
    → (read_slice n buf c ≡ (ok field, c + n)) × At buf (c + n) rest
unfolding read_slice slice advance
read_slice-ok buf field rest n c h at =
    let long : length buf - c ≡ length field + length rest =
      sym (length-drop c buf) ∙ ap length at.behind ∙ length-append field rest in
    let got : take n (drop c buf) ≡ field = ap (take n) at.behind ∙ take-append field rest n h in
    let left : drop (c + n) buf ≡ rest =
      sym (drop-drop buf c n) ∙ ap (drop n) at.behind ∙ drop-append field rest n h in
    let w : c ≤ length buf = at.within in
    let e : c + n - c ≡ n = omega arith in
    (
      ground (arith, got, ap (λ k. take k (drop c buf)) e),
      record { within = omega arith; behind = left },
    )

-- And only such a field is.
pub read_slice-inv :
    (buf field : List ℕ) (n c c' : ℕ)
    → read_slice n buf c ≡ (ok field, c')
    → (c' ≡ c + n) × (length field ≡ n) × (drop c buf ≡ field ++ drop c' buf)
unfolding read_slice slice advance
read_slice-inv buf field n c c' h =
    let e : c + n - c ≡ n = omega arith in
    ground (
      arith,
      length-take n (drop c buf),
      length-drop c buf,
      take-append-drop n (drop c buf),
      drop-drop buf c n,
      ap (λ k. take k (drop c buf)) e,
    )

pub read_host-ok :
    (buf rest : List ℕ) (t : Target) (c : ℕ)
    → IsTarget t
    → At buf c (target_body t ++ rest)
    → (c' : ℕ) × (read_host (target_type t) buf c ≡ (ok (target_text t), c')) × At buf c' rest
unfolding read_host target_type target_body target_text
read_host-ok buf rest (address (v4 os)) c v at =
    let (e, at') = read_slice-ok buf os rest 4 c (sym v.0) at in (c + 4, rw e, at')
read_host-ok buf rest (address (v6 os)) c v at =
    let (e, at') = read_slice-ok buf os rest 16 c (sym v.0) at in (c + 16, rw e, at')
read_host-ok buf rest (domain d) c v at =
    let (e, at') = read_slice-ok buf (length d ∷ []) (d ++ rest) 1 c refl at in
    let (e', at'') = read_slice-ok buf d rest (length d) (c + 1) refl at' in
    (c + 1 + length d, rw (e, e'), at'')

-- What `read_host` read, of the address type `a` between two cursors.
abbrev pub ReadsHost : List ℕ → ℕ → ℕ → Text → ℕ → Type 0
ReadsHost buf a c host c' =
    (t : Target) × (a ≡ target_type t)
    × (host ≡ target_text t)
    × (drop c buf ≡ target_body t ++ drop c' buf)
    × (All IsByte (drop c buf) → IsTarget t)

domain-ReadsHost :
    (buf len d : List ℕ) (c k c' : ℕ)
    → read_slice 1 buf c ≡ (ok len, k)
    → read_slice (get_or len 0 0) buf k ≡ (ok d, c')
    → ReadsHost buf atyp_domain c (domain_text d) c'
unfolding target_type target_body target_text
domain-ReadsHost buf [] d c k c' e e' = absurd (omega (arith, (read_slice-inv buf [] 1 c k e).1))
domain-ReadsHost buf (l ∷ []) d c k c' e e' =
    let (moved, _, front) = read_slice-inv buf (l ∷ []) 1 c k e in
    let (moved', len, body) = read_slice-inv buf d l k c' e' in
    (
      domain d,
      refl,
      refl,
      ground (arith, front, body, len),
      λ bytes. let b : All IsByte (l ∷ drop k buf) = rw front at bytes in omega (arith, len, b.0),
    )
domain-ReadsHost buf (l ∷ m ∷ len) d c k c' e e' =
    absurd (omega (arith, (read_slice-inv buf (l ∷ m ∷ len) 1 c k e).1))

pub read_host-inv :
    (buf : List ℕ) (a c c' : ℕ) (host : Text)
    → read_host a buf c ≡ (ok host, c')
    → ReadsHost buf a c host c'
unfolding read_host target_type target_body target_text
read_host-inv buf a c c' host h = elim (Bool-cases (a == atyp_ipv4)) [
  | inl four ↦
      let (os, k, e, e') = and_then-ok (read_slice 4 buf c) _ (rw four at h) in
      let (_, len, front) = read_slice-inv buf os 4 c k e in
      (
        address (v4 os),
        ground arith,
        ground (arith, e'),
        ground (arith, e', front),
        λ bytes. (len, (All-append IsByte os (drop k buf) (rw front at bytes)).0),
      )
  | inr not4 ↦ elim (Bool-cases (a == atyp_ipv6)) [
    | inl six ↦
        let (os, k, e, e') = and_then-ok (read_slice 16 buf c) _ (rw (not4, six) at h) in
        let (_, len, front) = read_slice-inv buf os 16 c k e in
        (
          address (v6 os),
          ground arith,
          ground (arith, e'),
          ground (arith, e', front),
          λ bytes. (len, (All-append IsByte os (drop k buf) (rw front at bytes)).0),
        )
    | inr not6 ↦ elim (Bool-cases (a == atyp_domain)) [
      | inl name ↦
          let (len, k, e, e') = and_then-ok (read_slice 1 buf c) _ (rw (not4, not6, name) at h) in
          let (d, k', f, f') = and_then-ok (read_slice (get_or len 0 0) buf k) _ e' in
          let found : ReadsHost buf atyp_domain c (domain_text d) k' =
            domain-ReadsHost buf len d c k k' e f in
          (
            found.0,
            ground (arith, found.1),
            ground (arith, found.2, f'),
            ground (arith, found.3, f'),
            found.4,
          )
      | inr other ↦ absurd (ground (arith, not4, not6, other))
    ]
  ]
]
