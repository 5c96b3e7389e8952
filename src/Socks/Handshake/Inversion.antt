-- ===== src/Socks/Handshake/Inversion.antt =====
-- What a step of `accept` that succeeded has read.
use wiretally.Prelude.{
  ℕ, ◌≡◌, refl, List, [], ◌∷◌, ◌++◌, length, get_or, All, All-append, Bool-cases, inl, inr, Result,
  ok, err, Exec, and_then, and_then-ok, map_err, ◌==◌, arith, sym, subst,
}
use wiretally.Text.{Text}
use wiretally.Net.{v4, v6, IsByte}
use wiretally.Stream.{Stream, IoError, read_exact, read_exact-inv}
use wiretally.Socks.Wire.{Target, address, domain, IsTarget, target_type, target_body, target_text}
use wiretally.Socks.{Error, io, atyp_ipv4, atyp_ipv6, atyp_domain, domain_text, read_host}

map_err-ok :
    {A : Type 0} (r : Result IoError A × Stream) {a : A} {s : Stream}
    → map_err io r ≡ (ok a, s)
    → r ≡ (ok a, s)
map_err-ok (ok a, s) h = ground arith
map_err-ok (err e, s) h = ground arith

-- A read with `?`, and what is done with its bytes.
abbrev pub ReadThen :
    {B : Type 0} → Stream → ℕ → (List ℕ → Exec Stream Error B) → B → Stream → Type 0
ReadThen s n f b s' =
    (xs rest : List ℕ) × (length xs ≡ n)
    × (s.incoming ≡ xs ++ rest)
    × (f xs (record s { incoming = rest }) ≡ (ok b, s'))

pub read-inv :
    {B : Type 0} (s s' : Stream) (n : ℕ) (f : List ℕ → Exec Stream Error B) (b : B)
    → and_then (map_err io (read_exact n s)) f ≡ (ok b, s')
    → ReadThen s n f b s'
read-inv s s' n f b h =
    let (xs, s1, e, e') = and_then-ok (map_err io (read_exact n s)) f h in
    let (len, front, kept) = read_exact-inv s s1 n xs (map_err-ok (read_exact n s) e) in
    (xs, s1.incoming, len, front, subst (λ x. f xs x ≡ (ok b, s')) kept e')

-- The destination that `read_host` read, of the address type `a`.
abbrev pub HostRead : Stream → ℕ → Text → Stream → Type 0
HostRead s a host s' =
    (t : Target) × (rest : List ℕ) × (a ≡ target_type t)
    × (host ≡ target_text t)
    × (s.incoming ≡ target_body t ++ rest)
    × (s' ≡ record s { incoming = rest })
    × (All IsByte s.incoming → IsTarget t)

domain-HostRead :
    (s s' : Stream) (len left : List ℕ) (host : Text)
    → length len ≡ 1
    → s.incoming ≡ len ++ left
    → ReadThen
        (record s { incoming = left })
        (get_or len 0 0)
        (λ d s1. (ok (domain_text d), s1))
        host
        s'
    → HostRead s atyp_domain host s'
unfolding target_type target_body target_text
domain-HostRead s s' [] left host one front read = absurd (omega arith)
domain-HostRead s s' (l ∷ []) left host one front (d, rest, len, body, e) = (
  domain d,
  rest,
  refl,
  ground (arith, e),
  ground (arith, front, body, len),
  ground (arith, e),
  λ bytes.
      let b : All IsByte (l ∷ left) = subst (All IsByte) front bytes in omega (arith, len, b.0),
)
domain-HostRead s s' (l ∷ m ∷ len) left host one front read = absurd (omega arith)

pub read_host-inv :
    (s s' : Stream) (a : ℕ) (host : Text) → read_host a s ≡ (ok host, s') → HostRead s a host s'
unfolding read_host target_type target_body target_text
read_host-inv s s' a host h = elim (Bool-cases (a == atyp_ipv4)) [
  | inl four ↦
      let (os, rest, len, front, e) = read-inv s s' 4 _ host (rw four at h) in
      (
        address (v4 os),
        rest,
        ground arith,
        ground (arith, e),
        front,
        ground (arith, e),
        λ bytes. (len, (All-append IsByte os rest (subst (All IsByte) front bytes)).0),
      )
  | inr not4 ↦ elim (Bool-cases (a == atyp_ipv6)) [
    | inl six ↦
        let (os, rest, len, front, e) = read-inv s s' 16 _ host (rw (not4, six) at h) in
        (
          address (v6 os),
          rest,
          ground arith,
          ground (arith, e),
          front,
          ground (arith, e),
          λ bytes. (len, (All-append IsByte os rest (subst (All IsByte) front bytes)).0),
        )
    | inr not6 ↦ elim (Bool-cases (a == atyp_domain)) [
      | inl name ↦
          let (len, left, one, front, e) = read-inv s s' 1 _ host (rw (not4, not6, name) at h) in
          let found : HostRead s atyp_domain host s' =
            domain-HostRead s s' len left host one front
              (read-inv (record s { incoming = left }) s' (get_or len 0 0) _ host e) in
          let a_eq : a ≡ atyp_domain = ground arith in
          subst (λ x. HostRead s x host s') (sym a_eq) found
      | inr other ↦ absurd (ground (arith, not4, not6, other))
    ]
  ]
]
