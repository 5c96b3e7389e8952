-- ===== src/Proxy/Authority.antt =====
-- `split_authority` reads back the authorities that a client writes.
use wiretally.Prelude.{ℕ, ◌<◌, ◌≡◌, ◌≢◌, refl, none, [], ◌∷◌, ◌++◌, All, All-map, arith}
use wiretally.Text.{
  Text, chars, decimal, parse_u16-decimal, IsDigit, decimal-IsDigit, strip_prefix, rsplit_once_last,
  split_once_first, to_ascii_lowercase,
}
use wiretally.Proxy.{split_authority}

no_bracket :
    (host rest : Text)
    → strip_prefix (chars "[") host ≡ none
    → strip_prefix (chars "[") (host ++ b':' ∷ rest) ≡ none
unfolding strip_prefix
no_bracket [] rest h = refl
no_bracket (c ∷ host) rest h = ground arith

decimal_no_colon : (n : ℕ) → All (λ x. x ≢ b':') (decimal n)
decimal_no_colon n =
    All-map IsDigit (λ x. x ≢ b':') (decimal n) (λ x h. omega (arith, h.1)) (decimal-IsDigit n)

-- A host that does not begin with a bracket, a colon and a port in decimal, which is a `u16`, is split
-- into the host in lower case and the port, also where the host has colons itself.
pub split_authority_port :
    (host : Text) (port default_port : ℕ)
    → strip_prefix (chars "[") host ≡ none
    → port < 65536
    → split_authority (host ++ b':' ∷ decimal port) default_port ≡ (to_ascii_lowercase host, port)
unfolding split_authority
split_authority_port host port default_port plain h = ground (
  arith,
  no_bracket host (decimal port) plain,
  rsplit_once_last b':' host (decimal port) (decimal_no_colon port),
  parse_u16-decimal port h,
)

-- A host in brackets that has no closing bracket itself is split from the port behind it, or has the
-- default port where none follows.
pub split_authority_bracketed :
    (host : Text) (port default_port : ℕ)
    → All (λ x. x ≢ b']') host
    → port < 65536
    → (split_authority (b'[' ∷ (host ++ b']' ∷ b':' ∷ decimal port)) default_port
        ≡ (to_ascii_lowercase host, port))
      × (split_authority (b'[' ∷ (host ++ b']' ∷ [])) default_port
          ≡ (to_ascii_lowercase host, default_port))
unfolding split_authority strip_prefix
split_authority_bracketed host port default_port closed h = (
  ground (arith, split_once_first b']' host (b':' ∷ decimal port) closed, parse_u16-decimal port h),
  ground (arith, split_once_first b']' host [] closed),
)
