-- ===== src/Socks/Wire.antt =====
-- What RFC 1928 lets a client send, as a description of its own: a destination and its bytes.
use wiretally.Prelude.{ℕ, ◌<◌, List, ◌∷◌, length}
use wiretally.Text.{Text}
use wiretally.Net.{IpAddr, v4, v6, IsAddr, ip_text}
use wiretally.Socks.{atyp_ipv4, atyp_ipv6, atyp_domain, domain_text}

pub data Target : Type 0 where
  address : IpAddr → Target
  domain : List ℕ → Target

-- A domain's length is sent in one byte.
abbrev pub IsTarget : Target → Type 0
IsTarget (address a) = IsAddr a
IsTarget (domain d) = length d < 256

unfoldable pub target_type : Target → ℕ
target_type (address (v4 octets)) = atyp_ipv4
target_type (address (v6 octets)) = atyp_ipv6
target_type (domain d) = atyp_domain

unfoldable pub target_body : Target → List ℕ
target_body (address (v4 octets)) = octets
target_body (address (v6 octets)) = octets
target_body (domain d) = length d ∷ d

-- The host that the program keeps for it.
unfoldable pub target_text : Target → Text
unfolding domain_text
target_text (address a) = ip_text a
target_text (domain d) = domain_text d
