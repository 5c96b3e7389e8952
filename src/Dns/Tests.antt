-- ===== src/Dns/Tests.antt =====
-- Runs of the reverse resolver, with the case of the test in src/dns.rs.
use wiretally.Prelude.{◌≡◌, refl, true, none, some, [], ◌∷◌}
use wiretally.Text.{chars, is_empty, trim_end_matches, to_ascii_lowercase}
use wiretally.Net.{IpAddr, v4}
use wiretally.Map
use wiretally.Map.{ip_key}
use wiretally.Dns.{ptr, other, fresh, asking, found, from_system, disabled, hostname}

abbrev loopback : IpAddr
loopback = v4 (127 ∷ 0 ∷ 0 ∷ 1 ∷ [])

disabled_answers_none :
    (hostname loopback
      (some (ptr (chars "localhost.") ∷ []))
      (hostname loopback none fresh disabled).0
      disabled).0
    ≡ found none
unfolding hostname disabled Map.get
disabled_answers_none = refl

pointer_is_cleaned :
    (hostname loopback (some (other ∷ ptr (chars "LocalHost.") ∷ [])) asking (from_system true)).0
    ≡ found (some (chars "localhost"))
unfolding hostname from_system Map.get is_empty trim_end_matches to_ascii_lowercase
pointer_is_cleaned = refl
