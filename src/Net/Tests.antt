-- ===== src/Net/Tests.antt =====
-- Runs of the parser of addresses.
use wiretally.Prelude.{◌≡◌, refl, none, some, [], ◌∷◌}
use wiretally.Text.{chars}
use wiretally.Net.{v4, v6, parse_ip}

accepted :
    (parse_ip (chars "127.0.0.1") ≡ some (v4 (127 ∷ 0 ∷ 0 ∷ 1 ∷ [])))
    × (parse_ip (chars "::1")
        ≡ some (v6 (0 ∷ 0 ∷ 0 ∷ 0 ∷ 0 ∷ 0 ∷ 0 ∷ 0 ∷ 0 ∷ 0 ∷ 0 ∷ 0 ∷ 0 ∷ 0 ∷ 0 ∷ 1 ∷ [])))
    × (parse_ip (chars "2001:DB8::7:1")
        ≡ some (v6 (0x20 ∷ 1 ∷ 0xd ∷ 0xb8 ∷ 0 ∷ 0 ∷ 0 ∷ 0 ∷ 0 ∷ 0 ∷ 0 ∷ 0 ∷ 0 ∷ 7 ∷ 0 ∷ 1 ∷ [])))
    × (parse_ip (chars "::ffff:1.2.3.4")
        ≡ some (v6 (0 ∷ 0 ∷ 0 ∷ 0 ∷ 0 ∷ 0 ∷ 0 ∷ 0 ∷ 0 ∷ 0 ∷ 255 ∷ 255 ∷ 1 ∷ 2 ∷ 3 ∷ 4 ∷ [])))
    × (parse_ip (chars "1:2:3:4:5:6:7:8")
        ≡ some (v6 (0 ∷ 1 ∷ 0 ∷ 2 ∷ 0 ∷ 3 ∷ 0 ∷ 4 ∷ 0 ∷ 5 ∷ 0 ∷ 6 ∷ 0 ∷ 7 ∷ 0 ∷ 8 ∷ [])))
unfolding parse_ip
accepted = (refl, refl, refl, refl, refl)

refused :
    (parse_ip (chars "example.com") ≡ none)
    × (parse_ip (chars "1.2.3") ≡ none)
    × (parse_ip (chars "1.2.3.4.5") ≡ none)
    × (parse_ip (chars "01.2.3.4") ≡ none)
    × (parse_ip (chars "256.2.3.4") ≡ none)
    × (parse_ip (chars "1:2:3:4:5:6:7:8:9") ≡ none)
    × (parse_ip (chars "1.2.3.4::") ≡ none)
    × (parse_ip (chars "") ≡ none)
unfolding parse_ip
refused = (refl, refl, refl, refl, refl, refl, refl, refl)
