-- ===== src/Report/Tests.antt =====
-- Runs of the totals and of `elide`, with the cases of the tests in src/report.rs.
use wiretally.Prelude.{
  ◌<◌, ◌≤◌, ◌-◌, ◌++◌, ◌⊎◌, ◌≡◌, refl, true, false, none, some, [], ◌∷◌, length, take, arith,
}
use wiretally.Text.{chars}
use wiretally.Map.{text_key}
use wiretally.Stats.{Endpoint, Registry, new, endpoint, update, add_ingress, snapshot}
use wiretally.Report.{totals_of, breakdown, ellipsis, elide}
use wiretally.Report.Sums.{
  registry_totals, breakdown-snapshot, others, together, breakdown-together, elide_lem,
}

abbrev shown : Endpoint
shown = record {
  domain = chars "a.example.com";
  ip_address = none;
  ingress_bytes = 100;
  egress_bytes = 10;
  connections = 2;
  matches_filter = true;
}

abbrev hidden : Endpoint
hidden = record {
  domain = chars "other.dev";
  ip_address = none;
  ingress_bytes = 5;
  egress_bytes = 1;
  connections = 1;
  matches_filter = false;
}

totals_split_filtered_from_all :
    ((breakdown (shown ∷ hidden ∷ [])).matching_filter.ingress_bytes ≡ 100)
    × ((breakdown (shown ∷ hidden ∷ [])).all_destinations.ingress_bytes ≡ 105)
    × ((breakdown (shown ∷ hidden ∷ [])).all_destinations.connections ≡ 3)
unfolding breakdown
totals_split_filtered_from_all = (refl, refl, refl)

long_names_are_cut :
    (elide (chars "abcdef") 4 ≡ chars "abc…") × (elide (chars "abc") 4 ≡ chars "abc")
unfolding elide
long_names_are_cut = (refl, refl)

abbrev two_hosts : Registry
two_hosts =
    update 1 (add_ingress 7)
      (endpoint (chars "b.dev") (update 0 (add_ingress 100) (endpoint (chars "a.dev") new).1)).1

breakdown-snapshot_example :
    (breakdown (snapshot (some (chars "b.dev")) two_hosts)).all_destinations
    ≡ registry_totals two_hosts
breakdown-snapshot_example = breakdown-snapshot (some (chars "b.dev")) two_hosts

totals_together :
    (breakdown (shown ∷ hidden ∷ [])).all_destinations
    ≡ together
        (breakdown (shown ∷ hidden ∷ [])).matching_filter
        (totals_of (others (shown ∷ hidden ∷ [])))
totals_together = breakdown-together (shown ∷ hidden ∷ [])

elided :
    (length (elide (chars "abcdef") 4) ≤ 4)
    × ((elide (chars "abcdef") 4 ≡ chars "abcdef")
        ⊎ ((4 < length (chars "abcdef"))
            × (elide (chars "abcdef") 4 ≡ take (4 - 1) (chars "abcdef") ++ ellipsis ∷ [])))
elided = elide_lem (chars "abcdef") 4 (omega arith)
