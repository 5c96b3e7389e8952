-- ===== src/Stats/Tests.antt =====
-- Runs of the registry, with the cases of the tests in src/stats.rs.
use mathlib.Core.List.Perm
use wiretally.Stats.Abstract.{
  Traffic, received, sent, connection, traffic, touch, touch-IsRegistry, touch_swap,
  snapshot-traffic,
}
use wiretally.Stats.Determined.{snapshot-SameCounters}
use mathlib.Core.List.{Perm}
use wiretally.Prelude.{
  ◌≡◌, refl, ◌↔◌, ◌⊎◌, ◌++◌, true, false, some, none, List, [], ◌∷◌, map, if◌then◌else◌, arith,
}
use wiretally.Text.{
  Text, chars, text_eq, is_empty, to_ascii_lowercase, trim_end_matches, trim_matches,
  trim_start_matches, ends_with,
}
use wiretally.Map
use wiretally.Map.{text_key}
use wiretally.Net.{v4}
use wiretally.Stats.{
  EndpointStats, default_stats, Registry, new, read, update, add_ingress, endpoint, merge, rename,
  snapshot, matches_domain,
}
use wiretally.Stats.View.{
  counters, IsRegistry, new-IsRegistry, update-IsRegistry, endpoint-IsRegistry, endpoint-counters,
  or_default,
}
use wiretally.Stats.Rename.{renamed, rename-IsRegistry, counters-rename}
use wiretally.Stats.Merge.{merge_lem}
use wiretally.Stats.Filter.{matches_domain_iff, labels, plain_domain, plain_filter}
use wiretally.Stats.Order.{IsRanked, reported, snapshot-IsRanked}

abbrev address_host : Text
address_host = chars "1.2.3.4"

abbrev named_host : Text
named_host = chars "host.example"

-- An address with 100 bytes received and a name with 1.
abbrev seen : Registry
seen =
    update 1 (add_ingress 1)
      (endpoint named_host (update 0 (add_ingress 100) (endpoint address_host new).1)).1

seen-IsRegistry : IsRegistry seen
seen-IsRegistry = update-IsRegistry _ 1 (add_ingress 1) (
    endpoint-IsRegistry _ named_host (
      update-IsRegistry _ 0 (add_ingress 100)
        (endpoint-IsRegistry new address_host new-IsRegistry)))

rename_merges :
    counters (rename address_host named_host seen) named_host
    ≡ some (record default_stats { ingress = 101 })
unfolding counters rename endpoint update read add_ingress new Map.get Map.insert Map.remove text_eq
    merge
rename_merges = refl

suffix_respects_labels :
    (matches_domain (chars "a.b.example.com") (some (chars "example.com")) ≡ true)
    × (matches_domain (chars "badexample.com") (some (chars "example.com")) ≡ false)
    × (matches_domain (chars "EXAMPLE.com") (some (chars "example.com")) ≡ true)
    × (matches_domain (chars "x.example.com.") (some (chars ".example.com")) ≡ true)
    × (matches_domain (chars "x.example.com") (some (chars "*.example.com")) ≡ true)
unfolding matches_domain text_eq is_empty to_ascii_lowercase trim_end_matches trim_matches
    trim_start_matches ends_with
suffix_respects_labels = (refl, refl, refl, refl, refl)

counters-rename_example :
    counters (rename address_host named_host seen) named_host
    ≡ renamed address_host named_host (counters seen) named_host
unfolding counters Map.get update endpoint new Map.insert text_eq read add_ingress
counters-rename_example =
    counters-rename seen address_host named_host named_host seen-IsRegistry (omega arith)

renamed_valid : IsRegistry (rename address_host named_host seen)
renamed_valid = rename-IsRegistry seen address_host named_host seen-IsRegistry

handle_counters :
    (counters (endpoint named_host seen).1 address_host ≡ (
      if text_eq named_host address_host
      then some (or_default (counters seen named_host))
      else counters seen address_host))
    × (Map.get named_host (endpoint named_host seen).1.endpoints
        ≡ some (endpoint named_host seen).0)
handle_counters = endpoint-counters seen named_host address_host seen-IsRegistry

abbrev busy : EndpointStats
busy = record { ingress = 100; egress = 20; connections = 3; ip = some (v4 (1 ∷ 2 ∷ 3 ∷ 4 ∷ [])) }

merge_run :
    merge busy default_stats
    ≡ record { ingress = 100; egress = 20; connections = 3; ip = some (v4 (1 ∷ 2 ∷ 3 ∷ 4 ∷ [])) }
merge_run = merge_lem busy default_stats (omega arith)

snapshot-IsRanked_example :
    IsRanked (snapshot none seen)
    × Perm (snapshot none seen) (map (reported none seen) seen.endpoints)
snapshot-IsRanked_example = snapshot-IsRanked none seen

matches_domain_iff_example :
    (matches_domain (chars "x.example.com") (some (chars "*.example.com")) ≡ true) ↔ (
      (is_empty (plain_filter (chars "*.example.com")) ≡ true)
      ⊎ ((p : List Text) × (labels (plain_domain (chars "x.example.com"))
            ≡ p ++ labels (plain_filter (chars "*.example.com")))))
matches_domain_iff_example = matches_domain_iff (chars "x.example.com") (chars "*.example.com")

-- Two hosts, whose connections count in either order.
abbrev one_order : List (Text × Traffic)
one_order = (chars "a.dev", received 7) ∷ (chars "b.dev", sent 9) ∷ (chars "a.dev", connection) ∷ []

abbrev other_order : List (Text × Traffic)
other_order =
    (chars "b.dev", sent 9) ∷ (chars "a.dev", received 7) ∷ (chars "a.dev", connection) ∷ []

snapshot-traffic_example :
    snapshot none (traffic one_order new) ≡ snapshot none (traffic other_order new)
snapshot-traffic_example =
    snapshot-traffic none one_order other_order new new-IsRegistry (Perm.swap _ _ _)

same_snapshot :
    snapshot none (touch (chars "a.dev", sent 1) (touch (chars "b.dev", sent 1) new))
    ≡ snapshot none (touch (chars "b.dev", sent 1) (touch (chars "a.dev", sent 1) new))
same_snapshot =
    snapshot-SameCounters none (touch (chars "a.dev", sent 1) (touch (chars "b.dev", sent 1) new))
      (touch (chars "b.dev", sent 1) (touch (chars "a.dev", sent 1) new))
      (touch-IsRegistry (chars "a.dev", sent 1) (touch (chars "b.dev", sent 1) new)
        (touch-IsRegistry (chars "b.dev", sent 1) new new-IsRegistry))
      (touch-IsRegistry (chars "b.dev", sent 1) (touch (chars "a.dev", sent 1) new)
        (touch-IsRegistry (chars "a.dev", sent 1) new new-IsRegistry))
      (touch_swap (chars "a.dev", sent 1) (chars "b.dev", sent 1) new new-IsRegistry)
