-- ===== src/Stats/Open.antt =====
-- Handles and names leave the count of open connections alone.
use wiretally.Prelude.{◌≡◌, refl, Bool-cases, Option-cases, inl, inr}
use wiretally.Text.{Text, text_eq}
use wiretally.Map
use wiretally.Map.{text_key}
use wiretally.Stats.{Registry, endpoint, endpoint_entry, update, rename, rename_entry, rename_into}

pub endpoint-open_connections :
    (host : Text) (r : Registry) → (endpoint host r).1.open_connections ≡ r.open_connections
unfolding endpoint endpoint_entry
endpoint-open_connections host r = elim (Option-cases (Map.get host r.endpoints)) [
  | inl e ↦ rw e refl
  | inr (i, e) ↦ rw e refl
]

pub rename-open_connections :
    (from to : Text) (r : Registry) → (rename from to r).open_connections ≡ r.open_connections
unfolding rename rename_entry rename_into update
rename-open_connections from to r = elim (Bool-cases (text_eq from to)) [
  | inl same ↦ rw same refl
  | inr other ↦ elim (Option-cases (Map.get from r.endpoints)) [
    | inl e ↦ rw (other, e) refl
    | inr (i, e) ↦ elim (Option-cases (Map.get to (Map.remove from r.endpoints))) [
      | inl e' ↦ rw (other, e, e') refl
      | inr (j, e') ↦ rw (other, e, e') refl
    ]
  ]
]
