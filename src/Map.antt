-- ===== src/Map.antt =====
-- `HashMap` as a list of entries with distinct keys. Where the program iterates over a map, the order
-- of this list stands for the order that the hasher happens to give.
use wiretally.Prelude.{
  ◌≡◌, refl, ap, ◌≢◌, ◌↔◌, Bool, true, false, Option, none, some, List, [], ◌∷◌, Bool-cases, inl,
  inr, ℕ, ◌&&◌, ◌==◌, if◌then◌else◌, arith,
}
use wiretally.Text.{Text, text_eq, text_eq_iff}
use wiretally.Net.{IpAddr, ip_eq, ip_eq-eq, ip_eq_refl}

-- The key types' `Eq`.
pub record Eq {ℓ} (A : Type ℓ) : Type ℓ where
  pub beq : A → A → Bool
  pub beq_iff : (a b : A) → (beq a b ≡ true) ↔ (a ≡ b)

instance abbrev pub text_key : Eq Text
text_key = record { beq = text_eq; beq_iff = text_eq_iff }

pub ip_eq_iff : (a b : IpAddr) → (ip_eq a b ≡ true) ↔ (a ≡ b)
ip_eq_iff a b = (ip_eq-eq a b, λ e. subst_refl e)
  where
    subst_refl : a ≡ b → ip_eq a b ≡ true
    subst_refl e = rw e (ip_eq_refl b)

instance abbrev pub ip_key : Eq IpAddr
ip_key = record { beq = ip_eq; beq_iff = ip_eq_iff }

-- A `(String, u16)`.
abbrev pub destination_eq : Text × ℕ → Text × ℕ → Bool
destination_eq (h, p) (k, q) = text_eq h k && p == q

pub destination_eq_iff : (a b : Text × ℕ) → (destination_eq a b ≡ true) ↔ (a ≡ b)
destination_eq_iff (h, p) (k, q) = ground (arith, text_eq_iff h k)

instance abbrev pub destination_key : Eq (Text × ℕ)
destination_key = record { beq = destination_eq; beq_iff = destination_eq_iff }

module _ {ℓ} {K : Type ℓ} ⦃e : Eq K⦄ where
  pub beq_refl : (k : K) → e.beq k k ≡ true
  beq_refl k = (e.beq_iff k k).1 refl

  pub beq_ne : (k j : K) → k ≢ j → e.beq k j ≡ false
  beq_ne k j h = elim (Bool-cases (e.beq k j)) [
    | inl same ↦ absurd (h ((e.beq_iff k j).0 same))
    | inr other ↦ other
  ]

module _ {ℓ κ} {K : Type ℓ} {V : Type κ} ⦃e : Eq K⦄ where
  unfoldable pub get : K → List (K × V) → Option V
  get k [] = none
  get k ((j, v) ∷ m) = if e.beq j k then some v else get k m

  unfoldable pub insert : K → V → List (K × V) → List (K × V)
  insert k v [] = (k, v) ∷ []
  insert k v ((j, w) ∷ m) = if e.beq j k then (k, v) ∷ m else (j, w) ∷ insert k v m

  unfoldable pub remove : K → List (K × V) → List (K × V)
  remove k [] = []
  remove k ((j, v) ∷ m) = let rest = remove k m in if e.beq j k then rest else (j, v) ∷ rest

  -- No key stands in two entries.
  abbrev pub IsMap : List (K × V) → Type κ
  IsMap [] = Unit
  IsMap ((k, v) ∷ m) = (get k m ≡ none) × IsMap m

  pub get-insert :
      (k j : K) (v : V) (m : List (K × V))
      → get j (insert k v m) ≡ (if e.beq k j then some v else get j m)
  unfolding get insert
  get-insert k j v [] = refl
  get-insert k j v ((i, w) ∷ m) =
      ground (arith, e.beq_iff k j, e.beq_iff i k, e.beq_iff i j, get-insert k j v m)

  pub get-remove :
      (k j : K) (m : List (K × V)) → get j (remove k m) ≡ (if e.beq k j then none else get j m)
  unfolding get remove
  get-remove k j [] = ground arith
  get-remove k j ((i, w) ∷ m) =
      ground (arith, e.beq_iff k j, e.beq_iff i k, e.beq_iff i j, get-remove k j m)

  pub insert-IsMap : (k : K) (v : V) (m : List (K × V)) → IsMap m → IsMap (insert k v m)
  unfolding get insert
  insert-IsMap k v [] h = (refl, tt)
  insert-IsMap k v ((i, w) ∷ m) h =
      ground (arith, e.beq_iff i k, e.beq_iff k i, get-insert k i v m, insert-IsMap k v m)

  pub remove-IsMap : (k : K) (m : List (K × V)) → IsMap m → IsMap (remove k m)
  unfolding get remove
  remove-IsMap k [] h = tt
  remove-IsMap k ((i, w) ∷ m) h = ground (arith, e.beq_iff k i, get-remove k i m, remove-IsMap k m)

  pub remove_absent : (k : K) (m : List (K × V)) → get k m ≡ none → remove k m ≡ m
  unfolding get remove
  remove_absent k [] h = refl
  remove_absent k ((i, w) ∷ m) h = elim (Bool-cases (e.beq i k)) [
    | inl same ↦ ground (arith, same, h)
    | inr other ↦ rw other (ap (λ l. (i, w) ∷ l) (remove_absent k m (rw other at h)))
  ]
