-- ===== src/Prelude/Action.antt =====
-- Rust's `Result`, and actions that pass a state along and may fail: `?` is the bind.
use mathlib.Core.Path.{◌≡◌, refl}
use native.Mathlib.Omega.{arith}

pub data Result {ℓ κ} (E : Type κ) (A : Type ℓ) : Type (ℓ ⊔ κ) where
  ok : A → Result E A
  err : E → Result E A

-- An action over the state `S`. What it did to the state stays done when it fails.
abbrev pub Exec : Type 0 → Type 0 → Type 0 → Type 0
Exec S E A = S → Result E A × S

abbrev pub pure : {S E A : Type 0} → A → Exec S E A
pure a s = (ok a, s)

abbrev pub raise : {S E A : Type 0} → E → Exec S E A
raise e s = (err e, s)

abbrev pub and_then : {S E A B : Type 0} → Result E A × S → (A → Exec S E B) → Result E B × S
and_then (ok a, s) f = f a s
and_then (err e, s) f = (err e, s)

infixl 5 ◌>>=◌ ◌>>◌
abbrev pub ◌>>=◌ : {S E A B : Type 0} → Exec S E A → (A → Exec S E B) → Exec S E B
◌>>=◌ m f s = and_then (m s) f

abbrev pub ◌>>◌ : {S E B : Type 0} → Exec S E (Unit {0}) → Exec S E B → Exec S E B
m >> k = m >>= λ _. k

-- The conversion of `?` from one error type into another.
abbrev pub map_err : {S E F A : Type 0} → (E → F) → Result E A × S → Result F A × S
map_err f (ok a, s) = (ok a, s)
map_err f (err e, s) = (err (f e), s)

-- Inversion of a successful bind.
pub and_then-ok :
    {S E A B : Type 0} (r : Result E A × S) (f : A → Exec S E B) {b : B} {s' : S}
    → and_then r f ≡ (ok b, s')
    → (a : A) × (s : S) × (r ≡ (ok a, s)) × (f a s ≡ (ok b, s'))
and_then-ok (ok a, s) f h = (a, s, refl, h)
and_then-ok (err e, s) f h = ground arith

pub err-ne-ok :
    {S E A : Type 0} {e : E} {s s' : S} {a : A} → ◌≡◌ {A = Result E A × S} (err e, s) (ok a, s') → ⊥
err-ne-ok h = ground arith
