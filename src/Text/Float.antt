-- ===== src/Text/Float.antt =====
-- The `f64` arithmetic that the program prints with: integers as `f64`, a division by a power of two, a
-- division by 1000, an order test, and `{:.2}`. Values are not negative, so a value is `mantissa`
-- halved `scale` times; no result is near the ends of the exponent's range.
use wiretally.Prelude.{
  ℕ, zero, suc, ◌+◌, ◌*◌, ◌/◌, ◌%◌, ◌^◌, ◌≤◌, ◌<◌, ◌≡◌, refl, Bool, [], ◌∷◌, ◌++◌, Bool-cases, ◌⊎◌,
  inl, inr, ltb, ◌==◌, if◌then◌else◌, arith,
}
use native.Mathlib.Decide.{dec_lt}
use wiretally.Text.Ascii.{Text, chars}
use wiretally.Text.Decimal.{decimal, digit}

pub record F64 : Type 0 where
  pub mantissa : ℕ
  pub scale : ℕ

-- The quotient rounded to the nearest integer, and to the even one from the middle.
unfoldable pub round_div : ℕ → ℕ → ℕ
round_div n d =
    if ltb (2 * (n % d)) d
    then n / d
    else if ltb d (2 * (n % d))
    then n / d + 1
    else n / d + n / d % 2

-- The first doubling of `unit` that leaves `n` fewer than 53 bits.
unfoldable pub shrink : ℕ → ℕ → ℕ → ℕ
shrink zero n unit = unit
shrink (suc fuel) n unit =
    let rest = shrink fuel n (2 * unit) in if ltb n (unit * 2 ^ 53) then unit else rest

-- `n as f64`: the nearest multiple of that unit.
unfoldable pub of_int : ℕ → F64
unfolding shrink round_div
of_int n = let unit = shrink (suc n) n 1 in record { mantissa = round_div n unit * unit; scale = 0 }

-- Exact, since it changes the exponent alone.
unfoldable pub div_1024 : F64 → F64
div_1024 x = record { mantissa = x.mantissa; scale = x.scale + 10 }

unfoldable pub lt_1024 : F64 → Bool
lt_1024 x = ltb x.mantissa (1024 * 2 ^ x.scale)

-- The first doubling of `n` that has 53 bits before the point when it is divided by `d`.
unfoldable pub grow : ℕ → ℕ → ℕ → ℕ → ℕ × ℕ
grow zero n d scale = (n, scale)
grow (suc fuel) n d scale =
    let rest = grow fuel (2 * n) d (scale + 1) in if ltb n (d * 2 ^ 52) then rest else (n, scale)

-- `n / d` of integers below 2 ^ 53 that are not zero, or of a greater `n` that `of_int` has rounded.
unfoldable pub quotient : ℕ → ℕ → F64
unfolding grow shrink round_div
quotient n d =
    let (m, scale) = grow (suc (d * 2 ^ 52)) n d 0 in
    let unit = shrink (suc m) m d in
    record { mantissa = round_div m unit * (unit / d); scale = scale }

unfoldable pub div_1000 : F64 → F64
unfolding quotient
div_1000 x = if x.mantissa == 0 then x else quotient x.mantissa 1000

-- The value in hundredths, to the nearest, and to the even one from the middle.
unfoldable pub hundredths : F64 → ℕ
unfolding round_div
hundredths x = round_div (100 * x.mantissa) (2 ^ x.scale)

unfoldable pub fixed_two : ℕ → Text
unfolding decimal digit
fixed_two h = decimal (h / 100) ++ (b'.' ∷ digit (h / 10 % 10) ∷ digit (h % 10) ∷ [])

-- `{:.2}`.
unfoldable pub two_decimals : F64 → Text
unfolding hundredths fixed_two
two_decimals x = fixed_two (hundredths x)

-- With the fuel given, the unit found is wide enough.
pub shrink_enough : (fuel n unit : ℕ) → 0 < unit → n < unit + fuel → n < shrink fuel n unit * 2 ^ 53
unfolding shrink
shrink_enough zero n unit p h = omega arith
shrink_enough (suc fuel) n unit p h = elim (Bool-cases (ltb n (unit * 2 ^ 53))) [
  | inl done ↦ rw done (ground (arith, done))
  | inr more ↦ rw more (shrink_enough fuel n (2 * unit) (omega arith) (omega arith))
]

-- And no wider than it has to be.
shrink_least : (fuel n unit : ℕ) → (shrink fuel n unit ≡ unit) ⊎ (shrink fuel n unit * 2 ^ 52 ≤ n)
unfolding shrink
shrink_least zero n unit = inl refl
shrink_least (suc fuel) n unit = elim (Bool-cases (ltb n (unit * 2 ^ 53))) [
  | inl done ↦ rw done (inl refl)
  | inr more ↦ rw more (elim (shrink_least fuel n (2 * unit)) [
    | inl same ↦ inr (ground (arith, same, more))
    | inr least ↦ inr least
  ])
]

-- A rounded quotient is within one half.
pub round_div_half :
    (n d : ℕ)
    → 0 < d
    → (2 * n ≤ 2 * (round_div n d * d) + d) × (2 * (round_div n d * d) ≤ 2 * n + d)
unfolding round_div
round_div_half n d p = grind arith

-- An integer of 53 bits is an `f64`.
pub of_int_exact : (n : ℕ) → n < 2 ^ 53 → of_int n ≡ record { mantissa = n; scale = 0 }
unfolding of_int shrink round_div
of_int_exact n h = ground arith

shrink_pos : (fuel n unit : ℕ) → 0 < unit → 0 < shrink fuel n unit
unfolding shrink
shrink_pos zero n unit h = h
shrink_pos (suc fuel) n unit h = elim (Bool-cases (ltb n (unit * 2 ^ 53))) [
  | inl done ↦ rw done h
  | inr more ↦ rw more (shrink_pos fuel n (2 * unit) (omega arith))
]

of_int_near_wide :
    (n : ℕ)
    → 2 ^ 53 ≤ n
    → (2 ^ 53 * n ≤ 2 ^ 53 * (of_int n).mantissa + n)
      × (2 ^ 53 * (of_int n).mantissa ≤ 2 ^ 53 * n + n)
unfolding of_int
of_int_near_wide n h =
    let unit = shrink (suc n) n 1 in
    let pos = shrink_pos (suc n) n 1 (omega arith) in
    let (below, above) = round_div_half n unit pos in
    elim (shrink_least (suc n) n 1) [
      | inl one ↦ (omega (arith, below, one, h), omega (arith, above, one, h))
      | inr least ↦ (omega (arith, below, least), omega (arith, above, least))
    ]

-- `n as f64` is within one part in 2 ^ 53.
pub of_int_near :
    (n : ℕ)
    → (2 ^ 53 * n ≤ 2 ^ 53 * (of_int n).mantissa + n)
      × (2 ^ 53 * (of_int n).mantissa ≤ 2 ^ 53 * n + n)
of_int_near n = elim (dec_lt n (2 ^ 53)) [
  | yes small ↦ rw (of_int_exact n small) (omega arith, omega arith)
  | no large ↦ of_int_near_wide n (omega arith)
]

seconds_print : two_decimals (div_1000 (of_int 1840)) ≡ chars "1.84"
unfolding two_decimals div_1000 of_int
seconds_print = refl

seconds_round : two_decimals (div_1000 (of_int 1005)) ≡ chars "1.00"
unfolding two_decimals div_1000 of_int
seconds_round = refl
