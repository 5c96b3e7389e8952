-- ===== src/Report/Bytes.antt =====
-- How near `format_bytes` comes to a byte count.
use native.Mathlib.Decide.{dec_lt}
use wiretally.Prelude.{
  ap, ◌∙◌, ltb→lt, ltb-false, ℕ, ◌+◌, ◌*◌, ◌^◌, ◌≤◌, ◌<◌, ◌≡◌, refl, subst, ◌⊎◌, inl, inr,
  Bool-cases, ◌∷◌, ◌++◌, ltb, arith,
}
use wiretally.Text.{
  Text, chars, decimal, F64, of_int, div_1024, lt_1024, hundredths, fixed_two, two_decimals,
  round_div_half, of_int_near,
}
use wiretally.Report.{later_units, scale_units, in_units, format_bytes}

abbrev pub IsUnit : Text → ℕ → Type 0
IsUnit unit size =
    ((unit ≡ chars "KB") × (size ≡ 2 ^ 10))
    ⊎ ((unit ≡ chars "MB") × (size ≡ 2 ^ 20))
    ⊎ ((unit ≡ chars "GB") × (size ≡ 2 ^ 30))
    ⊎ ((unit ≡ chars "TB") × (size ≡ 2 ^ 40))
    ⊎ ((unit ≡ chars "PB") × (size ≡ 2 ^ 50))

-- A count of bytes printed as `shown` hundredths of a unit; `value` is the count as an `f64`.
pub record Printed (bytes : ℕ) : Type 0 where
  pub unit : Text
  pub size : ℕ
  pub value : ℕ
  pub shown : ℕ
  pub is_unit : IsUnit unit size
  pub near : (2 ^ 53 * bytes ≤ 2 ^ 53 * value + bytes) × (2 ^ 53 * value ≤ 2 ^ 53 * bytes + bytes)
  pub fits : (size ≤ value) × ((value < 1024 * size) ⊎ (size ≡ 2 ^ 50))
  pub rounded :
      (200 * value ≤ 2 * (shown * size) + size) × (2 * (shown * size) ≤ 200 * value + size)
  pub printed : format_bytes bytes ≡ fixed_two shown ++ (b' ' ∷ unit)

-- The loop has stopped at a unit.
stopped :
    (bytes m s : ℕ) (unit : Text)
    → of_int bytes ≡ record { mantissa = m; scale = 0 }
    → IsUnit unit (2 ^ s)
    → 0 < 2 ^ s
    → 2 ^ s ≤ m
    → (m < 1024 * 2 ^ s) ⊎ (2 ^ s ≡ 2 ^ 50)
    → format_bytes bytes ≡ in_units (record { mantissa = m; scale = s }, unit)
    → Printed bytes
unfolding in_units hundredths two_decimals
stopped bytes m s unit e i pos least most text =
    let (below, above) = round_div_half (100 * m) (2 ^ s) pos in
    record {
      unit = unit;
      size = 2 ^ s;
      value = m;
      shown = hundredths (record { mantissa = m; scale = s });
      is_unit = i;
      near =
          subst
            (λ (x : F64).
              (2 ^ 53 * bytes ≤ 2 ^ 53 * x.mantissa + bytes)
              × (2 ^ 53 * x.mantissa ≤ 2 ^ 53 * bytes + bytes))
            e (of_int_near bytes);
      fits = (least, most);
      rounded = (omega (arith, below), omega (arith, above));
      printed = text;
    }

of_int_scale : (n : ℕ) → of_int n ≡ record { mantissa = (of_int n).mantissa; scale = 0 }
unfolding of_int
of_int_scale n = refl

at_least_1024 : (bytes : ℕ) → 1024 ≤ bytes → 1024 ≤ (of_int bytes).mantissa
at_least_1024 bytes h = omega (arith, (of_int_near bytes).0, h)

abbrev from_kb : ℕ → F64 × Text
from_kb m = scale_units (div_1024 (record { mantissa = m; scale = 0 })) (chars "KB") later_units

abbrev stop : ℕ → ℕ → Text → F64 × Text
stop m s unit = (record { mantissa = m; scale = s }, unit)

-- The `f64` behind the loop is the integer `m`.
in_kb_or_more :
    (bytes m : ℕ)
    → of_int bytes ≡ record { mantissa = m; scale = 0 }
    → 1024 ≤ m
    → format_bytes bytes ≡ in_units (from_kb m)
    → Printed bytes
unfolding scale_units lt_1024 div_1024
in_kb_or_more bytes m e large text = elim (dec_lt m (2 ^ 20)) [
  | yes kb ↦
      let at_stop : from_kb m ≡ stop m 10 (chars "KB") = ground (arith, kb) in
      stopped bytes m 10 (chars "KB") e (inl (refl, refl)) (omega arith) large (inl kb)
        (text ∙ ap in_units at_stop)
  | no over_kb ↦ elim (dec_lt m (2 ^ 30)) [
    | yes mb ↦
        let at_stop : from_kb m ≡ stop m 20 (chars "MB") = ground (arith, over_kb, mb) in
        stopped bytes m 20 (chars "MB") e (inr (inl (refl, refl))) (omega arith) (omega arith)
          (inl mb) (text ∙ ap in_units at_stop)
    | no over_mb ↦ elim (dec_lt m (2 ^ 40)) [
      | yes gb ↦
          let at_stop : from_kb m ≡ stop m 30 (chars "GB") = ground (arith, over_kb, over_mb, gb) in
          stopped bytes m 30 (chars "GB") e (inr (inr (inl (refl, refl)))) (omega arith)
            (omega arith) (inl gb) (text ∙ ap in_units at_stop)
      | no over_gb ↦ elim (dec_lt m (2 ^ 50)) [
        | yes tb ↦
            let at_stop : from_kb m ≡ stop m 40 (chars "TB") =
              ground (arith, over_kb, over_mb, over_gb, tb) in
            stopped bytes m 40 (chars "TB") e (inr (inr (inr (inl (refl, refl))))) (omega arith)
              (omega arith) (inl tb) (text ∙ ap in_units at_stop)
        | no over_tb ↦
            let at_stop : from_kb m ≡ stop m 50 (chars "PB") =
              ground (arith, over_kb, over_mb, over_gb, over_tb) in
            stopped bytes m 50 (chars "PB") e (inr (inr (inr (inr (refl, refl))))) (omega arith)
              (omega arith) (inr refl) (text ∙ ap in_units at_stop)
      ]
    ]
  ]
]

-- A byte count below 1024 is printed as it is, in `B`. Any other is printed as the nearest `f64`, which
-- is within one part in 2 ^ 53 of the count, in the greatest of the five units that is not above that
-- value, rounded to the nearest hundredth, with the unit's name.
pub format_bytes-Printed :
    (bytes : ℕ)
    → ((bytes < 1024) × (format_bytes bytes ≡ decimal bytes ++ chars " B"))
      ⊎ ((1024 ≤ bytes) × Printed bytes)
unfolding format_bytes
format_bytes-Printed bytes = elim (Bool-cases (ltb bytes 1024)) [
  | inl small ↦ inl (ltb→lt _ _ small, rw small refl)
  | inr large ↦
      let h = ltb-false _ _ large in
      inr (
        h,
        in_kb_or_more bytes (of_int bytes).mantissa (of_int_scale bytes) (at_least_1024 bytes h) (
            rw large (
              ap (λ x. in_units (scale_units (div_1024 x) (chars "KB") later_units))
                (of_int_scale bytes))),
      )
]
