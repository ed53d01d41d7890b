-- ===== src/Money/Defs.antt =====
-- Non-negative decimal numbers and the roundings of the program: ROUND_HALF_UP of app/services and
-- the storing of a NUMERIC into a NUMERIC(15, 2) column, which rounds half away from zero.
use backend_ayak_bine.Base.{ℕ, ◌+◌, ◌-◌, ◌*◌, ◌/◌, ◌^◌, ◌≤◌, Bool, ltb, ◌==◌}

-- coefficient * 10 ^ -exponent
pub record Decimal : Type 0 where
  pub coefficient : ℕ
  pub exponent : ℕ

abbrev pub whole : ℕ → Decimal
whole n = record { coefficient = n; exponent = 0 }

unfoldable pub scale : Decimal → ℕ
scale x = 10 ^ x.exponent

abbrev pub is_zero : Decimal → Bool
is_zero x = x.coefficient == 0

abbrev pub LeDecimal : Decimal → Decimal → Type 0
LeDecimal x y = x.coefficient * scale y ≤ y.coefficient * scale x

-- n / d to the nearest whole number, a half upwards.
unfoldable pub round_half_up : ℕ → ℕ → ℕ
round_half_up n d = (2 * n + d) / (2 * d)

-- `x.quantize(Decimal("1"), rounding=ROUND_HALF_UP)`
unfoldable pub quantize : Decimal → ℕ
quantize x = round_half_up x.coefficient (scale x)

-- The sum and the difference of a decimal and a whole number.
unfoldable pub add_whole : Decimal → ℕ → Decimal
add_whole x n = record x { coefficient = x.coefficient + n * scale x }

unfoldable pub sub_whole : Decimal → ℕ → Decimal
sub_whole x n = record x { coefficient = x.coefficient - n * scale x }

-- `x * y`
unfoldable pub times : Decimal → Decimal → Decimal
times x y = record {
  coefficient = x.coefficient * y.coefficient;
  exponent = x.exponent + y.exponent;
}

-- A NUMERIC stored into a NUMERIC(15, 2) column, in hundredths.
unfoldable pub to_cents : Decimal → ℕ
to_cents x = round_half_up (x.coefficient * 100) (scale x)

-- `balance - x` and `balance + x` stored into the column, for a balance in hundredths.
unfoldable pub sub_to_cents : ℕ → Decimal → ℕ
sub_to_cents b x = round_half_up (b * scale x - x.coefficient * 100) (scale x)

unfoldable pub add_to_cents : ℕ → Decimal → ℕ
add_to_cents b x = round_half_up (b * scale x + x.coefficient * 100) (scale x)

-- `ROUND(x * percent / 100.0, 2)`
unfoldable pub percent_to_cents : Decimal → Decimal → ℕ
percent_to_cents x percent =
    round_half_up (x.coefficient * percent.coefficient) (scale x * scale percent)

-- `balance < x`, for a balance in hundredths.
unfoldable pub exceeds_cents : ℕ → Decimal → Bool
exceeds_cents b x = ltb (b * scale x) (x.coefficient * 100)

-- `balance - x`, before it is stored.
unfoldable pub sub_from_cents : ℕ → Decimal → Decimal
sub_from_cents b x = record {
  coefficient = b * scale x - x.coefficient * 100;
  exponent = x.exponent + 2;
}

-- `balance <> x` is false.
unfoldable pub equals_cents : ℕ → Decimal → Bool
equals_cents b x = (b * scale x) == (x.coefficient * 100)

-- A column's value read back as a Decimal.
abbrev pub of_cents : ℕ → Decimal
of_cents b = record { coefficient = b; exponent = 2 }
