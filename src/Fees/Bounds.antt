-- ===== src/Fees/Bounds.antt =====
-- The fees of app/services/fee_rules.py stay near their rates, and a client whose pay-out fails
-- is credited with at least the amount that was to be sent.
use backend_ayak_bine.Base.{suc, ℕ, ◌+◌, ◌-◌, ◌*◌, ◌≤◌, ◌<◌, arith}
use backend_ayak_bine.Money.{Decimal, LeDecimal, scale, quantize, times, add_whole, sub_whole}
use backend_ayak_bine.Money.Round.{scale_pos, scale-times, round_half_up_lower, round_half_up_upper}
use backend_ayak_bine.Fees.{
  MobileOperator, platform_fee_rate, jeko_deposit_fee_rate, compute_platform_fee,
  compute_total_to_collect, compute_jeko_fee, compute_wallet_credit_on_payout_failure,
}

-- Rounding a product with a rate, in multiples of the rate's unit.
quantize-times :
    (x r : Decimal)
    → let q = quantize (times x r) in
      let u = scale x * scale r in
      (2 * (q * u) ≤ 2 * (x.coefficient * r.coefficient) + u)
      × (2 * (x.coefficient * r.coefficient) + u < 2 * (q * u) + 2 * u)
unfolding quantize times
quantize-times x r =
    let n = x.coefficient * r.coefficient in
    let p = scale_pos (times x r) in
    rw (← scale-times x r)
      (round_half_up_lower n (scale (times x r)) p, round_half_up_upper n (scale (times x r)) p)

-- The platform fee is 8 % of the net amount, to the nearest XOF, a half upwards.
pub compute_platform_fee_nearest :
    (net : Decimal)
    → let fee = compute_platform_fee net in
      (200 * (fee * scale net) ≤ 16 * net.coefficient + 100 * scale net)
      × (16 * net.coefficient < 200 * (fee * scale net) + 100 * scale net)
unfolding compute_platform_fee scale
compute_platform_fee_nearest net = omega (arith, quantize-times net platform_fee_rate)

-- JEKO's commission, as a multiple of a hundredth or a thousandth of a XOF.
compute_jeko_fee_le :
    (t : Decimal) (op : MobileOperator)
    → 2000 * (compute_jeko_fee t op * scale t) ≤ 30 * t.coefficient + 1000 * scale t
unfolding compute_jeko_fee scale
compute_jeko_fee_le t MobileOperator.wave =
    omega (arith, quantize-times t (jeko_deposit_fee_rate MobileOperator.wave))
compute_jeko_fee_le t MobileOperator.orange =
    omega (arith, quantize-times t (jeko_deposit_fee_rate MobileOperator.orange))
compute_jeko_fee_le t MobileOperator.mtn =
    omega (arith, quantize-times t (jeko_deposit_fee_rate MobileOperator.mtn))
compute_jeko_fee_le t MobileOperator.moov =
    omega (arith, quantize-times t (jeko_deposit_fee_rate MobileOperator.moov))

le_of_scaled_bounds :
    (j f d n : ℕ)
    → 0 < d
    → (200 * (f * d) ≤ 16 * n + 100 * d) × (16 * n < 200 * (f * d) + 100 * d)
    → 2000 * (j * d) ≤ 30 * (n + f * d) + 1000 * d
    → j ≤ f
le_of_scaled_bounds j f d n p h k = grind arith

-- On a payment for `net`, JEKO's commission on the total is at most the platform's fee.
pub jeko_fee-le-platform_fee :
    (net : Decimal) (op : MobileOperator)
    → compute_jeko_fee (compute_total_to_collect net) op ≤ compute_platform_fee net
unfolding compute_total_to_collect add_whole scale
jeko_fee-le-platform_fee net op =
    le_of_scaled_bounds (compute_jeko_fee (compute_total_to_collect net) op)
      (compute_platform_fee net) (scale net) net.coefficient (scale_pos net)
      (compute_platform_fee_nearest net) (compute_jeko_fee_le (compute_total_to_collect net) op)

mul_le_right : (a b d : ℕ) → a ≤ b → a * d ≤ b * d
mul_le_right a b d h = grind arith

refund_bounds :
    (n j f d : ℕ)
    → j ≤ f
    → (n * d ≤ (n + f * d - j * d) * d) × ((n + f * d - j * d) * d ≤ (n + f * d) * d)
refund_bounds n j f d h =
    let jf = mul_le_right j f d h in
    let credit = n + f * d - j * d in
    (mul_le_right n credit d (omega arith), mul_le_right credit (n + f * d) d (omega arith))

-- When the pay-in for a transfer of `net` succeeded and the pay-out failed, the wallet is credited
-- with at least `net` and at most the total that was collected.
pub wallet_credit_bounds :
    (net : Decimal) (op : MobileOperator)
    → let total = compute_total_to_collect net in
      let credit = compute_wallet_credit_on_payout_failure total op in
      LeDecimal net credit × LeDecimal credit total
unfolding compute_total_to_collect add_whole compute_wallet_credit_on_payout_failure sub_whole scale
wallet_credit_bounds net op =
    refund_bounds net.coefficient (compute_jeko_fee (compute_total_to_collect net) op)
      (compute_platform_fee net) (scale net) (jeko_fee-le-platform_fee net op)

le_of_scaled_lt : (f g s : ℕ) → 0 < s → f * s < g * s + s → f ≤ g
le_of_scaled_lt f g s p h = grind arith

platform_fee_mono_scaled :
    (f g d e n m : ℕ)
    → 0 < d
    → 0 < e
    → 200 * (f * d) ≤ 16 * n + 100 * d
    → 16 * m < 200 * (g * e) + 100 * e
    → n * e ≤ m * d
    → f ≤ g
platform_fee_mono_scaled f g d e n m pd pe h k le = le_of_scaled_lt f g (d * e) (grind arith) (
    omega (
      arith,
      mul_le_right (200 * (f * d)) (16 * n + 100 * d) e h,
      mul_le_right (suc (16 * m)) (200 * (g * e) + 100 * e) d k,
      le,
    ))

-- A larger net amount never pays a smaller platform fee.
pub compute_platform_fee_mono :
    (x y : Decimal) → LeDecimal x y → compute_platform_fee x ≤ compute_platform_fee y
compute_platform_fee_mono x y le =
    platform_fee_mono_scaled (compute_platform_fee x) (compute_platform_fee y) (scale x) (scale y)
      x.coefficient y.coefficient (scale_pos x) (scale_pos y) (compute_platform_fee_nearest x).0
      (compute_platform_fee_nearest y).1 le
