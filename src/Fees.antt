-- ===== src/Fees.antt =====
-- The fees of app/services/fee_rules.py: the platform's 8 %, and the commission that JEKO keeps when
-- it collects a payment.
pub mod Bounds
use backend_ayak_bine.Base.{ℕ}
use backend_ayak_bine.Money.{Decimal, whole, quantize, times, add_whole, sub_whole}

-- `MobileOperator`, with the members that fee_rules.py names.
pub data MobileOperator : Type 0 where
  wave orange mtn moov : MobileOperator

-- Decimal("0.08")
abbrev pub platform_fee_rate : Decimal
platform_fee_rate = record { coefficient = 8; exponent = 2 }

abbrev pub min_transfer_amount : Decimal
min_transfer_amount = whole 250

abbrev pub max_transfer_amount : Decimal
max_transfer_amount = whole 30000

-- Decimal("0.015") for Wave, Decimal("0.01") for the others.
abbrev pub jeko_deposit_fee_rate : MobileOperator → Decimal
jeko_deposit_fee_rate MobileOperator.wave = record { coefficient = 15; exponent = 3 }
jeko_deposit_fee_rate MobileOperator.orange = record { coefficient = 1; exponent = 2 }
jeko_deposit_fee_rate MobileOperator.mtn = record { coefficient = 1; exponent = 2 }
jeko_deposit_fee_rate MobileOperator.moov = record { coefficient = 1; exponent = 2 }

unfoldable pub compute_platform_fee : Decimal → ℕ
compute_platform_fee net_amount = quantize (times net_amount platform_fee_rate)

unfoldable pub compute_total_to_collect : Decimal → Decimal
compute_total_to_collect net_amount = add_whole net_amount (compute_platform_fee net_amount)

unfoldable pub compute_jeko_fee : Decimal → MobileOperator → ℕ
compute_jeko_fee total_collected source_operator =
    quantize (times total_collected (jeko_deposit_fee_rate source_operator))

unfoldable pub compute_wallet_credit_on_payout_failure : Decimal → MobileOperator → Decimal
unfolding compute_jeko_fee
compute_wallet_credit_on_payout_failure total_collected source_operator =
    sub_whole total_collected (compute_jeko_fee total_collected source_operator)
