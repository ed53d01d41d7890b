-- ===== src/Money.antt =====
-- Python's `Decimal` and PostgreSQL's NUMERIC, as app/services/fee_rules.py, app/services/jeko_client.py
-- and the SQL functions use them. An amount is never negative: the request schemas ask for `gt=0`, a
-- percentage for `ge=0`, and a balance carries CHECK (balance >= 0).
mod Defs
pub mod Round
pub use Defs.{Decimal, whole, is_zero, of_cents, LeDecimal}
unfoldable pub use Defs.{
  scale, round_half_up, quantize, add_whole, sub_whole, times, to_cents, sub_to_cents, add_to_cents,
  percent_to_cents, exceeds_cents, sub_from_cents, equals_cents,
}
