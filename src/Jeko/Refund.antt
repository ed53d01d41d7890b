-- ===== src/Jeko/Refund.antt =====
-- What the user gets back when the pay-out of a transfer fails (`_handle_payout_webhook` of
-- app/services/webhook_service.py, with app/services/fee_rules.py).
use backend_ayak_bine.Base.{ℕ, ◌≡◌, false, Option, some, arith}
use backend_ayak_bine.Money.{Decimal, LeDecimal}
use backend_ayak_bine.Fees.{
  MobileOperator, compute_total_to_collect, compute_wallet_credit_on_payout_failure,
}
use backend_ayak_bine.Fees.Bounds.{wallet_credit_bounds}
use backend_ayak_bine.Jeko.Client.{JekoServer}
use backend_ayak_bine.Jeko.Webhook.{
  Transaction, TransactionType, TransactionStatus, is_terminal_leg, handle_payout_webhook,
  payout_failed, failure_credit,
}

module _ {W : Type 0} (credit_wallet : ℕ → Decimal → W → Option W) (server : JekoServer) where
  -- When the pay-out of a transfer fails whose pay-in collected the amount and its fee, and the user's wallet
  -- can be credited, the transfer ends as FAILED_PAYOUT with one credit of that wallet, of at least the amount
  -- and at most what was collected.
  pub failed_payout_credits :
      (t : Transaction) (operator : MobileOperator) (w w' : W)
      → t.type ≡ TransactionType.transfer
      → is_terminal_leg t.payout_status ≡ false
      → t.total_collected ≡ some (compute_total_to_collect t.amount)
      → t.source_operator ≡ some operator
      → let collected = compute_total_to_collect t.amount in
        let credit = compute_wallet_credit_on_payout_failure collected operator in
        credit_wallet t.user_id credit w ≡ some w'
        → (handle_payout_webhook credit_wallet server false t w
            ≡ some (
              record t {
                payout_status = some TransactionStatus.failed;
                status = TransactionStatus.failed_payout;
              },
              w',
            ))
          × LeDecimal t.amount credit
          × LeDecimal credit collected
  unfolding handle_payout_webhook payout_failed failure_credit
  failed_payout_credits t operator w w' type unsettled total source credited =
      let bounds = wallet_credit_bounds t.amount operator in
      (ground (arith, type, unsettled, total, source, credited), bounds.0, bounds.1)
