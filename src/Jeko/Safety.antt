-- ===== src/Jeko/Safety.antt =====
-- Reconciling by hand and by the background task (app/services/reconciliation.py,
-- app/services/auto_reconcile.py).
use backend_ayak_bine.Base.{ℕ, ◌≡◌, Bool, true, false, Option, some, Text, arith}
use backend_ayak_bine.Money.{Decimal}
use backend_ayak_bine.Jeko.Client.{JekoServer}
use backend_ayak_bine.Jeko.Webhook.{Transaction}
use backend_ayak_bine.Jeko.Delivery.{State, find_transaction}
use backend_ayak_bine.Jeko.Reconcile.{
  is_pending_leg, apply_status, reconcile_payout, reconcile_payin,
  reconcile_transaction_by_reference,
}

module _ {W : Type 0} (credit_wallet : ℕ → Decimal → W → Option W) (server : JekoServer) where
  -- A dry run changes neither locks nor transactions nor wallets, whatever JEKO answers.
  pub dry_run_unchanged :
      (reference : Text) (s : State W)
      → (reconcile_transaction_by_reference credit_wallet server false reference s).1 ≡ s
  unfolding reconcile_transaction_by_reference reconcile_payin reconcile_payout apply_status
  dry_run_unchanged reference s = ground arith

  settled_unchanged :
      (apply : Bool) (t : Transaction) (s : State W)
      → is_pending_leg t.payin_status ≡ false
      → is_pending_leg t.payout_status ≡ false
      → (reconcile_payin credit_wallet server apply t s).1 ≡ s
  unfolding reconcile_payin reconcile_payout
  settled_unchanged apply t s h k = ground (arith, h, k)

  -- A transaction none of whose legs is pending is left alone, whatever JEKO answers.
  pub reconcile_settled :
      (reference : Text) (t : Transaction) (s : State W)
      → find_transaction reference s.transactions ≡ some t
      → is_pending_leg t.payin_status ≡ false
      → is_pending_leg t.payout_status ≡ false
      → (reconcile_transaction_by_reference credit_wallet server true reference s).1 ≡ s
  unfolding reconcile_transaction_by_reference
  reconcile_settled reference t s e h k =
      rw (e, reconcile_transaction_by_reference) (settled_unchanged true t s h k)
