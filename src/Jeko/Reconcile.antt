-- ===== src/Jeko/Reconcile.antt =====
-- app/services/reconciliation.py and app/services/auto_reconcile.py. A report keeps what was found of each
-- leg, not the sentences that say it.
use backend_ayak_bine.Base.{
  ℕ, Bool, true, false, Option, none, some, List, [], ◌∷◌, ◌++◌, Text, text_in, lower, codes,
  if◌then◌else◌, ◌&&◌,
}
use backend_ayak_bine.Money.{Decimal}
use backend_ayak_bine.Jeko.Client.{
  JekoServer, received, api_error, network_error, uncaught, get_payment_request_status,
  get_transfer_status,
}
use backend_ayak_bine.Jeko.Webhook.{
  Transaction, TransactionType, TransactionStatus, Leg, payin, payout,
}
use backend_ayak_bine.Jeko.Delivery.{State, find_transaction, put_transaction, handle_leg}

-- `map_jeko_status`: SUCCESS (`true`), FAILED, or neither.
unfoldable pub map_jeko_status : Option Text → Option Bool
map_jeko_status none = none
map_jeko_status (some raw) =
    if text_in (lower raw) (codes "success" ∷ codes "completed" ∷ codes "successful" ∷ [])
    then some true
    else if text_in (lower raw) (
        codes "error"
        ∷ codes "failed"
        ∷ codes "cancelled"
        ∷ codes "canceled"
        ∷ codes "rejected"
        ∷ [])
    then some false
    else none

abbrev pub is_pending_leg : Option TransactionStatus → Bool
is_pending_leg (some TransactionStatus.pending) = true
is_pending_leg _ = false

abbrev pub is_transfer : TransactionType → Bool
is_transfer TransactionType.transfer = true
is_transfer _ = false

-- An entry of `report["actions"]`.
pub data Finding : Type 0 where
  no_jeko_id check_failed still_pending : Leg → Finding
  settled : Leg → Bool → Finding
  nothing_to_do : Finding

-- What the function ends with: its report, a missing transaction, or an exception of a handler
-- or of the client.
pub data Reconciled : Type 0 where
  report : List Finding → Reconciled
  not_found raised : Reconciled

module _ {W : Type 0} (credit_wallet : ℕ → Decimal → W → Option W) (server : JekoServer) where
  -- `if apply`: the handler and the commit.
  unfoldable pub apply_status :
      Bool → Leg → Bool → Transaction → List Finding → State W → Reconciled × State W
  apply_status false leg succeeded t found s = (report found, s)
  apply_status true leg succeeded t found s =
      elim (handle_leg credit_wallet server leg succeeded (codes "admin-reconcile") t s.wallets) [
        | none ↦ (raised, s)
        | some (t', w) ↦ (
          report found,
          record s { transactions = put_transaction t' s.transactions; wallets = w },
        )
      ]

  -- The pay-out step, after what the pay-in step has found.
  unfoldable pub reconcile_payout :
      Bool → Transaction → List Finding → State W → Reconciled × State W
  reconcile_payout apply t found s =
      if is_pending_leg t.payout_status
      then elim t.jeko_payout_id [
        | none ↦ (report (found ++ (no_jeko_id payout ∷ [])), s)
        | some id ↦ elim (get_transfer_status server id) [
          | api_error n d ↦ (report (found ++ (check_failed payout ∷ [])), s)
          | network_error ↦ (report (found ++ (check_failed payout ∷ [])), s)
          | uncaught ↦ (raised, s)
          | received d ↦ elim (map_jeko_status d.status) [
            | none ↦ (report (found ++ (still_pending payout ∷ [])), s)
            | some succeeded ↦
                apply_status apply payout succeeded t (found ++ (settled payout succeeded ∷ [])) s
          ]
        ]
      ]
      else elim found [ [] ↦ (report (nothing_to_do ∷ []), s) | f ∷ fs ↦ (report (f ∷ fs), s) ]

  -- The pay-in step: it returns, or goes on to the pay-out step.
  unfoldable pub reconcile_payin : Bool → Transaction → State W → Reconciled × State W
  reconcile_payin apply t s =
      if is_transfer t.type && is_pending_leg t.payin_status
      then elim t.jeko_payin_id [
        | none ↦ reconcile_payout apply t (no_jeko_id payin ∷ []) s
        | some id ↦ elim (get_payment_request_status server id) [
          | api_error n d ↦ (report (check_failed payin ∷ []), s)
          | network_error ↦ (report (check_failed payin ∷ []), s)
          | uncaught ↦ (raised, s)
          | received d ↦ elim (map_jeko_status d.status) [
            | none ↦ reconcile_payout apply t (still_pending payin ∷ []) s
            | some succeeded ↦ apply_status apply payin succeeded t (settled payin succeeded ∷ []) s
          ]
        ]
      ]
      else reconcile_payout apply t [] s

  unfoldable pub reconcile_transaction_by_reference : Bool → Text → State W → Reconciled × State W
  reconcile_transaction_by_reference apply reference s =
      elim (find_transaction reference s.transactions) [
        | none ↦ (not_found, s)
        | some t ↦ reconcile_payin apply t s
      ]

  -- `TERMINAL_STATUSES` of app/services/auto_reconcile.py
  abbrev pub is_terminal : TransactionStatus → Bool
  is_terminal TransactionStatus.pending = false
  is_terminal TransactionStatus.success = true
  is_terminal TransactionStatus.failed = true
  is_terminal TransactionStatus.failed_payout = true

  -- `_auto_reconcile_loop` over its delays. Each delay comes with what the other requests do to the tables
  -- meanwhile; an exception ends the pass, not the loop.
  unfoldable pub auto_reconcile_loop : List (ℕ × (State W → State W)) → Text → State W → State W
  auto_reconcile_loop [] reference s = s
  auto_reconcile_loop ((delay, meanwhile) ∷ delays) reference s =
      let now = meanwhile s in
      let next =
        auto_reconcile_loop delays reference
          (reconcile_transaction_by_reference true reference now).1 in
      elim (find_transaction reference now.transactions) [
        | none ↦ now
        | some t ↦ if is_terminal t.status then now else next
      ]
