-- ===== src/Jeko/Unpaid.antt =====
-- A pay-in that succeeds and a pay-out that then fails (`_handle_payin_webhook` and
-- `_handle_payout_webhook` of app/services/webhook_service.py) for the row of a pending transfer.
use backend_ayak_bine.Base.{ℕ, ◌≡◌, refl, sym, true, false, Option, none, some, Text, arith}
use mathlib.Core.Path.{subst}
use backend_ayak_bine.Money.{Decimal}
use backend_ayak_bine.Fees.{MobileOperator, compute_wallet_credit_on_payout_failure}
use backend_ayak_bine.Jeko.Client.{
  JekoServer, JekoResult, received, api_error, network_error, uncaught,
}
use backend_ayak_bine.Jeko.Webhook.{
  Transaction, TransactionType, TransactionStatus, is_terminal_leg, handle_payin_webhook,
  handle_payout_webhook, payin_succeeded, continue_payin, payout_not_initiated, initiate_payout,
  payout_failed, failure_credit,
}
use backend_ayak_bine.Jeko.Transfers.{PendingTransfer}

-- What the pay-in of a transfer needs of its row.
abbrev pub IsPending : PendingTransfer → Transaction → Type 0
IsPending p t =
    (t.type ≡ TransactionType.transfer)
    × (t.user_id ≡ p.user_id)
    × (t.amount ≡ p.net_amount)
    × (t.total_collected ≡ some p.total_collected)
    × (t.source_operator ≡ some p.source_operator)
    × (t.destination_operator ≡ some p.destination_operator)
    × (is_terminal_leg t.payin_status ≡ false)
    × (is_terminal_leg t.payout_status ≡ false)

module _ {W : Type 0} (credit_wallet : ℕ → Decimal → W → Option W) (server : JekoServer) where
  -- A handler that raises leaves the row and the wallets as they are.
  abbrev pub kept_or : Transaction → W → Option (Transaction × W) → Transaction × W
  kept_or t w none = (t, w)
  kept_or t w (some r) = r

  abbrev pub then_fails : Transaction × W → Option (Transaction × W)
  then_fails (t, w) = handle_payout_webhook credit_wallet server false t w

  abbrev pub paid_then_failed : Text → Transaction → W → Option (Transaction × W)
  paid_then_failed event t w =
      then_fails (kept_or t w (handle_payin_webhook credit_wallet server true event t w))

  abbrev paid : Transaction → Transaction
  paid t = record t { payin_status = some TransactionStatus.success }

  -- The user's wallet has been credited and the transfer has failed.
  abbrev pub Refunded : W → Option (Transaction × W) → Type 0
  Refunded w' r =
      (t' : Transaction) × (r ≡ some (t', w')) × (t'.status ≡ TransactionStatus.failed_payout)

  payout_failed-Refunded :
      (p : PendingTransfer) (t : Transaction) (w w' : W)
      → t.type ≡ TransactionType.transfer
      → t.user_id ≡ p.user_id
      → t.total_collected ≡ some p.total_collected
      → t.source_operator ≡ some p.source_operator
      → is_terminal_leg t.payout_status ≡ false
      → credit_wallet p.user_id
          (compute_wallet_credit_on_payout_failure p.total_collected p.source_operator)
          w
        ≡ some w'
      → handle_payout_webhook credit_wallet server false t w
        ≡ some (
          record t {
            payout_status = some TransactionStatus.failed;
            status = TransactionStatus.failed_payout;
          },
          w',
        )
  unfolding handle_payout_webhook payout_failed failure_credit
  payout_failed-Refunded p t w w' type user total source u c =
      ground (arith, type, user, total, source, u, c)

  not_initiated-Refunded :
      (p : PendingTransfer) (event : Text) (t : Transaction) (w w' : W)
      → IsPending p t
      → credit_wallet p.user_id
          (compute_wallet_credit_on_payout_failure p.total_collected p.source_operator)
          w
        ≡ some w'
      → payout_not_initiated credit_wallet server event (paid t) w
        ≡ some (
          record t {
            payin_status = some TransactionStatus.success;
            payout_status = some TransactionStatus.failed;
            status = TransactionStatus.failed_payout;
            payout_initiation_error = some event;
          },
          w',
        )
  unfolding payout_not_initiated failure_credit
  not_initiated-Refunded p event t w w'
        (type, user, amount, total, source, destination, unpaid, unsettled) c =
      ground (arith, user, total, source, c)

  initiate_payout_destination :
      (t : Transaction) (operator : MobileOperator)
      → t.destination_operator ≡ some operator
      → initiate_payout credit_wallet server t ≡ none
      → ⊥
  unfolding initiate_payout
  initiate_payout_destination t operator d e = ground (arith, d, e)

  pub pending-Refunded :
      (p : PendingTransfer) (event : Text) (t : Transaction) (w w' : W)
      → IsPending p t
      → credit_wallet p.user_id
          (compute_wallet_credit_on_payout_failure p.total_collected p.source_operator)
          w
        ≡ some w'
      → Refunded w' (paid_then_failed event t w)
  unfolding handle_payin_webhook handle_payout_webhook payin_succeeded continue_payin
  pending-Refunded p event t w w' h c = go (initiate_payout credit_wallet server (paid t)) refl
    where
      type : t.type ≡ TransactionType.transfer
      type = h.0

      unpaid : is_terminal_leg t.payin_status ≡ false
      unpaid = h.6

      go :
          (o : Option JekoResult)
          → initiate_payout credit_wallet server (paid t) ≡ o
          → Refunded w' (paid_then_failed event t w)
      go none e = absurd (initiate_payout_destination (paid t) p.destination_operator h.5 e)
      go (some (received d)) e =
          rw (unpaid, type, continue_payin)
            (rw e (
              _,
              payout_failed-Refunded p
                  (record t {
                    payin_status = some TransactionStatus.success;
                    payout_status = some TransactionStatus.pending;
                    jeko_payout_id = d.id;
                  })
                  w w' type h.1 h.3 h.4 refl c,
              refl,
            ))
      go (some (api_error s d)) e =
          rw (unpaid, type, continue_payin)
            (rw e (rw (not_initiated-Refunded p event t w w' h c) (_, refl, refl)))
      go (some uncaught) e =
          let raised : handle_payin_webhook credit_wallet server true event t w ≡ none =
            rw (unpaid, type, continue_payin) (rw e refl) in
          subst (λ r. Refunded w' (then_fails (kept_or t w r))) (sym raised)
            (_, payout_failed-Refunded p t w w' type h.1 h.3 h.4 h.7 c, refl)
      go (some network_error) e =
          rw (unpaid, type, continue_payin)
            (rw e (rw (not_initiated-Refunded p event t w w' h c) (_, refl, refl)))
