-- ===== src/Jeko/Created.antt =====
-- The life of a transfer that app/api/v1/transfers.py created, through the two notifications of
-- app/services/webhook_service.py.
use backend_ayak_bine.Base.{
  ℕ, ◌≡◌, refl, Bool, Option, none, some, Text, reply, http_error, server_error, codes, ◌++◌,
  Bool-cases, inl, inr,
}
use mathlib.Core.Path.{subst}
use backend_ayak_bine.Money.{Decimal, LeDecimal}
use backend_ayak_bine.Fees.{compute_total_to_collect, compute_wallet_credit_on_payout_failure}
use backend_ayak_bine.Fees.Bounds.{wallet_credit_bounds}
use backend_ayak_bine.Jeko.Client.{
  JekoServer, JekoResult, received, api_error, network_error, uncaught,
  create_deposit_payment_request,
}
use backend_ayak_bine.Jeko.Webhook.{Transaction, operator_value}
use backend_ayak_bine.Jeko.Transfers.{
  TransferRequest, CurrentUser, PendingTransfer, TransferResponse, Creation, create_transfer,
  collect, pending_transfer, transfer_response, source_phone_of, to_itself,
}
use backend_ayak_bine.Jeko.Unpaid.{IsPending, Refunded, paid_then_failed, pending-Refunded}

-- A transfer whose creation was answered waits for the payment that the answer names.
abbrev pub Recorded : Text → CurrentUser → TransferRequest → Creation → Type 0
Recorded ref user payload (reply r, some t, scheduled) =
    IsPending (pending_transfer ref user payload) t
    × (r.total_to_pay ≡ compute_total_to_collect payload.amount)
    × (scheduled ≡ some ref)
Recorded ref user payload (reply r, none, scheduled) = ⊥
Recorded ref user payload (http_error code, t, scheduled) = scheduled ≡ none
Recorded ref user payload (server_error, t, scheduled) = scheduled ≡ none

module _ (verify_pin : Text → Text → Bool) (create_pending_transfer : PendingTransfer → Transaction)
    (server : JekoServer)
    (create_pending_transfer_lem : (p : PendingTransfer)
      → IsPending p (create_pending_transfer p)) where
  collect-Recorded :
      (ref : Text) (user : CurrentUser) (payload : TransferRequest) (t : Transaction)
      → IsPending (pending_transfer ref user payload) t
      → Recorded ref user payload
          (collect verify_pin create_pending_transfer server ref user payload t)
  unfolding collect transfer_response
  collect-Recorded ref user payload t h =
      go
        (create_deposit_payment_request server (ref ++ codes "-IN")
          (compute_total_to_collect payload.amount) (operator_value payload.source_operator)
          (source_phone_of payload user))
        refl
    where
      go :
          (a : JekoResult)
          → create_deposit_payment_request server
              (ref ++ codes "-IN")
              (compute_total_to_collect payload.amount)
              (operator_value payload.source_operator)
              (source_phone_of payload user)
            ≡ a
          → Recorded ref user payload
              (collect verify_pin create_pending_transfer server ref user payload t)
      go (received d) e = rw (e, collect) (h, refl, refl)
      go (api_error s d) e = rw (e, collect) refl
      go network_error e = rw (e, collect) refl
      go uncaught e = rw (e, collect) refl

  -- A transfer whose creation is answered waits for the payment that the answer names, and the background
  -- task is scheduled for it; no other creation schedules the task.
  pub create_transfer-Recorded :
      (ref : Text) (locked : Bool) (user : CurrentUser) (payload : TransferRequest)
      → Recorded ref user payload
          (create_transfer verify_pin create_pending_transfer server ref locked user payload)
  unfolding create_transfer
  create_transfer-Recorded ref locked user payload =
      elim (Bool-cases (verify_pin payload.pin_code user.pin_code_hash)) [
        | inr n ↦ rw (n, create_transfer) refl
        | inl y ↦ elim (Bool-cases (to_itself user payload)) [
          | inl own ↦ rw (y, create_transfer) (rw own refl)
          | inr other ↦ elim (Bool-cases locked) [
            | inr busy ↦ rw (y, create_transfer) (rw other (rw busy refl))
            | inl taken ↦
                rw (y, create_transfer)
                  (rw other (
                    rw taken (
                      collect-Recorded ref user payload _
                        (create_pending_transfer_lem (pending_transfer ref user payload)))))
          ]
        ]
      ]

  -- When the creation of a transfer is answered, and `create_pending_transfer` records its arguments in a
  -- transfer whose legs are not settled, then after a notification that the pay-in succeeded and one that
  -- the pay-out failed the transfer has failed and the user's wallet has been credited once, whether JEKO
  -- had accepted the pay-out or not, or its handler ended in an exception of the client, with at least the amount of the transfer and at most the total that
  -- the answer asked for. The credit is taken to succeed.
  pub create_transfer-Refunded :
      {W : Type 0} (credit_wallet : ℕ → Decimal → W → Option W) (later : JekoServer) (ref : Text)
      (locked : Bool) (user : CurrentUser) (payload : TransferRequest) (r : TransferResponse)
      (t : Transaction) (scheduled : Option Text) (event : Text) (w w' : W)
      → create_transfer verify_pin create_pending_transfer server ref locked user payload
        ≡ (reply r, some t, scheduled)
      → let credit =
          compute_wallet_credit_on_payout_failure r.total_to_pay payload.source_operator in
        credit_wallet user.id credit w ≡ some w'
        → Refunded credit_wallet later w' (paid_then_failed credit_wallet later event t w)
          × LeDecimal payload.amount credit
          × LeDecimal credit r.total_to_pay
  unfolding pending_transfer
  create_transfer-Refunded credit_wallet later ref locked user payload r t scheduled event w w' made
        c =
      let recorded =
        subst (Recorded ref user payload) made (create_transfer-Recorded ref locked user payload) in
      let bounds = wallet_credit_bounds payload.amount payload.source_operator in
      rw recorded.1 (
        pending-Refunded credit_wallet later (pending_transfer ref user payload) event t w w'
            recorded.0 (rw recorded.1 at c),
        bounds.0,
        bounds.1,
      )
