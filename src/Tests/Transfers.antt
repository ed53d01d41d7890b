-- ===== src/Tests/Transfers.antt =====
-- Runs of app/api/v1/transfers.py.
use backend_ayak_bine.Base.{◌≡◌, refl, true, none, some, [], ◌∷◌, text_eq, codes, reply, http_error}
use backend_ayak_bine.Money.{Decimal, LeDecimal, whole}
use backend_ayak_bine.Fees.{
  MobileOperator, compute_total_to_collect, compute_wallet_credit_on_payout_failure,
}
use backend_ayak_bine.Jeko.Client.{
  JekoServer, connection_error, response, create_deposit_payment_request, request, retrying,
  attempt,
}
use backend_ayak_bine.Jeko.Webhook.{Transaction, TransactionType, TransactionStatus}
use backend_ayak_bine.Jeko.Transfers.{
  TransferRequest, CurrentUser, PendingTransfer, create_transfer, get_transfer, transfer_response,
  to_itself, source_phone_of, collect, pending_transfer,
}
use backend_ayak_bine.Jeko.Unpaid.{IsPending, Refunded, paid_then_failed}
use backend_ayak_bine.Jeko.Created.{create_transfer-Refunded}
use backend_ayak_bine.Tests.Data.{log_credit, answering}

abbrev user : CurrentUser
user = record { id = 1; phone_number = codes "0701020304"; pin_code_hash = codes "1234" }

abbrev payload : TransferRequest
payload = record {
  pin_code = codes "1234";
  amount = whole 1000;
  source_operator = MobileOperator.wave;
  destination_operator = MobileOperator.mtn;
  source_phone = none;
  recipient_phone = codes "0505050505";
  recipient_name = codes "Awa";
}

abbrev record_pending : PendingTransfer → Transaction
record_pending p = record {
  internal_reference = p.internal_reference;
  user_id = p.user_id;
  type = TransactionType.transfer;
  status = TransactionStatus.pending;
  payin_status = some TransactionStatus.pending;
  payout_status = none;
  amount = p.net_amount;
  total_collected = some p.total_collected;
  source_operator = some p.source_operator;
  destination_operator = some p.destination_operator;
  recipient_phone = p.recipient_phone;
  recipient_name = p.recipient_name;
  jeko_payin_id = none;
  jeko_payout_id = none;
  payout_initiation_error = none;
}

record_pending-IsPending : (p : PendingTransfer) → IsPending p (record_pending p)
record_pending-IsPending p = (refl, refl, refl, refl, refl, refl, refl, refl)

abbrev ready : JekoServer
ready = answering (response 200 (record { id = some 77; status = some (codes "pending") }))

abbrev down : JekoServer
down = answering connection_error

abbrev created : Transaction
created = record {
  internal_reference = codes "TRF-1";
  user_id = 1;
  type = TransactionType.transfer;
  status = TransactionStatus.pending;
  payin_status = some TransactionStatus.pending;
  payout_status = none;
  amount = whole 1000;
  total_collected = some (compute_total_to_collect (whole 1000));
  source_operator = some MobileOperator.wave;
  destination_operator = some MobileOperator.mtn;
  recipient_phone = codes "0505050505";
  recipient_name = codes "Awa";
  jeko_payin_id = some 77;
  jeko_payout_id = none;
  payout_initiation_error = none;
}

abbrev refund : Decimal
refund =
    compute_wallet_credit_on_payout_failure (compute_total_to_collect (whole 1000))
      MobileOperator.wave

creation : create_transfer text_eq record_pending ready (codes "TRF-1") true user payload ≡ (
  reply (transfer_response (codes "TRF-1") payload TransactionStatus.pending),
  some created,
  some (codes "TRF-1"),
)
unfolding create_transfer text_eq to_itself source_phone_of collect create_deposit_payment_request
    request retrying attempt pending_transfer compute_total_to_collect transfer_response
creation = refl

-- The pay-out cannot be initiated, since JEKO is down by then.
create_transfer-Refunded_example :
    Refunded log_credit down
      ((1, refund) ∷ [])
      (paid_then_failed log_credit down (codes "e1") created [])
    × LeDecimal (whole 1000) refund
    × LeDecimal refund (compute_total_to_collect (whole 1000))
unfolding transfer_response
create_transfer-Refunded_example =
    create_transfer-Refunded text_eq record_pending ready record_pending-IsPending log_credit down
      (codes "TRF-1") true user payload
      (transfer_response (codes "TRF-1") payload TransactionStatus.pending) created
      (some (codes "TRF-1")) (codes "e1") [] ((1, refund) ∷ []) creation refl

wrong_pin :
    create_transfer text_eq record_pending ready
      (codes "TRF-1")
      true
      user
      (record payload { pin_code = codes "0000" })
    ≡ (http_error 403, none, none)
unfolding create_transfer text_eq
wrong_pin = refl

network_down :
    create_transfer text_eq record_pending down (codes "TRF-1") true user payload
    ≡ (http_error 502, some (record created { jeko_payin_id = none }), none)
unfolding create_transfer text_eq to_itself source_phone_of collect create_deposit_payment_request
    request retrying attempt pending_transfer compute_total_to_collect
network_down = refl

other_user : get_transfer (codes "TRF-1") (record user { id = 2 }) (created ∷ []) ≡ http_error 404
unfolding get_transfer text_eq
other_user = refl
