-- ===== src/Jeko/Transfers.antt =====
-- app/api/v1/transfers.py. The lock of the user (`user_redis_lock`), `create_pending_transfer` and the
-- check of the PIN are parameters, and the reference that `generate_internal_reference` draws is an
-- argument. The redirection's address and the texts of the answers are left out.
use backend_ayak_bine.Base.{
  ℕ, Bool, not, ◌&&◌, ◌==◌, Option, none, some, List, ◌++◌, Text, text_eq, codes, is_empty,
  if◌then◌else◌, find, Response, reply, http_error, server_error,
}
use backend_ayak_bine.Money.{Decimal}
use backend_ayak_bine.Fees.{
  MobileOperator, jeko_deposit_fee_rate, compute_platform_fee, compute_total_to_collect,
}
use backend_ayak_bine.Jeko.Client.{
  JekoServer, received, api_error, network_error, uncaught, create_deposit_payment_request,
}
use backend_ayak_bine.Jeko.Webhook.{Transaction, TransactionStatus, operator_value}

-- The fields of the payload that `create_transfer` reads.
pub record TransferRequest : Type 0 where
  pub pin_code : Text
  pub amount : Decimal
  pub source_operator : MobileOperator
  pub destination_operator : MobileOperator
  pub source_phone : Option Text
  pub recipient_phone : Text
  pub recipient_name : Text

pub record CurrentUser : Type 0 where
  pub id : ℕ
  pub phone_number : Text
  pub pin_code_hash : Text

-- The keyword arguments of `create_pending_transfer`.
pub record PendingTransfer : Type 0 where
  pub user_id : ℕ
  pub internal_reference : Text
  pub source_operator : MobileOperator
  pub destination_operator : MobileOperator
  pub net_amount : Decimal
  pub platform_fee : ℕ
  pub total_collected : Decimal
  pub jeko_deposit_fee_rate : Decimal
  pub recipient_name : Text
  pub recipient_phone : Text
  pub source_phone : Text

pub record TransferResponse : Type 0 where
  pub internal_reference : Text
  pub status : TransactionStatus
  pub net_amount : Decimal
  pub platform_fee : ℕ
  pub total_to_pay : Decimal

-- The answer, the transaction that was created, as the request leaves it, and the reference that the
-- background task is scheduled for.
abbrev pub Creation : Type 0
Creation = Response TransferResponse × Option Transaction × Option Text

-- `payload.source_phone or current_user.phone_number`
unfoldable pub source_phone_of : TransferRequest → CurrentUser → Text
source_phone_of payload user = elim payload.source_phone [
  | none ↦ user.phone_number
  | some phone ↦ if is_empty phone then user.phone_number else phone
]

unfoldable pub pending_transfer : Text → CurrentUser → TransferRequest → PendingTransfer
pending_transfer internal_reference user payload = record {
  user_id = user.id;
  internal_reference = internal_reference;
  source_operator = payload.source_operator;
  destination_operator = payload.destination_operator;
  net_amount = payload.amount;
  platform_fee = compute_platform_fee payload.amount;
  total_collected = compute_total_to_collect payload.amount;
  jeko_deposit_fee_rate = jeko_deposit_fee_rate payload.source_operator;
  recipient_name = payload.recipient_name;
  recipient_phone = payload.recipient_phone;
  source_phone = source_phone_of payload user;
}

-- The same number and the same operator on both sides.
unfoldable pub to_itself : CurrentUser → TransferRequest → Bool
to_itself user payload =
    text_eq payload.recipient_phone (source_phone_of payload user)
    && text_eq (operator_value payload.destination_operator)
        (operator_value payload.source_operator)

-- `TransferResponse(…)`
unfoldable pub transfer_response : Text → TransferRequest → TransactionStatus → TransferResponse
transfer_response internal_reference payload status = record {
  internal_reference = internal_reference;
  status = status;
  net_amount = payload.amount;
  platform_fee = compute_platform_fee payload.amount;
  total_to_pay = compute_total_to_collect payload.amount;
}

module _ (verify_pin : Text → Text → Bool) (create_pending_transfer : PendingTransfer → Transaction)
    (server : JekoServer) where
  -- The call of JEKO for a transaction that was created, and what follows it.
  unfoldable pub collect : Text → CurrentUser → TransferRequest → Transaction → Creation
  collect internal_reference user payload t =
      elim (create_deposit_payment_request server (internal_reference ++ codes "-IN")
        (compute_total_to_collect payload.amount) (operator_value payload.source_operator)
        (source_phone_of payload user)) [
          | received d ↦ (
            reply (transfer_response internal_reference payload t.status),
            some (record t { jeko_payin_id = d.id }),
            some internal_reference,
          )
          | api_error s d ↦ (
            http_error 400,
            some (record t {
              payin_status = some TransactionStatus.failed;
              status = TransactionStatus.failed;
            }),
            none,
          )
          | network_error ↦ (http_error 502, some t, none)
          | uncaught ↦ (server_error, some t, none)
        ]

  -- `create_transfer`; `locked` tells whether the lock was taken.
  unfoldable pub create_transfer : Text → Bool → CurrentUser → TransferRequest → Creation
  create_transfer internal_reference locked user payload =
      if not (verify_pin payload.pin_code user.pin_code_hash)
      then (http_error 403, none, none)
      else if to_itself user payload
      then (http_error 400, none, none)
      else if not locked
      then (http_error 429, none, none)
      else collect internal_reference user payload
          (create_pending_transfer (pending_transfer internal_reference user payload))

-- `get_transfer`
unfoldable pub get_transfer : Text → CurrentUser → List Transaction → Response Transaction
get_transfer internal_reference user transactions =
    elim (find (λ t. text_eq t.internal_reference internal_reference && (t.user_id == user.id))
      transactions) [ none ↦ http_error 404 | some t ↦ reply t ]
