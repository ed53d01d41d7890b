-- ===== src/Jeko/Client.antt =====
-- `JekoClient` of app/services/jeko_client.py. What httpx gets for each attempt is a parameter.
use backend_ayak_bine.Base.{
  ℕ, zero, suc, ◌*◌, Option, Text, codes, leb, if◌then◌else◌, upper, lower, text_eq,
}
use backend_ayak_bine.Money.{Decimal, round_half_up, scale}

-- What the code reads of a response's JSON: `id` and `status`.
pub record JekoData : Type 0 where
  pub id : Option ℕ
  pub status : Option Text

-- An attempt: a connection error or a timeout that `_request` names, another exception of httpx, or a response
-- with its status code, whose content is empty or JSON, or `garbled`.
pub data HttpOutcome : Type 0 where
  connection_error other_error : HttpOutcome
  response : ℕ → JekoData → HttpOutcome
  garbled : ℕ → HttpOutcome

-- What `_request` returns, or the exception that it raises: one of its own, or another that it lets through.
pub data JekoResult : Type 0 where
  received : JekoData → JekoResult
  api_error : ℕ → JekoData → JekoResult
  network_error uncaught : JekoResult

-- The body of `_request`, once.
unfoldable pub attempt : HttpOutcome → JekoResult
attempt connection_error = network_error
attempt other_error = uncaught
attempt (response status_code json) =
    if leb 500 status_code
    then network_error
    else if leb 400 status_code
    then api_error status_code json
    else received json
attempt (garbled status_code) = if leb 500 status_code then network_error else uncaught

-- `stop_after_attempt(3)`
abbrev pub max_attempts : ℕ
max_attempts = 3

-- The decorator: a JekoNetworkError is tried again while attempts are left, and the last one is raised.
-- `n` is the number of the attempt; the result comes with the number of attempts made.
unfoldable pub retrying : ℕ → (ℕ → HttpOutcome) → ℕ → JekoResult × ℕ
retrying zero http n = (attempt (http n), suc n)
retrying (suc left) http n =
    let rest = retrying left http (suc n) in
    elim (attempt (http n)) [
      | received d ↦ (received d, suc n)
      | api_error s d ↦ (api_error s d, suc n)
      | uncaught ↦ (uncaught, suc n)
      | network_error ↦ rest
    ]

-- `_request`: the first attempt and two more.
unfoldable pub request : (ℕ → HttpOutcome) → JekoResult × ℕ
request http = retrying 2 http 0

-- `_amount_to_cents`
unfoldable pub amount_to_cents : Decimal → ℕ
amount_to_cents amount = round_half_up (amount.coefficient * 100) (scale amount)

-- `PAYMENT_METHOD_FOR_TRANSFER.get(operator.upper(), operator.lower())`
unfoldable pub payment_method_for_transfer : Text → Text
payment_method_for_transfer operator =
    if text_eq (upper operator) (codes "WAVE")
    then codes "wave"
    else if text_eq (upper operator) (codes "ORANGE")
    then codes "orange_money"
    else if text_eq (upper operator) (codes "MTN")
    then codes "mtn"
    else if text_eq (upper operator) (codes "MOOV")
    then codes "moov"
    else lower operator

-- `PAYMENT_METHOD_FOR_DEPOSIT.get(operator.upper(), operator.lower())`
unfoldable pub payment_method_for_deposit : Text → Text
payment_method_for_deposit operator =
    if text_eq (upper operator) (codes "WAVE")
    then codes "wave"
    else if text_eq (upper operator) (codes "ORANGE")
    then codes "orange"
    else if text_eq (upper operator) (codes "MTN")
    then codes "mtn"
    else if text_eq (upper operator) (codes "MOOV")
    then codes "moov"
    else lower operator

-- The fields of the two request bodies that depend on the arguments.
pub record DepositBody : Type 0 where
  pub amount_cents : ℕ
  pub reference : Text
  pub payment_method : Text
  pub payer_phone : Text

pub record WithdrawalBody : Type 0 where
  pub name : Text
  pub payment_method : Text
  pub identifier : Text
  pub amount_cents : ℕ
  pub reference : Text

unfoldable pub deposit_body : Text → Decimal → Text → Text → DepositBody
deposit_body internal_reference amount operator phone_number = record {
  amount_cents = amount_to_cents amount;
  reference = internal_reference;
  payment_method = payment_method_for_deposit operator;
  payer_phone = phone_number;
}

unfoldable pub withdrawal_body : Text → Decimal → Text → Text → Text → WithdrawalBody
withdrawal_body internal_reference amount operator phone_number beneficiary_name = record {
  name = beneficiary_name;
  payment_method = payment_method_for_transfer operator;
  identifier = phone_number;
  amount_cents = amount_to_cents amount;
  reference = internal_reference;
}

-- JEKO's server: what each attempt of a call gets.
pub record JekoServer : Type 0 where
  pub payment_requests : DepositBody → ℕ → HttpOutcome
  pub payment_request : ℕ → ℕ → HttpOutcome
  pub transfers : WithdrawalBody → ℕ → HttpOutcome
  pub transfer : ℕ → ℕ → HttpOutcome

module _ (server : JekoServer) where
  unfoldable pub create_deposit_payment_request : Text → Decimal → Text → Text → JekoResult
  create_deposit_payment_request internal_reference amount operator phone_number =
      (request
        (server.payment_requests (deposit_body internal_reference amount operator phone_number))).0

  unfoldable pub get_payment_request_status : ℕ → JekoResult
  get_payment_request_status id = (request (server.payment_request id)).0

  unfoldable pub create_withdrawal_transfer : Text → Decimal → Text → Text → Text → JekoResult
  create_withdrawal_transfer internal_reference amount operator phone_number beneficiary_name =
      (request (
        server.transfers
          (withdrawal_body internal_reference amount operator phone_number beneficiary_name))).0

  unfoldable pub get_transfer_status : ℕ → JekoResult
  get_transfer_status id = (request (server.transfer id)).0
