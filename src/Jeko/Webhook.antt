-- ===== src/Jeko/Webhook.antt =====
-- app/services/webhook_service.py, and `jeko_webhook` of app/api/v1/webhooks.py. The class Transaction is not
-- in the repository: the record has the columns that these functions read and write. Crediting a wallet
-- (app/services/wallet_service.py, not in the repository either) is a parameter, which may raise. A
-- notification changes neither transactions nor wallets.
use backend_ayak_bine.Base.{
  ℕ, Bool, true, false, Option, none, some, [], ◌∷◌, ◌++◌, Text, text_eq, codes, is_empty,
  if◌then◌else◌,
}
use backend_ayak_bine.Money.{Decimal}
use backend_ayak_bine.Fees.{MobileOperator, compute_wallet_credit_on_payout_failure}
use backend_ayak_bine.Jeko.Client.{
  JekoServer, JekoResult, received, api_error, network_error, uncaught, create_withdrawal_transfer,
}

infixl 5 ◌>>=◌
abbrev pub ◌>>=◌ {ℓ κ} : {A : Type ℓ} {B : Type κ} → Option A → (A → Option B) → Option B
none >>= f = none
some a >>= f = f a

pub data TransactionStatus : Type 0 where
  pending success failed failed_payout : TransactionStatus

pub data TransactionType : Type 0 where
  deposit withdrawal transfer : TransactionType

-- What metareceived holds of a pay-out that could not be initiated: the event.
pub record Transaction : Type 0 where
  pub internal_reference : Text
  pub user_id : ℕ
  pub type : TransactionType
  pub status : TransactionStatus
  pub payin_status : Option TransactionStatus
  pub payout_status : Option TransactionStatus
  pub amount : Decimal
  pub total_collected : Option Decimal
  pub source_operator : Option MobileOperator
  pub destination_operator : Option MobileOperator
  pub recipient_phone : Text
  pub recipient_name : Text
  pub jeko_payin_id : Option ℕ
  pub jeko_payout_id : Option ℕ
  pub payout_initiation_error : Option Text

-- `TERMINAL_LEG_STATUSES`
abbrev pub is_terminal_leg : Option TransactionStatus → Bool
is_terminal_leg none = false
is_terminal_leg (some success) = true
is_terminal_leg (some failed) = true
is_terminal_leg (some pending) = false
is_terminal_leg (some failed_payout) = false

pub data Leg : Type 0 where
  payin payout : Leg

-- The text before a suffix that is not empty.
unfoldable pub without_suffix : Text → Text → Option Text
without_suffix suffix [] = none
without_suffix suffix (c ∷ s) =
    let rest = without_suffix suffix s in
    if text_eq (c ∷ s) suffix then some [] else elim rest [ none ↦ none | some p ↦ some (c ∷ p) ]

-- `_split_reference`
unfoldable pub split_reference : Text → Text × Leg
split_reference reference = elim (without_suffix (codes "-IN") reference) [
  | some base ↦ (base, payin)
  | none ↦ elim (without_suffix (codes "-OUT") reference) [
    | some base ↦ (base, payout)
    | none ↦ (reference, payout)
  ]
]

-- `operator.value`
abbrev pub operator_value : MobileOperator → Text
operator_value MobileOperator.wave = codes "WAVE"
operator_value MobileOperator.orange = codes "ORANGE"
operator_value MobileOperator.mtn = codes "MTN"
operator_value MobileOperator.moov = codes "MOOV"

-- `transaction.recipient_name or "Bénéficiaire"`
abbrev beneficiary : Text → Text
beneficiary name = if is_empty name then codes "Bénéficiaire" else name

module _ {W : Type 0} (credit_wallet : ℕ → Decimal → W → Option W) (server : JekoServer) where
  -- The pay-out that follows a pay-in; `none` is an exception that the handler lets through.
  unfoldable pub initiate_payout : Transaction → Option JekoResult
  initiate_payout t = elim t.destination_operator [
    | none ↦ none
    | some operator ↦ some (
        create_withdrawal_transfer server (t.internal_reference ++ codes "-OUT") t.amount
          (operator_value operator) t.recipient_phone (beneficiary t.recipient_name))
  ]

  -- `compute_wallet_credit_on_payout_failure(Decimal(transaction.total_collected), …)`
  unfoldable pub failure_credit : Transaction → Option Decimal
  failure_credit t = do
    total ← t.total_collected
    operator ← t.source_operator
    some (compute_wallet_credit_on_payout_failure total operator)

  -- The `except` branch: the wallet is credited, and the transfer has failed.
  unfoldable pub payout_not_initiated : Text → Transaction → W → Option (Transaction × W)
  payout_not_initiated event t w = do
    amount ← failure_credit t
    w' ← credit_wallet t.user_id amount w
    some (
      record t {
        payout_status = some failed;
        status = failed_payout;
        payout_initiation_error = some event;
      },
      w',
    )

  unfoldable pub continue_payin : Text → Transaction → W → Option (Transaction × W)
  continue_payin event t w = do
    answer ← initiate_payout t
    elim answer [
      | received d ↦ some (record t { jeko_payout_id = d.id; payout_status = some pending }, w)
      | api_error s d ↦ payout_not_initiated event t w
      | network_error ↦ payout_not_initiated event t w
      | uncaught ↦ none
    ]

  -- `DEPOSIT`: the wallet gets the amount.
  unfoldable pub deposit_paid : Transaction → W → Option (Transaction × W)
  deposit_paid t w = do
    w' ← credit_wallet t.user_id t.amount w
    some (record t { status = success }, w')

  -- A pay-in that succeeded.
  unfoldable pub payin_succeeded : Text → Transaction → W → Option (Transaction × W)
  payin_succeeded event t w = elim t.type [
    | deposit ↦ deposit_paid t w
    | withdrawal ↦ continue_payin event t w
    | transfer ↦ continue_payin event t w
  ]

  -- `_handle_payin_webhook`, for a new status SUCCESS (`true`) or FAILED.
  unfoldable pub handle_payin_webhook : Bool → Text → Transaction → W → Option (Transaction × W)
  handle_payin_webhook succeeded event t w =
      if is_terminal_leg t.payin_status
      then some (t, w)
      else if succeeded
      then payin_succeeded event (record t { payin_status = some success }) w
      else some (record t { payin_status = some failed; status = failed }, w)

  unfoldable pub payout_failed : Transaction → W → Option (Transaction × W)
  payout_failed t w = elim t.type [
    | transfer ↦ do
      amount ← failure_credit t
      w' ← credit_wallet t.user_id amount w
      some (record t { payout_status = some failed; status = failed_payout }, w')
    | withdrawal ↦ do
      w' ← credit_wallet t.user_id t.amount w
      some (record t { payout_status = some failed; status = failed }, w')
    | deposit ↦ do
      w' ← credit_wallet t.user_id t.amount w
      some (record t { payout_status = some failed; status = failed }, w')
  ]

  -- `_handle_payout_webhook`
  unfoldable pub handle_payout_webhook : Bool → Transaction → W → Option (Transaction × W)
  handle_payout_webhook succeeded t w =
      if is_terminal_leg t.payout_status
      then some (t, w)
      else if succeeded
      then some (record t { payout_status = some success; status = success }, w)
      else payout_failed t w
