-- ===== src/Jeko/Kkiapay.antt =====
-- `kkiapay_webhook` of app/api/v1/webhooks.py. `finalize_kkiapay_deposit` (app/services/wallet_service.py) is not
-- in the repository: it is a parameter, which changes the transaction and the wallets, or raises.
pub mod Matching
pub mod Accepted
use backend_ayak_bine.Base.{
  ℕ, ◌≡◌, ◌⊎◌, inl, inr, refl, Bool, true, false, Option, none, some, List, [], ◌∷◌, Text, ◌==◌,
  if◌then◌else◌, select_where, Response, reply, http_error, server_error, Bool-cases, Option-cases,
}
use backend_ayak_bine.Settings.{verify_webhook_secret}
use backend_ayak_bine.Jeko.Webhook.{Transaction}
use backend_ayak_bine.Jeko.Delivery.{State, has_reference, given_reference, put_transaction}

-- `transaction_id` is none where the body has none, null or an empty one; `is_payment_succes` is
-- `bool(data.get("isPaymentSucces"))`.
pub record KkiapayNotification : Type 0 where
  pub transaction_id : Option ℕ
  pub partner_id : Option Text
  pub is_payment_succes : Bool

-- A body that is not UTF-8, not JSON, or JSON but no object.
pub data KkiapayBody : Type 0 where
  undecodable malformed not_object : KkiapayBody
  notification : KkiapayNotification → KkiapayBody

pub data KkiapayAnswer : Type 0 where
  unmatched_transaction : KkiapayAnswer
  finalized : Transaction → KkiapayAnswer

-- `scalar_one_or_none()`: it raises where several rows match.
pub data Lookup : Type 0 where
  missing ambiguous : Lookup
  found : Transaction → Lookup

abbrev pub scalar_one_or_none : List Transaction → Lookup
scalar_one_or_none [] = missing
scalar_one_or_none (t ∷ []) = found t
scalar_one_or_none (t ∷ u ∷ ts) = ambiguous

abbrev same_payin : ℕ → Option ℕ → Bool
same_payin id none = false
same_payin id (some i) = i == id

abbrev pub by_reference : Option Text → List Transaction → Lookup
by_reference none ts = missing
by_reference (some r) ts = scalar_one_or_none (select_where (has_reference r) ts)

abbrev pub by_payin : ℕ → List Transaction → Lookup
by_payin id ts = scalar_one_or_none (select_where (λ t. same_payin id t.jeko_payin_id) ts)

-- The transaction of `partnerId`, or else the one whose jeko_payin_id is `transactionId`.
unfoldable pub match_transaction : ℕ → Option Text → List Transaction → Lookup
match_transaction id partner_id ts = elim (by_reference (given_reference partner_id) ts) [
  | found t ↦ found t
  | ambiguous ↦ ambiguous
  | missing ↦ by_payin id ts
]

module _ {W : Type 0}
    (finalize_kkiapay_deposit : Transaction → Bool → ℕ → W → Option (Transaction × W)) where
  unfoldable pub finalize_matched :
      Transaction → Bool → ℕ → State W → Response KkiapayAnswer × State W
  finalize_matched t success id s = elim (finalize_kkiapay_deposit t success id s.wallets) [
    | none ↦ (server_error, s)
    | some (t', w) ↦ (
      reply (finalized t'),
      record s { transactions = put_transaction t' s.transactions; wallets = w },
    )
  ]

  unfoldable pub handle_notification :
      KkiapayNotification → State W → Response KkiapayAnswer × State W
  handle_notification p s = elim p.transaction_id [
    | none ↦ (http_error 400, s)
    | some id ↦ elim (match_transaction id p.partner_id s.transactions) [
      | missing ↦ (reply unmatched_transaction, s)
      | ambiguous ↦ (server_error, s)
      | found t ↦ finalize_matched t p.is_payment_succes id s
    ]
  ]

  -- What the body of an accepted call does.
  unfoldable pub handle_body : KkiapayBody → State W → Response KkiapayAnswer × State W
  handle_body undecodable s = (server_error, s)
  handle_body malformed s = (http_error 400, s)
  handle_body not_object s = (server_error, s)
  handle_body (notification p) s = handle_notification p s

  -- The configured secret, the header and the body.
  unfoldable pub kkiapay_webhook :
      Text → Option Text → KkiapayBody → State W → Response KkiapayAnswer × State W
  kkiapay_webhook secret header body s =
      if verify_webhook_secret secret header then handle_body body s else (http_error 401, s)
