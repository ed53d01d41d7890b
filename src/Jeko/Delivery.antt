-- ===== src/Jeko/Delivery.antt =====
-- The delivery of a webhook: `process_jeko_webhook` of app/services/webhook_service.py and the route
-- `jeko_webhook` of app/api/v1/webhooks.py. A delivery comes with its time in seconds: a lock in
-- Redis lives for 24 hours, and Redis is not rolled back with the database.
use backend_ayak_bine.Base.{
  ℕ, ◌+◌, ltb, ◌&&◌, Bool, true, false, Option, none, some, List, ◌∷◌, Text, text_eq, lower, codes,
  is_empty, if◌then◌else◌, exists, find, update_where, Response, reply, http_error, server_error,
}
use backend_ayak_bine.Money.{Decimal}
use backend_ayak_bine.Jeko.Client.{JekoServer}
use backend_ayak_bine.Jeko.Webhook.{
  Transaction, Leg, payin, payout, split_reference, handle_payin_webhook, handle_payout_webhook,
}

-- `JekoWebhookPayload.data`: its identifier, its status and the reference in `transactionDetails`.
pub record JekoWebhookPayload : Type 0 where
  pub id : Text
  pub status : Text
  pub reference : Option Text

-- A lock is the identifier of its event, with the time at which it expires.
pub record State (W : Type 0) : Type 0 where
  pub locks : List (Text × ℕ)
  pub transactions : List Transaction
  pub wallets : W

abbrev pub has_reference : Text → Transaction → Bool
has_reference reference t = text_eq t.internal_reference reference

abbrev pub find_transaction : Text → List Transaction → Option Transaction
find_transaction reference ts = find (has_reference reference) ts

-- The changed row.
abbrev pub put_transaction : Transaction → List Transaction → List Transaction
put_transaction t ts = update_where (has_reference t.internal_reference) (λ _. t) ts

-- What `process_jeko_webhook` returns or raises.
pub data Processed : Type 0 where
  already_processed transaction_not_found raised : Processed
  processed : Transaction → Processed

-- `data.transactionDetails is None or not data.transactionDetails.reference`
abbrev pub given_reference : Option Text → Option Text
given_reference none = none
given_reference (some r) = if is_empty r then none else some r

-- What the route answers.
pub data Answer : Type 0 where
  duplicate : Answer
  accepted : Transaction → Answer

pub data Body : Type 0 where
  invalid_json invalid_payload : Body
  valid : JekoWebhookPayload → Body

-- `ex=60 * 60 * 24`
abbrev pub lock_seconds : ℕ
lock_seconds = 86400

-- The key of the event is there.
abbrev pub is_locked : ℕ → Text → List (Text × ℕ) → Bool
is_locked now id locks = exists (λ l. text_eq l.0 id && ltb now l.1) locks

module _ {W : Type 0} (credit_wallet : ℕ → Decimal → W → Option W) (server : JekoServer) where
  -- The handler of the leg.
  unfoldable pub handle_leg : Leg → Bool → Text → Transaction → W → Option (Transaction × W)
  handle_leg payin succeeded event t w =
      handle_payin_webhook credit_wallet server succeeded event t w
  handle_leg payout succeeded event t w = handle_payout_webhook credit_wallet server succeeded t w

  unfoldable pub apply_leg : Leg → Bool → Text → Transaction → State W → Processed × State W
  apply_leg leg succeeded event t s = elim (handle_leg leg succeeded event t s.wallets) [
    | none ↦ (raised, s)
    | some (t', w) ↦
        (processed t', record s { transactions = put_transaction t' s.transactions; wallets = w })
  ]

  -- After the lock is taken.
  unfoldable pub process_event : JekoWebhookPayload → State W → Processed × State W
  process_event p s = elim (given_reference p.reference) [
    | none ↦ (transaction_not_found, s)
    | some reference ↦
        let parts = split_reference reference in
        elim (find_transaction parts.0 s.transactions) [
          | none ↦ (transaction_not_found, s)
          | some t ↦ apply_leg parts.1 (text_eq (lower p.status) (codes "success")) p.id t s
        ]
  ]

  unfoldable pub process_jeko_webhook : ℕ → JekoWebhookPayload → State W → Processed × State W
  process_jeko_webhook now p s =
      if is_locked now p.id s.locks
      then (already_processed, s)
      else process_event p (record s { locks = (p.id, now + lock_seconds) ∷ s.locks })

  abbrev pub answer_of : Processed × State W → Response Answer × State W
  answer_of (already_processed, s) = (reply duplicate, s)
  answer_of (transaction_not_found, s) = (http_error 404, s)
  answer_of (raised, s) = (server_error, s)
  answer_of (processed t, s) = (reply (accepted t), s)

  -- `jeko_webhook`, for a signature that HMAC verified or did not.
  unfoldable pub jeko_webhook : ℕ → Bool → Body → State W → Response Answer × State W
  jeko_webhook now false body s = (http_error 401, s)
  jeko_webhook now true invalid_json s = (http_error 400, s)
  jeko_webhook now true invalid_payload s = (http_error 422, s)
  jeko_webhook now true (valid p) s = answer_of (process_jeko_webhook now p s)
