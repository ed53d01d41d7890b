-- ===== src/Wallet.antt =====
-- The routes of app/api_wallet.py for the user who is logged in. The identifiers and references that a
-- request draws come with it; a push notification to the recipient may remove that user's dead tokens.
use backend_ayak_bine.Base.{
  ℕ, Bool, not, Option, none, some, List, [], ◌∷◌, Text, text_in, upper, codes, ◌==◌, if◌then◌else◌,
  select_where, take, length, ltb, Response, reply, http_error, server_error,
}
use backend_ayak_bine.Money.{Decimal, is_zero}
use backend_ayak_bine.Ledger.{
  Db, LedgerTransaction, Exec, returned, raised, Reply, failure, success,
}
use backend_ayak_bine.Ledger.Store.{find_wallet, find_user_by_phone, insert_transaction}
use backend_ayak_bine.Ledger.Payout.{PayoutReserved}
use backend_ayak_bine.Ledger.Transfer.{TransferDone}
use backend_ayak_bine.Ledger.Service.{
  Declared, declared, doublon, declared_payin, cast_provider, declare_payin_pending, request_payout,
  transfer_internal,
}
use backend_ayak_bine.Push.{Credentials, FcmOutcome, notify_user}

-- A function of app/wallet_service.py called from a route: what it raises ends the request, and its
-- tables are those of the last commit.
abbrev pub outcome {ℓ κ} :
    {A : Type ℓ} {B : Type κ} → Exec A → (A → Response B) → Db → Response B × Db
outcome (returned a db') f db = (f a, db')
outcome (raised e) f db = (server_error, db)

-- `payload.provider.upper() in ("WAVE", "ORANGE", "MTN", "MOOV")`
unfoldable pub valid_operator : Text → Bool
valid_operator provider =
    text_in (upper provider) (codes "WAVE" ∷ codes "ORANGE" ∷ codes "MTN" ∷ codes "MOOV" ∷ [])

pub record PayInDeclareRequest : Type 0 where
  pub amount : Decimal
  pub provider : Text
  pub phone_number : Text
  pub proof_ref : Option Text
  pub declared_via : Text

-- `GET /me`: the balance.
unfoldable pub get_my_wallet : ℕ → Db → Response ℕ
get_my_wallet uid db = elim (find_wallet uid db) [
  | none ↦ http_error 404
  | some w ↦ reply w.balance
]

abbrev pub declare_answer : Declared → Response (ℕ × ℕ)
declare_answer (declared reference tid) = reply (reference, tid)
declare_answer (doublon existing) = http_error 409

unfoldable pub declare_payin : ℕ → ℕ → ℕ → PayInDeclareRequest → Db → Response (ℕ × ℕ) × Db
declare_payin tid reference uid payload db =
    if is_zero payload.amount
    then (http_error 422, db)
    else if not (valid_operator payload.provider)
    then (http_error 400, db)
    else outcome
        (declare_payin_pending tid reference uid payload.amount (upper payload.provider)
          payload.phone_number payload.proof_ref payload.declared_via db)
        declare_answer db

-- Any exception of the commit is a 409.
abbrev pub insert_answer : Exec (Unit {0}) → ℕ × ℕ → Db → Response (ℕ × ℕ) × Db
insert_answer (returned u db') ids db = (reply ids, db')
insert_answer (raised e) ids db = (http_error 409, db)

unfoldable pub declare_payin_async : ℕ → ℕ → ℕ → PayInDeclareRequest → Db → Response (ℕ × ℕ) × Db
declare_payin_async tid reference uid payload db =
    if is_zero payload.amount
    then (http_error 422, db)
    else if not (valid_operator payload.provider)
    then (http_error 400, db)
    else elim (cast_provider (upper payload.provider)) [
      | none ↦ (server_error, db)
      | some p ↦
          insert_answer
            (insert_transaction
              (declared_payin tid reference uid payload.amount payload.phone_number
                payload.proof_ref payload.declared_via p)
              db)
            (reference, tid) db
    ]

abbrev pub or_bad_request {ℓ} : {A : Type ℓ} → Reply A → Response A
or_bad_request (failure m) = http_error 400
or_bad_request (success a) = reply a

unfoldable pub payout_request :
    ℕ → ℕ → ℕ → Decimal → Text → Text → Db → Response PayoutReserved × Db
payout_request tid reference uid amount provider phone_number db =
    if is_zero amount
    then (http_error 422, db)
    else if not (valid_operator provider)
    then (http_error 400, db)
    else outcome (request_payout tid reference uid amount (upper provider) phone_number db)
        or_bad_request db

-- The notification that the recipient's devices get.
unfoldable pub notify_recipient :
    Credentials → (ℕ → FcmOutcome) → Text → Response TransferDone × Db → Response TransferDone × Db
notify_recipient c fcm phone (reply r, db) = elim (find_user_by_phone phone db) [
  | none ↦ (reply r, db)
  | some u ↦ (reply r, record db { devices = notify_user c fcm u.id db.devices })
]
notify_recipient c fcm phone (http_error n, db) = (http_error n, db)
notify_recipient c fcm phone (server_error, db) = (server_error, db)

-- The identifiers of the two rows and their references.
pub record TransferIds : Type 0 where
  pub sender_reference : ℕ
  pub recipient_reference : ℕ
  pub sender_row : ℕ
  pub recipient_row : ℕ

unfoldable pub transfer_internal_endpoint :
    Credentials
    → (ℕ → FcmOutcome)
    → TransferIds
    → ℕ
    → Decimal
    → Text
    → Db
    → Response TransferDone × Db
transfer_internal_endpoint c fcm ids uid amount recipient_phone db =
    if ltb (length recipient_phone) 6
    then (http_error 422, db)
    else if is_zero amount
    then (http_error 422, db)
    else notify_recipient c fcm recipient_phone (
        outcome
          (transfer_internal uid amount recipient_phone ids.sender_reference ids.recipient_reference
            ids.sender_row ids.recipient_row db)
          or_bad_request db)

-- `GET /transactions`: the newest rows of the user, at most `limit`.
unfoldable pub list_my_transactions : ℕ → ℕ → Db → List LedgerTransaction
list_my_transactions limit uid db = take limit (select_where (λ t. t.user_id == uid) db.ledger)
