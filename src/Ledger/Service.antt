-- ===== src/Ledger/Service.antt =====
-- app/wallet_service.py. A function takes the identifiers and the references that uuid4() gives it, and
-- ends with its commit; an exception rolls its statements back.
use backend_ayak_bine.Base.{
  ℕ, Bool, true, false, Option, none, some, List, [], ◌∷◌, Text, text_eq, upper, codes, is_empty,
  leb, ◌==◌, ◌&&◌, if◌then◌else◌, find, or_else,
}
use backend_ayak_bine.Money.{Decimal, whole, is_zero, to_cents, add_to_cents}
use backend_ayak_bine.Ledger.Models.{
  Db, LedgerTransaction, TransactionStatus, TransactionType, PaymentProvider, Metadata,
  AdminAuditLog, PaymentLink, payment_link_wave, payment_link_orange, payment_link_mtn,
  payment_link_moov,
}
use backend_ayak_bine.Ledger.Store.{
  Exec, returned, raised, DbError, Reply, failure, success, Message, ◌>>=◌, ◌>>◌, numeric_limit,
  find_wallet, has_proof, proof_taken, set_balance, insert_transaction,
}
use backend_ayak_bine.Ledger.Payin.{process_payin_credit, PayinCredit}
use backend_ayak_bine.Ledger.Payout.{process_payout_deduction, PayoutReserved, Action}
use backend_ayak_bine.Ledger.Payout
use backend_ayak_bine.Ledger.Transfer.{process_internal_transfer, TransferDone}

-- `CAST(:prov AS payment_provider)`
unfoldable pub cast_provider : Text → Option PaymentProvider
cast_provider s =
    if text_eq s (codes "WAVE")
    then some PaymentProvider.wave
    else if text_eq s (codes "ORANGE")
    then some PaymentProvider.orange
    else if text_eq s (codes "MTN")
    then some PaymentProvider.mtn
    else if text_eq s (codes "MOOV")
    then some PaymentProvider.moov
    else if text_eq s (codes "INTERNAL")
    then some PaymentProvider.internal
    else if text_eq s (codes "ADMIN_MANUAL")
    then some PaymentProvider.admin_manual
    else if text_eq s (codes "ORANGE_MONEY")
    then some PaymentProvider.orange_money
    else none

-- A statement with the provider's text in it.
unfoldable pub with_provider {ℓ} :
    {A : Type ℓ} → Text → (PaymentProvider → Db → Exec A) → Db → Exec A
with_provider s f db = elim (cast_provider (upper s)) [
  | none ↦ raised DbError.invalid_enum
  | some p ↦ f p db
]

-- The dictionary that `declare_payin_pending` returns: the new reference and identifier, or those of
-- the row that holds the proof already.
pub data Declared : Type 0 where
  declared : ℕ → ℕ → Declared
  doublon : Option (ℕ × ℕ) → Declared

abbrev pub declared_payin :
    ℕ → ℕ → ℕ → Decimal → Text → Option Text → Text → PaymentProvider → LedgerTransaction
declared_payin tid reference uid amount phone proof via provider = record {
  id = tid;
  reference = reference;
  user_id = uid;
  type = TransactionType.pay_in;
  provider = provider;
  amount = to_cents amount;
  fee = 0;
  status = TransactionStatus.pending;
  phone_number = some phone;
  proof_ref = proof;
  metadata = Metadata.declared_via via;
}

abbrev existing_proof : LedgerTransaction → List LedgerTransaction → Option (ℕ × ℕ)
existing_proof t rows = elim t.proof_ref [
  | none ↦ none
  | some p ↦ elim (find (λ r. has_proof t.provider p r) rows) [
    | none ↦ none
    | some r ↦ some (r.reference, r.id)
  ]
]

-- `INSERT … ON CONFLICT (provider, proof_ref) WHERE proof_ref IS NOT NULL DO NOTHING`, and the SELECT
-- that tells whether a row was inserted.
unfoldable pub declare_row : LedgerTransaction → Db → Exec Declared
declare_row t db =
    if leb numeric_limit t.amount
    then raised DbError.numeric_overflow
    else if t.amount == 0
    then raised DbError.check_violation
    else if proof_taken t db.ledger
    then returned (doublon (existing_proof t db.ledger)) db
    else (do insert_transaction t; returned (declared t.reference t.id)) db

unfoldable pub declare_payin_pending :
    ℕ → ℕ → ℕ → Decimal → Text → Text → Option Text → Text → Db → Exec Declared
declare_payin_pending tid reference uid amount provider phone proof via =
    with_provider provider
      λ p. declare_row (declared_payin tid reference uid amount phone proof via p)

unfoldable pub request_payout : ℕ → ℕ → ℕ → Decimal → Text → Text → Db → Exec (Reply PayoutReserved)
request_payout tid reference uid amount provider phone =
    with_provider provider λ p. process_payout_deduction tid uid amount reference p phone

-- The address on the newest entry of that administrator for that transaction.
log_ip : ℕ → ℕ → Text → List AdminAuditLog → List AdminAuditLog
log_ip admin_id tid ip [] = []
log_ip admin_id tid ip (a ∷ log) =
    if a.admin_id == admin_id && a.target_id == tid
    then record a { ip_address = some ip } ∷ log
    else a ∷ log_ip admin_id tid ip log

unfoldable pub admin_process_payout :
    ℕ → Action → Option Text → ℕ → Option Text → Db → Exec (Reply (Unit {0}))
unfolding log_ip
admin_process_payout tid action proof admin_id ip = do
  payload ← Payout.admin_process_payout tid action proof admin_id
  elim ip [
    | none ↦ returned payload
    | some a ↦ λ db. returned payload (record db { audit = log_ip admin_id tid a db.audit })
  ]

unfoldable pub get_fee_percent : Db → Decimal
get_fee_percent db = or_else db.fee_percent (whole 8)

unfoldable pub set_fee_percent : Decimal → Db → Db
set_fee_percent percent db = record db { fee_percent = some percent }

unfoldable pub transfer_internal :
    ℕ → Decimal → Text → ℕ → ℕ → ℕ → ℕ → Db → Exec (Reply TransferDone)
transfer_internal sender_id amount recipient_phone sref rref srow rrow db =
    process_internal_transfer
      (record {
        sender_id = sender_id;
        amount = amount;
        recipient_phone = recipient_phone;
        sender_reference = sref;
        recipient_reference = rref;
        fee_percent = get_fee_percent db;
        sender_row = srow;
        recipient_row = rrow;
      })
      db

-- `_PAYMENT_LINK_KEYS`
unfoldable pub payment_link_key : Text → Option PaymentLink
payment_link_key name =
    if text_eq name (codes "wave")
    then some payment_link_wave
    else if text_eq name (codes "orange")
    then some payment_link_orange
    else if text_eq name (codes "mtn")
    then some payment_link_mtn
    else if text_eq name (codes "moov")
    then some payment_link_moov
    else none

abbrev pub is_link : PaymentLink → PaymentLink → Bool
is_link payment_link_wave payment_link_wave = true
is_link payment_link_orange payment_link_orange = true
is_link payment_link_mtn payment_link_mtn = true
is_link payment_link_moov payment_link_moov = true
is_link _ _ = false

-- `by_key.get(dbkey) or None`: an empty text is no link.
unfoldable pub get_payment_link : PaymentLink → List (PaymentLink × Text) → Option Text
get_payment_link k [] = none
get_payment_link k ((j, v) ∷ links) =
    if is_link j k then (if is_empty v then none else some v) else get_payment_link k links

-- `INSERT … ON CONFLICT (key) DO UPDATE`
unfoldable pub put_link : PaymentLink → Text → List (PaymentLink × Text) → List (PaymentLink × Text)
put_link k v [] = (k, v) ∷ []
put_link k v ((j, w) ∷ links) = if is_link j k then (j, v) ∷ links else (j, w) ∷ put_link k v links

abbrev pub put_named : Text → Option Text → List (PaymentLink × Text) → List (PaymentLink × Text)
put_named name value links = elim (payment_link_key name) [
  | none ↦ links
  | some k ↦ elim value [ none ↦ links | some v ↦ put_link k v links ]
]

-- The loop over `links.items()`.
unfoldable pub put_links :
    List (Text × Option Text) → List (PaymentLink × Text) → List (PaymentLink × Text)
put_links [] links = links
put_links ((name, value) ∷ items) links = put_links items (put_named name value links)

unfoldable pub set_payment_links : List (Text × Option Text) → Db → Db
set_payment_links items db = record db { payment_links = put_links items db.payment_links }

abbrev pub manual_credit_row : ℕ → ℕ → ℕ → Decimal → Text → ℕ → LedgerTransaction
manual_credit_row tid reference uid amount reason admin_id = record {
  id = tid;
  reference = reference;
  user_id = uid;
  type = TransactionType.pay_in;
  provider = PaymentProvider.admin_manual;
  amount = to_cents amount;
  fee = 0;
  status = TransactionStatus.success;
  phone_number = none;
  proof_ref = none;
  metadata = Metadata.manual_credit reason admin_id;
}

-- The UPDATE and the INSERT, for a wallet that is there.
unfoldable pub credit_manually : ℕ → ℕ → ℕ → ℕ → Decimal → Text → ℕ → Db → Exec (Reply (ℕ × ℕ))
credit_manually balance tid reference uid amount reason admin_id = do
  set_balance uid (add_to_cents balance amount)
  insert_transaction (manual_credit_row tid reference uid amount reason admin_id)
  returned (success (reference, add_to_cents balance amount))

-- On success the reference and the new balance.
unfoldable pub admin_manual_credit : ℕ → ℕ → ℕ → Decimal → Text → ℕ → Db → Exec (Reply (ℕ × ℕ))
admin_manual_credit tid reference uid amount reason admin_id db =
    if is_zero amount
    then returned (failure Message.montant_non_positif) db
    else elim (find_wallet uid db) [
      | none ↦ returned (failure Message.portefeuille_introuvable) db
      | some w ↦ credit_manually w.balance tid reference uid amount reason admin_id db
    ]

unfoldable pub finalize_payin : ℕ → Text → Option Decimal → Db → Exec (Reply PayinCredit)
finalize_payin reference proof_ref confirmed_amount =
    process_payin_credit reference (some proof_ref) confirmed_amount
