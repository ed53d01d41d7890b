-- ===== src/Ledger/Transfer.antt =====
-- `process_internal_transfer` of sql/migration_006_platform_fee.sql: the sender pays the amount and the
-- platform's fee, the recipient receives the amount.
use backend_ayak_bine.Base.{ℕ, ◌-◌, Option, none, some, Text, ◌==◌, leb, ltb, if◌then◌else◌, find}
use backend_ayak_bine.Money.{Decimal, is_zero, to_cents, add_to_cents, percent_to_cents}
use backend_ayak_bine.Ledger.Models.{
  Db, User, Wallet, LedgerTransaction, TransactionStatus, TransactionType, PaymentProvider,
  Metadata,
}
use backend_ayak_bine.Ledger.Store.{
  Exec, returned, raised, numeric_overflow, Reply, failure, success, Message, ◌>>◌, numeric_limit,
  find_wallet, find_user_by_phone, set_balance, insert_transaction,
}

pub record TransferDone : Type 0 where
  pub sender_reference : ℕ
  pub recipient_reference : ℕ
  pub net_amount : Decimal
  pub fee : ℕ
  pub total_charged : ℕ
  pub new_balance : ℕ

-- The arguments of the function, with the identifiers that the two new rows get.
pub record TransferCall : Type 0 where
  pub sender_id : ℕ
  pub amount : Decimal
  pub recipient_phone : Text
  pub sender_reference : ℕ
  pub recipient_reference : ℕ
  pub fee_percent : Decimal
  pub sender_row : ℕ
  pub recipient_row : ℕ

-- `v_fee` and `v_total`, both NUMERIC(15, 2).
unfoldable pub transfer_fee : TransferCall → ℕ
transfer_fee c = percent_to_cents c.amount c.fee_percent

unfoldable pub transfer_total : TransferCall → ℕ
unfolding transfer_fee
transfer_total c = add_to_cents (transfer_fee c) c.amount

abbrev pub sender_entry : TransferCall → LedgerTransaction
sender_entry c = record {
  id = c.sender_row;
  reference = c.sender_reference;
  user_id = c.sender_id;
  type = TransactionType.internal_transfer;
  provider = PaymentProvider.internal;
  amount = to_cents c.amount;
  fee = transfer_fee c;
  status = TransactionStatus.success;
  phone_number = some c.recipient_phone;
  proof_ref = none;
  metadata = Metadata.sender c.fee_percent;
}

abbrev pub recipient_entry : TransferCall → ℕ → Option Text → LedgerTransaction
recipient_entry c recipient phone = record {
  id = c.recipient_row;
  reference = c.recipient_reference;
  user_id = recipient;
  type = TransactionType.internal_transfer;
  provider = PaymentProvider.internal;
  amount = to_cents c.amount;
  fee = 0;
  status = TransactionStatus.success;
  phone_number = phone;
  proof_ref = none;
  metadata = Metadata.recipient;
}

abbrev pub phone_of : ℕ → Db → Option Text
phone_of uid db = elim (find (λ u. u.id == uid) db.users) [
  | none ↦ none
  | some u ↦ some u.phone_number
]

-- The two UPDATEs and the two INSERTs, for wallets that were found.
unfoldable pub move : TransferCall → User → Wallet → Wallet → Db → Exec (Reply TransferDone)
move c recipient ws wr db =
    (do
      set_balance c.sender_id (ws.balance - transfer_total c)
      set_balance recipient.id (add_to_cents wr.balance c.amount)
      insert_transaction (sender_entry c)
      insert_transaction (recipient_entry c recipient.id (phone_of c.sender_id db))
      returned (
          success (record {
            sender_reference = c.sender_reference;
            recipient_reference = c.recipient_reference;
            net_amount = c.amount;
            fee = transfer_fee c;
            total_charged = transfer_total c;
            new_balance = ws.balance - transfer_total c;
          })))
      db

-- From the locked wallets on.
unfoldable pub transfer_between :
    TransferCall → User → Option Wallet → Option Wallet → Db → Exec (Reply TransferDone)
transfer_between c recipient none wr db =
    returned (failure Message.portefeuille_expediteur_introuvable) db
transfer_between c recipient (some ws) none db =
    if ltb ws.balance (transfer_total c)
    then returned (failure Message.solde_insuffisant) db
    else returned (failure Message.portefeuille_destinataire_introuvable) db
transfer_between c recipient (some ws) (some wr) db =
    if ltb ws.balance (transfer_total c)
    then returned (failure Message.solde_insuffisant) db
    else move c recipient ws wr db

unfoldable pub process_internal_transfer : TransferCall → Db → Exec (Reply TransferDone)
process_internal_transfer c db =
    if is_zero c.amount
    then returned (failure Message.montant_invalide) db
    else if leb numeric_limit (transfer_fee c)
    then raised numeric_overflow
    else if leb numeric_limit (transfer_total c)
    then raised numeric_overflow
    else elim (find_user_by_phone c.recipient_phone db) [
      | none ↦ returned (failure Message.destinataire_introuvable) db
      | some recipient ↦
          if recipient.id == c.sender_id
          then returned (failure Message.transfert_a_soi_meme) db
          else transfer_between c recipient (find_wallet c.sender_id db)
              (find_wallet recipient.id db) db
    ]
