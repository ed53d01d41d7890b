-- ===== src/Ledger/Payout.antt =====
-- `process_payout_deduction` of sql/migration_003_payout_reference_fix.sql reserves a withdrawal, and
-- `admin_process_payout` of sql/migration_004_repair_core_schema.sql settles it.
use backend_ayak_bine.Base.{
  ℕ, Option, none, some, Text, text_eq, codes, if◌then◌else◌, coalesce, not,
}
use backend_ayak_bine.Money.{Decimal, to_cents, sub_to_cents, exceeds_cents, sub_from_cents}
use backend_ayak_bine.Ledger.Models.{
  Db, LedgerTransaction, TransactionStatus, TransactionType, PaymentProvider, Metadata, AuditAction,
  is_status,
}
use backend_ayak_bine.Ledger.Store.{
  Exec, returned, Reply, failure, success, Message, ◌>>◌, find_wallet, find_transaction,
  set_balance, add_balance, insert_transaction, update_transaction, update_transaction_proof,
  insert_audit,
}

pub record PayoutReserved : Type 0 where
  pub reference : ℕ
  pub transaction_id : ℕ
  pub new_balance : Decimal

abbrev pub pending_payout : ℕ → ℕ → Decimal → ℕ → PaymentProvider → Text → LedgerTransaction
pending_payout tid uid amount reference provider phone = record {
  id = tid;
  reference = reference;
  user_id = uid;
  type = TransactionType.pay_out;
  provider = provider;
  amount = to_cents amount;
  fee = 0;
  status = TransactionStatus.pending;
  phone_number = some phone;
  proof_ref = none;
  metadata = Metadata.requested;
}

-- The UPDATE and the INSERT, for a balance that is high enough.
unfoldable pub reserve :
    ℕ → ℕ → ℕ → Decimal → ℕ → PaymentProvider → Text → Db → Exec (Reply PayoutReserved)
reserve tid uid balance amount reference provider phone = do
  set_balance uid (sub_to_cents balance amount)
  insert_transaction (pending_payout tid uid amount reference provider phone)
  returned (
      success (record {
        reference = reference;
        transaction_id = tid;
        new_balance = sub_from_cents balance amount;
      }))

-- `tid` is the identifier that uuid_generate_v4() gives to the new row.
unfoldable pub process_payout_deduction :
    ℕ → ℕ → Decimal → ℕ → PaymentProvider → Text → Db → Exec (Reply PayoutReserved)
process_payout_deduction tid uid amount reference provider phone db = elim (find_wallet uid db) [
  | none ↦ returned (failure Message.portefeuille_inexistant) db
  | some w ↦
      if exceeds_cents w.balance amount
      then returned (failure Message.solde_insuffisant) db
      else reserve tid uid w.balance amount reference provider phone db
]

-- `p_action`: 'APPROVE', 'REJECT' or another text.
pub data Action : Type 0 where
  approve reject unknown : Action

unfoldable pub action_of : Text → Action
action_of s =
    if text_eq s (codes "APPROVE")
    then approve
    else if text_eq s (codes "REJECT")
    then reject
    else unknown

abbrev pub approved : Option Text → LedgerTransaction → LedgerTransaction
approved proof t = record t {
  status = TransactionStatus.success;
  proof_ref = coalesce proof t.proof_ref;
}

abbrev pub refunded : ℕ → LedgerTransaction → LedgerTransaction
refunded admin_id t = record t {
  status = TransactionStatus.cancelled;
  metadata = Metadata.rejected_by admin_id t.metadata;
}

unfoldable pub settle : Action → LedgerTransaction → Option Text → ℕ → Db → Exec (Reply (Unit {0}))
settle approve t proof admin_id = do
  update_transaction_proof t (approved proof)
  insert_audit (record {
    admin_id = admin_id;
    action = AuditAction.approve_payout;
    target_id = t.id;
    amount = t.amount;
    ip_address = none;
  })
  returned (success tt)
settle reject t proof admin_id = do
  add_balance t.user_id t.amount
  update_transaction t.id (refunded admin_id)
  insert_audit (record {
    admin_id = admin_id;
    action = AuditAction.reject_payout;
    target_id = t.id;
    amount = t.amount;
    ip_address = none;
  })
  returned (success tt)
settle unknown t proof admin_id = returned (failure Message.action_inconnue)

unfoldable pub admin_process_payout : ℕ → Action → Option Text → ℕ → Db → Exec (Reply (Unit {0}))
admin_process_payout tid action proof admin_id db = elim (find_transaction tid db) [
  | none ↦ returned (failure Message.transaction_introuvable) db
  | some t ↦
      if not (is_status t.status TransactionStatus.pending)
      then returned (failure Message.deja_traitee) db
      else settle action t proof admin_id db
]
