-- ===== src/Ledger/Payin.antt =====
-- `process_payin_credit` of sql/migration_009_fix_payin_credit_provider.sql: a declared deposit is
-- credited to its wallet.
use backend_ayak_bine.Base.{
  ℕ, ◌+◌, Bool, false, ◌&&◌, ◌||◌, not, Option, none, some, Text, ◌==◌, if◌then◌else◌, exists,
  coalesce,
}
use backend_ayak_bine.Money.{Decimal, equals_cents}
use backend_ayak_bine.Ledger.Models.{Db, Wallet, LedgerTransaction, TransactionStatus, is_status}
use backend_ayak_bine.Ledger.Store.{
  Exec, returned, Reply, failure, success, Message, ◌>>◌, find_wallet, find_reference, has_proof,
  add_balance, update_transaction_proof,
}

pub record PayinCredit : Type 0 where
  pub transaction_id : ℕ
  pub credited_amount : ℕ
  pub new_balance : Option ℕ

-- The row as the UPDATE leaves it.
abbrev pub credited : Option Text → LedgerTransaction → LedgerTransaction
credited proof t = record t {
  status = TransactionStatus.success;
  proof_ref = coalesce t.proof_ref proof;
}

abbrev pub is_creditable : TransactionStatus → Bool
is_creditable s = is_status s TransactionStatus.pending || is_status s TransactionStatus.failed

-- `proof_ref = p_proof_ref AND provider = v_tx.provider AND reference <> p_reference`
abbrev pub proof_used : LedgerTransaction → Option Text → Db → Bool
proof_used t proof db = elim proof [
  | none ↦ false
  | some p ↦ exists (λ r. has_proof t.provider p r && not (r.reference == t.reference)) db.ledger
]

abbrev pub amount_differs : LedgerTransaction → Option Decimal → Bool
amount_differs t confirmed = elim confirmed [
  | none ↦ false
  | some x ↦ not (equals_cents t.amount x)
]

abbrev pub balance_after : Option Wallet → ℕ → Option ℕ
balance_after none a = none
balance_after (some w) a = some (w.balance + a)

-- The two UPDATEs, once the checks have passed.
unfoldable pub credit_wallet : LedgerTransaction → Option Text → Db → Exec (Reply PayinCredit)
credit_wallet t proof db =
    (do
      add_balance t.user_id t.amount
      update_transaction_proof t (credited proof)
      returned (
          success (record {
            transaction_id = t.id;
            credited_amount = t.amount;
            new_balance = balance_after (find_wallet t.user_id db) t.amount;
          })))
      db

-- From the SELECT … FOR UPDATE on.
unfoldable pub credit_row :
    LedgerTransaction → Option Text → Option Decimal → Db → Exec (Reply PayinCredit)
credit_row t proof confirmed db =
    if is_status t.status TransactionStatus.success
    then returned (failure Message.deja_creditee) db
    else if not (is_creditable t.status)
    then returned (failure Message.statut_non_creditable) db
    else if proof_used t proof db
    then returned (failure Message.preuve_deja_utilisee) db
    else if amount_differs t confirmed
    then returned (failure Message.montant_confirme_different) db
    else credit_wallet t proof db

unfoldable pub process_payin_credit :
    ℕ → Option Text → Option Decimal → Db → Exec (Reply PayinCredit)
process_payin_credit reference proof confirmed db = elim (find_reference reference db) [
  | none ↦ returned (failure Message.transaction_introuvable) db
  | some t ↦ credit_row t proof confirmed db
]
