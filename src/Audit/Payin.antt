-- ===== src/Audit/Payin.antt =====
-- The deposits of app/wallet_service.py (`declare_payin_pending`, `finalize_payin`, `admin_manual_credit`)
-- keep the account of every wallet.
use backend_ayak_bine.Base.{
  ℕ, ◌+◌, ◌≡◌, refl, Bool, true, Option, some, ◌==◌, arith, inl, inr, Option-cases, Text,
  update_where, find,
}
use backend_ayak_bine.Money.{Decimal, add_to_cents}
use backend_ayak_bine.Money.Round.{add_to_cents_lem}
use backend_ayak_bine.Ledger.{
  Db, Wallet, LedgerTransaction, TransactionType, TransactionStatus, returned,
}
use backend_ayak_bine.Ledger.Store.{
  find_wallet, find_reference, set_balance, add_balance, insert_transaction,
  update_transaction_proof, ◌>>◌,
}
use backend_ayak_bine.Ledger.Payin.{
  process_payin_credit, credit_row, credit_wallet, credited, is_creditable,
}
use backend_ayak_bine.Ledger.Service.{
  declare_row, declared, manual_credit_row, credit_manually, admin_manual_credit,
}
use backend_ayak_bine.Audit.{IsValid, Keeps, credit, debit}
use backend_ayak_bine.Audit.Rows.{
  UniqueIds, update_where-UniqueIds, update_where-UniqueReferences, update_where-Owned,
}
use backend_ayak_bine.Audit.Rules.{
  After-bind, After-set_balance, After-insert_transaction, After-update_transaction_proof,
  After-add_balance,
}
use backend_ayak_bine.Audit.Wallets.{balance_in-some, balance_in-none}
use backend_ayak_bine.Audit.Balance.{
  row_credit, row_debit, IsBalanced-insert, IsBalanced-insert_neutral, IsBalanced-update,
  IsBalanced-update_absent,
}

module _ (t : LedgerTransaction) (proof : Option Text) (q : LedgerTransaction → Bool) (db : Db)
    (v : IsValid db) (found : find q db.ledger ≡ some t) (payin : t.type ≡ TransactionType.pay_in)
    (creditable : is_creditable t.status ≡ true) where
  credited_balance :
      (b : ℕ)
      → b + t.amount + row_debit (credited proof t) + row_credit t
        ≡ b + row_debit t + row_credit (credited proof t)
  unfolding debit credit
  credited_balance b = ground arith

  credited_ids : UniqueIds (update_where (λ r. r.id == t.id) (credited proof) db.ledger)
  credited_ids =
      update_where-UniqueIds (λ r. r.id == t.id) (credited proof) (λ _. refl) db.ledger v.ids

  credit_wallet-IsValid : Keeps (credit_wallet t proof db)
  unfolding credit_wallet
  credit_wallet-IsValid =
      After-bind (λ _ db'. IsValid db') _ (add_balance t.user_id t.amount) db
        (After-add_balance _ db t.user_id t.amount
          (λ absent.
            After-bind (λ _ db'. IsValid db') _ (update_transaction_proof t (credited proof)) _
              (After-update_transaction_proof _ _ t (credited proof) (record {
                ids = credited_ids;
                references =
                    update_where-UniqueReferences (λ r. r.id == t.id) (credited proof) (λ _. refl)
                      db.ledger v.references;
                owners =
                    update_where-Owned db.users (λ r. r.id == t.id) (credited proof) (λ _. refl)
                      db.ledger v.owners;
                balanced =
                    IsBalanced-update_absent db.wallets db.ledger v.balanced t (credited proof) q
                      v.ids found refl (balance_in-none t.user_id db.wallets absent);
              })))
          (λ w held.
            After-bind (λ _ db'. IsValid db') _ (update_transaction_proof t (credited proof)) _
              (After-update_transaction_proof _ _ t (credited proof) (record {
                ids = credited_ids;
                references =
                    update_where-UniqueReferences (λ r. r.id == t.id) (credited proof) (λ _. refl)
                      db.ledger v.references;
                owners =
                    update_where-Owned db.users (λ r. r.id == t.id) (credited proof) (λ _. refl)
                      db.ledger v.owners;
                balanced =
                    IsBalanced-update db.wallets db.ledger v.balanced t (credited proof) q v.ids
                      found refl w.balance (w.balance + t.amount)
                      (balance_in-some t.user_id db.wallets w held) (credited_balance w.balance);
              }))))

-- The checks of `process_payin_credit` refuse, or the row is creditable.
credit_row-IsValid :
    (t : LedgerTransaction) (proof : Option Text) (confirmed : Option Decimal) (db : Db)
    → IsValid db
    → (is_creditable t.status ≡ true → Keeps (credit_wallet t proof db))
    → Keeps (credit_row t proof confirmed db)
unfolding credit_row
credit_row-IsValid t proof confirmed db v h = ground arith

-- Crediting a declared deposit keeps every account, whether the call succeeds or is refused.
pub process_payin_credit-IsValid :
    (reference : ℕ) (proof : Option Text) (confirmed : Option Decimal) (db : Db)
    → ((t : LedgerTransaction)
        → find_reference reference db ≡ some t
        → t.type ≡ TransactionType.pay_in)
    → IsValid db
    → Keeps (process_payin_credit reference proof confirmed db)
unfolding process_payin_credit
process_payin_credit-IsValid reference proof confirmed db payin v =
    elim (Option-cases (find_reference reference db)) [
      | inl e ↦ rw (e, process_payin_credit) v
      | inr (t, e) ↦
          rw (e, process_payin_credit)
            (credit_row-IsValid t proof confirmed db v
              (credit_wallet-IsValid t proof (λ r. r.reference == reference) db v e (payin t e)))
    ]

pending_neutral :
    (t : LedgerTransaction)
    → t.status ≡ TransactionStatus.pending
    → t.type ≡ TransactionType.pay_in
    → (row_credit t ≡ 0) × (row_debit t ≡ 0)
unfolding credit debit
pending_neutral t s p = ground arith

-- A new pending deposit counts for nothing.
pub insert_pending-Keeps :
    (t : LedgerTransaction) (db : Db)
    → t.status ≡ TransactionStatus.pending
    → t.type ≡ TransactionType.pay_in
    → IsValid db
    → Keeps (insert_transaction t db)
insert_pending-Keeps t db pending payin v =
    let zeros = pending_neutral t pending payin in
    After-insert_transaction (λ _ db'. IsValid db') db t
      λ new. record {
        ids = (new.fresh_id, v.ids);
        references = (new.fresh_reference, v.references);
        owners = (new.known_user, v.owners);
        balanced = IsBalanced-insert_neutral db.wallets db.ledger v.balanced t zeros.0 zeros.1;
      }

-- A declaration adds a pending deposit, or finds its proof in use.
pub declare_row-IsValid :
    (t : LedgerTransaction) (db : Db)
    → t.status ≡ TransactionStatus.pending
    → t.type ≡ TransactionType.pay_in
    → IsValid db
    → Keeps (declare_row t db)
unfolding declare_row
declare_row-IsValid t db pending payin v = ground (arith, v, inserted)
  where
    inserted : Keeps ((insert_transaction t >> returned (declared t.reference t.id)) db)
    inserted =
        After-bind (λ _ db'. IsValid db') _ (insert_transaction t) db
          (insert_pending-Keeps t db pending payin v)

module _ (tid reference uid : ℕ) (amount : Decimal) (reason : Text) (admin_id : ℕ) (db : Db)
    (v : IsValid db) where
  abbrev credit_entry : LedgerTransaction
  credit_entry = manual_credit_row tid reference uid amount reason admin_id

  manual_balance :
      (b : ℕ) → add_to_cents b amount + row_debit credit_entry ≡ b + row_credit credit_entry
  unfolding debit credit
  manual_balance b = omega (arith, add_to_cents_lem b amount)

  credit_manually-IsValid :
      (w : Wallet)
      → find_wallet uid db ≡ some w
      → Keeps (credit_manually w.balance tid reference uid amount reason admin_id db)
  unfolding credit_manually
  credit_manually-IsValid w held =
      After-bind (λ _ db'. IsValid db') _ (set_balance uid (add_to_cents w.balance amount)) db
        (After-set_balance _ db uid (add_to_cents w.balance amount) (
          After-bind (λ _ db'. IsValid db') _ (insert_transaction credit_entry) _
            (After-insert_transaction _ _ credit_entry λ new. record {
              ids = (new.fresh_id, v.ids);
              references = (new.fresh_reference, v.references);
              owners = (new.known_user, v.owners);
              balanced =
                  IsBalanced-insert db.wallets db.ledger v.balanced credit_entry w.balance
                    (add_to_cents w.balance amount) (balance_in-some uid db.wallets w held)
                    (manual_balance w.balance);
            })))

  -- A manual credit keeps every account, whatever the digits of its amount.
  pub admin_manual_credit-IsValid :
      Keeps (admin_manual_credit tid reference uid amount reason admin_id db)
  unfolding admin_manual_credit
  admin_manual_credit-IsValid = elim (Option-cases (find_wallet uid db)) [
    | inl e ↦ rw (e, admin_manual_credit) (ground (arith, v))
    | inr (w, e) ↦ rw (e, admin_manual_credit) (ground (arith, v, credit_manually-IsValid w e))
  ]
