-- ===== src/Audit/Payout.antt =====
-- The withdrawals of app/wallet_service.py (`request_payout`, `admin_process_payout`) keep the account of
-- every wallet.
use backend_ayak_bine.Base.{
  ℕ, ◌+◌, ◌≡◌, refl, sym, true, false, Option, some, ◌==◌, arith, inl, inr, Bool-cases,
  Option-cases, Text, update_where,
}
use backend_ayak_bine.Money.{Decimal, exceeds_cents, sub_to_cents}
use backend_ayak_bine.Money.Round.{HasCents, to_cents_exact, sub_to_cents_exact}
use backend_ayak_bine.Ledger.{
  Db, Wallet, LedgerTransaction, TransactionType, TransactionStatus, PaymentProvider, is_status,
}
use backend_ayak_bine.Ledger.Store.{
  find_wallet, find_transaction, set_balance, add_balance, update_transaction,
  update_transaction_proof, insert_audit, insert_transaction,
}
use backend_ayak_bine.Ledger.Payout.{
  reserve, settle, process_payout_deduction, pending_payout, Action, approve, reject, unknown,
  admin_process_payout, approved, refunded,
}
use backend_ayak_bine.Audit.{IsValid, Keeps, credit, debit}
use mathlib.Core.Path.{subst}
use backend_ayak_bine.Audit.Rows.{
  UniqueIds, find_transaction-id, update_where-UniqueIds, update_where-UniqueReferences,
  update_where-Owned,
}
use backend_ayak_bine.Audit.Rules.{
  After-bind, After-set_balance, After-insert_transaction, After-update_transaction_proof,
  After-insert_audit, After-add_balance,
}
use backend_ayak_bine.Audit.Wallets.{balance_in-some, balance_in-none}
use backend_ayak_bine.Audit.Balance.{
  row_credit, row_debit, IsBalanced-insert, IsBalanced-update, IsBalanced-update_absent,
  IsBalanced-update_kept,
}

module _ (tid uid : ℕ) (amount : Decimal) (c reference : ℕ) (provider : PaymentProvider)
    (phone : Text) (db : Db) where
  abbrev row : LedgerTransaction
  row = pending_payout tid uid amount reference provider phone

  reserve_balance :
      (w : Wallet)
      → HasCents amount c
      → exceeds_cents w.balance amount ≡ false
      → sub_to_cents w.balance amount + debit row.type row.status row.metadata row.amount row.fee
        ≡ w.balance + credit row.type row.status row.metadata row.amount
  unfolding debit credit
  reserve_balance w h e =
      omega (arith, to_cents_exact amount c h, sub_to_cents_exact w.balance amount c h e)

  reserve-IsValid :
      (w : Wallet)
      → HasCents amount c
      → IsValid db
      → find_wallet uid db ≡ some w
      → exceeds_cents w.balance amount ≡ false
      → Keeps (reserve tid uid w.balance amount reference provider phone db)
  unfolding reserve
  reserve-IsValid w h v found enough =
      After-bind (λ _ db'. IsValid db') _ (set_balance uid (sub_to_cents w.balance amount)) db
        (After-set_balance _ db uid (sub_to_cents w.balance amount) (
          After-bind (λ _ db'. IsValid db') _ (insert_transaction row) _
            (After-insert_transaction _ _ row λ new. record {
              ids = (new.fresh_id, v.ids);
              references = (new.fresh_reference, v.references);
              owners = (new.known_user, v.owners);
              balanced =
                  IsBalanced-insert db.wallets db.ledger v.balanced row w.balance
                    (sub_to_cents w.balance amount) (balance_in-some uid db.wallets w found)
                    (reserve_balance w h enough);
            })))

  -- A withdrawal of an amount with at most two decimals keeps every account.
  pub process_payout_deduction-IsValid :
      HasCents amount c
      → IsValid db
      → Keeps (process_payout_deduction tid uid amount reference provider phone db)
  unfolding process_payout_deduction
  process_payout_deduction-IsValid h v = elim (Option-cases (find_wallet uid db)) [
    | inl e ↦ rw (e, process_payout_deduction) v
    | inr (w, e) ↦ elim (Bool-cases (exceeds_cents w.balance amount)) [
      | inl short ↦ rw (e, process_payout_deduction) (rw short v)
      | inr enough ↦ rw (e, process_payout_deduction) (rw enough (reserve-IsValid w h v e enough))
    ]
  ]

module _ (t : LedgerTransaction) (proof : Option Text) (admin_id : ℕ) (db : Db) (v : IsValid db)
    (found : find_transaction t.id db ≡ some t) (payout : t.type ≡ TransactionType.pay_out)
    (pending : is_status t.status TransactionStatus.pending ≡ true) where
  approved_kept :
      row_debit (approved proof t) + row_credit t ≡ row_debit t + row_credit (approved proof t)
  unfolding debit credit
  approved_kept = ground arith

  refunded_kept :
      (b : ℕ)
      → b + t.amount + row_debit (refunded admin_id t) + row_credit t
        ≡ b + row_debit t + row_credit (refunded admin_id t)
  unfolding debit credit
  refunded_kept b = ground arith

  approve-IsValid : Keeps (settle approve t proof admin_id db)
  unfolding settle
  approve-IsValid =
      After-bind (λ _ db'. IsValid db') _ (update_transaction_proof t (approved proof)) db
        (After-update_transaction_proof _ db t (approved proof) (
          After-bind (λ _ db'. IsValid db') _ (insert_audit _) _
            (After-insert_audit _ _ _ (record {
              ids =
                  update_where-UniqueIds (λ r. r.id == t.id) (approved proof) (λ _. refl) db.ledger
                    v.ids;
              references =
                  update_where-UniqueReferences (λ r. r.id == t.id) (approved proof) (λ _. refl)
                    db.ledger v.references;
              owners =
                  update_where-Owned db.users (λ r. r.id == t.id) (approved proof) (λ _. refl)
                    db.ledger v.owners;
              balanced =
                  IsBalanced-update_kept db.wallets db.ledger v.balanced t (approved proof)
                    (λ r. r.id == t.id) v.ids found refl approved_kept;
            }))))

  refund_ids : UniqueIds (update_where (λ r. r.id == t.id) (refunded admin_id) db.ledger)
  refund_ids =
      update_where-UniqueIds (λ r. r.id == t.id) (refunded admin_id) (λ _. refl) db.ledger v.ids

  reject-IsValid : Keeps (settle reject t proof admin_id db)
  unfolding settle update_transaction
  reject-IsValid =
      After-bind (λ _ db'. IsValid db') _ (add_balance t.user_id t.amount) db
        (After-add_balance _ db t.user_id t.amount
          (λ absent.
            After-bind (λ _ db'. IsValid db') _ (insert_audit _) _
              (After-insert_audit _ _ _ (record {
                ids = refund_ids;
                references =
                    update_where-UniqueReferences (λ r. r.id == t.id) (refunded admin_id)
                      (λ _. refl) db.ledger v.references;
                owners =
                    update_where-Owned db.users (λ r. r.id == t.id) (refunded admin_id) (λ _. refl)
                      db.ledger v.owners;
                balanced =
                    IsBalanced-update_absent db.wallets db.ledger v.balanced t (refunded admin_id)
                      (λ r. r.id == t.id) v.ids found refl
                      (balance_in-none t.user_id db.wallets absent);
              })))
          (λ w held.
            After-bind (λ _ db'. IsValid db') _ (insert_audit _) _
              (After-insert_audit _ _ _ (record {
                ids = refund_ids;
                references =
                    update_where-UniqueReferences (λ r. r.id == t.id) (refunded admin_id)
                      (λ _. refl) db.ledger v.references;
                owners =
                    update_where-Owned db.users (λ r. r.id == t.id) (refunded admin_id) (λ _. refl)
                      db.ledger v.owners;
                balanced =
                    IsBalanced-update db.wallets db.ledger v.balanced t (refunded admin_id)
                      (λ r. r.id == t.id) v.ids found refl w.balance (w.balance + t.amount)
                      (balance_in-some t.user_id db.wallets w held) (refunded_kept w.balance);
              }))))

  settle-IsValid : (action : Action) → Keeps (settle action t proof admin_id db)
  settle-IsValid approve = approve-IsValid
  settle-IsValid reject = reject-IsValid
  settle-IsValid unknown = unfold settle in v

-- Settling a withdrawal keeps every account: an approval changes no balance, and a rejection gives
-- back what the withdrawal had taken.
pub admin_process_payout-IsValid :
    (tid : ℕ) (action : Action) (proof : Option Text) (admin_id : ℕ) (db : Db)
    → ((t : LedgerTransaction)
        → find_transaction tid db ≡ some t
        → t.type ≡ TransactionType.pay_out)
    → IsValid db
    → Keeps (admin_process_payout tid action proof admin_id db)
unfolding admin_process_payout
admin_process_payout-IsValid tid action proof admin_id db payout v =
    elim (Option-cases (find_transaction tid db)) [
      | inl e ↦ rw (e, admin_process_payout) v
      | inr (t, e) ↦ elim (Bool-cases (is_status t.status TransactionStatus.pending)) [
        | inl p ↦
            rw (e, admin_process_payout)
              (rw p (
                settle-IsValid t proof admin_id db v
                  (subst (λ i. find_transaction i db ≡ some t)
                    (sym (find_transaction-id tid db.ledger t e)) e)
                  (payout t e) p action))
        | inr p ↦ rw (e, admin_process_payout) (rw p v)
      ]
    ]
