-- ===== src/Audit/Book/Withdrawals.antt =====
-- What the SQL functions of withdrawals, process_payout_deduction and admin_process_payout, do to the book.
use backend_ayak_bine.Base.{
  ℕ, ◌≡◌, refl, true, false, Option, some, arith, inl, inr, Bool-cases, Option-cases, Text,
}
use backend_ayak_bine.Money.{Decimal, sub_to_cents, exceeds_cents}
use backend_ayak_bine.Money.Round.{HasCents, sub_to_cents_exact}
use backend_ayak_bine.Ledger.{
  Db, Wallet, LedgerTransaction, PaymentProvider, TransactionStatus, is_status,
}
use backend_ayak_bine.Ledger.Store.{
  find_wallet, find_transaction, set_balance, add_balance, insert_transaction, update_transaction,
  update_transaction_proof, insert_audit,
}
use backend_ayak_bine.Ledger.Payout.{
  reserve, settle, process_payout_deduction, Action, approve, reject, unknown, admin_process_payout,
  approved,
}
use backend_ayak_bine.Audit.Rules.{
  After-bind, After-set_balance, After-insert_transaction, After-update_transaction_proof,
  After-insert_audit, After-add_balance,
}
use backend_ayak_bine.Audit.Wallets.{balance_in-some}
use backend_ayak_bine.Audit.Book.{Effect, nothing, deposit, charge, Moves, deposited, charged}
use backend_ayak_bine.Audit.Book.Calls.{Does, stays, no_wallet}

module _ (P : Effect → Type 0) (db : Db) (idle : P nothing) where
  -- A withdrawal does nothing, or charges its amount to a balance that holds it.
  pub process_payout_deduction-Does :
      (tid uid : ℕ) (amount : Decimal) (c reference : ℕ) (provider : PaymentProvider) (phone : Text)
      → HasCents amount c
      → P (charge uid c)
      → Does P db (process_payout_deduction tid uid amount reference provider phone db)
  unfolding process_payout_deduction reserve
  process_payout_deduction-Does tid uid amount c reference provider phone h p =
      elim (Option-cases (find_wallet uid db)) [
        | inl e ↦ rw (e, process_payout_deduction) (stays P db idle)
        | inr (w, e) ↦ elim (Bool-cases (exceeds_cents w.balance amount)) [
          | inl short ↦ rw (e, process_payout_deduction) (rw short (stays P db idle))
          | inr enough ↦ rw (e, process_payout_deduction) (rw enough (reserved w e enough))
        ]
      ]
    where
      reserved :
          (w : Wallet)
          → find_wallet uid db ≡ some w
          → exceeds_cents w.balance amount ≡ false
          → Does P db (reserve tid uid w.balance amount reference provider phone db)
      reserved w e enough =
          let exact = sub_to_cents_exact w.balance amount c h enough in
          After-bind (λ _ db'. Moves P db db') _ (set_balance uid (sub_to_cents w.balance amount))
            db
            (After-set_balance _ db uid (sub_to_cents w.balance amount) (
              After-bind (λ _ db'. Moves P db db') _ (insert_transaction _) _
                (After-insert_transaction _ _ _ λ _. (
                  charge uid c,
                  p,
                  (w.balance, balance_in-some uid db.wallets w e, exact.0),
                  λ u. charged uid db.wallets w e (sub_to_cents w.balance amount) c u (omega arith),
                ))))

  approve-Does :
      (t : LedgerTransaction) (proof : Option Text) (admin_id : ℕ)
      → Does P db (settle approve t proof admin_id db)
  unfolding settle
  approve-Does t proof admin_id =
      After-bind (λ _ db'. Moves P db db') _ (update_transaction_proof t (approved proof)) db
        (After-update_transaction_proof _ db t (approved proof) (
          After-bind (λ _ db'. Moves P db db') _ (insert_audit _) _
            (After-insert_audit _ _ _ (nothing, idle, tt, λ u. refl))))

  reject-Does :
      (t : LedgerTransaction) (proof : Option Text) (admin_id : ℕ)
      → P (deposit t.user_id t.amount)
      → Does P db (settle reject t proof admin_id db)
  unfolding settle update_transaction
  reject-Does t proof admin_id p =
      After-bind (λ _ db'. Moves P db db') _ (add_balance t.user_id t.amount) db
        (After-add_balance _ db t.user_id t.amount
          (λ absent.
            After-bind (λ _ db'. Moves P db db') _ (insert_audit _) _
              (After-insert_audit _ _ _ (
                deposit t.user_id t.amount,
                p,
                tt,
                λ u. no_wallet P db idle t.user_id t.amount u absent,
              )))
          (λ w held.
            After-bind (λ _ db'. Moves P db db') _ (insert_audit _) _
              (After-insert_audit _ _ _ (
                deposit t.user_id t.amount,
                p,
                tt,
                λ u. deposited t.user_id db.wallets w held t.amount u,
              ))))

  settle-Does :
      (action : Action) (t : LedgerTransaction) (proof : Option Text) (admin_id : ℕ)
      → (action ≡ reject → P (deposit t.user_id t.amount))
      → Does P db (settle action t proof admin_id db)
  settle-Does approve t proof admin_id p = approve-Does t proof admin_id
  settle-Does reject t proof admin_id p = reject-Does t proof admin_id (p refl)
  settle-Does unknown t proof admin_id p = unfold settle in (stays P db idle)

  -- Settling a withdrawal does nothing, or rejects one that was pending and deposits its amount.
  pub admin_process_payout-Does :
      (tid : ℕ) (action : Action) (proof : Option Text) (admin_id : ℕ)
      → ((t : LedgerTransaction)
          → find_transaction tid db ≡ some t
          → is_status t.status TransactionStatus.pending ≡ true
          → action ≡ reject
          → P (deposit t.user_id t.amount))
      → Does P db (admin_process_payout tid action proof admin_id db)
  unfolding admin_process_payout
  admin_process_payout-Does tid action proof admin_id p =
      elim (Option-cases (find_transaction tid db)) [
        | inl e ↦ rw (e, admin_process_payout) (stays P db idle)
        | inr (t, e) ↦ elim (Bool-cases (is_status t.status TransactionStatus.pending)) [
          | inr settled ↦ rw (e, admin_process_payout) (rw settled (stays P db idle))
          | inl pending ↦
              rw (e, admin_process_payout)
                (rw pending (settle-Does action t proof admin_id (p t e pending)))
        ]
      ]
