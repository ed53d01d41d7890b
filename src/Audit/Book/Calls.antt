-- ===== src/Audit/Book/Calls.antt =====
-- What the deposits of app/wallet_service.py do to the book, and calls that add a row alone.
use backend_ayak_bine.Base.{
  ℕ, ◌≡◌, refl, true, Option, none, some, ◌==◌, arith, inl, inr, Option-cases, Text, if◌then◌else◌,
}
use backend_ayak_bine.Money.{Decimal, to_cents, add_to_cents}
use backend_ayak_bine.Money.Round.{add_to_cents_lem}
use backend_ayak_bine.Ledger.{Db, Wallet, LedgerTransaction, Exec, returned}
use backend_ayak_bine.Ledger.Store.{
  find_wallet, find_reference, set_balance, add_balance, insert_transaction,
  update_transaction_proof, ◌>>◌,
}
use backend_ayak_bine.Ledger.Payin.{
  process_payin_credit, credit_row, credit_wallet, credited, is_creditable,
}
use backend_ayak_bine.Ledger.Service.{declare_row, declared, credit_manually, admin_manual_credit}
use backend_ayak_bine.Audit.Rules.{
  After, After-bind, After-set_balance, After-insert_transaction, After-update_transaction_proof,
  After-add_balance,
}
use backend_ayak_bine.Audit.Wallets.{wallet_in, balance_in, balance_in-none}
use backend_ayak_bine.Audit.Book.{Effect, nothing, deposit, plus, Moves, deposited}

-- The effects that `P` admits are all that a call does; one that raises is rolled back.
abbrev pub Does {ℓ} : {A : Type ℓ} → (Effect → Type 0) → Db → Exec A → Type 0
Does P db r = After (λ _ db'. Moves P db db') r

module _ (P : Effect → Type 0) (db : Db) (idle : P nothing) where
  pub stays : Moves P db db
  stays = (nothing, idle, tt, λ u. refl)

  pub no_wallet :
      (uid a u : ℕ)
      → wallet_in uid db.wallets ≡ none
      → balance_in u db.wallets
        ≡ (if uid == u then plus a (balance_in u db.wallets) else balance_in u db.wallets)
  no_wallet uid a u h = ground (arith, balance_in-none uid db.wallets h)

  -- A new row of the ledger leaves the book as it is.
  pub insert_transaction-Does : (t : LedgerTransaction) → Does P db (insert_transaction t db)
  insert_transaction-Does t = After-insert_transaction _ db t λ _. (nothing, idle, tt, λ u. refl)

  pub declare_row-Does : (t : LedgerTransaction) → Does P db (declare_row t db)
  unfolding declare_row
  declare_row-Does t = ground (arith, stays, inserted)
    where
      inserted : Does P db ((insert_transaction t >> returned (declared t.reference t.id)) db)
      inserted =
          After-bind (λ _ db'. Moves P db db') _ (insert_transaction t) db
            (insert_transaction-Does t)

  credit_wallet-Does :
      (t : LedgerTransaction) (proof : Option Text)
      → P (deposit t.user_id t.amount)
      → Does P db (credit_wallet t proof db)
  unfolding credit_wallet
  credit_wallet-Does t proof p =
      After-bind (λ _ db'. Moves P db db') _ (add_balance t.user_id t.amount) db
        (After-add_balance _ db t.user_id t.amount
          (λ absent.
            After-bind (λ _ db'. Moves P db db') _ (update_transaction_proof t (credited proof)) _
              (After-update_transaction_proof _ _ t (credited proof)
                (deposit t.user_id t.amount, p, tt, λ u. no_wallet t.user_id t.amount u absent)))
          (λ w held.
            After-bind (λ _ db'. Moves P db db') _ (update_transaction_proof t (credited proof)) _
              (After-update_transaction_proof _ _ t (credited proof) (
                deposit t.user_id t.amount,
                p,
                tt,
                λ u. deposited t.user_id db.wallets w held t.amount u,
              ))))

  credit_row-Does :
      (t : LedgerTransaction) (proof : Option Text) (confirmed : Option Decimal)
      → (is_creditable t.status ≡ true → P (deposit t.user_id t.amount))
      → Does P db (credit_row t proof confirmed db)
  unfolding credit_row
  credit_row-Does t proof confirmed p =
      ground (arith, stays, λ (h : is_creditable t.status ≡ true). credit_wallet-Does t proof (p h))

  -- Crediting a declared deposit does nothing, or deposits the amount of its row, which is pending or has failed.
  pub process_payin_credit-Does :
      (reference : ℕ) (proof : Option Text) (confirmed : Option Decimal)
      → ((t : LedgerTransaction)
          → find_reference reference db ≡ some t
          → is_creditable t.status ≡ true
          → P (deposit t.user_id t.amount))
      → Does P db (process_payin_credit reference proof confirmed db)
  unfolding process_payin_credit
  process_payin_credit-Does reference proof confirmed p =
      elim (Option-cases (find_reference reference db)) [
        | inl e ↦ rw (e, process_payin_credit) stays
        | inr (t, e) ↦ rw (e, process_payin_credit) (credit_row-Does t proof confirmed (p t e))
      ]

  -- A manual credit does nothing, or deposits its amount.
  pub admin_manual_credit-Does :
      (tid reference uid : ℕ) (amount : Decimal) (reason : Text) (admin_id : ℕ)
      → P (deposit uid (to_cents amount))
      → Does P db (admin_manual_credit tid reference uid amount reason admin_id db)
  unfolding admin_manual_credit credit_manually
  admin_manual_credit-Does tid reference uid amount reason admin_id p =
      elim (Option-cases (find_wallet uid db)) [
        | inl e ↦ rw (e, admin_manual_credit) (ground (arith, stays))
        | inr (w, e) ↦ rw (e, admin_manual_credit) (ground (arith, stays, credit w e))
      ]
    where
      credit :
          (w : Wallet)
          → find_wallet uid db ≡ some w
          → Does P db (credit_manually w.balance tid reference uid amount reason admin_id db)
      credit w e =
          After-bind (λ _ db'. Moves P db db') _ (set_balance uid (add_to_cents w.balance amount))
            db
            (After-set_balance _ db uid (add_to_cents w.balance amount) (
              After-bind (λ _ db'. Moves P db db') _ (insert_transaction _) _
                (After-insert_transaction _ _ _ λ _. (
                  deposit uid (to_cents amount),
                  p,
                  tt,
                  λ u.
                      rw (add_to_cents_lem w.balance amount)
                        (deposited uid db.wallets w e (to_cents amount) u),
                ))))
