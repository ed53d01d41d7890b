-- ===== src/Audit/Rules.antt =====
-- Postconditions of the statements of app/wallet_service.py's SQL functions, and the rule for sequence.
use backend_ayak_bine.Base.{
  ℕ, ◌≡◌, refl, Bool, true, false, none, some, ◌∷◌, ◌==◌, if◌then◌else◌, arith, exists,
  update_where, Option-cases, inl, inr, ◌+◌,
}
use backend_ayak_bine.Ledger.{Db, Wallet, LedgerTransaction, AdminAuditLog, Exec, returned, raised}
use backend_ayak_bine.Audit.Wallets.{with_balance}
use backend_ayak_bine.Ledger.Store.{
  ◌>>=◌, insert_violation, set_balance, add_balance, insert_transaction, insert_audit,
  update_transaction, update_transaction_proof, find_wallet,
}

-- What holds of the result and the tables if the call returns; a call that raises is rolled back.
abbrev pub After {ℓ κ} : {A : Type ℓ} → (A → Db → Type κ) → Exec A → Type κ
After Q (returned a db) = Q a db
After Q (raised e) = Unit

After-step {ℓ κ μ} :
    {A : Type ℓ} {B : Type κ} (Q : B → Db → Type μ) (f : A → Db → Exec B) (r : Exec A)
    → After (λ a db'. After Q (f a db')) r
    → After Q (elim r [ returned a db' ↦ f a db' | raised e ↦ raised e ])
After-step Q f (returned a db') h = h
After-step Q f (raised e) h = tt

pub After-bind {ℓ κ μ} :
    {A : Type ℓ} {B : Type κ} (Q : B → Db → Type μ) (f : A → Db → Exec B) (m : Db → Exec A)
    (db : Db)
    → After (λ a db'. After Q (f a db')) (m db)
    → After Q ((m >>= f) db)
After-bind Q f m db h = After-step Q f (m db) h

-- What an INSERT that returns has checked of its row.
pub record Inserted (t : LedgerTransaction) (db : Db) : Type 0 where
  pub fresh_id : exists (λ r. r.id == t.id) db.ledger ≡ false
  pub fresh_reference : exists (λ r. r.reference == t.reference) db.ledger ≡ false
  pub known_user : exists (λ u. u.id == t.user_id) db.users ≡ true

insert_violation-Inserted :
    (t : LedgerTransaction) (db : Db) → insert_violation t db ≡ none → Inserted t db
unfolding insert_violation
insert_violation-Inserted t db h = ground arith

-- A branch, with what its test says.
pub After-if {ℓ κ} :
    {A : Type ℓ} (Q : A → Db → Type κ) (b : Bool) (x y : Exec A)
    → (b ≡ true → After Q x)
    → (b ≡ false → After Q y)
    → After Q (if b then x else y)
After-if Q true x y h k = h refl
After-if Q false x y h k = k refl

module _ {ℓ} (Q : Unit {0} → Db → Type ℓ) (db : Db) where
  pub After-set_balance :
      (uid b : ℕ)
      → Q tt (record db { wallets = with_balance uid b db.wallets })
      → After Q (set_balance uid b db)
  unfolding set_balance
  After-set_balance uid b h = ground arith

  -- An INSERT that returns has put a row that meets the constraints on top.
  pub After-insert_transaction :
      (t : LedgerTransaction)
      → (Inserted t db → Q tt (record db { ledger = t ∷ db.ledger }))
      → After Q (insert_transaction t db)
  unfolding insert_transaction
  After-insert_transaction t h = elim (Option-cases (insert_violation t db)) [
    | inl e ↦ rw (e, insert_transaction) (h (insert_violation-Inserted t db e))
    | inr (x, e) ↦ rw (e, insert_transaction) tt
  ]

  pub After-update_transaction_proof :
      (t : LedgerTransaction) (f : LedgerTransaction → LedgerTransaction)
      → Q tt (record db { ledger = update_where (λ r. r.id == t.id) f db.ledger })
      → After Q (update_transaction_proof t f db)
  unfolding update_transaction_proof
  After-update_transaction_proof t f h = ground arith

  pub After-update_transaction :
      (tid : ℕ) (f : LedgerTransaction → LedgerTransaction)
      → Q tt (record db { ledger = update_where (λ r. r.id == tid) f db.ledger })
      → After Q (update_transaction tid f db)
  unfolding update_transaction
  After-update_transaction tid f h = h

  pub After-insert_audit :
      (a : AdminAuditLog) → Q tt (record db { audit = a ∷ db.audit }) → After Q (insert_audit a db)
  unfolding insert_audit
  After-insert_audit a h = ground arith

  -- A credit of a wallet that is not there changes nothing.
  pub After-add_balance :
      (uid v : ℕ)
      → (find_wallet uid db ≡ none → Q tt db)
      → ((w : Wallet)
          → find_wallet uid db ≡ some w
          → Q tt (record db { wallets = with_balance uid (w.balance + v) db.wallets }))
      → After Q (add_balance uid v db)
  unfolding add_balance
  After-add_balance uid v h k = elim (Option-cases (find_wallet uid db)) [
    | inl e ↦ rw (e, add_balance) (h e)
    | inr (w, e) ↦ rw (e, add_balance) (After-set_balance uid (w.balance + v) (k w e))
  ]
