-- ===== src/Audit/Final.antt =====
-- What app/wallet_service.py has settled stays settled (`finalize_payin`, `admin_process_payout`).
use backend_ayak_bine.Base.{
  ℕ, ◌≡◌, refl, sym, Bool, true, false, Option, some, List, [], ◌∷◌, ◌==◌, arith, inl, inr,
  Bool-cases, Option-cases, Text, update_where, find, ==_refl,
}
use mathlib.Core.Option.{some-injective}
use mathlib.Core.Path.{subst}
use backend_ayak_bine.Money.{Decimal}
use backend_ayak_bine.Ledger.{
  Db, LedgerTransaction, TransactionStatus, is_status, Exec, returned, Reply, success, failure,
  Message,
}
use backend_ayak_bine.Ledger.Store.{
  find_reference, find_transaction, add_balance, update_transaction_proof, update_transaction,
  insert_audit,
}
use backend_ayak_bine.Ledger.Payin.{
  PayinCredit, process_payin_credit, credit_row, credit_wallet, credited,
}
use backend_ayak_bine.Ledger.Payout.{
  Action, approve, reject, unknown, settle, approved, refunded, admin_process_payout,
}
use backend_ayak_bine.Audit.Rules.{
  After, After-bind, After-update_transaction, After-update_transaction_proof, After-insert_audit,
  After-add_balance,
}
use backend_ayak_bine.Audit.Rows.{find_transaction-id}

-- The row that is found and updated by its identifier is the updated one, if the update does not
-- touch what the search reads.
find-updated :
    (q : LedgerTransaction → Bool) (g : LedgerTransaction → LedgerTransaction)
    (same : (r : LedgerTransaction) → q (g r) ≡ q r) (ts : List LedgerTransaction)
    (t : LedgerTransaction)
    → find q ts ≡ some t
    → find q (update_where (λ r. r.id == t.id) g ts) ≡ some (g t)
find-updated q g same [] t h = cc
find-updated q g same (r ∷ ts) t h = elim (Bool-cases (q r)) [
  | inl e ↦
      subst (λ x. find q (update_where (λ y. y.id == x.id) g (r ∷ ts)) ≡ some (g x))
        (some-injective r t (rw e at h)) (rw (==_refl r.id) (rw (same r) (rw e refl)))
  | inr e ↦ ground (arith, e, same r, find-updated q g same ts t (rw e at h))
]

after-returned {ℓ κ} :
    {A : Type ℓ} (Q : A → Db → Type κ) (r : Exec A) (a : A) (db : Db)
    → After Q r
    → r ≡ returned a db
    → Q a db
after-returned Q r a db h e = subst (After Q) e h

-- A deposit that a reply calls credited is marked in the tables.
abbrev CreditedIn : ℕ → Reply PayinCredit → Db → Type 0
CreditedIn reference (failure m) db = Unit
CreditedIn reference (success c) db =
    (t : LedgerTransaction) × (find_reference reference db ≡ some t)
    × (is_status t.status TransactionStatus.success ≡ true)

credit_wallet-Credited :
    (reference : ℕ) (t : LedgerTransaction) (proof : Option Text) (db : Db)
    → find_reference reference db ≡ some t
    → After (CreditedIn reference) (credit_wallet t proof db)
unfolding credit_wallet
credit_wallet-Credited reference t proof db h =
    let marked =
      find-updated (λ r. r.reference == reference) (credited proof) (λ _. refl) db.ledger t h in
    After-bind (CreditedIn reference) _ (add_balance t.user_id t.amount) db (
      After-add_balance _ db t.user_id t.amount
        (λ absent.
          After-bind (CreditedIn reference) _ (update_transaction_proof t (credited proof)) _ (
            After-update_transaction_proof _ _ t (credited proof) (credited proof t, marked, refl)))
        (λ w held.
          After-bind (CreditedIn reference) _ (update_transaction_proof t (credited proof)) _ (
            After-update_transaction_proof _ _ t (credited proof)
              (credited proof t, marked, refl))))

credit_row-Credited :
    (reference : ℕ) (t : LedgerTransaction) (proof : Option Text) (confirmed : Option Decimal)
    (db : Db)
    → find_reference reference db ≡ some t
    → After (CreditedIn reference) (credit_row t proof confirmed db)
unfolding credit_row
credit_row-Credited reference t proof confirmed db h =
    ground (arith, credit_wallet-Credited reference t proof db h)

process_payin_credit-Credited :
    (reference : ℕ) (proof : Option Text) (confirmed : Option Decimal) (db : Db)
    → After (CreditedIn reference) (process_payin_credit reference proof confirmed db)
unfolding process_payin_credit
process_payin_credit-Credited reference proof confirmed db =
    elim (Option-cases (find_reference reference db)) [
      | inl e ↦ rw (e, process_payin_credit) tt
      | inr (t, e) ↦
          rw (e, process_payin_credit) (credit_row-Credited reference t proof confirmed db e)
    ]

refused_when_credited :
    (reference : ℕ) (proof : Option Text) (confirmed : Option Decimal) (db : Db)
    (t : LedgerTransaction)
    → find_reference reference db ≡ some t
    → is_status t.status TransactionStatus.success ≡ true
    → process_payin_credit reference proof confirmed db
      ≡ returned (failure Message.deja_creditee) db
unfolding process_payin_credit credit_row
refused_when_credited reference proof confirmed db t e s = rw (e, process_payin_credit) (rw s refl)

-- A deposit is credited at most once: after a call that has credited it, a second call with the same
-- reference, whatever its proof and its amount, is refused as already credited and changes no table.
pub process_payin_credit_once :
    (reference : ℕ) (proof proof' : Option Text) (confirmed confirmed' : Option Decimal)
    (db db' : Db) (c : PayinCredit)
    → process_payin_credit reference proof confirmed db ≡ returned (success c) db'
    → process_payin_credit reference proof' confirmed' db'
      ≡ returned (failure Message.deja_creditee) db'
process_payin_credit_once reference proof proof' confirmed confirmed' db db' c h =
    let (t, e, s) =
      after-returned (CreditedIn reference) (process_payin_credit reference proof confirmed db)
        (success c) db' (process_payin_credit-Credited reference proof confirmed db) h in
    refused_when_credited reference proof' confirmed' db' t e s

-- A withdrawal that a reply calls settled is no longer pending in the tables.
abbrev SettledIn : ℕ → Reply (Unit {0}) → Db → Type 0
SettledIn tid (failure m) db = Unit
SettledIn tid (success u) db =
    (t : LedgerTransaction) × (find_transaction tid db ≡ some t)
    × (is_status t.status TransactionStatus.pending ≡ false)

settle-Settled :
    (action : Action) (t : LedgerTransaction) (proof : Option Text) (admin_id : ℕ) (db : Db)
    → find_transaction t.id db ≡ some t
    → After (SettledIn t.id) (settle action t proof admin_id db)
unfolding settle
settle-Settled approve t proof admin_id db h =
    After-bind (SettledIn t.id) _ (update_transaction_proof t (approved proof)) db (
      After-update_transaction_proof _ db t (approved proof) (
        After-bind (SettledIn t.id) _ (insert_audit _) _ (
          After-insert_audit _ _ _ (
            approved proof t,
            find-updated (λ r. r.id == t.id) (approved proof) (λ _. refl) db.ledger t h,
            refl,
          ))))
settle-Settled reject t proof admin_id db h =
    let marked = find-updated (λ r. r.id == t.id) (refunded admin_id) (λ _. refl) db.ledger t h in
    After-bind (SettledIn t.id) _ (add_balance t.user_id t.amount) db (
      After-add_balance _ db t.user_id t.amount
        (λ absent. After-bind (SettledIn t.id) _ (update_transaction t.id (refunded admin_id)) _ (
          After-update_transaction _ _ t.id (refunded admin_id) (
            After-bind (SettledIn t.id) _ (insert_audit _) _
              (After-insert_audit _ _ _ (refunded admin_id t, marked, refl)))))
        (λ w held. After-bind (SettledIn t.id) _ (update_transaction t.id (refunded admin_id)) _ (
          After-update_transaction _ _ t.id (refunded admin_id) (
            After-bind (SettledIn t.id) _ (insert_audit _) _
              (After-insert_audit _ _ _ (refunded admin_id t, marked, refl))))))
settle-Settled unknown t proof admin_id db h = tt

admin_process_payout-Settled :
    (tid : ℕ) (action : Action) (proof : Option Text) (admin_id : ℕ) (db : Db)
    → After (SettledIn tid) (admin_process_payout tid action proof admin_id db)
unfolding admin_process_payout
admin_process_payout-Settled tid action proof admin_id db =
    elim (Option-cases (find_transaction tid db)) [
      | inl e ↦ rw (e, admin_process_payout) tt
      | inr (t, e) ↦ elim (Bool-cases (is_status t.status TransactionStatus.pending)) [
        | inl p ↦
            rw (e, admin_process_payout)
              (rw p (
                subst (λ i. After (SettledIn i) (settle action t proof admin_id db))
                  (find_transaction-id tid db.ledger t e)
                  (settle-Settled action t proof admin_id db (
                    subst (λ i. find_transaction i db ≡ some t)
                      (sym (find_transaction-id tid db.ledger t e)) e))))
        | inr p ↦ rw (e, admin_process_payout) (rw p tt)
      ]
    ]

refused_when_settled :
    (tid : ℕ) (action : Action) (proof : Option Text) (admin_id : ℕ) (db : Db)
    (t : LedgerTransaction)
    → find_transaction tid db ≡ some t
    → is_status t.status TransactionStatus.pending ≡ false
    → admin_process_payout tid action proof admin_id db ≡ returned (failure Message.deja_traitee) db
unfolding admin_process_payout
refused_when_settled tid action proof admin_id db t e s = rw (e, admin_process_payout) (rw s refl)

-- A withdrawal is settled at most once: after a call that has approved or refunded it, a second call,
-- whatever its action, its proof and its administrator, is refused as already settled and changes no table.
pub admin_process_payout_once :
    (tid : ℕ) (action action' : Action) (proof proof' : Option Text) (admin_id admin_id' : ℕ)
    (db db' : Db)
    → admin_process_payout tid action proof admin_id db ≡ returned (success tt) db'
    → admin_process_payout tid action' proof' admin_id' db'
      ≡ returned (failure Message.deja_traitee) db'
admin_process_payout_once tid action action' proof proof' admin_id admin_id' db db' h =
    let (t, e, s) =
      after-returned (SettledIn tid) (admin_process_payout tid action proof admin_id db)
        (success tt) db' (admin_process_payout-Settled tid action proof admin_id db) h in
    refused_when_settled tid action' proof' admin_id' db' t e s
