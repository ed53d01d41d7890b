-- ===== src/Audit/Paid.antt =====
-- What `process_payin_credit` (app/wallet_service.py) does when nothing stands against a deposit.
use backend_ayak_bine.Base.{
  ℕ, ◌+◌, ◌<◌, ◌≡◌, ◌≢◌, ◌⊎◌, inl, inr, refl, ap, Bool, true, false, not, ◌&&◌, Option, none, some,
  List, [], ◌∷◌, ◌==◌, Text, text_eq, text_eq_sound, update_where, exists, ◌∙◌, sym, All, coalesce,
  Option-cases, Bool-cases, arith,
}
use backend_ayak_bine.Money.{Decimal, equals_cents}
use backend_ayak_bine.Money.Round.{HasCents}
use backend_ayak_bine.Ledger.{
  Db, Wallet, LedgerTransaction, TransactionStatus, PaymentProvider, is_status, returned, success,
}
use backend_ayak_bine.Ledger.Store.{
  numeric_limit, find_wallet, find_reference, add_balance, update_transaction_proof, proof_taken,
  has_proof, longer_than,
}
use backend_ayak_bine.Ledger.Payin.{
  PayinCredit, credited, is_creditable, amount_differs, credit_wallet, credit_row,
  process_payin_credit,
}
use backend_ayak_bine.Audit.Wallets.{with_balance}
use backend_ayak_bine.Audit.Progress.{set_balance_returns, then_returns}

-- The row `r` is the deposit itself, or holds neither of the two proofs.
abbrev pub Apart : LedgerTransaction → Option Text → LedgerTransaction → Type 0
Apart t proof r =
    ((r.id ≡ t.id) × (r.reference ≡ t.reference))
    ⊎ ((p : Text) → r.proof_ref ≡ some p → (proof ≢ some p) × (t.proof_ref ≢ some p))

-- No amount is confirmed, or one of exactly that many hundredths.
abbrev pub Confirms : ℕ → Option Decimal → Type 0
Confirms cents none = Unit
Confirms cents (some x) = HasCents x cents

open-creditable :
    (s : TransactionStatus)
    → (s ≡ TransactionStatus.pending) ⊎ (s ≡ TransactionStatus.failed)
    → is_creditable s ≡ true
open-creditable s (inl e) = rw e refl
open-creditable s (inr e) = rw e refl

has_proof-none :
    (p : PaymentProvider) (proof : Text) (r : LedgerTransaction)
    → ((q : Text) → r.proof_ref ≡ some q → q ≢ proof)
    → has_proof p proof r ≡ false
has_proof-none p proof r h = elim (Option-cases r.proof_ref) [
  | inl e ↦ rw e refl
  | inr (q, e) ↦ elim (Bool-cases (text_eq q proof)) [
    | inl same ↦ absurd (h q e (text_eq_sound q proof same))
    | inr other ↦ rw e (rw other (ground arith))
  ]
]

used_row :
    (t : LedgerTransaction) (p : Text) (r : LedgerTransaction)
    → Apart t (some p) r
    → (has_proof t.provider p r && not (r.reference == t.reference)) ≡ false
used_row t p r (inl (_, e)) = ground (arith, e)
used_row t p r (inr h) =
    rw (has_proof-none t.provider p r (λ q e same. (h q e).0 (ap (λ x. some x) (sym same)))) refl

Apart-unused :
    (t : LedgerTransaction) (proof : Option Text) (rows : List LedgerTransaction)
    → All (Apart t proof) rows
    → elim proof as (λ _. Bool) [
      | none ↦ false
      | some p ↦ exists (λ r. has_proof t.provider p r && not (r.reference == t.reference)) rows
    ]
      ≡ false
Apart-unused t none rows h = refl
Apart-unused t (some p) [] h = refl
Apart-unused t (some p) (r ∷ rows) (a, h) = rw (used_row t p r a) (Apart-unused t (some p) rows h)

-- Of the two proofs, the one that the row keeps.
coalesce-Apart :
    (t : LedgerTransaction) (proof : Option Text) (p : Text) (r : LedgerTransaction)
    → Apart t proof r
    → coalesce t.proof_ref proof ≡ some p
    → (not (r.id == t.id) && has_proof t.provider p r) ≡ false
coalesce-Apart t proof p r (inl (e, _)) kept = ground (arith, e)
coalesce-Apart t proof p r (inr h) kept =
    rw (has_proof-none t.provider p r (λ q e same. either q (h q e) same)) (ground arith)
  where
    either : (q : Text) → (proof ≢ some q) × (t.proof_ref ≢ some q) → q ≢ p
    either q (a, b) same = elim (Option-cases t.proof_ref) [
      | inl e ↦ a (cc (e, kept, same))
      | inr (x, e) ↦ b (cc (e, kept, same))
    ]

taken_rows :
    (t : LedgerTransaction) (proof : Option Text) (p : Text) (rows : List LedgerTransaction)
    → coalesce t.proof_ref proof ≡ some p
    → All (Apart t proof) rows
    → exists (λ r. not (r.id == t.id) && has_proof t.provider p r) rows ≡ false
taken_rows t proof p [] kept h = refl
taken_rows t proof p (r ∷ rows) kept (a, h) =
    rw (coalesce-Apart t proof p r a kept) (taken_rows t proof p rows kept h)

Apart-free :
    (t : LedgerTransaction) (proof : Option Text) (rows : List LedgerTransaction)
    → All (Apart t proof) rows
    → proof_taken (credited proof t) rows ≡ false
unfolding proof_taken
Apart-free t proof rows h = elim (Option-cases (coalesce t.proof_ref proof)) [
  | inl e ↦ rw e refl
  | inr (p, e) ↦ rw e (taken_rows t proof p rows e h)
]

Confirms-same :
    (t : LedgerTransaction) (confirmed : Option Decimal)
    → Confirms t.amount confirmed
    → amount_differs t confirmed ≡ false
unfolding equals_cents
Confirms-same t none h = refl
Confirms-same t (some x) h = ground (arith, h)

module _ (reference : ℕ) (proof : Option Text) (confirmed : Option Decimal) (db : Db)
    (t : LedgerTransaction) (w : Wallet) where
  abbrev pub after_credit : Db
  after_credit = record db {
    wallets = with_balance t.user_id (w.balance + t.amount) db.wallets;
    ledger = update_where (λ r. r.id == t.id) (credited proof) db.ledger;
  }

  abbrev after_deposit : Db
  after_deposit = record db { wallets = after_credit.wallets }

  creditable_open :
      (s : TransactionStatus)
      → is_creditable s ≡ true
      → is_status s TransactionStatus.success ≡ false
  creditable_open TransactionStatus.pending h = refl
  creditable_open TransactionStatus.success h = sym h
  creditable_open TransactionStatus.failed h = refl
  creditable_open TransactionStatus.cancelled h = refl
  creditable_open TransactionStatus.reversed h = refl

  add_returns :
      find_wallet t.user_id db ≡ some w
      → w.balance + t.amount < numeric_limit
      → add_balance t.user_id t.amount db ≡ returned tt after_deposit
  unfolding add_balance
  add_returns held fits =
      rw (held, add_balance) (set_balance_returns t.user_id (w.balance + t.amount) db fits)

  update_returns :
      longer_than 100 (coalesce t.proof_ref proof) ≡ false
      → proof_taken (credited proof t) db.ledger ≡ false
      → update_transaction_proof t (credited proof) after_deposit ≡ returned tt after_credit
  unfolding update_transaction_proof
  update_returns short free = rw (short, update_transaction_proof) (rw free refl)

  abbrev receipt : PayinCredit
  receipt = record {
    transaction_id = t.id;
    credited_amount = t.amount;
    new_balance = some (w.balance + t.amount);
  }

  credits :
      longer_than 100 (coalesce t.proof_ref proof) ≡ false
      → proof_taken (credited proof t) db.ledger ≡ false
      → find_wallet t.user_id db ≡ some w
      → w.balance + t.amount < numeric_limit
      → credit_wallet t proof db ≡ returned (success receipt) after_credit
  unfolding credit_wallet
  credits short free held fits =
      then_returns (add_balance t.user_id t.amount) _ db after_deposit (add_returns held fits)
      ∙ then_returns (update_transaction_proof t (credited proof)) _ after_deposit after_credit
          (update_returns short free)
      ∙ rw held refl

  -- A declared deposit that is pending, or has failed, is credited when it is confirmed, if no other row holds
  -- the proof that is given or the one that the row has, that proof has at most 100 characters, the confirmed
  -- amount is none or the row's to the hundredth, and the balance stays within its column: the user's balance
  -- grows by the amount, and the row has succeeded.
  pub process_payin_credit_accepted :
      find_reference reference db ≡ some t
      → (t.status ≡ TransactionStatus.pending) ⊎ (t.status ≡ TransactionStatus.failed)
      → All (Apart t proof) db.ledger
      → longer_than 100 (coalesce t.proof_ref proof) ≡ false
      → Confirms t.amount confirmed
      → find_wallet t.user_id db ≡ some w
      → w.balance + t.amount < numeric_limit
      → process_payin_credit reference proof confirmed db
        ≡ returned
            (success (record {
              transaction_id = t.id;
              credited_amount = t.amount;
              new_balance = some (w.balance + t.amount);
            }))
            after_credit
  unfolding process_payin_credit credit_row
  process_payin_credit_accepted found status apart short confirms held fits =
      let creditable = open-creditable t.status status in
      let unused = Apart-unused t proof db.ledger apart in
      let free = Apart-free t proof db.ledger apart in
      let same = Confirms-same t confirmed confirms in
      let not_yet : is_status t.status TransactionStatus.success ≡ false =
        creditable_open t.status creditable in
      rw (found, process_payin_credit)
        (rw (not_yet, credit_row)
          (rw creditable (rw unused (rw same (credits short free held fits)))))
