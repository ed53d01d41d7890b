-- ===== src/Audit.antt =====
-- The accounting that the ledger promises: a wallet's balance is what its rows in ledger_transactions
-- say. Deposits and received transfers that succeeded count for it; withdrawals that are pending or
-- paid, and sent transfers with their fee, against it.
pub mod Rows
pub mod Rules
pub mod Wallets
pub mod Balance
pub mod Payin
pub mod Payout
pub mod Transfer
pub mod Accounts
pub mod Requests
pub mod Steps
pub mod Reach
pub mod Final
pub mod Refund
pub mod Conserved
pub mod Progress
pub mod Paid
pub mod Sent
pub mod Global
pub mod Book
use backend_ayak_bine.Base.{
  ℕ, ◌+◌, ◌≡◌, Bool, true, false, Option, none, some, List, [], ◌∷◌, ◌==◌, if◌then◌else◌, find,
  sum_by,
}
use backend_ayak_bine.Ledger.{
  Db, Exec, Wallet, LedgerTransaction, TransactionType, TransactionStatus, Metadata,
}
use Rows.{UniqueIds, UniqueReferences, Owned}
use Wallets.{balance_in}
use Rules.{After}

-- What a row adds to its user's balance.
unfoldable pub credit : TransactionType → TransactionStatus → Metadata → ℕ → ℕ
credit TransactionType.pay_in TransactionStatus.success m a = a
credit TransactionType.internal_transfer TransactionStatus.success Metadata.recipient a = a
credit _ _ _ _ = 0

-- What a row takes from it.
unfoldable pub debit : TransactionType → TransactionStatus → Metadata → ℕ → ℕ → ℕ
debit TransactionType.pay_out TransactionStatus.pending m a fee = a
debit TransactionType.pay_out TransactionStatus.success m a fee = a
debit TransactionType.internal_transfer TransactionStatus.success (Metadata.sender p) a fee =
    a + fee
debit _ _ _ _ _ = 0

abbrev pub credit_of : ℕ → LedgerTransaction → ℕ
credit_of u t = if t.user_id == u then credit t.type t.status t.metadata t.amount else 0

abbrev pub debit_of : ℕ → LedgerTransaction → ℕ
debit_of u t = if t.user_id == u then debit t.type t.status t.metadata t.amount t.fee else 0

-- Every wallet's balance and its debits make its credits.
abbrev pub IsBalanced : List Wallet → List LedgerTransaction → Type 0
IsBalanced ws ts =
    (u b : ℕ) → balance_in u ws ≡ some b → b + sum_by (debit_of u) ts ≡ sum_by (credit_of u) ts

pub record IsValid (db : Db) : Type 0 where
  pub ids : UniqueIds db.ledger
  pub references : UniqueReferences db.ledger
  pub owners : Owned db.users db.ledger
  pub balanced : IsBalanced db.wallets db.ledger

-- A call that keeps the accounts: if it returns, they are valid, and if it raises it is rolled back.
abbrev pub Keeps {ℓ} : {A : Type ℓ} → Exec A → Type 0
Keeps r = After (λ _ db. IsValid db) r
