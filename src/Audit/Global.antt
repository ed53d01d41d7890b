-- ===== src/Audit/Global.antt =====
-- The global balance of the dashboard (app/api_admin.py) is what the rows of all users say.
use backend_ayak_bine.Base.{
  ℕ, ◌+◌, ◌≡◌, refl, true, false, some, List, [], ◌∷◌, ◌==◌, arith, if◌then◌else◌, sum_by, exists,
  All, ==_iff, ==_refl, inl, inr, Bool-cases,
}
use backend_ayak_bine.Ledger.{Db, Wallet, LedgerTransaction}
use backend_ayak_bine.Admin.{dashboard_totals}
use backend_ayak_bine.Audit.{IsValid, IsBalanced, credit, debit, credit_of, debit_of}
use backend_ayak_bine.Audit.Wallets.{balance_in, no_balance}
use backend_ayak_bine.Audit.Conserved.{UniqueWallets}

-- Every row's user has a wallet.
abbrev pub HaveWallets : List Wallet → List LedgerTransaction → Type 0
HaveWallets ws ts = All (λ t. exists (λ w. w.user_id == t.user_id) ws ≡ true) ts

abbrev pub credit_row_of : LedgerTransaction → ℕ
credit_row_of t = credit t.type t.status t.metadata t.amount

abbrev pub debit_row_of : LedgerTransaction → ℕ
debit_row_of t = debit t.type t.status t.metadata t.amount t.fee

module _ (f : LedgerTransaction → ℕ) where
  abbrev of_user : ℕ → LedgerTransaction → ℕ
  of_user u t = if t.user_id == u then f t else 0

  abbrev of_users : List Wallet → LedgerTransaction → ℕ
  of_users ws t = if exists (λ w. w.user_id == t.user_id) ws then f t else 0

  of_users-none : (ts : List LedgerTransaction) → sum_by (of_users []) ts ≡ 0
  of_users-none [] = refl
  of_users-none (t ∷ ts) = omega (arith, of_users-none ts)

  absent_user :
      (w : Wallet) (ws : List Wallet) (u : ℕ)
      → exists (λ x. x.user_id == w.user_id) ws ≡ false
      → (w.user_id == u) ≡ true
      → exists (λ x. x.user_id == u) ws ≡ false
  absent_user w ws u h e = rw (← (==_iff w.user_id u).0 e) h

  of_users-step :
      (w : Wallet) (ws : List Wallet) (ts : List LedgerTransaction)
      → exists (λ x. x.user_id == w.user_id) ws ≡ false
      → sum_by (of_user w.user_id) ts + sum_by (of_users ws) ts ≡ sum_by (of_users (w ∷ ws)) ts
  of_users-step w ws [] h = refl
  of_users-step w ws (t ∷ ts) h =
      ground (arith, absent_user w ws t.user_id h, of_users-step w ws ts h)

  -- Summed over the wallets, then over the rows.
  sum-wallets :
      (ws : List Wallet) (ts : List LedgerTransaction)
      → UniqueWallets ws
      → sum_by (λ w. sum_by (of_user w.user_id) ts) ws ≡ sum_by (of_users ws) ts
  sum-wallets [] ts k = ground (arith, of_users-none ts)
  sum-wallets (w ∷ ws) ts k = omega (arith, sum-wallets ws ts k.1, of_users-step w ws ts k.0)

  of_users-all :
      (ws : List Wallet) (ts : List LedgerTransaction)
      → HaveWallets ws ts
      → sum_by (of_users ws) ts ≡ sum_by f ts
  of_users-all ws [] h = refl
  of_users-all ws (t ∷ ts) h = rw h.0 (omega (arith, of_users-all ws ts h.1))

abbrev Accounted : List LedgerTransaction → Wallet → Type 0
Accounted ts w = w.balance + sum_by (debit_of w.user_id) ts ≡ sum_by (credit_of w.user_id) ts

skip_wallet :
    (w : Wallet) (ws : List Wallet) (u b : ℕ)
    → exists (λ x. x.user_id == w.user_id) ws ≡ false
    → balance_in u ws ≡ some b
    → balance_in u (w ∷ ws) ≡ some b
skip_wallet w ws u b h e = elim (Bool-cases (w.user_id == u)) [
  | inl same ↦ cc (no_balance u ws (absent_user (λ _. 0) w ws u h same), e)
  | inr other ↦ rw (other, balance_in) e
]

wallets-Accounted :
    (ws : List Wallet) (ts : List LedgerTransaction)
    → UniqueWallets ws
    → IsBalanced ws ts
    → All (Accounted ts) ws
wallets-Accounted [] ts k bal = tt
wallets-Accounted (w ∷ ws) ts k bal = (
  bal w.user_id w.balance (rw (==_refl w.user_id, balance_in) refl),
  wallets-Accounted ws ts k.1 (λ u b e. bal u b (skip_wallet w ws u b k.0 e)),
)

sum-Accounted :
    (ts : List LedgerTransaction) (ws : List Wallet)
    → All (Accounted ts) ws
    → sum_by (λ w. w.balance) ws + sum_by (λ w. sum_by (debit_of w.user_id) ts) ws
      ≡ sum_by (λ w. sum_by (credit_of w.user_id) ts) ws
sum-Accounted ts [] a = refl
sum-Accounted ts (w ∷ ws) a = omega (arith, a.0, sum-Accounted ts ws a.1)

-- On valid tables with one wallet for each user and a wallet for the user of every row, the global balance
-- that the dashboard shows, together with all withdrawals that are pending or paid and all sent
-- transfers with their fees, is all deposits and received transfers that succeeded.
pub dashboard_balance :
    (db : Db)
    → IsValid db
    → UniqueWallets db.wallets
    → HaveWallets db.wallets db.ledger
    → (dashboard_totals db).solde_global + sum_by debit_row_of db.ledger
      ≡ sum_by credit_row_of db.ledger
unfolding dashboard_totals
dashboard_balance db v k h = omega (
  arith,
  sum-Accounted db.ledger db.wallets (wallets-Accounted db.wallets db.ledger k v.balanced),
  sum-wallets debit_row_of db.wallets db.ledger k,
  sum-wallets credit_row_of db.wallets db.ledger k,
  of_users-all debit_row_of db.wallets db.ledger h,
  of_users-all credit_row_of db.wallets db.ledger h,
)
