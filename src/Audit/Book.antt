-- ===== src/Audit/Book.antt =====
-- The specification of the ledger without its rows: a balance for each user, and the few ways in which
-- a request may change it.
pub mod Calls
pub mod Withdrawals
pub mod Transfers
pub mod Spec
pub mod Accounts
pub mod Routes
pub mod Refines
use backend_ayak_bine.Base.{
  ℕ, ◌+◌, ◌-◌, ◌≤◌, ◌≡◌, ◌≢◌, refl, Option, none, some, List, [], ◌∷◌, ◌==◌, if◌then◌else◌, arith,
}
use backend_ayak_bine.Ledger.{Db, Wallet, Exec, returned, raised}
use backend_ayak_bine.Audit.Wallets.{balance_in, wallet_in, with_balance, balance_in-some}

-- The balance of each user who has a wallet.
abbrev pub Book : Type 0
Book = ℕ → Option ℕ

abbrev pub book : Db → Book
book db u = balance_in u db.wallets

-- What a request does to the book. A transfer names the sender with the total charged, and the recipient
-- with the amount received.
pub data Effect : Type 0 where
  nothing : Effect
  open_account : ℕ → Effect
  deposit : ℕ → ℕ → Effect
  charge : ℕ → ℕ → Effect
  send : ℕ → ℕ → ℕ → ℕ → Effect

abbrev pub plus : ℕ → Option ℕ → Option ℕ
plus a none = none
plus a (some b) = some (b + a)

abbrev pub minus : ℕ → Option ℕ → Option ℕ
minus a none = none
minus a (some b) = some (b - a)

abbrev pub apply : Effect → Book → Book
apply nothing b u = b u
apply (open_account v) b u = if v == u then some 0 else b u
apply (deposit v a) b u = if v == u then plus a (b u) else b u
apply (charge v a) b u = if v == u then minus a (b u) else b u
apply (send from total to a) b u =
    if to == u then plus a (b u) else if from == u then minus total (b u) else b u

-- An account is opened once, and no balance is charged more than it holds.
abbrev pub Possible : Effect → Book → Type 0
Possible nothing b = Unit
Possible (open_account v) b = b v ≡ none
Possible (deposit v a) b = Unit
Possible (charge v a) b = (c : ℕ) × (b v ≡ some c) × (a ≤ c)
Possible (send from total to a) b = (to ≢ from) × ((c : ℕ) × (b from ≡ some c) × (total ≤ c))

-- Between two states of the tables lies one effect, of those that `P` admits.
abbrev pub Moves : (Effect → Type 0) → Db → Db → Type 0
Moves P db db' =
    (e : Effect) × P e × Possible e (book db) × ((u : ℕ) → book db' u ≡ apply e (book db) u)

pub balance_in-with_balance :
    (u uid b : ℕ) (ws : List Wallet)
    → balance_in u (with_balance uid b ws) ≡ (
        if uid == u
        then elim (balance_in u ws) as (λ _. Option ℕ) [ none ↦ none | some c ↦ some b ]
        else balance_in u ws)
balance_in-with_balance u uid b [] = ground arith
balance_in-with_balance u uid b (w ∷ ws) = ground (arith, balance_in-with_balance u uid b ws)

module _ (uid : ℕ) (ws : List Wallet) (w : Wallet) (held : wallet_in uid ws ≡ some w) where
  -- Writing a higher balance is a deposit, and a lower one a charge.
  pub deposited :
      (a u : ℕ)
      → balance_in u (with_balance uid (w.balance + a) ws)
        ≡ (if uid == u then plus a (balance_in u ws) else balance_in u ws)
  deposited a u =
      ground
        (arith, balance_in-with_balance u uid (w.balance + a) ws, balance_in-some uid ws w held)

  pub charged :
      (b a u : ℕ)
      → b + a ≡ w.balance
      → balance_in u (with_balance uid b ws)
        ≡ (if uid == u then minus a (balance_in u ws) else balance_in u ws)
  charged b a u e =
      ground (arith, balance_in-with_balance u uid b ws, balance_in-some uid ws w held)
