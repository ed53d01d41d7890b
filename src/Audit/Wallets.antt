-- ===== src/Audit/Wallets.antt =====
-- Balances under an UPDATE of a wallet.
use backend_ayak_bine.Base.{
  ℕ, ◌≡◌, refl, Option, none, some, List, [], ◌∷◌, ◌==◌, arith, find, update_where, ◌≢◌, exists,
  false,
}
use backend_ayak_bine.Ledger.{Wallet}

abbrev pub wallet_in : ℕ → List Wallet → Option Wallet
wallet_in u ws = find (λ w. w.user_id == u) ws

abbrev pub balance_in : ℕ → List Wallet → Option ℕ
balance_in u ws = elim (wallet_in u ws) [ none ↦ none | some w ↦ some w.balance ]

abbrev pub with_balance : ℕ → ℕ → List Wallet → List Wallet
with_balance uid b ws = update_where (λ w. w.user_id == uid) (λ w. record w { balance = b }) ws

pub wallet_in-user_id :
    (u : ℕ) (ws : List Wallet) (w : Wallet) → wallet_in u ws ≡ some w → w.user_id ≡ u
wallet_in-user_id u [] w h = cc
wallet_in-user_id u (x ∷ ws) w h = ground (arith, wallet_in-user_id u ws w)

pub balance_in-set_ne :
    (u uid b : ℕ) (ws : List Wallet)
    → u ≢ uid
    → balance_in u (with_balance uid b ws) ≡ balance_in u ws
balance_in-set_ne u uid b [] h = refl
balance_in-set_ne u uid b (x ∷ ws) h = ground (arith, balance_in-set_ne u uid b ws)

-- A wallet that is there has the new balance.
pub balance_in-set_self :
    (uid b c : ℕ) (ws : List Wallet) → balance_in uid (with_balance uid b ws) ≡ some c → c ≡ b
balance_in-set_self uid b c [] h = cc
balance_in-set_self uid b c (x ∷ ws) h = ground (arith, balance_in-set_self uid b c ws)

pub balance_in-some :
    (u : ℕ) (ws : List Wallet) (w : Wallet)
    → wallet_in u ws ≡ some w
    → balance_in u ws ≡ some w.balance
balance_in-some u ws w h = rw (h, balance_in)

pub balance_in-none : (u : ℕ) (ws : List Wallet) → wallet_in u ws ≡ none → balance_in u ws ≡ none
balance_in-none u ws h = rw (h, balance_in)

pub no_balance :
    (v : ℕ) (ws : List Wallet) → exists (λ w. w.user_id == v) ws ≡ false → balance_in v ws ≡ none
no_balance v [] h = refl
no_balance v (w ∷ ws) h = ground (arith, no_balance v ws)
