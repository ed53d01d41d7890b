-- ===== src/Audit/Balance.antt =====
-- How a statement on a wallet and a statement on its user's rows keep the wallet's account.
use backend_ayak_bine.Base.{
  ℕ, ◌+◌, ◌≡◌, ◌≢◌, refl, sym, ◌∙◌, Bool, none, some, List, ◌∷◌, ◌==◌, arith, find, sum_by,
  update_where,
}
use mathlib.Core.Path.{subst}
use native.Mathlib.Decide.{ℕ_discrete}
use backend_ayak_bine.Ledger.{Wallet, LedgerTransaction}
use backend_ayak_bine.Audit.{IsBalanced, credit, debit, credit_of, debit_of}
use backend_ayak_bine.Audit.Rows.{UniqueIds, sum_by-update}
use backend_ayak_bine.Audit.Wallets.{
  balance_in, with_balance, balance_in-set_ne, balance_in-set_self,
}

abbrev pub row_credit : LedgerTransaction → ℕ
row_credit t = credit t.type t.status t.metadata t.amount

abbrev pub row_debit : LedgerTransaction → ℕ
row_debit t = debit t.type t.status t.metadata t.amount t.fee

of_self :
    (u : ℕ) (t : LedgerTransaction)
    → t.user_id ≡ u
    → (credit_of u t ≡ row_credit t) × (debit_of u t ≡ row_debit t)
of_self u t h = ground arith

of_other :
    (u : ℕ) (t : LedgerTransaction) → u ≢ t.user_id → (credit_of u t ≡ 0) × (debit_of u t ≡ 0)
of_other u t h = ground arith

-- A statement on every user: on the one, and on the others.
by_user : (P : ℕ → Type 0) (u x : ℕ) → P x → (u ≢ x → P u) → P u
by_user P u x h k = elim (ℕ_discrete u x) [ yes e ↦ subst P (sym e) h | no n ↦ k n ]

abbrev Holds : List Wallet → List LedgerTransaction → ℕ → Type 0
Holds ws ts u =
    (b : ℕ) → balance_in u ws ≡ some b → b + sum_by (debit_of u) ts ≡ sum_by (credit_of u) ts

module _ (ws : List Wallet) (ts : List LedgerTransaction) (ok : IsBalanced ws ts) where
  -- A row that counts for nothing.
  pub IsBalanced-insert_neutral :
      (t : LedgerTransaction) → row_credit t ≡ 0 → row_debit t ≡ 0 → IsBalanced ws (t ∷ ts)
  IsBalanced-insert_neutral t c d u =
      by_user (Holds ws (t ∷ ts)) u t.user_id
        (λ b h. omega (arith, ok t.user_id b h, of_self t.user_id t refl))
        (λ ne b h. omega (arith, ok u b h, of_other u t ne))

  -- A new row, and the balance that accounts for it.
  pub IsBalanced-insert :
      (t : LedgerTransaction) (b v : ℕ)
      → balance_in t.user_id ws ≡ some b
      → v + row_debit t ≡ b + row_credit t
      → IsBalanced (with_balance t.user_id v ws) (t ∷ ts)
  IsBalanced-insert t b v h e u =
      by_user (Holds (with_balance t.user_id v ws) (t ∷ ts)) u t.user_id
        (λ b' k. omega (
          arith,
          ok t.user_id b h,
          of_self t.user_id t refl,
          balance_in-set_self t.user_id v b' ws k,
        ))
        (λ ne b' k.
          omega (arith, ok u b' (sym (balance_in-set_ne u t.user_id v ws ne) ∙ k), of_other u t ne))

  module _ (t : LedgerTransaction) (g : LedgerTransaction → LedgerTransaction)
      (q : LedgerTransaction → Bool) (ids : UniqueIds ts) (found : find q ts ≡ some t)
      (same : (g t).user_id ≡ t.user_id) where
    abbrev after : List LedgerTransaction
    after = update_where (λ r. r.id == t.id) g ts

    others : (u : ℕ) → u ≢ t.user_id → Holds ws after u
    others u ne b h =
        let apart : u ≢ (g t).user_id = λ e. ne (e ∙ same) in
        omega (
          arith,
          ok u b h,
          of_other u t ne,
          of_other u (g t) apart,
          sum_by-update (debit_of u) g q ts t ids found,
          sum_by-update (credit_of u) g q ts t ids found,
        )

    -- The sums for the row's user, before and after.
    own_sums :
        (sum_by (debit_of t.user_id) after + row_debit t
          ≡ sum_by (debit_of t.user_id) ts + row_debit (g t))
        × (sum_by (credit_of t.user_id) after + row_credit t
            ≡ sum_by (credit_of t.user_id) ts + row_credit (g t))
    own_sums = omega (
      arith,
      of_self t.user_id t refl,
      of_self t.user_id (g t) same,
      sum_by-update (debit_of t.user_id) g q ts t ids found,
      sum_by-update (credit_of t.user_id) g q ts t ids found,
    )

    -- An update of a row, and the balance that accounts for it.
    pub IsBalanced-update :
        (b v : ℕ)
        → balance_in t.user_id ws ≡ some b
        → v + row_debit (g t) + row_credit t ≡ b + row_debit t + row_credit (g t)
        → IsBalanced (with_balance t.user_id v ws) after
    IsBalanced-update b v h e u =
        by_user (Holds (with_balance t.user_id v ws) after) u t.user_id
          (λ b' k.
            omega (arith, ok t.user_id b h, own_sums, balance_in-set_self t.user_id v b' ws k))
          (λ ne b' k. others u ne b' (sym (balance_in-set_ne u t.user_id v ws ne) ∙ k))

    -- The user of the row has no wallet.
    pub IsBalanced-update_absent : balance_in t.user_id ws ≡ none → IsBalanced ws after
    IsBalanced-update_absent e u =
        by_user (Holds ws after) u t.user_id (λ b k. cc (e, k)) (others u)

    -- The row counts as before.
    pub IsBalanced-update_kept :
        row_debit (g t) + row_credit t ≡ row_debit t + row_credit (g t) → IsBalanced ws after
    IsBalanced-update_kept e u =
        by_user (Holds ws after) u t.user_id (λ b k. omega (arith, ok t.user_id b k, own_sums))
          (others u)
