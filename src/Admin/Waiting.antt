-- ===== src/Admin/Waiting.antt =====
-- The withdrawals that wait, on the dashboard and in their list (app/api_admin.py).
use backend_ayak_bine.Base.{
  ℕ, ◌≡◌, ◌≢◌, refl, sym, ◌∙◌, Bool, true, none, List, [], ◌∷◌, arith, inl, inr, Option-cases,
  length, length-append, select_where, exists, find, ◌==◌,
}
use mathlib.Core.List.{reverse, reverse-cons}
use backend_ayak_bine.Ledger.{Db, User, LedgerTransaction}
use backend_ayak_bine.Admin.Access.{is_pending_payout}
use backend_ayak_bine.Admin.{dashboard_totals}
use backend_ayak_bine.Admin.Listing.{with_phones, pending_payouts}
use backend_ayak_bine.Audit.{IsValid}
use backend_ayak_bine.Audit.Rows.{Owned}

not_found :
    (i : ℕ) (users : List User)
    → exists (λ u. u.id == i) users ≡ true
    → find (λ u. u.id == i) users ≢ none
not_found i [] h = cc
not_found i (u ∷ users) h = ground (arith, not_found i users)

-- On tables whose rows all have their user the JOIN loses none.
selected_length :
    (p : LedgerTransaction → Bool) (users : List User) (ts : List LedgerTransaction)
    → Owned users ts
    → length (select_where (λ row. p row.0) (with_phones users ts)) ≡ length (select_where p ts)
unfolding with_phones
selected_length p users [] o = refl
selected_length p users (t ∷ ts) o = elim (Option-cases (find (λ u. u.id == t.user_id) users)) [
  | inl e ↦ absurd (not_found t.user_id users o.0 e)
  | inr (u, e) ↦ rw (e, with_phones) (ground (arith, selected_length p users ts o.1))
]

length-reverse {ℓ} : {A : Type ℓ} (xs : List A) → length (reverse xs) ≡ length xs
length-reverse [] = refl
length-reverse (x ∷ xs) =
    rw (reverse-cons x xs) (length-append (reverse xs) (x ∷ []) ∙ omega (arith, length-reverse xs))

-- On valid tables the dashboard counts as many withdrawals that wait as GET /pending-payouts lists.
pub pending_payouts_count :
    (db : Db)
    → IsValid db
    → (dashboard_totals db).nb_payouts_en_attente ≡ length (pending_payouts db)
unfolding dashboard_totals pending_payouts
pending_payouts_count db v =
    sym (length-reverse _ ∙ selected_length is_pending_payout db.users db.ledger v.owners)
