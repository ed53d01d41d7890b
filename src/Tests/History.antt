-- ===== src/Tests/History.antt =====
-- A history of requests to the live API (app/api_auth.py, app/api_wallet.py, app/api_admin.py): what it leaves, and
-- what the specification and the dashboard say of it.
use backend_ayak_bine.Base.{
  ℕ, ◌+◌, ◌≡◌, refl, sym, ap, none, List, [], ◌∷◌, codes, text_eq, upper, text_in, sum_by,
}
use mathlib.Core.Option.{some-injective}
use backend_ayak_bine.Money.{
  whole, scale, round_half_up, to_cents, add_to_cents, sub_to_cents, sub_from_cents, exceeds_cents,
}
use backend_ayak_bine.Ledger.{Db, LedgerTransaction}
use backend_ayak_bine.Ledger.Store.{set_balance, insert_transaction, insert_violation, proof_taken}
use backend_ayak_bine.Ledger.Payout.{process_payout_deduction, reserve}
use backend_ayak_bine.Ledger.Service.{
  admin_manual_credit, credit_manually, request_payout, with_provider, cast_provider,
}
use backend_ayak_bine.Wallet.{payout_request, valid_operator}
use backend_ayak_bine.Auth.{register, insert_user, validate_register, strip, remove_spaces}
use backend_ayak_bine.Admin.{credit_user_wallet, dashboard_totals}
use backend_ayak_bine.Audit.{IsValid}
use backend_ayak_bine.Audit.Reach.{
  Request, register_account, credit_by_hand, withdraw, settle_payout, handle, handle_all,
  handle_all-IsValid, empty_db, empty_db-IsValid, AllAdmissible,
}
use backend_ayak_bine.Audit.Book.{Effect, book}
use backend_ayak_bine.Audit.Book.Refines.{History, apply_all, handle_all-Refines}
use backend_ayak_bine.Audit.Global.{credit_row_of, debit_row_of, dashboard_balance}
use backend_ayak_bine.Tests.Data.{plain_crypto}

abbrev opening : List Request
opening =
    register_account 0 1
      (record { phone_number = codes "0700000001"; full_name = none; pin_code = codes "1234" })
    ∷ credit_by_hand 10 100 1 (whole 1000) (codes "bonus") 1
    ∷ withdraw 11 101 1 (record { coefficient = 2550; exponent = 2 }) (codes "wave")
        (codes "0700000001")
    ∷ []

abbrev history : List Request
history =
    register_account 0 1
      (record { phone_number = codes "0700000001"; full_name = none; pin_code = codes "1234" })
    ∷ credit_by_hand 10 100 1 (whole 1000) (codes "bonus") 1
    ∷ withdraw 11 101 1 (record { coefficient = 2550; exponent = 2 }) (codes "wave")
        (codes "0700000001")
    ∷ settle_payout 11 (codes "reject") none 1
    ∷ []

opening-AllAdmissible : AllAdmissible plain_crypto opening empty_db
unfolding scale
opening-AllAdmissible = (tt, (tt, ((2550, refl), tt)))

history-AllAdmissible : AllAdmissible plain_crypto history empty_db
unfolding scale handle_all handle register validate_register insert_user strip remove_spaces
    credit_user_wallet admin_manual_credit credit_manually set_balance add_to_cents round_half_up
    insert_transaction insert_violation proof_taken to_cents payout_request valid_operator
    request_payout with_provider cast_provider process_payout_deduction exceeds_cents reserve
    sub_to_cents sub_from_cents text_eq text_in upper
history-AllAdmissible = (
  tt,
  (
    tt,
    (
      (2550, refl),
      (λ t e. ap (λ (x : LedgerTransaction). x.type) (sym (some-injective _ t e)), tt),
    ),
  ),
)

handle_all-IsValid_example : IsValid (handle_all plain_crypto history empty_db)
handle_all-IsValid_example =
    handle_all-IsValid plain_crypto history empty_db history-AllAdmissible empty_db-IsValid

handle_all-Refines_example :
    (es : List Effect) × History plain_crypto history empty_db es
    × ((u : ℕ) → book (handle_all plain_crypto history empty_db) u ≡ apply_all es (book empty_db) u)
handle_all-Refines_example =
    handle_all-Refines plain_crypto history empty_db history-AllAdmissible empty_db-IsValid

-- The tables while the withdrawal waits.
abbrev waiting : Db
waiting = handle_all plain_crypto opening empty_db

waiting-IsValid : IsValid waiting
waiting-IsValid =
    handle_all-IsValid plain_crypto opening empty_db opening-AllAdmissible empty_db-IsValid

dashboard_balance_example :
    (dashboard_totals waiting).solde_global + sum_by debit_row_of waiting.ledger
    ≡ sum_by credit_row_of waiting.ledger
unfolding scale handle_all handle register validate_register insert_user strip remove_spaces
    credit_user_wallet admin_manual_credit credit_manually set_balance add_to_cents round_half_up
    insert_transaction insert_violation proof_taken to_cents payout_request valid_operator
    request_payout with_provider cast_provider process_payout_deduction exceeds_cents reserve
    sub_to_cents sub_from_cents text_eq text_in upper
dashboard_balance_example = dashboard_balance waiting waiting-IsValid (refl, tt) (refl, (refl, tt))
