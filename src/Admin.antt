-- ===== src/Admin.antt =====
-- The routes of app/api_admin.py that change the tables, and their guards.
pub mod Access
pub mod Blocking
pub mod Listing
pub mod Accounts
pub mod Pages
pub mod Search
pub mod Waiting
pub mod Stats
pub mod Days
pub mod Settings
use backend_ayak_bine.Base.{
  ℕ, ◌*◌, Bool, true, false, not, ◌&&◌, ◌||◌, Option, none, some, List, [], ◌∷◌, ◌++◌, Text,
  text_eq, text_in, upper, codes, is_empty, leb, ◌==◌, if◌then◌else◌, find, length, update_where,
  sum_by, select_where, Response, reply, http_error, server_error,
}
use backend_ayak_bine.Money.{Decimal, is_zero, of_cents, scale}
use backend_ayak_bine.Ledger.{
  Db, User, Wallet, LedgerTransaction, TransactionStatus, TransactionType, is_status, is_type, Exec,
  returned, raised, Reply, failure, success, UserRole,
}
use backend_ayak_bine.Ledger.Store.{find_transaction}
use backend_ayak_bine.Ledger.Payin.{PayinCredit}
use backend_ayak_bine.Ledger.Payout.{Action, approve, reject, unknown, action_of}
use backend_ayak_bine.Ledger.Service.{
  admin_process_payout, admin_manual_credit, finalize_payin, set_fee_percent, set_payment_links,
  get_fee_percent,
}
use backend_ayak_bine.Auth.{find_user, is_admin}
use backend_ayak_bine.Admin.Access.{is_pending_payout}
use backend_ayak_bine.Wallet.{outcome, or_bad_request}

-- `require_admin`
unfoldable pub require_admin : User → Response User
require_admin u = if not (is_admin u.role) then http_error 403 else reply u

-- `POST /process-payout/{transaction_id}`. The notification that a route leaves for after its answer is a step of
-- its own in the sequences of requests (notify_later in Audit/Reach).
unfoldable pub process_payout_route : ℕ → Text → Option Text → ℕ → Db → Response (Unit {0}) × Db
process_payout_route tid action proof_ref admin_id db = elim (action_of (upper action)) [
  | unknown ↦ (http_error 400, db)
  | a ↦ outcome (admin_process_payout tid a proof_ref admin_id none db) or_bad_request db
]

abbrev pub is_pending_payin : ℕ → LedgerTransaction → Bool
is_pending_payin tid t =
    t.id == tid
    && is_status t.status TransactionStatus.pending
    && is_type t.type TransactionType.pay_in

abbrev pub is_payin : ℕ → LedgerTransaction → Bool
is_payin tid t = t.id == tid && is_type t.type TransactionType.pay_in

abbrev pub rejected_payin : LedgerTransaction → LedgerTransaction
rejected_payin t = record t { status = TransactionStatus.failed }

-- `UPDATE … WHERE id = :tid AND status = 'PENDING' AND type = 'PAY_IN' RETURNING reference`
unfoldable pub reject_payin : ℕ → Db → Response (Unit {0}) × Db
reject_payin tid db = elim (find (is_pending_payin tid) db.ledger) [
  | none ↦ (http_error 404, db)
  | some t ↦ (
    reply tt,
    record db { ledger = update_where (is_pending_payin tid) rejected_payin db.ledger },
  )
]

-- `payload.proof_ref or f"MANUEL-ADMIN-{admin.phone_number}"`
unfoldable pub manual_proof : Option Text → Text → Text
manual_proof none phone = codes "MANUEL-ADMIN-" ++ phone
manual_proof (some p) phone = if is_empty p then codes "MANUEL-ADMIN-" ++ phone else p

abbrev pub credit_answer : Reply PayinCredit → Response (Unit {0})
credit_answer (failure m) = http_error 400
credit_answer (success c) = reply tt

unfoldable pub approve_payin : ℕ → Option Text → Text → Db → Response (Unit {0}) × Db
approve_payin tid proof_ref admin_phone db = elim (find (is_payin tid) db.ledger) [
  | none ↦ (http_error 404, db)
  | some t ↦
      outcome
        (finalize_payin t.reference (manual_proof proof_ref admin_phone) (some (of_cents t.amount))
          db)
        credit_answer db
]

-- `POST /process-payin/{transaction_id}`
unfoldable pub process_payin_route : ℕ → Text → Option Text → Text → Db → Response (Unit {0}) × Db
process_payin_route tid action proof_ref admin_phone db = elim (action_of (upper action)) [
  | unknown ↦ (http_error 400, db)
  | reject ↦ reject_payin tid db
  | approve ↦ approve_payin tid proof_ref admin_phone db
]

-- `POST /users/{user_id}/credit`, with the constraints of AdminCreditRequest.
unfoldable pub credit_user_wallet : ℕ → ℕ → ℕ → Decimal → Text → ℕ → Db → Response (ℕ × ℕ) × Db
credit_user_wallet tid reference uid amount reason admin_id db =
    if is_zero amount || not (leb 3 (length reason) && leb (length reason) 200)
    then (http_error 422, db)
    else outcome (admin_manual_credit tid reference uid amount reason admin_id db) or_bad_request db

-- `PUT /users/{user_id}/status`
unfoldable pub update_user_status : ℕ → Bool → Db → Response Bool × Db
update_user_status uid is_active db = elim (find_user uid db) [
  | none ↦ (http_error 404, db)
  | some u ↦ if is_admin u.role then (http_error 400, db) else (
    reply is_active,
    record db {
      users = update_where (λ x. x.id == uid) (λ x. record x { is_active = is_active }) db.users;
    },
  )
]

-- `PUT /settings/fee-percent`: `ge=0, le=100`.
unfoldable pub update_fee_percent_route : Decimal → Db → Response Decimal × Db
update_fee_percent_route fee_percent db =
    if leb fee_percent.coefficient (100 * scale fee_percent)
    then (reply fee_percent, set_fee_percent fee_percent db)
    else (http_error 422, db)

-- The figures of `dashboard_stats` that do not depend on the day.
pub record DashboardTotals : Type 0 where
  pub solde_global : ℕ
  pub frais_collectes_total : ℕ
  pub fee_percent : Decimal
  pub nb_utilisateurs : ℕ
  pub nb_payouts_en_attente : ℕ

unfoldable pub dashboard_totals : Db → DashboardTotals
dashboard_totals db = record {
  solde_global = sum_by (λ w. w.balance) db.wallets;
  frais_collectes_total = sum_by (λ t. t.fee) db.ledger;
  fee_percent = get_fee_percent db;
  nb_utilisateurs = length db.users;
  nb_payouts_en_attente = length (select_where is_pending_payout db.ledger);
}
