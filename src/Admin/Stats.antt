-- ===== src/Admin/Stats.antt =====
-- The figures of app/api_admin.py that depend on the day. The tables of the model have no timestamps:
-- what `created_at` says of a row is a parameter, in seconds for `dashboard_stats`, and as a date, a number of days, for
-- `daily_stats`.
use backend_ayak_bine.Base.{
  ℕ, zero, suc, ◌+◌, ◌-◌, Bool, ◌&&◌, ◌||◌, List, [], ◌∷◌, ltb, leb, ◌==◌, if◌then◌else◌, sum_by,
  Response, reply, http_error,
}
use backend_ayak_bine.Ledger.{
  Db, LedgerTransaction, TransactionStatus, TransactionType, is_status, is_type,
}
use backend_ayak_bine.Admin.{DashboardTotals, dashboard_totals}

abbrev has_succeeded : TransactionType → LedgerTransaction → Bool
has_succeeded type t = is_type t.type type && is_status t.status TransactionStatus.success

-- What a row adds to the money received, the money withdrawn and the fees.
abbrev pub received : LedgerTransaction → ℕ
received t = if has_succeeded TransactionType.pay_in t then t.amount else 0

abbrev pub withdrawn : LedgerTransaction → ℕ
withdrawn t = if has_succeeded TransactionType.pay_out t then t.amount else 0

pub record DashboardStats : Type 0 where
  pub totals : DashboardTotals
  pub recu_aujourdhui : ℕ
  pub retire_aujourdhui : ℕ
  pub frais_collectes_aujourdhui : ℕ

module _ (created_at : LedgerTransaction → ℕ) where
  -- `created_at >= today_start`
  abbrev pub since : ℕ → (LedgerTransaction → ℕ) → LedgerTransaction → ℕ
  since today_start f t = if leb today_start (created_at t) then f t else 0

  -- `GET /dashboard-stats`
  unfoldable pub dashboard_stats : ℕ → Db → DashboardStats
  dashboard_stats today_start db = record {
    totals = dashboard_totals db;
    recu_aujourdhui = sum_by (since today_start received) db.ledger;
    retire_aujourdhui = sum_by (since today_start withdrawn) db.ledger;
    frais_collectes_aujourdhui = sum_by (since today_start (λ t. t.fee)) db.ledger;
  }

pub record DailyStatPoint : Type 0 where
  pub date : ℕ
  pub recu : ℕ
  pub retire : ℕ
  pub frais : ℕ

module _ (day_of : LedgerTransaction → ℕ) where
  -- `LEFT JOIN … ON created_at::date = d::date`, for one figure.
  abbrev pub on_day : ℕ → (LedgerTransaction → ℕ) → LedgerTransaction → ℕ
  on_day d f t = if day_of t == d then f t else 0

  unfoldable pub stat_point : ℕ → List LedgerTransaction → DailyStatPoint
  stat_point d ledger = record {
    date = d;
    recu = sum_by (on_day d received) ledger;
    retire = sum_by (on_day d withdrawn) ledger;
    frais = sum_by (on_day d (λ t. t.fee)) ledger;
  }

  -- `generate_series`, with a point for each day.
  unfoldable pub stat_points : ℕ → ℕ → List LedgerTransaction → List DailyStatPoint
  stat_points start zero ledger = []
  stat_points start (suc n) ledger = stat_point start ledger ∷ stat_points (start + 1) n ledger

  -- `GET /stats/daily`: `ge=1, le=90`.
  unfoldable pub daily_stats : ℕ → ℕ → Db → Response (List DailyStatPoint)
  daily_stats today days db =
      if ltb days 1 || ltb 90 days
      then http_error 422
      else reply (stat_points (today + 1 - days) days db.ledger)
