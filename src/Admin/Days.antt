-- ===== src/Admin/Days.antt =====
-- The daily figures of app/api_admin.py together, and the dashboard's figures of today among them.
use backend_ayak_bine.Base.{
  ℕ, zero, suc, ◌+◌, ◌-◌, ◌*◌, ◌/◌, ◌≤◌, ◌<◌, ◌≡◌, refl, ap, ◌∙◌, ◌&&◌, List, [], ◌∷◌, ◌++◌, ltb,
  leb, if◌then◌else◌, sum_by, All, arith, reply,
}
use backend_ayak_bine.Ledger.{Db, LedgerTransaction}
use backend_ayak_bine.Admin.Stats.{
  received, withdrawn, since, dashboard_stats, DailyStatPoint, on_day, stat_point, stat_points,
  daily_stats,
}

module _ (day_of : LedgerTransaction → ℕ) (f : LedgerTransaction → ℕ) where
  -- A row that was created on one of `n` days.
  abbrev pub within : ℕ → ℕ → LedgerTransaction → ℕ
  within start n t = if leb start (day_of t) && ltb (day_of t) (start + n) then f t else 0

  sum_by-within_none : (start : ℕ) (ts : List LedgerTransaction) → sum_by (within start 0) ts ≡ 0
  sum_by-within_none start [] = refl
  sum_by-within_none start (t ∷ ts) = ground (arith, sum_by-within_none start ts)

  sum_by-within_step :
      (start n : ℕ) (ts : List LedgerTransaction)
      → sum_by (on_day day_of start f) ts + sum_by (within (start + 1) n) ts
        ≡ sum_by (within start (suc n)) ts
  sum_by-within_step start n [] = omega arith
  sum_by-within_step start n (t ∷ ts) = ground (arith, sum_by-within_step start n ts)

  sum_points :
      (figure : DailyStatPoint → ℕ)
      → ((d : ℕ) (ts : List LedgerTransaction)
          → figure (stat_point day_of d ts) ≡ sum_by (on_day day_of d f) ts)
      → (n start : ℕ) (ts : List LedgerTransaction)
      → sum_by figure (stat_points day_of start n ts) ≡ sum_by (within start n) ts
  unfolding stat_points
  sum_points figure e zero start ts = ground (arith, sum_by-within_none start ts)
  sum_points figure e (suc n) start ts =
      omega (arith, e start ts, sum_points figure e n (start + 1) ts, sum_by-within_step start n ts)

-- For 1 to 90 days the answer's points together hold the money received, the money withdrawn and the fees
-- of all the rows created on one of these days, today the last, each row counted once.
pub daily_stats_complete :
    (day_of : LedgerTransaction → ℕ) (today days : ℕ) (db : Db)
    → 1 ≤ days
    → days ≤ 90
    → (points : List DailyStatPoint) × (daily_stats day_of today days db ≡ reply points)
      × (sum_by (λ p. p.recu) points
          ≡ sum_by (within day_of received (today + 1 - days) days) db.ledger)
      × (sum_by (λ p. p.retire) points
          ≡ sum_by (within day_of withdrawn (today + 1 - days) days) db.ledger)
      × (sum_by (λ p. p.frais) points
          ≡ sum_by (within day_of (λ t. t.fee) (today + 1 - days) days) db.ledger)
unfolding daily_stats stat_point
daily_stats_complete day_of today days db lo hi = (
  stat_points day_of (today + 1 - days) days db.ledger,
  ground (arith, lo, hi),
  sum_points day_of received (λ p. p.recu) (λ d ts. refl) days (today + 1 - days) db.ledger,
  sum_points day_of withdrawn (λ p. p.retire) (λ d ts. refl) days (today + 1 - days) db.ledger,
  sum_points day_of (λ t. t.fee) (λ p. p.frais) (λ d ts. refl) days (today + 1 - days) db.ledger,
)

module _ (created_at : LedgerTransaction → ℕ) (today : ℕ) where
  abbrev pub day : LedgerTransaction → ℕ
  day t = created_at t / 86400

  -- No row was created after today.
  abbrev pub NoneLater : List LedgerTransaction → Type 0
  NoneLater ts = All (λ t. created_at t < (today + 1) * 86400) ts

  since-eq-on_day :
      (f : LedgerTransaction → ℕ) (ts : List LedgerTransaction)
      → NoneLater ts
      → sum_by (since created_at (today * 86400) f) ts ≡ sum_by (on_day day today f) ts
  since-eq-on_day f [] h = refl
  since-eq-on_day f (t ∷ ts) h = ground (arith, h.0, since-eq-on_day f ts h.1)

  last_point :
      (n start : ℕ) (ts : List LedgerTransaction)
      → start + n ≡ today
      → (earlier : List DailyStatPoint) × (stat_points day start (suc n) ts
          ≡ earlier ++ stat_point day today ts ∷ [])
  unfolding stat_points
  last_point zero start ts e = ([], let e' : start ≡ today = omega arith in rw e' refl)
  last_point (suc n) start ts e =
      let (earlier, rest) = last_point n (start + 1) ts (omega arith) in
      (stat_point day start ts ∷ earlier, ap (λ ps. stat_point day start ts ∷ ps) rest)

  -- With timestamps and dates in one time zone and no row from the future, the dashboard's figures of
  -- today are those of the last of the daily points, for any number of days from 1 to 90 that are not before the first date.
  pub dashboard_today-eq-daily :
      (days : ℕ) (db : Db)
      → 1 ≤ days
      → days ≤ 90
      → days ≤ today + 1
      → NoneLater db.ledger
      → let stats = dashboard_stats created_at (today * 86400) db in
        (earlier : List DailyStatPoint) × (daily_stats day today days db
          ≡ reply (
              earlier
              ++ record {
                date = today;
                recu = stats.recu_aujourdhui;
                retire = stats.retire_aujourdhui;
                frais = stats.frais_collectes_aujourdhui;
              }
                ∷ []))
  unfolding daily_stats dashboard_stats stat_point
  dashboard_today-eq-daily zero db lo hi fits past = absurd (omega arith)
  dashboard_today-eq-daily (suc n) db lo hi fits past =
      let start : ℕ = today + 1 - suc n in
      let (earlier, rest) = last_point n start db.ledger (omega arith) in
      let served : daily_stats day today (suc n) db
          ≡ reply (stat_points day start (suc n) db.ledger) =
        ground (arith, lo, hi) in
      (
        earlier,
        served
            ∙ ap reply rest
            ∙ ap (λ p. reply (earlier ++ p ∷ []))
                (ground (
                  arith,
                  since-eq-on_day received db.ledger past,
                  since-eq-on_day withdrawn db.ledger past,
                  since-eq-on_day (λ t. t.fee) db.ledger past,
                )),
      )
