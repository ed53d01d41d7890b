-- ===== src/Tests/Admin.antt =====
-- Runs of the lists and the figures of app/api_admin.py.
use mathlib.Core.List.Perm
use mathlib.Core.List.{Perm}
use backend_ayak_bine.Base.{
  Response, ℕ, ◌+◌, ◌-◌, ◌*◌, ◌≤◌, ◌≡◌, ◌≢◌, refl, none, some, List, [], ◌∷◌, ◌++◌, ◌||◌, codes,
  Text, lower, length, take, drop, contains, reply, sum_by, arith, ilike, like, leb, if◌then◌else◌,
}
use backend_ayak_bine.Ledger.{Db, LedgerTransaction, TransactionStatus, TransactionType, KycStatus}
use backend_ayak_bine.Auth.{strip}
use backend_ayak_bine.Admin.Listing.{
  pos, TransactionPage, list_transactions, selected_transactions, with_phones, filter_of,
  phone_matches,
}
use backend_ayak_bine.Admin.Accounts.{user_matches}
use backend_ayak_bine.Admin.Pages.{walk, list_transactions_pages}
use backend_ayak_bine.Admin.Search.{user_matches-eq-contains}
use backend_ayak_bine.Admin.Stats.{
  DailyStatPoint, daily_stats, dashboard_stats, received, withdrawn,
}
use backend_ayak_bine.Admin.Days.{within, daily_stats_complete, day, dashboard_today-eq-daily}
use backend_ayak_bine.Money.{whole, scale}
use backend_ayak_bine.Admin.{update_fee_percent_route}
use backend_ayak_bine.Admin.Settings.{
  PaymentLinks, get_payment_links, update_payment_links_route, merged, get_current_fee_percent,
  get_fee_percent_route, get_current_payment_links, get_payment_links_route, settings_roundtrip,
}
use backend_ayak_bine.Tests.Data.{tables, deposit_row, awa}

abbrev paid_out : LedgerTransaction
paid_out = record deposit_row {
  id = 12;
  reference = 102;
  type = TransactionType.pay_out;
  amount = 2000;
  fee = 10;
  status = TransactionStatus.success;
}

abbrev paid_in : LedgerTransaction
paid_in = record deposit_row {
  id = 11;
  reference = 101;
  user_id = 2;
  status = TransactionStatus.success;
}

-- Two deposits and a withdrawal, and a submission of Awa.
abbrev busy_tables : Db
busy_tables = record tables {
  ledger = paid_out ∷ paid_in ∷ deposit_row ∷ [];
  kyc =
      record {
        id = 1;
        user_id = 1;
        id_document_base64 = codes "AAAA";
        selfie_base64 = none;
        status = KycStatus.pending;
        review_note = none;
      }
      ∷ [];
}

abbrev with_numbers : List (LedgerTransaction × Text)
with_numbers =
    (paid_out, codes "0700000001")
    ∷ (paid_in, codes "0700000002")
    ∷ (deposit_row, codes "0700000001")
    ∷ []

-- Every request has the rows in the order of the tables.
abbrev in_table_order : ℕ → List (LedgerTransaction × Text) → List (LedgerTransaction × Text)
in_table_order offset rows = rows

abbrev busy_page : ℕ → Response TransactionPage
busy_page offset =
    list_transactions (in_table_order offset) none none (some (codes "07")) (pos 2) (pos offset)
      busy_tables

list_transactions_pages_example :
    (walk busy_page 2 0 2 ≡ with_numbers)
    × Perm (walk busy_page 2 0 2) with_numbers
    × ((offset : ℕ)
        → busy_page offset
          ≡ reply
              (record { total = length with_numbers; items = take 2 (drop offset with_numbers) }))
unfolding selected_transactions filter_of with_phones phone_matches strip ilike like lower
list_transactions_pages_example =
    list_transactions_pages none none (some (codes "07")) busy_tables with_numbers refl 2
      (omega arith) in_table_order with_numbers (λ offset. refl) 2 (Perm.refl with_numbers)
      (omega arith)

digit_plain : (c : ℕ) → 48 ≤ c → c ≤ 57 → (c ≢ b'%') × (c ≢ b'_') × (c ≢ 92)
digit_plain c lo hi = (
  λ e. absurd (omega (arith, e, lo)),
  λ e. absurd (omega (arith, e, hi)),
  λ e. absurd (omega (arith, e, hi)),
)

user_matches-eq-contains_example : user_matches (some (codes " 0001 ")) awa ≡ (
    contains (lower (strip (codes " 0001 "))) (lower awa.phone_number)
    || contains (lower (strip (codes " 0001 "))) (lower awa.full_name))
unfolding strip
user_matches-eq-contains_example = user_matches-eq-contains (codes " 0001 ") awa refl (
  digit_plain 48 (omega arith) (omega arith),
  (
    digit_plain 48 (omega arith) (omega arith),
    (digit_plain 48 (omega arith) (omega arith), (digit_plain 49 (omega arith) (omega arith), tt)),
  ),
)

-- Row 12 was created on day 40, the others on day 38.
abbrev created : LedgerTransaction → ℕ
created t = if leb 12 t.id then 40 * 86400 + 5 else 38 * 86400

daily_stats_complete_example :
    (points : List DailyStatPoint) × (daily_stats (day created 40) 40 7 busy_tables ≡ reply points)
    × (sum_by (λ p. p.recu) points
        ≡ sum_by (within (day created 40) received (40 + 1 - 7) 7) busy_tables.ledger)
    × (sum_by (λ p. p.retire) points
        ≡ sum_by (within (day created 40) withdrawn (40 + 1 - 7) 7) busy_tables.ledger)
    × (sum_by (λ p. p.frais) points
        ≡ sum_by (within (day created 40) (λ t. t.fee) (40 + 1 - 7) 7) busy_tables.ledger)
daily_stats_complete_example =
    daily_stats_complete (day created 40) 40 7 busy_tables (omega arith) (omega arith)

dashboard_today-eq-daily_example :
    let stats = dashboard_stats created (40 * 86400) busy_tables in
    (earlier : List DailyStatPoint) × (daily_stats (day created 40) 40 7 busy_tables
      ≡ reply (
          earlier
          ++ record {
            date = 40;
            recu = stats.recu_aujourdhui;
            retire = stats.retire_aujourdhui;
            frais = stats.frais_collectes_aujourdhui;
          }
            ∷ []))
dashboard_today-eq-daily_example =
    dashboard_today-eq-daily created 40 7 busy_tables (omega arith) (omega arith) (omega arith)
      (omega arith, (omega arith, (omega arith, tt)))

abbrev links_payload : PaymentLinks
links_payload = record {
  wave = some (codes "https://pay");
  orange = some [];
  mtn = none;
  moov = none;
}

abbrev nine_percent : Db
nine_percent = (update_fee_percent_route (whole 9) tables).1

settings_roundtrip_example :
    ((update_fee_percent_route (whole 9) tables).0 ≡ reply (whole 9))
    × ((update_payment_links_route links_payload nine_percent).0
        ≡ merged links_payload (get_payment_links tables))
    × (get_current_fee_percent (update_payment_links_route links_payload nine_percent).1 ≡ whole 9)
    × (get_fee_percent_route (update_payment_links_route links_payload nine_percent).1 ≡ whole 9)
    × (get_current_payment_links (update_payment_links_route links_payload nine_percent).1
        ≡ merged links_payload (get_payment_links tables))
    × (get_payment_links_route (update_payment_links_route links_payload nine_percent).1
        ≡ merged links_payload (get_payment_links tables))
unfolding scale
settings_roundtrip_example = settings_roundtrip (whole 9) links_payload tables refl
