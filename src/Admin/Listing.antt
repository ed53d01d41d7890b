-- ===== src/Admin/Listing.antt =====
-- The lists of app/api_admin.py. `ORDER BY created_at DESC` is the order of the tables, the newest row
-- first, and `ASC` the reverse; where pages are cut, the order in which PostgreSQL returns rows of the same
-- time is a parameter. An answer's row stands for the dictionary of its fields.
use backend_ayak_bine.Base.{
  ℕ, Bool, true, false, ◌&&◌, ◌||◌, Option, none, some, List, [], ◌∷◌, ◌++◌, Text, text_eq, upper,
  codes, is_empty, ltb, ◌==◌, if◌then◌else◌, find, length, take, drop, select_where, ilike,
  Response, reply, http_error, server_error,
}
use mathlib.Core.List.{reverse}
use backend_ayak_bine.Ledger.{
  Db, User, Wallet, LedgerTransaction, TransactionStatus, TransactionType, is_status, is_type,
}
use backend_ayak_bine.Ledger.Store.{find_wallet, find_reference}
use backend_ayak_bine.Auth.{find_user, strip}
use backend_ayak_bine.Admin.Access.{check_secret, is_pending_payout}

-- An integer of a query: `pos n`, or `negsuc n` for -(n + 1).
pub data ℤ : Type 0 where
  pos negsuc : ℕ → ℤ

-- `JOIN users ON users.id = ledger_transactions.user_id`, with the phone number.
unfoldable pub with_phones : List User → List LedgerTransaction → List (LedgerTransaction × Text)
with_phones users [] = []
with_phones users (t ∷ ts) =
    let rest = with_phones users ts in
    elim (find (λ u. u.id == t.user_id) users) [ none ↦ rest | some u ↦ (t, u.phone_number) ∷ rest ]

-- `TransactionType(type.upper())` and `TransactionStatus(status.upper())`; `none` is a ValueError.
unfoldable pub type_named : Text → Option TransactionType
type_named s =
    if text_eq s (codes "PAY_IN")
    then some TransactionType.pay_in
    else if text_eq s (codes "PAY_OUT")
    then some TransactionType.pay_out
    else if text_eq s (codes "INTERNAL_TRANSFER")
    then some TransactionType.internal_transfer
    else none

unfoldable pub status_named : Text → Option TransactionStatus
status_named s =
    if text_eq s (codes "PENDING")
    then some TransactionStatus.pending
    else if text_eq s (codes "SUCCESS")
    then some TransactionStatus.success
    else if text_eq s (codes "FAILED")
    then some TransactionStatus.failed
    else if text_eq s (codes "CANCELLED")
    then some TransactionStatus.cancelled
    else if text_eq s (codes "REVERSED")
    then some TransactionStatus.reversed
    else none

-- A parameter that is missing or empty selects every row, one that names no value is refused.
unfoldable pub filter_of {ℓ} :
    {V : Type ℓ}
    → (Text → Option V)
    → (V → LedgerTransaction → Bool)
    → Option Text
    → Option (LedgerTransaction → Bool)
filter_of named test none = some (λ _. true)
filter_of named test (some s) =
    if is_empty s
    then some (λ _. true)
    else elim (named (upper s)) [ none ↦ none | some v ↦ some (test v) ]

-- `f"%{phone.strip()}%"`
abbrev pub containing : Text → Text
containing s = b'%' ∷ strip s ++ b'%' ∷ []

abbrev pub ilike_opt : Text → Option Text → Bool
ilike_opt p none = false
ilike_opt p (some s) = ilike p s

-- The number of the account or of the recipient; a missing or empty search selects every row.
unfoldable pub phone_matches : Option Text → LedgerTransaction × Text → Bool
phone_matches none row = true
phone_matches (some phone) (t, user_phone) =
    if is_empty phone
    then true
    else ilike (containing phone) user_phone || ilike_opt (containing phone) t.phone_number

pub record TransactionPage : Type 0 where
  pub total : ℕ
  pub items : List (LedgerTransaction × Text)

-- `LIMIT … OFFSET …`: PostgreSQL refuses a negative limit.
unfoldable pub paginate : ℤ → ℕ → List (LedgerTransaction × Text) → Response TransactionPage
paginate (negsuc n) offset rows = server_error
paginate (pos limit) offset rows =
    reply (record { total = length rows; items = take limit (drop offset rows) })

-- `le=200` for the limit and `ge=0` for the offset.
abbrev pub above_200 : ℤ → Bool
above_200 (pos n) = ltb 200 n
above_200 (negsuc n) = false

-- The rows that the filters select; `none` is a type or a status that does not exist.
unfoldable pub selected_transactions :
    Option Text → Option Text → Option Text → Db → Option (List (LedgerTransaction × Text))
selected_transactions type status phone db =
    elim (filter_of type_named (λ v t. is_type t.type v) type) [
      | none ↦ none
      | some has_type ↦ elim (filter_of status_named (λ v t. is_status t.status v) status) [
        | none ↦ none
        | some has_status ↦ some (
            select_where (λ row. has_type row.0 && has_status row.0 && phone_matches phone row)
              (with_phones db.users db.ledger))
      ]
    ]

-- `GET /transactions`; `order` is what this request's ORDER BY makes of the rows.
unfoldable pub list_transactions :
    (List (LedgerTransaction × Text) → List (LedgerTransaction × Text))
    → Option Text
    → Option Text
    → Option Text
    → ℤ
    → ℤ
    → Db
    → Response TransactionPage
list_transactions order type status phone limit (negsuc n) db = http_error 422
list_transactions order type status phone limit (pos offset) db =
    if above_200 limit then http_error 422 else elim (selected_transactions type status phone db) [
      | none ↦ http_error 400
      | some rows ↦ paginate limit offset (order rows)
    ]

-- `GET /pending-payouts` and `GET /pending-payins`
unfoldable pub pending_payouts : Db → List (LedgerTransaction × Text)
pending_payouts db =
    reverse (select_where (λ row. is_pending_payout row.0) (with_phones db.users db.ledger))

unfoldable pub pending_payins : Db → List (LedgerTransaction × Text)
pending_payins db = reverse (
    select_where
      (λ row.
        is_type row.0.type TransactionType.pay_in
        && is_status row.0.status TransactionStatus.pending)
      (with_phones db.users db.ledger))

-- `GET /pending-transactions`
unfoldable pub list_pending_transactions : Text → Text → Db → Response (List LedgerTransaction)
list_pending_transactions configured secret db = elim (check_secret configured secret) [
  | reply _ ↦
      reply (reverse (select_where (λ t. is_status t.status TransactionStatus.pending) db.ledger))
  | http_error n ↦ http_error n
  | server_error ↦ server_error
]

pub record UserDetail : Type 0 where
  pub user : User
  pub wallet_balance : ℕ
  pub history : List LedgerTransaction

abbrev pub balance_or_zero : Option Wallet → ℕ
balance_or_zero none = 0
balance_or_zero (some w) = w.balance

-- `GET /users/{user_id}`
unfoldable pub user_detail : ℕ → Db → Response UserDetail
user_detail uid db = elim (find_user uid db) [
  | none ↦ http_error 404
  | some u ↦ reply (record {
    user = u;
    wallet_balance = balance_or_zero (find_wallet u.id db);
    history = take 100 (select_where (λ t. t.user_id == u.id) db.ledger);
  })
]

pub record UserHistory : Type 0 where
  pub user_id : ℕ
  pub user_phone : Option Text
  pub current_wallet_balance : Option ℕ
  pub transaction_count : ℕ
  pub history : List LedgerTransaction

abbrev pub history_of : ℕ → Db → List LedgerTransaction
history_of uid db = reverse (select_where (λ t. t.user_id == uid) db.ledger)

-- `GET /user-history`
unfoldable pub user_transaction_history : Text → Text → ℕ → Db → Response UserHistory
user_transaction_history configured secret reference db = elim (check_secret configured secret) [
  | http_error n ↦ http_error n
  | server_error ↦ server_error
  | reply _ ↦ elim (find_reference reference db) [
    | none ↦ http_error 404
    | some anchor ↦ reply (record {
      user_id = anchor.user_id;
      user_phone = elim (find_user anchor.user_id db) [
        | none ↦ none
        | some u ↦ some u.phone_number
      ];
      current_wallet_balance = elim (find_wallet anchor.user_id db) [
        | none ↦ none
        | some w ↦ some w.balance
      ];
      transaction_count = length (history_of anchor.user_id db);
      history = history_of anchor.user_id db;
    })
  ]
]
