-- ===== src/Agent.antt =====
-- app/api/v1/agent.py: the agents who take cash in and pay it out. Its tables (app/models/models.py) and
-- app/services/wallet_service.py are not in the repository: a record has the columns that these routes read and
-- write, and the service's functions are parameters where a route calls them.
pub mod Cash
pub mod Isolation
pub mod Records
pub mod Outcomes
use backend_ayak_bine.Base.{
  ℕ, ◌+◌, Bool, true, false, ◌&&◌, ◌||◌, Option, none, some, List, [], ◌∷◌, ◌++◌, Text, text_eq,
  codes, is_empty, ◌==◌, if◌then◌else◌, find, select_where, update_where, or_else, ilike, Response,
  reply, http_error,
}
use backend_ayak_bine.Money.{Decimal, is_zero, whole}
use backend_ayak_bine.Fees.{MobileOperator}

pub data AgentTransactionType : Type 0 where
  cash_in cash_out : AgentTransactionType

pub data AgentTransactionStatus : Type 0 where
  pending success failed : AgentTransactionStatus

pub record Agent : Type 0 where
  pub id : ℕ
  pub pin_code_hash : Text
  pub commission_rate : Decimal

pub record Client : Type 0 where
  pub id : ℕ
  pub agent_id : ℕ
  pub full_name : Text
  pub phone_number : Text

pub record AgentTransaction : Type 0 where
  pub agent_id : ℕ
  pub client_id : ℕ
  pub internal_reference : Text
  pub tx_type : AgentTransactionType
  pub operator : MobileOperator
  pub amount : Decimal
  pub commission_amount : Decimal
  pub recipient_phone : Text
  pub status : AgentTransactionStatus
  pub jeko_reference : Option ℕ

-- The balance of an agent's wallet: the commissions that were earned.
pub record CommissionWallet : Type 0 where
  pub user_id : ℕ
  pub balance : Decimal

pub record AgentDb : Type 0 where
  pub agents : List Agent
  pub wallets : List CommissionWallet
  pub clients : List Client
  pub transactions : List AgentTransaction

-- What `_parse_store_balance` reads of the JSON, whose figures are numbers.
pub record BalanceEntry : Type 0 where
  pub amount_cents : Option Decimal
  pub balance : Option Decimal
  pub currency : Option Text

pub record RawBalance : Type 0 where
  pub balances : Option (List BalanceEntry)
  pub amount_cents : Option Decimal
  pub balance : Option Decimal
  pub available_cents : Option Decimal
  pub currency : Option Text

-- `Decimal(str(cents)) / 100`
abbrev pub hundredth : Decimal → Decimal
hundredth x = record x { exponent = x.exponent + 2 }

-- Python's `a or b` on a figure that may be missing: zero counts as missing.
abbrev pub figure_or : Option Decimal → Decimal → Decimal
figure_or none d = d
figure_or (some x) d = if is_zero x then d else x

abbrev pub currency_or_xof : Option Text → Text
currency_or_xof c = or_else c (codes "XOF")

-- The loop over the keys "amountCents", "balance" and "availableCents".
unfoldable pub first_key : List (Option Decimal) → Option Text → Decimal × Text
first_key [] currency = (whole 0, codes "XOF")
first_key (none ∷ keys) currency = first_key keys currency
first_key (some cents ∷ keys) currency = (hundredth cents, currency_or_xof currency)

unfoldable pub parse_flat : RawBalance → Decimal × Text
parse_flat raw = first_key (raw.amount_cents ∷ raw.balance ∷ raw.available_cents ∷ []) raw.currency

-- `_parse_store_balance`
unfoldable pub parse_store_balance : RawBalance → Decimal × Text
parse_store_balance raw = elim raw.balances [
  | none ↦ parse_flat raw
  | some [] ↦ parse_flat raw
  | some (entry ∷ entries) ↦ (
    hundredth (figure_or entry.amount_cents (figure_or entry.balance (whole 0))),
    currency_or_xof entry.currency,
  )
]

pub record AgentDashboard : Type 0 where
  pub store_balance : Decimal
  pub currency : Text
  pub commission_earned_total : Decimal
  pub commission_rate : Decimal

-- `none` is a JekoAPIError or a JekoNetworkError.
unfoldable pub store_balance_of : Option RawBalance → Decimal × Text
store_balance_of none = (whole 0, codes "XOF")
store_balance_of (some raw) = parse_store_balance raw

-- `GET /dashboard`
unfoldable pub get_dashboard : Agent → Option RawBalance → AgentDb → Response AgentDashboard
get_dashboard agent raw db = elim (find (λ w. w.user_id == agent.id) db.wallets) [
  | none ↦ http_error 404
  | some w ↦ reply (record {
    store_balance = (store_balance_of raw).0;
    currency = (store_balance_of raw).1;
    commission_earned_total = w.balance;
    commission_rate = agent.commission_rate;
  })
]

-- `PATCH /settings`
unfoldable pub update_settings : Decimal → Agent → AgentDb → AgentDb
update_settings rate agent db = record db {
  agents =
      update_where (λ a. a.id == agent.id) (λ a. record a { commission_rate = rate }) db.agents;
}

-- A missing or empty search selects every client.
unfoldable pub client_matches : Option Text → Client → Bool
client_matches none c = true
client_matches (some search) c =
    if is_empty search
    then true
    else ilike (b'%' ∷ search ++ b'%' ∷ []) c.full_name
      || ilike (b'%' ∷ search ++ b'%' ∷ []) c.phone_number

-- `ORDER BY full_name`, for the collation of the database.
module _ (le_text : Text → Text → Bool) where
  unfoldable pub insert_by_name : Client → List Client → List Client
  insert_by_name c [] = c ∷ []
  insert_by_name c (d ∷ ds) =
      let rest = insert_by_name c ds in
      if le_text c.full_name d.full_name then c ∷ d ∷ ds else d ∷ rest

  unfoldable pub order_by_name : List Client → List Client
  order_by_name [] = []
  order_by_name (c ∷ cs) = insert_by_name c (order_by_name cs)

  -- `GET /clients`
  unfoldable pub list_clients : Option Text → Agent → AgentDb → List Client
  list_clients search agent db =
      order_by_name
        (select_where (λ c. c.agent_id == agent.id && client_matches search c) db.clients)

-- `GET /clients/{client_id}/transactions`
unfoldable pub get_client_transactions : ℕ → Agent → AgentDb → Response (List AgentTransaction)
get_client_transactions client_id agent db =
    elim (find (λ c. c.id == client_id && c.agent_id == agent.id) db.clients) [
      | none ↦ http_error 404
      | some c ↦
          reply
            (select_where (λ t. t.client_id == client_id && t.agent_id == agent.id) db.transactions)
    ]

-- `GET /transactions/{internal_reference}`
unfoldable pub get_transaction_status : Text → Agent → AgentDb → Response AgentTransaction
get_transaction_status internal_reference agent db =
    elim (find (λ t. text_eq t.internal_reference internal_reference && t.agent_id == agent.id)
      db.transactions) [ none ↦ http_error 404 | some t ↦ reply t ]
