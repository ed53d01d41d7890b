-- ===== src/Agent/Cash.antt =====
-- `cash_in` and `cash_out` of app/api/v1/agent.py. The check of the PIN, the agent's lock
-- (`agent_redis_lock`), `get_or_create_client` and `create_pending_transaction` are parameters, and the reference
-- that `generate_internal_reference` draws is an argument.
use backend_ayak_bine.Base.{
  ℕ, Bool, not, Option, List, ◌∷◌, Text, if◌then◌else◌, Response, reply, http_error, server_error,
}
use backend_ayak_bine.Money.{Decimal}
use backend_ayak_bine.Fees.{MobileOperator}
use backend_ayak_bine.Jeko.Client.{
  JekoServer, received, api_error, network_error, uncaught, create_deposit_payment_request,
  create_withdrawal_transfer,
}
use backend_ayak_bine.Jeko.Webhook.{operator_value}
use backend_ayak_bine.Agent.{
  Agent, Client, AgentDb, AgentTransaction, AgentTransactionType, AgentTransactionStatus, cash_in,
  cash_out,
}

-- The payload of both routes.
pub record CashRequest : Type 0 where
  pub pin_code : Text
  pub operator : MobileOperator
  pub amount : Decimal
  pub client_phone_number : Text
  pub client_full_name : Text

-- The keyword arguments of `create_pending_transaction`.
pub record PendingTransaction : Type 0 where
  pub agent_id : ℕ
  pub client_id : ℕ
  pub internal_reference : Text
  pub tx_type : AgentTransactionType
  pub operator : MobileOperator
  pub amount : Decimal
  pub commission_rate : Decimal
  pub recipient_phone : Text

pub record CashResponse : Type 0 where
  pub internal_reference : Text
  pub status : AgentTransactionStatus
  pub commission_amount : Decimal

unfoldable pub pending_transaction :
    AgentTransactionType → Text → Agent → CashRequest → Client → PendingTransaction
pending_transaction tx_type internal_reference agent payload client = record {
  agent_id = agent.id;
  client_id = client.id;
  internal_reference = internal_reference;
  tx_type = tx_type;
  operator = payload.operator;
  amount = payload.amount;
  commission_rate = agent.commission_rate;
  recipient_phone = payload.client_phone_number;
}

abbrev pub failed_transaction : AgentTransaction → AgentTransaction
failed_transaction t = record t { status = AgentTransactionStatus.failed }

abbrev pub initiated : Option ℕ → AgentTransaction → AgentTransaction
initiated id t = record t { jeko_reference = id }

abbrev pub cash_response : Text → AgentTransaction → CashResponse
cash_response internal_reference t = record {
  internal_reference = internal_reference;
  status = AgentTransactionStatus.pending;
  commission_amount = t.commission_amount;
}

module _ (verify_pin : Text → Text → Bool)
    (get_or_create_client : ℕ → Text → Text → List Client → Client × List Client)
    (create_pending_transaction : PendingTransaction → AgentTransaction) (server : JekoServer) where
  -- What the routes share: the PIN, the lock, the client and the pending row, committed before JEKO is
  -- called; then `finish` has the row and the tables without it.
  unfoldable pub open_transaction :
      AgentTransactionType
      → Text
      → Bool
      → Agent
      → CashRequest
      → (AgentTransaction → AgentDb → Response CashResponse × AgentDb)
      → AgentDb
      → Response CashResponse × AgentDb
  open_transaction tx_type internal_reference locked agent payload finish db =
      if not (verify_pin payload.pin_code agent.pin_code_hash)
      then (http_error 403, db)
      else if not locked
      then (http_error 409, db)
      else let found =
          get_or_create_client agent.id payload.client_phone_number payload.client_full_name
            db.clients in
        finish
          (create_pending_transaction
            (pending_transaction tx_type internal_reference agent payload found.0))
          (record db { clients = found.1 })

  -- The row as the request leaves it, on top of the others.
  abbrev pub with_row : AgentTransaction → AgentDb → AgentDb
  with_row t db = record db { transactions = t ∷ db.transactions }

  -- `POST /cash-in`; an exception that nothing catches leaves the row PENDING.
  unfoldable pub finish_cash_in :
      Text → CashRequest → AgentTransaction → AgentDb → Response CashResponse × AgentDb
  finish_cash_in internal_reference payload t db =
      elim (create_withdrawal_transfer server internal_reference payload.amount
        (operator_value payload.operator) payload.client_phone_number payload.client_full_name) [
          | received d ↦
              (reply (cash_response internal_reference t), with_row (initiated d.id t) db)
          | api_error s d ↦ (http_error 400, with_row (failed_transaction t) db)
          | network_error ↦ (http_error 400, with_row (failed_transaction t) db)
          | uncaught ↦ (server_error, with_row t db)
        ]

  unfoldable pub cash_in_route :
      Text → Bool → Agent → CashRequest → AgentDb → Response CashResponse × AgentDb
  unfolding open_transaction
  cash_in_route internal_reference locked agent payload =
      open_transaction cash_in internal_reference locked agent payload
        (finish_cash_in internal_reference payload)

  -- `POST /cash-out`: after a network error the row stays PENDING.
  unfoldable pub finish_cash_out :
      Text → CashRequest → AgentTransaction → AgentDb → Response CashResponse × AgentDb
  finish_cash_out internal_reference payload t db =
      elim (create_deposit_payment_request server internal_reference payload.amount
        (operator_value payload.operator) payload.client_phone_number) [
          | received d ↦
              (reply (cash_response internal_reference t), with_row (initiated d.id t) db)
          | api_error s d ↦ (http_error 400, with_row (failed_transaction t) db)
          | network_error ↦ (http_error 502, with_row t db)
          | uncaught ↦ (server_error, with_row t db)
        ]

  unfoldable pub cash_out_route :
      Text → Bool → Agent → CashRequest → AgentDb → Response CashResponse × AgentDb
  unfolding open_transaction
  cash_out_route internal_reference locked agent payload =
      open_transaction cash_out internal_reference locked agent payload
        (finish_cash_out internal_reference payload)
