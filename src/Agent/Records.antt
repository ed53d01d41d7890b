-- ===== src/Agent/Records.antt =====
-- What a cash-in or a cash-out of app/api/v1/agent.py may leave in the tables, and what the functions that it
-- calls for the client and for the row promise.
use backend_ayak_bine.Base.{
  ℕ, ◌≡◌, ◌⊎◌, true, ◌&&◌, List, ◌∷◌, ◌==◌, Text, exists, All, Response, reply, http_error,
  server_error,
}
use backend_ayak_bine.Agent.{
  Agent, Client, AgentDb, AgentTransaction, AgentTransactionType, AgentTransactionStatus,
}
use backend_ayak_bine.Agent.Cash.{CashRequest, PendingTransaction, CashResponse}

-- A client of that agent.
abbrev pub HasClient : ℕ → ℕ → List Client → Type 0
HasClient agent_id client_id cs =
    exists (λ c. c.id == client_id && c.agent_id == agent_id) cs ≡ true

-- Every transaction has a client, of the agent who made it.
abbrev pub IsTraceable : List Client → List AgentTransaction → Type 0
IsTraceable cs ts = All (λ t. HasClient t.agent_id t.client_id cs) ts

-- `get_or_create_client` finds or adds a client of the agent, and removes none.
pub record FindsClient (get_or_create_client : ℕ → Text → Text → List Client → Client × List Client)
    : Type 0 where
  pub found :
      (agent_id : ℕ) (phone name : Text) (cs : List Client)
      → HasClient agent_id
          (get_or_create_client agent_id phone name cs).0.id
          (get_or_create_client agent_id phone name cs).1
  pub kept :
      (agent_id : ℕ) (phone name : Text) (cs : List Client) (owner client_id : ℕ)
      → HasClient owner client_id cs
      → HasClient owner client_id (get_or_create_client agent_id phone name cs).1

-- `create_pending_transaction` makes a pending row of its arguments.
pub record MakesPending (p : PendingTransaction) (t : AgentTransaction) : Type 0 where
  pub agent_id : t.agent_id ≡ p.agent_id
  pub client_id : t.client_id ≡ p.client_id
  pub reference : t.internal_reference ≡ p.internal_reference
  pub tx_type : t.tx_type ≡ p.tx_type
  pub amount : t.amount ≡ p.amount
  pub status : t.status ≡ AgentTransactionStatus.pending

-- The status of the new row for each answer, and how it names the row.
abbrev pub StatusFor : Response CashResponse → AgentTransaction → Type 0
StatusFor (reply r) t =
    (t.status ≡ AgentTransactionStatus.pending)
    × (r.status ≡ AgentTransactionStatus.pending)
    × (r.internal_reference ≡ t.internal_reference)
    × (r.commission_amount ≡ t.commission_amount)
StatusFor (http_error code) t =
    ((code ≡ 400) × (t.status ≡ AgentTransactionStatus.failed))
    ⊎ ((code ≡ 502) × (t.status ≡ AgentTransactionStatus.pending))
StatusFor server_error t = t.status ≡ AgentTransactionStatus.pending

-- The request has changed no table, or it has added one row, for what was asked.
abbrev pub Records :
    AgentTransactionType
    → Text
    → Agent
    → CashRequest
    → AgentDb
    → Response CashResponse × AgentDb
    → Type 0
Records tx_type reference agent payload db (answer, db') =
    (db' ≡ db)
    ⊎ ((t : AgentTransaction) × (db'.transactions ≡ t ∷ db.transactions)
        × (t.agent_id ≡ agent.id)
        × (t.internal_reference ≡ reference)
        × (t.tx_type ≡ tx_type)
        × (t.amount ≡ payload.amount)
        × StatusFor answer t
        × (IsTraceable db.clients db.transactions → IsTraceable db'.clients db'.transactions))
