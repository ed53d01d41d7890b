-- ===== src/Agent/Outcomes.antt =====
-- What `cash_in` and `cash_out` of app/api/v1/agent.py leave in the tables, for each answer.
use backend_ayak_bine.Base.{
  ℕ, ◌≡◌, inl, inr, refl, sym, Bool, Option, List, [], ◌∷◌, Text, Bool-cases, Response, reply,
  http_error, server_error,
}
use backend_ayak_bine.Jeko.Client.{
  JekoServer, JekoResult, received, api_error, network_error, uncaught,
  create_deposit_payment_request, create_withdrawal_transfer,
}
use backend_ayak_bine.Jeko.Webhook.{operator_value}
use backend_ayak_bine.Agent.{
  Agent, Client, AgentDb, AgentTransaction, AgentTransactionType, AgentTransactionStatus, cash_in,
  cash_out,
}
use backend_ayak_bine.Agent.Cash.{
  CashRequest, PendingTransaction, CashResponse, open_transaction, finish_cash_in, finish_cash_out,
  cash_in_route, cash_out_route, failed_transaction, initiated, cash_response, pending_transaction,
}
use backend_ayak_bine.Agent.Records.{
  HasClient, IsTraceable, FindsClient, MakesPending, StatusFor, Records,
}

module _ (verify_pin : Text → Text → Bool)
    (get_or_create_client : ℕ → Text → Text → List Client → Client × List Client)
    (create_pending_transaction : PendingTransaction → AgentTransaction)
    (finds : FindsClient get_or_create_client)
    (makes : (p : PendingTransaction) → MakesPending p (create_pending_transaction p))
    (server : JekoServer) where
  kept_all :
      (agent_id : ℕ) (phone name : Text) (cs : List Client) (ts : List AgentTransaction)
      → IsTraceable cs ts
      → IsTraceable (get_or_create_client agent_id phone name cs).1 ts
  kept_all agent_id phone name cs [] h = tt
  kept_all agent_id phone name cs (t ∷ ts) h = (
    finds.kept agent_id phone name cs t.agent_id t.client_id h.0,
    kept_all agent_id phone name cs ts h.1,
  )

  module _ (reference : Text) (agent : Agent) (payload : CashRequest) (db : AgentDb) where
    abbrev clients_after : List Client
    clients_after =
        (get_or_create_client agent.id payload.client_phone_number payload.client_full_name
          db.clients).1

    abbrev pending_row : AgentTransactionType → AgentTransaction
    pending_row tx_type = create_pending_transaction (
        pending_transaction tx_type reference agent payload
          (get_or_create_client agent.id payload.client_phone_number payload.client_full_name
            db.clients).0)

    row-IsTraceable :
        (tx_type : AgentTransactionType)
        → IsTraceable db.clients db.transactions
        → HasClient (pending_row tx_type).agent_id (pending_row tx_type).client_id clients_after
          × IsTraceable clients_after db.transactions
    unfolding pending_transaction
    row-IsTraceable tx_type h =
        let made = makes (
          pending_transaction tx_type reference agent payload
            (get_or_create_client agent.id payload.client_phone_number payload.client_full_name
              db.clients).0) in
        (
          rw made.agent_id (
              rw made.client_id (
                finds.found agent.id payload.client_phone_number payload.client_full_name
                  db.clients)),
          kept_all agent.id payload.client_phone_number payload.client_full_name db.clients
              db.transactions h,
        )

    -- A new row in its final state.
    recorded :
        (tx_type : AgentTransactionType) (status : AgentTransactionStatus) (id : Option ℕ)
        (answer : Response CashResponse)
        → StatusFor answer (record (pending_row tx_type) { status = status; jeko_reference = id })
        → Records tx_type reference agent payload db (
          answer,
          record db {
            clients = clients_after;
            transactions =
                record (pending_row tx_type) { status = status; jeko_reference = id }
                ∷ db.transactions;
          },
        )
    unfolding pending_transaction
    recorded tx_type status id answer s =
        let made = makes (
          pending_transaction tx_type reference agent payload
            (get_or_create_client agent.id payload.client_phone_number payload.client_full_name
              db.clients).0) in
        inr (
          record (pending_row tx_type) { status = status; jeko_reference = id },
          refl,
          made.agent_id,
          made.reference,
          made.tx_type,
          made.amount,
          s,
          row-IsTraceable tx_type,
        )

    pending :
        (tx_type : AgentTransactionType)
        → (pending_row tx_type).status ≡ AgentTransactionStatus.pending
    pending tx_type = (makes _).status

    accepted :
        (tx_type : AgentTransactionType) (id : Option ℕ)
        → Records tx_type reference agent payload db (
          reply (cash_response reference (pending_row tx_type)),
          record db {
            clients = clients_after;
            transactions = initiated id (pending_row tx_type) ∷ db.transactions;
          },
        )
    unfolding pending_transaction
    accepted tx_type id =
        recorded tx_type (pending_row tx_type).status id
          (reply (cash_response reference (pending_row tx_type)))
          (pending tx_type, refl, sym (makes _).reference, refl)

    refused :
        (tx_type : AgentTransactionType)
        → Records tx_type reference agent payload db (
          http_error 400,
          record db {
            clients = clients_after;
            transactions = failed_transaction (pending_row tx_type) ∷ db.transactions;
          },
        )
    refused tx_type =
        recorded tx_type AgentTransactionStatus.failed (pending_row tx_type).jeko_reference
          (http_error 400) (inl (refl, refl))

    interrupted :
        (tx_type : AgentTransactionType)
        → Records tx_type reference agent payload db (
          server_error,
          record db {
            clients = clients_after;
            transactions = pending_row tx_type ∷ db.transactions;
          },
        )
    interrupted tx_type =
        recorded tx_type (pending_row tx_type).status (pending_row tx_type).jeko_reference
          server_error (pending tx_type)

    finish_cash_in-Records : Records cash_in reference agent payload db (
        finish_cash_in verify_pin get_or_create_client create_pending_transaction server reference
          payload
          (pending_row cash_in)
          (record db { clients = clients_after }))
    unfolding finish_cash_in
    finish_cash_in-Records =
        go
          (create_withdrawal_transfer server reference payload.amount
            (operator_value payload.operator) payload.client_phone_number payload.client_full_name)
          refl
      where
        go :
            (a : JekoResult)
            → create_withdrawal_transfer server reference payload.amount
                (operator_value payload.operator)
                payload.client_phone_number
                payload.client_full_name
              ≡ a
            → Records cash_in reference agent payload db (
                finish_cash_in verify_pin get_or_create_client create_pending_transaction server
                  reference payload
                  (pending_row cash_in)
                  (record db { clients = clients_after }))
        go (received d) e = rw (e, finish_cash_in) (accepted cash_in d.id)
        go (api_error s d) e = rw (e, finish_cash_in) (refused cash_in)
        go network_error e = rw (e, finish_cash_in) (refused cash_in)
        go uncaught e = rw (e, finish_cash_in) (interrupted cash_in)

    finish_cash_out-Records : Records cash_out reference agent payload db (
        finish_cash_out verify_pin get_or_create_client create_pending_transaction server reference
          payload
          (pending_row cash_out)
          (record db { clients = clients_after }))
    unfolding finish_cash_out
    finish_cash_out-Records =
        go
          (create_deposit_payment_request server reference payload.amount
            (operator_value payload.operator) payload.client_phone_number)
          refl
      where
        go :
            (a : JekoResult)
            → create_deposit_payment_request server reference payload.amount
                (operator_value payload.operator)
                payload.client_phone_number
              ≡ a
            → Records cash_out reference agent payload db (
                finish_cash_out verify_pin get_or_create_client create_pending_transaction server
                  reference payload
                  (pending_row cash_out)
                  (record db { clients = clients_after }))
        go (received d) e = rw (e, finish_cash_out) (accepted cash_out d.id)
        go (api_error s d) e = rw (e, finish_cash_out) (refused cash_out)
        go uncaught e = rw (e, finish_cash_out) (interrupted cash_out)
        go network_error e =
            rw (e, finish_cash_out)
              (recorded cash_out (pending_row cash_out).status (pending_row cash_out).jeko_reference
                (http_error 502) (inr (refl, pending cash_out)))

    -- The guards that come first change no table.
    open_transaction-Records :
        (tx_type : AgentTransactionType) (locked : Bool)
        (finish : AgentTransaction → AgentDb → Response CashResponse × AgentDb)
        → Records tx_type reference agent payload db
            (finish (pending_row tx_type) (record db { clients = clients_after }))
        → Records tx_type reference agent payload db (
            open_transaction verify_pin get_or_create_client create_pending_transaction server
              tx_type reference locked agent payload finish db)
    unfolding open_transaction
    open_transaction-Records tx_type locked finish h =
        elim (Bool-cases (verify_pin payload.pin_code agent.pin_code_hash)) [
          | inr wrong ↦ rw (wrong, open_transaction) (inl refl)
          | inl right ↦ elim (Bool-cases locked) [
            | inr busy ↦ rw (right, open_transaction) (rw busy (inl refl))
            | inl taken ↦ rw (right, open_transaction) (rw taken h)
          ]
        ]

    -- Whatever JEKO answers, a cash-in or a cash-out has either changed no table or added exactly one row,
    -- of that agent and type, with the reference and the amount of the request. An accepted request leaves
    -- the row PENDING and names it in its answer, an answer 400 goes with a FAILED row and an answer 502
    -- with a PENDING one; and if every transaction had a client of its agent, it still has.
    -- The client and the row come from functions that find or add a client of the agent without removing
    -- any, and that make a pending row of their arguments.
    pub cash-Records :
        (locked : Bool)
        → Records cash_in reference agent payload db (
            cash_in_route verify_pin get_or_create_client create_pending_transaction server
              reference locked agent payload db)
          × Records cash_out reference agent payload db (
              cash_out_route verify_pin get_or_create_client create_pending_transaction server
                reference locked agent payload db)
    unfolding cash_in_route cash_out_route
    cash-Records locked = (
      open_transaction-Records cash_in locked
          (finish_cash_in verify_pin get_or_create_client create_pending_transaction server
            reference payload)
          finish_cash_in-Records,
      open_transaction-Records cash_out locked
          (finish_cash_out verify_pin get_or_create_client create_pending_transaction server
            reference payload)
          finish_cash_out-Records,
    )
