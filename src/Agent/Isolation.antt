-- ===== src/Agent/Isolation.antt =====
-- What an agent sees through app/api/v1/agent.py.
use backend_ayak_bine.Base.{
  ℕ, ◌≡◌, refl, sym, ap, ◌∙◌, Bool, ◌&&◌, Option, none, some, List, [], ◌∷◌, ◌==◌, Text, text_eq,
  find, select_where, arith, reply, http_error,
}
use backend_ayak_bine.Agent.{
  Agent, Client, AgentDb, AgentTransaction, RawBalance, get_dashboard, list_clients,
  get_client_transactions, get_transaction_status, client_matches, order_by_name,
}

module _ {ℓ} {A : Type ℓ} (own : A → Bool) where
  find-own :
      (p : A → Bool) (xs : List A) → find (λ x. p x && own x) xs ≡ find p (select_where own xs)
  find-own p [] = refl
  find-own p (x ∷ xs) = ground (arith, find-own p xs)

  select_where-own :
      (p : A → Bool) (xs : List A)
      → select_where (λ x. p x && own x) xs ≡ select_where p (select_where own xs)
  select_where-own p [] = refl
  select_where-own p (x ∷ xs) = ground (arith, select_where-own p xs)

  select_where-own_first :
      (p : A → Bool) (xs : List A)
      → select_where (λ x. own x && p x) xs ≡ select_where p (select_where own xs)
  select_where-own_first p [] = refl
  select_where-own_first p (x ∷ xs) = ground (arith, select_where-own_first p xs)

-- The rows of one agent are the same in both tables.
pub record SameFor (agent : Agent) (db db' : AgentDb) : Type 0 where
  pub wallets :
      find (λ w. w.user_id == agent.id) db.wallets ≡ find (λ w. w.user_id == agent.id) db'.wallets
  pub clients :
      select_where (λ c. c.agent_id == agent.id) db.clients
      ≡ select_where (λ c. c.agent_id == agent.id) db'.clients
  pub transactions :
      select_where (λ t. t.agent_id == agent.id) db.transactions
      ≡ select_where (λ t. t.agent_id == agent.id) db'.transactions

module _ (agent : Agent) (db db' : AgentDb) (same : SameFor agent db db') where
  dashboard-same :
      (raw : Option RawBalance) → get_dashboard agent raw db ≡ get_dashboard agent raw db'
  unfolding get_dashboard
  dashboard-same raw = rw (same.wallets, get_dashboard) refl

  clients-same :
      (le_text : Text → Text → Bool) (search : Option Text)
      → list_clients le_text search agent db ≡ list_clients le_text search agent db'
  unfolding list_clients
  clients-same le_text search = ap (order_by_name le_text) (
      select_where-own_first (λ c. c.agent_id == agent.id) (client_matches search) db.clients
      ∙ ap (select_where (client_matches search)) same.clients
      ∙ sym (
          select_where-own_first (λ c. c.agent_id == agent.id) (client_matches search) db'.clients))

  own_transactions :
      (p : AgentTransaction → Bool)
      → select_where (λ t. p t && t.agent_id == agent.id) db.transactions
        ≡ select_where (λ t. p t && t.agent_id == agent.id) db'.transactions
  own_transactions p =
      select_where-own (λ t. t.agent_id == agent.id) p db.transactions
      ∙ ap (select_where p) same.transactions
      ∙ sym (select_where-own (λ t. t.agent_id == agent.id) p db'.transactions)

  own_client :
      (p : Client → Bool)
      → find (λ c. p c && c.agent_id == agent.id) db.clients
        ≡ find (λ c. p c && c.agent_id == agent.id) db'.clients
  own_client p =
      find-own (λ c. c.agent_id == agent.id) p db.clients
      ∙ ap (find p) same.clients
      ∙ sym (find-own (λ c. c.agent_id == agent.id) p db'.clients)

  client_transactions-same :
      (client_id : ℕ)
      → get_client_transactions client_id agent db ≡ get_client_transactions client_id agent db'
  unfolding get_client_transactions
  client_transactions-same client_id = λ i. elim (own_client (λ c. c.id == client_id) i) [
    | none ↦ http_error 404
    | some c ↦ reply (own_transactions (λ t. t.client_id == client_id) i)
  ]

  status-same :
      (reference : Text)
      → get_transaction_status reference agent db ≡ get_transaction_status reference agent db'
  unfolding get_transaction_status
  status-same reference =
      let e =
        find-own (λ t. t.agent_id == agent.id) (λ t. text_eq t.internal_reference reference)
          db.transactions
        ∙ ap (find (λ (t : AgentTransaction). text_eq t.internal_reference reference))
            same.transactions
        ∙ sym (
            find-own (λ t. t.agent_id == agent.id) (λ t. text_eq t.internal_reference reference)
              db'.transactions) in
      rw (e, get_transaction_status) refl

  -- What an agent sees does not depend on the rows of others: on tables that hold the same rows of an
  -- agent, the dashboard, the list of clients for any search and any collation, the transactions of any
  -- client and the status of any reference are answered alike.
  pub agent_sees_own :
      (raw : Option RawBalance) (le_text : Text → Text → Bool) (search : Option Text)
      (client_id : ℕ) (reference : Text)
      → (get_dashboard agent raw db ≡ get_dashboard agent raw db')
        × (list_clients le_text search agent db ≡ list_clients le_text search agent db')
        × (get_client_transactions client_id agent db ≡ get_client_transactions client_id agent db')
        × (get_transaction_status reference agent db ≡ get_transaction_status reference agent db')
  agent_sees_own raw le_text search client_id reference = (
    dashboard-same raw,
    clients-same le_text search,
    client_transactions-same client_id,
    status-same reference,
  )
