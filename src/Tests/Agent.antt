-- ===== src/Tests/Agent.antt =====
-- Runs of app/api/v1/agent.py.
use backend_ayak_bine.Base.{
  ℕ, ◌≡◌, refl, Bool, true, ◌&&◌, none, some, List, [], ◌∷◌, ◌==◌, ==_refl, Text, codes, text_eq,
  find, length, arith, Option-cases, inl, inr,
}
use backend_ayak_bine.Money.{whole}
use backend_ayak_bine.Fees.{MobileOperator}
use backend_ayak_bine.Jeko.Client.{JekoServer, response}
use backend_ayak_bine.Agent.{
  Agent, Client, AgentDb, AgentTransaction, AgentTransactionStatus, cash_in, cash_out,
  get_dashboard, list_clients, get_client_transactions, get_transaction_status,
}
use backend_ayak_bine.Agent.Cash.{CashRequest, PendingTransaction, cash_in_route, cash_out_route}
use backend_ayak_bine.Agent.Isolation.{SameFor, agent_sees_own}
use backend_ayak_bine.Agent.Outcomes.{cash-Records}
use backend_ayak_bine.Agent.Records.{HasClient, FindsClient, MakesPending, Records}
use backend_ayak_bine.Tests.Data.{answering}

abbrev kofi : Agent
kofi = record { id = 1; pin_code_hash = codes "1234"; commission_rate = whole 1 }

abbrev client : ℕ → ℕ → Text → Client
client id agent_id name = record {
  id = id;
  agent_id = agent_id;
  full_name = name;
  phone_number = codes "0701020304";
}

abbrev is_client : ℕ → Text → Client → Bool
is_client agent_id phone c = c.agent_id == agent_id && text_eq c.phone_number phone

abbrev new_client : ℕ → Text → Text → List Client → Client
new_client agent_id phone name cs = record {
  id = length cs;
  agent_id = agent_id;
  full_name = name;
  phone_number = phone;
}

-- The client of that agent with that number, or a new one.
abbrev get_or_create : ℕ → Text → Text → List Client → Client × List Client
get_or_create agent_id phone name cs = elim (find (is_client agent_id phone) cs) [
  | some c ↦ (c, cs)
  | none ↦ (new_client agent_id phone name cs, new_client agent_id phone name cs ∷ cs)
]

found_client :
    (agent_id : ℕ) (phone : Text) (cs : List Client) (c : Client)
    → find (is_client agent_id phone) cs ≡ some c
    → HasClient agent_id c.id cs
found_client agent_id phone [] c h = cc
found_client agent_id phone (d ∷ cs) c h =
    ground (arith, found_client agent_id phone cs c, ==_refl c.id, ==_refl d.id)

get_or_create-FindsClient : FindsClient get_or_create
get_or_create-FindsClient = record {
  found = λ agent_id phone name cs. elim (Option-cases (find (is_client agent_id phone) cs)) [
    | inl e ↦ rw (e, get_or_create) (rw (==_refl (length cs)) (rw (==_refl agent_id) refl))
    | inr (c, e) ↦ rw (e, get_or_create) (found_client agent_id phone cs c e)
  ];
  kept = λ agent_id phone name cs owner client_id h.
      elim (Option-cases (find (is_client agent_id phone) cs)) [
        | inl e ↦ rw (e, get_or_create) (ground (arith, h))
        | inr (c, e) ↦ rw (e, get_or_create) h
      ];
}

abbrev make_pending : PendingTransaction → AgentTransaction
make_pending p = record {
  agent_id = p.agent_id;
  client_id = p.client_id;
  internal_reference = p.internal_reference;
  tx_type = p.tx_type;
  operator = p.operator;
  amount = p.amount;
  commission_amount = whole 10;
  recipient_phone = p.recipient_phone;
  status = AgentTransactionStatus.pending;
  jeko_reference = none;
}

make_pending-MakesPending : (p : PendingTransaction) → MakesPending p (make_pending p)
make_pending-MakesPending p = record {
  agent_id = refl;
  client_id = refl;
  reference = refl;
  tx_type = refl;
  amount = refl;
  status = refl;
}

abbrev desk : AgentDb
desk = record {
  agents = kofi ∷ [];
  wallets = record { user_id = 1; balance = whole 50 } ∷ [];
  clients = client 0 1 (codes "Awa") ∷ [];
  transactions = [];
}

abbrev asked : CashRequest
asked = record {
  pin_code = codes "1234";
  operator = MobileOperator.wave;
  amount = whole 1000;
  client_phone_number = codes "0705060708";
  client_full_name = codes "Yao";
}

abbrev jeko : JekoServer
jeko = answering (response 200 (record { id = some 77; status = some (codes "pending") }))

cash-Records_example :
    Records cash_in
      (codes "CI-1")
      kofi
      asked
      desk
      (cash_in_route text_eq get_or_create make_pending jeko (codes "CI-1") true kofi asked desk)
    × Records cash_out
        (codes "CI-1")
        kofi
        asked
        desk
        (cash_out_route text_eq get_or_create make_pending jeko (codes "CI-1") true kofi asked desk)
cash-Records_example =
    cash-Records text_eq get_or_create make_pending get_or_create-FindsClient
      make_pending-MakesPending jeko (codes "CI-1") kofi asked desk true

-- The same desk with a client and a transaction of another agent.
abbrev shared_desk : AgentDb
shared_desk = record desk {
  clients = client 1 2 (codes "Abou") ∷ desk.clients;
  transactions =
      record (make_pending (record {
        agent_id = 2;
        client_id = 1;
        internal_reference = codes "CO-9";
        tx_type = cash_out;
        operator = MobileOperator.mtn;
        amount = whole 500;
        commission_rate = whole 1;
        recipient_phone = codes "0701020304";
      })) { status = AgentTransactionStatus.success }
      ∷ [];
}

desks-SameFor : SameFor kofi desk shared_desk
desks-SameFor = record { wallets = refl; clients = refl; transactions = refl }

agent_sees_own_example :
    (get_dashboard kofi none desk ≡ get_dashboard kofi none shared_desk)
    × (list_clients text_eq (some (codes "a")) kofi desk
        ≡ list_clients text_eq (some (codes "a")) kofi shared_desk)
    × (get_client_transactions 1 kofi desk ≡ get_client_transactions 1 kofi shared_desk)
    × (get_transaction_status (codes "CO-9") kofi desk
        ≡ get_transaction_status (codes "CO-9") kofi shared_desk)
agent_sees_own_example =
    agent_sees_own kofi desk shared_desk desks-SameFor none text_eq (some (codes "a")) 1
      (codes "CO-9")
