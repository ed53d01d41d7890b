-- ===== src/Tests/Data.antt =====
-- Test data: three accounts, and a server that answers the same to each call.
use backend_ayak_bine.Base.{
  ℕ, true, Option, none, some, List, [], ◌∷◌, Text, text_eq, codes, leb, if◌then◌else◌,
}
use backend_ayak_bine.Money.{Decimal, whole}
use backend_ayak_bine.Fees.{MobileOperator, compute_total_to_collect}
use backend_ayak_bine.Ledger.{
  Db, User, UserRole, LedgerTransaction, TransactionType, TransactionStatus, PaymentProvider,
  Metadata, Exec, returned, raised,
}
use backend_ayak_bine.Auth.{Claims, Crypto}
use backend_ayak_bine.Jeko.Client.{JekoServer, HttpOutcome}
use backend_ayak_bine.Jeko.Webhook.{Transaction}
use backend_ayak_bine.Jeko.Webhook
use backend_ayak_bine.Jeko.Delivery.{State}

-- Tokens that are the claims themselves.
abbrev pub plain_crypto : Crypto Claims
plain_crypto = record {
  encode = λ c. c;
  decode = λ now c. if leb now c.exp then some c else none;
  hash = λ pin. 7;
  verify = λ pin h. text_eq pin (codes "1234");
}

abbrev pub account : ℕ → Text → UserRole → User
account id phone role = record {
  id = id;
  phone_number = phone;
  full_name = codes "Test";
  pin_code_hash = 7;
  role = role;
  is_active = true;
}

abbrev pub awa : User
awa = account 1 (codes "0700000001") UserRole.user

abbrev pub koffi : User
koffi = account 2 (codes "0700000002") UserRole.user

abbrev pub chief : User
chief = account 3 (codes "0700000003") UserRole.admin

-- A declared deposit of 50.00.
abbrev pub deposit_row : LedgerTransaction
deposit_row = record {
  id = 10;
  reference = 100;
  user_id = 1;
  type = TransactionType.pay_in;
  provider = PaymentProvider.wave;
  amount = 5000;
  fee = 0;
  status = TransactionStatus.pending;
  phone_number = some (codes "0700000001");
  proof_ref = none;
  metadata = Metadata.declared_via (codes "WIDGET");
}

-- Awa has 1000.00.
abbrev pub tables : Db
tables = record {
  users = awa ∷ koffi ∷ chief ∷ [];
  wallets =
      record { user_id = 1; balance = 100000 }
      ∷ record { user_id = 2; balance = 500 }
      ∷ record { user_id = 3; balance = 0 }
      ∷ [];
  ledger = deposit_row ∷ [];
  kyc = [];
  devices = [];
  audit = [];
  fee_percent = none;
  payment_links = [];
}

-- Credits are logged, the newest first.
abbrev pub Credits : Type 0
Credits = List (ℕ × Decimal)

abbrev pub log_credit : ℕ → Decimal → Credits → Option Credits
log_credit user amount w = some ((user, amount) ∷ w)

abbrev pub answering : HttpOutcome → JekoServer
answering o = record {
  payment_requests = λ b i. o;
  payment_request = λ id i. o;
  transfers = λ b i. o;
  transfer = λ id i. o;
}

-- A transfer of 1000 from Wave to MTN.
abbrev pub sending : Transaction
sending = record {
  internal_reference = codes "TRF-1";
  user_id = 1;
  type = Webhook.TransactionType.transfer;
  status = Webhook.TransactionStatus.pending;
  payin_status = some Webhook.TransactionStatus.pending;
  payout_status = none;
  amount = whole 1000;
  total_collected = some (compute_total_to_collect (whole 1000));
  source_operator = some MobileOperator.wave;
  destination_operator = some MobileOperator.mtn;
  recipient_phone = codes "0500000002";
  recipient_name = codes "Koffi";
  jeko_payin_id = some 5;
  jeko_payout_id = none;
  payout_initiation_error = none;
}

abbrev pub service_state : State Credits
service_state = record { locks = []; transactions = sending ∷ []; wallets = [] }

-- What a call returned, and the tables that it left.
abbrev pub reply_of {ℓ} : {A : Type ℓ} → A → Exec A → A
reply_of a (returned b db) = b
reply_of a (raised e) = a

abbrev pub tables_of {ℓ} : {A : Type ℓ} → Exec A → Db
tables_of (returned b db) = db
tables_of (raised e) = tables
