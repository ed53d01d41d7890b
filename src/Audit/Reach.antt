-- ===== src/Audit/Reach.antt =====
-- The histories of the live API: every sequence of requests to the routes of app/api_auth.py,
-- app/api_wallet.py, app/api_kyc.py, app/api_devices.py and app/api_admin.py that write the tables, with the
-- guards of the routes inside them.
use backend_ayak_bine.Base.{
  ℕ, ◌≡◌, refl, Bool, Option, none, some, List, [], ◌∷◌, ◌==◌, arith, Text,
}
use backend_ayak_bine.Money.{Decimal}
use backend_ayak_bine.Money.Round.{HasCents}
use backend_ayak_bine.Ledger.{
  Db, LedgerTransaction, KycSubmission, DeviceToken, PaymentLink, TransactionType,
}
use backend_ayak_bine.Ledger.Store.{find_transaction}
use backend_ayak_bine.Ledger.Payout.{Action, approve, reject, unknown, action_of}
use backend_ayak_bine.Ledger.Payout
use backend_ayak_bine.Ledger.Service.{
  admin_process_payout, set_fee_percent, set_payment_links, put_links,
}
use backend_ayak_bine.Auth.{Crypto, RegisterRequest, register, bootstrap_admin, update_me, strip}
use backend_ayak_bine.Push.{Credentials, FcmOutcome, notify_user}
use backend_ayak_bine.Kyc.{KycSubmitRequest, submit_kyc, Decision, kyc_decide_jwt}
use backend_ayak_bine.Devices.{DeviceRegisterRequest, register_device}
use backend_ayak_bine.Wallet.{
  outcome, or_bad_request, PayInDeclareRequest, declare_payin, declare_payin_async, payout_request,
  TransferIds, transfer_internal_endpoint,
}
use backend_ayak_bine.Admin.{
  process_payout_route, process_payin_route, credit_user_wallet, update_user_status,
  update_fee_percent_route,
}
use backend_ayak_bine.Audit.{IsValid}
use backend_ayak_bine.Audit.Rules.{After-bind}
use backend_ayak_bine.Audit.Payout.{admin_process_payout-IsValid}
use backend_ayak_bine.Audit.Accounts.{register-IsValid, bootstrap_admin-IsValid, users-IsValid}
use backend_ayak_bine.Audit.Requests.{
  outcome-IsValid, declare_payin-IsValid, declare_payin_async-IsValid, payout_request-IsValid,
  credit_user_wallet-IsValid,
}
use backend_ayak_bine.Audit.Steps.{transfer_internal_endpoint-IsValid, process_payin_route-IsValid}

-- The transaction is a withdrawal, if it is there.
abbrev pub NamesPayout : ℕ → Db → Type 0
NamesPayout tid db =
    (t : LedgerTransaction) → find_transaction tid db ≡ some t → t.type ≡ TransactionType.pay_out

-- One request to a route, with what its client and the random sources put in, or one notification in the
-- background, which the routes of the administration leave behind and which runs at some time after the answer.
pub data Request : Type 0 where
  register_account : ℕ → ℕ → RegisterRequest → Request
  bootstrap : ℕ → ℕ → Text → Text → Text → Text → Request
  rename : ℕ → Option Text → Request
  declare declare_async : ℕ → ℕ → ℕ → PayInDeclareRequest → Request
  withdraw : ℕ → ℕ → ℕ → Decimal → Text → Text → Request
  transfer : Credentials → (ℕ → FcmOutcome) → TransferIds → ℕ → Decimal → Text → Request
  settle_payout : ℕ → Text → Option Text → ℕ → Request
  settle_payin : ℕ → Text → Option Text → Text → Request
  credit_by_hand : ℕ → ℕ → ℕ → Decimal → Text → ℕ → Request
  set_status : ℕ → Bool → Request
  set_fee : Decimal → Request
  set_links : List (Text × Option Text) → Request
  submit : ℕ → ℕ → KycSubmitRequest → Request
  decide_submission : ℕ → Decision → Option Text → Request
  register_token : ℕ → DeviceRegisterRequest → Request
  notify_later : Credentials → (ℕ → FcmOutcome) → ℕ → Request

-- The tables that the migrations leave.
abbrev pub empty_db : Db
empty_db = record {
  users = [];
  wallets = [];
  ledger = [];
  kyc = [];
  devices = [];
  audit = [];
  fee_percent = none;
  payment_links = [];
}

-- A withdrawal asks for whole hundredths, and a settlement of a withdrawal names one.
abbrev pub Admissible : Request → Db → Type 0
Admissible (withdraw tid reference uid amount provider phone) db = (c : ℕ) × HasCents amount c
Admissible (settle_payout tid action proof admin_id) db = NamesPayout tid db
Admissible _ db = Unit

module _ {Token : Type 0} (crypto : Crypto Token) where
  -- The tables after a request.
  unfoldable pub handle : Request → Db → Db
  handle (register_account now id r) db = (register crypto now id r db).1
  handle (bootstrap now id secret phone pin given) db =
      (bootstrap_admin crypto now id secret phone pin given db).1
  handle (rename uid name) db = (update_me uid name db).1
  handle (declare tid reference uid p) db = (declare_payin tid reference uid p db).1
  handle (declare_async tid reference uid p) db = (declare_payin_async tid reference uid p db).1
  handle (withdraw tid reference uid amount provider phone) db =
      (payout_request tid reference uid amount provider phone db).1
  handle (transfer c fcm ids uid amount phone) db =
      (transfer_internal_endpoint c fcm ids uid amount phone db).1
  handle (settle_payout tid action proof admin_id) db =
      (process_payout_route tid action proof admin_id db).1
  handle (settle_payin tid action proof phone) db =
      (process_payin_route tid action proof phone db).1
  handle (credit_by_hand tid reference uid amount reason admin_id) db =
      (credit_user_wallet tid reference uid amount reason admin_id db).1
  handle (set_status uid active) db = (update_user_status uid active db).1
  handle (set_fee percent) db = (update_fee_percent_route percent db).1
  handle (set_links items) db = set_payment_links items db
  handle (submit id uid p) db = record db { kyc = (submit_kyc id uid p db.kyc).1 }
  handle (decide_submission sid d reason) db = record db {
    kyc = (kyc_decide_jwt sid d reason db.users db.kyc).1;
  }
  handle (register_token uid p) db = record db { devices = (register_device uid p db.devices).1 }
  handle (notify_later c fcm uid) db = record db { devices = notify_user c fcm uid db.devices }

  -- The requests of a history, one after another.
  unfoldable pub handle_all : List Request → Db → Db
  handle_all [] db = db
  handle_all (r ∷ rs) db = handle_all rs (handle r db)

  abbrev pub AllAdmissible : List Request → Db → Type 0
  AllAdmissible [] db = Unit
  AllAdmissible (r ∷ rs) db = Admissible r db × AllAdmissible rs (handle r db)

-- The other tables do not matter.
unchanged-IsValid :
    (db : Db) (kyc : List KycSubmission) (devices : List DeviceToken) (fee : Option Decimal)
    (links : List (PaymentLink × Text))
    → IsValid db
    → IsValid (record db { kyc = kyc; devices = devices; fee_percent = fee; payment_links = links })
unchanged-IsValid db kyc devices fee links v = record {
  ids = v.ids;
  references = v.references;
  owners = v.owners;
  balanced = v.balanced;
}

process_payout_route-IsValid :
    (tid : ℕ) (action : Text) (proof : Option Text) (admin_id : ℕ) (db : Db)
    → NamesPayout tid db
    → IsValid db
    → IsValid (process_payout_route tid action proof admin_id db).1
unfolding process_payout_route
process_payout_route-IsValid tid action proof admin_id db h v =
    ground (arith, v, settled approve, settled reject)
  where
    settled :
        (a : Action)
        → IsValid (outcome (admin_process_payout tid a proof admin_id none db) or_bad_request db).1
    settled a =
        outcome-IsValid (admin_process_payout tid a proof admin_id none db) or_bad_request db
          (unfold admin_process_payout in
            After-bind (λ _ db'. IsValid db') _ (Payout.admin_process_payout tid a proof admin_id)
              db (admin_process_payout-IsValid tid a proof admin_id db h v))
          v

update_me-IsValid :
    (uid : ℕ) (name : Option Text) (db : Db) → IsValid db → IsValid (update_me uid name db).1
unfolding update_me
update_me-IsValid uid none db v = v
update_me-IsValid uid (some n) db v = ground (
  arith,
  v,
  users-IsValid (λ u. u.id == uid) (λ u. record u { full_name = strip n }) (λ _. refl) db v,
)

module _ {Token : Type 0} (crypto : Crypto Token) where
  pub handle-IsValid :
      (r : Request) (db : Db) → Admissible r db → IsValid db → IsValid (handle crypto r db)
  unfolding handle update_user_status update_fee_percent_route set_payment_links set_fee_percent
  handle-IsValid (register_account now id r) db h v = register-IsValid crypto now id r db v
  handle-IsValid (bootstrap now id secret phone pin given) db h v =
      bootstrap_admin-IsValid crypto now id secret phone pin given db v
  handle-IsValid (rename uid name) db h v = update_me-IsValid uid name db v
  handle-IsValid (declare tid reference uid p) db h v =
      declare_payin-IsValid tid reference uid db v p
  handle-IsValid (declare_async tid reference uid p) db h v =
      declare_payin_async-IsValid tid reference uid db v p
  handle-IsValid (withdraw tid reference uid amount provider phone) db h v =
      payout_request-IsValid tid reference uid db v amount h.0 provider phone h.1
  handle-IsValid (transfer c fcm ids uid amount phone) db h v =
      transfer_internal_endpoint-IsValid c fcm ids uid amount phone db v
  handle-IsValid (settle_payout tid action proof admin_id) db h v =
      process_payout_route-IsValid tid action proof admin_id db h v
  handle-IsValid (settle_payin tid action proof phone) db h v =
      process_payin_route-IsValid tid action proof phone db v
  handle-IsValid (credit_by_hand tid reference uid amount reason admin_id) db h v =
      credit_user_wallet-IsValid tid reference uid db v amount reason admin_id
  handle-IsValid (set_status uid active) db h v = ground (
    arith,
    v,
    users-IsValid (λ x. x.id == uid) (λ x. record x { is_active = active }) (λ _. refl) db v,
  )
  handle-IsValid (set_fee percent) db h v =
      ground (arith, v, unchanged-IsValid db db.kyc db.devices (some percent) db.payment_links v)
  handle-IsValid (set_links items) db h v =
      unchanged-IsValid db db.kyc db.devices db.fee_percent (put_links items db.payment_links) v
  handle-IsValid (submit id uid p) db h v =
      unchanged-IsValid db (submit_kyc id uid p db.kyc).1 db.devices db.fee_percent db.payment_links
        v
  handle-IsValid (decide_submission sid d reason) db h v =
      unchanged-IsValid db (kyc_decide_jwt sid d reason db.users db.kyc).1 db.devices db.fee_percent
        db.payment_links v
  handle-IsValid (notify_later c fcm uid) db h v =
      unchanged-IsValid db db.kyc (notify_user c fcm uid db.devices) db.fee_percent db.payment_links
        v
  handle-IsValid (register_token uid p) db h v =
      unchanged-IsValid db db.kyc (register_device uid p db.devices).1 db.fee_percent
        db.payment_links v

  -- From valid tables on, whatever requests arrive, in any order and with any arguments: if every
  -- withdrawal asks for whole hundredths and every settlement of a withdrawal names a withdrawal, then after the requests identifiers and references are unique, every row has its user, and every
  -- wallet's balance plus its debits is its credits.
  pub handle_all-IsValid :
      (rs : List Request) (db : Db)
      → AllAdmissible crypto rs db
      → IsValid db
      → IsValid (handle_all crypto rs db)
  unfolding handle_all
  handle_all-IsValid [] db h v = v
  handle_all-IsValid (r ∷ rs) db h v =
      handle_all-IsValid rs (handle crypto r db) h.1 (handle-IsValid r db h.0 v)

pub empty_db-IsValid : IsValid empty_db
empty_db-IsValid = record { ids = tt; references = tt; owners = tt; balanced = λ u b e. cc }
