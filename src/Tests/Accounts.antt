-- ===== src/Tests/Accounts.antt =====
-- Runs of the accounts and of the routes (app/api_auth.py, app/api_wallet.py, app/api_admin.py, app/api_kyc.py,
-- app/api_devices.py, app/push_service.py).
use backend_ayak_bine.Base.{
  Text, text_in, Option, ℕ, ◌+◌, ◌≤◌, ◌≡◌, refl, true, false, none, some, List, [], ◌∷◌, codes,
  text_eq, Response, reply, http_error, arith,
}
use backend_ayak_bine.Ledger.{
  Db, User, LedgerTransaction, TransactionType, KycSubmission, KycStatus, DeviceToken,
}
use backend_ayak_bine.Ledger.Store.{find_user_by_phone}
use backend_ayak_bine.Ledger.{payment_link_wave}
use backend_ayak_bine.Auth.{
  Claims, token_lifetime, create_access_token, get_current_user, token_for, login, TokenResponse,
  bootstrap_admin, insert_user,
}
use backend_ayak_bine.Auth.Session.{login_authenticates}
use backend_ayak_bine.Auth.Once.{bootstrap_admin_once}
use backend_ayak_bine.Admin.{update_user_status}
use backend_ayak_bine.Admin.Blocking.{blocked_token_accepted}
use backend_ayak_bine.Audit.Reach.{empty_db}
use backend_ayak_bine.Kyc.{submit_kyc, approve, reject, kyc_decide_jwt}
use backend_ayak_bine.Kyc.Laws.{OneActive}
use backend_ayak_bine.Kyc.{KycSubmitRequest}
use backend_ayak_bine.Kyc.{find_submission, is_pending, submit_new, decided}
use backend_ayak_bine.Kyc.History.{
  KycRequest, submit, decide_on, IsSound, handle_all, handle_all-IsSound,
}
use backend_ayak_bine.Kyc.Service.{
  ServiceSubmission, under_review, service_submit_kyc, service_kyc_status, service_submit_kyc_once,
}
use backend_ayak_bine.Devices.{DeviceRegisterRequest, register_device}
use backend_ayak_bine.Devices.Laws.{OneRow, Registered, register_device-Registered}
use backend_ayak_bine.Push.{FcmOutcome, response}
use backend_ayak_bine.Push.Setup.{
  PushSettings, notify_user_background, notify_through_service, notify-eq-service,
}
use backend_ayak_bine.Tests.Data.{plain_crypto, tables, awa}

-- Tokens that are read back when they have not expired.
pub decode_plain :
    (now : ℕ) (c : Claims) → now ≤ c.exp → plain_crypto.decode now (plain_crypto.encode c) ≡ some c
decode_plain now c h = ground (arith, h)

login_authenticates_example :
    (u : User) × (find_user_by_phone (codes "0700000001") tables ≡ some u)
    × (plain_crypto.verify (codes "1234") u.pin_code_hash ≡ true)
    × (u.is_active ≡ true)
    × (get_current_user plain_crypto 50 (token_for plain_crypto 20 awa).access_token tables
        ≡ reply u)
unfolding login text_eq
login_authenticates_example =
    login_authenticates plain_crypto 20 50 (codes "0700000001") (codes "1234") tables
      (token_for plain_crypto 20 awa) decode_plain (refl, (refl, (refl, tt))) (omega arith) refl

blocked_token_accepted_example :
    (u : User) × (get_current_user plain_crypto 50
        (create_access_token plain_crypto 20 1)
        (update_user_status 1 false tables).1
      ≡ reply u)
    × (u.is_active ≡ false)
unfolding update_user_status
blocked_token_accepted_example =
    blocked_token_accepted plain_crypto 20 50 1 tables (update_user_status 1 false tables).1
      decode_plain (omega arith) refl

abbrev first_bootstrap : Response (TokenResponse Claims) × Db
first_bootstrap =
    bootstrap_admin plain_crypto 5 9 (codes "secret") (codes "0799999999") (codes "0000")
      (codes "secret") empty_db

abbrev first_token : TokenResponse Claims
first_token = record {
  access_token = record { sub = some 9; exp = 5 + token_lifetime };
  role = backend_ayak_bine.Ledger.UserRole.admin;
}

bootstrap_admin_once_example :
    bootstrap_admin plain_crypto 6 8
      (codes "secret")
      (codes "0788888888")
      (codes "1111")
      (codes "secret")
      first_bootstrap.1
    ≡ (http_error 409, first_bootstrap.1)
unfolding bootstrap_admin insert_user create_access_token text_eq
bootstrap_admin_once_example =
    bootstrap_admin_once plain_crypto 5 6 9 8 (codes "secret") (codes "0799999999")
      (codes "0788888888") (codes "0000") (codes "1111") (codes "secret") (codes "secret") empty_db
      first_bootstrap.1 first_token refl

abbrev submission : KycSubmission
submission = record {
  id = 1;
  user_id = 1;
  id_document_base64 = codes "AAAAAAAAAAAA";
  selfie_base64 = none;
  status = KycStatus.pending;
  review_note = none;
}

abbrev submissions : List KycSubmission
submissions = submission ∷ []

submissions-OneActive : OneActive submissions
submissions-OneActive u = ground arith

abbrev tokens : List DeviceToken
tokens =
    record { user_id = 1; token = 50; platform = codes "android" }
    ∷ record { user_id = 2; token = 60; platform = codes "android" }
    ∷ []

tokens-OneRow : OneRow tokens
tokens-OneRow token = ground arith

abbrev new_device : DeviceRegisterRequest
new_device = record { fcm_token = 50; fcm_token_length = 142; platform = codes "ios" }

register_device-Registered_example :
    Registered 2 50 (codes "ios") tokens (register_device 2 new_device tokens)
register_device-Registered_example =
    register_device-Registered 2 new_device tokens (omega arith) (omega arith) (omega arith)
      tokens-OneRow

abbrev gone : ℕ → FcmOutcome
gone token = response 404 (codes "UNREGISTERED")

abbrev photo : KycSubmitRequest
photo = record { id_document_base64 = codes "AAAAAAAAAAAA"; selfie_base64 = some [] }

abbrev reviewed : List ServiceSubmission
reviewed = (service_submit_kyc 1 50 7 photo []).1

service_submit_kyc_once_example :
    ((service_kyc_status 7 KycStatus.pending reviewed).submission_status ≡ some under_review)
    × (service_submit_kyc 2 60 7 photo reviewed ≡ (http_error 409, reviewed))
unfolding service_submit_kyc
service_submit_kyc_once_example =
    service_submit_kyc_once 1 50 2 60 7 photo photo KycStatus.pending [] reviewed (1, under_review)
      refl refl

abbrev requests : List KycRequest
requests =
    submit 2 1 photo
    ∷ decide_on 1 reject none
    ∷ submit 3 1 photo
    ∷ decide_on 3 approve none
    ∷ decide_on 1 approve none
    ∷ []

handle_all-IsSound_example :
    IsSound tables.users (handle_all tables.users requests submissions)
    × ((k : KycSubmission)
        → find_submission k.id submissions ≡ some k
        → is_pending k.status ≡ false
        → find_submission k.id (handle_all tables.users requests submissions) ≡ some k)
unfolding submit_kyc submit_new kyc_decide_jwt decided
handle_all-IsSound_example =
    handle_all-IsSound tables.users requests submissions (refl, (tt, (refl, (tt, (tt, tt)))))
      ((refl, tt), submissions-OneActive)

abbrev push_settings : PushSettings
push_settings = record {
  firebase_project_id = some (codes "ayak");
  firebase_service_account_json = some (codes "{}");
}

abbrev read_account : Text → Option Text
read_account json = some json

notify-eq-service_example :
    (notify_user_background read_account (λ a. true) push_settings gone 1 tokens
      ≡ record { user_id = 2; token = 60; platform = codes "android" } ∷ [])
    × (notify_through_service read_account (λ a. true) push_settings gone 1 tokens
        ≡ record { user_id = 2; token = 60; platform = codes "android" } ∷ [])
unfolding text_eq text_in
notify-eq-service_example = notify-eq-service read_account (λ a. true) push_settings gone 1 tokens
