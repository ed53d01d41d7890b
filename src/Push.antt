-- ===== src/Push.antt =====
-- Push notifications: app/push_service.py, and app/services/push_service.py of the JEKO services. What FCM
-- answers for a token is a parameter.
pub mod Laws
pub mod Setup
use backend_ayak_bine.Base.{
  ℕ, Bool, true, false, not, ◌&&◌, Option, none, some, List, [], ◌∷◌, Text, text_in, codes, ltb,
  ◌==◌, if◌then◌else◌, exists,
}
use backend_ayak_bine.Ledger.{DeviceToken}

-- `httpx.post(…)`: a response with its status and FCM's error code, an httpx.HTTPError, or another
-- exception, such as one from reading the body.
pub data FcmOutcome : Type 0 where
  response : ℕ → Text → FcmOutcome
  network_error : FcmOutcome
  unexpected : FcmOutcome

abbrev pub invalid_token_fcm_codes : List Text
invalid_token_fcm_codes = codes "UNREGISTERED" ∷ codes "INVALID_ARGUMENT" ∷ []

-- The end of both functions `_send_to_token`.
unfoldable pub still_valid : ℕ → Text → Bool
still_valid status_code fcm_error_code =
    if ltb status_code 400 then true else not (text_in fcm_error_code invalid_token_fcm_codes)

-- `_send_to_token` of app/push_service.py; `none` is an exception that it lets through.
unfoldable pub send_to_token : FcmOutcome → Option Bool
send_to_token (response status_code code) = some (still_valid status_code code)
send_to_token network_error = some true
send_to_token unexpected = none

-- `PushService._send_to_token` of app/services/push_service.py catches no network error.
unfoldable pub service_send_to_token : FcmOutcome → Option Bool
service_send_to_token (response status_code code) = some (still_valid status_code code)
service_send_to_token network_error = none
service_send_to_token unexpected = none

-- A token is deleted if the answer says that it is no longer valid; an exception keeps it.
abbrev pub keeps_token : Option Bool → Bool
keeps_token none = true
keeps_token (some valid) = valid

-- The loop over the tokens of one user, for the tables' rows of all users.
unfoldable pub notify_tokens :
    (FcmOutcome → Option Bool) → (ℕ → FcmOutcome) → ℕ → List DeviceToken → List DeviceToken
notify_tokens send fcm user_id [] = []
notify_tokens send fcm user_id (d ∷ ds) =
    let rest = notify_tokens send fcm user_id ds in
    if d.user_id == user_id && not (keeps_token (send (fcm d.token))) then rest else d ∷ rest

-- `_get_credentials` and `_access_token`: the service account is missing or refused, or it is ready.
pub data Credentials : Type 0 where
  unconfigured refresh_failed ready : Credentials

unfoldable pub notify_user :
    Credentials → (ℕ → FcmOutcome) → ℕ → List DeviceToken → List DeviceToken
notify_user unconfigured fcm user_id ds = ds
notify_user refresh_failed fcm user_id ds = ds
notify_user ready fcm user_id ds = notify_tokens send_to_token fcm user_id ds

-- `get_push_service()` is None, or a service whose access token is there for all the sends of a call or for none:
-- the token is asked for before each send, and is taken to be refreshed alike within one call.
unfoldable pub service_notify_user :
    Credentials → (ℕ → FcmOutcome) → ℕ → List DeviceToken → List DeviceToken
service_notify_user unconfigured fcm user_id ds = ds
service_notify_user refresh_failed fcm user_id ds = notify_tokens (λ _. none) fcm user_id ds
service_notify_user ready fcm user_id ds = notify_tokens service_send_to_token fcm user_id ds
