-- ===== src/Push/Laws.antt =====
-- Which tokens a notification removes (app/push_service.py, app/services/push_service.py).
use backend_ayak_bine.Base.{
  ℕ, ◌≡◌, refl, sym, ◌∙◌, Bool, false, not, ◌&&◌, Option, none, List, [], ◌∷◌, ◌==◌, arith,
  select_where, text_in, leb,
}
use backend_ayak_bine.Ledger.{DeviceToken}
use backend_ayak_bine.Push.{
  FcmOutcome, response, network_error, unexpected, invalid_token_fcm_codes, still_valid,
  send_to_token, service_send_to_token, keeps_token, notify_tokens, Credentials, unconfigured,
  refresh_failed, ready, notify_user, service_notify_user,
}

-- An answer that says that the token is gone.
abbrev pub rejected : FcmOutcome → Bool
rejected (response status code) = leb 400 status && text_in code invalid_token_fcm_codes
rejected network_error = false
rejected unexpected = false

keeps_iff : (o : FcmOutcome) → keeps_token (send_to_token o) ≡ not (rejected o)
unfolding send_to_token still_valid
keeps_iff (response status code) = ground arith
keeps_iff network_error = refl
keeps_iff unexpected = refl

service_keeps_iff : (o : FcmOutcome) → keeps_token (service_send_to_token o) ≡ not (rejected o)
unfolding service_send_to_token still_valid
service_keeps_iff (response status code) = ground arith
service_keeps_iff network_error = refl
service_keeps_iff unexpected = refl

-- The loop keeps the rows of other users and those whose token FCM did not reject.
notify_tokens-eq-select :
    (send : FcmOutcome → Option Bool) (fcm : ℕ → FcmOutcome) (user_id : ℕ) (ds : List DeviceToken)
    → ((o : FcmOutcome) → keeps_token (send o) ≡ not (rejected o))
    → notify_tokens send fcm user_id ds
      ≡ select_where (λ d. not (d.user_id == user_id && rejected (fcm d.token))) ds
unfolding notify_tokens
notify_tokens-eq-select send fcm user_id [] h = refl
notify_tokens-eq-select send fcm user_id (d ∷ ds) h =
    ground (arith, notify_tokens-eq-select send fcm user_id ds h, h (fcm d.token))

notify_tokens-none :
    (fcm : ℕ → FcmOutcome) (user_id : ℕ) (ds : List DeviceToken)
    → notify_tokens (λ _. none) fcm user_id ds ≡ ds
unfolding notify_tokens
notify_tokens-none fcm user_id [] = refl
notify_tokens-none fcm user_id (d ∷ ds) = ground (arith, notify_tokens-none fcm user_id ds)

-- With credentials, exactly the tokens of that user that FCM rejects (a status of 400 or more with the code
-- UNREGISTERED or INVALID_ARGUMENT) are removed, in the order of the others.
pub notify_user-eq-select :
    (fcm : ℕ → FcmOutcome) (user_id : ℕ) (ds : List DeviceToken)
    → notify_user ready fcm user_id ds
      ≡ select_where (λ d. not (d.user_id == user_id && rejected (fcm d.token))) ds
unfolding notify_user
notify_user-eq-select fcm user_id ds =
    notify_tokens-eq-select send_to_token fcm user_id ds keeps_iff

-- The two push services leave the same tokens, for any state of the credentials and any answers.
pub notify_user-eq-service :
    (c : Credentials) (fcm : ℕ → FcmOutcome) (user_id : ℕ) (ds : List DeviceToken)
    → notify_user c fcm user_id ds ≡ service_notify_user c fcm user_id ds
unfolding notify_user service_notify_user
notify_user-eq-service unconfigured fcm user_id ds = refl
notify_user-eq-service refresh_failed fcm user_id ds = sym (notify_tokens-none fcm user_id ds)
notify_user-eq-service ready fcm user_id ds =
    notify_tokens-eq-select send_to_token fcm user_id ds keeps_iff
    ∙ sym (notify_tokens-eq-select service_send_to_token fcm user_id ds service_keeps_iff)
