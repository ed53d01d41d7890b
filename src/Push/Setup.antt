-- ===== src/Push/Setup.antt =====
-- How both push services get their credentials from the settings, and what a notification then does as a whole:
-- `_get_credentials` and `notify_user_background` of app/push_service.py, `configure_push_service` of
-- app/services/push_service.py.
use backend_ayak_bine.Base.{
  ℕ, ◌≡◌, refl, Bool, true, false, not, ◌&&◌, Option, none, some, List, ◌==◌, Text, is_empty,
  if◌then◌else◌, select_where, Bool-cases, inl, inr, ◌∙◌, sym,
}
use backend_ayak_bine.Ledger.{DeviceToken}
use backend_ayak_bine.Push.{
  Credentials, unconfigured, refresh_failed, ready, FcmOutcome, notify_user, service_notify_user,
}
use backend_ayak_bine.Push.Laws.{rejected, notify_user-eq-select, notify_user-eq-service}

pub record PushSettings : Type 0 where
  pub firebase_project_id : Option Text
  pub firebase_service_account_json : Option Text

-- `not value` for a text that may be missing.
abbrev pub is_missing : Option Text → Bool
is_missing none = true
is_missing (some s) = is_empty s

-- `from_json` is `json.loads` and then `Credentials.from_service_account_info`, and none where one raises;
-- `refresh` says whether an access token can be had.
module _ {Account : Type 0} (from_json : Text → Option Account) (refresh : Account → Bool) where
  abbrev pub account_of : Option Text → Option Account
  account_of none = none
  account_of (some json) = from_json json

  unfoldable pub get_credentials : PushSettings → Option Account
  get_credentials s =
      if is_missing s.firebase_project_id
      then none
      else if is_missing s.firebase_service_account_json
      then none
      else account_of s.firebase_service_account_json

  -- The service that the start of the application leaves.
  unfoldable pub configure_push_service : PushSettings → Option Account
  configure_push_service s =
      if is_missing s.firebase_project_id
      then none
      else if is_missing s.firebase_service_account_json
      then none
      else account_of s.firebase_service_account_json

  abbrev pub state_of : Option Account → Credentials
  state_of none = unconfigured
  state_of (some account) = if refresh account then ready else refresh_failed

  -- `notify_user` in a session of its own, on the tables that the request has committed.
  unfoldable pub notify_user_background :
      PushSettings → (ℕ → FcmOutcome) → ℕ → List DeviceToken → List DeviceToken
  notify_user_background s fcm user_id ds =
      notify_user (state_of (get_credentials s)) fcm user_id ds

  -- `get_push_service()`, and its `notify_user` if there is one.
  unfoldable pub notify_through_service :
      PushSettings → (ℕ → FcmOutcome) → ℕ → List DeviceToken → List DeviceToken
  notify_through_service s fcm user_id ds =
      service_notify_user (state_of (configure_push_service s)) fcm user_id ds

  -- The settings name a project and an account that can be read and that gets an access token.
  abbrev pub is_usable : PushSettings → Bool
  is_usable s =
      not (is_missing s.firebase_project_id)
      && not (is_missing s.firebase_service_account_json)
      && elim (account_of s.firebase_service_account_json) [
        | none ↦ false
        | some account ↦ refresh account
      ]

  abbrev pub remaining : Bool → (ℕ → FcmOutcome) → ℕ → List DeviceToken → List DeviceToken
  remaining usable fcm user_id ds =
      if usable
      then select_where (λ d. not (d.user_id == user_id && rejected (fcm d.token))) ds
      else ds

  notify-remaining :
      (s : PushSettings) (fcm : ℕ → FcmOutcome) (user_id : ℕ) (ds : List DeviceToken)
      → notify_user_background s fcm user_id ds ≡ remaining (is_usable s) fcm user_id ds
  unfolding notify_user_background get_credentials notify_user
  notify-remaining s fcm user_id ds = elim (Bool-cases (is_missing s.firebase_project_id)) [
    | inl no_project ↦ rw (no_project, notify_user_background) refl
    | inr project ↦ elim (Bool-cases (is_missing s.firebase_service_account_json)) [
      | inl no_json ↦ rw (project, notify_user_background) (rw no_json refl)
      | inr json ↦
          rw (project, notify_user_background)
            (rw json (by_account (account_of s.firebase_service_account_json)))
    ]
  ]
    where
      by_account :
          (a : Option Account)
          → notify_user (state_of a) fcm user_id ds
            ≡ remaining (elim a [ none ↦ false | some account ↦ refresh account ]) fcm user_id ds
      by_account none = refl
      by_account (some account) = elim (Bool-cases (refresh account)) [
        | inl usable ↦ rw usable (notify_user-eq-select fcm user_id ds)
        | inr refused ↦ rw refused refl
      ]

  -- From the same settings and the same answers both services leave the same tokens: if the settings name a
  -- project and an account that can be read and gets an access token, all but those of the user that FCM
  -- rejects (a status of 400 or more with the code UNREGISTERED or INVALID_ARGUMENT), and else all of them.
  pub notify-eq-service :
      (s : PushSettings) (fcm : ℕ → FcmOutcome) (user_id : ℕ) (ds : List DeviceToken)
      → (notify_user_background s fcm user_id ds ≡ remaining (is_usable s) fcm user_id ds)
        × (notify_through_service s fcm user_id ds ≡ remaining (is_usable s) fcm user_id ds)
  unfolding notify_user_background notify_through_service get_credentials configure_push_service
  notify-eq-service s fcm user_id ds = (
    notify-remaining s fcm user_id ds,
    sym (notify_user-eq-service (state_of (configure_push_service s)) fcm user_id ds)
        ∙ notify-remaining s fcm user_id ds,
  )
