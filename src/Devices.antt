-- ===== src/Devices.antt =====
-- Device tokens: app/api_devices.py, and app/api/v1/devices.py of the JEKO services.
pub mod Laws
use backend_ayak_bine.Base.{
  ℕ, Bool, true, false, ◌&&◌, ◌||◌, Option, none, some, List, [], ◌∷◌, Text, codes, ◌==◌,
  if◌then◌else◌, ltb, length, find, select_where, update_where, exists, Response, reply, http_error,
  server_error,
}
use backend_ayak_bine.Ledger.{DeviceToken}

abbrev pub has_token : ℕ → DeviceToken → Bool
has_token token d = d.token == token

-- `existing = ….scalar_one_or_none()`, then the assignment or the INSERT.
unfoldable pub upsert :
    List DeviceToken → ℕ → ℕ → Text → List DeviceToken → Response (Unit {0}) × List DeviceToken
upsert [] user_id token platform rows =
    (reply tt, record { user_id = user_id; token = token; platform = platform } ∷ rows)
upsert (existing ∷ []) user_id token platform rows = (
  reply tt,
  update_where (has_token token) (λ d. record d { user_id = user_id; platform = platform }) rows,
)
upsert (existing ∷ other ∷ more) user_id token platform rows = (server_error, rows)

-- The tables number the texts of the tokens: a request has the number and the length of its token.
pub record DeviceRegisterRequest : Type 0 where
  pub fcm_token : ℕ
  pub fcm_token_length : ℕ
  pub platform : Text

-- A token that is known goes to the user who registers it. A token of less than 10 characters is refused;
-- one of more than 255, or a platform of more than 20, does not fit its column.
unfoldable pub register_device :
    ℕ → DeviceRegisterRequest → List DeviceToken → Response (Unit {0}) × List DeviceToken
register_device user_id p rows =
    if ltb p.fcm_token_length 10
    then (http_error 422, rows)
    else if ltb 255 p.fcm_token_length || ltb 20 (length p.platform)
    then (server_error, rows)
    else upsert (select_where (has_token p.fcm_token) rows) user_id p.fcm_token p.platform rows

abbrev pub has_pair : ℕ → ℕ → DeviceToken → Bool
has_pair user_id token d = d.user_id == user_id && d.token == token

-- `register_device` of app/api/v1/devices.py: a row for each pair of a user and a token. Its rows have no
-- platform there.
unfoldable pub register_device_pair :
    ℕ → ℕ → List DeviceToken → Response (Unit {0}) × List DeviceToken
register_device_pair user_id token rows = elim (select_where (has_pair user_id token) rows) [
  | [] ↦ (reply tt, record { user_id = user_id; token = token; platform = codes "" } ∷ rows)
  | existing ∷ [] ↦ (reply tt, rows)
  | existing ∷ other ∷ more ↦ (server_error, rows)
]
