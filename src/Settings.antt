-- ===== src/Settings.antt =====
-- The addresses of the database (app/database.py), and the checks of what partners send
-- (app/utils/hmac_verify.py, app/services/kkiapay_client.py).
pub mod Urls
use backend_ayak_bine.Base.{
  ℕ, zero, suc, Bool, true, false, not, ◌&&◌, ◌||◌, Option, none, some, List, [], ◌∷◌, ◌++◌, Text,
  text_eq, text_in, starts_with, upper, codes, is_empty, if◌then◌else◌,
}

-- What follows a prefix that is there.
unfoldable pub drop_prefix : Text → Text → Text
drop_prefix [] s = s
drop_prefix (c ∷ p) [] = []
drop_prefix (c ∷ p) (d ∷ s) = drop_prefix p s

-- `url.replace(old, new, 1)` for a text that starts with `old`.
abbrev pub replace_prefix : Text → Text → Text → Text
replace_prefix old new url = new ++ drop_prefix old url

-- `_async_url`
unfoldable pub async_url : Text → Text
async_url url =
    if starts_with (codes "postgres://") url
    then replace_prefix (codes "postgres://") (codes "postgresql+asyncpg://") url
    else if starts_with (codes "postgresql://") url
    then replace_prefix (codes "postgresql://") (codes "postgresql+asyncpg://") url
    else url

-- `_sync_url`
unfoldable pub sync_url : Text → Text
sync_url url =
    if starts_with (codes "postgresql+asyncpg://") url
    then replace_prefix (codes "postgresql+asyncpg://") (codes "postgresql+psycopg2://") url
    else if starts_with (codes "postgres+asyncpg://") url
    then replace_prefix (codes "postgres+asyncpg://") (codes "postgresql+psycopg2://") url
    else if starts_with (codes "postgres://") url
    then replace_prefix (codes "postgres://") (codes "postgresql+psycopg2://") url
    else if starts_with (codes "postgresql://") url
    then replace_prefix (codes "postgresql://") (codes "postgresql+psycopg2://") url
    else url

-- `verify_jeko_signature`, for `hmac.new(…).hexdigest()` as a parameter; `compare_digest` is equality.
unfoldable pub verify_jeko_signature : (Text → Text → Text) → Text → Text → Option Text → Bool
verify_jeko_signature hmac secret raw_body none = false
verify_jeko_signature hmac secret raw_body (some received) =
    if is_empty received then false else text_eq (hmac secret raw_body) received

-- `verify_webhook_secret`
unfoldable pub verify_webhook_secret : Text → Option Text → Bool
verify_webhook_secret configured none = false
verify_webhook_secret configured (some received) =
    if is_empty configured || is_empty received then false else text_eq received configured

-- `str(kkiapay_data.get("status", "")).upper()`
abbrev pub kkiapay_status : Option Text → Text
kkiapay_status none = []
kkiapay_status (some s) = upper s

unfoldable pub is_success : Option Text → Bool
is_success status = text_eq (kkiapay_status status) (codes "SUCCESS")

unfoldable pub is_definitively_failed : Option Text → Bool
is_definitively_failed status =
    text_in (kkiapay_status status)
      (codes "FAILED" ∷ codes "CANCELLED" ∷ codes "CANCELED" ∷ codes "ERROR" ∷ [])
