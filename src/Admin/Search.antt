-- ===== src/Admin/Search.antt =====
-- The search for users of app/api_admin.py.
use backend_ayak_bine.Base.{
  ◌≡◌, refl, false, ◌||◌, some, Text, is_empty, lower, contains, ilike-contains, IsPlain,
}
use backend_ayak_bine.Ledger.{User}
use backend_ayak_bine.Auth.{strip}
use backend_ayak_bine.Admin.Accounts.{user_matches}

-- Given the text that a search keeps after its spaces are stripped, and none of % _ and backslash in it, a user is
-- listed exactly when it occurs, whatever the case of its ASCII letters, in the phone number or in the name.
pub user_matches-eq-contains :
    (search : Text) (u : User)
    → is_empty search ≡ false
    → IsPlain (strip search)
    → user_matches (some search) u ≡ (
        contains (lower (strip search)) (lower u.phone_number)
        || contains (lower (strip search)) (lower u.full_name))
unfolding user_matches
user_matches-eq-contains search u given plain = rw given (
    rw (ilike-contains (strip search) u.phone_number plain)
      (rw (ilike-contains (strip search) u.full_name plain) refl))
