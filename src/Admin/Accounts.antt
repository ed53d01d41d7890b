-- ===== src/Admin/Accounts.antt =====
-- The lists of accounts and of identity checks of app/api_admin.py.
use backend_ayak_bine.Base.{
  ℕ, Bool, true, ◌||◌, Option, none, some, List, [], ◌∷◌, Text, is_empty, ltb, ◌==◌, if◌then◌else◌,
  find, take, drop, select_where, exists, ilike, map, Response, reply, http_error, server_error,
}
use mathlib.Core.List.{reverse}
use backend_ayak_bine.Ledger.{Db, User, UserRole, KycSubmission, KycStatus}
use backend_ayak_bine.Ledger.Store.{find_wallet}
use backend_ayak_bine.Kyc.{is_pending}
use backend_ayak_bine.Admin.Access.{check_secret}
use backend_ayak_bine.Admin.Listing.{ℤ, pos, negsuc, containing, balance_or_zero}

pub record AdminUserOut : Type 0 where
  pub id : ℕ
  pub phone_number : Text
  pub full_name : Text
  pub role : UserRole
  pub is_active : Bool
  pub kyc_status : Option KycStatus
  pub wallet_balance : ℕ

-- `kyc_map.get(…)`
unfoldable pub kyc_get : ℕ → List (ℕ × KycStatus) → Option KycStatus
kyc_get uid [] = none
kyc_get uid ((i, s) ∷ m) = if i == uid then some s else kyc_get uid m

-- `kyc_map.setdefault(uid, kstatus)`
unfoldable pub setdefault : ℕ → KycStatus → List (ℕ × KycStatus) → List (ℕ × KycStatus)
setdefault uid s [] = (uid, s) ∷ []
setdefault uid s ((i, r) ∷ m) = if i == uid then (i, r) ∷ m else (i, r) ∷ setdefault uid s m

-- The loop over the submissions of the listed users, the newest first. The code reads the status as text, so
-- that a status that an old row has and KycStatus lacks is shown too; no row of the model has one.
unfoldable pub kyc_map :
    List User → List KycSubmission → List (ℕ × KycStatus) → List (ℕ × KycStatus)
kyc_map users [] m = m
kyc_map users (k ∷ ks) m =
    kyc_map users ks
      (if exists (λ u. u.id == k.user_id) users then setdefault k.user_id k.status m else m)

-- The filter of `search`, which is stripped; a missing or empty one selects every user.
unfoldable pub user_matches : Option Text → User → Bool
user_matches none u = true
user_matches (some search) u =
    if is_empty search
    then true
    else ilike (containing search) u.phone_number || ilike (containing search) u.full_name

unfoldable pub user_out : Db → List (ℕ × KycStatus) → User → AdminUserOut
user_out db m u = record {
  id = u.id;
  phone_number = u.phone_number;
  full_name = u.full_name;
  role = u.role;
  is_active = u.is_active;
  kyc_status = kyc_get u.id m;
  wallet_balance = balance_or_zero (find_wallet u.id db);
}

-- `.limit(limit).offset(offset)` of the matching users, and the answer's rows.
unfoldable pub users_page : Option Text → ℕ → ℕ → Db → List AdminUserOut
users_page search limit offset db =
    let rows = take limit (drop offset (select_where (user_matches search) db.users)) in
    map (user_out db (kyc_map rows db.kyc [])) rows

-- `GET /users`
unfoldable pub list_users : Option Text → ℤ → ℤ → Db → Response (List AdminUserOut)
list_users search limit (negsuc n) db = http_error 422
list_users search (negsuc n) (pos offset) db = server_error
list_users search (pos limit) (pos offset) db =
    if ltb 200 limit then http_error 422 else reply (users_page search limit offset db)

-- `GET /users-page`: the rows of the page.
unfoldable pub users_html_page : Text → Text → Option Text → Db → Response (List AdminUserOut)
users_html_page configured secret search db = elim (check_secret configured secret) [
  | http_error n ↦ http_error n
  | server_error ↦ server_error
  | reply _ ↦ reply (users_page search 500 0 db)
]

-- `JOIN users ON users.id = kyc_submissions.user_id`
unfoldable pub with_users : List User → List KycSubmission → List (KycSubmission × User)
with_users users [] = []
with_users users (k ∷ ks) =
    let rest = with_users users ks in
    elim (find (λ u. u.id == k.user_id) users) [ none ↦ rest | some u ↦ (k, u) ∷ rest ]

-- `GET /kyc/pending-list`
unfoldable pub kyc_pending_list : Db → List (KycSubmission × User)
kyc_pending_list db =
    reverse (select_where (λ row. is_pending row.0.status) (with_users db.users db.kyc))

-- `GET /kyc/pending`: the rows of the page.
unfoldable pub kyc_pending_page : Text → Text → Db → Response (List (KycSubmission × User))
kyc_pending_page configured secret db = elim (check_secret configured secret) [
  | http_error n ↦ http_error n
  | server_error ↦ server_error
  | reply _ ↦
      reply (reverse (select_where (λ row. is_pending row.0.status) (with_users db.users db.kyc)))
]
