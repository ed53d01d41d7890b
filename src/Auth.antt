-- ===== src/Auth.antt =====
-- Accounts: app/api_auth.py, app/auth.py and the schemas of app/schemas.py that they read. JSON web tokens
-- (python-jose) and PIN hashes (passlib) are code outside the repository, so they are a parameter.
pub mod Security
pub mod Once
pub mod Session
use backend_ayak_bine.Base.{
  ℕ, suc, ◌+◌, ◌*◌, Bool, true, false, not, ◌&&◌, ◌||◌, Option, none, some, List, [], ◌∷◌, Text,
  text_eq, codes, is_empty, leb, ltb, ◌==◌, if◌then◌else◌, find, exists, update_where, length,
  or_else, select_where, is_some, Response, reply, http_error, server_error,
}
use mathlib.Core.List.{reverse}
use backend_ayak_bine.Ledger.{Db, User, UserRole, Wallet}
use backend_ayak_bine.Ledger.Store.{find_user_by_phone}

-- The claims `sub` and `exp` of a token.
pub record Claims : Type 0 where
  pub sub : Option ℕ
  pub exp : ℕ

-- `jwt.decode` answers `none` where it raises JWTError, at the given time.
pub record Crypto (Token : Type 0) : Type 0 where
  pub encode : Claims → Token
  pub decode : ℕ → Token → Option Claims
  pub hash : Text → ℕ
  pub verify : Text → ℕ → Bool

-- settings.JWT_EXPIRE_MINUTES, in seconds.
abbrev pub token_lifetime : ℕ
token_lifetime = 43200 * 60

abbrev is_space : ℕ → Bool
is_space c = (leb 9 c && leb c 13) || (leb 28 c && leb c 32) || c == 133 || c == 160

lstrip : Text → Text
lstrip [] = []
lstrip (c ∷ s) = let rest = lstrip s in if is_space c then rest else c ∷ s

-- `v.strip()`
unfoldable pub strip : Text → Text
unfolding lstrip
strip s = reverse (lstrip (reverse (lstrip s)))

-- `v.replace(" ", "")`
unfoldable pub remove_spaces : Text → Text
remove_spaces [] = []
remove_spaces (c ∷ s) = if c == 32 then remove_spaces s else c ∷ remove_spaces s

pub record RegisterRequest : Type 0 where
  pub phone_number : Text
  pub full_name : Option Text
  pub pin_code : Text

abbrev name_fits : Option Text → Bool
name_fits none = true
name_fits (some n) = leb (length n) 120

-- `payload.full_name or "Utilisateur"`
abbrev full_name_or_default : Option Text → Text
full_name_or_default none = codes "Utilisateur"
full_name_or_default (some n) = if is_empty n then codes "Utilisateur" else n

-- The constraints of the fields are checked before the validator `_strip` runs.
unfoldable pub validate_register : RegisterRequest → Option RegisterRequest
validate_register r =
    if leb 6 (length r.phone_number)
      && leb (length r.phone_number) 20
      && name_fits r.full_name
      && leb 4 (length r.pin_code)
      && leb (length r.pin_code) 8
    then some (record r { phone_number = remove_spaces (strip r.phone_number) })
    else none

pub record TokenResponse (Token : Type 0) : Type 0 where
  pub access_token : Token
  pub role : UserRole

abbrev pub is_admin : UserRole → Bool
is_admin UserRole.admin = true
is_admin UserRole.user = false

abbrev pub find_user : ℕ → Db → Option User
find_user uid db = find (λ u. u.id == uid) db.users

abbrev pub with_account : User → Db → Db
with_account u db = record db {
  users = u ∷ db.users;
  wallets = record { user_id = u.id; balance = 0 } ∷ db.wallets;
}

-- INSERT of a user and of its wallet: the phone number is UNIQUE, and so are the identifiers.
unfoldable pub insert_user : User → Db → Option Db
insert_user u db =
    if is_some (find_user_by_phone u.phone_number db)
      || is_some (find_user u.id db)
      || exists (λ w. w.user_id == u.id) db.wallets
    then none
    else some (with_account u db)

module _ {Token : Type 0} (crypto : Crypto Token) where
  unfoldable pub create_access_token : ℕ → ℕ → Token
  create_access_token now user_id =
      crypto.encode (record { sub = some user_id; exp = now + token_lifetime })

  -- The payload is decoded, then the user of its `sub` is looked up; each failure is a 401.
  unfoldable pub get_current_user : ℕ → Token → Db → Response User
  get_current_user now token db = elim (crypto.decode now token) [
    | none ↦ http_error 401
    | some payload ↦ elim payload.sub [
      | none ↦ http_error 401
      | some user_id ↦ elim (find_user user_id db) [ none ↦ http_error 401 | some u ↦ reply u ]
    ]
  ]

  abbrev pub token_for : ℕ → User → TokenResponse Token
  token_for now u = record { access_token = create_access_token now u.id; role = u.role }

  -- `id` is the uuid4() of the new user.
  unfoldable pub register : ℕ → ℕ → RegisterRequest → Db → Response (TokenResponse Token) × Db
  register now id request db = elim (validate_register request) [
    | none ↦ (http_error 422, db)
    | some payload ↦ elim (find_user_by_phone payload.phone_number db) [
      | some existing ↦ (http_error 400, db)
      | none ↦
          let u : User = record {
            id = id;
            phone_number = payload.phone_number;
            full_name = full_name_or_default payload.full_name;
            pin_code_hash = crypto.hash payload.pin_code;
            role = UserRole.user;
            is_active = true;
          } in
          elim (insert_user u db) [
            | none ↦ (server_error, db)
            | some db' ↦ (reply (token_for now u), db')
          ]
    ]
  ]

  unfoldable pub login : ℕ → Text → Text → Db → Response (TokenResponse Token)
  login now phone_number pin_code db = elim (find_user_by_phone phone_number db) [
    | none ↦ http_error 401
    | some u ↦
        if not (crypto.verify pin_code u.pin_code_hash)
        then http_error 401
        else if not u.is_active
        then http_error 403
        else reply (token_for now u)
  ]

  -- `scalar_one_or_none()` raises on more than one administrator.
  unfoldable pub bootstrap_admin :
      ℕ → ℕ → Text → Text → Text → Text → Db → Response (TokenResponse Token) × Db
  bootstrap_admin now id configured_secret admin_phone admin_pin bootstrap_secret db =
      if not (text_eq bootstrap_secret configured_secret)
      then (http_error 403, db)
      else elim (select_where (λ u. is_admin u.role) db.users) [
        | existing ∷ [] ↦ (http_error 409, db)
        | existing ∷ other ∷ more ↦ (server_error, db)
        | [] ↦
            let u : User = record {
              id = id;
              phone_number = admin_phone;
              full_name = codes "Administrateur";
              pin_code_hash = crypto.hash admin_pin;
              role = UserRole.admin;
              is_active = true;
            } in
            elim (insert_user u db) [
              | none ↦ (server_error, db)
              | some db' ↦ (reply (token_for now u), db')
            ]
      ]

-- `PUT /me`: the name is stripped, and an empty one is refused.
unfoldable pub update_me : ℕ → Option Text → Db → Response (Unit {0}) × Db
update_me uid full_name db = elim full_name [
  | none ↦ (reply tt, db)
  | some n ↦ if is_empty (strip n) then (http_error 400, db) else (
    reply tt,
    record db {
      users = update_where (λ u. u.id == uid) (λ u. record u { full_name = strip n }) db.users;
    },
  )
]
