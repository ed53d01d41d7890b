-- ===== src/Auth/Once.antt =====
-- `POST /auth/bootstrap-admin` (app/api_auth.py) makes one administrator at most.
use backend_ayak_bine.Base.{
  ℕ, ◌≡◌, true, List, [], ◌∷◌, if◌then◌else◌, arith, Text, text_eq, select_where, reply, http_error,
  codes,
}
use backend_ayak_bine.Ledger.{Db, User, UserRole}
use backend_ayak_bine.Auth.{Crypto, TokenResponse, is_admin, insert_user, bootstrap_admin}

abbrev pub administrators : Db → List User
administrators db = select_where (λ u. is_admin u.role) db.users

-- A call that succeeded found no administrator, and leaves exactly one.
bootstrap_admin-made :
    {Token : Type 0} (crypto : Crypto Token) (now id : ℕ) (secret phone pin given : Text)
    (db db' : Db) (r : TokenResponse Token)
    → bootstrap_admin crypto now id secret phone pin given db ≡ (reply r, db')
    → (u : User) × (administrators db' ≡ u ∷ [])
unfolding bootstrap_admin insert_user
bootstrap_admin-made crypto now id secret phone pin given db db' r h = (
  record {
    id = id;
    phone_number = phone;
    full_name = codes "Administrateur";
    pin_code_hash = crypto.hash pin;
    role = UserRole.admin;
    is_active = true;
  },
  ground arith,
)

refused_with_one :
    {Token : Type 0} (crypto : Crypto Token) (now id : ℕ) (secret phone pin given : Text) (db : Db)
    (u : User)
    → administrators db ≡ u ∷ []
    → bootstrap_admin crypto now id secret phone pin given db
      ≡ (if text_eq given secret then http_error 409 else http_error 403, db)
unfolding bootstrap_admin
refused_with_one crypto now id secret phone pin given db u h = ground (arith, h)

-- After a bootstrap that has succeeded, any other one, whatever its secret, its phone number and its
-- PIN, is refused (409 with the right secret, 403 with a wrong one) and changes no table.
pub bootstrap_admin_once :
    {Token : Type 0} (crypto : Crypto Token) (now now' id id' : ℕ)
    (secret phone phone' pin pin' given given' : Text) (db db' : Db) (r : TokenResponse Token)
    → bootstrap_admin crypto now id secret phone pin given db ≡ (reply r, db')
    → bootstrap_admin crypto now' id' secret phone' pin' given' db'
      ≡ (if text_eq given' secret then http_error 409 else http_error 403, db')
bootstrap_admin_once crypto now now' id id' secret phone phone' pin pin' given given' db db' r h =
    let (u, one) = bootstrap_admin-made crypto now id secret phone pin given db db' r h in
    refused_with_one crypto now' id' secret phone' pin' given' db' u one
