-- ===== src/Auth/Security.antt =====
-- app/core/security.py, the token check of the JEKO services. Their class User is not in the repository: a
-- user is a row with an identifier.
use backend_ayak_bine.Base.{
  ℕ, ◌+◌, ◌*◌, ◌≤◌, ◌≡◌, Option, none, some, List, ◌==◌, find, arith, Response, reply, http_error,
}
use backend_ayak_bine.Ledger.{Db, User}
use backend_ayak_bine.Auth.{
  Crypto, find_user, token_lifetime, create_access_token, get_current_user,
}
use backend_ayak_bine.Auth.Session.{Decodes}

module _ {ℓ} {Token : Type 0} (crypto : Crypto Token) {Row : Type ℓ} (id_of : Row → ℕ) where
  -- `jwt_expire_minutes` of the settings of the services comes as an argument.
  unfoldable pub service_create_access_token : ℕ → ℕ → ℕ → Token
  service_create_access_token jwt_expire_minutes now user_id =
      crypto.encode (record { sub = some user_id; exp = now + jwt_expire_minutes * 60 })

  unfoldable pub service_get_current_user : ℕ → Token → List Row → Response Row
  service_get_current_user now token users = elim (crypto.decode now token) [
    | none ↦ http_error 401
    | some payload ↦ elim payload.sub [
      | none ↦ http_error 401
      | some user_id ↦ elim (find (λ u. id_of u == user_id) users) [
        | none ↦ http_error 401
        | some u ↦ reply u
      ]
    ]
  ]

  -- What the identifier of a token that still stands is answered with.
  abbrev pub user_or_401 : Option Row → Response Row
  user_or_401 none = http_error 401
  user_or_401 (some u) = reply u

  answered :
      (us : List Row) (i : ℕ)
      → elim (find (λ u. id_of u == i) us) [ none ↦ http_error 401 | some u ↦ reply u ]
        ≡ user_or_401 (find (λ u. id_of u == i) us)
  answered us i = ground arith

-- Under one secret both services read both tokens: until it expires, a token that either service has issued
-- for an identifier stands, in the API and in the JEKO services, for the row of that identifier in the
-- service's own table, and is refused with 401 where there is none.
pub tokens_shared {ℓ} :
    {Token : Type 0} (crypto : Crypto Token) {Row : Type ℓ} (id_of : Row → ℕ) (rows : List Row)
    (db : Db) (jwt_expire_minutes issued now user_id : ℕ)
    → Decodes crypto
    → now ≤ issued + token_lifetime
    → now ≤ issued + jwt_expire_minutes * 60
    → let theirs = service_create_access_token crypto id_of jwt_expire_minutes issued user_id in
      let ours = create_access_token crypto issued user_id in
      (service_get_current_user crypto id_of now ours rows
        ≡ user_or_401 crypto id_of (find (λ u. id_of u == user_id) rows))
      × (service_get_current_user crypto id_of now theirs rows
          ≡ user_or_401 crypto id_of (find (λ u. id_of u == user_id) rows))
      × (get_current_user crypto now ours db
          ≡ user_or_401 crypto (λ (u : User). u.id) (find_user user_id db))
      × (get_current_user crypto now theirs db
          ≡ user_or_401 crypto (λ (u : User). u.id) (find_user user_id db))
unfolding service_create_access_token service_get_current_user create_access_token get_current_user
tokens_shared crypto id_of rows db jwt_expire_minutes issued now user_id d le le' =
    let ours = d now (record { sub = some user_id; exp = issued + token_lifetime }) le in
    let theirs =
      d now (record { sub = some user_id; exp = issued + jwt_expire_minutes * 60 }) le' in
    (
      rw (ours, service_get_current_user) (answered crypto id_of rows user_id),
      rw (theirs, service_get_current_user) (answered crypto id_of rows user_id),
      rw (ours, get_current_user) (answered crypto (λ (u : User). u.id) db.users user_id),
      rw (theirs, get_current_user) (answered crypto (λ (u : User). u.id) db.users user_id),
    )
