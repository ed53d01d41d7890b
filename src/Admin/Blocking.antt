-- ===== src/Admin/Blocking.antt =====
-- A user whom `PUT /admin/users/{user_id}/status` blocks (app/api_admin.py) cannot log in any more
-- (app/api_auth.py), but a token that was issued before is still accepted (app/auth.py).
use backend_ayak_bine.Base.{
  ℕ, ◌+◌, ◌≤◌, ◌≡◌, refl, sym, false, some, List, [], ◌∷◌, ◌==◌, arith, find, update_where, reply,
}
use mathlib.Core.Path.{subst}
use backend_ayak_bine.Ledger.{Db, User}
use backend_ayak_bine.Auth.{
  Crypto, token_lifetime, find_user, create_access_token, get_current_user,
}
use backend_ayak_bine.Auth.Session.{Decodes, token_authenticates}
use backend_ayak_bine.Admin.{update_user_status}

abbrev pub blocked : User → User
blocked u = record u { is_active = false }

find_user-blocked :
    (uid : ℕ) (us : List User) (u : User)
    → find (λ x. x.id == uid) us ≡ some u
    → find (λ x. x.id == uid) (update_where (λ x. x.id == uid) blocked us) ≡ some (blocked u)
find_user-blocked uid [] u h = cc
find_user-blocked uid (x ∷ us) u h = ground (arith, find_user-blocked uid us u)

status-made :
    (uid : ℕ) (db db' : Db)
    → update_user_status uid false db ≡ (reply false, db')
    → (u : User) × (find_user uid db ≡ some u)
      × (db' ≡ record db { users = update_where (λ x. x.id == uid) blocked db.users })
unfolding update_user_status
status-made uid db db' h = ground arith

find_user-id_same :
    (uid : ℕ) (us : List User) (u : User) → find (λ x. x.id == uid) us ≡ some u → u.id ≡ uid
find_user-id_same uid [] u h = cc
find_user-id_same uid (x ∷ us) u h = ground (arith, find_user-id_same uid us u)

-- After an administrator has blocked a user, a token that the user got before still stands for that user,
-- who is marked inactive, in every request until the token expires.
pub blocked_token_accepted :
    {Token : Type 0} (crypto : Crypto Token) (issued now uid : ℕ) (db db' : Db)
    → Decodes crypto
    → now ≤ issued + token_lifetime
    → update_user_status uid false db ≡ (reply false, db')
    → (u : User) × (get_current_user crypto now (create_access_token crypto issued uid) db'
        ≡ reply u)
      × (u.is_active ≡ false)
blocked_token_accepted crypto issued now uid db db' d le h =
    let (u, found, made) = status-made uid db db' h in
    let marked = find_user-blocked uid db.users u found in
    let same = find_user-id_same uid db.users u found in
    (
      blocked u,
      subst
          (λ i.
            get_current_user crypto now (create_access_token crypto issued i) db'
            ≡ reply (blocked u))
          same
          (token_authenticates crypto issued now (blocked u) db' d le (
            subst (λ x. find_user u.id x ≡ some (blocked u)) (sym made)
              (subst
                (λ i.
                  find (λ x. x.id == i) (update_where (λ x. x.id == uid) blocked db.users)
                  ≡ some (blocked u))
                (sym same) marked))),
      refl,
    )
