-- ===== src/Auth/Session.antt =====
-- Logging in, and the user that its token then stands for (app/api_auth.py, app/auth.py).
use backend_ayak_bine.Base.{
  ℕ, ◌+◌, ◌≤◌, ◌≡◌, refl, sym, Bool, true, false, some, List, [], ◌∷◌, ◌==◌, arith, inl, inr,
  Bool-cases, Text, text_eq, find, reply, ==_refl, ==_iff, exists,
}
use mathlib.Core.Path.{subst}
use mathlib.Core.Option.{some-injective}
use backend_ayak_bine.Ledger.{Db, User}
use backend_ayak_bine.Ledger.Store.{find_user_by_phone}
use backend_ayak_bine.Auth.{
  Claims, Crypto, TokenResponse, token_lifetime, find_user, create_access_token, get_current_user,
  token_for, login,
}

-- A token can be read back until it expires: what python-jose documents of `encode` and `decode`.
abbrev pub Decodes : {Token : Type 0} → Crypto Token → Type 0
Decodes crypto = (now : ℕ) (c : Claims) → now ≤ c.exp → crypto.decode now (crypto.encode c) ≡ some c

-- The token of a user who is in the table stands for that user until it expires.
pub token_authenticates :
    {Token : Type 0} (crypto : Crypto Token) (issued now : ℕ) (u : User) (db : Db)
    → Decodes crypto
    → now ≤ issued + token_lifetime
    → find_user u.id db ≡ some u
    → get_current_user crypto now (token_for crypto issued u).access_token db ≡ reply u
unfolding get_current_user create_access_token
token_authenticates crypto issued now u db d le found =
    rw (d now (record { sub = some u.id; exp = issued + token_lifetime }) le, get_current_user)
      (rw found refl)

login-made :
    {Token : Type 0} (crypto : Crypto Token) (now : ℕ) (phone pin : Text) (db : Db)
    (r : TokenResponse Token)
    → login crypto now phone pin db ≡ reply r
    → (u : User) × (find_user_by_phone phone db ≡ some u)
      × (crypto.verify pin u.pin_code_hash ≡ true)
      × (u.is_active ≡ true)
      × (r ≡ token_for crypto now u)
unfolding login
login-made crypto now phone pin db r h = ground arith

-- `id` is the primary key of users.
abbrev pub UniqueUsers : List User → Type 0
UniqueUsers [] = Unit
UniqueUsers (u ∷ us) = (exists (λ x. x.id == u.id) us ≡ false) × UniqueUsers us

exists-selected_user :
    (q : User → Bool) (us : List User) (u : User)
    → find q us ≡ some u
    → exists (λ x. x.id == u.id) us ≡ true
exists-selected_user q [] u h = cc
exists-selected_user q (x ∷ us) u h = ground (arith, exists-selected_user q us u)

distinct_users :
    (x u : User) (us : List User)
    → exists (λ y. y.id == x.id) us ≡ false
    → exists (λ y. y.id == u.id) us ≡ true
    → (x.id == u.id) ≡ false
distinct_users x u us h k = elim (Bool-cases (x.id == u.id)) [
  | inr e ↦ e
  | inl e ↦ cc (subst (λ i. exists (λ y. y.id == i) us ≡ false) ((==_iff x.id u.id).0 e) h, k)
]

-- A user whom some search finds is the one whom its identifier finds.
pub find_user-id :
    (q : User → Bool) (us : List User) (u : User)
    → UniqueUsers us
    → find q us ≡ some u
    → find (λ x. x.id == u.id) us ≡ some u
find_user-id q [] u k h = cc
find_user-id q (x ∷ us) u k h = elim (Bool-cases (q x)) [
  | inl e ↦
      subst (λ y. find (λ z. z.id == y.id) (x ∷ us) ≡ some y) (some-injective x u (rw e at h))
        (rw (==_refl x.id) refl)
  | inr e ↦
      let found : find q us ≡ some u = rw e at h in
      rw (distinct_users x u us k.0 (exists-selected_user q us u found))
        (find_user-id q us u k.1 found)
]

-- A login that succeeds names an active user with that phone number, whose hash the PIN verifies, and
-- until the token expires every request that bears it is answered for that user.
pub login_authenticates :
    {Token : Type 0} (crypto : Crypto Token) (issued now : ℕ) (phone pin : Text) (db : Db)
    (r : TokenResponse Token)
    → Decodes crypto
    → UniqueUsers db.users
    → now ≤ issued + token_lifetime
    → login crypto issued phone pin db ≡ reply r
    → (u : User) × (find_user_by_phone phone db ≡ some u)
      × (crypto.verify pin u.pin_code_hash ≡ true)
      × (u.is_active ≡ true)
      × (get_current_user crypto now r.access_token db ≡ reply u)
login_authenticates crypto issued now phone pin db r d k le h =
    let (u, found, verified, active, same) = login-made crypto issued phone pin db r h in
    (
      u,
      found,
      verified,
      active,
      subst (λ x. get_current_user crypto now x.access_token db ≡ reply u) (sym same)
          (token_authenticates crypto issued now u db d le
            (find_user-id (λ x. text_eq x.phone_number phone) db.users u k found)),
    )
