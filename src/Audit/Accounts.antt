-- ===== src/Audit/Accounts.antt =====
-- A new account (app/api_auth.py) starts with an empty wallet and no rows, which balance.
use backend_ayak_bine.Base.{
  ℕ, ◌+◌, ◌≡◌, refl, sym, Bool, true, false, none, some, List, [], ◌∷◌, ◌==◌, arith, ==_iff, inl,
  inr, Bool-cases, Option-cases, exists, find, sum_by, update_where, Text, codes, Response, reply,
  server_error,
}
use mathlib.Core.Path.{subst}
use backend_ayak_bine.Ledger.{Db, User, LedgerTransaction, UserRole}
use backend_ayak_bine.Ledger.Store.{find_user_by_phone}
use backend_ayak_bine.Auth.{
  Crypto, RegisterRequest, insert_user, with_account, register, bootstrap_admin, find_user,
  validate_register, token_for,
}
use backend_ayak_bine.Audit.{IsValid, debit_of, credit_of}
use backend_ayak_bine.Audit.Rows.{Owned}
use backend_ayak_bine.Audit.Wallets.{balance_in}

Owned-weaken :
    (u : User) (us : List User) (ts : List LedgerTransaction) → Owned us ts → Owned (u ∷ us) ts
Owned-weaken u us [] o = tt
Owned-weaken u us (t ∷ ts) o = ground (arith, Owned-weaken u us ts)

not_exists :
    (i : ℕ) (us : List User) → find (λ u. u.id == i) us ≡ none → exists (λ u. u.id == i) us ≡ false
not_exists i [] h = refl
not_exists i (u ∷ us) h = ground (arith, not_exists i us)

stranger :
    (i : ℕ) (us : List User) (j : ℕ)
    → exists (λ u. u.id == i) us ≡ false
    → exists (λ u. u.id == j) us ≡ true
    → (j == i) ≡ false
stranger i us j h k = elim (Bool-cases (j == i)) [
  | inr e ↦ e
  | inl e ↦ cc (subst (λ x. exists (λ u. u.id == x) us ≡ true) ((==_iff j i).0 e) k, h)
]

no_rows :
    (i : ℕ) (us : List User) (ts : List LedgerTransaction)
    → exists (λ u. u.id == i) us ≡ false
    → Owned us ts
    → (sum_by (debit_of i) ts ≡ 0) × (sum_by (credit_of i) ts ≡ 0)
no_rows i us [] h o = (refl, refl)
no_rows i us (t ∷ ts) h o = ground (arith, no_rows i us ts h o.1, stranger i us t.user_id h o.0)

with_account-IsValid :
    (u : User) (db : Db) → IsValid db → find_user u.id db ≡ none → IsValid (with_account u db)
with_account-IsValid u db v h = record {
  ids = v.ids;
  references = v.references;
  owners = Owned-weaken u db.users db.ledger v.owners;
  balanced = λ x b e. elim (Bool-cases (u.id == x)) [
    | inl same ↦ own x b same (rw (same, balance_in) at e)
    | inr other ↦ v.balanced x b (rw (other, balance_in) at e)
  ];
}
  where
    own :
        (x b : ℕ)
        → (u.id == x) ≡ true
        → some 0 ≡ some b
        → b + sum_by (debit_of x) db.ledger ≡ sum_by (credit_of x) db.ledger
    own x b same e =
        let i : u.id ≡ x = (==_iff u.id x).0 same in
        let none_of =
          no_rows x db.users db.ledger
            (not_exists x db.users (subst (λ j. find_user j db ≡ none) i h)) v.owners in
        ground (arith, none_of)

insert_user-made :
    (u : User) (db db' : Db)
    → insert_user u db ≡ some db'
    → (find_user u.id db ≡ none) × (db' ≡ with_account u db)
unfolding insert_user
insert_user-made u db db' h = ground arith

pub insert_user-IsValid :
    (u : User) (db db' : Db) → IsValid db → insert_user u db ≡ some db' → IsValid db'
unfolding insert_user
insert_user-IsValid u db db' v h =
    let made = insert_user-made u db db' h in
    subst IsValid (sym made.1) (with_account-IsValid u db v made.0)

-- The two INSERTs and the token that answers them.
inserted-IsValid {ℓ} :
    {A : Type ℓ} (u : User) (answer : A) (db : Db)
    → IsValid db
    → IsValid
        (elim (insert_user u db) as (λ _. Response A × Db) [
          | none ↦ (server_error, db)
          | some db' ↦ (reply answer, db')
        ]).1
inserted-IsValid u answer db v = elim (Option-cases (insert_user u db)) [
  | inl e ↦ rw e v
  | inr (db', e) ↦ rw e (insert_user-IsValid u db db' v e)
]

pub register-IsValid :
    {Token : Type 0} (crypto : Crypto Token) (now id : ℕ) (r : RegisterRequest) (db : Db)
    → IsValid db
    → IsValid (register crypto now id r db).1
unfolding register
register-IsValid crypto now id r db v = elim (Option-cases (validate_register r)) [
  | inl e ↦ rw (e, register) v
  | inr (p, e) ↦ elim (Option-cases (find_user_by_phone p.phone_number db)) [
    | inr (x, f) ↦ rw (e, register) (rw f v)
    | inl f ↦ rw (e, register) (rw f (inserted-IsValid _ _ db v))
  ]
]

pub bootstrap_admin-IsValid :
    {Token : Type 0} (crypto : Crypto Token) (now id : ℕ) (secret phone pin given : Text) (db : Db)
    → IsValid db
    → IsValid (bootstrap_admin crypto now id secret phone pin given db).1
unfolding bootstrap_admin
bootstrap_admin-IsValid crypto now id secret phone pin given db v = ground (
  arith,
  v,
  inserted-IsValid
      (record {
        id = id;
        phone_number = phone;
        full_name = codes "Administrateur";
        pin_code_hash = crypto.hash pin;
        role = UserRole.admin;
        is_active = true;
      })
      (token_for crypto now (record {
        id = id;
        phone_number = phone;
        full_name = codes "Administrateur";
        pin_code_hash = crypto.hash pin;
        role = UserRole.admin;
        is_active = true;
      }))
      db v,
)

exists-update_users :
    (i : ℕ) (p : User → Bool) (g : User → User) (same : (u : User) → (g u).id ≡ u.id)
    (us : List User)
    → exists (λ u. u.id == i) (update_where p g us) ≡ exists (λ u. u.id == i) us
exists-update_users i p g same [] = refl
exists-update_users i p g same (u ∷ us) = ground (arith, same u, exists-update_users i p g same us)

Owned-update_users :
    (p : User → Bool) (g : User → User) (same : (u : User) → (g u).id ≡ u.id) (us : List User)
    (ts : List LedgerTransaction)
    → Owned us ts
    → Owned (update_where p g us) ts
Owned-update_users p g same us [] o = tt
Owned-update_users p g same us (t ∷ ts) o =
    (rw (exists-update_users t.user_id p g same us) o.0, Owned-update_users p g same us ts o.1)

-- An UPDATE of users that keeps their identifiers.
pub users-IsValid :
    (p : User → Bool) (g : User → User) (same : (u : User) → (g u).id ≡ u.id) (db : Db)
    → IsValid db
    → IsValid (record db { users = update_where p g db.users })
users-IsValid p g same db v = record {
  ids = v.ids;
  references = v.references;
  owners = Owned-update_users p g same db.users db.ledger v.owners;
  balanced = v.balanced;
}
