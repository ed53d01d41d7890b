-- ===== src/Audit/Book/Accounts.antt =====
-- Registration (app/api_auth.py), deposits, withdrawals and manual credits (app/api_wallet.py and
-- app/api_admin.py) as effects on the book.
use backend_ayak_bine.Base.{
  ℕ, ◌≡◌, refl, sym, true, false, none, some, List, [], ◌∷◌, ◌==◌, arith, inl, inr, Bool-cases,
  Option-cases, Text, upper, Response, reply, server_error, exists, text_eq, select_where, ◌||◌,
  ◌&&◌, not, leb, length,
}
use mathlib.Core.Path.{subst}
use backend_ayak_bine.Money.{Decimal, is_zero}
use backend_ayak_bine.Money.Round.{HasCents}
use backend_ayak_bine.Ledger.{Db, User, PaymentProvider, Exec, returned, raised}
use backend_ayak_bine.Ledger.Store.{find_user_by_phone, insert_transaction}
use backend_ayak_bine.Ledger.Service.{get_fee_percent, with_provider, cast_provider}
use backend_ayak_bine.Ledger.Service
use backend_ayak_bine.Ledger.Service.{
  declare_payin_pending, declared_payin, request_payout, transfer_internal, finalize_payin,
}
use backend_ayak_bine.Auth.{
  Crypto, RegisterRequest, insert_user, with_account, register, bootstrap_admin, validate_register,
  is_admin,
}
use backend_ayak_bine.Wallet.{
  outcome, valid_operator, insert_answer, declare_answer, or_bad_request, PayInDeclareRequest,
  declare_payin, declare_payin_async, payout_request,
}
use backend_ayak_bine.Admin.{credit_user_wallet}
use backend_ayak_bine.Audit.Wallets.{no_balance}
use backend_ayak_bine.Audit.Reach.{
  register_account, bootstrap, declare, declare_async, withdraw, credit_by_hand,
}
use backend_ayak_bine.Audit.Book.{Effect, nothing, open_account, Moves}
use backend_ayak_bine.Audit.Book.Calls.{
  Does, stays, insert_transaction-Does, declare_row-Does, admin_manual_credit-Does,
}
use backend_ayak_bine.Audit.Book.Withdrawals.{process_payout_deduction-Does}
use backend_ayak_bine.Audit.Book.Spec.{Allows, Refines}

pub outcome-Moves {ℓ κ} :
    {A : Type ℓ} {B : Type κ} (P : Effect → Type 0) (idle : P nothing) (r : Exec A)
    (f : A → Response B) (db : Db)
    → Does P db r
    → Moves P db (outcome r f db).1
outcome-Moves P idle (returned a db') f db h = h
outcome-Moves P idle (raised e) f db h = stays P db idle

insert_user-opened :
    (u : User) (db db' : Db)
    → insert_user u db ≡ some db'
    → (exists (λ w. w.user_id == u.id) db.wallets ≡ false) × (db' ≡ with_account u db)
unfolding insert_user
insert_user-opened u db db' h = ground arith

-- The two INSERTs of an account and the token that answers them.
inserted-Moves {ℓ} :
    {A : Type ℓ} (P : Effect → Type 0) (u : User) (answer : A) (db : Db)
    → P nothing
    → P (open_account u.id)
    → Moves P db
        (elim (insert_user u db) as (λ _. Response A × Db) [
          | none ↦ (server_error, db)
          | some db' ↦ (reply answer, db')
        ]).1
inserted-Moves P u answer db idle p = elim (Option-cases (insert_user u db)) [
  | inl e ↦ rw e (stays P db idle)
  | inr (db', e) ↦
      let made = insert_user-opened u db db' e in
      rw e (
        subst (λ x. Moves P db x) (sym made.1)
          (open_account u.id, p, no_balance u.id db.wallets made.0, λ x. ground arith))
]

pub with_provider-Does {ℓ} :
    {A : Type ℓ} (P : Effect → Type 0) (s : Text) (f : PaymentProvider → Db → Exec A) (db : Db)
    → ((p : PaymentProvider) → Does P db (f p db))
    → Does P db (with_provider s f db)
unfolding with_provider
with_provider-Does P s f db h = elim (Option-cases (cast_provider (upper s))) [
  | inl e ↦ rw (e, with_provider) tt
  | inr (p, e) ↦ rw (e, with_provider) (h p)
]

pub register-Refines :
    {Token : Type 0} (crypto : Crypto Token) (now id : ℕ) (r : RegisterRequest) (db : Db)
    → Refines (register_account now id r) db (register crypto now id r db).1
unfolding register
register-Refines crypto now id r db = elim (Option-cases (validate_register r)) [
  | inl e ↦ rw (e, register) (stays _ db tt)
  | inr (p, e) ↦ elim (Option-cases (find_user_by_phone p.phone_number db)) [
    | inr (x, f) ↦ rw (e, register) (rw f (stays _ db tt))
    | inl f ↦
        rw (e, register)
          (rw f (inserted-Moves (Allows (register_account now id r) db) _ _ db tt refl))
  ]
]

pub bootstrap-Refines :
    {Token : Type 0} (crypto : Crypto Token) (now id : ℕ) (secret phone pin given : Text) (db : Db)
    → Refines
        (bootstrap now id secret phone pin given)
        db
        (bootstrap_admin crypto now id secret phone pin given db).1
unfolding bootstrap_admin
bootstrap-Refines {Token} crypto now id secret phone pin given db =
    elim (Bool-cases (text_eq given secret)) [
      | inr e ↦ rw (e, bootstrap_admin) (stays P db tt)
      | inl e ↦ go (select_where (λ u. is_admin u.role) db.users) refl e
    ]
  where
    P : Effect → Type 0
    P = Allows (bootstrap now id secret phone pin given) db

    go :
        (admins : List User)
        → select_where (λ u. is_admin u.role) db.users ≡ admins
        → text_eq given secret ≡ true
        → Moves P db (bootstrap_admin crypto now id secret phone pin given db).1
    go [] f e = rw (e, bootstrap_admin) (rw f (inserted-Moves P _ _ db tt refl))
    go (a ∷ []) f e = rw (e, bootstrap_admin) (rw f (stays P db tt))
    go (a ∷ b ∷ more) f e = rw (e, bootstrap_admin) (rw f (stays P db tt))

module _ (tid reference uid : ℕ) (db : Db) where
  pub declare-Refines :
      (p : PayInDeclareRequest)
      → Refines (declare tid reference uid p) db (declare_payin tid reference uid p db).1
  unfolding declare_payin declare_payin_pending
  declare-Refines p = ground (
    arith,
    stays P db tt,
    outcome-Moves P tt
        (declare_payin_pending tid reference uid p.amount (upper p.provider) p.phone_number
          p.proof_ref p.declared_via db)
        declare_answer db
        (with_provider-Does P (upper p.provider) _ db λ provider. declare_row-Does P db tt (
          declared_payin tid reference uid p.amount p.phone_number p.proof_ref p.declared_via
            provider)),
  )
    where
      P : Effect → Type 0
      P = Allows (declare tid reference uid p) db

  pub declare_async-Refines :
      (p : PayInDeclareRequest)
      → Refines
          (declare_async tid reference uid p)
          db
          (declare_payin_async tid reference uid p db).1
  unfolding declare_payin_async
  declare_async-Refines p = elim (Option-cases (cast_provider (upper p.provider))) [
    | inl e ↦ rw (e, declare_payin_async) (ground (arith, stays P db tt))
    | inr (provider, e) ↦
        rw (e, declare_payin_async)
          (ground (
            arith,
            stays P db tt,
            answered
                (insert_transaction
                  (declared_payin tid reference uid p.amount p.phone_number p.proof_ref
                    p.declared_via provider)
                  db)
                (insert_transaction-Does P db tt _),
          ))
  ]
    where
      P : Effect → Type 0
      P = Allows (declare_async tid reference uid p) db

      answered :
          (r : Exec (Unit {0})) → Does P db r → Moves P db (insert_answer r (reference, tid) db).1
      answered (returned u db') h = h
      answered (raised e) h = stays P db tt

  pub withdraw-Refines :
      (amount : Decimal) (c : ℕ) (provider phone : Text)
      → HasCents amount c
      → Refines
          (withdraw tid reference uid amount provider phone)
          db
          (payout_request tid reference uid amount provider phone db).1
  unfolding payout_request request_payout
  withdraw-Refines amount c provider phone h = elim (Bool-cases (is_zero amount)) [
    | inl e ↦ rw (e, payout_request) (stays P db tt)
    | inr e ↦ elim (Bool-cases (valid_operator provider)) [
      | inr f ↦ rw (e, payout_request) (rw f (stays P db tt))
      | inl f ↦
          rw (e, payout_request)
            (rw f (
              outcome-Moves P tt (request_payout tid reference uid amount (upper provider) phone db)
                or_bad_request db
                (with_provider-Does P (upper provider) _ db λ p.
                  process_payout_deduction-Does P db tt tid uid amount c reference p phone h
                    (refl, h))))
    ]
  ]
    where
      P : Effect → Type 0
      P = Allows (withdraw tid reference uid amount provider phone) db

  pub credit_by_hand-Refines :
      (amount : Decimal) (reason : Text) (admin_id : ℕ)
      → Refines
          (credit_by_hand tid reference uid amount reason admin_id)
          db
          (credit_user_wallet tid reference uid amount reason admin_id db).1
  unfolding credit_user_wallet
  credit_by_hand-Refines amount reason admin_id =
      elim (Bool-cases (is_zero amount || not (leb 3 (length reason) && leb (length reason) 200))) [
        | inl e ↦ rw (e, credit_user_wallet) (stays P db tt)
        | inr e ↦
            rw (e, credit_user_wallet)
              (outcome-Moves P tt
                (Service.admin_manual_credit tid reference uid amount reason admin_id db)
                or_bad_request db
                (admin_manual_credit-Does P db tt tid reference uid amount reason admin_id
                  (refl, refl)))
      ]
    where
      P : Effect → Type 0
      P = Allows (credit_by_hand tid reference uid amount reason admin_id) db
