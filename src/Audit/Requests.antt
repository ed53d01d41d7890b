-- ===== src/Audit/Requests.antt =====
-- The routes of app/api_auth.py, app/api_wallet.py and app/api_admin.py that change balances or rows, as steps on
-- the tables, in any order.
use backend_ayak_bine.Base.{ℕ, refl, arith, inl, inr, Option-cases, Text, upper, Response}
use backend_ayak_bine.Money.{Decimal}
use backend_ayak_bine.Money.Round.{HasCents}
use backend_ayak_bine.Ledger.{Db, LedgerTransaction, PaymentProvider, Reply, Exec, returned, raised}
use backend_ayak_bine.Ledger.Store.{insert_transaction}
use backend_ayak_bine.Ledger.Service.{
  with_provider, admin_manual_credit, Declared, cast_provider, declared_payin,
  declare_payin_pending, request_payout,
}
use backend_ayak_bine.Wallet.{
  outcome, insert_answer, declare_answer, or_bad_request, PayInDeclareRequest, declare_payin,
  declare_payin_async, payout_request,
}
use backend_ayak_bine.Admin.{credit_user_wallet}
use backend_ayak_bine.Audit.{IsValid, Keeps}
use backend_ayak_bine.Audit.Payin.{
  declare_row-IsValid, insert_pending-Keeps, admin_manual_credit-IsValid,
}
use backend_ayak_bine.Audit.Payout.{process_payout_deduction-IsValid}

pub outcome-IsValid {ℓ κ} :
    {A : Type ℓ} {B : Type κ} (r : Exec A) (f : A → Response B) (db : Db)
    → Keeps r
    → IsValid db
    → IsValid (outcome r f db).1
outcome-IsValid (returned a db') f db k v = k
outcome-IsValid (raised e) f db k v = v

with_provider-Keeps {ℓ} :
    {A : Type ℓ} (s : Text) (f : PaymentProvider → Db → Exec A) (db : Db)
    → ((p : PaymentProvider) → Keeps (f p db))
    → Keeps (with_provider s f db)
unfolding with_provider
with_provider-Keeps s f db h = elim (Option-cases (cast_provider (upper s))) [
  | inl e ↦ rw (e, with_provider) tt
  | inr (p, e) ↦ rw (e, with_provider) (h p)
]

module _ (tid reference uid : ℕ) (db : Db) (v : IsValid db) where
  pub declare_payin-IsValid :
      (p : PayInDeclareRequest) → IsValid (declare_payin tid reference uid p db).1
  unfolding declare_payin
  declare_payin-IsValid p = ground (arith, v, recorded)
    where
      pending : Exec Declared
      pending =
          declare_payin_pending tid reference uid p.amount (upper p.provider) p.phone_number
            p.proof_ref p.declared_via db

      recorded : IsValid (outcome pending declare_answer db).1
      recorded =
          outcome-IsValid pending declare_answer db
            (unfold declare_payin_pending in
              with_provider-Keeps (upper p.provider) _ db λ provider.
                declare_row-IsValid
                  (declared_payin tid reference uid p.amount p.phone_number p.proof_ref
                    p.declared_via provider)
                  db refl refl v)
            v

  pub payout_request-IsValid :
      (amount : Decimal) (c : ℕ) (provider phone : Text)
      → HasCents amount c
      → IsValid (payout_request tid reference uid amount provider phone db).1
  unfolding payout_request
  payout_request-IsValid amount c provider phone h = ground (arith, v, reserved)
    where
      reserved :
          IsValid
            (outcome
              (request_payout tid reference uid amount (upper provider) phone db)
              or_bad_request
              db).1
      reserved =
          outcome-IsValid (request_payout tid reference uid amount (upper provider) phone db)
            or_bad_request db
            (unfold request_payout in
              with_provider-Keeps (upper provider) _ db
                λ p. process_payout_deduction-IsValid tid uid amount c reference p phone db h v)
            v

  insert_answer-IsValid :
      (r : Exec (Unit {0})) (ids : ℕ × ℕ) → Keeps r → IsValid (insert_answer r ids db).1
  insert_answer-IsValid (returned u db') ids k = k
  insert_answer-IsValid (raised e) ids k = v

  pub declare_payin_async-IsValid :
      (p : PayInDeclareRequest) → IsValid (declare_payin_async tid reference uid p db).1
  unfolding declare_payin_async
  declare_payin_async-IsValid p = elim (Option-cases (cast_provider (upper p.provider))) [
    | inl e ↦ rw (e, declare_payin_async) (ground (arith, v))
    | inr (provider, e) ↦ rw (e, declare_payin_async) (ground (arith, v, inserted provider))
  ]
    where
      row : PaymentProvider → LedgerTransaction
      row provider =
          declared_payin tid reference uid p.amount p.phone_number p.proof_ref p.declared_via
            provider

      inserted :
          (provider : PaymentProvider)
          → IsValid (insert_answer (insert_transaction (row provider) db) (reference, tid) db).1
      inserted provider =
          insert_answer-IsValid (insert_transaction (row provider) db) (reference, tid)
            (insert_pending-Keeps (row provider) db refl refl v)

  pub credit_user_wallet-IsValid :
      (amount : Decimal) (reason : Text) (admin_id : ℕ)
      → IsValid (credit_user_wallet tid reference uid amount reason admin_id db).1
  unfolding credit_user_wallet
  credit_user_wallet-IsValid amount reason admin_id = ground (arith, v, credited)
    where
      call : Exec (Reply (ℕ × ℕ))
      call = admin_manual_credit tid reference uid amount reason admin_id db

      credited : IsValid (outcome call or_bad_request db).1
      credited =
          outcome-IsValid call or_bad_request db
            (admin_manual_credit-IsValid tid reference uid amount reason admin_id db v) v
