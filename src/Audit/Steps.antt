-- ===== src/Audit/Steps.antt =====
-- The routes of app/api_auth.py, app/api_wallet.py and app/api_admin.py as steps on the tables, in any
-- order and with any arguments that the steps admit.
use backend_ayak_bine.Base.{
  find-satisfies, ℕ, ◌≡◌, refl, sym, ◌∙◌, true, Option, some, List, [], ◌∷◌, arith, inl, inr,
  Bool-cases, Option-cases, Text, update_where, sum_by, find, Response, reply, http_error,
  server_error,
}
use backend_ayak_bine.Money.{Decimal, of_cents}
use backend_ayak_bine.Ledger.{Db, LedgerTransaction, TransactionType, Exec, Reply}
use backend_ayak_bine.Ledger.Store.{find_reference, find_user_by_phone}
use backend_ayak_bine.Ledger.Service.{transfer_internal, finalize_payin}
use backend_ayak_bine.Ledger.Transfer.{TransferDone}
use backend_ayak_bine.Push.{Credentials, FcmOutcome}
use backend_ayak_bine.Wallet.{
  outcome, or_bad_request, TransferIds, transfer_internal_endpoint, notify_recipient,
}
use backend_ayak_bine.Admin.{
  process_payin_route, reject_payin, approve_payin, credit_answer, manual_proof, is_pending_payin,
  is_payin, rejected_payin,
}
use backend_ayak_bine.Audit.{IsValid, debit, credit, debit_of, credit_of}
use mathlib.Core.Option.{some-injective}
use mathlib.Core.Path.{subst}
use backend_ayak_bine.Audit.Rows.{
  update_where-UniqueIds, update_where-UniqueReferences, update_where-Owned, find-by_reference,
}
use backend_ayak_bine.Audit.Payin.{process_payin_credit-IsValid}
use backend_ayak_bine.Audit.Transfer.{process_internal_transfer-IsValid}
use backend_ayak_bine.Audit.Requests.{outcome-IsValid}

-- A notification changes neither accounts nor wallets nor rows.
notify_recipient-IsValid :
    (c : Credentials) (fcm : ℕ → FcmOutcome) (phone : Text) (r : Response TransferDone × Db)
    → IsValid r.1
    → IsValid (notify_recipient c fcm phone r).1
unfolding notify_recipient
notify_recipient-IsValid c fcm phone (reply r, db) v =
    elim (Option-cases (find_user_by_phone phone db)) [
      | inl e ↦ rw (e, notify_recipient) v
      | inr (u, e) ↦
          rw (e, notify_recipient)
            (record {
              ids = v.ids;
              references = v.references;
              owners = v.owners;
              balanced = v.balanced;
            })
    ]
notify_recipient-IsValid c fcm phone (http_error n, db) v = v
notify_recipient-IsValid c fcm phone (server_error, db) v = v

pub transfer_internal_endpoint-IsValid :
    (c : Credentials) (fcm : ℕ → FcmOutcome) (ids : TransferIds) (uid : ℕ) (amount : Decimal)
    (phone : Text) (db : Db)
    → IsValid db
    → IsValid (transfer_internal_endpoint c fcm ids uid amount phone db).1
unfolding transfer_internal_endpoint transfer_internal
transfer_internal_endpoint-IsValid c fcm ids uid amount phone db v =
    ground (arith, v, notify_recipient-IsValid c fcm phone (outcome call or_bad_request db) moved)
  where
    call : Exec (Reply TransferDone)
    call =
        transfer_internal uid amount phone ids.sender_reference ids.recipient_reference
          ids.sender_row ids.recipient_row db

    moved : IsValid (outcome call or_bad_request db).1
    moved = outcome-IsValid call or_bad_request db (process_internal_transfer-IsValid _ db v) v

-- Rejecting a deposit changes no sum: a pending deposit counts for nothing, and so does a failed one.
sum_by-rejected :
    (f : LedgerTransaction → ℕ) (tid : ℕ)
    → ((t : LedgerTransaction) → is_pending_payin tid t ≡ true → f (rejected_payin t) ≡ f t)
    → (ts : List LedgerTransaction)
    → sum_by f (update_where (is_pending_payin tid) rejected_payin ts) ≡ sum_by f ts
sum_by-rejected f tid h [] = refl
sum_by-rejected f tid h (t ∷ ts) = elim (Bool-cases (is_pending_payin tid t)) [
  | inl e ↦ rw e (omega (arith, h t e, sum_by-rejected f tid h ts))
  | inr e ↦ rw e (omega (arith, sum_by-rejected f tid h ts))
]

debit_of-rejected :
    (u tid : ℕ) (t : LedgerTransaction)
    → is_pending_payin tid t ≡ true
    → debit_of u (rejected_payin t) ≡ debit_of u t
unfolding debit
debit_of-rejected u tid t h = ground arith

credit_of-rejected :
    (u tid : ℕ) (t : LedgerTransaction)
    → is_pending_payin tid t ≡ true
    → credit_of u (rejected_payin t) ≡ credit_of u t
unfolding credit
credit_of-rejected u tid t h = ground arith

rejected-IsValid :
    (tid : ℕ) (db : Db)
    → IsValid db
    → IsValid (record db { ledger = update_where (is_pending_payin tid) rejected_payin db.ledger })
rejected-IsValid tid db v = record {
  ids = update_where-UniqueIds (is_pending_payin tid) rejected_payin (λ _. refl) db.ledger v.ids;
  references =
      update_where-UniqueReferences (is_pending_payin tid) rejected_payin (λ _. refl) db.ledger
        v.references;
  owners =
      update_where-Owned db.users (is_pending_payin tid) rejected_payin (λ _. refl) db.ledger
        v.owners;
  balanced = λ u b e. rw (sum_by-rejected (debit_of u) tid (debit_of-rejected u tid) db.ledger) (
      rw (sum_by-rejected (credit_of u) tid (credit_of-rejected u tid) db.ledger)
        (v.balanced u b e));
}

pub reject_payin-IsValid : (tid : ℕ) (db : Db) → IsValid db → IsValid (reject_payin tid db).1
unfolding reject_payin
reject_payin-IsValid tid db v = elim (Option-cases (find (is_pending_payin tid) db.ledger)) [
  | inl e ↦ rw (e, reject_payin) v
  | inr (t, e) ↦ rw (e, reject_payin) (rejected-IsValid tid db v)
]

payin_type :
    (tid : ℕ) (t : LedgerTransaction) → is_payin tid t ≡ true → t.type ≡ TransactionType.pay_in
payin_type tid t h = ground arith

pub approve_payin-IsValid :
    (tid : ℕ) (proof : Option Text) (phone : Text) (db : Db)
    → IsValid db
    → IsValid (approve_payin tid proof phone db).1
unfolding approve_payin finalize_payin
approve_payin-IsValid tid proof phone db v = elim (Option-cases (find (is_payin tid) db.ledger)) [
  | inl e ↦ rw (e, approve_payin) v
  | inr (t, e) ↦
      rw (e, approve_payin)
        (outcome-IsValid
          (finalize_payin t.reference (manual_proof proof phone) (some (of_cents t.amount)) db)
          credit_answer db (process_payin_credit-IsValid t.reference _ _ db (same t e) v) v)
]
  where
    same :
        (t : LedgerTransaction)
        → find (is_payin tid) db.ledger ≡ some t
        → (r : LedgerTransaction) → find_reference t.reference db ≡ some r
        → r.type ≡ TransactionType.pay_in
    same t e r f =
        subst (λ x. x.type ≡ TransactionType.pay_in)
          (some-injective t r
            (sym (find-by_reference (is_payin tid) db.ledger t v.references e) ∙ f))
          (payin_type tid t (find-satisfies (is_payin tid) db.ledger t e))

pub process_payin_route-IsValid :
    (tid : ℕ) (action : Text) (proof : Option Text) (phone : Text) (db : Db)
    → IsValid db
    → IsValid (process_payin_route tid action proof phone db).1
unfolding process_payin_route
process_payin_route-IsValid tid action proof phone db v =
    ground (arith, v, reject_payin-IsValid tid db v, approve_payin-IsValid tid proof phone db v)
