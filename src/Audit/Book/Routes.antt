-- ===== src/Audit/Book/Routes.antt =====
-- Internal transfers (app/api_wallet.py), the settlements of app/api_admin.py and the routes that leave
-- the balances alone, as effects on the book.
use backend_ayak_bine.Base.{
  length, ltb, ℕ, ◌≡◌, refl, sym, ◌∙◌, Option, none, some, inl, inr, Bool-cases, Option-cases, Text,
  upper, Response, reply, http_error, server_error, find, is_empty, Bool, ◌*◌, leb,
}
use mathlib.Core.Path.{subst}
use mathlib.Core.Option.{some-injective}
use backend_ayak_bine.Money.{Decimal, is_zero, scale, of_cents}
use backend_ayak_bine.Money.Round.{add_to_cents_lem}
use backend_ayak_bine.Ledger.{Db, Exec, Reply}
use backend_ayak_bine.Ledger.Store.{find_user_by_phone}
use backend_ayak_bine.Ledger.Payout.{Action, approve, reject, unknown, action_of}
use backend_ayak_bine.Ledger.Service.{get_fee_percent, with_provider, cast_provider}
use backend_ayak_bine.Ledger.Payout
use backend_ayak_bine.Ledger.Service
use backend_ayak_bine.Ledger.Service.{
  declare_payin_pending, declared_payin, request_payout, transfer_internal, finalize_payin,
}
use backend_ayak_bine.Ledger.Transfer.{transfer_total, TransferDone}
use backend_ayak_bine.Auth.{update_me, is_admin, strip, find_user}
use backend_ayak_bine.Push.{Credentials, FcmOutcome}
use backend_ayak_bine.Wallet.{
  outcome, or_bad_request, TransferIds, transfer_internal_endpoint, notify_recipient,
}
use backend_ayak_bine.Admin.{
  is_payin, process_payout_route, process_payin_route, reject_payin, approve_payin, credit_answer,
  manual_proof, update_user_status, update_fee_percent_route, is_pending_payin,
}
use backend_ayak_bine.Audit.Rules.{After-bind}
use backend_ayak_bine.Audit.Rows.{find-by_reference}
use backend_ayak_bine.Audit.{IsValid}
use backend_ayak_bine.Audit.Reach.{
  rename, transfer, settle_payout, settle_payin, set_status, set_fee,
}
use backend_ayak_bine.Audit.Book.{Effect, nothing, Moves}
use backend_ayak_bine.Audit.Book.Calls.{stays, process_payin_credit-Does}
use backend_ayak_bine.Audit.Book.Withdrawals.{admin_process_payout-Does}
use backend_ayak_bine.Audit.Book.Transfers.{process_internal_transfer-Does}
use backend_ayak_bine.Audit.Book.Spec.{Allows, Refines}
use backend_ayak_bine.Audit.Book.Accounts.{outcome-Moves}

notify_recipient-Moves :
    (P : Effect → Type 0) (c : Credentials) (fcm : ℕ → FcmOutcome) (phone : Text) (db : Db)
    (r : Response TransferDone × Db)
    → Moves P db r.1
    → Moves P db (notify_recipient c fcm phone r).1
unfolding notify_recipient
notify_recipient-Moves P c fcm phone db (reply r, db') m =
    elim (Option-cases (find_user_by_phone phone db')) [
      | inl e ↦ rw (e, notify_recipient) m
      | inr (u, e) ↦ rw (e, notify_recipient) m
    ]
notify_recipient-Moves P c fcm phone db (http_error n, db') m = m
notify_recipient-Moves P c fcm phone db (server_error, db') m = m

pub transfer-Refines :
    (c : Credentials) (fcm : ℕ → FcmOutcome) (ids : TransferIds) (uid : ℕ) (amount : Decimal)
    (phone : Text) (db : Db)
    → Refines
        (transfer c fcm ids uid amount phone)
        db
        (transfer_internal_endpoint c fcm ids uid amount phone db).1
unfolding transfer_internal_endpoint transfer_internal transfer_total
transfer-Refines c fcm ids uid amount phone db = elim (Bool-cases (ltb (length phone) 6)) [
  | inl e ↦ rw (e, transfer_internal_endpoint) (stays P db tt)
  | inr long ↦ elim (Bool-cases (is_zero amount)) [
    | inl e ↦ rw (long, transfer_internal_endpoint) (rw e (stays P db tt))
    | inr e ↦
        rw (long, transfer_internal_endpoint)
          (rw e (
            notify_recipient-Moves P c fcm phone db (outcome call or_bad_request db) (
              outcome-Moves P tt call or_bad_request db (
                process_internal_transfer-Does P db tt _
                  λ r e. (refl, (r, e, refl, refl, add_to_cents_lem _ amount))))))
  ]
]
  where
    P : Effect → Type 0
    P = Allows (transfer c fcm ids uid amount phone) db

    call : Exec (Reply TransferDone)
    call =
        transfer_internal uid amount phone ids.sender_reference ids.recipient_reference
          ids.sender_row ids.recipient_row db

pub settle_payout-Refines :
    (tid : ℕ) (action : Text) (proof : Option Text) (admin_id : ℕ) (db : Db)
    → Refines
        (settle_payout tid action proof admin_id)
        db
        (process_payout_route tid action proof admin_id db).1
unfolding process_payout_route
settle_payout-Refines tid action proof admin_id db = go (action_of (upper action)) refl
  where
    P : Effect → Type 0
    P = Allows (settle_payout tid action proof admin_id) db

    settled :
        (a : Action)
        → action_of (upper action) ≡ a
        → Moves P db
            (outcome
              (Service.admin_process_payout tid a proof admin_id none db)
              or_bad_request
              db).1
    settled a e =
        outcome-Moves P tt (Service.admin_process_payout tid a proof admin_id none db)
          or_bad_request db
          (unfold Service.admin_process_payout in
            After-bind (λ _ db'. Moves P db db') _
              (Payout.admin_process_payout tid a proof admin_id) db
              (admin_process_payout-Does P db tt tid a proof admin_id
                λ t found pending rejects. (e ∙ rejects, (t, found, pending, refl, refl))))

    go :
        (a : Action)
        → action_of (upper action) ≡ a
        → Moves P db (process_payout_route tid action proof admin_id db).1
    go unknown e = rw (e, process_payout_route) (stays P db tt)
    go approve e = rw (e, process_payout_route) (settled approve e)
    go reject e = rw (e, process_payout_route) (settled reject e)

reject_payin-Moves :
    (P : Effect → Type 0) (tid : ℕ) (db : Db) → P nothing → Moves P db (reject_payin tid db).1
unfolding reject_payin
reject_payin-Moves P tid db idle = elim (Option-cases (find (is_pending_payin tid) db.ledger)) [
  | inl e ↦ rw (e, reject_payin) (stays P db idle)
  | inr (t, e) ↦ rw (e, reject_payin) (stays P db idle)
]

pub settle_payin-Refines :
    (tid : ℕ) (action : Text) (proof : Option Text) (phone : Text) (db : Db)
    → IsValid db
    → Refines
        (settle_payin tid action proof phone)
        db
        (process_payin_route tid action proof phone db).1
unfolding process_payin_route approve_payin finalize_payin
settle_payin-Refines tid action proof phone db v = go (action_of (upper action)) refl
  where
    P : Effect → Type 0
    P = Allows (settle_payin tid action proof phone) db

    approved : action_of (upper action) ≡ approve → Moves P db (approve_payin tid proof phone db).1
    approved e = elim (Option-cases (find (is_payin tid) db.ledger)) [
      | inl f ↦ rw (f, approve_payin) (stays P db tt)
      | inr (t, f) ↦
          rw (f, approve_payin)
            (outcome-Moves P tt
              (finalize_payin t.reference (manual_proof proof phone) (some (of_cents t.amount)) db)
              credit_answer db
              (process_payin_credit-Does P db tt t.reference _ _ λ r found creditable. (
                e,
                (
                  r,
                  subst (λ x. find (is_payin tid) db.ledger ≡ some x)
                      (some-injective t r
                        (sym (find-by_reference (is_payin tid) db.ledger t v.references f) ∙ found))
                      f,
                  creditable,
                  refl,
                  refl,
                ),
              )))
    ]

    go :
        (a : Action)
        → action_of (upper action) ≡ a
        → Moves P db (process_payin_route tid action proof phone db).1
    go unknown e = rw (e, process_payin_route) (stays P db tt)
    go reject e = rw (e, process_payin_route) (reject_payin-Moves P tid db tt)
    go approve e = rw (e, process_payin_route) (approved e)

pub rename-Refines :
    (uid : ℕ) (name : Option Text) (db : Db)
    → Refines (rename uid name) db (update_me uid name db).1
unfolding update_me
rename-Refines uid none db = stays _ db tt
rename-Refines uid (some n) db = elim (Bool-cases (is_empty (strip n))) [
  | inl e ↦ rw (e, update_me) (stays _ db tt)
  | inr e ↦ rw (e, update_me) (stays _ db tt)
]

pub set_status-Refines :
    (uid : ℕ) (active : Bool) (db : Db)
    → Refines (set_status uid active) db (update_user_status uid active db).1
unfolding update_user_status
set_status-Refines uid active db = elim (Option-cases (find_user uid db)) [
  | inl e ↦ rw (e, update_user_status) (stays _ db tt)
  | inr (u, e) ↦ elim (Bool-cases (is_admin u.role)) [
    | inl f ↦ rw (e, update_user_status) (rw f (stays _ db tt))
    | inr f ↦ rw (e, update_user_status) (rw f (stays _ db tt))
  ]
]

pub set_fee-Refines :
    (percent : Decimal) (db : Db)
    → Refines (set_fee percent) db (update_fee_percent_route percent db).1
unfolding update_fee_percent_route Service.set_fee_percent
set_fee-Refines percent db = elim (Bool-cases (leb percent.coefficient (100 * scale percent))) [
  | inl e ↦ rw (e, update_fee_percent_route) (stays _ db tt)
  | inr e ↦ rw (e, update_fee_percent_route) (stays _ db tt)
]
