-- ===== src/Audit/Book/Refines.antt =====
-- Every request to the routes of app/api_auth.py, app/api_wallet.py, app/api_kyc.py, app/api_devices.py
-- and app/api_admin.py is one of the few effects on the book that its specification admits.
use backend_ayak_bine.Base.{ℕ, ◌≡◌, refl, ◌∙◌, List, [], ◌∷◌, arith}
use backend_ayak_bine.Ledger.{Db}
use backend_ayak_bine.Ledger.Service.{get_fee_percent, with_provider, cast_provider}
use backend_ayak_bine.Ledger.Service
use backend_ayak_bine.Ledger.Service.{
  declare_payin_pending, declared_payin, request_payout, transfer_internal, finalize_payin,
}
use backend_ayak_bine.Auth.{Crypto, update_me}
use backend_ayak_bine.Admin.{update_user_status, update_fee_percent_route}
use backend_ayak_bine.Audit.{IsValid}
use backend_ayak_bine.Audit.Reach.{
  Request, register_account, bootstrap, rename, declare, declare_async, withdraw, transfer,
  settle_payout, settle_payin, credit_by_hand, set_status, set_fee, set_links, submit,
  decide_submission, register_token, notify_later, Admissible, AllAdmissible, handle, handle_all,
  handle-IsValid,
}
use backend_ayak_bine.Audit.Book.{
  Book, book, Effect, nothing, open_account, deposit, charge, send, apply, Possible,
}
use backend_ayak_bine.Audit.Book.Calls.{stays}
use backend_ayak_bine.Audit.Book.Spec.{Allows, Refines}
use backend_ayak_bine.Audit.Book.Accounts.{
  register-Refines, bootstrap-Refines, declare-Refines, declare_async-Refines, withdraw-Refines,
  credit_by_hand-Refines,
}
use backend_ayak_bine.Audit.Book.Routes.{
  transfer-Refines, settle_payout-Refines, settle_payin-Refines, rename-Refines, set_status-Refines,
  set_fee-Refines,
}

module _ {Token : Type 0} (crypto : Crypto Token) where
  handle-Refines :
      (r : Request) (db : Db) → Admissible r db → IsValid db → Refines r db (handle crypto r db)
  unfolding handle update_me update_user_status update_fee_percent_route Service.set_payment_links
      Service.set_fee_percent
  handle-Refines (register_account now id r) db h v = register-Refines crypto now id r db
  handle-Refines (bootstrap now id secret phone pin given) db h v =
      bootstrap-Refines crypto now id secret phone pin given db
  handle-Refines (rename uid name) db h v = rename-Refines uid name db
  handle-Refines (declare tid reference uid p) db h v = declare-Refines tid reference uid db p
  handle-Refines (declare_async tid reference uid p) db h v =
      declare_async-Refines tid reference uid db p
  handle-Refines (withdraw tid reference uid amount provider phone) db h v =
      withdraw-Refines tid reference uid db amount h.0 provider phone h.1
  handle-Refines (transfer c fcm ids uid amount phone) db h v =
      transfer-Refines c fcm ids uid amount phone db
  handle-Refines (settle_payout tid action proof admin_id) db h v =
      settle_payout-Refines tid action proof admin_id db
  handle-Refines (settle_payin tid action proof phone) db h v =
      settle_payin-Refines tid action proof phone db v
  handle-Refines (credit_by_hand tid reference uid amount reason admin_id) db h v =
      credit_by_hand-Refines tid reference uid db amount reason admin_id
  handle-Refines (set_status uid active) db h v = set_status-Refines uid active db
  handle-Refines (set_fee percent) db h v = set_fee-Refines percent db
  handle-Refines (set_links items) db h v = stays _ db tt
  handle-Refines (submit id uid p) db h v = stays _ db tt
  handle-Refines (decide_submission sid d reason) db h v = stays _ db tt
  handle-Refines (register_token uid p) db h v = stays _ db tt
  handle-Refines (notify_later c fcm uid) db h v = stays _ db tt

abbrev pub apply_all : List Effect → Book → Book
apply_all [] b u = b u
apply_all (e ∷ es) b u = apply_all es (apply e b) u

apply-ext : (e : Effect) (b c : Book) → ((u : ℕ) → b u ≡ c u) → (u : ℕ) → apply e b u ≡ apply e c u
apply-ext nothing b c h u = h u
apply-ext (open_account v) b c h u = ground (arith, h u)
apply-ext (deposit v a) b c h u = ground (arith, h u)
apply-ext (charge v a) b c h u = ground (arith, h u)
apply-ext (send from total to a) b c h u = ground (arith, h u)

apply_all-ext :
    (es : List Effect) (b c : Book)
    → ((u : ℕ) → b u ≡ c u)
    → (u : ℕ) → apply_all es b u ≡ apply_all es c u
apply_all-ext [] b c h u = h u
apply_all-ext (e ∷ es) b c h u = apply_all-ext es (apply e b) (apply e c) (apply-ext e b c h) u

module _ {Token : Type 0} (crypto : Crypto Token) where
  -- One effect for each request: allowed for it, and possible for the book at that moment.
  abbrev pub History : List Request → Db → List Effect → Type 0
  History [] db [] = Unit
  History [] db (e ∷ es) = ⊥
  History (r ∷ rs) db [] = ⊥
  History (r ∷ rs) db (e ∷ es) =
      Allows r db e × Possible e (book db) × History rs (handle crypto r db) es

  -- The ledger implements its specification. From valid tables on, whatever requests arrive, in any order:
  -- if every withdrawal asks for whole hundredths and every settlement of a withdrawal names a
  -- withdrawal, then there is for each request one effect that its specification allows at that moment
  -- and that the balances permit, and the balances of all users after the requests are those before them
  -- with the effects applied in order.
  pub handle_all-Refines :
      (rs : List Request) (db : Db)
      → AllAdmissible crypto rs db
      → IsValid db
      → (es : List Effect) × History rs db es
        × ((u : ℕ) → book (handle_all crypto rs db) u ≡ apply_all es (book db) u)
  unfolding handle_all
  handle_all-Refines [] db h v = ([], tt, λ u. refl)
  handle_all-Refines (r ∷ rs) db h v =
      let (e, allowed, possible, moved) = handle-Refines crypto r db h.0 v in
      let (es, history, result) =
        handle_all-Refines rs (handle crypto r db) h.1 (handle-IsValid crypto r db h.0 v) in
      (
        e ∷ es,
        (allowed, possible, history),
        λ u. result u ∙ apply_all-ext es (book (handle crypto r db)) (apply e (book db)) moved u,
      )
