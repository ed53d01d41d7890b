-- ===== src/Audit/Book/Spec.antt =====
-- The effects on the book that each request to the routes of app/api_auth.py, app/api_wallet.py and
-- app/api_admin.py may have; every request may have none.
use backend_ayak_bine.Base.{ℕ, ◌+◌, ◌≡◌, true, some, upper, find}
use backend_ayak_bine.Money.{to_cents, percent_to_cents}
use backend_ayak_bine.Money.Round.{HasCents}
use backend_ayak_bine.Ledger.{Db, User, LedgerTransaction, TransactionStatus, is_status}
use backend_ayak_bine.Ledger.Store.{find_transaction, find_user_by_phone}
use backend_ayak_bine.Ledger.Payin.{is_creditable}
use backend_ayak_bine.Ledger.Payout.{approve, reject, action_of}
use backend_ayak_bine.Ledger.Service.{get_fee_percent}
use backend_ayak_bine.Admin.{is_payin}
use backend_ayak_bine.Audit.Reach.{
  Request, register_account, bootstrap, withdraw, transfer, settle_payout, settle_payin,
  credit_by_hand,
}
use backend_ayak_bine.Audit.Book.{Effect, nothing, open_account, deposit, charge, send, Moves}

-- Which request may have which effect.
abbrev pub Opens : Request → ℕ → Type 0
Opens (register_account now id r) v = v ≡ id
Opens (bootstrap now id secret phone pin given) v = v ≡ id
Opens _ v = ⊥

abbrev pub Deposits : Request → Db → ℕ → ℕ → Type 0
Deposits (settle_payout tid action proof admin_id) db v a =
    (action_of (upper action) ≡ reject)
    × ((t : LedgerTransaction) × (find_transaction tid db ≡ some t)
        × (is_status t.status TransactionStatus.pending ≡ true)
        × (v ≡ t.user_id)
        × (a ≡ t.amount))
Deposits (settle_payin tid action proof phone) db v a =
    (action_of (upper action) ≡ approve)
    × ((t : LedgerTransaction) × (find (is_payin tid) db.ledger ≡ some t)
        × (is_creditable t.status ≡ true)
        × (v ≡ t.user_id)
        × (a ≡ t.amount))
Deposits (credit_by_hand tid reference uid amount reason admin_id) db v a =
    (v ≡ uid) × (a ≡ to_cents amount)
Deposits _ db v a = ⊥

abbrev pub Charges : Request → ℕ → ℕ → Type 0
Charges (withdraw tid reference uid amount provider phone) v a = (v ≡ uid) × HasCents amount a
Charges _ v a = ⊥

abbrev pub Sends : Request → Db → ℕ → ℕ → ℕ → ℕ → Type 0
Sends (transfer c fcm ids uid amount phone) db from total to a =
    (from ≡ uid)
    × ((r : User) × (find_user_by_phone phone db ≡ some r)
        × (to ≡ r.id)
        × (a ≡ to_cents amount)
        × (total ≡ percent_to_cents amount (get_fee_percent db) + a))
Sends _ db from total to a = ⊥

abbrev pub Allows : Request → Db → Effect → Type 0
Allows r db nothing = Unit
Allows r db (open_account v) = Opens r v
Allows r db (deposit v a) = Deposits r db v a
Allows r db (charge v a) = Charges r v a
Allows r db (send from total to a) = Sends r db from total to a

-- A request as an effect on the book.
abbrev pub Refines : Request → Db → Db → Type 0
Refines r db db' = Moves (Allows r db) db db'
