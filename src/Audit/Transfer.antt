-- ===== src/Audit/Transfer.antt =====
-- `transfer_internal` of app/wallet_service.py keeps the account of every wallet, and no money appears
-- or vanishes but the platform's fee.
use backend_ayak_bine.Base.{
  ◌+◌, ◌-◌, ◌≤◌, ◌≡◌, ◌≢◌, refl, ◌∙◌, Option, none, some, ◌==◌, ltb, arith, inl, inr, Bool-cases,
  Option-cases, ◌∷◌,
}
use backend_ayak_bine.Money.{add_to_cents}
use backend_ayak_bine.Money.Round.{add_to_cents_lem}
use backend_ayak_bine.Ledger.{Db, User, Wallet, LedgerTransaction}
use backend_ayak_bine.Ledger.Store.{
  find_wallet, find_user_by_phone, set_balance, insert_transaction,
}
use backend_ayak_bine.Ledger.Transfer.{
  TransferCall, process_internal_transfer, transfer_between, move, transfer_fee, transfer_total,
  sender_entry, recipient_entry, phone_of,
}
use backend_ayak_bine.Audit.{IsValid, Keeps, IsBalanced, credit, debit}
use backend_ayak_bine.Audit.Rules.{After-bind, After-set_balance, After-insert_transaction}
use backend_ayak_bine.Audit.Wallets.{with_balance, balance_in-some, balance_in-set_ne}
use backend_ayak_bine.Audit.Balance.{row_credit, row_debit, IsBalanced-insert}

module _ (c : TransferCall) (recipient : User) (ws wr : Wallet) (db : Db) (v : IsValid db)
    (from : find_wallet c.sender_id db ≡ some ws) (to : find_wallet recipient.id db ≡ some wr)
    (distinct : recipient.id ≢ c.sender_id) (covered : transfer_total c ≤ ws.balance) where
  abbrev sent : LedgerTransaction
  sent = sender_entry c

  abbrev received : LedgerTransaction
  received = recipient_entry c recipient.id (phone_of c.sender_id db)

  sent_balance : ws.balance - transfer_total c + row_debit sent ≡ ws.balance + row_credit sent
  unfolding debit credit transfer_total
  sent_balance = omega (arith, covered, add_to_cents_lem (transfer_fee c) c.amount)

  received_balance :
      add_to_cents wr.balance c.amount + row_debit received ≡ wr.balance + row_credit received
  unfolding debit credit
  received_balance = omega (arith, add_to_cents_lem wr.balance c.amount)

  after_sender :
      IsBalanced
        (with_balance c.sender_id (ws.balance - transfer_total c) db.wallets)
        (sent ∷ db.ledger)
  after_sender =
      IsBalanced-insert db.wallets db.ledger v.balanced sent ws.balance
        (ws.balance - transfer_total c) (balance_in-some c.sender_id db.wallets ws from)
        sent_balance

  move-IsValid : Keeps (move c recipient ws wr db)
  unfolding move
  move-IsValid =
      After-bind (λ _ db'. IsValid db') _ (set_balance c.sender_id (ws.balance - transfer_total c))
        db
        (After-set_balance _ db c.sender_id (ws.balance - transfer_total c) (
          After-bind (λ _ db'. IsValid db') _
            (set_balance recipient.id (add_to_cents wr.balance c.amount)) _
            (After-set_balance _ _ recipient.id (add_to_cents wr.balance c.amount) (
              After-bind (λ _ db'. IsValid db') _ (insert_transaction sent) _
                (After-insert_transaction _ _ sent λ new.
                  After-bind (λ _ db'. IsValid db') _ (insert_transaction received) _
                    (After-insert_transaction _ _ received λ new'. record {
                      ids = (new'.fresh_id, (new.fresh_id, v.ids));
                      references = (new'.fresh_reference, (new.fresh_reference, v.references));
                      owners = (new'.known_user, (new.known_user, v.owners));
                      balanced =
                          IsBalanced-insert
                            (with_balance c.sender_id (ws.balance - transfer_total c) db.wallets)
                            (sent ∷ db.ledger) after_sender received wr.balance
                            (add_to_cents wr.balance c.amount)
                            (balance_in-set_ne recipient.id c.sender_id
                                (ws.balance - transfer_total c) db.wallets distinct
                              ∙ balance_in-some recipient.id db.wallets wr to)
                            received_balance;
                    }))))))

transfer_between-IsValid :
    (c : TransferCall) (recipient : User) (db : Db)
    → IsValid db
    → recipient.id ≢ c.sender_id
    → Keeps
        (transfer_between c recipient (find_wallet c.sender_id db) (find_wallet recipient.id db) db)
transfer_between-IsValid c recipient db v ne =
    go (find_wallet c.sender_id db) (find_wallet recipient.id db) refl refl
  where
    go :
        (s r : Option Wallet)
        → find_wallet c.sender_id db ≡ s
        → find_wallet recipient.id db ≡ r
        → Keeps (transfer_between c recipient s r db)
    go none r e f = unfold transfer_between in v
    go (some ws) none e f = unfold transfer_between in ground (arith, v)
    go (some ws) (some wr) e f = elim (Bool-cases (ltb ws.balance (transfer_total c))) [
      | inl short ↦ unfold transfer_between in rw short v
      | inr enough ↦
          unfold transfer_between in
          rw enough (move-IsValid c recipient ws wr db v e f ne (ground (arith, enough)))
    ]

-- An internal transfer keeps every account, whatever the digits of its amount and of the fee.
pub process_internal_transfer-IsValid :
    (c : TransferCall) (db : Db) → IsValid db → Keeps (process_internal_transfer c db)
unfolding process_internal_transfer
process_internal_transfer-IsValid c db v =
    elim (Option-cases (find_user_by_phone c.recipient_phone db)) [
      | inl e ↦ rw (e, process_internal_transfer) (ground (arith, v))
      | inr (r, e) ↦ elim (Bool-cases (r.id == c.sender_id)) [
        | inl self ↦ rw (e, process_internal_transfer) (rw self (ground (arith, v)))
        | inr other ↦
            rw (e, process_internal_transfer)
              (rw other (
                ground (
                  arith,
                  v,
                  transfer_between-IsValid c r db v (λ same. ground (arith, same, other)),
                )))
      ]
    ]
