-- ===== src/Audit/Book/Transfers.antt =====
-- What the SQL function process_internal_transfer does to the book.
use backend_ayak_bine.Base.{
  ℕ, ◌-◌, ◌≤◌, ◌≡◌, ◌≢◌, refl, Option, none, some, ◌==◌, arith, inl, inr, Bool-cases, Option-cases,
  ltb,
}
use backend_ayak_bine.Money.{to_cents, add_to_cents}
use backend_ayak_bine.Money.Round.{add_to_cents_lem}
use backend_ayak_bine.Ledger.{Db, User, Wallet}
use backend_ayak_bine.Ledger.Store.{
  find_wallet, find_user_by_phone, set_balance, insert_transaction,
}
use backend_ayak_bine.Ledger.Transfer.{
  TransferCall, transfer_total, sender_entry, recipient_entry, move, transfer_between,
  process_internal_transfer, phone_of,
}
use backend_ayak_bine.Audit.Rules.{After-bind, After-set_balance, After-insert_transaction}
use backend_ayak_bine.Audit.Wallets.{with_balance, balance_in, balance_in-some}
use backend_ayak_bine.Audit.Book.{
  book, Effect, nothing, send, apply, Moves, balance_in-with_balance,
}
use backend_ayak_bine.Audit.Book.Calls.{Does, stays}

module _ (P : Effect → Type 0) (db : Db) (idle : P nothing) where
  module _ (c : TransferCall) (recipient : User)
      (p : P (send c.sender_id (transfer_total c) recipient.id (to_cents c.amount))) where
    sent :
        (ws wr : Wallet) (u : ℕ)
        → find_wallet c.sender_id db ≡ some ws
        → find_wallet recipient.id db ≡ some wr
        → recipient.id ≢ c.sender_id
        → balance_in u (
            with_balance recipient.id
              (add_to_cents wr.balance c.amount)
              (with_balance c.sender_id (ws.balance - transfer_total c) db.wallets))
          ≡ apply (send c.sender_id (transfer_total c) recipient.id (to_cents c.amount)) (book db) u
    sent ws wr u from to distinct = ground (
      arith,
      add_to_cents_lem wr.balance c.amount,
      distinct,
      balance_in-with_balance u recipient.id (add_to_cents wr.balance c.amount)
          (with_balance c.sender_id (ws.balance - transfer_total c) db.wallets),
      balance_in-with_balance u c.sender_id (ws.balance - transfer_total c) db.wallets,
      balance_in-some c.sender_id db.wallets ws from,
      balance_in-some recipient.id db.wallets wr to,
    )

    move-Does :
        (ws wr : Wallet)
        → find_wallet c.sender_id db ≡ some ws
        → find_wallet recipient.id db ≡ some wr
        → recipient.id ≢ c.sender_id
        → transfer_total c ≤ ws.balance
        → Does P db (move c recipient ws wr db)
    unfolding move
    move-Does ws wr from to distinct covered =
        After-bind (λ _ db'. Moves P db db') _
          (set_balance c.sender_id (ws.balance - transfer_total c)) db
          (After-set_balance _ db _ _ (
            After-bind (λ _ db'. Moves P db db') _
              (set_balance recipient.id (add_to_cents wr.balance c.amount)) _
              (After-set_balance _ _ _ _ (
                After-bind (λ _ db'. Moves P db db') _ (insert_transaction (sender_entry c)) _
                  (After-insert_transaction _ _ _ λ _.
                    After-bind (λ _ db'. Moves P db db') _
                      (insert_transaction
                        (recipient_entry c recipient.id (phone_of c.sender_id db)))
                      _
                      (After-insert_transaction _ _ _ λ _. (
                        send c.sender_id (transfer_total c) recipient.id (to_cents c.amount),
                        p,
                        (
                          distinct,
                          (ws.balance, balance_in-some c.sender_id db.wallets ws from, covered),
                        ),
                        λ u. sent ws wr u from to distinct,
                      )))))))

    transfer_between-Does :
        recipient.id ≢ c.sender_id
        → Does P db (
            transfer_between c recipient
              (find_wallet c.sender_id db)
              (find_wallet recipient.id db)
              db)
    transfer_between-Does ne =
        go (find_wallet c.sender_id db) (find_wallet recipient.id db) refl refl
      where
        go :
            (s r : Option Wallet)
            → find_wallet c.sender_id db ≡ s
            → find_wallet recipient.id db ≡ r
            → Does P db (transfer_between c recipient s r db)
        go none r e f = unfold transfer_between in (stays P db idle)
        go (some ws) none e f = unfold transfer_between in ground (arith, (stays P db idle))
        go (some ws) (some wr) e f = elim (Bool-cases (ltb ws.balance (transfer_total c))) [
          | inl short ↦ unfold transfer_between in rw short (stays P db idle)
          | inr enough ↦
              unfold transfer_between in rw enough (move-Does ws wr e f ne (ground (arith, enough)))
        ]

  -- An internal transfer does nothing, or moves its amount to the user of that phone number, with the fee
  -- on top for the sender.
  pub process_internal_transfer-Does :
      (c : TransferCall)
      → ((r : User)
          → find_user_by_phone c.recipient_phone db ≡ some r
          → P (send c.sender_id (transfer_total c) r.id (to_cents c.amount)))
      → Does P db (process_internal_transfer c db)
  unfolding process_internal_transfer
  process_internal_transfer-Does c p =
      elim (Option-cases (find_user_by_phone c.recipient_phone db)) [
        | inl e ↦ rw (e, process_internal_transfer) (ground (arith, (stays P db idle)))
        | inr (r, e) ↦ elim (Bool-cases (r.id == c.sender_id)) [
          | inl self ↦
              rw (e, process_internal_transfer) (rw self (ground (arith, (stays P db idle))))
          | inr other ↦
              rw (e, process_internal_transfer)
                (rw other (
                  ground (
                    arith,
                    (stays P db idle),
                    transfer_between-Does c r (p r e) (λ same. ground (arith, same, other)),
                  )))
        ]
      ]
