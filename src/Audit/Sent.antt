-- ===== src/Audit/Sent.antt =====
-- What `transfer_internal_endpoint` of app/api_wallet.py does when nothing stands against a transfer.
use backend_ayak_bine.Base.{
  ℕ, ◌+◌, ◌-◌, ◌≤◌, ◌<◌, ◌≡◌, ◌≢◌, refl, false, some, ◌∷◌, ◌==◌, arith, Text, leb, ltb, length,
  reply, ◌∙◌, Bool-cases, inl, inr,
}
use backend_ayak_bine.Money.{Decimal, is_zero, to_cents, add_to_cents}
use backend_ayak_bine.Money.Round.{to_cents_exact, add_to_cents_lem}
use backend_ayak_bine.Ledger.{Db, User, Wallet, returned, success}
use backend_ayak_bine.Ledger.Store.{
  numeric_limit, find_wallet, find_user_by_phone, set_balance, insert_transaction,
}
use backend_ayak_bine.Ledger.Service.{get_fee_percent, transfer_internal}
use backend_ayak_bine.Ledger.Transfer.{
  TransferCall, TransferDone, transfer_fee, transfer_total, sender_entry, recipient_entry, phone_of,
  move, transfer_between, process_internal_transfer,
}
use backend_ayak_bine.Push.{Credentials, FcmOutcome, notify_user}
use backend_ayak_bine.Wallet.{TransferIds, transfer_internal_endpoint, notify_recipient}
use backend_ayak_bine.Audit.Wallets.{with_balance}
use backend_ayak_bine.Audit.Progress.{Insertable, insert_returns, set_balance_returns, then_returns}

to_cents_pos : (x : Decimal) → 0 < to_cents x → is_zero x ≡ false
to_cents_pos x pos = elim (Bool-cases (is_zero x)) [
  | inr e ↦ e
  | inl e ↦
      let none_at_all : to_cents x ≡ 0 = to_cents_exact x 0 (ground (arith, e)) in
      absurd (omega (arith, pos, none_at_all))
]

module _ (c : TransferCall) (r : User) (ws wr : Wallet) (db : Db)
    (found : find_user_by_phone c.recipient_phone db ≡ some r) (other : r.id ≢ c.sender_id)
    (from : find_wallet c.sender_id db ≡ some ws) (to : find_wallet r.id db ≡ some wr)
    (covered : transfer_total c ≤ ws.balance) (fits : ws.balance < numeric_limit)
    (fits_too : wr.balance + to_cents c.amount < numeric_limit)
    (sent : Insertable (sender_entry c) db)
    (got : Insertable (recipient_entry c r.id (phone_of c.sender_id db)) db)
    (two_rows : c.sender_row ≢ c.recipient_row)
    (two_references : c.sender_reference ≢ c.recipient_reference) where
  abbrev pub after_transfer : Db
  after_transfer = record db {
    wallets =
        with_balance r.id (add_to_cents wr.balance c.amount)
          (with_balance c.sender_id (ws.balance - transfer_total c) db.wallets);
    ledger = recipient_entry c r.id (phone_of c.sender_id db) ∷ sender_entry c ∷ db.ledger;
  }

  abbrev pub done : TransferDone
  done = record {
    sender_reference = c.sender_reference;
    recipient_reference = c.recipient_reference;
    net_amount = c.amount;
    fee = transfer_fee c;
    total_charged = transfer_total c;
    new_balance = ws.balance - transfer_total c;
  }

  abbrev after_charge : Db
  after_charge = record db {
    wallets = with_balance c.sender_id (ws.balance - transfer_total c) db.wallets;
  }

  abbrev after_balances : Db
  after_balances = record db { wallets = after_transfer.wallets }

  abbrev after_sent : Db
  after_sent = record after_balances { ledger = sender_entry c ∷ db.ledger }

  moved : move c r ws wr db ≡ returned (success done) after_transfer
  unfolding move
  moved =
      then_returns (set_balance c.sender_id (ws.balance - transfer_total c)) _ db after_charge
        (set_balance_returns c.sender_id (ws.balance - transfer_total c) db (omega (arith, fits)))
      ∙ then_returns (set_balance r.id (add_to_cents wr.balance c.amount)) _ after_charge
          after_balances
          (set_balance_returns r.id (add_to_cents wr.balance c.amount) after_charge
            (omega (arith, add_to_cents_lem wr.balance c.amount, fits_too)))
      ∙ then_returns (insert_transaction (sender_entry c)) _ after_balances after_sent (
          insert_returns (sender_entry c) after_balances (record {
            amount = sent.amount;
            fee = sent.fee;
            fresh_id = sent.fresh_id;
            fresh_reference = sent.fresh_reference;
            known_user = sent.known_user;
            no_proof = sent.no_proof;
            short_phone = sent.short_phone;
          }))
      ∙ then_returns (insert_transaction (recipient_entry c r.id (phone_of c.sender_id db))) _
          after_sent after_transfer
          (insert_returns (recipient_entry c r.id (phone_of c.sender_id db)) after_sent (record {
            amount = got.amount;
            fee = got.fee;
            fresh_id = ground (arith, two_rows, got.fresh_id);
            fresh_reference = ground (arith, two_references, got.fresh_reference);
            known_user = got.known_user;
            no_proof = got.no_proof;
            short_phone = got.short_phone;
          }))

  transfer_returns : process_internal_transfer c db ≡ returned (success done) after_transfer
  unfolding process_internal_transfer transfer_between
  transfer_returns =
      let some_amount = to_cents_pos c.amount sent.amount.0 in
      let fee_fits : leb numeric_limit (transfer_fee c) ≡ false = ground (arith, sent.fee) in
      let total_fits : leb numeric_limit (transfer_total c) ≡ false =
        ground (arith, covered, fits) in
      let not_self : (r.id == c.sender_id) ≡ false = ground (arith, other) in
      let enough : ltb ws.balance (transfer_total c) ≡ false = ground (arith, covered) in
      rw (some_amount, process_internal_transfer)
        (rw fee_fits (
          rw total_fits
            (rw found (rw not_self (rw (from, transfer_between) (rw to (rw enough moved)))))))

-- `c` is the call that the endpoint makes of a request.
module _ (creds : Credentials) (fcm : ℕ → FcmOutcome) (ids : TransferIds) (uid : ℕ)
    (amount : Decimal) (phone : Text) (db : Db) where
  abbrev pub call : TransferCall
  call = record {
    sender_id = uid;
    amount = amount;
    recipient_phone = phone;
    sender_reference = ids.sender_reference;
    recipient_reference = ids.recipient_reference;
    fee_percent = get_fee_percent db;
    sender_row = ids.sender_row;
    recipient_row = ids.recipient_row;
  }

  -- A transfer between the wallets of two known users, to a number of 6 to 20 characters, whose sender's balance covers the amount with the
  -- fee, is accepted: the sender is charged both, the recipient gets the amount, the two rows are on top
  -- with the fee on the sender's alone, and the recipient's devices are notified. The identifiers and
  -- references are new and distinct, the sender's number has at most 20 characters, and the amount, the fee and both balances stay within their columns.
  pub transfer_accepted :
      (r : User) (ws wr : Wallet)
      → 6 ≤ length phone
      → find_user_by_phone phone db ≡ some r
      → r.id ≢ uid
      → find_wallet uid db ≡ some ws
      → find_wallet r.id db ≡ some wr
      → transfer_total call ≤ ws.balance
      → ws.balance < numeric_limit
      → wr.balance + to_cents amount < numeric_limit
      → Insertable (sender_entry call) db
      → Insertable (recipient_entry call r.id (phone_of uid db)) db
      → ids.sender_row ≢ ids.recipient_row
      → ids.sender_reference ≢ ids.recipient_reference
      → transfer_internal_endpoint creds fcm ids uid amount phone db ≡ (
        reply (record {
          sender_reference = ids.sender_reference;
          recipient_reference = ids.recipient_reference;
          net_amount = amount;
          fee = transfer_fee call;
          total_charged = transfer_total call;
          new_balance = ws.balance - transfer_total call;
        }),
        record db {
          wallets =
              with_balance r.id
                (wr.balance + to_cents amount)
                (with_balance uid (ws.balance - transfer_total call) db.wallets);
          ledger = recipient_entry call r.id (phone_of uid db) ∷ sender_entry call ∷ db.ledger;
          devices = notify_user creds fcm r.id db.devices;
        },
      )
  unfolding transfer_internal_endpoint transfer_internal notify_recipient
  transfer_accepted r ws wr long found other from to covered fits fits_too sent got rows
        references =
      let accepted : ltb (length phone) 6 ≡ false = ground (arith, long) in
      rw (accepted, transfer_internal_endpoint)
        (rw (to_cents_pos amount sent.amount.0) (
          rw
            (
              transfer_returns call r ws wr db found other from to covered fits fits_too sent got
                  rows references,
              transfer_internal,
            )
            (rw (found, notify_recipient) (rw (add_to_cents_lem wr.balance amount) refl))))
