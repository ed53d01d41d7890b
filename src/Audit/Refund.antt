-- ===== src/Audit/Refund.antt =====
-- A withdrawal that an administrator rejects (app/wallet_service.py `request_payout`, then
-- `admin_process_payout`): what the wallet has in the end.
use backend_ayak_bine.Base.{
  ℕ, ◌+◌, ◌*◌, ◌≡◌, refl, sym, ap, ◌∙◌, true, false, Option, some, List, [], ◌∷◌, arith, inl, inr,
  Bool-cases, Text, ==_refl,
}
use mathlib.Core.Option.{some-injective}
use mathlib.Core.Path.{subst}
use backend_ayak_bine.Money.{Decimal, to_cents, sub_to_cents, exceeds_cents, scale, round_half_up}
use backend_ayak_bine.Money.Round.{HasCents, to_cents_exact, sub_to_cents_exact}
use backend_ayak_bine.Ledger.{
  Db, Wallet, LedgerTransaction, TransactionStatus, TransactionType, PaymentProvider, is_status,
  returned, Reply, success, failure,
}
use backend_ayak_bine.Ledger.Store.{
  find_transaction, find_wallet, add_balance, set_balance, update_transaction, insert_audit,
  insert_transaction,
}
use backend_ayak_bine.Ledger.Payout.{
  PayoutReserved, pending_payout, reserve, process_payout_deduction, reject, settle,
  admin_process_payout,
}
use backend_ayak_bine.Audit.Rules.{
  After, After-bind, After-set_balance, After-insert_transaction, After-insert_audit,
  After-add_balance,
}
use backend_ayak_bine.Audit.Wallets.{balance_in, wallet_in, with_balance, balance_in-some}

balance_in-with_balance :
    (u b : ℕ) (ws : List Wallet) (w : Wallet)
    → wallet_in u ws ≡ some w
    → balance_in u (with_balance u b ws) ≡ some b
balance_in-with_balance u b [] w h = cc
balance_in-with_balance u b (x ∷ ws) w h = ground (arith, balance_in-with_balance u b ws w)

module _ (tid uid : ℕ) (amount : Decimal) (reference : ℕ) (provider : PaymentProvider)
    (phone : Text) (db : Db) (w : Wallet) (held : find_wallet uid db ≡ some w) where
  abbrev row : LedgerTransaction
  row = pending_payout tid uid amount reference provider phone

  -- The tables after a withdrawal that a reply calls accepted.
  abbrev ReservedIn : Reply PayoutReserved → Db → Type 0
  ReservedIn (failure m) db' = Unit
  ReservedIn (success r) db' =
      (find_transaction tid db' ≡ some row)
      × (balance_in uid db'.wallets ≡ some (sub_to_cents w.balance amount))
      × (exceeds_cents w.balance amount ≡ false)

  reserve-Reserved :
      exceeds_cents w.balance amount ≡ false
      → After ReservedIn (reserve tid uid w.balance amount reference provider phone db)
  unfolding reserve
  reserve-Reserved enough =
      After-bind ReservedIn _ (set_balance uid (sub_to_cents w.balance amount)) db (
        After-set_balance _ db _ _ (
          After-bind ReservedIn _ (insert_transaction row) _ (
            After-insert_transaction _ _ row λ _.
              (rw (==_refl tid) refl, balance_in-with_balance uid _ db.wallets w held, enough))))

  deduction-Reserved :
      After ReservedIn (process_payout_deduction tid uid amount reference provider phone db)
  unfolding process_payout_deduction
  deduction-Reserved = elim (Bool-cases (exceeds_cents w.balance amount)) [
    | inl short ↦ rw (held, process_payout_deduction) (rw short tt)
    | inr enough ↦ rw (held, process_payout_deduction) (rw enough (reserve-Reserved enough))
  ]

-- The balance after a rejection.
abbrev RefundedIn : ℕ → ℕ → Reply (Unit {0}) → Db → Type 0
RefundedIn uid b (failure m) db' = Unit
RefundedIn uid b (success u) db' = balance_in uid db'.wallets ≡ some b

reject-Refunded :
    (t : LedgerTransaction) (proof : Option Text) (admin_id : ℕ) (db : Db) (b : ℕ)
    → balance_in t.user_id db.wallets ≡ some b
    → After (RefundedIn t.user_id (b + t.amount)) (settle reject t proof admin_id db)
unfolding settle update_transaction
reject-Refunded t proof admin_id db b h =
    After-bind (RefundedIn t.user_id (b + t.amount)) _ (add_balance t.user_id t.amount) db (
      After-add_balance _ db t.user_id t.amount
        (λ absent. absurd (cc (rw (absent, balance_in) at h)))
        (λ w held. After-bind (RefundedIn t.user_id (b + t.amount)) _ (insert_audit _) _ (
          After-insert_audit _ _ _ (
            subst
              (λ x.
                balance_in t.user_id (with_balance t.user_id (x + t.amount) db.wallets)
                ≡ some (b + t.amount))
              (some-injective b w.balance (sym h ∙ balance_in-some t.user_id db.wallets w held))
              (balance_in-with_balance t.user_id (b + t.amount) db.wallets w held)))))

admin_reject-Refunded :
    (t : LedgerTransaction) (proof : Option Text) (admin_id : ℕ) (db : Db) (b : ℕ)
    → find_transaction t.id db ≡ some t
    → is_status t.status TransactionStatus.pending ≡ true
    → balance_in t.user_id db.wallets ≡ some b
    → After
        (RefundedIn t.user_id (b + t.amount))
        (admin_process_payout t.id reject proof admin_id db)
unfolding admin_process_payout
admin_reject-Refunded t proof admin_id db b e p h =
    rw (e, admin_process_payout) (rw p (reject-Refunded t proof admin_id db b h))

module _ (tid uid : ℕ) (amount : Decimal) (reference : ℕ) (provider : PaymentProvider)
    (phone : Text) (db db' db'' : Db) (w : Wallet) (r : PayoutReserved) (proof : Option Text)
    (admin_id : ℕ) where
  -- The balance after a withdrawal and its rejection.
  requested_rejected :
      find_wallet uid db ≡ some w
      → process_payout_deduction tid uid amount reference provider phone db
        ≡ returned (success r) db'
      → admin_process_payout tid reject proof admin_id db' ≡ returned (success tt) db''
      → (balance_in uid db''.wallets ≡ some (sub_to_cents w.balance amount + to_cents amount))
        × (exceeds_cents w.balance amount ≡ false)
  requested_rejected held h k =
      let reserved =
        subst (After (ReservedIn tid uid amount reference provider phone db w held)) h
          (deduction-Reserved tid uid amount reference provider phone db w held) in
      (
        subst (After (RefundedIn uid (sub_to_cents w.balance amount + to_cents amount))) k (
            admin_reject-Refunded (pending_payout tid uid amount reference provider phone) proof
              admin_id db' (sub_to_cents w.balance amount) reserved.0 refl reserved.1),
        reserved.2,
      )

  -- A withdrawal of whole hundredths that is accepted and then rejected leaves the wallet the balance
  -- that it had before the request.
  pub rejected_payout_restores :
      (c : ℕ)
      → HasCents amount c
      → find_wallet uid db ≡ some w
      → process_payout_deduction tid uid amount reference provider phone db
        ≡ returned (success r) db'
      → admin_process_payout tid reject proof admin_id db' ≡ returned (success tt) db''
      → balance_in uid db''.wallets ≡ some w.balance
  rejected_payout_restores c cents held h k =
      let (final, enough) = requested_rejected held h k in
      final
      ∙ ap some (
          omega (
            arith,
            to_cents_exact amount c cents,
            sub_to_cents_exact w.balance amount c cents enough,
          ))

half_cent_gain :
    (b c : ℕ)
    → let x : Decimal = record { coefficient = 10 * c + 5; exponent = 3 } in
      exceeds_cents b x ≡ false → sub_to_cents b x + to_cents x ≡ b + 1
unfolding sub_to_cents to_cents exceeds_cents round_half_up scale
half_cent_gain b c h = ground arith

-- The amount is `c` hundredths and a half, which the balance and the row both round upwards: a withdrawal
-- of it that is accepted and then rejected leaves the wallet one hundredth more than it had.
pub rejected_payout_gains :
    (tid uid c reference : ℕ) (provider : PaymentProvider) (phone : Text) (db db' db'' : Db)
    (w : Wallet) (r : PayoutReserved) (proof : Option Text) (admin_id : ℕ)
    → let x : Decimal = record { coefficient = 10 * c + 5; exponent = 3 } in
      find_wallet uid db ≡ some w
      → process_payout_deduction tid uid x reference provider phone db ≡ returned (success r) db'
      → admin_process_payout tid reject proof admin_id db' ≡ returned (success tt) db''
      → balance_in uid db''.wallets ≡ some (w.balance + 1)
rejected_payout_gains tid uid c reference provider phone db db' db'' w r proof admin_id held h k =
    let (final, enough) =
      requested_rejected tid uid (record { coefficient = 10 * c + 5; exponent = 3 }) reference
        provider phone db db' db'' w r proof admin_id held h k in
    final ∙ ap some (half_cent_gain w.balance c enough)

-- `admin_process_payout` does not read the type of the row: rejecting a deposit that is pending pays its
-- amount into the wallet, though the deposit was never credited.
pub rejected_deposit_paid :
    (t : LedgerTransaction) (proof : Option Text) (admin_id : ℕ) (db db' : Db) (b : ℕ)
    → find_transaction t.id db ≡ some t
    → t.type ≡ TransactionType.pay_in
    → is_status t.status TransactionStatus.pending ≡ true
    → balance_in t.user_id db.wallets ≡ some b
    → admin_process_payout t.id reject proof admin_id db ≡ returned (success tt) db'
    → balance_in t.user_id db'.wallets ≡ some (b + t.amount)
rejected_deposit_paid t proof admin_id db db' b e payin p h k =
    subst (After (RefundedIn t.user_id (b + t.amount))) k
      (admin_reject-Refunded t proof admin_id db b e p h)
