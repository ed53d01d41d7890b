-- ===== src/Audit/Progress.antt =====
-- What the ledger does when nothing stands against it: a withdrawal or a transfer that the balance covers is
-- accepted, with the rows that it writes (app/api_wallet.py).
use backend_ayak_bine.Base.{
  ℕ, ◌-◌, ◌≤◌, ◌<◌, ◌≡◌, refl, true, false, none, some, ◌∷◌, ◌==◌, arith, Text, codes, upper,
  text_in, text_eq, exists, reply, ◌∙◌, ap,
}
use mathlib.Core.Path.{subst}
use backend_ayak_bine.Money.{Decimal, is_zero, exceeds_cents, sub_to_cents, sub_from_cents}
use backend_ayak_bine.Money.Round.{HasCents, to_cents_exact, sub_to_cents_exact, scale_pos}
use backend_ayak_bine.Ledger.{
  Db, Wallet, LedgerTransaction, PaymentProvider, Exec, returned, raised, success,
}
use backend_ayak_bine.Ledger.Store.{
  numeric_limit, find_wallet, set_balance, insert_transaction, insert_violation, proof_taken,
  longer_than, ◌>>◌,
}
use backend_ayak_bine.Ledger.Payout.{
  PayoutReserved, pending_payout, reserve, process_payout_deduction,
}
use backend_ayak_bine.Ledger.Service.{cast_provider, with_provider, request_payout}
use backend_ayak_bine.Wallet.{payout_request, valid_operator}
use backend_ayak_bine.Audit.Wallets.{with_balance}

-- What the constraints ask of a new row that has no proof.
pub record Insertable (t : LedgerTransaction) (db : Db) : Type 0 where
  pub amount : (0 < t.amount) × (t.amount < numeric_limit)
  pub fee : t.fee < numeric_limit
  pub fresh_id : exists (λ r. r.id == t.id) db.ledger ≡ false
  pub fresh_reference : exists (λ r. r.reference == t.reference) db.ledger ≡ false
  pub known_user : exists (λ u. u.id == t.user_id) db.users ≡ true
  pub no_proof : t.proof_ref ≡ none
  pub short_phone : longer_than 20 t.phone_number ≡ false

pub insert_returns :
    (t : LedgerTransaction) (db : Db)
    → Insertable t db
    → insert_transaction t db ≡ returned tt (record db { ledger = t ∷ db.ledger })
unfolding insert_transaction insert_violation proof_taken
insert_returns t db h =
    ground (
      arith, h.amount, h.fee, h.fresh_id, h.fresh_reference, h.known_user, h.no_proof,
      h.short_phone,
    )

pub set_balance_returns :
    (uid b : ℕ) (db : Db)
    → b < numeric_limit
    → set_balance uid b db ≡ returned tt (record db { wallets = with_balance uid b db.wallets })
unfolding set_balance
set_balance_returns uid b db h = ground (arith, h)

pub then_returns {ℓ κ} :
    {A : Type ℓ} {B : Type κ} (m : Db → Exec A) (n : Db → Exec B) (db db' : Db) {a : A}
    → m db ≡ returned a db'
    → (m >> n) db ≡ n db'
then_returns m n db db' h = ap (λ r. elim r [ returned x d ↦ n d | raised e ↦ raised e ]) h

covers : (b c : ℕ) (x : Decimal) → HasCents x c → c ≤ b → exceeds_cents b x ≡ false
unfolding exceeds_cents
covers b c x h le = grind (arith, h, scale_pos x)

pub coefficient_pos : (x : Decimal) (c : ℕ) → HasCents x c → 0 < c → is_zero x ≡ false
coefficient_pos x c h pos = grind (arith, h, pos, scale_pos x)

-- The four operators, whatever the case of the letters.
abbrev pub Names : PaymentProvider → Text → Type 0
Names PaymentProvider.wave s = upper s ≡ codes "WAVE"
Names PaymentProvider.orange s = upper s ≡ codes "ORANGE"
Names PaymentProvider.mtn s = upper s ≡ codes "MTN"
Names PaymentProvider.moov s = upper s ≡ codes "MOOV"
Names PaymentProvider.internal s = ⊥
Names PaymentProvider.admin_manual s = ⊥
Names PaymentProvider.orange_money s = ⊥

Names-valid : (p : PaymentProvider) (s : Text) → Names p s → valid_operator s ≡ true
unfolding valid_operator text_in text_eq
Names-valid PaymentProvider.wave s h = rw h refl
Names-valid PaymentProvider.orange s h = rw h refl
Names-valid PaymentProvider.mtn s h = rw h refl
Names-valid PaymentProvider.moov s h = rw h refl
Names-valid PaymentProvider.internal s h = absurd h
Names-valid PaymentProvider.admin_manual s h = absurd h
Names-valid PaymentProvider.orange_money s h = absurd h

Names-cast : (p : PaymentProvider) (s : Text) → Names p s → cast_provider (upper (upper s)) ≡ some p
unfolding cast_provider upper text_eq
Names-cast PaymentProvider.wave s h = rw h refl
Names-cast PaymentProvider.orange s h = rw h refl
Names-cast PaymentProvider.mtn s h = rw h refl
Names-cast PaymentProvider.moov s h = rw h refl
Names-cast PaymentProvider.internal s h = absurd h
Names-cast PaymentProvider.admin_manual s h = absurd h
Names-cast PaymentProvider.orange_money s h = absurd h

module _ (tid reference uid : ℕ) (amount : Decimal) (c : ℕ) (provider phone : Text)
    (p : PaymentProvider) (db : Db) (w : Wallet) (cents : HasCents amount c)
    (held : find_wallet uid db ≡ some w) (covered : c ≤ w.balance)
    (fits : w.balance < numeric_limit)
    (row : Insertable (pending_payout tid uid amount reference p phone) db) where
  abbrev pub after_withdrawal : Db
  after_withdrawal = record db {
    wallets = with_balance uid (w.balance - c) db.wallets;
    ledger = pending_payout tid uid amount reference p phone ∷ db.ledger;
  }

  abbrev pub reserved : PayoutReserved
  reserved = record {
    reference = reference;
    transaction_id = tid;
    new_balance = sub_from_cents w.balance amount;
  }

  reserve_returns :
      sub_to_cents w.balance amount ≡ w.balance - c
      → reserve tid uid w.balance amount reference p phone db
        ≡ returned (success reserved) after_withdrawal
  unfolding reserve
  reserve_returns exact = rw exact (
      then_returns (set_balance uid (w.balance - c)) _ db _
        (set_balance_returns uid (w.balance - c) db (omega (arith, fits)))
      ∙ then_returns (insert_transaction (pending_payout tid uid amount reference p phone)) _ _ _ (
          insert_returns (pending_payout tid uid amount reference p phone)
            (record db { wallets = with_balance uid (w.balance - c) db.wallets })
            (record {
              amount = row.amount;
              fee = row.fee;
              fresh_id = row.fresh_id;
              fresh_reference = row.fresh_reference;
              known_user = row.known_user;
              no_proof = row.no_proof;
              short_phone = row.short_phone;
            })))

  deduction_returns :
      process_payout_deduction tid uid amount reference p phone db
      ≡ returned (success reserved) after_withdrawal
  unfolding process_payout_deduction
  deduction_returns =
      let enough = covers w.balance c amount cents covered in
      rw (held, process_payout_deduction)
        (rw enough (reserve_returns (sub_to_cents_exact w.balance amount c cents enough).1))

  nonzero : is_zero amount ≡ false
  nonzero =
      coefficient_pos amount c cents
        (subst (λ n. 0 < n) (to_cents_exact amount c cents) row.amount.0)

  -- A withdrawal of a positive number of whole hundredths by a known user whose balance, within its
  -- column, covers it, to Wave, Orange, MTN or Moov in any case of the letters and a number of at most 20
  -- characters, with an identifier and a reference that are new, is accepted: the balance is charged that amount and a pending row of it is on top.
  pub payout_request_accepted :
      Names p provider
      → payout_request tid reference uid amount provider phone db
        ≡ (reply reserved, after_withdrawal)
  unfolding payout_request request_payout with_provider
  payout_request_accepted named =
      let valid = Names-valid p provider named in
      let cast = Names-cast p provider named in
      rw (nonzero, payout_request) (rw valid (rw (cast, with_provider) (rw deduction_returns refl)))
