-- ===== src/Audit/Conserved.antt =====
-- An internal transfer (app/wallet_service.py `transfer_internal`) takes from the wallets exactly its fee.
use backend_ayak_bine.Base.{
  ℕ, ◌+◌, ◌-◌, ◌≤◌, ◌≡◌, ◌≢◌, refl, ap, false, Option, none, some, List, [], ◌∷◌, ◌==◌, arith, inl,
  inr, Bool-cases, Option-cases, exists, sum_by, ltb, ==_iff, ◌∙◌,
}
use mathlib.Core.Option.{some-injective}
use backend_ayak_bine.Money.{add_to_cents}
use backend_ayak_bine.Money.Round.{add_to_cents_lem}
use mathlib.Core.Path.{subst}
use backend_ayak_bine.Ledger.{Db, User, Wallet, returned, Reply, success, failure}
use backend_ayak_bine.Ledger.Store.{
  find_wallet, find_user_by_phone, set_balance, insert_transaction,
}
use backend_ayak_bine.Ledger.Transfer.{
  TransferCall, TransferDone, transfer_fee, transfer_total, sender_entry, recipient_entry, move,
  transfer_between, process_internal_transfer, phone_of,
}
use backend_ayak_bine.Audit.Rules.{After, After-bind, After-set_balance, After-insert_transaction}
use backend_ayak_bine.Audit.Wallets.{with_balance, wallet_in}

-- `user_id` is UNIQUE in wallets.
abbrev pub UniqueWallets : List Wallet → Type 0
UniqueWallets [] = Unit
UniqueWallets (w ∷ ws) = (exists (λ x. x.user_id == w.user_id) ws ≡ false) × UniqueWallets ws

-- All the money in the wallets.
abbrev pub total : List Wallet → ℕ
total ws = sum_by (λ w. w.balance) ws

with_balance_none :
    (u b : ℕ) (ws : List Wallet)
    → exists (λ x. x.user_id == u) ws ≡ false
    → with_balance u b ws ≡ ws
with_balance_none u b [] h = refl
with_balance_none u b (w ∷ ws) h = ground (arith, with_balance_none u b ws)

-- Writing one balance changes the total by the difference.
total-with_balance :
    (u b : ℕ) (ws : List Wallet) (w : Wallet)
    → UniqueWallets ws
    → wallet_in u ws ≡ some w
    → total (with_balance u b ws) + w.balance ≡ total ws + b
total-with_balance u b [] w k h = cc
total-with_balance u b (x ∷ ws) w k h = elim (Bool-cases (x.user_id == u)) [
  | inl e ↦
      let same : x ≡ w = some-injective x w (rw e at h) in
      rw e (
        rw
          (with_balance_none u b ws
            (subst (λ i. exists (λ y. y.user_id == i) ws ≡ false) ((==_iff x.user_id u).0 e) k.0))
          (omega (arith, ap (λ (y : Wallet). y.balance) same)))
  | inr e ↦ rw e (omega (arith, total-with_balance u b ws w k.1 (rw e at h)))
]

exists-with_balance :
    (i u b : ℕ) (ws : List Wallet)
    → exists (λ x. x.user_id == i) (with_balance u b ws) ≡ exists (λ x. x.user_id == i) ws
exists-with_balance i u b [] = refl
exists-with_balance i u b (w ∷ ws) = ground (arith, exists-with_balance i u b ws)

with_balance-UniqueWallets :
    (u b : ℕ) (ws : List Wallet) → UniqueWallets ws → UniqueWallets (with_balance u b ws)
with_balance-UniqueWallets u b [] k = tt
with_balance-UniqueWallets u b (w ∷ ws) k =
    ground (arith, exists-with_balance w.user_id u b ws, with_balance-UniqueWallets u b ws k.1)

wallet_in-with_balance_other :
    (i u b : ℕ) (ws : List Wallet) → i ≢ u → wallet_in i (with_balance u b ws) ≡ wallet_in i ws
wallet_in-with_balance_other i u b [] h = refl
wallet_in-with_balance_other i u b (w ∷ ws) h =
    ground (arith, wallet_in-with_balance_other i u b ws h)

-- What a transfer promises of the money in all wallets: a success takes its fee out of them, and any
-- other reply has changed no table.
abbrev pub Conserves : Db → Reply TransferDone → Db → Type 0
Conserves db (failure m) db' = db' ≡ db
Conserves db (success d) db' = total db'.wallets + d.fee ≡ total db.wallets

module _ (c : TransferCall) (recipient : User) (ws wr : Wallet) (db : Db)
    (k : UniqueWallets db.wallets) (from : find_wallet c.sender_id db ≡ some ws)
    (to : find_wallet recipient.id db ≡ some wr) (distinct : recipient.id ≢ c.sender_id)
    (covered : transfer_total c ≤ ws.balance) where
  moved_total :
      total (
          with_balance recipient.id
            (add_to_cents wr.balance c.amount)
            (with_balance c.sender_id (ws.balance - transfer_total c) db.wallets))
        + transfer_fee c
      ≡ total db.wallets
  unfolding transfer_total
  moved_total =
      let left = ws.balance - transfer_total c in
      let sent = with_balance c.sender_id left db.wallets in
      omega (
        arith,
        covered,
        add_to_cents_lem (transfer_fee c) c.amount,
        add_to_cents_lem wr.balance c.amount,
        total-with_balance c.sender_id left db.wallets ws k from,
        total-with_balance recipient.id (add_to_cents wr.balance c.amount) sent wr
            (with_balance-UniqueWallets c.sender_id left db.wallets k)
            (wallet_in-with_balance_other recipient.id c.sender_id left db.wallets distinct ∙ to),
      )

  move-Conserves : After (Conserves db) (move c recipient ws wr db)
  unfolding move
  move-Conserves =
      After-bind (Conserves db) _ (set_balance c.sender_id (ws.balance - transfer_total c)) db (
        After-set_balance _ db _ _ (
          After-bind (Conserves db) _ (set_balance recipient.id (add_to_cents wr.balance c.amount))
            _
            (After-set_balance _ _ _ _ (
              After-bind (Conserves db) _ (insert_transaction (sender_entry c)) _ (
                After-insert_transaction _ _ _ λ _.
                  After-bind (Conserves db) _
                    (insert_transaction (recipient_entry c recipient.id (phone_of c.sender_id db)))
                    _ (After-insert_transaction _ _ _ λ _. moved_total))))))

transfer_between-Conserves :
    (c : TransferCall) (recipient : User) (db : Db)
    → UniqueWallets db.wallets
    → recipient.id ≢ c.sender_id
    → After
        (Conserves db)
        (transfer_between c recipient (find_wallet c.sender_id db) (find_wallet recipient.id db) db)
transfer_between-Conserves c recipient db k ne =
    go (find_wallet c.sender_id db) (find_wallet recipient.id db) refl refl
  where
    go :
        (s r : Option Wallet)
        → find_wallet c.sender_id db ≡ s
        → find_wallet recipient.id db ≡ r
        → After (Conserves db) (transfer_between c recipient s r db)
    go none r e f = unfold transfer_between in refl
    go (some ws) none e f = unfold transfer_between in ground arith
    go (some ws) (some wr) e f = elim (Bool-cases (ltb ws.balance (transfer_total c))) [
      | inl short ↦ unfold transfer_between in rw short refl
      | inr enough ↦
          unfold transfer_between in
          rw enough (move-Conserves c recipient ws wr db k e f ne (ground (arith, enough)))
    ]

process_internal_transfer-Conserves :
    (c : TransferCall) (db : Db)
    → UniqueWallets db.wallets
    → After (Conserves db) (process_internal_transfer c db)
unfolding process_internal_transfer
process_internal_transfer-Conserves c db k =
    elim (Option-cases (find_user_by_phone c.recipient_phone db)) [
      | inl e ↦ rw (e, process_internal_transfer) (ground arith)
      | inr (r, e) ↦ elim (Bool-cases (r.id == c.sender_id)) [
        | inl self ↦ rw (e, process_internal_transfer) (rw self (ground arith))
        | inr other ↦
            rw (e, process_internal_transfer)
              (rw other (
                ground (
                  arith,
                  transfer_between-Conserves c r db k (λ same. ground (arith, same, other)),
                )))
      ]
    ]

-- With one wallet for each user, a transfer that returns has either changed no table or taken from all
-- the wallets together exactly the fee that it reports.
pub transfer_money_kept :
    (c : TransferCall) (db db' : Db) (r : Reply TransferDone)
    → UniqueWallets db.wallets
    → process_internal_transfer c db ≡ returned r db'
    → Conserves db r db'
transfer_money_kept c db db' r k e =
    subst (After (Conserves db)) e (process_internal_transfer-Conserves c db k)
