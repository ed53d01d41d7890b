-- ===== src/Jeko/Settling.antt =====
-- What the background task does for a withdrawal whose webhook was lost (app/services/auto_reconcile.py).
use backend_ayak_bine.Base.{
  find-satisfies, ℕ, ◌≡◌, refl, sym, ap, ◌∙◌, Bool, true, false, Option, none, some, Option-cases,
  List, [], ◌∷◌, Text, text_eq, text_eq_refl, text_eq_sound, arith, inl, inr, Bool-cases, find,
  update_where,
}
use mathlib.Core.Path.{subst}
use backend_ayak_bine.Money.{Decimal}
use backend_ayak_bine.Jeko.Client.{
  JekoServer, JekoResult, received, api_error, network_error, uncaught, get_transfer_status,
}
use backend_ayak_bine.Jeko.Webhook.{
  Transaction, TransactionStatus, handle_payout_webhook, payout_failed,
}
use backend_ayak_bine.Jeko.Delivery.{
  State, has_reference, find_transaction, put_transaction, handle_leg,
}
use backend_ayak_bine.Jeko.Reconcile.{
  is_pending_leg, map_jeko_status, apply_status, reconcile_payout, reconcile_payin,
  reconcile_transaction_by_reference, auto_reconcile_loop, is_terminal,
}

find-replaced :
    (p : Transaction → Bool) (t t' : Transaction) (ts : List Transaction)
    → p t' ≡ true
    → find p ts ≡ some t
    → find p (update_where p (λ _. t') ts) ≡ some t'
find-replaced p t t' [] h e = cc
find-replaced p t t' (x ∷ ts) h e = elim (Bool-cases (p x)) [
  | inl y ↦ rw y (rw h refl)
  | inr n ↦ rw n (rw n (find-replaced p t t' ts h (rw n at e)))
]

-- The row that was put back is the one that its reference finds.
find-put :
    (reference : Text) (t t' : Transaction) (ts : List Transaction)
    → find_transaction reference ts ≡ some t
    → t'.internal_reference ≡ t.internal_reference
    → find_transaction reference (put_transaction t' ts) ≡ some t'
find-put reference t t' ts e same =
    let own : t'.internal_reference ≡ reference =
      same
      ∙ text_eq_sound t.internal_reference reference
          (find-satisfies (has_reference reference) ts t e) in
    subst (λ r. find_transaction reference (update_where (has_reference r) (λ _. t') ts) ≡ some t')
      (sym own)
      (find-replaced (has_reference reference) t t' ts
        (subst (λ r. text_eq r reference ≡ true) (sym own) (text_eq_refl reference)) e)

-- The transaction whose pay-out succeeded.
abbrev pub paid_out : Transaction → Transaction
paid_out t = record t {
  payout_status = some TransactionStatus.success;
  status = TransactionStatus.success;
}

module _ {W : Type 0} (credit_wallet : ℕ → Decimal → W → Option W) (server : JekoServer) where
  abbrev pub settled_state : Transaction → State W → State W
  settled_state t s = record s { transactions = put_transaction (paid_out t) s.transactions }

  -- What JEKO says of the pay-out, if it says that it is over.
  abbrev pub verdict : JekoResult → Option Bool
  verdict (received d) = map_jeko_status d.status
  verdict (api_error n d) = none
  verdict network_error = none
  verdict uncaught = none

  abbrev pub failed_state : State W → Option (Transaction × W) → State W
  failed_state s none = s
  failed_state s (some (t, w)) = record s {
    transactions = put_transaction t s.transactions;
    wallets = w;
  }

  -- The state in which one application of the verdict leaves the tables.
  abbrev pub concluded : Transaction → State W → Option Bool → State W
  concluded t s none = s
  concluded t s (some true) = settled_state t s
  concluded t s (some false) = failed_state s (payout_failed credit_wallet server t s.wallets)

  pass_concludes :
      (reference : Text) (t : Transaction) (id : ℕ) (a : JekoResult) (v : Option Bool) (s : State W)
      → find_transaction reference s.transactions ≡ some t
      → is_pending_leg t.payin_status ≡ false
      → t.payout_status ≡ some TransactionStatus.pending
      → t.jeko_payout_id ≡ some id
      → get_transfer_status server id ≡ a
      → verdict a ≡ v
      → (reconcile_transaction_by_reference credit_wallet server true reference s).1
        ≡ concluded t s v
  unfolding reconcile_transaction_by_reference reconcile_payin reconcile_payout apply_status
      handle_leg handle_payout_webhook
  pass_concludes reference t id (api_error n d) v s e h k known answer status =
      ground (arith, e, h, k, known, answer, status)
  pass_concludes reference t id network_error v s e h k known answer status =
      ground (arith, e, h, k, known, answer, status)
  pass_concludes reference t id uncaught v s e h k known answer status =
      ground (arith, e, h, k, known, answer, status)
  pass_concludes reference t id (received d) none s e h k known answer status =
      ground (arith, e, h, k, known, answer, status)
  pass_concludes reference t id (received d) (some true) s e h k known answer status =
      ground (arith, e, h, k, known, answer, status)
  pass_concludes reference t id (received d) (some false) s e h k known answer status =
      elim (Option-cases (payout_failed credit_wallet server t s.wallets)) [
        | inl f ↦ ground (arith, e, h, k, known, answer, status, f)
        | inr ((t', w), f) ↦ ground (arith, e, h, k, known, answer, status, f)
      ]

  -- Passes during which nothing else changes the tables.
  abbrev pub quiet : List ℕ → List (ℕ × (State W → State W))
  quiet [] = []
  quiet (delay ∷ delays) = (delay, λ s. s) ∷ quiet delays

  terminal_kept :
      (delays : List ℕ) (reference : Text) (t : Transaction) (s : State W)
      → find_transaction reference s.transactions ≡ some t
      → is_terminal credit_wallet server t.status ≡ true
      → auto_reconcile_loop credit_wallet server (quiet delays) reference s ≡ s
  unfolding auto_reconcile_loop
  terminal_kept [] reference t s e h = refl
  terminal_kept (delay ∷ delays) reference t s e h = ground (arith, e, h)

  payout_failed-terminal :
      (t t' : Transaction) (w w' : W)
      → payout_failed credit_wallet server t w ≡ some (t', w')
      → (t'.internal_reference ≡ t.internal_reference)
        × (is_terminal credit_wallet server t'.status ≡ true)
  unfolding payout_failed
  payout_failed-terminal t t' w w' h = (ground (arith, h), ground (arith, h))

  -- One more pass.
  pass_step :
      (delay : ℕ) (delays : List ℕ) (reference : Text) (t : Transaction) (s : State W)
      → find_transaction reference s.transactions ≡ some t
      → is_terminal credit_wallet server t.status ≡ false
      → auto_reconcile_loop credit_wallet server (quiet (delay ∷ delays)) reference s
        ≡ auto_reconcile_loop credit_wallet server
            (quiet delays)
            reference
            (reconcile_transaction_by_reference credit_wallet server true reference s).1
  unfolding auto_reconcile_loop
  pass_step delay delays reference t s e active =
      rw (e, auto_reconcile_loop) (rw (active, is_terminal) refl)

  module _ (reference : Text) (t : Transaction) (id : ℕ) (s : State W)
      (found : find_transaction reference s.transactions ≡ some t)
      (active : is_terminal credit_wallet server t.status ≡ false)
      (settled_in : is_pending_leg t.payin_status ≡ false)
      (waiting : t.payout_status ≡ some TransactionStatus.pending)
      (known : t.jeko_payout_id ≡ some id) where
    first_pass :
        (delay : ℕ) (delays : List ℕ) (v : Option Bool)
        → verdict (get_transfer_status server id) ≡ v
        → auto_reconcile_loop credit_wallet server (quiet (delay ∷ delays)) reference s
          ≡ auto_reconcile_loop credit_wallet server (quiet delays) reference (concluded t s v)
    first_pass delay delays v says =
        pass_step delay delays reference t s found active
        ∙ ap (auto_reconcile_loop credit_wallet server (quiet delays) reference) (
            pass_concludes reference t id (get_transfer_status server id) v s found settled_in
              waiting known refl says)

    -- Passes that change nothing.
    unchanged :
        (delays : List ℕ) (v : Option Bool)
        → verdict (get_transfer_status server id) ≡ v
        → concluded t s v ≡ s
        → auto_reconcile_loop credit_wallet server (quiet delays) reference s ≡ s
    unfolding auto_reconcile_loop
    unchanged [] v says same = refl
    unchanged (delay ∷ delays) v says same =
        first_pass delay delays v says
        ∙ ap (auto_reconcile_loop credit_wallet server (quiet delays) reference) same
        ∙ unchanged delays v says same

    failed_once :
        (delay : ℕ) (delays : List ℕ) (r : Option (Transaction × W))
        → verdict (get_transfer_status server id) ≡ some false
        → payout_failed credit_wallet server t s.wallets ≡ r
        → auto_reconcile_loop credit_wallet server (quiet (delay ∷ delays)) reference s
          ≡ concluded t s (some false)
    failed_once delay delays none says f =
        let same : concluded t s (some false) ≡ s = rw f refl in
        unchanged (delay ∷ delays) (some false) says same ∙ sym same
    failed_once delay delays (some (t', w)) says f =
        let ends = payout_failed-terminal t t' s.wallets w f in
        first_pass delay delays (some false) says
        ∙ rw f (
            terminal_kept delays reference t' (failed_state s (some (t', w)))
              (find-put reference t t' s.transactions found ends.0) ends.1)

    -- A transaction that is not over, whose pay-in is not pending and whose pay-out is, with an identifier at
    -- JEKO: after the delays of the background task, one or more, during which nothing else changes the
    -- tables, what JEKO says of the pay-out has been applied once, however many passes there were. If it was
    -- paid out, both statuses are success and nothing else has changed. If it failed, the failure is handled
    -- once, credit included, or not at all where that raises. If JEKO does not say, or its answer is an
    -- error, nothing has changed.
    pub auto_reconcile_settles :
        (delay : ℕ) (delays : List ℕ)
        → auto_reconcile_loop credit_wallet server (quiet (delay ∷ delays)) reference s
          ≡ concluded t s (verdict (get_transfer_status server id))
    auto_reconcile_settles delay delays = go (verdict (get_transfer_status server id)) refl
      where
        go :
            (v : Option Bool)
            → verdict (get_transfer_status server id) ≡ v
            → auto_reconcile_loop credit_wallet server (quiet (delay ∷ delays)) reference s
              ≡ concluded t s v
        go none says = unchanged (delay ∷ delays) none says refl
        go (some true) says =
            first_pass delay delays (some true) says
            ∙ terminal_kept delays reference (paid_out t) (settled_state t s)
                (find-put reference t (paid_out t) s.transactions found refl) refl
        go (some false) says =
            failed_once delay delays (payout_failed credit_wallet server t s.wallets) says refl
