-- ===== src/Jeko/Advances.antt =====
-- What one notification of a leg that exists may do (`_handle_payin_webhook` and `_handle_payout_webhook` of
-- app/services/webhook_service.py): credit the user once, and then nothing more can.
use backend_ayak_bine.Base.{
  ℕ, ◌≡◌, refl, Bool, true, false, not, ◌&&◌, ◌||◌, Option, none, some, Text, if◌then◌else◌, arith,
  inl, inr, ◌⊎◌, Bool-cases, Option-cases, is_some,
}
use backend_ayak_bine.Money.{Decimal}
use backend_ayak_bine.Jeko.Client.{
  JekoServer, JekoResult, received, api_error, network_error, uncaught,
}
use backend_ayak_bine.Jeko.Webhook.{
  ◌>>=◌, Transaction, TransactionType, TransactionStatus, is_terminal_leg, Leg, payin, payout,
  handle_payin_webhook, handle_payout_webhook, payin_succeeded, payout_failed, continue_payin,
  deposit_paid, payout_not_initiated, initiate_payout, failure_credit,
}
use backend_ayak_bine.Jeko.Delivery.{handle_leg}
use backend_ayak_bine.Jeko.Legs.{status_of}

-- No pay-out has begun before the pay-in is settled; a transaction may also have no pay-in.
abbrev pub in_order : Transaction → Bool
in_order t =
    not (is_some t.payin_status) || not (is_some t.payout_status) || is_terminal_leg t.payin_status

-- Whether a notification may still credit the wallet.
abbrev pub may_credit : Transaction → Bool
may_credit t =
    not (is_terminal_leg t.payout_status)
    && (is_some t.payout_status || not (is_terminal_leg t.payin_status))

module _ {W : Type 0} (credit_wallet : ℕ → Decimal → W → Option W) where
  -- One notification: it may credit once, and nothing can after it has.
  abbrev pub Advances : Transaction → W → Transaction × W → Type 0
  Advances t w (t', w') =
      (in_order t' ≡ true)
      × (t'.user_id ≡ t.user_id)
      × (((w' ≡ w) × (may_credit t' ≡ true → may_credit t ≡ true))
          ⊎ ((may_credit t ≡ true)
              × (may_credit t' ≡ false)
              × ((a : Decimal) × (credit_wallet t.user_id a w ≡ some w'))))

  abbrev pub AdvancesIf : Transaction → W → Option (Transaction × W) → Type 0
  AdvancesIf t w none = Unit
  AdvancesIf t w (some s) = Advances t w s

  credit-Advances :
      (t t' : Transaction) (a : Decimal) (w : W)
      → in_order t' ≡ true
      → t'.user_id ≡ t.user_id
      → may_credit t ≡ true
      → may_credit t' ≡ false
      → AdvancesIf t w (credit_wallet t.user_id a w >>= λ w'. some (t', w'))
  credit-Advances t t' a w o u m m' = elim (Option-cases (credit_wallet t.user_id a w)) [
    | inl f ↦ rw f tt
    | inr (w', f) ↦ rw f (o, u, inr (m, m', (a, f)))
  ]

  module _ (server : JekoServer) where
    -- The pay-in of `t` is not settled and its pay-out has not begun; `s` is `t` with the pay-in settled.
    module _ (t : Transaction) (w : W) (open_in : is_terminal_leg t.payin_status ≡ false)
        (no_out : t.payout_status ≡ none) where
      abbrev settled_in : Transaction
      settled_in = record t { payin_status = some TransactionStatus.success }

      may : may_credit t ≡ true
      may = rw no_out (rw open_in refl)

      not_initiated-Advances :
          (event : Text)
          → AdvancesIf t w (payout_not_initiated credit_wallet server event settled_in w)
      unfolding payout_not_initiated
      not_initiated-Advances event =
          elim (Option-cases (failure_credit credit_wallet server settled_in)) [
            | inl e ↦ rw (e, payout_not_initiated) tt
            | inr (a, e) ↦
                rw (e, payout_not_initiated)
                  (credit-Advances t
                    (record settled_in {
                      payout_status = some TransactionStatus.failed;
                      status = TransactionStatus.failed_payout;
                      payout_initiation_error = some event;
                    })
                    a w refl refl may refl)
          ]

      continue-Advances :
          (event : Text) → AdvancesIf t w (continue_payin credit_wallet server event settled_in w)
      unfolding continue_payin
      continue-Advances event = go (initiate_payout credit_wallet server settled_in) refl
        where
          go :
              (o : Option JekoResult)
              → initiate_payout credit_wallet server settled_in ≡ o
              → AdvancesIf t w (continue_payin credit_wallet server event settled_in w)
          go none e = rw (e, continue_payin) tt
          go (some (received d)) e = rw (e, continue_payin) (refl, refl, inl (refl, λ _. may))
          go (some (api_error s d)) e = rw (e, continue_payin) (not_initiated-Advances event)
          go (some network_error) e = rw (e, continue_payin) (not_initiated-Advances event)
          go (some uncaught) e = rw (e, continue_payin) tt

      succeeded-Advances :
          (type : TransactionType) (event : Text)
          → AdvancesIf t w (elim type as (λ _. Option (Transaction × W)) [
            | TransactionType.deposit ↦ deposit_paid credit_wallet server settled_in w
            | TransactionType.withdrawal ↦ continue_payin credit_wallet server event settled_in w
            | TransactionType.transfer ↦ continue_payin credit_wallet server event settled_in w
          ])
      unfolding deposit_paid
      succeeded-Advances TransactionType.deposit event =
          credit-Advances t (record settled_in { status = TransactionStatus.success }) t.amount w
            (rw no_out refl) refl may (rw no_out refl)
      succeeded-Advances TransactionType.withdrawal event = continue-Advances event
      succeeded-Advances TransactionType.transfer event = continue-Advances event

    payin-Advances :
        (succeeded : Bool) (event : Text) (t : Transaction) (w : W)
        → in_order t ≡ true
        → is_some t.payin_status ≡ true
        → AdvancesIf t w (handle_payin_webhook credit_wallet server succeeded event t w)
    unfolding handle_payin_webhook payin_succeeded
    payin-Advances succeeded event t w o h = elim (Bool-cases (is_terminal_leg t.payin_status)) [
      | inl e ↦ rw (e, handle_payin_webhook) (ground (arith, o, e), refl, inl (refl, λ m. m))
      | inr e ↦ elim (Option-cases t.payout_status) [
        | inr (s, f) ↦ absurd (ground (arith, o, h, e, f))
        | inl f ↦ rw (e, handle_payin_webhook) (new e f succeeded)
      ]
    ]
      where
        new :
            is_terminal_leg t.payin_status ≡ false
            → t.payout_status ≡ none
            → (b : Bool)
            → AdvancesIf t w (
                if b
                then payin_succeeded credit_wallet server event
                    (record t { payin_status = some TransactionStatus.success })
                    w
                else some (
                  record t {
                    payin_status = some TransactionStatus.failed;
                    status = TransactionStatus.failed;
                  },
                  w,
                ))
        new e f true = succeeded-Advances t w e f t.type event
        new e f false = (rw f refl, refl, inl (refl, λ _. may t w e f))

    failed-Advances :
        (t : Transaction) (w : W)
        → (not (is_some t.payin_status) || is_terminal_leg t.payin_status) ≡ true
        → may_credit t ≡ true
        → (type : TransactionType)
        → AdvancesIf t w (payout_failed credit_wallet server (record t { type = type }) w)
    unfolding payout_failed failure_credit
    failed-Advances t w o m TransactionType.deposit =
        credit-Advances t
          (record t {
            type = TransactionType.deposit;
            payout_status = some TransactionStatus.failed;
            status = TransactionStatus.failed;
          })
          t.amount w (ground (arith, o)) refl m refl
    failed-Advances t w o m TransactionType.withdrawal =
        credit-Advances t
          (record t {
            type = TransactionType.withdrawal;
            payout_status = some TransactionStatus.failed;
            status = TransactionStatus.failed;
          })
          t.amount w (ground (arith, o)) refl m refl
    failed-Advances t w o m TransactionType.transfer =
        elim (Option-cases (failure_credit credit_wallet server t)) [
          | inl e ↦ rw (e, payout_failed) tt
          | inr (a, e) ↦
              rw (e, payout_failed)
                (credit-Advances t
                  (record t {
                    type = TransactionType.transfer;
                    payout_status = some TransactionStatus.failed;
                    status = TransactionStatus.failed_payout;
                  })
                  a w (ground (arith, o)) refl m refl)
        ]

    payout-Advances :
        (succeeded : Bool) (t : Transaction) (w : W)
        → in_order t ≡ true
        → is_some t.payout_status ≡ true
        → AdvancesIf t w (handle_payout_webhook credit_wallet server succeeded t w)
    unfolding handle_payout_webhook
    payout-Advances succeeded t w o h = elim (Bool-cases (is_terminal_leg t.payout_status)) [
      | inl e ↦ rw (e, handle_payout_webhook) (o, refl, inl (refl, λ m. m))
      | inr e ↦ rw (e, handle_payout_webhook) (new e succeeded)
    ]
      where
        allowed : is_terminal_leg t.payout_status ≡ false → may_credit t ≡ true
        allowed e = rw (e, h) refl

        new :
            is_terminal_leg t.payout_status ≡ false
            → (b : Bool)
            → AdvancesIf t w (
                if b
                then some (
                  record t {
                    payout_status = some TransactionStatus.success;
                    status = TransactionStatus.success;
                  },
                  w,
                )
                else payout_failed credit_wallet server t w)
        new e true = (ground (arith, o, h), refl, inl (refl, λ m. allowed e))
        new e false = failed-Advances t w (ground (arith, o, h)) (allowed e) t.type

  pub leg-Advances :
      (server : JekoServer) (leg : Leg) (succeeded : Bool) (event : Text) (t : Transaction) (w : W)
      → in_order t ≡ true
      → is_some (status_of leg t) ≡ true
      → AdvancesIf t w (handle_leg credit_wallet server leg succeeded event t w)
  unfolding handle_leg
  leg-Advances server payin succeeded event t w o h = payin-Advances server succeeded event t w o h
  leg-Advances server payout succeeded event t w o h = payout-Advances server succeeded t w o h
