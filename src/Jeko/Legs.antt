-- ===== src/Jeko/Legs.antt =====
-- What a notification of a leg does (`_handle_payin_webhook` and `_handle_payout_webhook` of
-- app/services/webhook_service.py): a leg is settled once, and a delivery credits one wallet at most.
use backend_ayak_bine.Base.{
  ℕ, ◌≡◌, refl, Bool, true, false, Option, none, some, Text, if◌then◌else◌, arith, inl, inr, ◌⊎◌,
  Bool-cases, Option-cases,
}
use mathlib.Core.Path.{subst}
use backend_ayak_bine.Money.{Decimal}
use backend_ayak_bine.Jeko.Client.{
  JekoServer, JekoResult, received, api_error, network_error, uncaught,
}
use backend_ayak_bine.Jeko.Webhook.{
  ◌>>=◌, Transaction, TransactionType, TransactionStatus, is_terminal_leg, Leg, payin, payout,
  handle_payin_webhook, handle_payout_webhook, payin_succeeded, payout_failed, continue_payin,
  deposit_paid, payout_not_initiated, initiate_payout, failure_credit,
}
use backend_ayak_bine.Jeko.Delivery.{handle_leg}

abbrev pub status_of : Leg → Transaction → Option TransactionStatus
status_of payin t = t.payin_status
status_of payout t = t.payout_status

module _ {W : Type 0} (credit_wallet : ℕ → Decimal → W → Option W) (server : JekoServer) where
  -- What a handler leaves: the leg is settled, the transaction is the same one, and the wallets are
  -- untouched or one of them, the user's, has been credited.
  abbrev pub Settles : Leg → Transaction → W → Option (Transaction × W) → Type 0
  Settles leg t w none = Unit
  Settles leg t w (some (t', w')) =
      (is_terminal_leg (status_of leg t') ≡ true)
      × (t'.internal_reference ≡ t.internal_reference)
      × (t'.user_id ≡ t.user_id)
      × ((w' ≡ w) ⊎ ((a : Decimal) × (credit_wallet t.user_id a w ≡ some w')))

  payout_not_initiated-Settles :
      (event : Text) (t : Transaction) (w : W)
      → is_terminal_leg t.payin_status ≡ true
      → Settles payin t w (payout_not_initiated credit_wallet server event t w)
  unfolding payout_not_initiated
  payout_not_initiated-Settles event t w h =
      elim (Option-cases (failure_credit credit_wallet server t)) [
        | inl e ↦ rw (e, payout_not_initiated) tt
        | inr (a, e) ↦ elim (Option-cases (credit_wallet t.user_id a w)) [
          | inl f ↦ rw (e, payout_not_initiated) (rw f tt)
          | inr (w', f) ↦ rw (e, payout_not_initiated) (rw f (h, refl, refl, inr (a, f)))
        ]
      ]

  -- The result of a credit, whatever it leaves of the transaction.
  credit-Settles :
      (leg : Leg) (t t' : Transaction) (a : Decimal) (w : W)
      → is_terminal_leg (status_of leg t') ≡ true
      → t'.internal_reference ≡ t.internal_reference
      → t'.user_id ≡ t.user_id
      → Settles leg t w (credit_wallet t.user_id a w >>= λ w'. some (t', w'))
  credit-Settles leg t t' a w h r u = elim (Option-cases (credit_wallet t.user_id a w)) [
    | inl f ↦ rw f tt
    | inr (w', f) ↦ rw f (h, r, u, inr (a, f))
  ]

  continue_payin-Settles :
      (event : Text) (t : Transaction) (w : W)
      → is_terminal_leg t.payin_status ≡ true
      → Settles payin t w (continue_payin credit_wallet server event t w)
  unfolding continue_payin
  continue_payin-Settles event t w h = go (initiate_payout credit_wallet server t) refl
    where
      go :
          (o : Option JekoResult)
          → initiate_payout credit_wallet server t ≡ o
          → Settles payin t w (continue_payin credit_wallet server event t w)
      go none e = rw (e, continue_payin) tt
      go (some (received d)) e = rw (e, continue_payin) (h, refl, refl, inl refl)
      go (some (api_error s d)) e =
          rw (e, continue_payin) (payout_not_initiated-Settles event t w h)
      go (some network_error) e = rw (e, continue_payin) (payout_not_initiated-Settles event t w h)
      go (some uncaught) e = rw (e, continue_payin) tt

  payin_of-Settles :
      (type : TransactionType) (event : Text) (t : Transaction) (w : W)
      → is_terminal_leg t.payin_status ≡ true
      → Settles payin t w (elim type as (λ _. Option (Transaction × W)) [
        | TransactionType.deposit ↦ deposit_paid credit_wallet server t w
        | TransactionType.withdrawal ↦ continue_payin credit_wallet server event t w
        | TransactionType.transfer ↦ continue_payin credit_wallet server event t w
      ])
  unfolding deposit_paid
  payin_of-Settles TransactionType.deposit event t w h =
      credit-Settles payin t (record t { status = TransactionStatus.success }) t.amount w h refl
        refl
  payin_of-Settles TransactionType.withdrawal event t w h = continue_payin-Settles event t w h
  payin_of-Settles TransactionType.transfer event t w h = continue_payin-Settles event t w h

  payin_succeeded-Settles :
      (event : Text) (t : Transaction) (w : W)
      → is_terminal_leg t.payin_status ≡ true
      → Settles payin t w (payin_succeeded credit_wallet server event t w)
  unfolding payin_succeeded
  payin_succeeded-Settles event t w h = payin_of-Settles t.type event t w h

  handle_payin-Settles :
      (succeeded : Bool) (event : Text) (t : Transaction) (w : W)
      → Settles payin t w (handle_payin_webhook credit_wallet server succeeded event t w)
  unfolding handle_payin_webhook
  handle_payin-Settles succeeded event t w = elim (Bool-cases (is_terminal_leg t.payin_status)) [
    | inl e ↦ rw (e, handle_payin_webhook) (e, refl, refl, inl refl)
    | inr e ↦ rw (e, handle_payin_webhook) (new succeeded)
  ]
    where
      new :
          (b : Bool)
          → Settles payin t w (
              if b
              then payin_succeeded credit_wallet server event
                  (record t { payin_status = some TransactionStatus.success })
                  w
              else some (
                record t {
                  payin_status = some TransactionStatus.failed;
                  status = TransactionStatus.failed;
                },
                w,
              ))
      new true =
          payin_succeeded-Settles event (record t { payin_status = some TransactionStatus.success })
            w refl
      new false = (refl, refl, refl, inl refl)

  payout_failed-Settles :
      (type : TransactionType) (t : Transaction) (w : W)
      → Settles payout t w (payout_failed credit_wallet server (record t { type = type }) w)
  unfolding payout_failed failure_credit
  payout_failed-Settles TransactionType.deposit t w =
      credit-Settles payout t
        (record t {
          type = TransactionType.deposit;
          payout_status = some TransactionStatus.failed;
          status = TransactionStatus.failed;
        })
        t.amount w refl refl refl
  payout_failed-Settles TransactionType.withdrawal t w =
      credit-Settles payout t
        (record t {
          type = TransactionType.withdrawal;
          payout_status = some TransactionStatus.failed;
          status = TransactionStatus.failed;
        })
        t.amount w refl refl refl
  payout_failed-Settles TransactionType.transfer t w =
      elim (Option-cases (failure_credit credit_wallet server t)) [
        | inl e ↦ rw (e, payout_failed) tt
        | inr (a, e) ↦
            rw (e, payout_failed)
              (credit-Settles payout t
                (record t {
                  type = TransactionType.transfer;
                  payout_status = some TransactionStatus.failed;
                  status = TransactionStatus.failed_payout;
                })
                a w refl refl refl)
      ]

  handle_payout-Settles :
      (succeeded : Bool) (t : Transaction) (w : W)
      → Settles payout t w (handle_payout_webhook credit_wallet server succeeded t w)
  unfolding handle_payout_webhook
  handle_payout-Settles succeeded t w = elim (Bool-cases (is_terminal_leg t.payout_status)) [
    | inl e ↦ rw (e, handle_payout_webhook) (e, refl, refl, inl refl)
    | inr e ↦ rw (e, handle_payout_webhook) (new succeeded)
  ]
    where
      new :
          (b : Bool)
          → Settles payout t w (
              if b
              then some (
                record t {
                  payout_status = some TransactionStatus.success;
                  status = TransactionStatus.success;
                },
                w,
              )
              else payout_failed credit_wallet server t w)
      new true = (refl, refl, refl, inl refl)
      new false = payout_failed-Settles t.type t w

  -- A notification of a leg that is handled leaves the leg settled and the transaction's reference and user
  -- unchanged, and either no wallet has changed or the user's has been credited once.
  pub handle_leg-Settles :
      (leg : Leg) (succeeded : Bool) (event : Text) (t : Transaction) (w : W)
      → Settles leg t w (handle_leg credit_wallet server leg succeeded event t w)
  unfolding handle_leg
  handle_leg-Settles payin succeeded event t w = handle_payin-Settles succeeded event t w
  handle_leg-Settles payout succeeded event t w = handle_payout-Settles succeeded t w

  handle_leg_settled :
      (leg : Leg) (succeeded : Bool) (event : Text) (t : Transaction) (w : W)
      → is_terminal_leg (status_of leg t) ≡ true
      → handle_leg credit_wallet server leg succeeded event t w ≡ some (t, w)
  unfolding handle_leg handle_payin_webhook handle_payout_webhook
  handle_leg_settled payin succeeded event t w h = ground (arith, h)
  handle_leg_settled payout succeeded event t w h = ground (arith, h)

  -- A leg is settled once: after a notification that has been handled, another one for the same leg, with
  -- any outcome and any event, changes neither the transaction nor a wallet.
  pub handle_leg_once :
      (leg : Leg) (succeeded succeeded' : Bool) (event event' : Text) (t t' : Transaction)
      (w w' : W)
      → handle_leg credit_wallet server leg succeeded event t w ≡ some (t', w')
      → handle_leg credit_wallet server leg succeeded' event' t' w' ≡ some (t', w')
  handle_leg_once leg succeeded succeeded' event event' t t' w w' h =
      handle_leg_settled leg succeeded' event' t' w'
        (subst (Settles leg t w) h (handle_leg-Settles leg succeeded event t w)).0
