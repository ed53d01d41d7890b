-- ===== src/Jeko/Once.antt =====
-- A webhook that is delivered again (`process_jeko_webhook` of app/services/webhook_service.py).
use backend_ayak_bine.Base.{
  ℕ, ◌+◌, ◌<◌, ◌≡◌, ◌≢◌, refl, sym, true, Option, List, ◌∷◌, Text, text_eq, ltb, ◌&&◌, arith, inl,
  inr, Bool-cases, text_eq_refl,
}
use mathlib.Core.Path.{subst}
use backend_ayak_bine.Money.{Decimal}
use backend_ayak_bine.Jeko.Client.{JekoServer}
use backend_ayak_bine.Jeko.Webhook.{Transaction}
use backend_ayak_bine.Jeko.Delivery.{
  JekoWebhookPayload, State, already_processed, lock_seconds, is_locked, process_jeko_webhook,
  process_event, apply_leg,
}

module _ {W : Type 0} (credit_wallet : ℕ → Decimal → W → Option W) (server : JekoServer) where
  -- An event whose lock is held is skipped.
  locked_skipped :
      (now : ℕ) (p : JekoWebhookPayload) (s : State W)
      → is_locked now p.id s.locks ≡ true
      → process_jeko_webhook credit_wallet server now p s ≡ (already_processed, s)
  unfolding process_jeko_webhook
  locked_skipped now p s h = ground (arith, h)

  process_event-locks :
      (p : JekoWebhookPayload) (s : State W)
      → (process_event credit_wallet server p s).1.locks ≡ s.locks
  unfolding process_event apply_leg
  process_event-locks p s = ground arith

  before_expiry :
      (now later : ℕ) (id : Text)
      → later < now + lock_seconds
      → (text_eq id id && ltb later (now + lock_seconds)) ≡ true
  before_expiry now later id soon = rw (text_eq_refl id) (ground (arith, soon))

  takes_lock :
      (now later : ℕ) (p : JekoWebhookPayload) (s : State W)
      → (process_jeko_webhook credit_wallet server now p s).0 ≢ already_processed
      → later < now + lock_seconds
      → is_locked later p.id (process_jeko_webhook credit_wallet server now p s).1.locks ≡ true
  unfolding process_jeko_webhook
  takes_lock now later p s handled soon = elim (Bool-cases (is_locked now p.id s.locks)) [
    | inl e ↦ absurd (handled (rw (e, process_jeko_webhook) refl))
    | inr e ↦
        rw (e, process_jeko_webhook)
          (rw (process_event-locks p (record s { locks = (p.id, now + lock_seconds) ∷ s.locks }))
            (rw (before_expiry now later p.id soon) refl))
  ]

  -- An event that is handled, whatever comes of it, is handled once in 24 hours: after a delivery that was not
  -- skipped, even one that found no transaction or that ended in an exception, and after any changes to the
  -- transactions and the wallets, a delivery with the same identifier less than 24 hours later is
  -- acknowledged as already processed and changes nothing.
  pub process_jeko_webhook_once :
      (now later : ℕ) (p p' : JekoWebhookPayload) (s : State W) (transactions : List Transaction)
      (wallets : W)
      → (process_jeko_webhook credit_wallet server now p s).0 ≢ already_processed
      → later < now + lock_seconds
      → p'.id ≡ p.id
      → let s' : State W = record {
        locks = (process_jeko_webhook credit_wallet server now p s).1.locks;
        transactions = transactions;
        wallets = wallets;
      } in
        process_jeko_webhook credit_wallet server later p' s' ≡ (already_processed, s')
  process_jeko_webhook_once now later p p' s transactions wallets handled soon same =
      locked_skipped later p'
        (record {
          locks = (process_jeko_webhook credit_wallet server now p s).1.locks;
          transactions = transactions;
          wallets = wallets;
        })
        (subst
          (λ x.
            is_locked later x (process_jeko_webhook credit_wallet server now p s).1.locks ≡ true)
          (sym same) (takes_lock now later p s handled soon))
