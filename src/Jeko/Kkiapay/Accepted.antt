-- ===== src/Jeko/Kkiapay/Accepted.antt =====
-- Which calls of `kkiapay_webhook` (app/api/v1/webhooks.py) finalize which transaction.
use backend_ayak_bine.Base.{
  ℕ, ◌≡◌, ◌≢◌, ◌⊎◌, inl, inr, refl, Bool, true, false, Option, none, some, [], ◌∷◌, Text, arith,
  is_empty, text_eq, text_eq_sound, text_eq_refl, Response, reply, Bool-cases, Option-cases,
}
use backend_ayak_bine.Settings.{verify_webhook_secret}
use backend_ayak_bine.Jeko.Webhook.{Transaction}
use backend_ayak_bine.Jeko.Delivery.{State, put_transaction}
use backend_ayak_bine.Jeko.Kkiapay.{
  KkiapayNotification, KkiapayBody, undecodable, malformed, not_object, notification, KkiapayAnswer,
  finalized, Lookup, missing, ambiguous, found, match_transaction, finalize_matched,
  handle_notification, handle_body, kkiapay_webhook,
}
use backend_ayak_bine.Jeko.Kkiapay.Matching.{
  Named, not_empty, match_transaction-Named, Named-match_transaction,
}

-- A secret is configured, and the header is that secret.
abbrev pub Authorized : Text → Option Text → Type 0
Authorized secret header = (secret ≢ []) × (header ≡ some secret)

verify_webhook_secret-Authorized :
    (secret : Text) (header : Option Text)
    → verify_webhook_secret secret header ≡ true
    → Authorized secret header
unfolding verify_webhook_secret
verify_webhook_secret-Authorized secret none h = absurd (cc h)
verify_webhook_secret-Authorized secret (some x) h =
    let given : is_empty secret ≡ false = ground (arith, h) in
    let equal : text_eq x secret ≡ true = ground (arith, h) in
    (not_empty secret given, rw (text_eq_sound x secret equal) refl)

own_secret : (secret : Text) → secret ≢ [] → verify_webhook_secret secret (some secret) ≡ true
unfolding verify_webhook_secret
own_secret [] h = absurd (h refl)
own_secret (c ∷ cs) h = rw (text_eq_refl (c ∷ cs)) refl

module _ {W : Type 0}
    (finalize_kkiapay_deposit : Transaction → Bool → ℕ → W → Option (Transaction × W)) where
  -- The transaction that a notification has finalized, and what is left of it.
  pub record Finalized (p : KkiapayNotification) (s s' : State W) (answer : Response KkiapayAnswer)
      : Type 0 where
    pub id : ℕ
    pub before : Transaction
    pub after : Transaction
    pub named : p.transaction_id ≡ some id
    pub matched : Named id p.partner_id before s.transactions
    pub done :
        finalize_kkiapay_deposit before p.is_payment_succes id s.wallets ≡ some (after, s'.wallets)
    pub answered : answer ≡ reply (finalized after)
    pub stored : s'.transactions ≡ put_transaction after s.transactions
    pub locked : s'.locks ≡ s.locks

  abbrev pub Handled : KkiapayNotification → State W → Response KkiapayAnswer × State W → Type 0
  Handled p s (answer, s') = (s' ≡ s) ⊎ Finalized p s s' answer

  handle_notification-Handled :
      (p : KkiapayNotification) (s : State W)
      → Handled p s (handle_notification finalize_kkiapay_deposit p s)
  unfolding handle_notification finalize_matched
  handle_notification-Handled p s = elim (Option-cases p.transaction_id) [
    | inl e ↦ rw (e, handle_notification) (inl refl)
    | inr (id, e) ↦ go id e (match_transaction id p.partner_id s.transactions) refl
  ]
    where
      go :
          (id : ℕ)
          → p.transaction_id ≡ some id
          → (l : Lookup) → match_transaction id p.partner_id s.transactions ≡ l
          → Handled p s (handle_notification finalize_kkiapay_deposit p s)
      go id e missing m = rw (e, handle_notification) (rw m (inl refl))
      go id e ambiguous m = rw (e, handle_notification) (rw m (inl refl))
      go id e (found t) m =
          elim (Option-cases (finalize_kkiapay_deposit t p.is_payment_succes id s.wallets)) [
            | inl f ↦ rw (e, handle_notification) (rw m (rw (f, finalize_matched) (inl refl)))
            | inr ((t', w), f) ↦
                rw (e, handle_notification)
                  (rw m (
                    rw (f, finalize_matched)
                      (inr (record {
                        id = id;
                        before = t;
                        after = t';
                        named = refl;
                        matched = match_transaction-Named id p.partner_id t s.transactions m;
                        done = f;
                        answered = refl;
                        stored = refl;
                        locked = refl;
                      }))))
          ]

  handle_body-Handled :
      (body : KkiapayBody) (s : State W)
      → ((handle_body finalize_kkiapay_deposit body s).1 ≡ s)
        ⊎ ((p : KkiapayNotification) × (body ≡ notification p)
            × Finalized p s
                (handle_body finalize_kkiapay_deposit body s).1
                (handle_body finalize_kkiapay_deposit body s).0)
  unfolding handle_body
  handle_body-Handled undecodable s = inl refl
  handle_body-Handled malformed s = inl refl
  handle_body-Handled not_object s = inl refl
  handle_body-Handled (notification p) s = elim (handle_notification-Handled p s) [
    | inl same ↦ inl same
    | inr done ↦ inr (p, refl, done)
  ]

  -- A call of the Kkiapay webhook changes nothing, unless a secret is configured, its header is that secret and
  -- its body names a transaction, which `finalize_kkiapay_deposit` then finalizes, once, with the identifier
  -- and the success of the body; the answer and the table have the transaction that it leaves. The body
  -- names the only row that has its reference, or the only one that has its identifier if it gives no
  -- reference or no row has it.
  pub kkiapay_webhook-Handled :
      (secret : Text) (header : Option Text) (body : KkiapayBody) (s : State W)
      → ((kkiapay_webhook finalize_kkiapay_deposit secret header body s).1 ≡ s)
        ⊎ (Authorized secret header
            × (p : KkiapayNotification) × (body ≡ notification p)
            × Finalized p s
                (kkiapay_webhook finalize_kkiapay_deposit secret header body s).1
                (kkiapay_webhook finalize_kkiapay_deposit secret header body s).0)
  unfolding kkiapay_webhook
  kkiapay_webhook-Handled secret header body s =
      elim (Bool-cases (verify_webhook_secret secret header)) [
        | inr wrong ↦ rw (wrong, kkiapay_webhook) (inl refl)
        | inl right ↦
            rw (right, kkiapay_webhook)
              (elim (handle_body-Handled body s) [
                | inl same ↦ inl same
                | inr (p, named, done) ↦
                    inr (verify_webhook_secret-Authorized secret header right, p, named, done)
              ])
      ]

  -- A call whose header is the configured secret, and whose body has an identifier and names a transaction
  -- that `finalize_kkiapay_deposit` can finalize, is answered with that transaction as it leaves it, which
  -- takes the place of the old one, with the new wallets.
  pub kkiapay_webhook_finalizes :
      (secret : Text) (p : KkiapayNotification) (s : State W) (id : ℕ) (t t' : Transaction) (w : W)
      → secret ≢ []
      → p.transaction_id ≡ some id
      → Named id p.partner_id t s.transactions
      → finalize_kkiapay_deposit t p.is_payment_succes id s.wallets ≡ some (t', w)
      → kkiapay_webhook finalize_kkiapay_deposit secret (some secret) (notification p) s ≡ (
        reply (finalized t'),
        record s { transactions = put_transaction t' s.transactions; wallets = w },
      )
  unfolding kkiapay_webhook handle_body handle_notification finalize_matched
  kkiapay_webhook_finalizes secret p s id t t' w configured identified named done =
      let matched = Named-match_transaction id p.partner_id t s.transactions named in
      rw (own_secret secret configured, kkiapay_webhook)
        (rw (identified, handle_notification) (rw matched (rw (done, finalize_matched) refl)))
