-- ===== src/Jeko/Notices.antt =====
-- Sequences of notifications for one transaction (`_handle_payin_webhook` and `_handle_payout_webhook` of
-- app/services/webhook_service.py): late, repeated and contradictory ones, whatever JEKO answers meanwhile.
use backend_ayak_bine.Base.{
  ℕ, ◌≡◌, refl, sym, Bool, true, Option, none, some, List, [], ◌∷◌, Text, inl, inr, ◌⊎◌, is_some,
  ◌∙◌,
}
use mathlib.Core.Path.{subst}
use backend_ayak_bine.Money.{Decimal}
use backend_ayak_bine.Jeko.Client.{JekoServer}
use backend_ayak_bine.Jeko.Webhook.{Transaction, Leg}
use backend_ayak_bine.Jeko.Delivery.{handle_leg}
use backend_ayak_bine.Jeko.Legs.{status_of}
use backend_ayak_bine.Jeko.Advances.{in_order, may_credit, Advances, AdvancesIf, leg-Advances}

-- A notification: its leg, its outcome and its event, and how JEKO answers while it is handled.
pub record Notice : Type 0 where
  pub leg : Leg
  pub succeeded : Bool
  pub event : Text
  pub server : JekoServer

module _ {W : Type 0} (credit_wallet : ℕ → Decimal → W → Option W) where
  -- A notification whose handler raises leaves the row and the wallets as they are.
  abbrev pub receive : Notice → Transaction → W → Transaction × W
  receive n t w = elim (handle_leg credit_wallet n.server n.leg n.succeeded n.event t w) [
    | none ↦ (t, w)
    | some s ↦ s
  ]

  abbrev pub receive_all : List Notice → Transaction → W → Transaction × W
  receive_all [] t w = (t, w)
  receive_all (n ∷ ns) t w = receive_all ns (receive n t w).0 (receive n t w).1

  -- Each notification is for a leg that the transaction has when it arrives.
  abbrev pub ForLegs : List Notice → Transaction → W → Type 0
  ForLegs [] t w = Unit
  ForLegs (n ∷ ns) t w =
      (is_some (status_of n.leg t) ≡ true) × ForLegs ns (receive n t w).0 (receive n t w).1

  -- The wallets are as they were, or the user's has been credited once.
  abbrev pub CreditedOnce : Transaction → W → W → Type 0
  CreditedOnce t w w' = (w' ≡ w) ⊎ ((a : Decimal) × (credit_wallet t.user_id a w ≡ some w'))

  result-Advances :
      (t : Transaction) (w : W) (r : Option (Transaction × W))
      → in_order t ≡ true
      → AdvancesIf credit_wallet t w r
      → Advances credit_wallet t w (elim r [ none ↦ (t, w) | some s ↦ s ])
  result-Advances t w none o h = (o, refl, inl (refl, λ m. m))
  result-Advances t w (some s) o h = h

  receive-Advances :
      (n : Notice) (t : Transaction) (w : W)
      → in_order t ≡ true
      → is_some (status_of n.leg t) ≡ true
      → Advances credit_wallet t w (receive n t w)
  receive-Advances n t w o h =
      result-Advances t w (handle_leg credit_wallet n.server n.leg n.succeeded n.event t w) o
        (leg-Advances credit_wallet n.server n.leg n.succeeded n.event t w o h)

  receive_all-Credits :
      (ns : List Notice) (t : Transaction) (w : W)
      → in_order t ≡ true
      → ForLegs ns t w
      → ((receive_all ns t w).1 ≡ w)
        ⊎ ((may_credit t ≡ true)
            × ((a : Decimal) × (credit_wallet t.user_id a w ≡ some (receive_all ns t w).1)))
  receive_all-Credits [] t w o h = inl refl
  receive_all-Credits (n ∷ ns) t w o h =
      let (ordered, same_user, step) = receive-Advances n t w o h.0 in
      let later = receive_all-Credits ns (receive n t w).0 (receive n t w).1 ordered h.1 in
      elim step [
        | inl (kept, still) ↦ elim later [
          | inl e ↦ inl (e ∙ kept)
          | inr (m, (a, c)) ↦ inr (
            still m,
            (
              a,
              subst
                  (λ u.
                    credit_wallet u a w
                    ≡ some (receive_all ns (receive n t w).0 (receive n t w).1).1)
                  same_user
                  (subst
                    (λ v.
                      credit_wallet (receive n t w).0.user_id a v
                      ≡ some (receive_all ns (receive n t w).0 (receive n t w).1).1)
                    kept c),
            ),
          )
        ]
        | inr (m, done, (a, c)) ↦ elim later [
          | inl e ↦ inr (m, (a, subst (λ v. credit_wallet t.user_id a w ≡ some v) (sym e) c))
          | inr (m', _) ↦ absurd (cc (done, m'))
        ]
      ]

  -- However many notifications JEKO sends, each of a leg that the transaction has when it arrives, in
  -- whatever order, repeated or contradictory, and whatever JEKO answers meanwhile: a transaction whose
  -- pay-out has not begun before its pay-in is settled leaves the wallets as they were or with the
  -- user's credited once.
  pub notices_credit_once :
      (ns : List Notice) (t : Transaction) (w : W)
      → in_order t ≡ true
      → ForLegs ns t w
      → CreditedOnce t w (receive_all ns t w).1
  notices_credit_once ns t w o h = elim (receive_all-Credits ns t w o h) [
    | inl same ↦ inl same
    | inr (_, credited) ↦ inr credited
  ]
