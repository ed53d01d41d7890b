-- ===== src/Jeko/Kkiapay/Matching.antt =====
-- The transaction that the body of a call of `kkiapay_webhook` names (app/api/v1/webhooks.py).
use backend_ayak_bine.Base.{
  ℕ, ◌≡◌, ◌≢◌, ◌⊎◌, inl, inr, refl, sym, Bool, true, false, Option, none, some, List, [], ◌∷◌, Text,
  arith, All, select_where, is_empty, text_eq_sound, text_eq_refl, ==_iff, ==_refl, Bool-cases,
}
use backend_ayak_bine.Jeko.Webhook.{Transaction}
use backend_ayak_bine.Jeko.Delivery.{has_reference}
use backend_ayak_bine.Jeko.Kkiapay.{
  Lookup, missing, ambiguous, found, scalar_one_or_none, same_payin, by_reference, by_payin,
  match_transaction,
}

-- `t` is in the list, and is the only element of it with the property.
abbrev pub Only : (Transaction → Type 0) → Transaction → List Transaction → Type 0
Only P t [] = ⊥
Only P t (u ∷ us) = ((u ≡ t) × P u × All (λ v. P v → ⊥) us) ⊎ ((P u → ⊥) × Only P t us)

abbrev pub HasReference : Text → Transaction → Type 0
HasReference r t = t.internal_reference ≡ r

abbrev pub HasPayin : ℕ → Transaction → Type 0
HasPayin id t = t.jeko_payin_id ≡ some id

-- The partner's reference, where it is given, names the transaction. Otherwise, or if it names none, the
-- identifier does.
abbrev pub Named : ℕ → Option Text → Transaction → List Transaction → Type 0
Named id partner t ts =
    ((r : Text) × (partner ≡ some r) × (r ≢ []) × Only (HasReference r) t ts)
    ⊎ (((r : Text) → partner ≡ some r → r ≢ [] → All (λ u. HasReference r u → ⊥) ts)
        × Only (HasPayin id) t ts)

pub not_empty : (s : Text) → is_empty s ≡ false → s ≢ []
not_empty [] h e = cc
not_empty (c ∷ s) h e = cc

-- `q` decides `P`.
module _ (q : Transaction → Bool) (P : Transaction → Type 0)
    (holds : (u : Transaction) → q u ≡ true → P u)
    (fails : (u : Transaction) → q u ≡ false → P u → ⊥) where
  none_selected : (ts : List Transaction) → select_where q ts ≡ [] → All (λ u. P u → ⊥) ts
  none_selected [] h = tt
  none_selected (u ∷ us) h = elim (Bool-cases (q u)) [
    | inl y ↦ absurd (cc (rw y at h))
    | inr n ↦ (fails u n, none_selected us (rw n at h))
  ]

  none_found :
      (ts : List Transaction)
      → scalar_one_or_none (select_where q ts) ≡ missing
      → All (λ u. P u → ⊥) ts
  none_found ts h = none_selected ts (go (select_where q ts) h)
    where
      go : (l : List Transaction) → scalar_one_or_none l ≡ missing → l ≡ []
      go [] e = refl
      go (t ∷ []) e = absurd (cc e)
      go (t ∷ u ∷ l) e = absurd (cc e)

  one_found :
      (t : Transaction) (ts : List Transaction)
      → scalar_one_or_none (select_where q ts) ≡ found t
      → Only P t ts
  one_found t [] h = absurd (cc h)
  one_found t (u ∷ us) h = elim (Bool-cases (q u)) [
    | inr n ↦ inr (fails u n, one_found t us (rw n at h))
    | inl y ↦
        let alone = go (select_where q us) (rw y at h) in
        inl (alone.0, holds u y, none_selected us alone.1)
  ]
    where
      go : (l : List Transaction) → scalar_one_or_none (u ∷ l) ≡ found t → (u ≡ t) × (l ≡ [])
      go [] e = (cc e, refl)
      go (v ∷ l) e = absurd (cc e)

  fails_of : (u : Transaction) → (P u → ⊥) → q u ≡ false
  fails_of u h = elim (Bool-cases (q u)) [ inl y ↦ absurd (h (holds u y)) | inr n ↦ n ]

  holds_of : (u : Transaction) → P u → q u ≡ true
  holds_of u h = elim (Bool-cases (q u)) [ inl y ↦ y | inr n ↦ absurd (fails u n h) ]

  select_none : (ts : List Transaction) → All (λ u. P u → ⊥) ts → select_where q ts ≡ []
  select_none [] h = refl
  select_none (u ∷ us) (a, h) = rw (fails_of u a) (select_none us h)

  found-Only :
      (t : Transaction) (ts : List Transaction)
      → Only P t ts
      → scalar_one_or_none (select_where q ts) ≡ found t
  found-Only t [] h = absurd h
  found-Only t (u ∷ us) (inl (e, a, h)) = rw (holds_of u a) (rw (select_none us h) (rw e refl))
  found-Only t (u ∷ us) (inr (a, h)) = rw (fails_of u a) (found-Only t us h)

reference_holds : (r : Text) (u : Transaction) → has_reference r u ≡ true → HasReference r u
reference_holds r u h = text_eq_sound u.internal_reference r h

reference_fails : (r : Text) (u : Transaction) → has_reference r u ≡ false → HasReference r u → ⊥
reference_fails r u h e = cc (h, text_eq_refl r, e)

payin_holds : (id : ℕ) (o : Option ℕ) → same_payin id o ≡ true → o ≡ some id
payin_holds id none h = absurd (cc h)
payin_holds id (some i) h = rw ((==_iff i id).0 h) refl

payin_fails : (id : ℕ) (o : Option ℕ) → same_payin id o ≡ false → o ≡ some id → ⊥
payin_fails id none h e = cc
payin_fails id (some i) h e = ground (arith, h, ==_refl id)

by_payin-Only :
    (id : ℕ) (t : Transaction) (ts : List Transaction)
    → by_payin id ts ≡ found t
    → Only (HasPayin id) t ts
by_payin-Only id t ts h =
    one_found (λ u. same_payin id u.jeko_payin_id) (HasPayin id)
      (λ u. payin_holds id u.jeko_payin_id) (λ u. payin_fails id u.jeko_payin_id) t ts h

pub match_transaction-Named :
    (id : ℕ) (partner : Option Text) (t : Transaction) (ts : List Transaction)
    → match_transaction id partner ts ≡ found t
    → Named id partner t ts
unfolding match_transaction
match_transaction-Named id none t ts h = inr (λ r e. absurd (cc e), by_payin-Only id t ts h)
match_transaction-Named id (some []) t ts h =
    inr (λ r e ne. absurd (ne (cc e)), by_payin-Only id t ts h)
match_transaction-Named id (some (c ∷ cs)) t ts h = go (by_reference (some r) ts) refl h
  where
    r : Text
    r = c ∷ cs

    go :
        (l : Lookup)
        → by_reference (some r) ts ≡ l
        → elim l as (λ _. Lookup) [
          | found t ↦ found t
          | ambiguous ↦ ambiguous
          | missing ↦ by_payin id ts
        ]
          ≡ found t
        → Named id (some r) t ts
    go (found u) e m = inl (
      r,
      refl,
      λ e. cc e,
      one_found (has_reference r) (HasReference r) (reference_holds r) (reference_fails r) t ts
          (cc (e, m)),
    )
    go ambiguous e m = absurd (cc m)
    go missing e m = inr (λ r' same ne. absent r' (cc same), by_payin-Only id t ts m)
      where
        absent : (r' : Text) → r ≡ r' → All (λ u. HasReference r' u → ⊥) ts
        absent r' same = rw (sym same) (
            none_found (has_reference r) (HasReference r) (reference_holds r) (reference_fails r) ts
              e)

Named-by_payin :
    (id : ℕ) (t : Transaction) (ts : List Transaction)
    → Only (HasPayin id) t ts
    → by_payin id ts ≡ found t
Named-by_payin id t ts h =
    found-Only (λ u. same_payin id u.jeko_payin_id) (HasPayin id)
      (λ u. payin_holds id u.jeko_payin_id) (λ u. payin_fails id u.jeko_payin_id) t ts h

pub Named-match_transaction :
    (id : ℕ) (partner : Option Text) (t : Transaction) (ts : List Transaction)
    → Named id partner t ts
    → match_transaction id partner ts ≡ found t
unfolding match_transaction
Named-match_transaction id none t ts (inl (r, e, _, _)) = absurd (cc e)
Named-match_transaction id none t ts (inr (_, h)) = Named-by_payin id t ts h
Named-match_transaction id (some []) t ts (inl (r, e, ne, _)) = absurd (ne (cc e))
Named-match_transaction id (some []) t ts (inr (_, h)) = Named-by_payin id t ts h
Named-match_transaction id (some (c ∷ cs)) t ts (inl (r, e, _, h)) =
    let same : r ≡ c ∷ cs = cc e in
    let one =
      found-Only (has_reference r) (HasReference r) (reference_holds r) (reference_fails r) t ts
        h in
    rw (rw same at one, match_transaction) refl
Named-match_transaction id (some (c ∷ cs)) t ts (inr (absent, h)) =
    let none_selected =
      select_none (has_reference (c ∷ cs)) (HasReference (c ∷ cs)) (reference_holds (c ∷ cs))
        (reference_fails (c ∷ cs)) ts (absent (c ∷ cs) refl (λ e. cc e)) in
    rw (none_selected, match_transaction) (Named-by_payin id t ts h)
