-- ===== src/Kyc/History.antt =====
-- Sequences of requests to app/api_kyc.py and to the decisions of app/api_admin.py: what they keep of the
-- submissions.
use backend_ayak_bine.Base.{
  ℕ, ◌≡◌, refl, sym, ◌∙◌, true, false, Option, none, some, List, [], ◌∷◌, ◌==◌, arith, inl, inr,
  Bool-cases, Option-cases, Text, find, select_where, ◌⊎◌, ==_iff, if◌then◌else◌,
}
use mathlib.Core.Path.{subst}
use mathlib.Core.Option.{some-injective}
use backend_ayak_bine.Ledger.{User, KycSubmission}
use backend_ayak_bine.Kyc.{
  KycSubmitRequest, Decision, approve, reject, is_pending, active_for, submit_kyc, submit_new,
  new_submission, kyc_decide_jwt, decide, decided, find_submission,
}
use backend_ayak_bine.Kyc.Laws.{
  OneActive, UniqueSubmissions, submit_kyc-OneActive, kyc_decide_jwt-OneActive,
}

-- A submission with its uuid4(), or a decision.
pub data KycRequest : Type 0 where
  submit : ℕ → ℕ → KycSubmitRequest → KycRequest
  decide_on : ℕ → Decision → Option Text → KycRequest

module _ (users : List User) where
  abbrev pub handle : KycRequest → List KycSubmission → List KycSubmission
  handle (submit id user_id payload) rows = (submit_kyc id user_id payload rows).1
  handle (decide_on sid d reason) rows = (kyc_decide_jwt sid d reason users rows).1

  abbrev pub handle_all : List KycRequest → List KycSubmission → List KycSubmission
  handle_all [] rows = rows
  handle_all (r ∷ rs) rows = handle_all rs (handle r rows)

  -- The identifier of a new submission is not in use.
  abbrev pub IsFresh : KycRequest → List KycSubmission → Type 0
  IsFresh (submit id user_id payload) rows = find_submission id rows ≡ none
  IsFresh (decide_on sid d reason) rows = Unit

  abbrev pub AllFresh : List KycRequest → List KycSubmission → Type 0
  AllFresh [] rows = Unit
  AllFresh (r ∷ rs) rows = IsFresh r rows × AllFresh rs (handle r rows)

  -- Distinct identifiers, and at most one active submission for each user.
  abbrev pub IsSound : List KycSubmission → Type 0
  IsSound rows = UniqueSubmissions rows × OneActive rows

  submitted :
      (l : List KycSubmission) (k : KycSubmission) (rows : List KycSubmission)
      → ((submit_new l k rows).1 ≡ rows) ⊎ ((submit_new l k rows).1 ≡ k ∷ rows)
  unfolding submit_new
  submitted [] k rows = inr refl
  submitted (x ∷ []) k rows = inl refl
  submitted (x ∷ y ∷ more) k rows = inl refl

  submit_cases :
      (id user_id : ℕ) (payload : KycSubmitRequest) (rows : List KycSubmission)
      → ((submit_kyc id user_id payload rows).1 ≡ rows)
        ⊎ ((submit_kyc id user_id payload rows).1 ≡ new_submission id user_id payload ∷ rows)
  unfolding submit_kyc
  submit_cases id user_id payload rows = ground (
    arith,
    submitted (select_where (active_for user_id) rows) (new_submission id user_id payload) rows,
  )

  decide_cases :
      (sid : ℕ) (d : Decision) (reason : Option Text) (rows : List KycSubmission)
      → ((kyc_decide_jwt sid d reason users rows).1 ≡ rows)
        ⊎ ((k : KycSubmission) × (find_submission sid rows ≡ some k)
            × (is_pending k.status ≡ true)
            × ((kyc_decide_jwt sid d reason users rows).1 ≡ decide sid d reason rows))
  unfolding kyc_decide_jwt
  decide_cases sid d reason rows = elim (Option-cases (find_submission sid rows)) [
    | inl e ↦ inl (rw (e, kyc_decide_jwt) refl)
    | inr (k, e) ↦ elim (Bool-cases (is_pending k.status)) [
      | inr p ↦ inl (rw (e, kyc_decide_jwt) (rw p refl))
      | inl p ↦ elim (Option-cases (find (λ u. u.id == k.user_id) users)) [
        | inl f ↦ inl (rw (e, kyc_decide_jwt) (rw p (rw f refl)))
        | inr (u, f) ↦ inr (k, e, p, rw (e, kyc_decide_jwt) (rw p (rw f refl)))
      ]
    ]
  ]

  submit_kyc-UniqueSubmissions :
      (id user_id : ℕ) (payload : KycSubmitRequest) (rows : List KycSubmission)
      → find_submission id rows ≡ none
      → UniqueSubmissions rows
      → UniqueSubmissions (submit_kyc id user_id payload rows).1
  submit_kyc-UniqueSubmissions id user_id payload rows fresh u =
      elim (submit_cases id user_id payload rows) [
        | inl e ↦ subst UniqueSubmissions (sym e) u
        | inr e ↦ subst UniqueSubmissions (sym e) (fresh, u)
      ]

  find-decide-none :
      (sid i : ℕ) (d : Decision) (reason : Option Text) (rows : List KycSubmission)
      → find_submission i rows ≡ none
      → find_submission i (decide sid d reason rows) ≡ none
  unfolding decided
  find-decide-none sid i d reason [] h = refl
  find-decide-none sid i approve reason (k ∷ rows) h =
      ground (arith, h, find-decide-none sid i approve reason rows)
  find-decide-none sid i reject reason (k ∷ rows) h =
      ground (arith, h, find-decide-none sid i reject reason rows)

  id_kept :
      (sid : ℕ) (d : Decision) (reason : Option Text) (k : KycSubmission)
      → (if k.id == sid then decided d reason k else k).id ≡ k.id
  unfolding decided
  id_kept sid approve reason k = ground arith
  id_kept sid reject reason k = ground arith

  decide-UniqueSubmissions :
      (sid : ℕ) (d : Decision) (reason : Option Text) (rows : List KycSubmission)
      → UniqueSubmissions rows
      → UniqueSubmissions (decide sid d reason rows)
  decide-UniqueSubmissions sid d reason [] u = tt
  decide-UniqueSubmissions sid d reason (k ∷ rows) u = (
    subst (λ i. find_submission i (decide sid d reason rows) ≡ none) (sym (id_kept sid d reason k))
        (find-decide-none sid k.id d reason rows u.0),
    decide-UniqueSubmissions sid d reason rows u.1,
  )

  kyc_decide_jwt-UniqueSubmissions :
      (sid : ℕ) (d : Decision) (reason : Option Text) (rows : List KycSubmission)
      → UniqueSubmissions rows
      → UniqueSubmissions (kyc_decide_jwt sid d reason users rows).1
  kyc_decide_jwt-UniqueSubmissions sid d reason rows u = elim (decide_cases sid d reason rows) [
    | inl e ↦ subst UniqueSubmissions (sym e) u
    | inr (k, found, waits, e) ↦
        subst UniqueSubmissions (sym e) (decide-UniqueSubmissions sid d reason rows u)
  ]

  find-decide_other :
      (sid i : ℕ) (d : Decision) (reason : Option Text) (rows : List KycSubmission)
      → (sid == i) ≡ false
      → find_submission i (decide sid d reason rows) ≡ find_submission i rows
  unfolding decided
  find-decide_other sid i d reason [] h = refl
  find-decide_other sid i approve reason (k ∷ rows) h =
      ground (arith, h, find-decide_other sid i approve reason rows h)
  find-decide_other sid i reject reason (k ∷ rows) h =
      ground (arith, h, find-decide_other sid i reject reason rows h)

  -- A settled submission is left as it is.
  handle_keeps_settled :
      (r : KycRequest) (rows : List KycSubmission) (k : KycSubmission)
      → IsFresh r rows
      → find_submission k.id rows ≡ some k
      → is_pending k.status ≡ false
      → find_submission k.id (handle r rows) ≡ some k
  handle_keeps_settled (submit id user_id payload) rows k fresh h settled =
      elim (submit_cases id user_id payload rows) [
        | inl e ↦ rw e h
        | inr e ↦ rw e (elim (Bool-cases (id == k.id)) [
          | inr other ↦ rw other h
          | inl same ↦
              absurd
                (cc (subst (λ i. find_submission i rows ≡ none) ((==_iff id k.id).0 same) fresh, h))
        ])
      ]
  handle_keeps_settled (decide_on sid d reason) rows k fresh h settled =
      elim (decide_cases sid d reason rows) [
        | inl e ↦ rw e h
        | inr (j, found, waits, e) ↦ rw e (elim (Bool-cases (sid == k.id)) [
          | inr other ↦ find-decide_other sid k.id d reason rows other ∙ h
          | inl same ↦
              let chosen : find_submission k.id rows ≡ some j =
                subst (λ i. find_submission i rows ≡ some j) ((==_iff sid k.id).0 same) found in
              let one : j ≡ k = some-injective j k (sym chosen ∙ h) in
              absurd (cc (subst (λ x. is_pending x.status ≡ true) one waits, settled))
        ])
      ]

  handle-IsSound :
      (r : KycRequest) (rows : List KycSubmission)
      → IsFresh r rows
      → IsSound rows
      → IsSound (handle r rows)
  handle-IsSound (submit id user_id payload) rows fresh s = (
    submit_kyc-UniqueSubmissions id user_id payload rows fresh s.0,
    submit_kyc-OneActive id user_id payload rows s.1,
  )
  handle-IsSound (decide_on sid d reason) rows fresh s = (
    kyc_decide_jwt-UniqueSubmissions sid d reason rows s.0,
    kyc_decide_jwt-OneActive sid d reason users rows s.0 s.1,
  )

  -- Any sequence of submissions with new identifiers and of decisions keeps the identifiers distinct and at
  -- most one pending or approved submission for each user, and it leaves every submission that was approved
  -- or rejected before as it was.
  pub handle_all-IsSound :
      (rs : List KycRequest) (rows : List KycSubmission)
      → AllFresh rs rows
      → IsSound rows
      → IsSound (handle_all rs rows)
        × ((k : KycSubmission)
            → find_submission k.id rows ≡ some k
            → is_pending k.status ≡ false
            → find_submission k.id (handle_all rs rows) ≡ some k)
  handle_all-IsSound [] rows fresh s = (s, λ k h settled. h)
  handle_all-IsSound (r ∷ rs) rows fresh s =
      let (sound, kept) =
        handle_all-IsSound rs (handle r rows) fresh.1 (handle-IsSound r rows fresh.0 s) in
      (sound, λ k h settled. kept k (handle_keeps_settled r rows k fresh.0 h settled) settled)
