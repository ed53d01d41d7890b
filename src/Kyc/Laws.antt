-- ===== src/Kyc/Laws.antt =====
-- The life of a submission (app/api_kyc.py, app/api_admin.py): one active submission for each user, and
-- decisions that are final.
use backend_ayak_bine.Base.{
  ℕ, ◌≤◌, ◌≡◌, refl, sym, ap, Bool, true, Option, none, some, List, [], ◌∷◌, ◌==◌, arith,
  select_where, update_where, length, All, Text, Bool-cases, Option-cases, inl, inr, reply,
  http_error,
}
use mathlib.Core.Path.{subst}
use backend_ayak_bine.Ledger.{KycSubmission, User}
use backend_ayak_bine.Kyc.{
  KycSubmitRequest, is_pending, active_for, new_submission, submit_new, submit_kyc, Decision,
  approve, reject, decided, find_submission, decide, kyc_decide_jwt, kyc_decide,
}

-- The number of the user's submissions that are pending or approved.
abbrev pub active_count : ℕ → List KycSubmission → ℕ
active_count u rows = length (select_where (active_for u) rows)

abbrev pub OneActive : List KycSubmission → Type 0
OneActive rows = (u : ℕ) → active_count u rows ≤ 1

-- A decision on pending rows adds no active row.
active_count-decide :
    (u : ℕ) (p : KycSubmission → Bool) (d : Decision) (reason : Option Text)
    (rows : List KycSubmission)
    → All (λ k. p k ≡ true → is_pending k.status ≡ true) rows
    → active_count u (update_where p (decided d reason) rows) ≤ active_count u rows
unfolding decided
active_count-decide u p d reason [] h = omega arith
active_count-decide u p approve reason (k ∷ rows) h =
    ground (arith, h.0, active_count-decide u p approve reason rows h.1)
active_count-decide u p reject reason (k ∷ rows) h =
    ground (arith, h.0, active_count-decide u p reject reason rows h.1)

submit_new-OneActive :
    (l : List KycSubmission) (k : KycSubmission) (rows : List KycSubmission)
    → select_where (active_for k.user_id) rows ≡ l
    → OneActive rows
    → OneActive (submit_new l k rows).1
unfolding submit_new
submit_new-OneActive [] k rows e h u = grind (arith, h u, ap length e)
submit_new-OneActive (x ∷ []) k rows e h u = h u
submit_new-OneActive (x ∷ y ∷ more) k rows e h u = h u

-- A user has at most one submission that is pending or approved, and `submit_kyc` keeps it so.
pub submit_kyc-OneActive :
    (id user_id : ℕ) (payload : KycSubmitRequest) (rows : List KycSubmission)
    → OneActive rows
    → OneActive (submit_kyc id user_id payload rows).1
unfolding submit_kyc
submit_kyc-OneActive id user_id payload rows h u = ground (
  arith,
  h u,
  submit_new-OneActive (select_where (active_for user_id) rows) (new_submission id user_id payload)
      rows refl h u,
)

-- No two submissions have one identifier.
abbrev pub UniqueSubmissions : List KycSubmission → Type 0
UniqueSubmissions [] = Unit
UniqueSubmissions (k ∷ ks) = (find_submission k.id ks ≡ none) × UniqueSubmissions ks

-- Behind the accepted secret the page decides as the JSON route does.
pub kyc_decide-eq-jwt :
    (sid : ℕ) (d : Decision) (reason : Option Text) (users : List User) (rows : List KycSubmission)
    → (kyc_decide true sid d reason users rows).1 ≡ (kyc_decide_jwt sid d reason users rows).1
unfolding kyc_decide kyc_decide_jwt
kyc_decide-eq-jwt sid d reason users rows = ground arith

find-decide :
    (sid : ℕ) (d : Decision) (reason : Option Text) (rows : List KycSubmission) (k : KycSubmission)
    → find_submission sid rows ≡ some k
    → find_submission sid (decide sid d reason rows) ≡ some (decided d reason k)
unfolding decided
find-decide sid d reason [] k h = cc
find-decide sid approve reason (x ∷ rows) k h =
    ground (arith, find-decide sid approve reason rows k)
find-decide sid reject reason (x ∷ rows) k h = ground (arith, find-decide sid reject reason rows k)

-- What a decision did to the rows, if its route answered with success.
decide-made :
    (sid : ℕ) (d : Decision) (reason : Option Text) (users : List User)
    (rows rows' : List KycSubmission)
    → kyc_decide_jwt sid d reason users rows ≡ (reply tt, rows')
    → (k : KycSubmission) × (find_submission sid rows ≡ some k) × (rows' ≡ decide sid d reason rows)
unfolding kyc_decide_jwt
decide-made sid d reason users rows rows' h = ground arith

decided_refused :
    (sid : ℕ) (d d' : Decision) (reason reason' : Option Text) (users : List User)
    (rows : List KycSubmission) (k : KycSubmission)
    → find_submission sid rows ≡ some k
    → let rows' = decide sid d reason rows in
      kyc_decide_jwt sid d' reason' users rows' ≡ (http_error 409, rows')
unfolding decided kyc_decide_jwt
decided_refused sid approve d' reason reason' users rows k h =
    rw (find-decide sid approve reason rows k h, kyc_decide_jwt)
decided_refused sid reject d' reason reason' users rows k h =
    rw (find-decide sid reject reason rows k h, kyc_decide_jwt)

-- A decision is final: once a decision has succeeded, a second one is refused and changes nothing.
pub kyc_decide_final :
    (sid : ℕ) (d d' : Decision) (reason reason' : Option Text) (users : List User)
    (rows rows' : List KycSubmission)
    → kyc_decide_jwt sid d reason users rows ≡ (reply tt, rows')
    → kyc_decide_jwt sid d' reason' users rows' ≡ (http_error 409, rows')
kyc_decide_final sid d d' reason reason' users rows rows' h =
    let (k, found, made) = decide-made sid d reason users rows rows' h in
    subst (λ r. kyc_decide_jwt sid d' reason' users r ≡ (http_error 409, r)) (sym made)
      (decided_refused sid d d' reason reason' users rows k found)

none_pending :
    (sid i : ℕ) (rows : List KycSubmission)
    → find_submission i rows ≡ none
    → (sid == i) ≡ true
    → All (λ k. (k.id == sid) ≡ true → is_pending k.status ≡ true) rows
none_pending sid i [] h e = tt
none_pending sid i (x ∷ rows) h e =
    (λ m. ground (arith, h, e, m), none_pending sid i rows (ground (arith, h)) e)

same_pending :
    (sid : ℕ) (rows : List KycSubmission) (k : KycSubmission)
    → UniqueSubmissions rows
    → find_submission sid rows ≡ some k
    → is_pending k.status ≡ true
    → All (λ r. (r.id == sid) ≡ true → is_pending r.status ≡ true) rows
same_pending sid [] k u h p = tt
same_pending sid (x ∷ rows) k u h p = elim (Bool-cases (x.id == sid)) [
  | inl e ↦ (λ _. ground (arith, h, e, p), none_pending sid x.id rows u.0 (ground (arith, e)))
  | inr e ↦ (λ m. cc, same_pending sid rows k u.1 (ground (arith, h, e)) p)
]

-- On submissions with distinct identifiers a decision, accepted or refused, leaves at most one active
-- submission for each user.
pub kyc_decide_jwt-OneActive :
    (sid : ℕ) (d : Decision) (reason : Option Text) (users : List User) (rows : List KycSubmission)
    → UniqueSubmissions rows
    → OneActive rows
    → OneActive (kyc_decide_jwt sid d reason users rows).1
unfolding kyc_decide_jwt
kyc_decide_jwt-OneActive sid d reason users rows unique h u =
    elim (Option-cases (find_submission sid rows)) [
      | inl e ↦ rw (e, kyc_decide_jwt) (h u)
      | inr (k, e) ↦ elim (Bool-cases (is_pending k.status)) [
        | inl p ↦
            rw (e, kyc_decide_jwt)
              (ground (
                arith,
                p,
                h u,
                active_count-decide u (λ r. r.id == sid) d reason rows
                    (same_pending sid rows k unique e p),
              ))
        | inr p ↦ rw (e, kyc_decide_jwt) (ground (arith, p, h u))
      ]
    ]
