-- ===== src/Kyc/Service.antt =====
-- app/api/v1/kyc.py. The class KycSubmission that it reads is not in the repository: the record has the columns
-- of its constructor and of the answers, and the table is listed from the newest submission.
use backend_ayak_bine.Base.{
  ℕ, ◌≤◌, ◌≡◌, refl, Bool, true, false, ◌&&◌, ◌||◌, Option, none, some, List, [], ◌∷◌, Text, codes,
  text_eq, is_empty, ltb, ◌==◌, if◌then◌else◌, find, select_where, length, arith, Bool-cases,
  Option-cases, inl, inr, not, Response, reply, http_error, ==_refl,
}
use backend_ayak_bine.Kyc.{KycSubmitRequest, kyc_max_image_base64_chars}

pub record ServiceSubmission : Type 0 where
  pub id : ℕ
  pub user_id : ℕ
  pub id_document_base64 : Text
  pub selfie_base64 : Option Text
  pub status : Text
  pub rejection_reason : Option Text
  pub submitted_at : ℕ

-- `payload.selfie_base64 and len(payload.selfie_base64) > settings.kyc_max_image_base64_chars`
abbrev selfie_oversized : Option Text → Bool
selfie_oversized none = false
selfie_oversized (some s) = not (is_empty s) && ltb kyc_max_image_base64_chars (length s)

abbrev pub under_review : Text
under_review = codes "UNDER_REVIEW"

abbrev pub reviewed_for : ℕ → ServiceSubmission → Bool
reviewed_for user_id k = k.user_id == user_id && text_eq k.status under_review

abbrev pub images_oversized : KycSubmitRequest → Bool
images_oversized payload =
    ltb kyc_max_image_base64_chars (length payload.id_document_base64)
    || selfie_oversized payload.selfie_base64

abbrev pub review_request : ℕ → ℕ → ℕ → KycSubmitRequest → ServiceSubmission
review_request id now user_id payload = record {
  id = id;
  user_id = user_id;
  id_document_base64 = payload.id_document_base64;
  selfie_base64 = payload.selfie_base64;
  status = under_review;
  rejection_reason = none;
  submitted_at = now;
}

-- `POST /submit`; it answers the identifier and the status of the new row.
unfoldable pub service_submit_kyc :
    ℕ
    → ℕ
    → ℕ
    → KycSubmitRequest
    → List ServiceSubmission
    → Response (ℕ × Text) × List ServiceSubmission
service_submit_kyc id now user_id payload rows =
    if images_oversized payload
    then (http_error 413, rows)
    else elim (find (reviewed_for user_id) rows) [
      | some existing ↦ (http_error 409, rows)
      | none ↦ (reply (id, under_review), review_request id now user_id payload ∷ rows)
    ]

pub record KycStatusResponse {ℓ} (S : Type ℓ) : Type ℓ where
  pub kyc_status : S
  pub submission_status : Option Text
  pub rejection_reason : Option Text
  pub submitted_at : Option ℕ

-- `GET /status`, with the status that the user's row has.
unfoldable pub service_kyc_status {ℓ} :
    {S : Type ℓ} → ℕ → S → List ServiceSubmission → KycStatusResponse S
service_kyc_status user_id status rows = elim (find (λ k. k.user_id == user_id) rows) [
  | none ↦ record {
    kyc_status = status;
    submission_status = none;
    rejection_reason = none;
    submitted_at = none;
  }
  | some latest ↦ record {
    kyc_status = status;
    submission_status = some latest.status;
    rejection_reason = latest.rejection_reason;
    submitted_at = some latest.submitted_at;
  }
]

-- Each user has at most one submission under review.
abbrev pub OneUnderReview : List ServiceSubmission → Type 0
OneUnderReview rows = (u : ℕ) → length (select_where (reviewed_for u) rows) ≤ 1

none_selected :
    (u : ℕ) (rows : List ServiceSubmission)
    → find (reviewed_for u) rows ≡ none
    → length (select_where (reviewed_for u) rows) ≡ 0
none_selected u [] h = refl
none_selected u (k ∷ rows) h = ground (arith, h, none_selected u rows)

-- What a submission that was accepted has done.
submit_accepted :
    (id now user_id : ℕ) (payload : KycSubmitRequest) (rows rows' : List ServiceSubmission)
    (answer : ℕ × Text)
    → service_submit_kyc id now user_id payload rows ≡ (reply answer, rows')
    → rows' ≡ review_request id now user_id payload ∷ rows
unfolding service_submit_kyc
submit_accepted id now user_id payload rows rows' answer h = ground arith

-- `submit_kyc` of the JEKO services keeps it that each user has at most one submission under review.
pub service_submit_kyc-OneUnderReview :
    (id now user_id : ℕ) (payload : KycSubmitRequest) (rows : List ServiceSubmission)
    → OneUnderReview rows
    → OneUnderReview (service_submit_kyc id now user_id payload rows).1
unfolding service_submit_kyc
service_submit_kyc-OneUnderReview id now user_id payload rows h u =
    elim (Bool-cases (images_oversized payload)) [
      | inl large ↦ rw (large, service_submit_kyc) (h u)
      | inr small ↦ elim (Option-cases (find (reviewed_for user_id) rows)) [
        | inr (k, e) ↦ rw (small, service_submit_kyc) (rw e (h u))
        | inl e ↦
            rw (small, service_submit_kyc)
              (rw e (ground (arith, h u, none_selected user_id rows e)))
      ]
    ]

reviewed :
    (id now user_id : ℕ) (payload : KycSubmitRequest)
    → reviewed_for user_id (review_request id now user_id payload) ≡ true
unfolding text_eq
reviewed id now user_id payload = rw (==_refl user_id) refl

-- After a submission that was accepted, the status route reports it as under review, and any other
-- submission of that user whose images are not too large is refused with 409 and changes nothing.
pub service_submit_kyc_once {ℓ} :
    {S : Type ℓ} (id now id' now' user_id : ℕ) (payload payload' : KycSubmitRequest) (status : S)
    (rows rows' : List ServiceSubmission) (answer : ℕ × Text)
    → service_submit_kyc id now user_id payload rows ≡ (reply answer, rows')
    → images_oversized payload' ≡ false
    → ((service_kyc_status user_id status rows').submission_status ≡ some under_review)
      × (service_submit_kyc id' now' user_id payload' rows' ≡ (http_error 409, rows'))
unfolding service_submit_kyc service_kyc_status
service_submit_kyc_once id now id' now' user_id payload payload' status rows rows' answer h small =
    rw (submit_accepted id now user_id payload rows rows' answer h) (
      rw (==_refl user_id, service_kyc_status) refl,
      ground (arith, small, reviewed id now user_id payload),
    )
