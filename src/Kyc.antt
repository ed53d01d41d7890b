-- ===== src/Kyc.antt =====
-- Identity checks: app/api_kyc.py, and the decisions of app/api_admin.py (`kyc_decide_jwt`, `kyc_decide`).
pub mod Service
pub mod Laws
pub mod History
use backend_ayak_bine.Base.{
  ℕ, Bool, true, false, not, ◌&&◌, ◌||◌, Option, none, some, List, [], ◌∷◌, Text, codes, text_eq,
  is_empty, ltb, ◌==◌, if◌then◌else◌, find, select_where, update_where, length, Response, reply,
  http_error, server_error,
}
use backend_ayak_bine.Ledger.{KycStatus, KycSubmission, User}

-- settings.KYC_MAX_IMAGE_BASE64_CHARS
abbrev pub kyc_max_image_base64_chars : ℕ
kyc_max_image_base64_chars = 6000000

pub record KycSubmitRequest : Type 0 where
  pub id_document_base64 : Text
  pub selfie_base64 : Option Text

abbrev selfie_too_large : Option Text → Bool
selfie_too_large none = false
selfie_too_large (some s) = ltb kyc_max_image_base64_chars (length s)

-- `status.in_([PENDING, APPROVED])`
abbrev pub is_active_status : KycStatus → Bool
is_active_status KycStatus.pending = true
is_active_status KycStatus.approved = true
is_active_status KycStatus.rejected = false

abbrev pub is_pending : KycStatus → Bool
is_pending KycStatus.pending = true
is_pending _ = false

abbrev pub active_for : ℕ → KycSubmission → Bool
active_for user_id k = k.user_id == user_id && is_active_status k.status

abbrev pub new_submission : ℕ → ℕ → KycSubmitRequest → KycSubmission
new_submission id user_id payload = record {
  id = id;
  user_id = user_id;
  id_document_base64 = payload.id_document_base64;
  selfie_base64 = payload.selfie_base64;
  status = KycStatus.pending;
  review_note = none;
}

-- `existing = ….scalar_one_or_none()`, then the refusal or the INSERT.
unfoldable pub submit_new :
    List KycSubmission
    → KycSubmission
    → List KycSubmission
    → Response (Unit {0}) × List KycSubmission
submit_new [] k rows = (reply tt, k ∷ rows)
submit_new (existing ∷ []) k rows = (http_error 409, rows)
submit_new (existing ∷ other ∷ more) k rows = (server_error, rows)

unfoldable pub submit_kyc :
    ℕ → ℕ → KycSubmitRequest → List KycSubmission → Response (Unit {0}) × List KycSubmission
submit_kyc id user_id payload rows =
    if ltb (length payload.id_document_base64) 10
    then (http_error 422, rows)
    else if ltb kyc_max_image_base64_chars (length payload.id_document_base64)
        || selfie_too_large payload.selfie_base64
    then (http_error 413, rows)
    else submit_new (select_where (active_for user_id) rows) (new_submission id user_id payload)
        rows

-- `status` and `message`: "NOT_SUBMITTED", or the value of a status with its note.
pub data KycStatusResponse : Type 0 where
  not_submitted : KycStatusResponse
  submitted : KycStatus → Option Text → KycStatusResponse

-- `GET /status`: the newest submission, or that there is none.
unfoldable pub kyc_status : ℕ → List KycSubmission → KycStatusResponse
kyc_status user_id rows = elim (find (λ k. k.user_id == user_id) rows) [
  | none ↦ not_submitted
  | some k ↦ submitted k.status k.review_note
]

-- `pattern="^(approve|reject)$"`
pub data Decision : Type 0 where
  approve reject : Decision

-- `reason or "Document non conforme"`
abbrev note_or_default : Option Text → Text
note_or_default none = codes "Document non conforme"
note_or_default (some r) = if is_empty r then codes "Document non conforme" else r

unfoldable pub decided : Decision → Option Text → KycSubmission → KycSubmission
decided approve reason k = record k { status = KycStatus.approved; review_note = none }
decided reject reason k = record k {
  status = KycStatus.rejected;
  review_note = some (note_or_default reason);
}

abbrev pub find_submission : ℕ → List KycSubmission → Option KycSubmission
find_submission sid rows = find (λ k. k.id == sid) rows

abbrev pub decide : ℕ → Decision → Option Text → List KycSubmission → List KycSubmission
decide sid decision reason rows = update_where (λ k. k.id == sid) (decided decision reason) rows

-- `POST /kyc/{submission_id}/decide`; `scalar_one()` raises if the submission's user is not there.
unfoldable pub kyc_decide_jwt :
    ℕ
    → Decision
    → Option Text
    → List User
    → List KycSubmission
    → Response (Unit {0}) × List KycSubmission
kyc_decide_jwt sid decision reason users rows = elim (find_submission sid rows) [
  | none ↦ (http_error 404, rows)
  | some k ↦
      if not (is_pending k.status)
      then (http_error 409, rows)
      else elim (find (λ u. u.id == k.user_id) users) [
        | none ↦ (server_error, rows)
        | some u ↦ (reply tt, decide sid decision reason rows)
      ]
]

-- `GET /kyc/decide`, behind the secret: a submission that is settled already is answered with a page.
unfoldable pub kyc_decide :
    Bool
    → ℕ
    → Decision
    → Option Text
    → List User
    → List KycSubmission
    → Response Bool × List KycSubmission
kyc_decide secret_accepted sid decision reason users rows =
    if not secret_accepted then (http_error 403, rows) else elim (find_submission sid rows) [
      | none ↦ (http_error 404, rows)
      | some k ↦
          if not (is_pending k.status)
          then (reply false, rows)
          else elim (find (λ u. u.id == k.user_id) users) [
            | none ↦ (server_error, rows)
            | some u ↦ (reply true, decide sid decision reason rows)
          ]
    ]
