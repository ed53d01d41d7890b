-- ===== src/Tests/Services.antt =====
-- Runs of the JEKO services, of the fees and of the one-time passwords (app/services).
use backend_ayak_bine.Base.{
  ℕ, ◌+◌, ◌*◌, ◌≤◌, ◌<◌, ◌≡◌, refl, true, false, none, some, List, [], ◌∷◌, ◌++◌, codes, text_eq,
  Bool, Option, ◌⊎◌, inl, reply, arith, ◌==◌, if◌then◌else◌,
}
use backend_ayak_bine.Money.{Decimal, whole, scale}
use backend_ayak_bine.Fees.{
  MobileOperator, compute_platform_fee, compute_total_to_collect,
  compute_wallet_credit_on_payout_failure,
}
use backend_ayak_bine.Fees.Bounds.{compute_platform_fee_nearest}
use backend_ayak_bine.Jeko.Client.{
  retrying, get_transfer_status, JekoServer, JekoData, HttpOutcome, response, connection_error,
  attempt, request,
}
use backend_ayak_bine.Jeko.Webhook.{
  Transaction, TransactionStatus, payin, payout, split_reference, handle_payout_webhook,
}
use backend_ayak_bine.Jeko.Delivery.{
  JekoWebhookPayload, State, already_processed, process_jeko_webhook, process_event, handle_leg,
}
use backend_ayak_bine.Jeko.Once.{process_jeko_webhook_once}
use backend_ayak_bine.Jeko.References.{suffix_of, split_reference_roundtrip}
use backend_ayak_bine.Jeko.Notices.{Notice, CreditedOnce, receive, receive_all, notices_credit_once}
use backend_ayak_bine.Jeko.Webhook.{
  handle_payin_webhook, payin_succeeded, continue_payin, initiate_payout, payout_not_initiated,
  failure_credit, payout_failed,
}
use backend_ayak_bine.Jeko.Client.{create_withdrawal_transfer}
use backend_ayak_bine.Jeko.Kkiapay.{KkiapayNotification, notification, kkiapay_webhook, finalized}
use backend_ayak_bine.Jeko.Kkiapay.Accepted.{
  Authorized, Finalized, kkiapay_webhook-Handled, kkiapay_webhook_finalizes,
}
use backend_ayak_bine.Jeko.Reconcile.{auto_reconcile_loop}
use backend_ayak_bine.Jeko.Settling.{quiet, verdict, concluded, auto_reconcile_settles}
use backend_ayak_bine.Otp.{
  Keys, verified, code_expired, generate_and_send_otp, verify_otp, get, otp_max_attempts,
}
use backend_ayak_bine.Otp.Limits.{sent_code_single_use, wrong_tries, wrong_tries_limit}
use backend_ayak_bine.Tests.Data.{Credits, log_credit, answering, sending, service_state}

compute_platform_fee_nearest_example :
    let fee = compute_platform_fee (whole 1000) in
    (200 * (fee * scale (whole 1000)) ≤ 16 * 1000 + 100 * scale (whole 1000))
    × (16 * 1000 < 200 * (fee * scale (whole 1000)) + 100 * scale (whole 1000))
compute_platform_fee_nearest_example = compute_platform_fee_nearest (whole 1000)

abbrev json : JekoData
json = record { id = some 77; status = some (codes "pending") }

abbrev busy : JekoServer
busy = answering connection_error

abbrev ready_server : JekoServer
ready_server = answering (response 200 json)

-- The transfer once its pay-out is pending.
abbrev paying : Transaction
paying = record sending {
  payin_status = some TransactionStatus.success;
  payout_status = some TransactionStatus.pending;
  jeko_payout_id = some 77;
}

abbrev paid : Transaction
paid = record paying { payin_status = some TransactionStatus.success }

abbrev settled_payout : Transaction
settled_payout = record paying {
  payout_status = some TransactionStatus.success;
  status = TransactionStatus.success;
}

abbrev refund : Decimal
refund =
    compute_wallet_credit_on_payout_failure (compute_total_to_collect (whole 1000))
      MobileOperator.wave

abbrev event : JekoWebhookPayload
event = record { id = codes "evt"; status = codes "success"; reference = some (codes "TRF-1-IN") }

-- The same event, whose first delivery names no transaction.
abbrev unnamed_event : JekoWebhookPayload
unnamed_event = record event { reference = none }

process_jeko_webhook_once_example :
    let s : State Credits = record {
      locks =
          (process_jeko_webhook log_credit ready_server 1000 unnamed_event service_state).1.locks;
      transactions = paying ∷ [];
      wallets = [];
    } in
    process_jeko_webhook log_credit ready_server 87399 event s ≡ (already_processed, s)
unfolding process_jeko_webhook process_event
process_jeko_webhook_once_example =
    process_jeko_webhook_once log_credit ready_server 1000 87399 unnamed_event event service_state
      (paying ∷ []) [] (λ e. absurd (cc e)) (omega arith) refl

split_reference_roundtrip_example :
    split_reference (codes "TRF-1" ++ suffix_of payin) ≡ (codes "TRF-1", payin)
split_reference_roundtrip_example = split_reference_roundtrip (codes "TRF-1") payin

-- A connection error, then answers.
abbrev flaky : ℕ → HttpOutcome
flaky i = if i == 0 then connection_error else response 200 json

abbrev closed_state : State Credits
closed_state = record { locks = []; transactions = settled_payout ∷ []; wallets = [] }

abbrev no_keys : Keys
no_keys = record { code = none; cooldown = none; attempts = none }

abbrev with_code : Keys
with_code = (generate_and_send_otp 1000 4321 true no_keys).1

abbrev guesses : List (ℕ × ℕ)
guesses = (1001, 1) ∷ (1002, 2) ∷ (1003, 3) ∷ (1004, 4) ∷ (1005, 5) ∷ (1006, 6) ∷ []

wrong_tries_limit_example : wrong_tries guesses with_code ≤ otp_max_attempts
unfolding generate_and_send_otp get
wrong_tries_limit_example =
    wrong_tries_limit 1000 4321 no_keys guesses refl
      (omega arith, (omega arith, (omega arith, (omega arith, (omega arith, (omega arith, tt))))))

abbrev done_json : JekoData
done_json = record { id = some 77; status = some (codes "Success") }

abbrev done_server : JekoServer
done_server = answering (response 200 done_json)

abbrev waiting_state : State Credits
waiting_state = record { locks = []; transactions = paying ∷ []; wallets = [] }

-- JEKO says that the pay-out of `paying` failed, three times over.
abbrev failed_server : JekoServer
failed_server = answering (response 200 (record { id = some 77; status = some (codes "Failed") }))

auto_reconcile_settles_example :
    auto_reconcile_loop log_credit failed_server
      (quiet log_credit failed_server (300 ∷ 180 ∷ 180 ∷ []))
      (codes "TRF-1")
      waiting_state
    ≡ concluded log_credit failed_server paying waiting_state
        (verdict log_credit failed_server (get_transfer_status failed_server 77))
unfolding text_eq
auto_reconcile_settles_example =
    auto_reconcile_settles log_credit failed_server (codes "TRF-1") paying 77 waiting_state refl
      refl refl refl refl 300 (180 ∷ 180 ∷ [])

sent_code_single_use_example :
    ((verify_otp 1010 4321 with_code).0 ≡ verified)
    × ((verify_otp 1020 4321 (verify_otp 1010 4321 with_code).1).0 ≡ code_expired)
unfolding generate_and_send_otp get
sent_code_single_use_example =
    sent_code_single_use 1000 1010 1020 4321 4321 no_keys refl (omega arith)

-- A deposit is finalized once, and its amount credited.
abbrev finalize : Transaction → Bool → ℕ → Credits → Option (Transaction × Credits)
finalize t true id w =
    some (record t { status = TransactionStatus.success }, (t.user_id, t.amount) ∷ w)
finalize t false id w = some (record t { status = TransactionStatus.failed }, w)

abbrev paid_notice : KkiapayNotification
paid_notice = record {
  transaction_id = some 900;
  partner_id = some (codes "TRF-1");
  is_payment_succes = true;
}

kkiapay_webhook-Handled_example :
    let result =
      kkiapay_webhook finalize
        (codes "s3cret")
        (some (codes "s3cret"))
        (notification paid_notice)
        service_state in
    (result.1 ≡ service_state)
    ⊎ (Authorized (codes "s3cret") (some (codes "s3cret"))
        × (p : KkiapayNotification) × (notification paid_notice ≡ notification p)
        × Finalized finalize p service_state result.1 result.0)
kkiapay_webhook-Handled_example =
    kkiapay_webhook-Handled finalize (codes "s3cret") (some (codes "s3cret"))
      (notification paid_notice) service_state

kkiapay_webhook_finalizes_example :
    kkiapay_webhook finalize
      (codes "s3cret")
      (some (codes "s3cret"))
      (notification paid_notice)
      service_state
    ≡ (
      reply (finalized (record sending { status = TransactionStatus.success })),
      record service_state {
        transactions = record sending { status = TransactionStatus.success } ∷ [];
        wallets = (sending.user_id, sending.amount) ∷ [];
      },
    )
unfolding text_eq
kkiapay_webhook_finalizes_example =
    kkiapay_webhook_finalizes finalize (codes "s3cret") paid_notice service_state 900 sending
      (record sending { status = TransactionStatus.success })
      ((sending.user_id, sending.amount) ∷ []) (λ e. cc e) refl
      (inl (codes "TRF-1", refl, λ e. cc e, inl (refl, refl, tt))) refl

-- The pay-in fails to reach the pay-out, and then the pay-out is said to have failed, twice.
abbrev notices : List Notice
notices =
    record { leg = payin; succeeded = true; event = codes "e1"; server = busy }
    ∷ record { leg = payout; succeeded = false; event = codes "e2"; server = busy }
    ∷ record { leg = payin; succeeded = true; event = codes "e1"; server = ready_server }
    ∷ record { leg = payout; succeeded = false; event = codes "e3"; server = busy }
    ∷ []

notices_credit_once_example :
    CreditedOnce log_credit sending [] (receive_all log_credit notices sending []).1
unfolding handle_leg handle_payin_webhook handle_payout_webhook payin_succeeded continue_payin
    initiate_payout payout_not_initiated failure_credit create_withdrawal_transfer request retrying
    attempt
notices_credit_once_example =
    notices_credit_once log_credit notices sending [] refl (refl, (refl, (refl, (refl, tt))))

-- A pay-out that is said to have failed before the transfer was paid: nothing was collected, yet the wallet
-- is credited.
abbrev early : Notice
early = record { leg = payout; succeeded = false; event = codes "e0"; server = busy }

unpaid_credited : (receive log_credit early sending []).1 ≡ (1, refund) ∷ []
unfolding handle_leg handle_payout_webhook payout_failed failure_credit
unpaid_credited = refl
