-- ===== src/Tests/Ledger.antt =====
-- Runs of the ledger (app/wallet_service.py, app/api_admin.py).
use backend_ayak_bine.Base.{
  inl, ◌≡◌, refl, none, some, codes, text_eq, text_in, upper, [], ◌∷◌, reply, arith,
}
use backend_ayak_bine.Money.{Decimal, whole}
use backend_ayak_bine.Ledger.{PaymentProvider, Exec, returned, Reply, failure, Message}
use backend_ayak_bine.Ledger.Store.{
  insert_transaction, insert_violation, proof_taken, set_balance, add_balance, update_transaction,
  update_transaction_proof, insert_audit,
}
use backend_ayak_bine.Ledger.Payin.{PayinCredit, process_payin_credit, credit_row, credit_wallet}
use backend_ayak_bine.Ledger.Payout.{
  PayoutReserved, process_payout_deduction, reserve, reject, approve, settle, admin_process_payout,
}
use backend_ayak_bine.Ledger.Transfer.{
  TransferCall, TransferDone, process_internal_transfer, transfer_between, move, transfer_fee,
  transfer_total,
}
use backend_ayak_bine.Money.{
  to_cents, sub_to_cents, add_to_cents, sub_from_cents, exceeds_cents, percent_to_cents,
  round_half_up, scale,
}
use backend_ayak_bine.Audit.Wallets.{balance_in}
use backend_ayak_bine.Audit.Conserved.{Conserves, transfer_money_kept}
use backend_ayak_bine.Audit.Final.{process_payin_credit_once, admin_process_payout_once}
use backend_ayak_bine.Audit.Refund.{
  rejected_payout_restores, rejected_payout_gains, rejected_deposit_paid,
}
use backend_ayak_bine.Audit.Progress.{payout_request_accepted}
use backend_ayak_bine.Audit.Sent.{transfer_accepted}
use backend_ayak_bine.Audit.Paid.{process_payin_credit_accepted}
use backend_ayak_bine.Audit.Wallets.{with_balance}
use backend_ayak_bine.Wallet.{
  payout_request, valid_operator, TransferIds, transfer_internal_endpoint,
}
use backend_ayak_bine.Ledger.Service.{cast_provider, get_fee_percent}
use backend_ayak_bine.Ledger.Payout.{pending_payout}
use backend_ayak_bine.Ledger.Transfer.{sender_entry, recipient_entry}
use backend_ayak_bine.Ledger.{success, TransactionStatus}
use backend_ayak_bine.Money.{equals_cents}
use backend_ayak_bine.Push.{unconfigured, network_error, notify_user}
use backend_ayak_bine.Tests.Data.{koffi, tables, deposit_row, reply_of, tables_of}

-- Awa sends 100.00 to Koffi, at 8 %.
abbrev sending_call : TransferCall
sending_call = record {
  sender_id = 1;
  amount = whole 100;
  recipient_phone = codes "0700000002";
  sender_reference = 200;
  recipient_reference = 201;
  fee_percent = whole 8;
  sender_row = 20;
  recipient_row = 21;
}

abbrev sent_call : Exec (Reply TransferDone)
sent_call = process_internal_transfer sending_call tables

transfer_money_kept_example :
    Conserves tables (reply_of (failure Message.montant_invalide) sent_call) (tables_of sent_call)
unfolding process_internal_transfer transfer_between move transfer_fee transfer_total
    insert_transaction insert_violation proof_taken set_balance add_to_cents percent_to_cents
    to_cents round_half_up scale text_eq
transfer_money_kept_example =
    transfer_money_kept sending_call tables (tables_of sent_call)
      (reply_of (failure Message.montant_invalide) sent_call) (refl, (refl, (refl, tt))) refl

abbrev credit_call : Exec (Reply PayinCredit)
credit_call = process_payin_credit 100 none none tables

process_payin_credit_once_example :
    process_payin_credit 100 (some (codes "P1")) (some (whole 7)) (tables_of credit_call)
    ≡ returned (failure Message.deja_creditee) (tables_of credit_call)
unfolding process_payin_credit credit_row credit_wallet add_balance set_balance
    update_transaction_proof proof_taken
process_payin_credit_once_example =
    process_payin_credit_once 100 none (some (codes "P1")) none (some (whole 7)) tables
      (tables_of credit_call)
      (record { transaction_id = 10; credited_amount = 5000; new_balance = some 105000 }) refl

-- A withdrawal of an amount, and its rejection.
abbrev request : Decimal → Exec (Reply PayoutReserved)
request amount =
    process_payout_deduction 30 1 amount 300 PaymentProvider.wave (codes "0700000001") tables

abbrev rejection : Decimal → Exec (Reply (Unit {0}))
rejection amount = admin_process_payout 30 reject none 3 (tables_of (request amount))

abbrev reserved : Decimal → PayoutReserved
reserved amount = record {
  reference = 300;
  transaction_id = 30;
  new_balance = sub_from_cents 100000 amount;
}

admin_process_payout_once_example :
    admin_process_payout 30 approve (some (codes "P2")) 3 (tables_of (rejection (whole 25)))
    ≡ returned (failure Message.deja_traitee) (tables_of (rejection (whole 25)))
unfolding process_payout_deduction reserve exceeds_cents sub_to_cents to_cents sub_from_cents
    round_half_up scale set_balance add_balance insert_transaction insert_violation proof_taken
    admin_process_payout settle update_transaction insert_audit
admin_process_payout_once_example =
    admin_process_payout_once 30 reject approve none (some (codes "P2")) 3 3
      (tables_of (request (whole 25))) (tables_of (rejection (whole 25))) refl

rejected_payout_restores_example :
    balance_in 1 (tables_of (rejection (whole 25))).wallets ≡ some 100000
unfolding process_payout_deduction reserve exceeds_cents sub_to_cents to_cents sub_from_cents
    round_half_up scale set_balance add_balance insert_transaction insert_violation proof_taken
    admin_process_payout settle update_transaction insert_audit
rejected_payout_restores_example =
    rejected_payout_restores 30 1 (whole 25) 300 PaymentProvider.wave (codes "0700000001") tables
      (tables_of (request (whole 25))) (tables_of (rejection (whole 25)))
      (record { user_id = 1; balance = 100000 }) (reserved (whole 25)) none 3 2500 refl refl refl
      refl

-- 12.345
abbrev half_cent : Decimal
half_cent = record { coefficient = 12345; exponent = 3 }

rejected_payout_gains_example : balance_in 1 (tables_of (rejection half_cent)).wallets ≡ some 100001
unfolding process_payout_deduction reserve exceeds_cents sub_to_cents to_cents sub_from_cents
    round_half_up scale set_balance add_balance insert_transaction insert_violation proof_taken
    admin_process_payout settle update_transaction insert_audit
rejected_payout_gains_example =
    rejected_payout_gains 30 1 1234 300 PaymentProvider.wave (codes "0700000001") tables
      (tables_of (request half_cent)) (tables_of (rejection half_cent))
      (record { user_id = 1; balance = 100000 }) (reserved half_cent) none 3 refl refl refl

abbrev misrouted : Exec (Reply (Unit {0}))
misrouted = admin_process_payout 10 reject none 3 tables

rejected_deposit_paid_example : balance_in 1 (tables_of misrouted).wallets ≡ some 105000
unfolding admin_process_payout settle add_balance set_balance update_transaction insert_audit
rejected_deposit_paid_example =
    rejected_deposit_paid deposit_row none 3 tables (tables_of misrouted) 100000 refl refl refl refl
      refl

payout_request_accepted_example :
    payout_request 30 300 1 (whole 25) (codes "Wave") (codes "0700000001") tables ≡ (
      reply (reserved (whole 25)),
      record tables {
        wallets = with_balance 1 97500 tables.wallets;
        ledger =
            pending_payout 30 1 (whole 25) 300 PaymentProvider.wave (codes "0700000001")
            ∷ tables.ledger;
      },
    )
unfolding to_cents round_half_up scale upper text_eq text_in valid_operator cast_provider
payout_request_accepted_example =
    payout_request_accepted 30 300 1 (whole 25) 2500 (codes "Wave") (codes "0700000001")
      PaymentProvider.wave tables (record { user_id = 1; balance = 100000 }) refl refl (omega arith)
      (omega arith)
      (record {
        amount = (omega arith, omega arith);
        fee = omega arith;
        fresh_id = refl;
        fresh_reference = refl;
        known_user = refl;
        no_proof = refl;
        short_phone = refl;
      })
      refl

abbrev four_ids : TransferIds
four_ids = record {
  sender_reference = 200;
  recipient_reference = 201;
  sender_row = 20;
  recipient_row = 21;
}

transfer_accepted_example :
    transfer_internal_endpoint unconfigured
      (λ token. network_error)
      four_ids
      1
      (whole 100)
      (codes "0700000002")
      tables
    ≡ (
      reply (record {
        sender_reference = 200;
        recipient_reference = 201;
        net_amount = whole 100;
        fee = 800;
        total_charged = 10800;
        new_balance = 89200;
      }),
      record tables {
        wallets = with_balance 2 10500 (with_balance 1 89200 tables.wallets);
        ledger =
            recipient_entry sending_call 2 (some (codes "0700000001"))
            ∷ sender_entry sending_call
            ∷ tables.ledger;
      },
    )
unfolding transfer_fee transfer_total percent_to_cents add_to_cents to_cents round_half_up scale
    text_eq notify_user get_fee_percent
transfer_accepted_example =
    transfer_accepted unconfigured (λ token. network_error) four_ids 1 (whole 100)
      (codes "0700000002") tables koffi (record { user_id = 1; balance = 100000 })
      (record { user_id = 2; balance = 500 }) (omega arith) refl (λ e. absurd (omega (arith, e)))
      refl refl (omega arith) (omega arith) (omega arith)
      (record {
        amount = (omega arith, omega arith);
        fee = omega arith;
        fresh_id = refl;
        fresh_reference = refl;
        known_user = refl;
        no_proof = refl;
        short_phone = refl;
      })
      (record {
        amount = (omega arith, omega arith);
        fee = omega arith;
        fresh_id = refl;
        fresh_reference = refl;
        known_user = refl;
        no_proof = refl;
        short_phone = refl;
      })
      (λ e. absurd (omega (arith, e))) (λ e. absurd (omega (arith, e)))

process_payin_credit_accepted_example :
    process_payin_credit 100 (some (codes "P9")) (some (whole 50)) tables
    ≡ returned
        (success
          (record { transaction_id = 10; credited_amount = 5000; new_balance = some 105000 }))
        (record tables {
          wallets = with_balance 1 105000 tables.wallets;
          ledger =
              record deposit_row {
                status = TransactionStatus.success;
                proof_ref = some (codes "P9");
              }
              ∷ [];
        })
unfolding proof_taken equals_cents scale
process_payin_credit_accepted_example =
    process_payin_credit_accepted 100 (some (codes "P9")) (some (whole 50)) tables deposit_row
      (record { user_id = 1; balance = 100000 }) refl (inl refl) (inl (refl, refl), tt) refl refl
      refl (omega arith)
