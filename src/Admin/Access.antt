-- ===== src/Admin/Access.antt =====
-- The secret of the pages of app/api_admin.py, and the test for a withdrawal that waits.
use backend_ayak_bine.Base.{
  Bool, not, ◌&&◌, Text, text_eq, is_empty, if◌then◌else◌, Response, reply, http_error,
}
use backend_ayak_bine.Ledger.{
  LedgerTransaction, TransactionStatus, TransactionType, is_status, is_type,
}

-- `_check_secret`
unfoldable pub check_secret : Text → Text → Response (Unit {0})
check_secret configured secret =
    if is_empty configured
    then http_error 403
    else if not (text_eq secret configured)
    then http_error 403
    else reply tt

abbrev pub is_pending_payout : LedgerTransaction → Bool
is_pending_payout t =
    is_type t.type TransactionType.pay_out && is_status t.status TransactionStatus.pending
