-- ===== src/Ledger/Models.antt =====
-- The tables of app/models.py. Identifiers, references, phone numbers and hashes are only compared by the
-- code, so they are numbers; an amount in a NUMERIC(15, 2) column is a number of hundredths. A table
-- is the list of its rows, the newest first.
use backend_ayak_bine.Base.{ℕ, Bool, true, false, Option, List, Text}
use backend_ayak_bine.Money.{Decimal}

pub data UserRole : Type 0 where
  user admin : UserRole

pub data TransactionType : Type 0 where
  pay_in pay_out internal_transfer : TransactionType

pub data TransactionStatus : Type 0 where
  pending success failed cancelled reversed : TransactionStatus

pub data PaymentProvider : Type 0 where
  wave orange mtn moov internal admin_manual orange_money : PaymentProvider

pub data KycStatus : Type 0 where
  pending approved rejected : KycStatus

pub record User : Type 0 where
  pub id : ℕ
  pub phone_number : Text
  pub full_name : Text
  pub pin_code_hash : ℕ
  pub role : UserRole
  pub is_active : Bool

pub record Wallet : Type 0 where
  pub user_id : ℕ
  pub balance : ℕ

-- The JSON in `metadata`: what each writer of a row puts there.
pub data Metadata : Type 0 where
  declared_via : Text → Metadata
  requested : Metadata
  sender : Decimal → Metadata
  recipient : Metadata
  manual_credit : Text → ℕ → Metadata
  rejected_by : ℕ → Metadata → Metadata

pub record LedgerTransaction : Type 0 where
  pub id : ℕ
  pub reference : ℕ
  pub user_id : ℕ
  pub type : TransactionType
  pub provider : PaymentProvider
  pub amount : ℕ
  pub fee : ℕ
  pub status : TransactionStatus
  pub phone_number : Option Text
  pub proof_ref : Option Text
  pub metadata : Metadata

pub record KycSubmission : Type 0 where
  pub id : ℕ
  pub user_id : ℕ
  pub id_document_base64 : Text
  pub selfie_base64 : Option Text
  pub status : KycStatus
  pub review_note : Option Text

pub record DeviceToken : Type 0 where
  pub user_id : ℕ
  pub token : ℕ
  pub platform : Text

pub data AuditAction : Type 0 where
  approve_payout reject_payout : AuditAction

pub record AdminAuditLog : Type 0 where
  pub admin_id : ℕ
  pub action : AuditAction
  pub target_id : ℕ
  pub amount : ℕ
  pub ip_address : Option Text

-- The keys `payment_link_…` of platform_settings.
pub data PaymentLink : Type 0 where
  payment_link_wave payment_link_orange payment_link_mtn payment_link_moov : PaymentLink

-- The tables. platform_settings is its two kinds of rows: the value of `fee_percent`, kept as the
-- number that its text stands for, and the payment links.
pub record Db : Type 0 where
  pub users : List User
  pub wallets : List Wallet
  pub ledger : List LedgerTransaction
  pub kyc : List KycSubmission
  pub devices : List DeviceToken
  pub audit : List AdminAuditLog
  pub fee_percent : Option Decimal
  pub payment_links : List (PaymentLink × Text)

abbrev pub is_status : TransactionStatus → TransactionStatus → Bool
is_status TransactionStatus.pending TransactionStatus.pending = true
is_status TransactionStatus.success TransactionStatus.success = true
is_status TransactionStatus.failed TransactionStatus.failed = true
is_status TransactionStatus.cancelled TransactionStatus.cancelled = true
is_status TransactionStatus.reversed TransactionStatus.reversed = true
is_status _ _ = false

abbrev pub is_type : TransactionType → TransactionType → Bool
is_type TransactionType.pay_in TransactionType.pay_in = true
is_type TransactionType.pay_out TransactionType.pay_out = true
is_type TransactionType.internal_transfer TransactionType.internal_transfer = true
is_type _ _ = false

abbrev pub is_provider : PaymentProvider → PaymentProvider → Bool
is_provider PaymentProvider.wave PaymentProvider.wave = true
is_provider PaymentProvider.orange PaymentProvider.orange = true
is_provider PaymentProvider.mtn PaymentProvider.mtn = true
is_provider PaymentProvider.moov PaymentProvider.moov = true
is_provider PaymentProvider.internal PaymentProvider.internal = true
is_provider PaymentProvider.admin_manual PaymentProvider.admin_manual = true
is_provider PaymentProvider.orange_money PaymentProvider.orange_money = true
is_provider _ _ = false
