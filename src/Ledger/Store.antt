-- ===== src/Ledger/Store.antt =====
-- What PostgreSQL does for the statements of the SQL functions: the constraints of
-- sql/migration_004_repair_core_schema.sql with the partial index of
-- sql/migration_010_fix_proof_constraint_and_operators.sql, and the rollback of a statement that fails.
use backend_ayak_bine.Base.{
  ℕ, ◌+◌, Bool, false, ◌&&◌, not, Option, none, some, List, ◌∷◌, Text, text_eq, leb, ◌==◌,
  if◌then◌else◌, find, update_where, exists, length, ltb,
}
use backend_ayak_bine.Ledger.Models.{
  Db, Wallet, User, LedgerTransaction, AdminAuditLog, PaymentProvider, is_provider,
}

pub data DbError : Type 0 where
  unique_violation check_violation foreign_key_violation numeric_overflow invalid_enum
        value_too_long :
      DbError

-- A statement or a function: what it returns with the new tables, or an error, after which the
-- transaction is rolled back.
pub data Exec {ℓ} (A : Type ℓ) : Type ℓ where
  returned : A → Db → Exec A
  raised : DbError → Exec A

infixl 5 ◌>>=◌ ◌>>◌
abbrev pub ◌>>=◌ {ℓ κ} : {A : Type ℓ} {B : Type κ} → (Db → Exec A) → (A → Db → Exec B) → Db → Exec B
◌>>=◌ m f db = elim (m db) [ returned a db' ↦ f a db' | raised e ↦ raised e ]

abbrev pub ◌>>◌ {ℓ κ} : {A : Type ℓ} {B : Type κ} → (Db → Exec A) → (Db → Exec B) → Db → Exec B
m >> k = m >>= λ _. k

abbrev pub pure {ℓ} : {A : Type ℓ} → A → Db → Exec A
pure a db = returned a db

-- NUMERIC(15, 2) holds less than 10 ^ 13, in hundredths.
abbrev pub numeric_limit : ℕ
numeric_limit = 1000000000000000

abbrev pub find_wallet : ℕ → Db → Option Wallet
find_wallet uid db = find (λ w. w.user_id == uid) db.wallets

abbrev pub find_user_by_phone : Text → Db → Option User
find_user_by_phone phone db = find (λ u. text_eq u.phone_number phone) db.users

abbrev pub find_transaction : ℕ → Db → Option LedgerTransaction
find_transaction tid db = find (λ t. t.id == tid) db.ledger

abbrev pub find_reference : ℕ → Db → Option LedgerTransaction
find_reference ref db = find (λ t. t.reference == ref) db.ledger

-- `WHERE provider = … AND proof_ref = …`
abbrev pub has_proof : PaymentProvider → Text → LedgerTransaction → Bool
has_proof provider proof t = elim t.proof_ref [
  | none ↦ false
  | some p ↦ is_provider t.provider provider && text_eq p proof
]

-- Another row holds the same pair (provider, proof_ref).
unfoldable pub proof_taken : LedgerTransaction → List LedgerTransaction → Bool
proof_taken t rows = elim t.proof_ref [
  | none ↦ false
  | some p ↦ exists (λ r. not (r.id == t.id) && has_proof t.provider p r) rows
]

-- `UPDATE wallets SET balance = … WHERE user_id = …`
unfoldable pub set_balance : ℕ → ℕ → Db → Exec (Unit {0})
set_balance uid b db =
    if leb numeric_limit b
    then raised numeric_overflow
    else returned tt (record db {
      wallets = update_where (λ w. w.user_id == uid) (λ w. record w { balance = b }) db.wallets;
    })

-- VARCHAR(limit)
abbrev pub longer_than : ℕ → Option Text → Bool
longer_than limit none = false
longer_than limit (some s) = ltb limit (length s)

-- The first constraint that the new row violates.
unfoldable pub insert_violation : LedgerTransaction → Db → Option DbError
unfolding proof_taken
insert_violation t db =
    if leb numeric_limit t.amount
    then some numeric_overflow
    else if leb numeric_limit t.fee
    then some numeric_overflow
    else if longer_than 20 t.phone_number
    then some value_too_long
    else if longer_than 100 t.proof_ref
    then some value_too_long
    else if t.amount == 0
    then some check_violation
    else if exists (λ r. r.id == t.id) db.ledger
    then some unique_violation
    else if exists (λ r. r.reference == t.reference) db.ledger
    then some unique_violation
    else if proof_taken t db.ledger
    then some unique_violation
    else if exists (λ u. u.id == t.user_id) db.users
    then none
    else some foreign_key_violation

-- `INSERT INTO ledger_transactions`
unfoldable pub insert_transaction : LedgerTransaction → Db → Exec (Unit {0})
insert_transaction t db = elim (insert_violation t db) [
  | some e ↦ raised e
  | none ↦ returned tt (record db { ledger = t ∷ db.ledger })
]

-- `UPDATE wallets SET balance = balance + … WHERE user_id = …`; with no such row it changes none.
unfoldable pub add_balance : ℕ → ℕ → Db → Exec (Unit {0})
unfolding set_balance
add_balance uid v db = elim (find_wallet uid db) [
  | none ↦ returned tt db
  | some w ↦ set_balance uid (w.balance + v) db
]

-- `UPDATE ledger_transactions … WHERE id = …`, with no write to `proof_ref`.
unfoldable pub update_transaction :
    ℕ → (LedgerTransaction → LedgerTransaction) → Db → Exec (Unit {0})
update_transaction tid f db =
    returned tt (record db { ledger = update_where (λ r. r.id == tid) f db.ledger })

-- The same for the row `t` where `proof_ref` is written too: its length and the partial index are checked.
unfoldable pub update_transaction_proof :
    LedgerTransaction → (LedgerTransaction → LedgerTransaction) → Db → Exec (Unit {0})
unfolding proof_taken
update_transaction_proof t f db =
    if longer_than 100 (f t).proof_ref
    then raised value_too_long
    else if proof_taken (f t) db.ledger
    then raised unique_violation
    else returned tt (record db { ledger = update_where (λ r. r.id == t.id) f db.ledger })

-- `INSERT INTO admin_audit_log`
unfoldable pub insert_audit : AdminAuditLog → Db → Exec (Unit {0})
insert_audit a db =
    if exists (λ u. u.id == a.admin_id) db.users
    then returned tt (record db { audit = a ∷ db.audit })
    else raised foreign_key_violation

-- The messages of the SQL functions and of app/wallet_service.py.
pub data Message : Type 0 where
  transaction_introuvable deja_creditee statut_non_creditable preuve_deja_utilisee : Message
  montant_confirme_different portefeuille_inexistant solde_insuffisant deja_traitee : Message
  action_inconnue montant_invalide destinataire_introuvable transfert_a_soi_meme : Message
  portefeuille_expediteur_introuvable portefeuille_destinataire_introuvable : Message
  montant_non_positif portefeuille_introuvable doublon_detecte : Message

-- The JSON object that a function returns: its `success` field, with the message or the results.
pub data Reply {ℓ} (A : Type ℓ) : Type ℓ where
  failure : Message → Reply A
  success : A → Reply A
