-- ===== src/Tests/Partners.antt =====
-- Runs of the SMS providers, of the migrations and of the database's addresses (app/services/sms, app/db_migrate.py,
-- app/database.py).
use backend_ayak_bine.Base.{
  ℕ, ◌≡◌, refl, Bool, true, false, Option, none, some, List, [], ◌∷◌, Text, codes, text_in, text_eq,
}
use backend_ayak_bine.Sms.{
  HttpReply, write_timeout, replied, uncaught, retrying, twilio_send, failed, issued, Attempt,
  Cache, is_fresh, token_error, get_access_token, orange_attempt, orange_send,
}
use backend_ayak_bine.Sms.Contract.{MeetsContract, orange_send-MeetsContract, orange_send-eq-twilio}
use backend_ayak_bine.Migrations.{Schema, record_name, adopt, run_files, run_migrations}
use backend_ayak_bine.Migrations.Again.{run_migrations_again}

abbrev attempt_of : HttpReply → ℕ → Attempt
attempt_of r i = record { now = 100; later = 101; token_reply = issued 9 none; send_reply = r }

abbrev no_token : Cache
no_token = record { access_token = none; expires = 0 }

abbrev held_token : Cache
held_token = record { access_token = some 9; expires = 3700 }

orange_send-MeetsContract_example :
    MeetsContract (orange_send (attempt_of (replied 401)) no_token).0
orange_send-MeetsContract_example =
    orange_send-MeetsContract (attempt_of (replied 401)) no_token (λ i. tt) (λ i. tt)

orange_send-eq-twilio_example :
    (orange_send (attempt_of (replied 503)) held_token).0 ≡ twilio_send (λ i. replied 503)
unfolding is_fresh
orange_send-eq-twilio_example =
    orange_send-eq-twilio (attempt_of (replied 503)) held_token (λ i. refl)

-- A write timeout of the request for a token leaves the provider as it is.
abbrev token_lost : ℕ → Attempt
token_lost i = record {
  now = 100;
  later = 101;
  token_reply = failed write_timeout;
  send_reply = replied 201;
}

orange_uncaught : (orange_send token_lost no_token).0 ≡ uncaught
unfolding orange_send retrying orange_attempt get_access_token is_fresh token_error
orange_uncaught = refl

-- Files that add their name to a log.
abbrev log_file : Text → List Text → Option (List Text)
log_file name log = some (name ∷ log)

abbrev has_users : List Text → Bool
has_users log = false

abbrev files : List Text
files = codes "migration_001" ∷ codes "migration_002" ∷ []

abbrev fresh : Schema (List Text)
fresh = record { applied = []; tables = [] }

abbrev migrated : Schema (List Text)
migrated = record {
  applied = codes "migration_002" ∷ codes "migration_001" ∷ [];
  tables = codes "migration_002" ∷ codes "migration_001" ∷ [];
}

run_migrations_again_example : run_migrations log_file has_users files migrated ≡ (true, migrated)
unfolding run_migrations run_files adopt record_name text_in text_eq
run_migrations_again_example = run_migrations_again log_file has_users files fresh migrated refl
