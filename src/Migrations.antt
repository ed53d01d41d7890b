-- ===== src/Migrations.antt =====
-- `run_migrations` of app/db_migrate.py. Executing the text of a file and looking for the table `users` are
-- parameters; the files are named in the order of `_migration_files`.
pub mod Again
use backend_ayak_bine.Base.{
  Bool, true, false, not, ◌&&◌, Option, none, some, List, [], ◌∷◌, Text, text_in, if◌then◌else◌,
}

-- The names in schema_migrations, and the other tables.
pub record Schema {ℓ} (W : Type ℓ) : Type ℓ where
  pub applied : List Text
  pub tables : W

-- `INSERT … ON CONFLICT DO NOTHING`
unfoldable pub record_name : Text → List Text → List Text
record_name name names = if text_in name names then names else name ∷ names

module _ {W : Type 0} (execute : Text → W → Option W) (users_exists : W → Bool) where
  -- The loop over the files, with the names read before it. `false` is an exception, after which the
  -- transaction of that file is rolled back and those before it stay.
  unfoldable pub run_files : List Text → List Text → Schema W → Bool × Schema W
  run_files applied [] s = (true, s)
  run_files applied (name ∷ files) s =
      if text_in name applied then run_files applied files s else elim (execute name s.tables) [
        | none ↦ (false, s)
        | some w ↦
            run_files applied files (record { applied = record_name name s.applied; tables = w })
      ]

  -- A database that was never tracked: its first file counts as applied.
  unfoldable pub adopt : Text → Schema W → Schema W
  adopt first s =
      if not (text_in first s.applied) && users_exists s.tables
      then record s { applied = record_name first s.applied }
      else s

  unfoldable pub run_migrations : List Text → Schema W → Bool × Schema W
  run_migrations [] s = (true, s)
  run_migrations (first ∷ files) s =
      run_files (adopt first s).applied (first ∷ files) (adopt first s)
