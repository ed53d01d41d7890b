-- ===== src/Migrations/Again.antt =====
-- Running the migrations again (app/db_migrate.py).
use backend_ayak_bine.Base.{
  ◌≡◌, refl, sym, ap, Bool, true, false, Option, none, some, List, [], ◌∷◌, Text, text_in,
  text_eq_refl, All, arith, inl, inr, Bool-cases, Option-cases,
}
use mathlib.Core.Path.{subst}
use backend_ayak_bine.Migrations.{Schema, record_name, run_files, adopt, run_migrations}

abbrev pub AllApplied : List Text → List Text → Type 0
AllApplied files names = All (λ f. text_in f names ≡ true) files

text_in-record_name :
    (f name : Text) (names : List Text)
    → text_in f names ≡ true
    → text_in f (record_name name names) ≡ true
unfolding record_name text_in
text_in-record_name f name names h = ground (arith, h)

text_in-recorded : (name : Text) (names : List Text) → text_in name (record_name name names) ≡ true
unfolding record_name text_in
text_in-recorded name names = ground (arith, text_eq_refl name)

module _ {W : Type 0} (execute : Text → W → Option W) (users_exists : W → Bool) where
  -- A run that finishes adds names only, and then all its files are recorded.
  abbrev Finished : List Text → Schema W → Bool × Schema W → Type 0
  Finished files s r =
      r.0 ≡ true
      → ((f : Text) → text_in f s.applied ≡ true → text_in f r.1.applied ≡ true)
        × AllApplied files r.1.applied

  abbrev Includes : List Text → List Text → Type 0
  Includes names names' = (f : Text) → text_in f names ≡ true → text_in f names' ≡ true

  executed-Finished :
      (name : Text) (files : List Text) (s : Schema W) (w : W) (r : Bool × Schema W)
      → Finished files (record { applied = record_name name s.applied; tables = w }) r
      → Finished (name ∷ files) s r
  executed-Finished name files s w r ih done =
      let (kept, all) = ih done in
      (
        λ f k. kept f (text_in-record_name f name s.applied k),
        (kept name (text_in-recorded name s.applied), all),
      )

  skips :
      (applied files : List Text) (name : Text) (s : Schema W)
      → text_in name applied ≡ true
      → run_files execute users_exists applied (name ∷ files) s
        ≡ run_files execute users_exists applied files s
  unfolding run_files
  skips applied files name s e = rw (e, run_files) refl

  stops :
      (applied files : List Text) (name : Text) (s : Schema W)
      → text_in name applied ≡ false
      → execute name s.tables ≡ none
      → run_files execute users_exists applied (name ∷ files) s ≡ (false, s)
  unfolding run_files
  stops applied files name s e x = rw (e, run_files) (rw x refl)

  goes_on :
      (applied files : List Text) (name : Text) (s : Schema W) (w : W)
      → text_in name applied ≡ false
      → execute name s.tables ≡ some w
      → run_files execute users_exists applied (name ∷ files) s
        ≡ run_files execute users_exists applied files
            (record { applied = record_name name s.applied; tables = w })
  unfolding run_files
  goes_on applied files name s w e x = rw (e, run_files) (rw x refl)

  run_files-Finished :
      (applied files : List Text) (s : Schema W)
      → Includes applied s.applied
      → Finished files s (run_files execute users_exists applied files s)
  unfolding run_files
  run_files-Finished applied [] s sub = λ done. (λ f k. k, tt)
  run_files-Finished applied (name ∷ files) s sub = elim (Bool-cases (text_in name applied)) [
    | inl e ↦ subst (Finished (name ∷ files) s) (sym (skips applied files name s e)) λ done.
        let (kept, all) = run_files-Finished applied files s sub done in
        (kept, (kept name (sub name e), all))
    | inr e ↦ elim (Option-cases (execute name s.tables)) [
      | inl x ↦
          subst (Finished (name ∷ files) s) (sym (stops applied files name s e x))
            λ done. absurd (cc done)
      | inr (w, x) ↦
          let after : Schema W = record { applied = record_name name s.applied; tables = w } in
          subst (Finished (name ∷ files) s) (sym (goes_on applied files name s w e x)) (
            executed-Finished name files s w (run_files execute users_exists applied files after) (
              run_files-Finished applied files after
                (λ f k. text_in-record_name f name s.applied (sub f k))))
    ]
  ]

  run_files_skipped :
      (applied files : List Text) (s : Schema W)
      → AllApplied files applied
      → run_files execute users_exists applied files s ≡ (true, s)
  unfolding run_files
  run_files_skipped applied [] s h = refl
  run_files_skipped applied (name ∷ files) s h =
      rw (h.0, run_files) (run_files_skipped applied files s h.1)

  adopted :
      (first : Text) (s : Schema W)
      → text_in first s.applied ≡ true
      → adopt execute users_exists first s ≡ s
  unfolding adopt
  adopted first s h = ground (arith, h)

  rerun :
      (first : Text) (files : List Text) (s : Schema W)
      → AllApplied (first ∷ files) s.applied
      → run_migrations execute users_exists (first ∷ files) s ≡ (true, s)
  unfolding run_migrations
  rerun first files s h =
      rw (adopted first s h.0, run_migrations) (run_files_skipped s.applied (first ∷ files) s h)

  -- After a run of the migrations that has finished, another run executes nothing, records nothing and
  -- finishes too.
  pub run_migrations_again :
      (files : List Text) (s s' : Schema W)
      → run_migrations execute users_exists files s ≡ (true, s')
      → run_migrations execute users_exists files s' ≡ (true, s')
  unfolding run_migrations
  run_migrations_again [] s s' h = refl
  run_migrations_again (first ∷ files) s s' h =
      let start = adopt execute users_exists first s in
      let finished =
        run_files-Finished start.applied (first ∷ files) start (λ f k. k) (ap (λ r. r.0) h) in
      rerun first files s' (subst (λ r. AllApplied (first ∷ files) r.1.applied) h finished.1)
