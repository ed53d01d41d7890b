-- ===== src/Devices/Laws.antt =====
-- The owner of a token (app/api_devices.py).
use backend_ayak_bine.Base.{
  ℕ, ◌≤◌, ◌≡◌, ◌≢◌, refl, ap, Option, none, some, List, [], ◌∷◌, arith, find, select_where,
  update_where, length, Text, Response, reply, false, ltb, ◌||◌,
}
use backend_ayak_bine.Ledger.{DeviceToken}
use backend_ayak_bine.Devices.{has_token, upsert, DeviceRegisterRequest, register_device}

abbrev pub owner_of : ℕ → List DeviceToken → Option ℕ
owner_of token rows = elim (find (has_token token) rows) [ none ↦ none | some d ↦ some d.user_id ]

abbrev pub token_count : ℕ → List DeviceToken → ℕ
token_count token rows = length (select_where (has_token token) rows)

-- `token` is UNIQUE.
abbrev pub OneRow : List DeviceToken → Type 0
OneRow rows = (token : ℕ) → token_count token rows ≤ 1

module _ (user_id token : ℕ) (platform : Text) where
  abbrev assign : DeviceToken → DeviceToken
  assign d = record d { user_id = user_id; platform = platform }

  token_count-assign :
      (other : ℕ) (rows : List DeviceToken)
      → token_count other (update_where (has_token token) assign rows) ≡ token_count other rows
  token_count-assign other [] = refl
  token_count-assign other (d ∷ rows) = ground (arith, token_count-assign other rows)

  owner_of-assign_other :
      (other : ℕ) (rows : List DeviceToken)
      → other ≢ token
      → owner_of other (update_where (has_token token) assign rows) ≡ owner_of other rows
  owner_of-assign_other other [] h = refl
  owner_of-assign_other other (d ∷ rows) h = ground (arith, owner_of-assign_other other rows h)

  owner_of-assign_self :
      (rows : List DeviceToken)
      → 1 ≤ token_count token rows
      → owner_of token (update_where (has_token token) assign rows) ≡ some user_id
  owner_of-assign_self [] h = absurd (omega arith)
  owner_of-assign_self (d ∷ rows) h = ground (arith, owner_of-assign_self rows)

  -- What a registration promises of its answer and of the rows that it leaves.
  abbrev pub Registered : List DeviceToken → Response (Unit {0}) × List DeviceToken → Type 0
  Registered rows r =
      (r.0 ≡ reply tt)
      × OneRow r.1
      × (owner_of token r.1 ≡ some user_id)
      × ((other : ℕ) → other ≢ token → owner_of other r.1 ≡ owner_of other rows)

  upsert-Registered :
      (l rows : List DeviceToken)
      → OneRow rows
      → select_where (has_token token) rows ≡ l
      → Registered rows (upsert l user_id token platform rows)
  unfolding upsert
  upsert-Registered [] rows h e = (
    refl,
    λ other. ground (arith, h other, ap length e),
    ground arith,
    λ other ne. ground (arith, ne),
  )
  upsert-Registered (d ∷ []) rows h e = (
    refl,
    λ other. omega (arith, h other, ap (λ (n : ℕ). n) (token_count-assign other rows)),
    owner_of-assign_self rows (omega (arith, ap length e)),
    λ other ne. owner_of-assign_other other rows ne,
  )
  upsert-Registered (d ∷ d' ∷ more) rows h e = absurd (omega (arith, h token, ap length e))

-- Registering a token of 10 to 255 characters, for a platform of at most 20, on tables with one row for each
-- token answers with success, keeps one row for each, makes the user the token's owner, and leaves the
-- owner of every other token.
pub register_device-Registered :
    (user_id : ℕ) (p : DeviceRegisterRequest) (rows : List DeviceToken)
    → 10 ≤ p.fcm_token_length
    → p.fcm_token_length ≤ 255
    → length p.platform ≤ 20
    → OneRow rows
    → Registered user_id p.fcm_token p.platform rows (register_device user_id p rows)
unfolding register_device
register_device-Registered user_id p rows long short fits h =
    let accepted : ltb p.fcm_token_length 10 ≡ false = ground (arith, long) in
    let stored : (ltb 255 p.fcm_token_length || ltb 20 (length p.platform)) ≡ false =
      ground (arith, short, fits) in
    rw (accepted, register_device)
      (rw stored (
        upsert-Registered user_id p.fcm_token p.platform (select_where (has_token p.fcm_token) rows)
          rows h refl))
