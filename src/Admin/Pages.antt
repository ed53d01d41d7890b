-- ===== src/Admin/Pages.antt =====
-- What the lists of app/api_admin.py show, all pages together.
use backend_ayak_bine.Base.{
  ℕ, zero, suc, ◌+◌, ◌*◌, ◌≤◌, ◌≡◌, refl, ap, sym, ◌∙◌, Option, some, List, [], ◌∷◌, ◌++◌, arith,
  Text, length, take, drop, Response, reply, http_error, server_error,
}
use mathlib.Core.Path.{subst}
use mathlib.Core.List.{Perm}
use backend_ayak_bine.Ledger.{Db, LedgerTransaction}
use backend_ayak_bine.Admin.Listing.{
  pos, TransactionPage, list_transactions, selected_transactions, paginate,
}

module _ {ℓ} {A : Type ℓ} where
  take-nil : (n : ℕ) → take {A = A} n [] ≡ []
  take-nil zero = refl
  take-nil (suc n) = refl

  drop-nil : (n : ℕ) → drop {A = A} n [] ≡ []
  drop-nil zero = refl
  drop-nil (suc n) = refl

  take-add_drop : (a b : ℕ) (xs : List A) → take a xs ++ take b (drop a xs) ≡ take (a + b) xs
  take-add_drop zero b xs = ground arith
  take-add_drop (suc a) b [] = ground (arith, take-nil b, take-nil (suc a + b))
  take-add_drop (suc a) b (x ∷ xs) =
      let e : suc a + b ≡ suc (a + b) = omega arith in
      rw e (ap (λ ys. x ∷ ys) (take-add_drop a b xs))

  drop-add : (a b : ℕ) (xs : List A) → drop (a + b) xs ≡ drop b (drop a xs)
  drop-add zero b xs = ground arith
  drop-add (suc a) b [] = ground (arith, drop-nil b, drop-nil (suc a + b))
  drop-add (suc a) b (x ∷ xs) =
      let e : suc a + b ≡ suc (a + b) = omega arith in rw e (drop-add a b xs)

  take_all : (n : ℕ) (xs : List A) → length xs ≤ n → take n xs ≡ xs
  take_all zero [] h = refl
  take_all zero (x ∷ xs) h = absurd (omega arith)
  take_all (suc n) [] h = refl
  take_all (suc n) (x ∷ xs) h = ap (λ ys. x ∷ ys) (take_all n xs (omega arith))

abbrev pub items_of : Response TransactionPage → List (LedgerTransaction × Text)
items_of (reply p) = p.items
items_of (http_error n) = []
items_of server_error = []

-- The items of successive pages, one request for each, by its offset.
abbrev pub walk : (ℕ → Response TransactionPage) → ℕ → ℕ → ℕ → List (LedgerTransaction × Text)
walk get limit offset zero = []
walk get limit offset (suc n) = items_of (get offset) ++ walk get limit (offset + limit) n

module _ (type status phone : Option Text) (db : Db) (rows : List (LedgerTransaction × Text))
    (selected : selected_transactions type status phone db ≡ some rows) (limit : ℕ)
    (accepted : limit ≤ 200)
    (orders : ℕ → List (LedgerTransaction × Text) → List (LedgerTransaction × Text))
    (sorted : List (LedgerTransaction × Text))
    (stable : (offset : ℕ) → orders offset rows ≡ sorted) where
  abbrev pub page_at : ℕ → Response TransactionPage
  page_at offset = list_transactions (orders offset) type status phone (pos limit) (pos offset) db

  page_lem :
      (offset : ℕ)
      → page_at offset
        ≡ reply (record { total = length sorted; items = take limit (drop offset sorted) })
  unfolding list_transactions paginate
  page_lem offset = ground (arith, selected, accepted, stable offset)

  walk-take : (n offset : ℕ) → walk page_at limit offset n ≡ take (n * limit) (drop offset sorted)
  walk-take zero offset = ground arith
  walk-take (suc n) offset = ground (
    arith,
    page_lem offset,
    walk-take n (offset + limit),
    drop-add offset limit sorted,
    take-add_drop limit (n * limit) (drop offset sorted),
  )

  -- Walking through GET /transactions with one set of filters, for a limit of at most 200: if each request
  -- orders the selected rows in the same way, rows of the same time included, then pages enough to cover the
  -- total give every selected row once, in that order, and each page reports that total.
  pub list_transactions_pages :
      (n : ℕ)
      → Perm sorted rows
      → length sorted ≤ n * limit
      → (walk page_at limit 0 n ≡ sorted)
        × Perm (walk page_at limit 0 n) rows
        × ((offset : ℕ)
            → page_at offset
              ≡ reply (record { total = length sorted; items = take limit (drop offset sorted) }))
  list_transactions_pages n same h =
      let all = walk-take n 0 ∙ take_all (n * limit) sorted h in
      (all, subst (λ l. Perm l rows) (sym all) same, page_lem)
