-- ===== src/Audit/Rows.antt =====
-- The rows of ledger_transactions under an INSERT and under an UPDATE by identifier.
use backend_ayak_bine.Base.{
  ℕ, ◌+◌, ◌≡◌, refl, Bool, true, false, some, List, [], ◌∷◌, ◌==◌, arith, inl, inr, exists, find,
  sum_by, update_where, Bool-cases, ==_iff, ==_refl,
}
use mathlib.Core.Option.{some-injective}
use mathlib.Core.Path.{subst}
use backend_ayak_bine.Ledger.{User, LedgerTransaction}

module _ {ℓ} {A : Type ℓ} where
  pub update_where_none :
      (p : A → Bool) (g : A → A) (xs : List A) → exists p xs ≡ false → update_where p g xs ≡ xs
  update_where_none p g [] h = refl
  update_where_none p g (x ∷ xs) h = ground (arith, update_where_none p g xs)

-- No two rows have one identifier.
abbrev pub UniqueIds : List LedgerTransaction → Type 0
UniqueIds [] = Unit
UniqueIds (t ∷ ts) = (exists (λ r. r.id == t.id) ts ≡ false) × UniqueIds ts

-- No two rows have one reference.
abbrev pub UniqueReferences : List LedgerTransaction → Type 0
UniqueReferences [] = Unit
UniqueReferences (t ∷ ts) =
    (exists (λ r. r.reference == t.reference) ts ≡ false) × UniqueReferences ts

exists-update_references :
    (i : ℕ) (p : LedgerTransaction → Bool) (g : LedgerTransaction → LedgerTransaction)
    (same : (t : LedgerTransaction) → (g t).reference ≡ t.reference) (ts : List LedgerTransaction)
    → exists (λ r. r.reference == i) (update_where p g ts) ≡ exists (λ r. r.reference == i) ts
exists-update_references i p g same [] = refl
exists-update_references i p g same (r ∷ ts) =
    ground (arith, same r, exists-update_references i p g same ts)

pub update_where-UniqueReferences :
    (p : LedgerTransaction → Bool) (g : LedgerTransaction → LedgerTransaction)
    (same : (t : LedgerTransaction) → (g t).reference ≡ t.reference) (ts : List LedgerTransaction)
    → UniqueReferences ts
    → UniqueReferences (update_where p g ts)
update_where-UniqueReferences p g same [] u = tt
update_where-UniqueReferences p g same (r ∷ ts) u = ground (
  arith,
  same r,
  exists-update_references r.reference p g same ts,
  update_where-UniqueReferences p g same ts,
)

distinct_references :
    (r t : LedgerTransaction) (ts : List LedgerTransaction)
    → exists (λ x. x.reference == r.reference) ts ≡ false
    → exists (λ x. x.reference == t.reference) ts ≡ true
    → (r.reference == t.reference) ≡ false
distinct_references r t ts h k = elim (Bool-cases (r.reference == t.reference)) [
  | inr e ↦ e
  | inl e ↦ cc (
    subst (λ i. exists (λ x. x.reference == i) ts ≡ false) ((==_iff r.reference t.reference).0 e) h,
    k,
  )
]

-- A row that some test selects is the row that its reference selects.
exists-selected :
    (q : LedgerTransaction → Bool) (ts : List LedgerTransaction) (t : LedgerTransaction)
    → find q ts ≡ some t
    → exists (λ r. r.reference == t.reference) ts ≡ true
exists-selected q [] t h = cc
exists-selected q (r ∷ ts) t h = ground (arith, exists-selected q ts t)

pub find-by_reference :
    (q : LedgerTransaction → Bool) (ts : List LedgerTransaction) (t : LedgerTransaction)
    → UniqueReferences ts
    → find q ts ≡ some t
    → find (λ r. r.reference == t.reference) ts ≡ some t
find-by_reference q [] t u h = cc
find-by_reference q (r ∷ ts) t u h = elim (Bool-cases (q r)) [
  | inl e ↦
      let same : some r ≡ some t = rw e at h in
      subst (λ x. find (λ y. y.reference == x.reference) (r ∷ ts) ≡ some x)
        (some-injective r t same) (rw (==_refl r.reference) refl)
  | inr e ↦
      let found : find q ts ≡ some t = rw e at h in
      rw (distinct_references r t ts u.0 (exists-selected q ts t found))
        (find-by_reference q ts t u.1 found)
]

-- The user of every row is there.
abbrev pub Owned : List User → List LedgerTransaction → Type 0
Owned us [] = Unit
Owned us (t ∷ ts) = (exists (λ u. u.id == t.user_id) us ≡ true) × Owned us ts

pub update_where-Owned :
    (us : List User) (p : LedgerTransaction → Bool) (g : LedgerTransaction → LedgerTransaction)
    (same : (t : LedgerTransaction) → (g t).user_id ≡ t.user_id) (ts : List LedgerTransaction)
    → Owned us ts
    → Owned us (update_where p g ts)
update_where-Owned us p g same [] o = tt
update_where-Owned us p g same (r ∷ ts) o =
    ground (arith, same r, update_where-Owned us p g same ts)

exists-find :
    (q : LedgerTransaction → Bool) (ts : List LedgerTransaction) (t : LedgerTransaction)
    → find q ts ≡ some t
    → exists (λ r. r.id == t.id) ts ≡ true
exists-find q [] t h = cc
exists-find q (r ∷ ts) t h = ground (arith, exists-find q ts t)

module _ (f : LedgerTransaction → ℕ) (g : LedgerTransaction → LedgerTransaction) where
  abbrev updated_sum : LedgerTransaction → List LedgerTransaction → ℕ
  updated_sum t ts = sum_by f (update_where (λ r. r.id == t.id) g ts)

  sum-update_head :
      (r : LedgerTransaction) (ts : List LedgerTransaction)
      → exists (λ x. x.id == r.id) ts ≡ false
      → updated_sum r (r ∷ ts) + f r ≡ sum_by f (r ∷ ts) + f (g r)
  sum-update_head r ts h =
      rw (update_where_none (λ x. x.id == r.id) g ts h) (rw (==_refl r.id) (omega arith))

  sum-update_skip :
      (r t : LedgerTransaction) (ts : List LedgerTransaction)
      → (r.id == t.id) ≡ false
      → updated_sum t ts + f t ≡ sum_by f ts + f (g t)
      → updated_sum t (r ∷ ts) + f t ≡ sum_by f (r ∷ ts) + f (g t)
  sum-update_skip r t ts h ih = rw h (omega arith)

  distinct_ids :
      (r t : LedgerTransaction) (ts : List LedgerTransaction)
      → exists (λ x. x.id == r.id) ts ≡ false
      → exists (λ x. x.id == t.id) ts ≡ true
      → (r.id == t.id) ≡ false
  distinct_ids r t ts h k = elim (Bool-cases (r.id == t.id)) [
    | inr e ↦ e
    | inl e ↦ cc (subst (λ i. exists (λ x. x.id == i) ts ≡ false) ((==_iff r.id t.id).0 e) h, k)
  ]

  -- An UPDATE of a row that was found changes a sum by that row alone.
  pub sum_by-update :
      (q : LedgerTransaction → Bool) (ts : List LedgerTransaction) (t : LedgerTransaction)
      → UniqueIds ts
      → find q ts ≡ some t
      → updated_sum t ts + f t ≡ sum_by f ts + f (g t)
  sum_by-update q [] t u h = cc
  sum_by-update q (r ∷ ts) t u h = elim (Bool-cases (q r)) [
    | inl e ↦
        subst (λ x. updated_sum x (r ∷ ts) + f x ≡ sum_by f (r ∷ ts) + f (g x))
          (some-injective r t (rw e at h)) (sum-update_head r ts u.0)
    | inr e ↦
        let found : find q ts ≡ some t = rw e at h in
        sum-update_skip r t ts (distinct_ids r t ts u.0 (exists-find q ts t found))
          (sum_by-update q ts t u.1 found)
  ]

exists-update_ids :
    (i : ℕ) (p : LedgerTransaction → Bool) (g : LedgerTransaction → LedgerTransaction)
    (same : (t : LedgerTransaction) → (g t).id ≡ t.id) (ts : List LedgerTransaction)
    → exists (λ r. r.id == i) (update_where p g ts) ≡ exists (λ r. r.id == i) ts
exists-update_ids i p g same [] = refl
exists-update_ids i p g same (r ∷ ts) = ground (arith, same r, exists-update_ids i p g same ts)

pub update_where-UniqueIds :
    (p : LedgerTransaction → Bool) (g : LedgerTransaction → LedgerTransaction)
    (same : (t : LedgerTransaction) → (g t).id ≡ t.id) (ts : List LedgerTransaction)
    → UniqueIds ts
    → UniqueIds (update_where p g ts)
update_where-UniqueIds p g same [] u = tt
update_where-UniqueIds p g same (r ∷ ts) u =
    ground (arith, same r, exists-update_ids r.id p g same ts, update_where-UniqueIds p g same ts)

pub find_transaction-id :
    (tid : ℕ) (ts : List LedgerTransaction) (t : LedgerTransaction)
    → find (λ r. r.id == tid) ts ≡ some t
    → t.id ≡ tid
find_transaction-id tid [] t h = cc
find_transaction-id tid (r ∷ ts) t h = ground (arith, find_transaction-id tid ts t)
