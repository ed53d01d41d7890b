-- ===== src/Settings/Urls.antt =====
-- Both kinds of session reach one database: the two rewritings of its address agree (app/database.py).
use backend_ayak_bine.Base.{
  ◌≡◌, refl, sym, true, [], ◌∷◌, ◌++◌, Text, starts_with, codes, arith, inl, inr, Bool-cases,
}
use mathlib.Core.Path.{subst}
use backend_ayak_bine.Settings.{drop_prefix, async_url, sync_url}

starts_with_split : (p url : Text) → starts_with p url ≡ true → url ≡ p ++ drop_prefix p url
unfolding starts_with drop_prefix
starts_with_split [] url h = refl
starts_with_split (c ∷ p) [] h = absurd (cc h)
starts_with_split (c ∷ p) (d ∷ s) h = ground (arith, h, starts_with_split p s)

abbrev IsAgreed : Text → Type 0
IsAgreed url = sync_url (async_url url) ≡ sync_url url

agree_postgres : (rest : Text) → IsAgreed (codes "postgres://" ++ rest)
unfolding async_url sync_url starts_with drop_prefix
agree_postgres rest = refl

agree_postgresql : (rest : Text) → IsAgreed (codes "postgresql://" ++ rest)
unfolding async_url sync_url starts_with drop_prefix
agree_postgresql rest = refl

-- The address that asynchronous sessions use is rewritten for synchronous ones as the configured address is, for
-- every address.
pub sync_url-async_url : (url : Text) → sync_url (async_url url) ≡ sync_url url
unfolding async_url
sync_url-async_url url = elim (Bool-cases (starts_with (codes "postgres://") url)) [
  | inl e ↦
      subst IsAgreed (sym (starts_with_split (codes "postgres://") url e))
        (agree_postgres (drop_prefix (codes "postgres://") url))
  | inr e ↦ elim (Bool-cases (starts_with (codes "postgresql://") url)) [
    | inl f ↦
        subst IsAgreed (sym (starts_with_split (codes "postgresql://") url f))
          (agree_postgresql (drop_prefix (codes "postgresql://") url))
    | inr f ↦ rw (e, async_url) (rw f refl)
  ]
]
