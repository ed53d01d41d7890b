-- ===== src/Ledger/Links.antt =====
-- Reading the payment links after writing some (`set_payment_links`, `get_payment_links` of
-- app/wallet_service.py).
use backend_ayak_bine.Base.{
  ◌≡◌, refl, ◌∙◌, ap, true, Option, none, some, List, [], ◌∷◌, Text, is_empty, if◌then◌else◌, arith,
}
use backend_ayak_bine.Ledger.Models.{
  PaymentLink, payment_link_wave, payment_link_orange, payment_link_mtn, payment_link_moov,
}
use backend_ayak_bine.Ledger.Service.{
  payment_link_key, is_link, get_payment_link, put_link, put_named, put_links,
}

-- An empty text is no link.
abbrev pub shown : Text → Option Text
shown v = if is_empty v then none else some v

is_link_same : (i j k : PaymentLink) → is_link i j ≡ true → is_link i k ≡ is_link j k
is_link_same payment_link_wave payment_link_wave k h = refl
is_link_same payment_link_orange payment_link_orange k h = refl
is_link_same payment_link_mtn payment_link_mtn k h = refl
is_link_same payment_link_moov payment_link_moov k h = refl
is_link_same payment_link_wave payment_link_orange k h = cc
is_link_same payment_link_wave payment_link_mtn k h = cc
is_link_same payment_link_wave payment_link_moov k h = cc
is_link_same payment_link_orange payment_link_wave k h = cc
is_link_same payment_link_orange payment_link_mtn k h = cc
is_link_same payment_link_orange payment_link_moov k h = cc
is_link_same payment_link_mtn payment_link_wave k h = cc
is_link_same payment_link_mtn payment_link_orange k h = cc
is_link_same payment_link_mtn payment_link_moov k h = cc
is_link_same payment_link_moov payment_link_wave k h = cc
is_link_same payment_link_moov payment_link_orange k h = cc
is_link_same payment_link_moov payment_link_mtn k h = cc

get-put_link :
    (j k : PaymentLink) (v : Text) (links : List (PaymentLink × Text))
    → get_payment_link k (put_link j v links)
      ≡ (if is_link j k then shown v else get_payment_link k links)
unfolding get_payment_link put_link
get-put_link j k v [] = refl
get-put_link j k v ((i, w) ∷ links) = ground (arith, is_link_same i j k, get-put_link j k v links)

-- The value that a request leaves for a link: the last that it gives for the link's name, or the old one.
abbrev pub given : PaymentLink → Text → Option Text → Option Text → Option Text
given k name none old = old
given k name (some v) old = elim (payment_link_key name) [
  | none ↦ old
  | some j ↦ if is_link j k then shown v else old
]

abbrev pub last_given : PaymentLink → List (Text × Option Text) → Option Text → Option Text
last_given k [] old = old
last_given k ((name, value) ∷ items) old = last_given k items (given k name value old)

get-put_named :
    (k : PaymentLink) (name : Text) (value : Option Text) (links : List (PaymentLink × Text))
    → get_payment_link k (put_named name value links)
      ≡ given k name value (get_payment_link k links)
get-put_named k name none links = unnamed (payment_link_key name)
  where
    unnamed :
        (o : Option PaymentLink)
        → get_payment_link k (elim o [ none ↦ links | some j ↦ links ]) ≡ get_payment_link k links
    unnamed none = refl
    unnamed (some j) = refl
get-put_named k name (some v) links = named (payment_link_key name)
  where
    named :
        (o : Option PaymentLink)
        → get_payment_link k (elim o [ none ↦ links | some j ↦ put_link j v links ])
          ≡ elim o as (λ _. Option Text) [
            | none ↦ get_payment_link k links
            | some j ↦ if is_link j k then shown v else get_payment_link k links
          ]
    named none = refl
    named (some j) = get-put_link j k v links

-- After the links of a request are written, a link reads as the last value that the request gave for its name,
-- or as before if it gave none; names that are no link's and missing values change nothing, and an empty text
-- reads as no link.
pub get_payment_link-put_links :
    (k : PaymentLink) (items : List (Text × Option Text)) (links : List (PaymentLink × Text))
    → get_payment_link k (put_links items links) ≡ last_given k items (get_payment_link k links)
unfolding put_links
get_payment_link-put_links k [] links = refl
get_payment_link-put_links k ((name, value) ∷ items) links =
    get_payment_link-put_links k items (put_named name value links)
    ∙ ap (last_given k items) (get-put_named k name value links)
