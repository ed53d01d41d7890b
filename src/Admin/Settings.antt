-- ===== src/Admin/Settings.antt =====
-- The settings that an administrator writes and every user reads: the fee and the payment links of
-- app/api_admin.py and app/api_wallet.py, over `get_payment_links` of app/wallet_service.py.
use backend_ayak_bine.Base.{
  ◌≡◌, refl, ◌∙◌, ap, true, false, Option, none, some, List, [], ◌∷◌, Text, codes, text_eq, leb,
  ◌*◌, reply,
}
use backend_ayak_bine.Money.{Decimal, scale}
use backend_ayak_bine.Ledger.{
  Db, PaymentLink, payment_link_wave, payment_link_orange, payment_link_mtn, payment_link_moov,
}
use backend_ayak_bine.Ledger.Service.{
  get_fee_percent, set_fee_percent, payment_link_key, is_link, get_payment_link, set_payment_links,
  put_links,
}
use backend_ayak_bine.Ledger.Links.{shown, given, last_given, get_payment_link-put_links}
use backend_ayak_bine.Admin.{update_fee_percent_route}

pub record PaymentLinks : Type 0 where
  pub wave : Option Text
  pub orange : Option Text
  pub mtn : Option Text
  pub moov : Option Text

unfoldable pub get_payment_links : Db → PaymentLinks
get_payment_links db = record {
  wave = get_payment_link payment_link_wave db.payment_links;
  orange = get_payment_link payment_link_orange db.payment_links;
  mtn = get_payment_link payment_link_mtn db.payment_links;
  moov = get_payment_link payment_link_moov db.payment_links;
}

-- `GET /payment-links` of the wallet, and `GET /settings/payment-links`.
unfoldable pub get_current_payment_links : Db → PaymentLinks
get_current_payment_links db = get_payment_links db

unfoldable pub get_payment_links_route : Db → PaymentLinks
get_payment_links_route db = get_payment_links db

-- `GET /fee-percent` of the wallet, and `GET /settings/fee-percent`.
unfoldable pub get_current_fee_percent : Db → Decimal
get_current_fee_percent db = get_fee_percent db

unfoldable pub get_fee_percent_route : Db → Decimal
get_fee_percent_route db = get_fee_percent db

-- `payload.model_dump()`
abbrev pub model_dump : PaymentLinks → List (Text × Option Text)
model_dump p =
    (codes "wave", p.wave)
    ∷ (codes "orange", p.orange)
    ∷ (codes "mtn", p.mtn)
    ∷ (codes "moov", p.moov)
    ∷ []

-- `PUT /settings/payment-links`
unfoldable pub update_payment_links_route : PaymentLinks → Db → PaymentLinks × Db
update_payment_links_route payload db =
    let db' = set_payment_links (model_dump payload) db in (get_payment_links db', db')

-- What a request leaves: a value that it gives, no link for an empty one, and else what was there.
abbrev pub or_kept : Option Text → Option Text → Option Text
or_kept none old = old
or_kept (some v) old = shown v

abbrev pub merged : PaymentLinks → PaymentLinks → PaymentLinks
merged p old = record {
  wave = or_kept p.wave old.wave;
  orange = or_kept p.orange old.orange;
  mtn = or_kept p.mtn old.mtn;
  moov = or_kept p.moov old.moov;
}

given_other :
    (j k : PaymentLink) (name : Text) (value old : Option Text)
    → payment_link_key name ≡ some j
    → is_link j k ≡ false
    → given k name value old ≡ old
given_other j k name none old e f = refl
given_other j k name (some v) old e f = rw (e, given) (rw f refl)

given_same :
    (j k : PaymentLink) (name : Text) (value old : Option Text)
    → payment_link_key name ≡ some j
    → is_link j k ≡ true
    → given k name value old ≡ or_kept value old
given_same j k name none old e f = refl
given_same j k name (some v) old e f = rw (e, given) (rw f refl)

-- The value of one link after the four of a request.
abbrev chosen : PaymentLink → PaymentLinks → Option Text
chosen payment_link_wave p = p.wave
chosen payment_link_orange p = p.orange
chosen payment_link_mtn p = p.mtn
chosen payment_link_moov p = p.moov

last_given-model_dump :
    (k : PaymentLink) (p : PaymentLinks) (old : Option Text)
    → last_given k (model_dump p) old ≡ or_kept (chosen k p) old
unfolding payment_link_key text_eq
last_given-model_dump payment_link_wave p old =
    given_other payment_link_moov payment_link_wave (codes "moov") p.moov
      (given payment_link_wave (codes "mtn") p.mtn (
        given payment_link_wave (codes "orange") p.orange
          (given payment_link_wave (codes "wave") p.wave old)))
      refl refl
    ∙ given_other payment_link_mtn payment_link_wave (codes "mtn") p.mtn
        (given payment_link_wave (codes "orange") p.orange
          (given payment_link_wave (codes "wave") p.wave old))
        refl refl
    ∙ given_other payment_link_orange payment_link_wave (codes "orange") p.orange
        (given payment_link_wave (codes "wave") p.wave old) refl refl
    ∙ given_same payment_link_wave payment_link_wave (codes "wave") p.wave old refl refl
last_given-model_dump payment_link_orange p old =
    given_other payment_link_moov payment_link_orange (codes "moov") p.moov
      (given payment_link_orange (codes "mtn") p.mtn (
        given payment_link_orange (codes "orange") p.orange
          (given payment_link_orange (codes "wave") p.wave old)))
      refl refl
    ∙ given_other payment_link_mtn payment_link_orange (codes "mtn") p.mtn
        (given payment_link_orange (codes "orange") p.orange
          (given payment_link_orange (codes "wave") p.wave old))
        refl refl
    ∙ given_same payment_link_orange payment_link_orange (codes "orange") p.orange
        (given payment_link_orange (codes "wave") p.wave old) refl refl
    ∙ ap (or_kept p.orange)
        (given_other payment_link_wave payment_link_orange (codes "wave") p.wave old refl refl)
last_given-model_dump payment_link_mtn p old =
    given_other payment_link_moov payment_link_mtn (codes "moov") p.moov
      (given payment_link_mtn (codes "mtn") p.mtn (
        given payment_link_mtn (codes "orange") p.orange
          (given payment_link_mtn (codes "wave") p.wave old)))
      refl refl
    ∙ given_same payment_link_mtn payment_link_mtn (codes "mtn") p.mtn
        (given payment_link_mtn (codes "orange") p.orange
          (given payment_link_mtn (codes "wave") p.wave old))
        refl refl
    ∙ ap (or_kept p.mtn) (
        given_other payment_link_orange payment_link_mtn (codes "orange") p.orange
          (given payment_link_mtn (codes "wave") p.wave old) refl refl
        ∙ given_other payment_link_wave payment_link_mtn (codes "wave") p.wave old refl refl)
last_given-model_dump payment_link_moov p old =
    given_same payment_link_moov payment_link_moov (codes "moov") p.moov
      (given payment_link_moov (codes "mtn") p.mtn (
        given payment_link_moov (codes "orange") p.orange
          (given payment_link_moov (codes "wave") p.wave old)))
      refl refl
    ∙ ap (or_kept p.moov) (
        given_other payment_link_mtn payment_link_moov (codes "mtn") p.mtn
          (given payment_link_moov (codes "orange") p.orange
            (given payment_link_moov (codes "wave") p.wave old))
          refl refl
        ∙ given_other payment_link_orange payment_link_moov (codes "orange") p.orange
            (given payment_link_moov (codes "wave") p.wave old) refl refl
        ∙ given_other payment_link_wave payment_link_moov (codes "wave") p.wave old refl refl)

link_given :
    (k : PaymentLink) (p : PaymentLinks) (db : Db)
    → get_payment_link k (put_links (model_dump p) db.payment_links)
      ≡ or_kept (chosen k p) (get_payment_link k db.payment_links)
link_given k p db =
    get_payment_link-put_links k (model_dump p) db.payment_links
    ∙ last_given-model_dump k p (get_payment_link k db.payment_links)

links_given :
    (p : PaymentLinks) (db : Db)
    → get_payment_links (set_payment_links (model_dump p) db) ≡ merged p (get_payment_links db)
unfolding get_payment_links set_payment_links
links_given p db = λ i. record {
  wave = link_given payment_link_wave p db i;
  orange = link_given payment_link_orange p db i;
  mtn = link_given payment_link_mtn p db i;
  moov = link_given payment_link_moov p db i;
}

-- After an administrator has set a fee of at most 100 % and then payment links, both routes of each setting show
-- what was set: the fee, and each link that the request gave, none for an empty text, and the old one for a
-- link that it did not give.
pub settings_roundtrip :
    (percent : Decimal) (payload : PaymentLinks) (db : Db)
    → leb percent.coefficient (100 * scale percent) ≡ true
    → let with_fee = (update_fee_percent_route percent db).1 in
      let (answer, written) = update_payment_links_route payload with_fee in
      let links = merged payload (get_payment_links db) in
      ((update_fee_percent_route percent db).0 ≡ reply percent)
      × (answer ≡ links)
      × (get_current_fee_percent written ≡ percent)
      × (get_fee_percent_route written ≡ percent)
      × (get_current_payment_links written ≡ links)
      × (get_payment_links_route written ≡ links)
unfolding update_fee_percent_route update_payment_links_route get_current_fee_percent
    get_fee_percent_route get_current_payment_links get_payment_links_route set_fee_percent
    get_fee_percent get_payment_links set_payment_links
settings_roundtrip percent payload db fits =
    let links = links_given payload (record db { fee_percent = some percent }) in
    rw (fits, update_fee_percent_route) (refl, links, refl, refl, links, links)
