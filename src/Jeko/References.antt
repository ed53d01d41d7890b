-- ===== src/Jeko/References.antt =====
-- The references that the services give to JEKO for the two legs (`…-IN`, `…-OUT`) come back as they were
-- (`_split_reference` of app/services/webhook_service.py).
use backend_ayak_bine.Base.{
  ℕ, ◌<◌, ◌≡◌, refl, false, none, some, [], ◌∷◌, ◌++◌, Text, text_eq, codes, arith, length,
  length-append, text_eq_refl,
}
use backend_ayak_bine.Jeko.Webhook.{Leg, payin, payout, without_suffix, split_reference}

text_eq-longer : (s t : Text) → length t < length s → text_eq s t ≡ false
unfolding text_eq
text_eq-longer [] t h = absurd (omega arith)
text_eq-longer (c ∷ s) [] h = refl
text_eq-longer (c ∷ s) (d ∷ t) h = ground (arith, text_eq-longer s t (omega (arith, h)))

-- A suffix is taken off the text that ends with it.
without_suffix-append :
    (c : ℕ) (suffix s : Text) → without_suffix (c ∷ suffix) (s ++ (c ∷ suffix)) ≡ some s
unfolding without_suffix
without_suffix-append c suffix [] = rw (text_eq_refl (c ∷ suffix)) refl
without_suffix-append c suffix (d ∷ s) =
    rw
      (text_eq-longer (d ∷ s ++ (c ∷ suffix)) (c ∷ suffix)
        (omega (arith, length-append s (c ∷ suffix))))
      (rw (without_suffix-append c suffix s) refl)

-- A text that ends with `-OUT` does not end with `-IN`.
without_in : (s : Text) → without_suffix (codes "-IN") (s ++ codes "-OUT") ≡ none
unfolding without_suffix text_eq
without_in [] = refl
without_in (d ∷ s) =
    rw
      (text_eq-longer (d ∷ s ++ codes "-OUT") (codes "-IN")
        (omega (arith, length-append s (codes "-OUT"))))
      (rw (without_in s) refl)

abbrev pub suffix_of : Leg → Text
suffix_of payin = codes "-IN"
suffix_of payout = codes "-OUT"

-- The reference of a leg is split into the transaction's reference and the leg, whatever the reference is.
pub split_reference_roundtrip :
    (reference : Text) (leg : Leg) → split_reference (reference ++ suffix_of leg) ≡ (reference, leg)
unfolding split_reference
split_reference_roundtrip reference payin =
    rw (without_suffix-append b'-' (codes "IN") reference, split_reference) refl
split_reference_roundtrip reference payout =
    rw (without_in reference, split_reference)
      (rw (without_suffix-append b'-' (codes "OUT") reference) refl)
