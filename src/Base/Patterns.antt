-- ===== src/Base/Patterns.antt =====
-- `s ILIKE p` of PostgreSQL: `%` stands for any text, `_` for one character, and `\` escapes the next
-- one. A pattern that ends with `\` alone is an error there, and matches nothing here.
use Prim.Native.Nat.{ℕ}
use mathlib.Core.Path.{◌≡◌, refl}
use mathlib.Core.Logic.{◌≢◌}
use mathlib.Core.Bool.{Bool, true, false, ◌&&◌, ◌||◌}
use native.Mathlib.Omega.{arith}
use backend_ayak_bine.Base.Lists.{All}
use mathlib.Core.List.{[], ◌∷◌, ◌++◌}
use backend_ayak_bine.Base.Tests.{◌==◌}
use backend_ayak_bine.Base.Strings.{Text, lower, is_empty, starts_with}

any_suffix : (Text → Bool) → Text → Bool
any_suffix f [] = f []
any_suffix f (c ∷ s) = f (c ∷ s) || any_suffix f s

after_any : (Text → Bool) → Text → Bool
after_any f [] = false
after_any f (d ∷ s) = f s

after_code : ℕ → (Text → Bool) → Text → Bool
after_code c f [] = false
after_code c f (d ∷ s) = (c == d) && f s

unfoldable pub like : Text → Text → Bool
unfolding any_suffix after_any after_code
like [] s = is_empty s
like (c ∷ []) s = elim (c == b'%') [
  | true ↦ true
  | false ↦ elim (c == b'_') [
    | true ↦ after_any is_empty s
    | false ↦ elim (c == 92) [ true ↦ false | false ↦ after_code c is_empty s ]
  ]
]
like (c ∷ d ∷ p) s = elim (c == b'%') [
  | true ↦ any_suffix (like (d ∷ p)) s
  | false ↦ elim (c == b'_') [
    | true ↦ after_any (like (d ∷ p)) s
    | false ↦ elim (c == 92) [
      | true ↦ after_code d (like p) s
      | false ↦ after_code c (like (d ∷ p)) s
    ]
  ]
]

unfoldable pub ilike : Text → Text → Bool
ilike p s = like (lower p) (lower s)

-- The text occurs in the other.
unfoldable pub contains : Text → Text → Bool
unfolding starts_with
contains p [] = is_empty p
contains p (c ∷ s) = starts_with p (c ∷ s) || contains p s

-- No character with a meaning in patterns.
abbrev pub IsPlain : Text → Type 0
IsPlain p = All (λ c. (c ≢ b'%') × (c ≢ b'_') × (c ≢ 92)) p

lower-IsPlain : (p : Text) → IsPlain p → IsPlain (lower p)
unfolding lower
lower-IsPlain [] h = tt
lower-IsPlain (c ∷ p) h = ground (arith, lower-IsPlain p h.1)

lower-append : (p q : Text) → lower (p ++ q) ≡ lower p ++ lower q
unfolding lower
lower-append [] q = refl
lower-append (c ∷ p) q = ground (arith, lower-append p q)

like-prefix : (p s : Text) → IsPlain p → like (p ++ b'%' ∷ []) s ≡ starts_with p s
unfolding like starts_with after_any after_code any_suffix
like-prefix [] s h = refl
like-prefix (c ∷ []) [] h = ground arith
like-prefix (c ∷ []) (d ∷ s) h = ground arith
like-prefix (c ∷ e ∷ p) [] h = ground arith
like-prefix (c ∷ e ∷ p) (d ∷ s) h = ground (arith, like-prefix (e ∷ p) s h.1)

any_suffix-contains :
    (f : Text → Bool) (p s : Text)
    → ((t : Text) → f t ≡ starts_with p t)
    → any_suffix f s ≡ contains p s
unfolding any_suffix contains
any_suffix-contains f [] [] h = h []
any_suffix-contains f (c ∷ p) [] h = h []
any_suffix-contains f p (c ∷ s) h = ground (arith, h (c ∷ s), any_suffix-contains f p s h)

like-contains : (p s : Text) → IsPlain p → like (b'%' ∷ p ++ b'%' ∷ []) s ≡ contains p s
unfolding like
like-contains [] s h = any_suffix-contains (like (b'%' ∷ [])) [] s (λ t. like-prefix [] t h)
like-contains (c ∷ p) s h =
    any_suffix-contains (like (c ∷ p ++ b'%' ∷ [])) (c ∷ p) s (λ t. like-prefix (c ∷ p) t h)

-- A search for a text without wildcards is the test whether that text occurs.
pub ilike-contains :
    (p s : Text) → IsPlain p → ilike (b'%' ∷ p ++ b'%' ∷ []) s ≡ contains (lower p) (lower s)
unfolding ilike lower
ilike-contains p s h =
    rw (lower-append p (b'%' ∷ [])) (like-contains (lower p) (lower s) (lower-IsPlain p h))
